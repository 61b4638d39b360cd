-- ===== src/Rpc/Packet/Answer.antt =====
-- Every request from Lua is answered as JSON-RPC asks, and the answer can be written.
use Prim.Native.String.{String}
use text.Mathlib.Text.{◌==◌ as str_eq}
use freekill_asio.Base.{
  if_cases, ◌≡◌, ◌≢◌, refl, ℤ, pos, true, false, Option, none, some, is_negative, arith, Bool-cases,
  Option-cases, inl, inr, ◌⊎◌,
}
use freekill_asio.Rpc.Packet.{
  RpcPacket, RpcError, Outcome, returned, thrown, Param, answer, call_found, handle_request,
  response, response_error, get_error_object,
}
use freekill_asio.Rpc.Read.{send_answer}

abbrev pub error_code : RpcPacket → ℤ
error_code p = go p.error
  where
    go : RpcError → ℤ
    go e = e.code

-- What an answer to `req` may be.
abbrev pub IsAnswer : RpcPacket → Option RpcPacket → Type 0
IsAnswer req none = is_negative req.id ≡ true
IsAnswer req (some res) =
    (is_negative (error_code res) ≡ true)
    ⊎ ((error_code res ≡ pos 0) × (res.id ≡ req.id) × (is_negative req.id ≡ false))

answer-IsAnswer : (req : RpcPacket) (o : Outcome) → IsAnswer req (answer req o)
unfolding answer response response_error get_error_object
answer-IsAnswer req (returned false v) = inl (ground arith)
answer-IsAnswer req (thrown what) = inl (ground arith)
answer-IsAnswer req (returned true v) = elim (Bool-cases (is_negative req.id)) [
  | inl n ↦ rw n n
  | inr n ↦ rw n (inr (refl, refl, n))
]

sendable :
    (req : RpcPacket) (o : Option RpcPacket)
    → IsAnswer req o
    → req.id ≢ pos 0
    → send_answer o ≢ none
unfolding send_answer
sendable req none h z = λ e. ground (arith, e)
sendable req (some res) (inl n) z = λ e. ground (arith, n, e)
sendable req (some res) (inr (c, i, n)) z = λ e. ground (arith, c, i, n, z, e)

module _ {S : Type 0} (methods : String → Option (RpcPacket → S → S × Outcome)) where
  -- A request is answered with a response under its id or with an error of negative code; only one
  -- without an id may go unanswered.
  pub handle_request-IsAnswer :
      (req : RpcPacket) (s : S) → IsAnswer req (handle_request methods req s).1
  unfolding handle_request call_found response_error get_error_object
  handle_request-IsAnswer req s =
      if_cases (λ (o : S × Option RpcPacket). IsAnswer req o.1) (str_eq req.method "")
        (λ e. inl (ground arith))
        (λ e. elim (Option-cases (methods req.method)) [
          | inl n ↦ rw n (inl (ground arith))
          | inr (f, n) ↦ rw n (answer-IsAnswer req (f req s).1)
        ])

  -- The answer to a request whose id is not 0 can be written. With id 0, a success makes the code
  -- throw.
  pub send_answer-handle_request :
      (req : RpcPacket) (s : S)
      → (req.id ≢ pos 0 → send_answer (handle_request methods req s).1 ≢ none)
        × ((f : RpcPacket → S → S × Outcome) (t : S) (v : Param)
            → req.id ≡ pos 0
            → str_eq req.method "" ≡ false
            → methods req.method ≡ some f
            → f req s ≡ (t, returned true v)
            → send_answer (handle_request methods req s).1 ≡ none)
  unfolding handle_request call_found answer response send_answer
  send_answer-handle_request req s = (
    λ z. sendable req (handle_request methods req s).1 (handle_request-IsAnswer req s) z,
    λ f t v z m e g. rw (m, e, g, z) refl,
  )

-- ===== src/Network/Router.antt =====
-- `Router` of src/network/router.cpp: the requests that a user owes an answer to. The socket, and
-- what is sent over it, stand with the player; times are in milliseconds.
use freekill_asio.Base.{
  to_int, suc, ℕ, ◌+◌, ◌*◌, ◌/◌, ◌%◌, ◌^◌, ◌≡◌, refl, ◌∙◌, ==ℤ_iff, ℤ, pos, negsuc, Bool, true,
  false, not, List, [], ◌∷◌, ◌++◌, Option, none, some, if◌then◌else◌, ◌==◌, ltb, arith,
}
use freekill_asio.Base.Map.{contains, remove_first, contains-snoc}
use freekill_asio.Network.Builder.{Packet}
use freekill_asio.Util.Compress.{Zlib, q_uncompress_std}

-- `m_reply`: "__notready", "", or the data of a packet.
pub data Reply : Type 0 where
  not_ready aborted : Reply
  answered : List ℕ → Reply

pub record Router : Type 0 where
  pub expected_reply_ids : List ℤ
  pub reply_timeout : ℤ
  pub request_start_time : ℕ
  pub reply : Reply

-- Which callback a packet leads to.
pub data Signal : Type 0 where
  ignored reply_ready : Signal
  notification_got : Packet → Signal

-- Whether a bit of an `int` in two's complement is set.
abbrev pub has_bit : ℕ → ℤ → Bool
has_bit k (pos n) = n / 2 ^ k % 2 == 1
has_bit k (negsuc n) = n / 2 ^ k % 2 == 0

abbrev pub is_compressed : Packet → Bool
is_compressed p = has_bit 12 p.kind

abbrev pub is_notification : Packet → Bool
is_notification p = has_bit 10 p.kind

abbrev pub is_reply : Packet → Bool
is_reply p = has_bit 9 p.kind

-- The counter of request ids that all routers share.
unfoldable pub after_request_id : ℕ → ℕ
after_request_id n = if ltb 10000000 (n + 1) then 1 else n + 1

-- `Router::request`, with the id that is sent
unfoldable pub request : ℤ → ℕ → ℕ → Router → Router × ℕ
unfolding after_request_id
request timeout now last r =
    let id = after_request_id last in
    (
      record r {
        expected_reply_ids = r.expected_reply_ids ++ pos id ∷ [];
        reply_timeout = timeout;
        request_start_time = now;
        reply = not_ready;
      },
      id,
    )

unfoldable pub abort_request : Router → Router
abort_request r = record r { reply = aborted }

-- Whether the time for an answer is over; a negative timeout never is. The product with 1000 is an
-- `int`, which wraps around for timeouts of 25 days and more, as compiled.
abbrev pub is_late : ℕ → Router → Bool
is_late now r = is_over r.reply_timeout
  where
    is_past : ℤ → Bool
    is_past (pos n) = ltb (n + r.request_start_time) now
    is_past (negsuc n) = ltb r.request_start_time (now + suc n)

    is_over : ℤ → Bool
    is_over (pos t) = is_past (to_int (pos (t * 1000)))
    is_over (negsuc t) = false

-- A packet once its data is there.
unfoldable pub handle_data : ℕ → Packet → List ℕ → Router → Router × Signal
handle_data now p bytes r =
    if is_notification p
    then (r, notification_got p)
    else if not (is_reply p)
    then (r, ignored)
    else if not (contains p.request_id r.expected_reply_ids)
    then (r, ignored)
    else let s : Router = record r {
      expected_reply_ids = remove_first p.request_id r.expected_reply_ids;
    } in
      if is_late now s then (s, ignored) else (record s { reply = answered bytes }, reply_ready)

handle_found : ℕ → Packet → Option (List ℕ) → Router → Option (Router × Signal)
unfolding handle_data
handle_found now p none r = none
handle_found now p (some bytes) r = some (handle_data now p bytes r)

-- `Router::handlePacket`; nothing comes of it where decompression throws.
unfoldable pub handle_packet : Zlib → ℕ → Packet → Router → Option (Router × Signal)
unfolding handle_found
handle_packet z now p r =
    handle_found now p
      (if is_compressed p then q_uncompress_std z p.cbor_data else some p.cbor_data) r

-- What a reply that is not compressed does: an id that is expected is expected once less; in time,
-- its data is the answer and the room is told, but late, the answer stays what it was. An id that is
-- not expected changes nothing, so that no answer is taken twice.
pub handle_packet_lem :
    (z : Zlib) (now : ℕ) (p : Packet) (r : Router)
    → is_compressed p ≡ false
    → is_notification p ≡ false
    → is_reply p ≡ true
    → let taken : Router = record r {
      expected_reply_ids = remove_first p.request_id r.expected_reply_ids;
    } in
      (contains p.request_id r.expected_reply_ids ≡ false
        → handle_packet z now p r ≡ some (r, ignored))
      × (contains p.request_id r.expected_reply_ids ≡ true
          → is_late now r ≡ false
          → handle_packet z now p r
            ≡ some (record taken { reply = answered p.cbor_data }, reply_ready))
      × (contains p.request_id r.expected_reply_ids ≡ true
          → is_late now r ≡ true
          → handle_packet z now p r ≡ some (taken, ignored))
unfolding handle_packet handle_found handle_data
handle_packet_lem z now p r c n y =
    (λ e. rw (c, n, y, e) refl, λ e l. rw (c, n, y, e, l) refl, λ e l. rw (c, n, y, e, l) refl)

remove_first-snoc :
    (i : ℤ) (xs : List ℤ) → contains i xs ≡ false → remove_first i (xs ++ i ∷ []) ≡ xs
unfolding contains remove_first
remove_first-snoc i [] h = ground (arith, ==ℤ_iff i i)
remove_first-snoc i (x ∷ xs) h = ground (arith, h, remove_first-snoc i xs (ground (arith, h)))

-- A request under an id that no expected reply has is answered by the first reply to it that is in
-- time and not compressed, after which the ids that are expected are those from before the request;
-- a second reply to the id, whenever it comes, changes nothing if it is not compressed.
pub request_answered_once :
    (z : Zlib) (timeout : ℤ) (sent now later last : ℕ) (p q : Packet) (r : Router)
    → contains (pos (after_request_id last)) r.expected_reply_ids ≡ false
    → is_late now (request timeout sent last r).0 ≡ false
    → p.request_id ≡ pos (after_request_id last)
    → q.request_id ≡ pos (after_request_id last)
    → is_compressed p ≡ false
    → is_compressed q ≡ false
    → is_notification p ≡ false
    → is_notification q ≡ false
    → is_reply p ≡ true
    → is_reply q ≡ true
    → let u : Router = record ((request timeout sent last r).0) {
      expected_reply_ids = r.expected_reply_ids;
      reply = answered p.cbor_data;
    } in
      (handle_packet z now p (request timeout sent last r).0 ≡ some (u, reply_ready))
      × (handle_packet z later q u ≡ some (u, ignored))
unfolding request
request_answered_once z timeout sent now later last p q r new l pi qi pc qc pn qn pr qr =
    let s = (request timeout sent last r).0 in
    let i = pos (after_request_id last) in
    let u : Router = record s {
      expected_reply_ids = r.expected_reply_ids;
      reply = answered p.cbor_data;
    } in
    (
      (handle_packet_lem z now p s pc pn pr).1
            (rw pi (ground (arith, contains-snoc i i r.expected_reply_ids, ==ℤ_iff i i))) l
          ∙ rw (pi, remove_first-snoc i r.expected_reply_ids new) refl,
      (handle_packet_lem z later q u qc qn qr).0 (rw qi new),
    )

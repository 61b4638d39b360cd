-- ===== src/Rpc/Builder/ErrorCode.antt =====
-- How the code of an error is read that `sendError` has written.
use freekill_asio.Base.{
  ℕ, ◌-◌, ◌%◌, ◌^◌, ◌<◌, ◌≡◌, refl, ◌∙◌, ap, ℤ, pos, negsuc, some, to_int, to_int64, arith,
}
use freekill_asio.Rpc.Encode.{
  Item, uint8, uint16, uint32, uint64, negint8, negint16, negint32, negint64, byte_string,
  array_start, map_start, bool, other, value_of, Encoder, IsEncoder, to_uint64,
}
use freekill_asio.Rpc.Builder.{
  Builder, reading_error_v, on_item, handle_integer, handle_integer_in, int_error_value,
  next_error_key, set_code,
}

abbrev IsFlipped : Item → ℕ → Builder → Type 0
IsFlipped x c b = (z : ℤ) × (on_item x b ≡ handle_integer z b) × (to_int z ≡ pos c)

flipped :
    (x : Item) (c : ℕ) (b : Builder)
    → value_of x ≡ some (negsuc (2 ^ 64 - 1 - c))
    → ((m : ℕ) → x ≡ negint32 m → m < 2 ^ 32)
    → c < 2 ^ 31
    → IsFlipped x c b
unfolding on_item to_int to_int64
flipped (negint8 m) c b v w l = (negsuc m, refl, ground (arith, v, l))
flipped (negint16 m) c b v w l = (negsuc m, refl, ground (arith, v, l))
flipped (negint32 m) c b v w l = absurd (ground (arith, v, l, w m refl))
flipped (negint64 m) c b v w l = (to_int64 (2 ^ 64 - 1 - m % 2 ^ 64), refl, ground (arith, v, l))
flipped (uint8 m) c b v w l = absurd (ground (arith, v))
flipped (uint16 m) c b v w l = absurd (ground (arith, v))
flipped (uint32 m) c b v w l = absurd (ground (arith, v))
flipped (uint64 m) c b v w l = absurd (ground (arith, v))
flipped (byte_string t) c b v w l = absurd (ground (arith, v))
flipped (array_start m) c b v w l = absurd (ground (arith, v))
flipped (map_start m) c b v w l = absurd (ground (arith, v))
flipped (bool t) c b v w l = absurd (ground (arith, v))
flipped other c b v w l = absurd (ground (arith, v))

code_read :
    (z : ℤ) (c : ℕ) (b : Builder)
    → to_int z ≡ pos c
    → b.state ≡ reading_error_v
    → b.current_err_key ≡ pos 200
    → handle_integer z b ≡ next_error_key (set_code (pos c) b)
unfolding handle_integer handle_integer_in int_error_value
code_read z c b g s k = rw (s, k, g) refl

-- The code of an error, -1 - c, is read as the number c: it is written without the step from a
-- negative number to the argument that CBOR has for it.
pub on_item-negint :
    (e : Encoder)
    → IsEncoder e
    → (c : ℕ) (b : Builder) → c < 2 ^ 31
    → b.state ≡ reading_error_v
    → b.current_err_key ≡ pos 200
    → on_item (e.negint (to_uint64 (negsuc c))) b ≡ next_error_key (set_code (pos c) b)
on_item-negint e is_encoder c b l s k =
    let (z, f, g) =
      flipped (e.negint (to_uint64 (negsuc c))) c b
        (is_encoder.negint_value (to_uint64 (negsuc c)) (omega arith)
          ∙ ap some (ap negsuc (omega arith)))
        (λ m h. (is_encoder.shortest (to_uint64 (negsuc c)) m h).1) l in
    f ∙ code_read z c b g s k

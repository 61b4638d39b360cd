-- ===== src/Util/Hex.antt =====
-- `toHex` of src/core/util.cpp. Bytes are numbers below 256, characters their ASCII codes.
use freekill_asio.Base.{
  ℕ, ◌+◌, ◌-◌, ◌*◌, ◌/◌, ◌%◌, ◌<◌, ◌≤◌, ◌≡◌, refl, ap, ◌⊎◌, ltb, leb, if◌then◌else◌, List, [], ◌∷◌,
  Option, none, some, arith,
}
use mathlib.Core.Option

abbrev pub hex_digit : ℕ → ℕ
hex_digit d = if ltb d 10 then b'0' + d else b'a' + (d - 10)

-- `std::hex << std::setw(2) << std::setfill('0')`, byte by byte
unfoldable pub to_hex : List ℕ → List ℕ
to_hex [] = []
to_hex (c ∷ cs) = hex_digit (c / 16) ∷ hex_digit (c % 16) ∷ to_hex cs

abbrev pub AllBytes : List ℕ → Type 0
AllBytes [] = Unit {0}
AllBytes (c ∷ cs) = (c < 256) × AllBytes cs

abbrev pub IsHexDigit : ℕ → Type 0
IsHexDigit c = ((b'0' ≤ c) × (c ≤ b'9')) ⊎ ((b'a' ≤ c) × (c ≤ b'f'))

abbrev pub AllHexDigits : List ℕ → Type 0
AllHexDigits [] = Unit {0}
AllHexDigits (c ∷ cs) = IsHexDigit c × AllHexDigits cs

abbrev digit_value : ℕ → ℕ
digit_value c = if leb c b'9' then c - b'0' else c - b'a' + 10

-- The reader of a hexadecimal literal, such as SQL's X'…'.
unfoldable pub from_hex : List ℕ → Option (List ℕ)
from_hex [] = some []
from_hex (h ∷ []) = none
from_hex (h ∷ l ∷ cs) = Option.map (λ bs. (digit_value h * 16 + digit_value l) ∷ bs) (from_hex cs)

hex_digit-IsHexDigit : (d : ℕ) → d < 16 → IsHexDigit (hex_digit d)
hex_digit-IsHexDigit d h = ground arith

digit_value-hex_digit : (d : ℕ) → d < 16 → digit_value (hex_digit d) ≡ d
digit_value-hex_digit d h = ground arith

to_hex-AllHexDigits : (bs : List ℕ) → AllBytes bs → AllHexDigits (to_hex bs)
unfolding to_hex
to_hex-AllHexDigits [] h = tt
to_hex-AllHexDigits (c ∷ cs) h = (
  hex_digit-IsHexDigit (c / 16) (omega arith),
  (hex_digit-IsHexDigit (c % 16) (omega arith), to_hex-AllHexDigits cs h.1),
)

from_hex-to_hex : (bs : List ℕ) → AllBytes bs → from_hex (to_hex bs) ≡ some bs
unfolding to_hex from_hex
from_hex-to_hex [] h = refl
from_hex-to_hex (c ∷ cs) h =
    rw
      (
        from_hex-to_hex cs h.1,
        digit_value-hex_digit (c / 16) (omega arith),
        digit_value-hex_digit (c % 16) (omega arith),
      )
      (ap (λ (b : ℕ). some (b ∷ cs)) (omega arith))

-- The text of any bytes consists of hexadecimal digits, so it cannot close the quote of a SQL
-- literal X'…', and reads back as the same bytes.
pub to_hex_lem :
    (bs : List ℕ) → AllBytes bs → AllHexDigits (to_hex bs) × (from_hex (to_hex bs) ≡ some bs)
to_hex_lem bs h = (to_hex-AllHexDigits bs h, from_hex-to_hex bs h)

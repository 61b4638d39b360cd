-- ===== src/Util/SqlText/Tests.antt =====
-- Text in SQL statements at concrete inputs.
use Prim.Native.String.{◌∷◌, ◌++◌}
use freekill_asio.Base.{◌≡◌, refl, false, some}
use freekill_asio.Util.SqlText.{check_string, quote, read_literal, read_literal-check_string}

injection_refused : check_string "x'y" ≡ false
unfolding check_string
injection_refused = refl

-- A name between quotes, and what follows it in the statement.
read_literal-check_string_example :
    read_literal false ("alice" ++ (quote ∷ ";")) ≡ some ("alice", ";")
read_literal-check_string_example =
    read_literal-check_string "alice" ";" (unfold check_string in refl) refl

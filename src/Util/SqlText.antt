-- ===== src/Util/SqlText.antt =====
-- `Sqlite3::checkString` of src/core/c-wrapper.cpp: which text may stand in an SQL statement.
mod Tests
use Prim.Native.Char.{Char, code}
use Prim.Native.String.{String, [], ◌∷◌, ◌++◌}
use text.Mathlib.TextLemmas.{nil-append, cons-append}
use freekill_asio.Base.{
  ℕ, ◌≡◌, refl, Bool, true, false, not, ◌&&◌, ◌||◌, ◌==◌, if◌then◌else◌, Option, none, some, arith,
}

-- The class of characters of the expression: quotes, ; # * / \ ? < > | : and the space.
abbrev is_refused : ℕ → Bool
is_refused n =
    n == 39
    || n == 34
    || n == 59
    || n == 35
    || n == 42
    || n == 32
    || n == 47
    || n == 92
    || n == 63
    || n == 60
    || n == 62
    || n == 124
    || n == 58

abbrev begins_with : ℕ → String → Bool
begins_with n [] = false
begins_with n (c ∷ s) = code c == n

-- The other alternatives of the expression hold a character of the class, or are two dashes.
unfoldable pub check_string : String → Bool
check_string [] = true
check_string (c ∷ s) =
    let rest = check_string s in
    not (is_refused (code c)) && not (code c == 45 && begins_with 45 s) && rest

abbrev quote : Char
quote = "'"

abbrev prepend : Char → Option (String × String) → Option (String × String)
prepend c none = none
prepend c (some (s, rest)) = some (c ∷ s, rest)

-- How SQL reads a literal after its opening quote: two quotes stand for one, and one quote ends it.
-- The result is the text, and what follows; the flag says that a quote has just been read.
pub read_literal : Bool → String → Option (String × String)
read_literal false [] = none
read_literal true [] = some ([], [])
read_literal false (c ∷ s) =
    let closed = read_literal true s in
    let rest = read_literal false s in if code c == 39 then closed else prepend c rest
read_literal true (c ∷ s) =
    let rest = read_literal false s in if code c == 39 then prepend c rest else some ([], c ∷ s)

ends : (rest : String) → begins_with 39 rest ≡ false → read_literal true rest ≡ some ([], rest)
unfolding read_literal
ends [] h = refl
ends (c ∷ rest) h = ground (arith, h)

and_parts : (a b c : Bool) → a && b && c ≡ true → (a ≡ true) × (c ≡ true)
and_parts a b c h = (ground (arith, h), ground (arith, h))

no_quote : (n : ℕ) → not (is_refused n) ≡ true → n == 39 ≡ false
no_quote n h = ground (arith, h)

check_string_parts :
    (c : Char) (s : String)
    → check_string (c ∷ s) ≡ true
    → (code c == 39 ≡ false) × (check_string s ≡ true)
unfolding check_string
check_string_parts c s h =
    let (a, b) =
      and_parts (not (is_refused (code c))) (not (code c == 45 && begins_with 45 s))
        (check_string s) h in
    (no_quote (code c) a, b)

goes_on :
    (c : Char) (t : String)
    → code c == 39 ≡ false
    → read_literal false (c ∷ t) ≡ prepend c (read_literal false t)
unfolding read_literal
goes_on c t h = rw h refl

-- A text that `checkString` lets pass, put between quotes, is read as a literal of just that text,
-- with what follows the closing quote untouched.
pub read_literal-check_string :
    (s rest : String)
    → check_string s ≡ true
    → begins_with 39 rest ≡ false
    → read_literal false (s ++ (quote ∷ rest)) ≡ some (s, rest)
unfolding read_literal
read_literal-check_string [] rest h e = rw (nil-append (quote ∷ rest)) (ends rest e)
read_literal-check_string (c ∷ s) rest h e =
    let (a, b) = check_string_parts c s h in
    rw
      (
        cons-append c s (quote ∷ rest),
        goes_on c (s ++ (quote ∷ rest)) a,
        read_literal-check_string s rest b e,
      )
      refl

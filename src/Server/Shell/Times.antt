-- ===== src/Server/Shell/Times.antt =====
-- The commands of src/server/admin/shell.cpp that ban or mute a user for a time.
use Prim.Native.String.{String}
use text.Mathlib.Text.{◌==◌ as str_eq}
use freekill_asio.Base.{
  ℕ, ◌+◌, ◌*◌, ◌/◌, ◌^◌, ℤ, pos, negsuc, Bool, true, List, [], ◌∷◌, Option, none, some,
  if◌then◌else◌, ltb,
}
use freekill_asio.Server.Auth.{Row, field, Libraries}
use freekill_asio.Server.Auth.Enter.{Login}
use freekill_asio.Server.Shell.Bans.{user_row, run_sql, kick_if, for_each}

-- What the clock and `std::stol` give: the nanoseconds since 1970, and the number at the head of a
-- text with what stands behind it, if the text has one.
pub record Clock : Type 0 where
  pub now : ℕ
  pub stol : String → Option (ℤ × String)

-- The seconds of a unit.
unfoldable pub seconds_of : String → Option ℕ
seconds_of unit =
    if str_eq unit "m"
    then some 60
    else if str_eq unit "h"
    then some 3600
    else if str_eq unit "d"
    then some 86400
    else if str_eq unit "mo"
    then some 2592000
    else none

abbrev pub fits_int64 : ℕ → Bool
fits_int64 n = ltb n (2 ^ 63)

-- The end of a duration, in seconds: `system_clock` counts nanoseconds, and what does not fit into
-- its 64 bits is undefined behaviour, `none` here.
unfoldable pub end_after : ℕ → ℕ → Option ℕ
end_after now seconds =
    let end_point = now + seconds * 1000000000 in
    if fits_int64 end_point then some (end_point / 1000000000) else none

-- What becomes of the text of a duration: a warning, an end, or undefined behaviour.
pub data Until : Type 0 where
  invalid undefined : Until
  second : ℕ → Until

unfoldable pub end_of : Option ℕ → Until
end_of none = undefined
end_of (some t) = second t

unfoldable pub until_of : ℕ → ℕ → Option ℕ → Until
unfolding end_after end_of
until_of now value none = invalid
until_of now value (some seconds) = end_of (end_after now (value * seconds))

unfoldable pub read_until : ℕ → Option (ℤ × String) → Until
unfolding until_of seconds_of
read_until now none = invalid
read_until now (some (negsuc n, unit)) = invalid
read_until now (some (pos n, unit)) = until_of now n (seconds_of unit)

module _ {Db : Type 0} (x : Libraries Db) where
  unfoldable pub tempban_row : ℕ → Option Row → Login Db → Login Db
  unfolding kick_if
  tempban_row t none l = l
  tempban_row t (some obj) l =
      let id = x.atoi (field obj "id") in
      kick_if x true id (
        run_sql x
          ("REPLACE INTO tempban (uid, expireAt) VALUES ("
            ∷ x.show id
            ∷ ", "
            ∷ x.show (pos t)
            ∷ ");"
            ∷ [])
          (run_sql x ("UPDATE userinfo SET banned=1 WHERE id=" ∷ x.show id ∷ ";" ∷ []) l))

  unfoldable pub tempban_until : Until → String → Login Db → Option (Login Db)
  unfolding tempban_row user_row
  tempban_until invalid name l = some l
  tempban_until undefined name l = none
  tempban_until (second t) name l = some (tempban_row t (user_row x "id" name l.db) l)

  -- `tempbanCommand`; `none` is undefined behaviour.
  unfoldable pub tempban_command : Clock → List String → Login Db → Option (Login Db)
  unfolding tempban_until read_until
  tempban_command k (name ∷ duration ∷ []) l =
      tempban_until (read_until k.now (k.stol duration)) name l
  tempban_command k [] l = some l
  tempban_command k (name ∷ []) l = some l
  tempban_command k (name ∷ duration ∷ rest ∷ more) l = some l

  unfoldable pub tempmute_row : ℕ → Option Row → Login Db → Login Db
  tempmute_row t none l = l
  tempmute_row t (some obj) l =
      run_sql x
        ("REPLACE INTO tempmute (uid, expireAt, type) VALUES ("
          ∷ x.show (x.atoi (field obj "id"))
          ∷ ", "
          ∷ x.show (pos t)
          ∷ ", 1);"
          ∷ [])
        l

  unfoldable pub tempmute_until : Until → String → Login Db → Option (Login Db)
  unfolding tempmute_row user_row
  tempmute_until invalid name l = some l
  tempmute_until undefined name l = none
  tempmute_until (second t) name l = some (tempmute_row t (user_row x "id" name l.db) l)

  -- `tempmuteCommand`
  unfoldable pub tempmute_command : Clock → List String → Login Db → Option (Login Db)
  unfolding tempmute_until read_until
  tempmute_command k (name ∷ duration ∷ []) l =
      tempmute_until (read_until k.now (k.stol duration)) name l
  tempmute_command k [] l = some l
  tempmute_command k (name ∷ []) l = some l
  tempmute_command k (name ∷ duration ∷ rest ∷ more) l = some l

  unfoldable pub unmute_row : Option Row → Login Db → Login Db
  unmute_row none l = l
  unmute_row (some obj) l =
      run_sql x ("DELETE FROM tempmute WHERE uid=" ∷ x.show (x.atoi (field obj "id")) ∷ ";" ∷ []) l

  -- `unmuteCommand`
  unfoldable pub unmute_command : List String → Login Db → Login Db
  unfolding for_each unmute_row user_row
  unmute_command names l = for_each x (λ name m. unmute_row (user_row x "id" name m.db) m) names l

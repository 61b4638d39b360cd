-- ===== src/Server/Packets/Account.antt =====
-- What a user may change of the account: `updateAvatar` and `updatePassword` of
-- src/server/room/lobby.cpp.
pub mod Changed
use Prim.Native.String.{String}
use text.Mathlib.Text.{◌==◌ as str_eq}
use freekill_asio.Base.{ℕ, not, ◌||◌, [], ◌∷◌, Option, none, some, if◌then◌else◌, ◌==◌}
use freekill_asio.Util.SqlText.{check_string}
use freekill_asio.Server.World.{ServerPlayer, set_player, tell, do_notify}
use freekill_asio.Server.Auth.{Row, field, first, Libraries, joined}
use freekill_asio.Server.Auth.Password.{hash_of}
use freekill_asio.Server.Auth.Enter.{Login}

-- The fields of a packet that changes a password.
pub record PasswordFields : Type 0 where
  pub count : ℕ
  pub old : Option String
  pub fresh : Option String

module _ {Db : Type 0} (x : Libraries Db) where
  unfoldable pub store_avatar : ServerPlayer → String → Login Db → Login Db
  store_avatar p a l = record l {
    db =
        x.exec
          (joined ("UPDATE userinfo SET avatar='" ∷ a ∷ "' WHERE id=" ∷ x.show p.id ∷ ";" ∷ []))
          l.db;
    world = tell (do_notify p "UpdateAvatar") (set_player (record p { avatar = a }) l.world);
  }

  -- `Lobby::updateAvatar`, of the text that the packet holds
  unfoldable pub update_avatar : Option String → ServerPlayer → Login Db → Login Db
  unfolding check_string store_avatar
  update_avatar none p l = l
  update_avatar (some a) p l = if str_eq a "" || not (check_string a) then l else store_avatar p a l

  abbrev pub password_row : ServerPlayer → Db → Row
  password_row p db = first (
      x.select (joined ("SELECT password, salt FROM userinfo WHERE id=" ∷ x.show p.id ∷ ";" ∷ []))
        db)

  abbrev pub salted : String → Row → String
  salted pw row = hash_of x (x.bytes_of pw) (field row "salt")

  abbrev pub password_sql : ServerPlayer → String → String
  password_sql p hash =
      joined ("UPDATE userinfo SET password='" ∷ hash ∷ "' WHERE id=" ∷ x.show p.id ∷ ";" ∷ [])

  unfoldable pub change_password : ServerPlayer → String → String → Login Db → Login Db
  change_password p old fresh l =
      let row = password_row p l.db in
      record l {
        db =
            if str_eq (field row "password") (salted old row)
            then x.exec (password_sql p (salted fresh row)) l.db
            else l.db;
        world = tell (do_notify p "UpdatePassword") l.world;
      }

  unfoldable pub take_passwords : Option String → Option String → ServerPlayer → Login Db → Login Db
  unfolding change_password
  take_passwords (some old) (some fresh) p l =
      if str_eq old "" || str_eq fresh "" then l else change_password p old fresh l
  take_passwords _ _ p l = l

  -- `Lobby::updatePassword`; the code takes it for granted that the user has a row.
  unfoldable pub update_password : PasswordFields → ServerPlayer → Login Db → Login Db
  unfolding take_passwords
  update_password f p l = if not (f.count == 2) then l else take_passwords f.old f.fresh p l

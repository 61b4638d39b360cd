-- ===== src/Server/Packets/Account/Changed.antt =====
-- A password that was changed is the one that a login wants.
use Prim.Native.String.{String}
use text.Mathlib.Text.{◌==◌ as str_eq}
use text.Mathlib.TextPositions.{eq_refl}
use freekill_asio.Base.{◌≡◌, refl, true, false, some}
use freekill_asio.Server.World.{tell, do_notify, ServerPlayer}
use freekill_asio.Server.Users.{find_player}
use freekill_asio.Server.Auth.{Row, field, Libraries, Visit}
use freekill_asio.Server.Auth.Setup.{Setup}
use freekill_asio.Server.Auth.Enter.{Login, found_player, take_over, check_hash}
use freekill_asio.Server.Packets.Account.{
  update_password, take_passwords, change_password, password_row, salted, password_sql,
}

module _ {Db : Type 0} (x : Libraries Db) where
  -- A user gives an old and a new password, neither of them empty. If the old one is not the one of
  -- the user's row, the data base stays as it is. If it is, one statement is run, which writes a
  -- hash; and once the row holds this hash under the same salt, a login passes the check with the
  -- new password.
  pub update_password_lem :
      (p : ServerPlayer) (old fresh : String) (l : Login Db)
      → str_eq old "" ≡ false
      → str_eq fresh "" ≡ false
      → let row = password_row x p l.db in
        let hash = salted x fresh row in
        let m = update_password x (record { count = 2; old = some old; fresh = some fresh }) p l in
        (str_eq (field row "password") (salted x old row) ≡ false → m.db ≡ l.db)
        × (str_eq (field row "password") (salted x old row) ≡ true
            → (m.db ≡ x.exec (password_sql x p hash) l.db)
              × ((v : Visit) (s : Setup) (obj : Row)
                  → field obj "password" ≡ hash
                  → field obj "salt" ≡ field row "salt"
                  → check_hash x v s (x.bytes_of fresh) obj m
                    ≡ take_over x v s obj
                        (found_player (find_player (x.atoi (field obj "id")) m.world) m.world)
                        m))
        × (m.world ≡ tell (do_notify p "UpdatePassword") l.world)
  unfolding update_password take_passwords change_password check_hash
  update_password_lem p old fresh l a b = (
    λ h. rw (a, b, h) refl,
    λ h. (
      rw (a, b, h) refl,
      λ v s obj e f. rw (e, f, eq_refl (salted x fresh (password_row x p l.db))) refl,
    ),
    rw (a, b) refl,
  )

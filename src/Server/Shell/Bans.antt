-- ===== src/Server/Shell/Bans.antt =====
-- The commands of src/server/admin/shell.cpp that ban accounts, addresses and devices.
use Prim.Native.String.{String}
use freekill_asio.Base.{ℤ, Bool, true, false, not, List, [], ◌∷◌, Option, none, some, if◌then◌else◌}
use freekill_asio.Util.SqlText.{check_string}
use freekill_asio.Server.World.{World, kicked, tell}
use freekill_asio.Server.Users.{find_player}
use freekill_asio.Server.Game.{with_user}
use freekill_asio.Server.Auth.{Row, field, Libraries, joined}
use freekill_asio.Server.Auth.Enter.{Login}

-- `emitKicked` for the object of a user, if there is one.
unfoldable pub kick_user : ℤ → World → World
unfolding find_player
kick_user id w = with_user id (λ p v. tell (kicked p.conn_id ∷ []) v) w

-- The first row of a result, if it has one.
abbrev pub first_row : List Row → Option Row
first_row [] = none
first_row (row ∷ rows) = some row

module _ {Db : Type 0} (x : Libraries Db) where
  abbrev pub run_sql : List String → Login Db → Login Db
  run_sql pieces l = record l { db = x.exec (joined pieces) l.db }

  -- The row of a user whose name may stand in a statement.
  unfoldable pub user_row : String → String → Db → Option Row
  unfolding check_string
  user_row columns name db =
      if not (check_string name)
      then none
      else first_row (
          x.select (joined ("SELECT " ∷ columns ∷ " FROM userinfo WHERE name='" ∷ name ∷ "';" ∷ []))
            db)

  unfoldable pub kick_if : Bool → ℤ → Login Db → Login Db
  unfolding kick_user
  kick_if banned id l = if banned then record l { world = kick_user id l.world } else l

  abbrev digit : Bool → String
  digit true = "1"
  digit false = "0"

  unfoldable pub ban_row : Bool → Option Row → Login Db → Login Db
  unfolding kick_if
  ban_row banned none l = l
  ban_row banned (some obj) l =
      let id = x.atoi (field obj "id") in
      kick_if banned id (
        run_sql ("UPDATE userinfo SET banned=" ∷ digit banned ∷ " WHERE id=" ∷ x.show id ∷ ";" ∷ [])
          l)

  -- `banAccount`
  unfoldable pub ban_account : Bool → String → Login Db → Login Db
  unfolding ban_row user_row
  ban_account banned name l = ban_row banned (user_row "id" name l.db) l

  unfoldable pub ban_address : Bool → Option Row → Login Db → Login Db
  unfolding kick_if
  ban_address banned none l = l
  ban_address banned (some obj) l =
      let address = field obj "lastLoginIp" in
      if banned
      then kick_if true (x.atoi (field obj "id"))
          (run_sql ("INSERT INTO banip VALUES('" ∷ address ∷ "');" ∷ []) l)
      else run_sql ("DELETE FROM banip WHERE ip='" ∷ address ∷ "';" ∷ []) l

  -- `banIPByName`
  unfoldable pub ban_ip_by_name : Bool → String → Login Db → Login Db
  unfolding ban_address user_row
  ban_ip_by_name banned name l = ban_address banned (user_row "id, lastLoginIp" name l.db) l

  unfoldable pub ban_device : Bool → ℤ → Option Row → Login Db → Login Db
  unfolding kick_if
  ban_device banned id none l = l
  ban_device banned id (some obj) l =
      let uuid = field obj "uuid" in
      if banned
      then kick_if true id (run_sql ("INSERT INTO banuuid VALUES('" ∷ uuid ∷ "');" ∷ []) l)
      else run_sql ("DELETE FROM banuuid WHERE uuid='" ∷ uuid ∷ "';" ∷ []) l

  unfoldable pub ban_devices_of : Bool → Option Row → Login Db → Login Db
  unfolding ban_device
  ban_devices_of banned none l = l
  ban_devices_of banned (some obj) l =
      let id = x.atoi (field obj "id") in
      ban_device banned id
        (first_row
          (x.select (joined ("SELECT * FROM uuidinfo WHERE id=" ∷ x.show id ∷ ";" ∷ [])) l.db))
        l

  -- `banUuidByName`
  unfoldable pub ban_uuid_by_name : Bool → String → Login Db → Login Db
  unfolding ban_devices_of user_row
  ban_uuid_by_name banned name l = ban_devices_of banned (user_row "id" name l.db) l

  -- A command for each name.
  unfoldable pub for_each : (String → Login Db → Login Db) → List String → Login Db → Login Db
  for_each f [] l = l
  for_each f (name ∷ names) l = for_each f names (f name l)

  unfoldable pub ban_command : List String → Login Db → Login Db
  unfolding for_each ban_account
  ban_command names l = for_each (ban_account true) names l

  -- With the account, its device is let in again.
  unfoldable pub unban_command : List String → Login Db → Login Db
  unfolding for_each ban_account ban_uuid_by_name
  unban_command names l =
      for_each (ban_uuid_by_name false) names (for_each (ban_account false) names l)

  unfoldable pub banip_command : Bool → List String → Login Db → Login Db
  unfolding for_each ban_ip_by_name
  banip_command banned names l = for_each (ban_ip_by_name banned) names l

  unfoldable pub ban_uuid_command : Bool → List String → Login Db → Login Db
  unfolding for_each ban_uuid_by_name
  ban_uuid_command banned names l = for_each (ban_uuid_by_name banned) names l

-- ===== src/Server/Auth/Enter.antt =====
-- `checkPassword`, `updateUserLoginData` and `processNewConnection` of src/server/user/auth.cpp,
-- and `createNewPlayer` of src/server/user/user_manager.cpp.
use Prim.Native.String.{String}
use text.Mathlib.Text.{◌==◌ as str_eq}
use freekill_asio.Base.{
  ℕ, ℤ, pos, false, not, ◌||◌, List, [], ◌∷◌, ◌++◌, length, leb, drop, Option, none, some,
  if◌then◌else◌,
}
use freekill_asio.Base.Map.{find}
use freekill_asio.Util.SqlText.{check_string}
use freekill_asio.Network.Builder.{Packet}
use freekill_asio.Server.World.{
  max_ttl, World, ServerPlayer, online, kicked, early_packet, disconnected_host, signup_cancelled,
  tell, do_notify, is_online, inside_game,
}
use freekill_asio.Server.Users.{find_player, add_player, after_conn_id}
use freekill_asio.Server.Room.{lobby_add_player}
use freekill_asio.Server.Connection.{tell_few, reconnect}
use freekill_asio.Server.Auth.{
  Row, field, first, is_nil, Libraries, Config, Visit, turn_away, quoted, joined,
}
use freekill_asio.Server.Auth.Setup.{Setup, load_setup_data}
use freekill_asio.Server.Auth.Password.{
  BanExpire, expired, forever, until, exec_all, check_ban_word, name_is_in_white_list, hash_of,
  query_user_info, get_ban_expire,
}

-- The data base and the rest of the server.
pub record Login (Db : Type 0) : Type 0 where
  pub db : Db
  pub world : World

-- The object that `findPlayer` gives.
abbrev pub found_player : Option ℤ → World → Option ServerPlayer
found_player none w = none
found_player (some conn) w = find conn w.players_map

-- The end of `createNewPlayer`: the others are told, and the object comes to the lobby.
unfoldable pub enter_lobby : ServerPlayer → World → World
unfolding tell_few add_player lobby_add_player
enter_lobby p w = lobby_add_player p (
    tell (do_notify p "Setup" ++ do_notify p "SetServerSettings" ++ do_notify p "AddTotalGameTime")
      (add_player p (record (tell_few w) { next_conn_id = after_conn_id w.next_conn_id })))

module _ {Db : Type 0} (x : Libraries Db) where
  unfoldable pub update_user_login_data : Visit → Setup → ℤ → Login Db → Login Db
  update_user_login_data v s id l = record l {
    db =
        exec_all x
          ("BEGIN;"
            ∷ joined (
                "UPDATE userinfo SET lastLoginIp='"
                ∷ v.peer_address
                ∷ "' WHERE id="
                ∷ x.show id
                ∷ ";"
                ∷ [])
            ∷ joined (
                "REPLACE INTO uuidinfo (id, uuid) VALUES ("
                ∷ x.show id
                ∷ ", '"
                ∷ s.uuid
                ∷ "');"
                ∷ [])
            ∷ joined ("INSERT OR IGNORE INTO usergameinfo (id) VALUES (" ∷ x.show id ∷ ");" ∷ [])
            ∷ joined (
                "UPDATE usergameinfo SET lastLoginTime="
                ∷ x.show v.now
                ∷ " where id="
                ∷ x.show id
                ∷ ";"
                ∷ [])
            ∷ "COMMIT;"
            ∷ [])
          l.db;
  }

  abbrev pub fail : Visit → String → Login Db → Option Row × Login Db
  fail v message l = (none, record l { world = turn_away v message l.world })

  -- The user's object that is there already: it is kicked if it has a connection, and taken over
  -- if it is in a game.
  unfoldable pub take_over :
      Visit → Setup → Row → Option ServerPlayer → Login Db → Option Row × Login Db
  unfolding update_user_login_data reconnect
  take_over v s obj none l = (some obj, l)
  take_over v s obj (some p) l =
      let told : Login Db =
        if is_online p
        then record l { world = tell (do_notify p "ErrorDlg" ++ kicked p.conn_id ∷ []) l.world }
        else l in
      if inside_game p l.world
      then (none, reconnected p (update_user_login_data v s p.id told))
      else (some obj, told)
    where
      reconnected : ServerPlayer → Login Db → Login Db
      reconnected p l = record l { world = reconnect p v.socket l.world }

  unfoldable pub check_hash : Visit → Setup → List ℕ → Row → Login Db → Option Row × Login Db
  unfolding take_over find_player
  check_hash v s password obj l =
      if str_eq (hash_of x password (field obj "salt")) (field obj "password")
      then take_over v s obj (found_player (find_player (x.atoi (field obj "id")) l.world) l.world)
          l
      else fail v "username or password error" l

  unfoldable pub after_ban :
      Visit → Setup → List ℕ → Row → Login Db → BanExpire → Option Row × Login Db
  unfolding check_hash
  after_ban v s password obj l expired = check_hash v s password obj l
  after_ban v s password obj l forever = fail v "you have been banned!" l
  after_ban v s password obj l (until t) = fail v "you have been banned! expire at" l

  -- A row whose "banned" is "0" needs no look at the table of bans.
  unfoldable pub after_query : Visit → Setup → List ℕ → Row → Login Db → Option Row × Login Db
  unfolding check_hash after_ban get_ban_expire
  after_query v s password obj l =
      if is_nil obj
      then fail v "cannot register more new users on this device" l
      else if str_eq (field obj "banned") "0"
      then check_hash v s password obj l
      else let (ban, db) = get_ban_expire x v obj l.db in
        after_ban v s password obj (record l { db = db }) ban

  unfoldable pub check_password : Config → Visit → Setup → Login Db → Option Row × Login Db
  unfolding query_user_info after_query
  check_password c v s l =
      let decrypted = x.rsa_private_decrypt s.password in
      let (obj, db) = query_user_info x c v s (drop 32 decrypted) l.db in
      if str_eq s.name "" || not (check_string s.name) || not (check_ban_word x c.ban_words s.name)
      then fail v "invalid user name" l
      else if not (name_is_in_white_list x c s.name l.db)
      then fail v "user name not in whitelist" l
      else if leb (length decrypted) 32
      then fail v "unknown password error" l
      else after_query v s (drop 32 decrypted) obj (record l { db = db })

  -- `checkVersion`, `checkIfUuidNotBanned` and `checkMd5`, each with what follows it. A device's id
  -- that is no safe text ends the login without a word to the connection. Of the messages the
  -- translation and the time of a ban's end are left out, and so is the summary of the packages.
  unfoldable pub check_md5 : Config → Visit → Setup → Login Db → Option Row × Login Db
  unfolding check_password
  check_md5 c v s l = if str_eq (md5_of l.world) s.md5 then check_password c v s l else (
    none,
    record l {
      world =
          tell
            (early_packet v.socket "ErrorMsg" "MD5 check failed!"
              ∷ early_packet v.socket "UpdatePackage" ""
              ∷ disconnected_host v.socket
              ∷ [])
            l.world;
    },
  )
    where
      md5_of : World → String
      md5_of w = w.md5

  unfoldable pub check_uuid : Config → Visit → Setup → Login Db → Option Row × Login Db
  unfolding check_md5
  check_uuid c v s l =
      if not (check_string s.uuid)
      then (none, l)
      else if is_nil (x.select (quoted "SELECT * FROM banuuid WHERE uuid='" s.uuid) l.db)
      then check_md5 c v s l
      else fail v "you have been banned!" l

  unfoldable pub check_login : Config → Visit → Setup → Login Db → Option Row × Login Db
  unfolding check_uuid
  check_login c v s l =
      if x.in_range s.version
      then check_uuid c v s l
      else fail v "server supports version %1, please update" l

  abbrev total_game_time_of : ℤ → Db → ℤ
  total_game_time_of id db = x.atoi (
      field
        (first (
          x.select
            (joined ("SELECT totalGameTime FROM usergameinfo WHERE id=" ∷ x.show id ∷ ";" ∷ []))
            db))
        "totalGameTime")

  -- The object of a user who comes in, under the next connection id.
  abbrev pub player_of : Visit → Setup → String → ℤ → Login Db → ServerPlayer
  player_of v s avatar id l = record {
    conn_id = l.world.next_conn_id;
    id = id;
    state = online;
    ready = false;
    died = false;
    runned = false;
    thinking = false;
    room_id = pos 0;
    socket = some v.socket;
    screen_name = s.name;
    avatar = avatar;
    last_game_mode = "";
    total_game_time = total_game_time_of id l.db;
    total_games = pos 0;
    win_count = pos 0;
    run_count = pos 0;
    ttl = max_ttl;
  }

  -- `createNewPlayer`
  unfoldable pub create_new_player : Visit → Setup → String → ℤ → Login Db → Login Db
  unfolding enter_lobby
  create_new_player v s avatar id l = record l {
    world = enter_lobby (player_of v s avatar id l) l.world;
  }

  -- What follows once the checks have given the row of the user.
  unfoldable pub enter : Visit → Setup → Option Row → Login Db → Login Db
  unfolding create_new_player
  enter v s none l = l
  enter v s (some obj) l =
      let id = x.atoi (field obj "id") in
      create_new_player v s (field obj "avatar") id (update_user_login_data v s id l)

  -- The timer of the signup ends before anything is checked.
  unfoldable pub process_new_connection :
      Config → Visit → Packet → Setup → Login Db → Setup × Login Db
  unfolding load_setup_data check_login enter
  process_new_connection c v p s l =
      let (valid, t, w) = load_setup_data x v p s (tell (signup_cancelled v.socket ∷ []) l.world) in
      let m : Login Db = record l { world = w } in
      let (obj, n) = check_login c v t m in if valid then (t, enter v t obj n) else (t, m)

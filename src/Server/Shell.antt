-- ===== src/Server/Shell.antt =====
-- src/server/admin/shell.cpp: the commands of the server's shell, and how a line finds its command.
-- What they only print, and the commands of the package manager, are left out.
pub mod Bans
pub mod Times
pub mod Kept
pub mod Banned
pub mod Duration
pub mod Lines
use Prim.Native.String.{String, ◌++◌}
use text.Mathlib.Text.{◌==◌ as str_eq, starts_with}
use freekill_asio.Base.{
  ℕ, ℤ, pos, Bool, true, false, not, List, [], ◌∷◌, Option, none, some, if◌then◌else◌, is_positive,
}
use freekill_asio.Base.Map.{find}
use freekill_asio.Util.SqlText.{check_string}
use freekill_asio.Server.World.{
  World, ServerPlayer, Room, no_human, kicked, tell, do_broadcast_notify,
}
use freekill_asio.Server.Game.{with_player, with_room}
use freekill_asio.Server.Abandon.{check_abandoned}
use freekill_asio.Server.Lobby.{lobby_check_abandoned}
use freekill_asio.Server.Connection.{broadcast}
use freekill_asio.Server.Refresh.{refresh_threads}
use freekill_asio.Server.Auth.{Libraries}
use freekill_asio.Server.Auth.Enter.{Login}
use freekill_asio.Server.Packets.{handler_of, in_world}
use freekill_asio.Server.Shell.Bans.{
  run_sql, for_each, ban_command, unban_command, banip_command, ban_uuid_command,
}
use freekill_asio.Server.Shell.Times.{Clock, tempban_command, tempmute_command, unmute_command}

abbrev pub has_name : String → Option ServerPlayer → Bool
has_name name none = false
has_name name (some p) = str_eq p.screen_name name

-- The first online user of a name is kicked.
unfoldable pub kick_named : String → List (ℤ × ℤ) → World → World
kick_named name [] w = w
kick_named name ((id, conn) ∷ ps) w =
    let rest = kick_named name ps w in
    if has_name name (find conn w.players_map)
    then with_player conn (λ p v. tell (kicked p.conn_id ∷ []) v) w
    else rest

-- `kickCommand`
unfoldable pub kick_command : List String → World → World
unfolding kick_named
kick_command [] w = w
kick_command (name ∷ names) w = kick_named name w.online_players_map w

-- `msgCommand`; the text is left out, as in every notification.
unfoldable pub msg_command : List String → World → World
unfolding broadcast
msg_command [] w = w
msg_command (word ∷ words) w = tell (broadcast w.online_players_map w) w

unfoldable pub kick_users : List ℤ → World → World
kick_users [] w = w
kick_users (conn ∷ conns) w =
    kick_users conns
      (with_player conn (λ p v. if is_positive p.id then tell (kicked p.conn_id ∷ []) v else v) w)

-- `killRoomCommand` for a room that is found
unfoldable pub kill_room : Room → World → World
unfolding kick_users check_abandoned
kill_room r w = check_abandoned no_human r (kick_users r.players w)

-- What a line does: the server is stopped, the process ends, or a command has run.
pub data LineEnd (Db : Type 0) : Type 0 where
  stopped crashed : LineEnd Db
  ran : Option (Login Db) → LineEnd Db

-- The words of a line, as `std::istringstream` reads them.
module _ {Db : Type 0} (x : Libraries Db) (k : Clock) (words_of : String → List String) where
  -- `msgRoomCommand`
  unfoldable pub msg_room_command : List String → World → World
  unfolding do_broadcast_notify
  msg_room_command [] w = w
  msg_room_command (id ∷ []) w = w
  msg_room_command (id ∷ word ∷ words) w =
      with_room (x.atoi id) (λ r v. tell (do_broadcast_notify r.players "ServerMessage" v) v) w

  -- `killRoomCommand`
  unfoldable pub kill_room_command : List String → World → World
  unfolding kill_room
  kill_room_command [] w = w
  kill_room_command (id ∷ rest) w = if str_eq id "" then w else with_room (x.atoi id) kill_room w

  unfoldable pub whitelist_one : String → String → String → Login Db → Login Db
  unfolding check_string
  whitelist_one before after name l =
      if not (check_string name) then l else run_sql x (before ∷ name ∷ after ∷ []) l

  unfoldable pub in_transaction : (Login Db → Login Db) → Login Db → Login Db
  in_transaction f l = run_sql x ("COMMIT;" ∷ []) (f (run_sql x ("BEGIN;" ∷ []) l))

  -- `whitelistCommand`
  unfoldable pub whitelist_command : List String → Login Db → Login Db
  unfolding for_each whitelist_one in_transaction
  whitelist_command [] l = l
  whitelist_command (op ∷ []) l = l
  whitelist_command (op ∷ name ∷ names) l =
      if str_eq op "add"
      then in_transaction
          (for_each x (whitelist_one "INSERT INTO whitelist VALUES ('" "');") (name ∷ names)) l
      else if str_eq op "rm"
      then in_transaction
          (for_each x (whitelist_one "DELETE FROM whitelist WHERE name='" "';") (name ∷ names)) l
      else l

  -- `resetPasswordCommand`: the name is not checked.
  unfoldable pub reset_password_command : List String → Login Db → Login Db
  unfolding for_each
  reset_password_command names l =
      for_each x
        (λ name m.
          run_sql x
            ("UPDATE userinfo SET password='dbdc2ad3d9625407f55674a00b58904242545bfafedac67485ac398508403ade',salt='00000000' WHERE name='"
              ∷ name ∷ "';" ∷ [])
            m)
        names l

  -- `handler_map`, without what only prints or works on packages. The lobby's check is posted, and
  -- the model runs it at once; of `stat`, it is that unused threads go.
  unfoldable pub handler_map : List (String × (List String → Login Db → Option (Login Db)))
  unfolding kick_command msg_command msg_room_command ban_command unban_command banip_command
      ban_uuid_command tempban_command tempmute_command unmute_command whitelist_command
      reset_password_command refresh_threads kill_room_command lobby_check_abandoned
  handler_map =
      ("kick", λ ws. in_world (kick_command ws))
      ∷ ("msg", λ ws. in_world (msg_command ws))
      ∷ ("m", λ ws. in_world (msg_command ws))
      ∷ ("msgroom", λ ws. in_world (msg_room_command ws))
      ∷ ("mr", λ ws. in_world (msg_room_command ws))
      ∷ ("ban", λ ws l. some (ban_command x ws l))
      ∷ ("unban", λ ws l. some (unban_command x ws l))
      ∷ ("banip", λ ws l. some (banip_command x true ws l))
      ∷ ("unbanip", λ ws l. some (banip_command x false ws l))
      ∷ ("banuuid", λ ws l. some (ban_uuid_command x true ws l))
      ∷ ("unbanuuid", λ ws l. some (ban_uuid_command x false ws l))
      ∷ ("tempban", λ ws. tempban_command x k ws)
      ∷ ("tempmute", λ ws. tempmute_command x k ws)
      ∷ ("unmute", λ ws l. some (unmute_command x ws l))
      ∷ ("whitelist", λ ws l. some (whitelist_command ws l))
      ∷ ("resetpassword", λ ws l. some (reset_password_command ws l))
      ∷ ("rp", λ ws l. some (reset_password_command ws l))
      ∷ ("stat", λ ws. in_world refresh_threads)
      ∷ ("gc", λ ws. in_world refresh_threads)
      ∷ ("killroom", λ ws. in_world (kill_room_command ws))
      ∷ ("checklobby", λ ws. in_world lobby_check_abandoned)
      ∷ []

  unfoldable pub run_found :
      Option (List String → Login Db → Option (Login Db))
      → List String
      → Login Db
      → Option (Login Db)
  run_found none ws l = some l
  run_found (some f) ws l = f ws l

  unfoldable pub run_words : List String → Login Db → Option (Login Db)
  unfolding handler_map run_found
  run_words [] l = some l
  run_words (command ∷ ws) l = run_found (handler_of handler_map command) ws l

  -- `Shell::handleLine`; no line is the end of the input.
  unfoldable pub handle_line : Option String → Login Db → LineEnd Db
  unfolding run_words
  handle_line none l = stopped
  handle_line (some line) l =
      if starts_with line "quit"
      then stopped
      else if starts_with line "crash"
      then crashed
      else ran (run_words (words_of line) l)

-- ===== src/Server/Leave.antt =====
-- How a player leaves a room: `Room::removePlayer` of src/server/room/room.cpp, with what it calls.
pub mod Owner
pub mod Running
use Prim.Native.String.{String}
use text.Mathlib.Text.{◌==◌ as str_eq}
use freekill_asio.Base.{
  ℕ, suc, ◌+◌, ℤ, pos, negsuc, Bool, true, false, not, ◌&&◌, ◌||◌, List, [], ◌∷◌, ◌++◌, Option,
  none, some, if◌then◌else◌, is_positive, is_negative, ◌==ℤ◌, ltb, length,
}
use freekill_asio.Base.Map.{find, put, erase, contains, remove_all, remove_first}
use freekill_asio.Task.Manager.{remove_all_tasks_by_user}
use freekill_asio.Task.{increment, decrement}
use freekill_asio.Server.World.{
  max_ttl, World, ServerPlayer, PlayerState, invalid, online, trust, run, leave, robot, offline,
  Room, Event, notify, push_request, push_newroom, wake_up, thread_add_observer,
  thread_remove_observer, set_player_state, post_check_abandoned, reject_timer, kicked,
  temporarily_ban, update_game_data, room_removed, CheckAbandonReason, no_ref_count, no_human,
  find_player_by_conn_id, set_player, set_room, tell, is_online, is_online_conn, do_notify,
  do_broadcast_notify, is_full, is_started, is_rejected, has_observer, is_abandoned, on_thread,
  inside_game,
}
use freekill_asio.Server.Users.{add_player, delete_player, after_conn_id, create_robot}
use freekill_asio.Server.Room.{same_state, set_ready, set_state, set_owner, lobby_add_player}

-- `Room::isOutdated`: an outdated room forgets its hash.
abbrev pub is_outdated : Room → World → Bool
is_outdated r w = not (str_eq r.md5 w.md5)

abbrev pub forget_md5 : Room → World → Room
forget_md5 r w = if is_outdated r w then record r { md5 = "" } else r

-- The new object for one who runs away from a game: the same user over the old socket.
abbrev pub runner_of : ServerPlayer → Option ℤ → World → ServerPlayer
runner_of p socket w = record {
  conn_id = w.next_conn_id;
  id = p.id;
  state = online;
  ready = false;
  died = false;
  runned = false;
  thinking = false;
  room_id = pos 0;
  socket = socket;
  screen_name = p.screen_name;
  avatar = p.avatar;
  last_game_mode = "";
  total_game_time = p.total_game_time;
  total_games = p.total_games;
  win_count = p.win_count;
  run_count = p.run_count;
  ttl = max_ttl;
}

-- `Room::createRunnedPlayer`
unfoldable pub create_runned_player : ServerPlayer → Option ℤ → Room → World → World
unfolding add_player lobby_add_player
create_runned_player p socket r w =
    let q = runner_of p socket w in
    let v =
      lobby_add_player q
        (add_player q (record w { next_conn_id = after_conn_id w.next_conn_id })) in
    let u = tell (do_notify q "ChangeSelf") (set_room (forget_md5 r v) v) in
    if not (is_outdated r v) && not p.died then tell (temporarily_ban q.id ∷ []) u else u

-- The first player of the room with a socket.
unfoldable pub first_online : List ℤ → World → Option ServerPlayer
first_online [] w = none
first_online (conn ∷ conns) w =
    if is_online_conn (find_player_by_conn_id conn w)
    then find_player_by_conn_id conn w
    else first_online conns w

abbrev pub hand_room_to : Option ServerPlayer → Room → World → World
hand_room_to none r w = w
hand_room_to (some p) r w = set_owner p r w

-- The end of `removePlayer`: the room needs another owner, or is left.
unfoldable pub pass_on_owner : ServerPlayer → Room → World → World
unfolding set_owner
pass_on_owner p r w =
    if is_abandoned r w
    then tell (post_check_abandoned r.id no_human ∷ [])
        (set_room (record r { owner_conn_id = pos 0 }) w)
    else if p.conn_id ==ℤ r.owner_conn_id
    then hand_room_to (first_online r.players w) r w
    else w

-- `Room::removeObserver`
unfoldable pub remove_observer : ServerPlayer → Room → World → World
remove_observer p r w =
    let s : Room = record r { observers = remove_first p.conn_id r.observers } in
    tell
      ((if same_state p.state online then do_notify p "Setup" else [])
        ++ (on_thread s (push_request s.id p.id "leave") w
            ++ on_thread s (thread_remove_observer p.id s.id) w))
      (set_room s w)

-- A player leaves before the game has started.
unfoldable pub leave_idle_room : ServerPlayer → Room → World → World
unfolding set_ready pass_on_owner
leave_idle_room p r w =
    let v = set_ready false p w in
    let s : Room = record r { players = remove_first p.conn_id r.players } in
    let u = set_room s v in
    pass_on_owner p s (tell (do_broadcast_notify s.players "RemovePlayer" u) u)

-- A player runs away from a game: the object stays in the room without its socket, and a new one is
-- made for the socket.
unfoldable pub run_away : ServerPlayer → Room → World → World
unfolding set_state create_runned_player pass_on_owner
run_away p r w =
    let v = set_state run p w in
    let q : ServerPlayer = record p {
      state = run;
      socket = none;
      runned = if p.died then p.runned else true;
    } in
    let u = set_player q v in
    let t = if p.thinking then tell (on_thread r (wake_up r.id "player_disconnect") u) u else u in
    pass_on_owner q (forget_md5 r t) (create_runned_player q p.socket r t)

-- `Lobby::removePlayer`, with `updateOnlineInfo`
unfoldable pub lobby_remove_player : ServerPlayer → World → World
lobby_remove_player p w =
    let v = record w {
      lobby = remove_all p.conn_id w.lobby;
      tasks = remove_all_tasks_by_user p.conn_id w.tasks;
    } in
    tell (do_broadcast_notify v.lobby "UpdatePlayerNum" v) v

-- `Room::removePlayer`
unfoldable pub room_remove_player : ServerPlayer → Room → World → World
unfolding remove_observer leave_idle_room run_away
room_remove_player p r w =
    if has_observer p r
    then remove_observer p r w
    else if not (contains p.conn_id r.players)
    then w
    else if not (is_started r)
    then leave_idle_room p r w
    else run_away p r w

-- ===== src/Server/Lobby.antt =====
-- `Lobby` of src/server/room/lobby.cpp, and `RoomManager::createRoom`. What libcbor reads from a
-- packet is a record of what each field holds, if it holds a value of its kind.
pub mod Tasks
pub mod Joining
pub mod Create
use Prim.Native.String.{String}
use text.Mathlib.Text.{◌==◌ as str_eq}
use freekill_asio.Base.{
  ℕ, suc, ◌+◌, ◌^◌, ◌-◌, ℤ, pos, negsuc, Bool, true, false, not, ◌&&◌, ◌||◌, List, [], ◌∷◌, ◌++◌,
  Option, none, some, if◌then◌else◌, ◌==ℤ◌, ◌==◌, ltb, length,
}
use freekill_asio.Base.Map.{find, put, erase, contains, remove_all}
use freekill_asio.Task.{increment}
use freekill_asio.Task.Manager.{remove_all_tasks_by_user}
use freekill_asio.Server.World.{
  World, ServerPlayer, Room, set_player, set_room, tell, is_online_conn, do_notify,
  do_broadcast_notify,
}
use freekill_asio.Server.Users.{delete_player}
use freekill_asio.Server.Room.{set_ready, room_add_player}
use freekill_asio.Server.Leave.{lobby_remove_player, is_outdated, forget_md5}
use freekill_asio.Server.Game.{with_found, with_player, with_room, add_observer}
use freekill_asio.Server.Abandon.{offline_ones, destroy_player, without}
use freekill_asio.Server.Settings.{Pair, read_settings}
use freekill_asio.Server.Threads.{get_available_thread, set_thread}

unfoldable pub drop_from_lobby : List ℤ → World → World
unfolding destroy_player
drop_from_lobby [] w = w
drop_from_lobby (conn ∷ conns) w =
    let found = find conn w.players_map in
    let v = with_found found delete_player w in
    drop_from_lobby conns
      (with_found found destroy_player (record v { lobby = remove_all conn v.lobby }))

-- `Lobby::checkAbandoned`
unfoldable pub lobby_check_abandoned : World → World
unfolding drop_from_lobby offline_ones
lobby_check_abandoned w = drop_from_lobby (offline_ones w.lobby w) w

-- The fields of a packet that creates or changes a room.
pub record RoomFields : Type 0 where
  pub count : ℕ
  pub name : Option String
  pub capacity : Option ℤ
  pub timeout : Option ℤ
  pub settings : String

pub record RoomData : Type 0 where
  pub name : String
  pub capacity : ℤ
  pub timeout : ℤ
  pub settings : String

abbrev non_empty : Option String → Option String
non_empty none = none
non_empty (some s) = if str_eq s "" then none else some s

abbrev not_minus_one : Option ℤ → Option ℤ
not_minus_one none = none
not_minus_one (some n) = if n ==ℤ negsuc 0 then none else some n

room_data : Option String → Option ℤ → Option ℤ → String → Option RoomData
room_data (some n) (some c) (some t) s =
    some (record { name = n; capacity = c; timeout = t; settings = s })
room_data _ _ _ s = none

unfoldable pub read_fields : RoomFields → Option RoomData
unfolding room_data
read_fields f =
    if not (f.count == 4)
    then none
    else room_data (non_empty f.name) (not_minus_one f.capacity) (not_minus_one f.timeout)
        f.settings

-- An `int` where a `size_t` is wanted.
unfoldable pub to_size_t : ℤ → ℕ
to_size_t (pos n) = n
to_size_t (negsuc n) = 2 ^ 64 - suc n

unfoldable pub unready : List ℤ → World → World
unready [] w = w
unready (conn ∷ conns) w = unready conns (with_player conn (set_ready false) w)

abbrev pub fewer_than : ℤ → ℕ → Bool
fewer_than (pos m) n = ltb m n
fewer_than (negsuc m) n = true

abbrev pub new_room : World → Room
new_room w = record {
  id = w.next_room_id;
  thread_id = pos 1000;
  players = [];
  observers = [];
  name = "";
  capacity = 0;
  owner_conn_id = pos 0;
  settings = "";
  game_mode = "";
  password = "";
  rejected_players = [];
  timeout = pos 15;
  md5 = "";
  lua_ref_count = pos 0;
  session_id = pos 0;
  session_data = "{}";
  request_timer = false;
}

-- One who is now in the room leaves the lobby.
unfoldable pub leave_if_in : ℤ → ServerPlayer → World → World
unfolding lobby_remove_player
leave_if_in id p w = if p.room_id ==ℤ id then with_room id (λ _ v. lobby_remove_player p v) w else w

unfoldable pub enter_created : ServerPlayer → World × Option ℤ → World
unfolding leave_if_in
enter_created p (w, none) = w
enter_created p (w, some id) =
    with_player p.conn_id (leave_if_in id) (with_room id (room_add_player p) w)

abbrev pub admitted : Room → String → Bool
admitted r pw = str_eq r.password "" || str_eq pw r.password

unfoldable pub join_found : Bool → String → ServerPlayer → Option Room → World → World
unfolding leave_if_in
join_found observe pw p none w = tell (do_notify p "ErrorMsg") w
join_found observe pw p (some r) w =
    if not (admitted r pw)
    then tell (do_notify p "ErrorMsg") w
    else if is_outdated r w
    then tell (do_notify p "ErrorMsg") (set_room (forget_md5 r w) w)
    else with_player p.conn_id (leave_if_in r.id)
        (if observe then add_observer p r w else room_add_player p r w)

-- `Lobby::joinRoom`, of a packet of `count` fields
unfoldable pub join_room : Bool → ℕ → Option ℤ → Option String → ServerPlayer → World → World
unfolding join_found
join_room observe count (some id) (some pw) p w =
    if not (count == 2) || id ==ℤ pos 0 then w else join_found observe pw p (find id w.rooms) w
join_room observe count none pw p w = w
join_room observe count (some id) none p w = w

module _ (cbor_load : String → Option (List Pair)) where
  -- The data that `changeRoom` and `createRoom` set, `setSettings` included.
  unfoldable pub set_data : RoomData → Room → Room
  unfolding to_size_t read_settings
  set_data d r = record r {
    name = d.name;
    capacity = to_size_t d.capacity;
    timeout = d.timeout;
    settings = d.settings;
    game_mode = (read_settings cbor_load d.settings).0;
    password = (read_settings cbor_load d.settings).1;
  }

  unfoldable pub change_to : Option RoomData → ServerPlayer → Room → World → World
  unfolding set_data unready
  change_to none p r w = w
  change_to (some d) p r w =
      if fewer_than d.capacity (length r.players)
      then tell (do_notify p "ErrorMsg") w
      else let v = set_room (set_data d r) w in
        unready r.players (tell (do_broadcast_notify r.players "ChangeRoom" v) v)

  -- `Room::changeRoom`
  unfoldable pub change_room : RoomFields → ServerPlayer → Room → World → World
  unfolding change_to read_fields
  change_room f p r w =
      if not (p.conn_id ==ℤ r.owner_conn_id)
      then tell (do_notify p "ErrorMsg") w
      else change_to (read_fields f) p r w

  -- `RoomManager::createRoom`, with the id of the room that it returns; `allowed` is
  -- `Server::checkBanWord`, and `per_thread` the configuration's `roomCountPerThread`.
  unfoldable pub create_room :
      (String → Bool) → ℤ → ServerPlayer → RoomData → World → World × Option ℤ
  unfolding get_available_thread set_thread set_data
  create_room allowed per_thread creator d w =
      if not (allowed d.name)
      then (tell (do_notify creator "ErrorMsg") w, none)
      else let (v, t) = get_available_thread per_thread w in
        let r = set_data d (new_room v) in
        (set_thread t r (record v { next_room_id = increment v.next_room_id }), some r.id)

  unfoldable pub create_with : (String → Bool) → ℤ → Option RoomData → ServerPlayer → World → World
  unfolding enter_created create_room
  create_with allowed per_thread none p w = w
  create_with allowed per_thread (some d) p w =
      enter_created p (create_room allowed per_thread p d w)

  -- `Lobby::createRoom`
  unfoldable pub lobby_create_room : (String → Bool) → ℤ → RoomFields → ServerPlayer → World → World
  unfolding create_with read_fields
  lobby_create_room allowed per_thread f p w = create_with allowed per_thread (read_fields f) p w

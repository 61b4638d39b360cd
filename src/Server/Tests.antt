-- ===== src/Server/Tests.antt =====
-- The users, rooms and lobby at concrete inputs.
use Prim.Native.String.{String}
use freekill_asio.Base.{
  ℕ, Option, List, ◌≡◌, refl, pos, negsuc, true, false, [], ◌∷◌, none, some, ==ℤ_iff, arith,
}
use freekill_asio.Base.Map.{find, contains}
use freekill_asio.Task.Manager.{no_tasks}
use freekill_asio.Server.World.{World, ServerPlayer, online, offline, Room, RoomThread, all_gone}
use freekill_asio.Server.Users.{find_player}
use freekill_asio.Server.Room.{room_add_player}
use freekill_asio.Server.Leave.{pass_on_owner, run_away}
use freekill_asio.Server.Room.Entering.{room_with, room_add_player_lem}
use freekill_asio.Server.Leave.Owner.{IsKeyed, pass_on_owner_lem}
use freekill_asio.Server.Leave.Running.{run_away_lem}
use freekill_asio.Server.Game.{manually_start}
use freekill_asio.Server.Game.Start.{manually_start_lem}
use freekill_asio.Server.Threads.{thread_is_full, get_available_thread}
use freekill_asio.Server.Threads.Available.{get_available_thread_lem}
use freekill_asio.Server.Lobby.{RoomFields, create_room, change_room, join_room}
use freekill_asio.Server.Settings.{Pair}
use freekill_asio.Server.Connection.{on_disconnected, on_disconnected_lem}
use freekill_asio.Server.Lobby.Tasks.{Content, array}
use freekill_asio.Server.Lobby.Joining.{join_room_lem}
use freekill_asio.Server.Lobby.Create.{IsRightlyChanged, create_room_lem, change_room_lem}

abbrev alice : ServerPlayer
alice = record {
  conn_id = pos 1001;
  id = pos 1;
  state = online;
  ready = true;
  died = false;
  runned = false;
  thinking = true;
  room_id = pos 3;
  socket = some (pos 7);
  screen_name = "alice";
  avatar = "liubei";
  last_game_mode = "";
  total_game_time = pos 0;
  total_games = pos 0;
  win_count = pos 0;
  run_count = pos 0;
  ttl = pos 6;
}

abbrev bob : ServerPlayer
bob = record alice { conn_id = pos 1002; id = pos 2; room_id = pos 0; socket = some (pos 8) }

-- The same user as `alice`, over another object.
abbrev alice_again : ServerPlayer
alice_again = record alice { conn_id = pos 1003; room_id = pos 0 }

-- A room of two with one player.
abbrev room : Room
room = record {
  id = pos 3;
  thread_id = pos 1000;
  players = pos 1001 ∷ [];
  observers = [];
  name = "room";
  capacity = 2;
  owner_conn_id = pos 1001;
  settings = "";
  game_mode = "";
  password = "secret";
  rejected_players = [];
  timeout = pos 15;
  md5 = "v1";
  lua_ref_count = pos 0;
  session_id = pos 0;
  session_data = "{}";
  request_timer = false;
}

abbrev thread : RoomThread
thread = record {
  id = pos 1000;
  rooms = pos 3 ∷ [];
  capacity = pos 1;
  ref_count = pos 1;
  md5 = "v1";
}

abbrev world : World
world = record {
  online_players_map = (pos 1, pos 1001) ∷ (pos 2, pos 1002) ∷ [];
  robots_map = [];
  players_map = (pos 1001, alice) ∷ (pos 1002, bob) ∷ [];
  rooms = (pos 3, room) ∷ [];
  lobby = pos 1002 ∷ [];
  threads = (pos 1000, thread) ∷ [];
  tasks = no_tasks;
  md5 = "v1";
  next_conn_id = pos 1003;
  next_robot_id = negsuc 1;
  next_room_id = pos 4;
  next_thread_id = pos 1001;
  log = [];
}

room_add_player_lem_example :
    find (pos 3) (room_add_player bob room world).rooms ≡ some (room_with bob room)
room_add_player_lem_example = ((room_add_player_lem bob room world).0 (unfold contains in refl)).0

run_away_lem_example : find_player (pos 1) (run_away alice room world) ≡ some (pos 1003)
run_away_lem_example = (run_away_lem alice room world refl (ground arith)).2

get_available_thread_lem_example : thread_is_full (get_available_thread (pos 5) world).1 ≡ false
get_available_thread_lem_example = (get_available_thread_lem (pos 5) world refl).0

join_room_lem_example :
    contains (pos 1002) (join_room false 2 (some (pos 3)) (some "secret") bob world).lobby ≡ false
join_room_lem_example =
    ((join_room_lem "secret" (pos 3) bob world (ground arith)).0 room (unfold find in refl) refl
      refl refl (unfold contains in refl)).2

-- Everybody's object is gone.
abbrev empty_world : World
empty_world = record world { players_map = [] }

abbrev full_room : Room
full_room = record room { capacity = 1 }

abbrev full_world : World
full_world = record world { rooms = (pos 3, full_room) ∷ [] }

world-IsKeyed : IsKeyed world
unfolding find IsKeyed
world-IsKeyed j p h = (
  ground (arith, h, ==ℤ_iff (pos 1001) j, ==ℤ_iff (pos 1002) j),
  λ o. ground (arith, h, ==ℤ_iff (pos 1001) j, ==ℤ_iff (pos 1002) j),
)

pass_on_owner_lem_example : pass_on_owner bob room world ≡ world
pass_on_owner_lem_example =
    (pass_on_owner_lem bob room world world-IsKeyed (unfold find in refl)).1
      (unfold all_gone find in refl) (ground arith)

manually_start_lem_example :
    find (pos 3) (manually_start full_room full_world).rooms
    ≡ some (record full_room { lua_ref_count = pos 1; session_id = pos 1 })
unfolding IsKeyed
manually_start_lem_example =
    ((manually_start_lem full_room full_world (λ j p h. (world-IsKeyed j p h).0)).1
      (unfold find in refl)).0

abbrev running_world : World
running_world = record world { rooms = (pos 3, record room { lua_ref_count = pos 1 }) ∷ [] }

on_disconnected_lem_example :
    (find (pos 1001) (on_disconnected alice running_world).players_map
      ≡ some (record alice { state = offline; socket = none; runned = true }))
    × ((on_disconnected alice running_world).rooms ≡ running_world.rooms)
    × ((on_disconnected alice running_world).online_players_map ≡ running_world.online_players_map)
on_disconnected_lem_example =
    (on_disconnected_lem alice running_world).0 (unfold find contains in refl)

abbrev no_map : String → Option (List Pair)
no_map s = none

abbrev mode_pair : Pair
mode_pair = record { key = some "gameMode"; value = some "1v1" }

abbrev password_pair : Pair
password_pair = record { key = some "password"; value = some "pw" }

abbrev other_pair : Pair
other_pair = record { key = none; value = some "x" }

abbrev a_map : String → Option (List Pair)
a_map s = some (mode_pair ∷ other_pair ∷ password_pair ∷ [])

abbrev fields : RoomFields
fields = record {
  count = 4;
  name = some "other";
  capacity = some (pos 8);
  timeout = some (pos 20);
  settings = "";
}

change_room_lem_example :
    IsRightlyChanged no_map fields alice room world (change_room no_map fields alice room world)
change_room_lem_example = change_room_lem no_map fields alice room world

create_room_lem_example :
    (create_room no_map
      (λ s. false)
      (pos 5)
      bob
      (record { name = "x"; capacity = pos 0; timeout = pos 15; settings = "" })
      world).1
    ≡ none
create_room_lem_example =
    ((create_room_lem no_map (λ s. false) (pos 5) bob
        (record { name = "x"; capacity = pos 0; timeout = pos 15; settings = "" }) world).0
      refl).1

-- Any bytes are read as an array of two numbers, of which each has a text.
abbrev two_numbers : List ℕ → Content ℕ
two_numbers bytes = array (1 ∷ 2 ∷ [])

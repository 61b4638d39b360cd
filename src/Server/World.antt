-- ===== src/Server/World.antt =====
-- The state that the managers of src/server share. An object is known by its connection id
-- (`ServerPlayer`), room id (`Room`) or thread id (`RoomThread`). What leaves the server, or is left
-- for later, is a list of events.
use Prim.Native.String.{String}
use freekill_asio.Base.{
  leb, length, ℕ, ℤ, pos, Bool, true, false, not, ◌&&◌, List, [], ◌∷◌, ◌++◌, Option, none, some,
  if◌then◌else◌, is_positive, ◌==ℤ◌,
}
use freekill_asio.Task.Manager.{TaskManager}
use freekill_asio.Base.Map.{find, put, contains}

-- `Player::State` of src/core/player.h
pub data PlayerState : Type 0 where
  invalid online trust run leave robot offline : PlayerState

-- `ServerPlayer` with what it inherits from `Player`; `socket` is that of its router.
pub record ServerPlayer : Type 0 where
  pub conn_id : ℤ
  pub id : ℤ
  pub state : PlayerState
  pub ready : Bool
  pub died : Bool
  pub runned : Bool
  pub thinking : Bool
  pub room_id : ℤ
  pub socket : Option ℤ
  pub screen_name : String
  pub avatar : String
  pub last_game_mode : String
  pub total_game_time : ℤ
  pub total_games : ℤ
  pub win_count : ℤ
  pub run_count : ℤ
  -- heartbeats that may go unanswered
  pub ttl : ℤ

abbrev pub max_ttl : ℤ
max_ttl = pos 6

pub record Room : Type 0 where
  pub id : ℤ
  pub thread_id : ℤ
  pub players : List ℤ
  pub observers : List ℤ
  pub name : String
  pub capacity : ℕ
  pub owner_conn_id : ℤ
  pub settings : String
  pub game_mode : String
  pub password : String
  pub rejected_players : List ℤ
  pub timeout : ℤ
  pub md5 : String
  pub lua_ref_count : ℤ
  pub session_id : ℤ
  pub session_data : String
  -- whether `request_timer` is set
  pub request_timer : Bool

-- `RoomThread`: a Lua thread, with the ids of the rooms that it runs.
pub record RoomThread : Type 0 where
  pub id : ℤ
  pub rooms : List ℤ
  pub capacity : ℤ
  pub ref_count : ℤ
  pub md5 : String

pub data CheckAbandonReason : Type 0 where
  no_ref_count no_human : CheckAbandonReason

-- Who is woken up when a query is done: nobody, a room, or a task.
pub data Wake : Type 0 where
  nobody : Wake
  room_of task_of : ℤ → Wake

-- A table of the data base of save states.
pub data Table : Type 0 where
  game_saves global_saves : Table

-- A request to the Lua side: "<room>,<player>,<what>", or "-1,<room>,newroom".
pub data Event : Type 0 where
  notify : ℤ → String → Event
  push_request : ℤ → ℤ → String → Event
  push_newroom : ℤ → Event
  wake_up : ℤ → String → Event
  thread_add_observer thread_remove_observer : ℤ → ℤ → Event
  set_player_state : ℤ → ℤ → ℤ → Event
  post_check_abandoned : ℤ → CheckAbandonReason → Event
  -- the timer of three minutes after which a rejected id is let in again
  reject_timer : ℤ → ℤ → Event
  kicked : ℤ → Event
  temporarily_ban : ℤ → Event
  update_game_data : ℤ → String → Event
  room_removed : ℤ → Event
  -- a save state of a user under a key, with who waits for it, and a callback without a query
  save load : Table → ℤ → String → Wake → Event
  posted : Wake → Event
  room_delay : ℤ → ℤ → Event
  set_timer : ℤ → ℤ → Event
  request_sent : ℤ → String → ℤ → ℤ → Event
  -- what the end of a game writes to the data base: the time of a user, and a run of one
  game_time_saved : ℤ → ℤ → Event
  run_counted : ℤ → String → Event
  -- what a connection meets that is no user's yet: a packet, its end, the time it has to log in
  early_packet : ℤ → String → String → Event
  disconnected_host signup_timer signup_cancelled : ℤ → Event
  -- the line of the log for what is said in a room (0 is the lobby)
  chat_logged : ℤ → List ℕ → Event

pub record World : Type 0 where
  -- the maps of `UserManager`: by user id, by robot id, by connection id
  pub online_players_map : List (ℤ × ℤ)
  pub robots_map : List (ℤ × ℤ)
  pub players_map : List (ℤ × ServerPlayer)
  pub rooms : List (ℤ × Room)
  -- the connection ids in the lobby
  pub lobby : List ℤ
  pub threads : List (ℤ × RoomThread)
  pub tasks : TaskManager
  pub md5 : String
  pub next_conn_id : ℤ
  pub next_robot_id : ℤ
  pub next_room_id : ℤ
  pub next_thread_id : ℤ
  pub log : List Event

abbrev pub find_player_by_conn_id : ℤ → World → Option ServerPlayer
find_player_by_conn_id conn w = find conn w.players_map

abbrev pub set_player : ServerPlayer → World → World
set_player p w = record w { players_map = put p.conn_id p w.players_map }

abbrev pub set_room : Room → World → World
set_room r w = record w { rooms = put r.id r w.rooms }

abbrev pub tell : List Event → World → World
tell es w = record w { log = w.log ++ es }

abbrev pub is_some_socket : Option ℤ → Bool
is_some_socket none = false
is_some_socket (some s) = true

-- `ServerPlayer::isOnline`
abbrev pub is_online : ServerPlayer → Bool
is_online p = is_some_socket p.socket

abbrev pub is_online_conn : Option ServerPlayer → Bool
is_online_conn none = false
is_online_conn (some p) = is_online p

-- `ServerPlayer::doNotify`: nothing is sent to a player without a socket.
abbrev pub do_notify : ServerPlayer → String → List Event
do_notify p command = if is_online p then notify p.conn_id command ∷ [] else []

abbrev notify_found : Option ServerPlayer → String → List Event
notify_found none command = []
notify_found (some p) command = do_notify p command

-- `RoomBase::doBroadcastNotify`
unfoldable pub do_broadcast_notify : List ℤ → String → World → List Event
do_broadcast_notify [] command w = []
do_broadcast_notify (conn ∷ conns) command w =
    notify_found (find_player_by_conn_id conn w) command ++ do_broadcast_notify conns command w

-- `Room::isFull`, `Room::isStarted`, `Room::isRejected`, `Room::hasObserver`
abbrev pub is_full : Room → Bool
is_full r = leb r.capacity (length r.players)

abbrev pub is_started : Room → Bool
is_started r = is_positive r.lua_ref_count

abbrev pub is_rejected : ServerPlayer → Room → Bool
is_rejected p r = contains p.id r.rejected_players

abbrev pub has_observer : ServerPlayer → Room → Bool
has_observer p r = contains p.conn_id r.observers

-- `Room::isAbandoned`: nobody in the room has a socket.
unfoldable pub all_gone : List ℤ → World → Bool
all_gone [] w = true
all_gone (conn ∷ conns) w =
    if is_online_conn (find_player_by_conn_id conn w) then false else all_gone conns w

abbrev pub is_abandoned : Room → World → Bool
is_abandoned r w = all_gone r.players w

-- `Room::thread`, and the calls that are made only if the thread exists
abbrev to_thread : Option RoomThread → Event → List Event
to_thread none e = []
to_thread (some t) e = e ∷ []

abbrev pub on_thread : Room → Event → World → List Event
on_thread r e w = to_thread (find r.thread_id w.threads) e

-- `ServerPlayer::insideGame`: in a room that is started, and no observer of it.
abbrev inside_found : ServerPlayer → Option Room → Bool
inside_found p none = false
inside_found p (some r) = is_started r && not (has_observer p r)

abbrev pub inside_game : ServerPlayer → World → Bool
inside_game p w = if p.room_id ==ℤ pos 0 then false else inside_found p (find p.room_id w.rooms)

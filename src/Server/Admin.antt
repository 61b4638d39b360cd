-- ===== src/Server/Admin.antt =====
-- src/server/admin/admin_service.cpp: what the shell and the HTTP service ask of the server. An
-- answer is a record, not yet JSON.
pub mod Masked
pub mod Duration
pub mod Http
use Prim.Native.String.{String}
use text.Mathlib.Text.{◌==◌ as str_eq}
use freekill_asio.Base.{
  ℕ, ℤ, pos, Bool, true, false, not, ◌&&◌, List, [], ◌∷◌, ◌++◌, Option, none, some, if◌then◌else◌,
  is_positive, ◌==ℤ◌, length,
}
use freekill_asio.Base.Map.{find}
use freekill_asio.Server.World.{World, ServerPlayer, PlayerState, Room, RoomThread, is_started}
use freekill_asio.Server.Threads.{thread_is_outdated}
use freekill_asio.Server.Refresh.{is_unused, refresh_threads}

pub record PlayerInfo : Type 0 where
  pub id : ℤ
  pub conn_id : ℤ
  pub screen_name : String
  pub state : PlayerState
  pub avatar : String

pub record RoomSummary : Type 0 where
  pub id : ℤ
  pub name : String
  pub mode : String
  pub started : Bool
  pub password : Option String
  pub player_count : ℕ

pub record RoomDetail : Type 0 where
  pub room : RoomSummary
  pub players : List PlayerInfo

-- `AdminResult`: the data, or a code and a message with the status of HTTP.
pub data AdminResult (A : Type 0) : Type 0 where
  success : A → AdminResult A
  error : String → String → ℕ → AdminResult A

unfoldable pub http_status : {A : Type 0} → AdminResult A → ℕ
http_status (success d) = 200
http_status (error code message status) = status

abbrev pub player_to_info : ServerPlayer → PlayerInfo
player_to_info p = record {
  id = p.id;
  conn_id = p.conn_id;
  screen_name = p.screen_name;
  state = p.state;
  avatar = p.avatar;
}

-- A password is shown only where it is asked for; otherwise that there is one.
unfoldable pub shown_password : String → Bool → Option String
shown_password pw expose =
    if not (str_eq pw "") && expose
    then some pw
    else if not (str_eq pw "")
    then some "******"
    else none

unfoldable pub room_to_summary : Bool → Room → RoomSummary
unfolding shown_password
room_to_summary expose r = record {
  id = r.id;
  name = r.name;
  mode = r.game_mode;
  started = is_started r;
  password = shown_password r.password expose;
  player_count = length r.players;
}

abbrev info_if : Option ServerPlayer → List PlayerInfo
info_if none = []
info_if (some p) = player_to_info p ∷ []

-- The objects of some connection ids, where they are there.
unfoldable pub infos_of : List ℤ → World → List PlayerInfo
infos_of [] w = []
infos_of (conn ∷ conns) w = info_if (find conn w.players_map) ++ infos_of conns w

-- The objects of the online users.
unfoldable pub conns_of : List (ℤ × ℤ) → List ℤ
conns_of [] = []
conns_of ((id, conn) ∷ ps) = conn ∷ conns_of ps

unfoldable pub summaries : Bool → List (ℤ × Room) → List RoomSummary
unfolding room_to_summary
summaries expose [] = []
summaries expose ((id, r) ∷ rs) = room_to_summary expose r ∷ summaries expose rs

-- `AdminService::lsPlayers`
unfoldable pub ls_players : World → AdminResult (List PlayerInfo)
unfolding infos_of conns_of
ls_players w = success (infos_of (conns_of w.online_players_map) w)

-- What `lsRoomInfo` gives: a room, the lobby, or all rooms.
pub data RoomInfo : Type 0 where
  one_room : RoomDetail → RoomInfo
  the_lobby : List PlayerInfo → RoomInfo
  all_rooms : List RoomSummary → RoomInfo

unfoldable pub detail_of : Bool → World → Option Room → AdminResult RoomInfo
unfolding room_to_summary infos_of
detail_of expose w none = error "NOT_FOUND" "No such room." 404
detail_of expose w (some r) =
    success (one_room (record { room = room_to_summary expose r; players = infos_of r.players w }))

-- `AdminService::lsRoomInfo`
unfoldable pub ls_room_info : ℤ → Bool → World → AdminResult RoomInfo
unfolding detail_of infos_of summaries
ls_room_info id expose w =
    if is_positive id
    then detail_of expose w (find id w.rooms)
    else if id ==ℤ pos 0
    then success (the_lobby (infos_of w.lobby w))
    else success (all_rooms (summaries expose w.rooms))

-- What `serverStat` shows of a thread, without its connection.
pub record ThreadStat : Type 0 where
  pub id : ℤ
  pub room_count : ℤ
  pub outdated : Bool

unfoldable pub thread_stats : String → List (ℤ × RoomThread) → List ThreadStat
thread_stats md5 [] = []
thread_stats md5 ((id, t) ∷ ts) =
    let rest = thread_stats md5 ts in
    if is_unused md5 t
    then rest
    else record { id = id; room_count = t.ref_count; outdated = thread_is_outdated md5 t } ∷ rest

-- `AdminService::serverStat`: the threads, the number of players, and the world without the threads
-- that are outdated and unused.
unfoldable pub server_stat : World → (List ThreadStat × ℕ) × World
unfolding thread_stats refresh_threads
server_stat w = ((thread_stats w.md5 w.threads, length w.online_players_map), refresh_threads w)

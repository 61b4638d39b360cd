-- ===== src/Server/Room.antt =====
-- `Room` of src/server/room/room.cpp, with the parts of `ServerPlayer` and `Lobby` that it calls.
-- An operation takes the room as it stands, and the player as it stands, and returns the world.
pub mod Entering
use Prim.Native.String.{String}
use text.Mathlib.Text.{◌==◌ as str_eq}
use freekill_asio.Base.{
  ℕ, suc, ◌+◌, ℤ, pos, negsuc, Bool, true, false, not, ◌&&◌, ◌||◌, List, [], ◌∷◌, ◌++◌, Option,
  none, some, if◌then◌else◌, is_positive, is_negative, ◌==ℤ◌, ltb, length,
}
use freekill_asio.Base.Map.{find, put, erase, contains, remove_first}
use freekill_asio.Task.{increment, decrement}
use freekill_asio.Server.World.{
  World, ServerPlayer, PlayerState, invalid, online, trust, run, leave, robot, offline, Room, Event,
  notify, push_request, push_newroom, wake_up, thread_add_observer, thread_remove_observer,
  set_player_state, post_check_abandoned, reject_timer, kicked, temporarily_ban, update_game_data,
  room_removed, CheckAbandonReason, no_ref_count, no_human, find_player_by_conn_id, set_player,
  set_room, tell, is_online, is_online_conn, do_notify, do_broadcast_notify, is_full, is_started,
  is_rejected, has_observer, is_abandoned, on_thread, inside_game,
}
use freekill_asio.Server.Users.{add_player, delete_player, after_conn_id, create_robot}

abbrev pub same_state : PlayerState → PlayerState → Bool
same_state invalid invalid = true
same_state online online = true
same_state trust trust = true
same_state run run = true
same_state leave leave = true
same_state robot robot = true
same_state offline offline = true
same_state _ _ = false

-- the code of a state on the wire to the Lua side
abbrev state_code : PlayerState → ℤ
state_code invalid = pos 0
state_code online = pos 1
state_code trust = pos 2
state_code run = pos 3
state_code leave = pos 4
state_code robot = pos 5
state_code offline = pos 6

abbrev players_of : Option Room → List ℤ
players_of none = []
players_of (some r) = r.players

-- The players of the room that a player is in; room id 0 is the lobby.
abbrev room_mates : ServerPlayer → World → List ℤ
room_mates p w = if p.room_id ==ℤ pos 0 then [] else players_of (find p.room_id w.rooms)

-- `ServerPlayer::setReady`, and `onReadyChanged`
unfoldable pub set_ready : Bool → ServerPlayer → World → World
set_ready ready p w =
    let v = set_player (record p { ready = ready }) w in
    tell (do_broadcast_notify (room_mates p v) "ReadyChanged" v) v

abbrev thread_state : ServerPlayer → Option Room → World → List Event
thread_state p none w = []
thread_state p (some r) w =
    on_thread r (set_player_state p.conn_id p.id r.id) w
    ++ do_broadcast_notify r.players "NetStateChanged" w

-- `ServerPlayer::setState`, and `onStateChanged` without the game timer
unfoldable pub set_state : PlayerState → ServerPlayer → World → World
set_state state p w =
    let q : ServerPlayer = record p { state = state } in
    let v = set_player q w in
    if same_state p.state state
    then v
    else if inside_game q v
    then tell (thread_state q (find q.room_id v.rooms) v) v
    else v

-- `Room::setOwner`: a robot is never the owner.
unfoldable pub set_owner : ServerPlayer → Room → World → World
set_owner owner r w =
    if is_negative owner.id
    then w
    else tell (do_broadcast_notify r.players "RoomOwner" w)
        (set_room (record r { owner_conn_id = owner.conn_id }) w)

abbrev introduce_one : Option ServerPlayer → ServerPlayer → List Event
introduce_one none p = []
introduce_one (some q) p = do_notify p "AddPlayer" ++ do_notify p "UpdateGameData"

-- The other players are told to the one who enters.
unfoldable pub introduce : List ℤ → ServerPlayer → World → List Event
introduce [] p w = []
introduce (conn ∷ conns) p w =
    (if conn ==ℤ p.conn_id then [] else introduce_one (find_player_by_conn_id conn w) p)
    ++ introduce conns p w

abbrev announce_owner : Option ServerPlayer → ServerPlayer → List Event
announce_owner none p = []
announce_owner (some o) p = do_notify p "RoomOwner"

-- The owner after a player has entered.
abbrev pub owner_with : ServerPlayer → Room → ℤ
owner_with p r =
    if r.owner_conn_id ==ℤ pos 0 && not (is_negative p.id) then p.conn_id else r.owner_conn_id

-- The end of `addPlayer`: the player's record in the mode of the room (read from the data base).
unfoldable pub show_game_data : ServerPlayer → Room → World → World
show_game_data p r w =
    if str_eq p.last_game_mode r.game_mode
    then tell (do_broadcast_notify r.players "UpdateGameData" w) w
    else tell (update_game_data p.id r.game_mode ∷ [])
        (set_player (record p { last_game_mode = r.game_mode }) w)

-- `p` and `r` as they are after the player has entered.
unfoldable pub enter_room : ServerPlayer → Room → World → World
unfolding show_game_data set_owner
enter_room p r w =
    let v = tell (do_notify p "EnterRoom" ++ introduce r.players p w) w in
    let u = if r.owner_conn_id ==ℤ pos 0 then set_owner p r v else v in
    show_game_data p r (tell (announce_owner (find_player_by_conn_id (owner_with p r) u) p) u)

-- `Room::addPlayer`
unfoldable pub room_add_player : ServerPlayer → Room → World → World
room_add_player p r w =
    if is_rejected p r
    then tell (do_notify p "ErrorMsg") w
    else if is_full r || is_started r
    then tell (do_notify p "ErrorMsg") w
    else let v = tell (do_broadcast_notify r.players "AddPlayer" w) w in
      let q : ServerPlayer = record p { room_id = r.id } in
      let s : Room = record r { players = r.players ++ p.conn_id ∷ [] } in
      enter_room q s (set_player q (set_room s v))

-- `Room::addRobot`
unfoldable pub add_robot : ServerPlayer → Room → World → World
unfolding room_add_player create_robot
add_robot p r w =
    if not (p.conn_id ==ℤ r.owner_conn_id) || is_full r
    then w
    else let (v, bot) = create_robot w in room_add_player bot r v

-- `Lobby::updateOnlineInfo` and `Lobby::addPlayer`
unfoldable pub lobby_add_player : ServerPlayer → World → World
lobby_add_player p w =
    let v =
      if same_state p.state robot
      then delete_player p w
      else tell (do_notify p "EnterLobby") (
          set_player (record p { room_id = pos 0 })
            (record w {
              lobby = if contains p.conn_id w.lobby then w.lobby else w.lobby ++ p.conn_id ∷ [];
            })) in
    tell (do_broadcast_notify v.lobby "UpdatePlayerNum" v) v

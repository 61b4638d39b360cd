-- ===== src/Server/Sound/Rooms.antt =====
-- The operations of a room keep the maps in order.
use freekill_asio.Base.{ℤ, refl, Bool, [], ◌∷◌, ◌++◌, Option, none, some, if◌then◌else◌}
use freekill_asio.Base.Map.{contains}
use freekill_asio.Server.World.{World, ServerPlayer, PlayerState, Room}
use freekill_asio.Server.Users.{create_robot, after_conn_id, after_robot_id}
use freekill_asio.Server.Room.{
  set_ready, set_state, set_owner, show_game_data, enter_room, room_add_player, add_robot,
  lobby_add_player,
}
use freekill_asio.Server.Leave.{
  create_runned_player, hand_room_to, pass_on_owner, remove_observer, leave_idle_room, run_away,
  room_remove_player,
}
use freekill_asio.Server.Sound.{IsSound, IsFine, same_maps, sound}

pub set_ready-IsSound :
    (b : Bool) (p : ServerPlayer) (w : World)
    → IsFine p.socket p.id
    → IsSound w
    → IsSound (set_ready b p w)
unfolding set_ready
set_ready-IsSound b p w f s = search sound depth 12

pub set_state-IsSound :
    (st : PlayerState) (p : ServerPlayer) (w : World)
    → IsFine p.socket p.id
    → IsSound w
    → IsSound (set_state st p w)
unfolding set_state
set_state-IsSound st p w f s = search sound depth 12

pub set_owner-IsSound :
    (p : ServerPlayer) (r : Room) (w : World) → IsSound w → IsSound (set_owner p r w)
unfolding set_owner
set_owner-IsSound p r w s = search sound depth 12

pub show_game_data-IsSound :
    (p : ServerPlayer) (r : Room) (w : World)
    → IsFine p.socket p.id
    → IsSound w
    → IsSound (show_game_data p r w)
unfolding show_game_data
show_game_data-IsSound p r w f s = search sound depth 12

pub enter_room-IsSound :
    (p : ServerPlayer) (r : Room) (w : World)
    → IsFine p.socket p.id
    → IsSound w
    → IsSound (enter_room p r w)
unfolding enter_room
enter_room-IsSound p r w f s = search (sound, show_game_data-IsSound, set_owner-IsSound) depth 12

pub room_add_player-IsSound :
    (p : ServerPlayer) (r : Room) (w : World)
    → IsFine p.socket p.id
    → IsSound w
    → IsSound (room_add_player p r w)
unfolding room_add_player
room_add_player-IsSound p r w f s = search (sound, enter_room-IsSound) depth 12

-- A robot has no socket.
pub create_robot-IsSound :
    (w : World)
    → IsSound w
    → IsSound (create_robot w).0 × IsFine (create_robot w).1.socket (create_robot w).1.id
unfolding create_robot
create_robot-IsSound w s =
    let t : IsSound (record w {
      next_conn_id = after_conn_id w.next_conn_id;
      next_robot_id = after_robot_id w.next_robot_id;
    }) =
      same_maps w _ refl refl refl s in
    search sound depth 12

pub add_robot-IsSound :
    (p : ServerPlayer) (r : Room) (w : World) → IsSound w → IsSound (add_robot p r w)
unfolding add_robot
add_robot-IsSound p r w s =
    let (t, f) = create_robot-IsSound w s in search (sound, room_add_player-IsSound) depth 12

pub lobby_add_player-IsSound :
    (p : ServerPlayer) (w : World)
    → IsFine p.socket p.id
    → IsSound w
    → IsSound (lobby_add_player p w)
unfolding lobby_add_player
lobby_add_player-IsSound p w f s =
    let t : IsSound (record w {
      lobby = if contains p.conn_id w.lobby then w.lobby else w.lobby ++ p.conn_id ∷ [];
    }) =
      same_maps w _ refl refl refl s in
    search sound depth 12

pub create_runned_player-IsSound :
    (p : ServerPlayer) (socket : Option ℤ) (r : Room) (w : World)
    → IsFine socket p.id
    → IsSound w
    → IsSound (create_runned_player p socket r w)
unfolding create_runned_player
create_runned_player-IsSound p socket r w f s =
    let t : IsSound (record w { next_conn_id = after_conn_id w.next_conn_id }) =
      same_maps w _ refl refl refl s in
    search (sound, lobby_add_player-IsSound) depth 12

hand_room_to-IsSound :
    (o : Option ServerPlayer) (r : Room) (w : World) → IsSound w → IsSound (hand_room_to o r w)
hand_room_to-IsSound none r w s = s
hand_room_to-IsSound (some p) r w s = set_owner-IsSound p r w s

pub pass_on_owner-IsSound :
    (p : ServerPlayer) (r : Room) (w : World) → IsSound w → IsSound (pass_on_owner p r w)
unfolding pass_on_owner
pass_on_owner-IsSound p r w s = search (sound, hand_room_to-IsSound) depth 12

pub remove_observer-IsSound :
    (p : ServerPlayer) (r : Room) (w : World) → IsSound w → IsSound (remove_observer p r w)
unfolding remove_observer
remove_observer-IsSound p r w s = search sound depth 12

pub leave_idle_room-IsSound :
    (p : ServerPlayer) (r : Room) (w : World)
    → IsFine p.socket p.id
    → IsSound w
    → IsSound (leave_idle_room p r w)
unfolding leave_idle_room
leave_idle_room-IsSound p r w f s =
    search (sound, set_ready-IsSound, pass_on_owner-IsSound) depth 12

pub run_away-IsSound :
    (p : ServerPlayer) (r : Room) (w : World)
    → IsFine p.socket p.id
    → IsSound w
    → IsSound (run_away p r w)
unfolding run_away
run_away-IsSound p r w f s =
    search (sound, set_state-IsSound, create_runned_player-IsSound, pass_on_owner-IsSound) depth 12

pub room_remove_player-IsSound :
    (p : ServerPlayer) (r : Room) (w : World)
    → IsFine p.socket p.id
    → IsSound w
    → IsSound (room_remove_player p r w)
unfolding room_remove_player
room_remove_player-IsSound p r w f s =
    search (sound, remove_observer-IsSound, leave_idle_room-IsSound, run_away-IsSound) depth 12

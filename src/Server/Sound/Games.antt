-- ===== src/Server/Sound/Games.antt =====
-- The packets and games of a room keep the maps in order.
use freekill_asio.Base.{ℤ, List, [], ◌∷◌}
use freekill_asio.Server.World.{World, ServerPlayer, Room}
use freekill_asio.Server.Game.{
  add_observer, stand_up, reset_players, manually_start, dismiss, start_game, ready, toggle_trust,
  add_reject_id, remove_reject_id, kick_found, kick_player, back_to_lobby, quit_room,
}
use freekill_asio.Server.Game.Over.{
  count_time, count_times, update_player_game_time, settle_offline, settle, settle_all, game_over,
}
use freekill_asio.Server.Sound.{IsSound, IsFine, sound}
use freekill_asio.Server.Sound.Rooms.{
  set_ready-IsSound, set_state-IsSound, room_remove_player-IsSound, lobby_add_player-IsSound,
}

pub add_observer-IsSound :
    (p : ServerPlayer) (r : Room) (w : World)
    → IsFine p.socket p.id
    → IsSound w
    → IsSound (add_observer p r w)
unfolding add_observer
add_observer-IsSound p r w f s = search sound depth 12

pub stand_up-IsSound :
    (p : ServerPlayer) (w : World) → IsFine p.socket p.id → IsSound w → IsSound (stand_up p w)
unfolding stand_up
stand_up-IsSound p w f s = search (sound, set_ready-IsSound) depth 12

pub reset_players-IsSound :
    (conns : List ℤ) (w : World) → IsSound w → IsSound (reset_players conns w)
unfolding reset_players
reset_players-IsSound [] w s = s
reset_players-IsSound (conn ∷ conns) w s =
    reset_players-IsSound conns _ (search (sound, stand_up-IsSound) depth 12)

pub manually_start-IsSound : (r : Room) (w : World) → IsSound w → IsSound (manually_start r w)
unfolding manually_start
manually_start-IsSound r w s = search (sound, reset_players-IsSound) depth 12

pub dismiss-IsSound : (conns : List ℤ) (w : World) → IsSound w → IsSound (dismiss conns w)
unfolding dismiss
dismiss-IsSound [] w s = s
dismiss-IsSound (conn ∷ conns) w s = dismiss-IsSound conns _ (search sound depth 12)

pub start_game-IsSound : (r : Room) (w : World) → IsSound w → IsSound (start_game r w)
unfolding start_game
start_game-IsSound r w s = search (sound, manually_start-IsSound, dismiss-IsSound) depth 12

pub ready-IsSound :
    (p : ServerPlayer) (r : Room) (w : World)
    → IsFine p.socket p.id
    → IsSound w
    → IsSound (ready p r w)
unfolding ready
ready-IsSound p r w f s = search (sound, set_ready-IsSound) depth 12

pub toggle_trust-IsSound :
    (p : ServerPlayer) (r : Room) (w : World)
    → IsFine p.socket p.id
    → IsSound w
    → IsSound (toggle_trust p r w)
unfolding toggle_trust
toggle_trust-IsSound p r w f s = search (sound, set_state-IsSound) depth 12

pub add_reject_id-IsSound :
    (id : ℤ) (r : Room) (w : World) → IsSound w → IsSound (add_reject_id id r w)
unfolding add_reject_id
add_reject_id-IsSound id r w s = search sound depth 12

pub remove_reject_id-IsSound :
    (id : ℤ) (r : Room) (w : World) → IsSound w → IsSound (remove_reject_id id r w)
unfolding remove_reject_id
remove_reject_id-IsSound id r w s = search sound depth 12

pub kick_found-IsSound :
    (id : ℤ) (r : Room) (p : ServerPlayer) (w : World)
    → IsFine p.socket p.id
    → IsSound w
    → IsSound (kick_found id r p w)
unfolding kick_found
kick_found-IsSound id r p w f s =
    search (sound, room_remove_player-IsSound, lobby_add_player-IsSound, add_reject_id-IsSound)
      depth 12

pub kick_player-IsSound : (id : ℤ) (r : Room) (w : World) → IsSound w → IsSound (kick_player id r w)
unfolding kick_player
kick_player-IsSound id r w s = search (sound, kick_found-IsSound) depth 12

pub back_to_lobby-IsSound :
    (p : ServerPlayer) (w : World) → IsFine p.socket p.id → IsSound w → IsSound (back_to_lobby p w)
unfolding back_to_lobby
back_to_lobby-IsSound p w f s = search (sound, lobby_add_player-IsSound) depth 12

pub quit_room-IsSound :
    (p : ServerPlayer) (r : Room) (w : World)
    → IsFine p.socket p.id
    → IsSound w
    → IsSound (quit_room p r w)
unfolding quit_room
quit_room-IsSound p r w f s =
    search (sound, room_remove_player-IsSound, back_to_lobby-IsSound) depth 12

pub count_time-IsSound :
    (conns : List ℤ) (conn : ℤ) (p : ServerPlayer) (time : ℤ) (w : World)
    → IsSound w
    → IsSound (count_time conns conn p time w)
unfolding count_time
count_time-IsSound conns conn p time w s = search sound depth 12

pub count_times-IsSound :
    (game_time : ServerPlayer → ℤ) (all conns : List ℤ) (w : World)
    → IsSound w
    → IsSound (count_times game_time all conns w)
unfolding count_times
count_times-IsSound g all [] w s = s
count_times-IsSound g all (conn ∷ conns) w s =
    count_times-IsSound g all conns _ (search (sound, count_time-IsSound) depth 12)

pub settle_offline-IsSound :
    (r : Room) (p : ServerPlayer) (w : World) → IsSound w → IsSound (settle_offline r p w)
unfolding settle_offline
settle_offline-IsSound r p w s = search sound depth 12

pub settle-IsSound :
    (r : Room) (p : ServerPlayer) (w : World)
    → IsFine p.socket p.id
    → IsSound w
    → IsSound (settle r p w)
unfolding settle
settle-IsSound r p w f s = search (sound, settle_offline-IsSound, set_state-IsSound) depth 12

pub settle_all-IsSound :
    (r : Room) (conns : List ℤ) (w : World) → IsSound w → IsSound (settle_all r conns w)
unfolding settle_all
settle_all-IsSound r [] w s = s
settle_all-IsSound r (conn ∷ conns) w s =
    settle_all-IsSound r conns _ (search (sound, settle-IsSound) depth 12)

pub game_over-IsSound :
    (game_time : ServerPlayer → ℤ) (r : Room) (w : World)
    → IsSound w
    → IsSound (game_over game_time r w)
unfolding game_over update_player_game_time
game_over-IsSound g r w s =
    settle_all-IsSound r r.players _ (count_times-IsSound g r.players r.players w s)

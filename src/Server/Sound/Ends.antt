-- ===== src/Server/Sound/Ends.antt =====
-- The ends of objects, rooms and connections keep the maps in order.
use freekill_asio.Base.{
  ◌≡◌, Bool, ◌&&◌, Option-cases, if_cases, arith, ℤ, pos, refl, inl, inr, List, [], ◌∷◌, Option,
  none, some,
}
use freekill_asio.Base.Map.{erase, find}
use freekill_asio.Server.World.{
  World, ServerPlayer, kicked, is_online, offline, Room, CheckAbandonReason, no_ref_count, no_human,
}
use freekill_asio.Server.Room.{set_state}
use freekill_asio.Server.Leave.{lobby_remove_player}
use freekill_asio.Server.Game.{with_player}
use freekill_asio.Server.Abandon.{
  destroy_player, delete_players, drop_offline, remove_room, abandon, check_abandoned,
  increase_ref_count, decrease_ref_count, add_npc, remove_npc,
}
use freekill_asio.Server.Connection.{
  kick, kick_all, tell_few, after_cut, cut_off, end_or_wait, wake_room, on_disconnected, set_up,
  reconnect,
}
use freekill_asio.Server.Sound.{
  IsSound, IsFine, sound, same_maps, IsFine-none, erase-IsSound, tell-IsSound, set_player-IsSound,
}
use freekill_asio.Server.Sound.Rooms.{
  set_state-IsSound, room_remove_player-IsSound, create_robot-IsSound,
}

-- What the lobby forgets is in no map.
pub lobby_remove_player-IsSound :
    (p : ServerPlayer) (w : World) → IsSound w → IsSound (lobby_remove_player p w)
unfolding lobby_remove_player
lobby_remove_player-IsSound p w s = same_maps w _ refl refl refl s

pub destroy_player-IsSound :
    (p : ServerPlayer) (w : World) → IsFine p.socket p.id → IsSound w → IsSound (destroy_player p w)
unfolding destroy_player
destroy_player-IsSound p w f s =
    search (sound, room_remove_player-IsSound, lobby_remove_player-IsSound) depth 12

pub delete_players-IsSound :
    (conns : List ℤ) (w : World) → IsSound w → IsSound (delete_players conns w)
unfolding delete_players
delete_players-IsSound [] w s = s
delete_players-IsSound (conn ∷ conns) w s =
    delete_players-IsSound conns _ (search (sound, destroy_player-IsSound) depth 12)

pub drop_offline-IsSound : (r : Room) (w : World) → IsSound w → IsSound (drop_offline r w)
unfolding drop_offline
drop_offline-IsSound r w s = search (sound, delete_players-IsSound) depth 12

pub remove_room-IsSound : (id : ℤ) (w : World) → IsSound w → IsSound (remove_room id w)
unfolding remove_room
remove_room-IsSound id w s =
    let t : IsSound (record w { rooms = erase id w.rooms }) =
      erase-IsSound w _ (pos 0) id (pos 0) (inl refl) (inr refl) (inl refl) s in
    search sound depth 12

pub abandon-IsSound : (r : Room) (w : World) → IsSound w → IsSound (abandon r w)
unfolding abandon
abandon-IsSound r w s = search (sound, remove_room-IsSound) depth 12

pub check_abandoned-IsSound :
    (reason : CheckAbandonReason) (r : Room) (w : World)
    → IsSound w
    → IsSound (check_abandoned reason r w)
unfolding check_abandoned
check_abandoned-IsSound no_ref_count r w s =
    search (sound, drop_offline-IsSound, abandon-IsSound) depth 12
check_abandoned-IsSound no_human r w s = abandon-IsSound r w s

pub increase_ref_count-IsSound :
    (r : Room) (w : World) → IsSound w → IsSound (increase_ref_count r w)
unfolding increase_ref_count
increase_ref_count-IsSound r w s = search sound depth 12

pub decrease_ref_count-IsSound :
    (r : Room) (w : World) → IsSound w → IsSound (decrease_ref_count r w)
unfolding decrease_ref_count
decrease_ref_count-IsSound r w s = search sound depth 12

pub add_npc-IsSound : (r : Room) (w : World) → IsSound w → IsSound (add_npc r w).0
unfolding add_npc
add_npc-IsSound r w s = let (t, f) = create_robot-IsSound w s in search sound depth 12

pub remove_npc-IsSound :
    (p : ServerPlayer) (r : Room) (w : World) → IsSound w → IsSound (remove_npc p r w)
unfolding remove_npc
remove_npc-IsSound p r w s = search sound depth 12

pub tell_few-IsSound : (w : World) → IsSound w → IsSound (tell_few w)
unfolding tell_few
tell_few-IsSound w s = search sound depth 12

wake_room-IsSound : (o : Option Room) (w : World) → IsSound w → IsSound (wake_room o w)
wake_room-IsSound none w s = s
wake_room-IsSound (some r) w s = tell-IsSound _ w s

pub end_or_wait-IsSound :
    (p : ServerPlayer) (w : World) → IsFine p.socket p.id → IsSound w → IsSound (end_or_wait p w)
unfolding end_or_wait
end_or_wait-IsSound p w f s = search (sound, destroy_player-IsSound, wake_room-IsSound) depth 12

set_up-IsSound :
    (p : ServerPlayer) (o : Option Room) (w : World) → IsSound w → IsSound (set_up p o w)
unfolding set_up
set_up-IsSound p none w s = tell-IsSound _ w s
set_up-IsSound p (some r) w s = tell-IsSound _ w s

pub reconnect-IsSound :
    (p : ServerPlayer) (socket : ℤ) (w : World)
    → IsFine (some socket) p.id
    → IsSound w
    → IsSound (reconnect p socket w)
unfolding reconnect
reconnect-IsSound p socket w f s =
    search (sound, set_up-IsSound, tell_few-IsSound, set_state-IsSound) depth 12

cut_off-IsFine : (p : ServerPlayer) (w : World) → IsFine (cut_off p w).socket (cut_off p w).id
unfolding IsFine
cut_off-IsFine p w h = absurd (ground (arith, h))

after_cut-IsSound : (p : ServerPlayer) (w : World) → IsSound w → IsSound (after_cut p w)
unfolding after_cut
after_cut-IsSound p w s =
    let v = set_state offline (record p { socket = none }) w in
    tell_few-IsSound _ (
      set_player-IsSound (cut_off p v) v (cut_off-IsFine p v)
        (set_state-IsSound offline (record p { socket = none }) w (IsFine-none p.id) s))

pub on_disconnected-IsSound :
    (p : ServerPlayer) (w : World) → IsSound w → IsSound (on_disconnected p w)
unfolding on_disconnected
on_disconnected-IsSound p w s =
    let v = set_state offline (record p { socket = none }) w in
    end_or_wait-IsSound (cut_off p v) (after_cut p w) (cut_off-IsFine p v) (after_cut-IsSound p w s)

-- What keeps the maps in order for each object that is there does so under its connection id.
pub found-IsSound :
    (conn : ℤ) (f : ServerPlayer → World → World) (w : World)
    → ((p : ServerPlayer) → find conn w.players_map ≡ some p → IsSound (f p w))
    → IsSound w
    → IsSound (with_player conn f w)
found-IsSound conn f w g s = elim (Option-cases (find conn w.players_map)) [
  | inl e ↦ rw e s
  | inr (p, e) ↦ rw e (g p e)
]

module _ (drained : ServerPlayer → Bool) where
  kick-IsSound : (p : ServerPlayer) (w : World) → IsSound w → IsSound (kick drained p w)
  unfolding kick
  kick-IsSound p w s =
      let t = tell-IsSound (kicked p.conn_id ∷ []) w s in
      if_cases IsSound (is_online p && drained p) (λ _. on_disconnected-IsSound p _ t) (λ _. t)

  pub kick_all-IsSound :
      (conns : List ℤ) (w : World) → IsSound w → IsSound (kick_all drained conns w)
  unfolding kick_all
  kick_all-IsSound [] w s = s
  kick_all-IsSound (conn ∷ conns) w s =
      kick_all-IsSound conns _ (found-IsSound conn (kick drained) w (λ p h. kick-IsSound p w s) s)

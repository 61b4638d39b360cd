-- ===== src/Server/Refresh/Quiet.antt =====
-- What the end of a connection leaves as it is: the threads and the hash of the server
-- (`ServerPlayer::kick` and what it calls of src/server/user/serverplayer.cpp).
use freekill_asio.Base.{
  ℤ, ◌≡◌, refl, ◌∙◌, Bool, true, false, List, [], ◌∷◌, Option, none, some, if◌then◌else◌, arith,
  if_cases, Option-cases, inl, inr, ◌&&◌, not,
}
use freekill_asio.Base.Map.{find, contains, remove_first}
use freekill_asio.Server.World.{
  World, ServerPlayer, Room, PlayerState, offline, run, set_player, set_room, tell, kicked,
  is_online, has_observer, is_started, wake_up, on_thread, do_broadcast_notify,
}
use freekill_asio.Server.Users.{
  add_player, delete_player, remove_player, remove_player_by_conn_id, after_conn_id,
}
use freekill_asio.Server.Room.{set_ready, set_state, set_owner, lobby_add_player}
use freekill_asio.Server.Leave.{
  lobby_remove_player, runner_of, create_runned_player, first_online, pass_on_owner,
  remove_observer, leave_idle_room, run_away, room_remove_player, forget_md5,
}
use freekill_asio.Server.Game.{with_found, with_player}
use freekill_asio.Server.Abandon.{destroy_player}
use freekill_asio.Server.Connection.{
  tell_few, cut_off, after_cut, end_or_wait, on_disconnected, kick, kick_all,
}

-- The same threads and the same hash
pub record IsQuiet (w v : World) : Type 0 where
  pub threads : v.threads ≡ w.threads
  pub md5 : v.md5 ≡ w.md5

pub same : (w v : World) → v.threads ≡ w.threads → v.md5 ≡ w.md5 → IsQuiet w v
same w v a b = record { threads = a; md5 = b }

pub IsQuiet-trans : {u w v : World} → IsQuiet u w → IsQuiet w v → IsQuiet u v
IsQuiet-trans a b = record { threads = b.threads ∙ a.threads; md5 = b.md5 ∙ a.md5 }

set_state-IsQuiet : (s : PlayerState) (p : ServerPlayer) (w : World) → IsQuiet w (set_state s p w)
unfolding set_state
set_state-IsQuiet s p w = same w _ (ground arith) (ground arith)

set_ready-IsQuiet : (b : Bool) (p : ServerPlayer) (w : World) → IsQuiet w (set_ready b p w)
unfolding set_ready
set_ready-IsQuiet b p w = same w _ (ground arith) (ground arith)

add_player-IsQuiet : (p : ServerPlayer) (w : World) → IsQuiet w (add_player p w)
unfolding add_player
add_player-IsQuiet p w = same w _ (ground arith) (ground arith)

delete_player-IsQuiet : (p : ServerPlayer) (w : World) → IsQuiet w (delete_player p w)
unfolding delete_player remove_player remove_player_by_conn_id
delete_player-IsQuiet p w = same w _ refl refl

lobby_add_player-IsQuiet : (p : ServerPlayer) (w : World) → IsQuiet w (lobby_add_player p w)
unfolding lobby_add_player delete_player remove_player remove_player_by_conn_id
lobby_add_player-IsQuiet p w = same w _ (ground arith) (ground arith)

pass_on_owner-IsQuiet : (p : ServerPlayer) (r : Room) (w : World) → IsQuiet w (pass_on_owner p r w)
unfolding pass_on_owner set_owner
pass_on_owner-IsQuiet p r w = elim (Option-cases (first_online r.players w)) [
  | inl e ↦ rw e (same w _ (ground arith) (ground arith))
  | inr (q, e) ↦ rw e (same w _ (ground arith) (ground arith))
]

create_runned_player-IsQuiet :
    (p : ServerPlayer) (socket : Option ℤ) (r : Room) (w : World)
    → IsQuiet w (create_runned_player p socket r w)
unfolding create_runned_player
create_runned_player-IsQuiet p socket r w =
    let q = runner_of p socket w in
    let u = record w { next_conn_id = after_conn_id w.next_conn_id } in
    let a = add_player-IsQuiet q u in
    let b = lobby_add_player-IsQuiet q (add_player q u) in
    let c = IsQuiet-trans a b in same w _ (ground (arith, c.threads)) (ground (arith, c.md5))

run_away-IsQuiet : (p : ServerPlayer) (r : Room) (w : World) → IsQuiet w (run_away p r w)
unfolding run_away
run_away-IsQuiet p r w =
    let a = set_state-IsQuiet run p w in
    let v = set_state run p w in
    let q : ServerPlayer = record p {
      state = run;
      socket = none;
      runned = if p.died then p.runned else true;
    } in
    let u = set_player q v in
    let t = if p.thinking then tell (on_thread r (wake_up r.id "player_disconnect") u) u else u in
    let b : IsQuiet w t = same w t (ground (arith, a.threads)) (ground (arith, a.md5)) in
    let c = create_runned_player-IsQuiet q p.socket r t in
    IsQuiet-trans b (
      IsQuiet-trans c
        (pass_on_owner-IsQuiet q (forget_md5 r t) (create_runned_player q p.socket r t)))

leave_idle_room-IsQuiet :
    (p : ServerPlayer) (r : Room) (w : World) → IsQuiet w (leave_idle_room p r w)
unfolding leave_idle_room
leave_idle_room-IsQuiet p r w =
    let a = set_ready-IsQuiet false p w in
    let s : Room = record r { players = remove_first p.conn_id r.players } in
    let u = set_room s (set_ready false p w) in
    let t = tell (do_broadcast_notify s.players "RemovePlayer" u) u in
    IsQuiet-trans (same w t a.threads a.md5) (pass_on_owner-IsQuiet p s t)

room_remove_player-IsQuiet :
    (p : ServerPlayer) (r : Room) (w : World) → IsQuiet w (room_remove_player p r w)
unfolding room_remove_player remove_observer
room_remove_player-IsQuiet p r w =
    if_cases (IsQuiet w) (has_observer p r) (λ _. same w _ refl refl)
      (λ _.
        if_cases (IsQuiet w) (not (contains p.conn_id r.players)) (λ _. same w w refl refl)
          (λ _.
            if_cases (IsQuiet w) (not (is_started r)) (λ _. leave_idle_room-IsQuiet p r w)
              (λ _. run_away-IsQuiet p r w)))

left-IsQuiet :
    (p : ServerPlayer) (o : Option Room) (w : World)
    → IsQuiet w (with_found o (room_remove_player p) w)
left-IsQuiet p none w = same w w refl refl
left-IsQuiet p (some r) w = room_remove_player-IsQuiet p r w

destroy_player-IsQuiet : (p : ServerPlayer) (w : World) → IsQuiet w (destroy_player p w)
unfolding destroy_player remove_player_by_conn_id lobby_remove_player
destroy_player-IsQuiet p w =
    let a = left-IsQuiet p (find p.room_id w.rooms) w in
    same w _ (ground (arith, a.threads)) (ground (arith, a.md5))

end_or_wait-IsQuiet : (p : ServerPlayer) (w : World) → IsQuiet w (end_or_wait p w)
unfolding end_or_wait
end_or_wait-IsQuiet p w =
    let a =
      IsQuiet-trans (delete_player-IsQuiet p w) (destroy_player-IsQuiet p (delete_player p w)) in
    elim (Option-cases (find p.room_id w.rooms)) [
      | inl e ↦ rw e (same w _ (ground (arith, a.threads)) (ground (arith, a.md5)))
      | inr (r, e) ↦ rw e (same w _ (ground (arith, a.threads)) (ground (arith, a.md5)))
    ]

on_disconnected-IsQuiet : (p : ServerPlayer) (w : World) → IsQuiet w (on_disconnected p w)
unfolding on_disconnected after_cut tell_few
on_disconnected-IsQuiet p w =
    let a = set_state-IsQuiet offline (record p { socket = none }) w in
    IsQuiet-trans (same w (after_cut p w) (ground (arith, a.threads)) (ground (arith, a.md5))) (
      end_or_wait-IsQuiet (cut_off p (set_state offline (record p { socket = none }) w))
        (after_cut p w))

module _ (drained : ServerPlayer → Bool) where
  kick-IsQuiet : (o : Option ServerPlayer) (w : World) → IsQuiet w (with_found o (kick drained) w)
  unfolding kick
  kick-IsQuiet none w = same w w refl refl
  kick-IsQuiet (some p) w =
      if_cases (IsQuiet w) (is_online p && drained p)
        (λ _.
          let v = tell (kicked p.conn_id ∷ []) w in
          IsQuiet-trans (same w v refl refl) (on_disconnected-IsQuiet p v))
        (λ _. same w _ refl refl)

  pub kick_all-IsQuiet : (conns : List ℤ) (w : World) → IsQuiet w (kick_all drained conns w)
  unfolding kick_all
  kick_all-IsQuiet [] w = same w w refl refl
  kick_all-IsQuiet (conn ∷ conns) w =
      IsQuiet-trans (kick-IsQuiet (find conn w.players_map) w)
        (kick_all-IsQuiet conns (with_player conn (kick drained) w))

-- ===== src/Server/Connection.antt =====
-- How the connection of a user ends and comes back: `ServerPlayer::onDisconnected` and `reconnect`
-- of src/server/user/serverplayer.cpp.
use freekill_asio.Base.{
  ◌≡◌, refl, ap, ◌∙◌, subst, ℤ, pos, Bool, true, false, not, ◌&&◌, List, [], ◌∷◌, ◌++◌, Option,
  none, some, if◌then◌else◌, ◌==ℤ◌, ==ℤ_iff, length, leb, arith, Option-cases, inl, inr,
}
use freekill_asio.Base.Map.{contains, contains-remove_all, find, find-put, find-erase}
use freekill_asio.Server.World.{
  World, ServerPlayer, max_ttl, PlayerState, online, offline, Room, Event, wake_up, push_request,
  kicked, set_player, tell, is_online, do_notify, do_broadcast_notify, on_thread, inside_game,
}
use freekill_asio.Server.Users.{remove_player, delete_player, remove_player_by_conn_id}
use freekill_asio.Server.Leave.{room_remove_player, lobby_remove_player}
use freekill_asio.Task.Manager.{remove_all_tasks_by_user}
use freekill_asio.Server.Game.{with_room, with_player}
use freekill_asio.Server.Room.{set_state}
use freekill_asio.Server.Leave.Running.{set_state_kept}
use freekill_asio.Server.Abandon.{delete_and_destroy, destroy_player}

-- `Server::broadcast`
unfoldable pub broadcast : List (ℤ × ℤ) → World → List Event
unfolding do_broadcast_notify
broadcast [] w = []
broadcast ((id, conn) ∷ ps) w = do_broadcast_notify (conn ∷ []) "ServerMessage" w ++ broadcast ps w

-- Few users are told of one another's coming and going.
unfoldable pub tell_few : World → World
unfolding broadcast
tell_few w =
    if leb (length w.online_players_map) 10 then tell (broadcast w.online_players_map w) w else w

abbrev pub wake_room : Option Room → World → World
wake_room none w = w
wake_room (some r) w = tell (on_thread r (wake_up r.id "player_disconnect") w) w

-- The object once its socket is gone.
abbrev pub cut_off : ServerPlayer → World → ServerPlayer
cut_off p w =
    let q : ServerPlayer = record p { socket = none; state = offline } in
    if inside_game q w && not p.died then record q { runned = true } else q

-- The first half of `onDisconnected`, with the object as it leaves it.
unfoldable pub after_cut : ServerPlayer → World → World
unfolding tell_few set_state
after_cut p w =
    let v = set_state offline (record p { socket = none }) w in
    tell_few (set_player (cut_off p v) v)

-- The second half: outside a game the object goes, in a game its thread may wait for it.
unfoldable pub end_or_wait : ServerPlayer → World → World
unfolding destroy_player
end_or_wait q w =
    if not (inside_game q w)
    then delete_and_destroy q w
    else if q.thinking
    then wake_room (find q.room_id w.rooms) w
    else w

-- `ServerPlayer::onDisconnected`
unfoldable pub on_disconnected : ServerPlayer → World → World
unfolding set_state after_cut end_or_wait
on_disconnected p w =
    end_or_wait (cut_off p (set_state offline (record p { socket = none }) w)) (after_cut p w)

unfoldable pub set_up : ServerPlayer → Option Room → World → World
set_up p none w = tell (do_notify p "ErrorMsg" ++ kicked p.conn_id ∷ []) w
set_up p (some r) w =
    tell
      (do_notify p "Setup"
        ++ do_notify p "SetServerSettings"
        ++ on_thread r (push_request r.id p.id "reconnect") w)
      w

-- `ServerPlayer::reconnect`
unfoldable pub reconnect : ServerPlayer → ℤ → World → World
unfolding set_state tell_few set_up
reconnect p socket w =
    let v = set_state online (record p { socket = some socket }) (tell_few w) in
    let q : ServerPlayer = record p {
      socket = some socket;
      state = online;
      runned = false;
      ttl = max_ttl;
    } in
    let u = set_player q v in
    set_up q (if p.room_id ==ℤ pos 0 then none else find p.room_id u.rooms) u

module _ (drained : ServerPlayer → Bool) where
  -- `ServerPlayer::kick`: where nothing waits to be sent (`drained`), the socket is closed at once,
  -- and its callback is called; otherwise `send_loop` closes it later.
  unfoldable pub kick : ServerPlayer → World → World
  unfolding on_disconnected
  kick p w =
      let v = tell (kicked p.conn_id ∷ []) w in
      if is_online p && drained p then on_disconnected p v else v

  unfoldable pub kick_all : List ℤ → World → World
  unfolding kick
  kick_all [] w = w
  kick_all (conn ∷ conns) w = kick_all conns (with_player conn kick w)

tell_few_kept :
    (w : World)
    → ((tell_few w).players_map ≡ w.players_map)
      × ((tell_few w).rooms ≡ w.rooms)
      × ((tell_few w).online_players_map ≡ w.online_players_map)
unfolding tell_few
tell_few_kept w = (ground arith, ground arith, ground arith)

after_cut_kept :
    (p : ServerPlayer) (w : World)
    → let v = after_cut p w in
      (find p.conn_id v.players_map ≡ some (cut_off p w))
      × (v.rooms ≡ w.rooms)
      × (v.online_players_map ≡ w.online_players_map)
unfolding after_cut
after_cut_kept p w =
    let v = set_state offline (record p { socket = none }) w in
    let (e, f, g, k) = set_state_kept offline (record p { socket = none }) w in
    let (a, b, c) = tell_few_kept (set_player (cut_off p v) v) in
    (
      ground (
        arith,
        a,
        k,
        ==ℤ_iff p.conn_id p.conn_id,
        find-put p.conn_id p.conn_id (cut_off p v) v.players_map,
      ),
      b ∙ k,
      c ∙ f,
    )

erased : (q : ServerPlayer) (w : World) → find q.conn_id (destroy_player q w).players_map ≡ none
unfolding destroy_player remove_player_by_conn_id
erased q w = ground (
  arith,
  find-erase q.conn_id q.conn_id
      (if q.room_id ==ℤ pos 0
        then lobby_remove_player q w
        else with_room q.room_id (room_remove_player q) w).players_map,
  ==ℤ_iff q.conn_id q.conn_id,
)

end_or_wait_lem :
    (q : ServerPlayer) (w : World)
    → let v = end_or_wait q w in
      (inside_game q w ≡ true
        → (v.players_map ≡ w.players_map)
          × (v.rooms ≡ w.rooms)
          × (v.online_players_map ≡ w.online_players_map))
      × (inside_game q w ≡ false → find q.conn_id v.players_map ≡ none)
unfolding end_or_wait
end_or_wait_lem q w = (
  λ h. (
    elim (Option-cases (find q.room_id w.rooms)) [
      | inl e ↦ rw (h, e) (ground arith)
      | inr (r, e) ↦ rw (h, e) (ground arith)
    ],
    elim (Option-cases (find q.room_id w.rooms)) [
      | inl e ↦ rw (h, e) (ground arith)
      | inr (r, e) ↦ rw (h, e) (ground arith)
    ],
    elim (Option-cases (find q.room_id w.rooms)) [
      | inl e ↦ rw (h, e) (ground arith)
      | inr (r, e) ↦ rw (h, e) (ground arith)
    ],
  ),
  λ h. rw h (erased q (delete_player q w)),
)

-- One who is in the lobby leaves it, and takes the tasks along.
end_in_lobby :
    (q : ServerPlayer) (w : World)
    → q.room_id ≡ pos 0
    → let v = end_or_wait q w in
      (contains q.conn_id v.lobby ≡ false) × (v.tasks ≡ remove_all_tasks_by_user q.conn_id w.tasks)
unfolding end_or_wait destroy_player lobby_remove_player delete_player remove_player
    remove_player_by_conn_id
end_in_lobby q w h = (
  rw h (
      ground (arith, contains-remove_all q.conn_id q.conn_id w.lobby, ==ℤ_iff q.conn_id q.conn_id)),
  rw h refl,
)

set_state_tasks :
    (st : PlayerState) (p : ServerPlayer) (w : World) → (set_state st p w).tasks ≡ w.tasks
unfolding set_state
set_state_tasks st p w = ground arith

after_cut_tasks : (p : ServerPlayer) (w : World) → (after_cut p w).tasks ≡ w.tasks
unfolding after_cut tell_few
after_cut_tasks p w = ground (arith, set_state_tasks offline (record p { socket = none }) w)

conn_id-cut_off : (p : ServerPlayer) (w : World) → (cut_off p w).conn_id ≡ p.conn_id
conn_id-cut_off p w = ground arith

-- One who loses the connection in a game keeps the object, in the same room, in state offline and
-- counted as run away unless dead, and the user id leads to what it led to. Any other object goes;
-- one in the lobby leaves it, and its tasks are removed.
pub on_disconnected_lem :
    (p : ServerPlayer) (w : World)
    → let v = on_disconnected p w in
      (inside_game p w ≡ true
        → (find p.conn_id v.players_map
            ≡ some (record p {
              state = offline;
              socket = none;
              runned = if p.died then p.runned else true;
            }))
          × (v.rooms ≡ w.rooms)
          × (v.online_players_map ≡ w.online_players_map))
      × (inside_game p w ≡ false → find p.conn_id v.players_map ≡ none)
      × (p.room_id ≡ pos 0
          → (contains p.conn_id v.lobby ≡ false)
            × (v.tasks ≡ remove_all_tasks_by_user p.conn_id w.tasks))
unfolding on_disconnected
on_disconnected_lem p w =
    let (e, f, g, k) = set_state_kept offline (record p { socket = none }) w in
    let (a, b, c) = after_cut_kept p w in
    let v = set_state offline (record p { socket = none }) w in
    let (stays, goes) = end_or_wait_lem (cut_off p v) (after_cut p w) in
    (
      λ h.
          let (x, y, z) = stays (ground (arith, h, b, k)) in
          (rw x (a ∙ ground (arith, h)), y ∙ b, z ∙ c),
      λ h.
          subst (λ i. find i (end_or_wait (cut_off p v) (after_cut p w)).players_map ≡ none)
            (conn_id-cut_off p v) (goes (ground (arith, h, b, k))),
      λ h.
          let q = cut_off p v in
          let (m, n) = end_in_lobby q (after_cut p w) (ground (arith, h)) in
          (
            subst (λ i. contains i (end_or_wait q (after_cut p w)).lobby ≡ false)
                (conn_id-cut_off p v) m,
            n
                ∙ ap (λ i. remove_all_tasks_by_user i (after_cut p w).tasks) (conn_id-cut_off p v)
                ∙ ap (remove_all_tasks_by_user p.conn_id) (after_cut_tasks p w),
          ),
    )

set_state_next :
    (st : PlayerState) (p : ServerPlayer) (w : World)
    → (set_state st p w).next_conn_id ≡ w.next_conn_id
unfolding set_state
set_state_next st p w = ground arith

-- No connection id is handed out when a user comes back.
pub next_conn_id-reconnect :
    (p : ServerPlayer) (socket : ℤ) (w : World)
    → (reconnect p socket w).next_conn_id ≡ w.next_conn_id
unfolding reconnect tell_few set_up
next_conn_id-reconnect p socket w =
    ground (arith, set_state_next online (record p { socket = some socket }) (tell_few w))

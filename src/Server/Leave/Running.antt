-- ===== src/Server/Leave/Running.antt =====
-- What becomes of one who runs away from a game that goes on.
use freekill_asio.Base.{
  ◌≡◌, ◌≢◌, refl, ℤ, pos, true, Option, none, some, if◌then◌else◌, is_positive, ◌==ℤ◌, ==ℤ_iff, ◌∙◌,
  ap, subst, arith,
}
use freekill_asio.Base.Map.{find, put, contains, find-put, contains-snoc}
use freekill_asio.Server.World.{
  World, ServerPlayer, PlayerState, run, online, Room, set_player, tell, on_thread, wake_up,
}
use freekill_asio.Server.Users.{add_player, find_player, after_conn_id}
use freekill_asio.Server.Room.{set_state, lobby_add_player}
use freekill_asio.Server.Leave.{run_away, create_runned_player, runner_of, forget_md5}
use freekill_asio.Server.Leave.Owner.{pass_on_owner_kept}

pub set_state_kept :
    (state : PlayerState) (p : ServerPlayer) (w : World)
    → let v = set_state state p w in
      (v.players_map ≡ put p.conn_id (record p { state = state }) w.players_map)
      × (v.online_players_map ≡ w.online_players_map)
      × (v.next_conn_id ≡ w.next_conn_id)
      × (v.rooms ≡ w.rooms)
unfolding set_state
set_state_kept state p w = (ground arith, ground arith, ground arith, ground arith)

lobby_add_player_online :
    (p : ServerPlayer) (w : World)
    → p.state ≡ online
    → let v = lobby_add_player p w in
      (v.players_map ≡ put p.conn_id (record p { room_id = pos 0 }) w.players_map)
      × (v.online_players_map ≡ w.online_players_map)
      × (contains p.conn_id v.lobby ≡ true)
unfolding lobby_add_player
lobby_add_player_online p w h = rw h (
  ground arith,
  ground arith,
  ground (arith, contains-snoc p.conn_id p.conn_id w.lobby, ==ℤ_iff p.conn_id p.conn_id),
)

abbrev newcomer : ServerPlayer → World → World
newcomer q w =
    lobby_add_player q (add_player q (record w { next_conn_id = after_conn_id w.next_conn_id }))

create_runned_player_kept :
    (p : ServerPlayer) (socket : Option ℤ) (r : Room) (w : World)
    → let v = create_runned_player p socket r w in
      let u = newcomer (runner_of p socket w) w in
      (v.players_map ≡ u.players_map)
      × (v.online_players_map ≡ u.online_players_map)
      × (v.lobby ≡ u.lobby)
unfolding create_runned_player
create_runned_player_kept p socket r w = (ground arith, ground arith, ground arith)

newcomer_lem :
    (q : ServerPlayer) (w : World)
    → is_positive q.id ≡ true
    → q.state ≡ online
    → q.room_id ≡ pos 0
    → let v = newcomer q w in
      (v.online_players_map ≡ put q.id q.conn_id w.online_players_map)
      × ((j : ℤ)
          → find j v.players_map ≡ (if q.conn_id ==ℤ j then some q else find j w.players_map))
      × (contains q.conn_id v.lobby ≡ true)
unfolding add_player
newcomer_lem q w h o z =
    let u = add_player q (record w { next_conn_id = after_conn_id w.next_conn_id }) in
    let (e, f, g) = lobby_add_player_online q u o in
    (
      rw f (ground (arith, h)),
      λ j. rw e (
          ground
            (arith, h, find-put j q.conn_id q u.players_map, find-put j q.conn_id q w.players_map)),
      g,
    )

create_runned_player_lem :
    (p : ServerPlayer) (socket : Option ℤ) (r : Room) (w : World)
    → is_positive p.id ≡ true
    → let v = create_runned_player p socket r w in
      (find_player p.id v ≡ some w.next_conn_id)
      × ((j : ℤ)
          → find j v.players_map
            ≡ (if w.next_conn_id ==ℤ j then some (runner_of p socket w) else find j w.players_map))
      × (contains w.next_conn_id v.lobby ≡ true)
unfolding find_player
create_runned_player_lem p socket r w h =
    let q = runner_of p socket w in
    let (a, b, c) = create_runned_player_kept p socket r w in
    let (e, f, g) = newcomer_lem q w h refl refl in
    (
      rw (b, e)
          (ground
            (arith, h, find-put p.id p.id w.next_conn_id w.online_players_map, ==ℤ_iff p.id p.id)),
      λ j. rw a (f j),
      rw c g,
    )

abbrev gone : ServerPlayer → ServerPlayer
gone p = record p { state = run; socket = none; runned = if p.died then p.runned else true }

-- The world in which the new object is made.
abbrev left_behind : ServerPlayer → Room → World → World
left_behind p r w =
    let u = set_player (gone p) (set_state run p w) in
    if p.thinking then tell (on_thread r (wake_up r.id "player_disconnect") u) u else u

left_behind_lem :
    (p : ServerPlayer) (r : Room) (w : World) (j : ℤ)
    → let v = left_behind p r w in
      (v.next_conn_id ≡ w.next_conn_id)
      × (find j v.players_map ≡ (if p.conn_id ==ℤ j then some (gone p) else find j w.players_map))
left_behind_lem p r w j =
    let (e, f, g, k) = set_state_kept run p w in
    (
      ground (arith, g),
      ground (
        arith,
        e,
        find-put j p.conn_id (gone p) (set_state run p w).players_map,
        find-put j p.conn_id (record p { state = run }) w.players_map,
      ),
    )

run_away-pass_on :
    (p : ServerPlayer) (r : Room) (w : World)
    → let v = run_away p r w in
      let u = create_runned_player (gone p) p.socket r (left_behind p r w) in
      (v.players_map ≡ u.players_map)
      × (v.online_players_map ≡ u.online_players_map)
      × (v.robots_map ≡ u.robots_map)
      × (v.lobby ≡ u.lobby)
unfolding run_away
run_away-pass_on p r w =
    pass_on_owner_kept (gone p) (forget_md5 r (left_behind p r w))
      (create_runned_player (gone p) p.socket r (left_behind p r w))

players-run_away :
    (p : ServerPlayer) (r : Room) (w : World) (j : ℤ)
    → is_positive p.id ≡ true
    → find j (run_away p r w).players_map ≡ (
        if w.next_conn_id ==ℤ j
        then some (runner_of p p.socket w)
        else if p.conn_id ==ℤ j
        then some (gone p)
        else find j w.players_map)
players-run_away p r w j h =
    let (e, f, g) = create_runned_player_lem (gone p) p.socket r (left_behind p r w) h in
    let (k, l) = left_behind_lem p r w j in rw ((run_away-pass_on p r w).0, f j, k, l) refl

-- When a user runs away from a game, the old object stays behind under its connection id, in the
-- same room, in state run and without a socket. A new object of the same user is in the lobby, has
-- the old socket, and is what the user id leads to. Every other object is as it was.
pub run_away_lem :
    (p : ServerPlayer) (r : Room) (w : World)
    → is_positive p.id ≡ true
    → p.conn_id ≢ w.next_conn_id
    → let v = run_away p r w in
      (find p.conn_id v.players_map ≡ some (gone p))
      × (find w.next_conn_id v.players_map ≡ some (runner_of p p.socket w))
      × (find_player p.id v ≡ some w.next_conn_id)
      × (contains w.next_conn_id v.lobby ≡ true)
      × ((j : ℤ) → j ≢ p.conn_id → j ≢ w.next_conn_id → find j v.players_map ≡ find j w.players_map)
unfolding find_player
run_away_lem p r w h n =
    let (a, b, c, d) = run_away-pass_on p r w in
    let (e, f, g) = create_runned_player_lem (gone p) p.socket r (left_behind p r w) h in
    let k = (left_behind_lem p r w p.conn_id).0 in
    (
      ground (
        arith,
        n,
        players-run_away p r w p.conn_id h,
        ==ℤ_iff w.next_conn_id p.conn_id,
        ==ℤ_iff p.conn_id p.conn_id,
      ),
      ground
          (arith, players-run_away p r w w.next_conn_id h, ==ℤ_iff w.next_conn_id w.next_conn_id),
      rw (b, c) (e ∙ ap some k),
      rw d (
          subst
            (λ i.
              contains i (create_runned_player (gone p) p.socket r (left_behind p r w)).lobby
              ≡ true)
            k g),
      λ j m l.
          ground (
            arith,
            m,
            l,
            players-run_away p r w j h,
            ==ℤ_iff w.next_conn_id j,
            ==ℤ_iff p.conn_id j,
          ),
    )

-- ===== src/Server/Leave/Owner.antt =====
-- Who owns a room that a player leaves, and what becomes of one who runs away from a game.
use freekill_asio.Base.{
  ◌≡◌, ◌≢◌, ℤ, pos, true, false, List, [], ◌∷◌, ◌++◌, some, is_negative, ==ℤ_iff, arith, Bool-cases,
  Option-cases, inl, inr,
}
use freekill_asio.Base.Map.{find, contains, find-put}
use freekill_asio.Server.World.{
  World, ServerPlayer, Room, no_human, post_check_abandoned, is_online, is_online_conn, all_gone,
  is_abandoned,
}
use freekill_asio.Server.Room.{set_owner}
use freekill_asio.Server.Leave.{first_online, pass_on_owner}

-- The objects stand under their connection ids, and one with a socket is no robot.
unfoldable pub IsKeyed : World → Type 0
IsKeyed w =
    (j : ℤ) (p : ServerPlayer)
    → find j w.players_map ≡ some p
    → (p.conn_id ≡ j) × (is_online p ≡ true → is_negative p.id ≡ false)

abbrev OnlineIn : List ℤ → World → Type 0
OnlineIn conns w =
    (o : ServerPlayer) × (j : ℤ) × (first_online conns w ≡ some o)
    × (contains j conns ≡ true)
    × (find j w.players_map ≡ some o)
    × (is_online o ≡ true)

after_other :
    (conn : ℤ) (conns : List ℤ) (w : World)
    → is_online_conn (find conn w.players_map) ≡ false
    → OnlineIn conns w
    → OnlineIn (conn ∷ conns) w
unfolding first_online contains
after_other conn conns w h (o, j, f, c, g, i) =
    (o, j, ground (arith, h, f), ground (arith, c), g, i)

first_online_found : (conns : List ℤ) (w : World) → all_gone conns w ≡ false → OnlineIn conns w
unfolding first_online all_gone contains
first_online_found [] w h = absurd (ground (arith, h))
first_online_found (conn ∷ conns) w h = elim (Option-cases (find conn w.players_map)) [
  | inl e ↦
      after_other conn conns w (ground (arith, e)) (first_online_found conns w (ground (arith, e)))
  | inr (p, e) ↦ elim (Bool-cases (is_online p)) [
    | inl i ↦ (p, conn, ground (arith, e, i), ground (arith, ==ℤ_iff conn conn), e, i)
    | inr i ↦
        after_other conn conns w (ground (arith, e, i))
          (first_online_found conns w (ground (arith, e, i)))
  ]
]

-- When the owner is gone from a room in which somebody has a socket, the first one who has, whose
-- connection id is in the room, is the owner. When nobody has, the room has no owner, and a check
-- whether it is abandoned is posted. When another player is gone, nothing changes.
pub pass_on_owner_lem :
    (p : ServerPlayer) (r : Room) (w : World)
    → IsKeyed w
    → find r.id w.rooms ≡ some r
    → let v = pass_on_owner p r w in
      (is_abandoned r w ≡ false
        → p.conn_id ≡ r.owner_conn_id
        → (o : ServerPlayer) × (first_online r.players w ≡ some o)
          × (contains o.conn_id r.players ≡ true)
          × (find o.conn_id w.players_map ≡ some o)
          × (is_online o ≡ true)
          × (find r.id v.rooms ≡ some (record r { owner_conn_id = o.conn_id })))
      × (is_abandoned r w ≡ false → p.conn_id ≢ r.owner_conn_id → v ≡ w)
      × (is_abandoned r w ≡ true
          → (find r.id v.rooms ≡ some (record r { owner_conn_id = pos 0 }))
            × (v.log ≡ w.log ++ post_check_abandoned r.id no_human ∷ []))
unfolding pass_on_owner set_owner IsKeyed
pass_on_owner_lem p r w keyed here = (
  λ a e.
      let (o, j, f, c, g, i) = first_online_found r.players w a in
      let (k, n) = keyed j o g in
      (
        o,
        f,
        rw k c,
        rw k g,
        i,
        rw (a, f)
            (ground (
              arith,
              e,
              n i,
              ==ℤ_iff p.conn_id r.owner_conn_id,
              ==ℤ_iff r.id r.id,
              find-put r.id r.id (record r { owner_conn_id = o.conn_id }) w.rooms,
            )),
      ),
  λ a n. ground (arith, a, ==ℤ_iff p.conn_id r.owner_conn_id),
  λ a. (
    ground (
      arith,
      a,
      ==ℤ_iff r.id r.id,
      find-put r.id r.id (record r { owner_conn_id = pos 0 }) w.rooms,
    ),
    ground (arith, a),
  ),
)

pub pass_on_owner_kept :
    (p : ServerPlayer) (r : Room) (w : World)
    → let v = pass_on_owner p r w in
      (v.players_map ≡ w.players_map)
      × (v.online_players_map ≡ w.online_players_map)
      × (v.robots_map ≡ w.robots_map)
      × (v.lobby ≡ w.lobby)
unfolding pass_on_owner set_owner
pass_on_owner_kept p r w = elim (Option-cases (first_online r.players w)) [
  | inl e ↦ rw e (ground arith, ground arith, ground arith, ground arith)
  | inr (o, e) ↦ rw e (ground arith, ground arith, ground arith, ground arith)
]

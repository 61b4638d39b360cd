-- ===== src/Server/Game/Start.antt =====
-- What holds of a room and its players when a game starts.
use freekill_asio.Base.{
  ◌≡◌, refl, ℤ, Bool, true, false, not, ◌&&◌, List, [], ◌∷◌, ◌++◌, Option, none, some,
  if◌then◌else◌, ◌==ℤ◌, ==ℤ_iff, arith, Option-cases, inl, inr,
}
use freekill_asio.Base.Map.{find, put, contains, find-put}
use freekill_asio.Task.{increment}
use freekill_asio.Server.World.{
  World, ServerPlayer, Room, RoomThread, Event, push_newroom, is_full, is_started,
}
use freekill_asio.Server.Room.{set_ready}
use freekill_asio.Server.Game.{stand_up, reset_players, with_player, manually_start}

-- The objects stand under their connection ids.
abbrev pub StandsByConn : World → Type 0
StandsByConn w = (j : ℤ) (p : ServerPlayer) → find j w.players_map ≡ some p → p.conn_id ≡ j

abbrev pub is_reset : ServerPlayer → Bool
is_reset p = not p.ready && not p.died

abbrev is_reset_conn : Option ServerPlayer → Bool
is_reset_conn none = true
is_reset_conn (some p) = is_reset p

abbrev reset_of : ServerPlayer → ServerPlayer
reset_of p = record p { ready = false; died = false }

find-stand_up :
    (p : ServerPlayer) (w : World) (j : ℤ)
    → find j (stand_up p w).players_map
      ≡ (if p.conn_id ==ℤ j then some (reset_of p) else find j w.players_map)
unfolding stand_up set_ready
find-stand_up p w j = ground (
  arith,
  find-put j p.conn_id (reset_of p) (put p.conn_id (record p { ready = false }) w.players_map),
  find-put j p.conn_id (record p { ready = false }) w.players_map,
)

pub reset_found : Option ServerPlayer → Option ServerPlayer
reset_found none = none
reset_found (some p) = some (reset_of p)

find-with_player :
    (conn : ℤ) (w : World) (j : ℤ)
    → StandsByConn w
    → find j (with_player conn stand_up w).players_map
      ≡ (if conn ==ℤ j then reset_found (find j w.players_map) else find j w.players_map)
unfolding reset_found
find-with_player conn w j k = elim (Option-cases (find conn w.players_map)) [
  | inl e ↦ ground (arith, e, ==ℤ_iff conn j)
  | inr (p, e) ↦
      ground (arith, e, k conn p e, find-stand_up p w j, ==ℤ_iff conn j, ==ℤ_iff p.conn_id j)
]

StandsByConn-with_player :
    (conn : ℤ) (w : World) → StandsByConn w → StandsByConn (with_player conn stand_up w)
unfolding reset_found
StandsByConn-with_player conn w k j p h = elim (Option-cases (find j w.players_map)) [
  | inl e ↦ ground (arith, e, h, find-with_player conn w j k)
  | inr (q, e) ↦ ground (arith, e, h, k j q e, find-with_player conn w j k)
]

find-reset_players :
    (conns : List ℤ) (w : World) (j : ℤ)
    → StandsByConn w
    → find j (reset_players conns w).players_map
      ≡ (if contains j conns then reset_found (find j w.players_map) else find j w.players_map)
unfolding reset_players contains reset_found
find-reset_players [] w j k = refl
find-reset_players (conn ∷ conns) w j k =
    rw
      (find-reset_players conns (with_player conn stand_up w) j (StandsByConn-with_player conn w k))
      (rw (find-with_player conn w j k) (elim (Option-cases (find j w.players_map)) [
        | inl e ↦ ground (arith, e, ==ℤ_iff conn j)
        | inr (q, e) ↦ ground (arith, e, ==ℤ_iff conn j)
      ]))

StandsByConn-reset_players :
    (conns : List ℤ) (w : World) → StandsByConn w → StandsByConn (reset_players conns w)
unfolding reset_players
StandsByConn-reset_players [] w k = k
StandsByConn-reset_players (conn ∷ conns) w k =
    StandsByConn-reset_players conns (with_player conn stand_up w)
      (StandsByConn-with_player conn w k)

abbrev is_thread : Option RoomThread → Bool
is_thread none = false
is_thread (some t) = true

-- Whether a game can start: the room is full, no game is running, and its thread exists.
abbrev pub can_start : Room → World → Bool
can_start r w = is_full r && not (is_started r) && is_thread (find r.thread_id w.threads)

rooms-reset_players : (conns : List ℤ) (w : World) → (reset_players conns w).rooms ≡ w.rooms
unfolding reset_players stand_up set_ready
rooms-reset_players [] w = refl
rooms-reset_players (conn ∷ conns) w = elim (Option-cases (find conn w.players_map)) [
  | inl e ↦ rw (reset_players, e) (rooms-reset_players conns w)
  | inr (p, e) ↦ rw (reset_players, e) (rooms-reset_players conns (stand_up p w))
]

abbrev reset_twice : List ℤ → World → World
reset_twice conns w = reset_players conns (reset_players conns w)

players-reset_twice :
    (conns : List ℤ) (w : World) (j : ℤ)
    → StandsByConn w
    → find j (reset_twice conns w).players_map
      ≡ (if contains j conns then reset_found (find j w.players_map) else find j w.players_map)
unfolding reset_found
players-reset_twice conns w j k =
    rw (find-reset_players conns (reset_players conns w) j (StandsByConn-reset_players conns w k)) (
      rw (find-reset_players conns w j k) (elim (Option-cases (find j w.players_map)) [
        | inl e ↦ ground (arith, e)
        | inr (q, e) ↦ ground (arith, e)
      ]))

-- When a game can start, the room counts one game more, which its thread is told last; the players
-- of the room are neither ready nor dead, and otherwise as before, as is everybody else. When it
-- cannot, nothing happens.
pub manually_start_lem :
    (r : Room) (w : World)
    → StandsByConn w
    → let v = manually_start r w in
      (can_start r w ≡ false → v ≡ w)
      × (can_start r w ≡ true
          → (find r.id v.rooms
              ≡ some (record r {
                lua_ref_count = increment r.lua_ref_count;
                session_id = increment r.session_id;
              }))
            × ((j : ℤ)
                → find j v.players_map ≡ (
                    if contains j r.players
                    then reset_found (find j w.players_map)
                    else find j w.players_map))
            × (es : List Event) × (v.log ≡ es ++ push_newroom r.id ∷ []))
unfolding manually_start
manually_start_lem r w k = (
  λ h. elim (Option-cases (find r.thread_id w.threads)) [
    | inl e ↦ ground (arith, e, h)
    | inr (t, e) ↦ ground (arith, e, h)
  ],
  λ h. elim (Option-cases (find r.thread_id w.threads)) [
    | inl e ↦ absurd (ground (arith, e, h))
    | inr (t, e) ↦ (
      ground (
        arith,
        e,
        h,
        ==ℤ_iff r.id r.id,
        find-put r.id r.id
            (record r {
              lua_ref_count = increment r.lua_ref_count;
              session_id = increment r.session_id;
            })
            (reset_twice r.players w).rooms,
      ),
      λ j. ground (arith, e, h, players-reset_twice r.players w j k),
      (reset_twice r.players w).log,
      ground (arith, e, h),
    )
  ],
)

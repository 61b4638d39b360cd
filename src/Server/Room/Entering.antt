-- ===== src/Server/Room/Entering.antt =====
-- Who gets into a room, and who owns it then.
use text.Mathlib.TextEquality.{eq_iff}
use freekill_asio.Base.{
  ◌≤◌, ◌≡◌, ℤ, Bool, true, false, not, ◌&&◌, ◌||◌, [], ◌∷◌, ◌++◌, some, if◌then◌else◌, ◌==ℤ◌,
  ==ℤ_iff, length, length-append, arith,
}
use freekill_asio.Base.Map.{find, find-put}
use freekill_asio.Server.World.{
  do_notify, World, ServerPlayer, Room, set_player, set_room, tell, do_broadcast_notify, is_full,
  is_started, is_rejected,
}
use freekill_asio.Server.Room.{room_add_player, enter_room, show_game_data, set_owner, owner_with}

abbrev pub is_let_in : ServerPlayer → Room → Bool
is_let_in p r = not (is_rejected p r) && not (is_full r || is_started r)

abbrev pub room_with : ServerPlayer → Room → Room
room_with p r = record r { players = r.players ++ p.conn_id ∷ []; owner_conn_id = owner_with p r }

abbrev pub player_in : ServerPlayer → Room → ServerPlayer
player_in p r = record p { room_id = r.id; last_game_mode = r.game_mode }

rooms-enter_room :
    (p : ServerPlayer) (r : Room) (w : World)
    → find r.id w.rooms ≡ some r
    → find r.id (enter_room p r w).rooms ≡ some (record r { owner_conn_id = owner_with p r })
unfolding enter_room
rooms-enter_room p r w h =
    ground (
      arith,
      ==ℤ_iff r.id r.id,
      find-put r.id r.id (record r { owner_conn_id = p.conn_id }) w.rooms,
    )

players-enter_room :
    (p : ServerPlayer) (r : Room) (w : World) (j : ℤ)
    → find p.conn_id w.players_map ≡ some p
    → find j (enter_room p r w).players_map ≡ (
        if p.conn_id ==ℤ j
        then some (record p { last_game_mode = r.game_mode })
        else find j w.players_map)
unfolding enter_room
players-enter_room p r w j h = ground (
  arith,
  ==ℤ_iff p.conn_id j,
  eq_iff p.last_game_mode r.game_mode,
  find-put j p.conn_id (record p { last_game_mode = r.game_mode }) w.players_map,
)

let_in :
    (p : ServerPlayer) (r : Room) (w : World)
    → is_let_in p r ≡ true
    → let q : ServerPlayer = record p { room_id = r.id } in
      let s : Room = record r { players = r.players ++ p.conn_id ∷ [] } in
      (v : World) × (room_add_player p r w ≡ enter_room q s v)
      × (find r.id v.rooms ≡ some s)
      × (find p.conn_id v.players_map ≡ some q)
unfolding room_add_player
let_in p r w h =
    let q : ServerPlayer = record p { room_id = r.id } in
    let s : Room = record r { players = r.players ++ p.conn_id ∷ [] } in
    let u = tell (do_broadcast_notify r.players "AddPlayer" w) w in
    (
      set_player q (set_room s u),
      ground arith,
      ground (arith, ==ℤ_iff r.id r.id, find-put r.id r.id s w.rooms),
      ground (arith, ==ℤ_iff p.conn_id p.conn_id, find-put p.conn_id p.conn_id q w.players_map),
    )

refused :
    (p : ServerPlayer) (r : Room) (w : World)
    → is_let_in p r ≡ false
    → room_add_player p r w ≡ tell (do_notify p "ErrorMsg") w
unfolding room_add_player
refused p r w h = ground (arith, h)

-- A player who is let in stands at the end of the room's players, who are no more than the
-- capacity; the room is the player's, and has the owner that it had, or, if it had none and the
-- player is no robot, this player. One whose id is rejected, or who finds the room full or started,
-- is told so if online, and nothing else changes.
pub room_add_player_lem :
    (p : ServerPlayer) (r : Room) (w : World)
    → let v = room_add_player p r w in
      (is_let_in p r ≡ true
        → (find r.id v.rooms ≡ some (room_with p r))
          × (length (room_with p r).players ≤ r.capacity)
          × (find p.conn_id v.players_map ≡ some (player_in p r)))
      × (is_let_in p r ≡ false → v ≡ tell (do_notify p "ErrorMsg") w)
room_add_player_lem p r w = (
  λ h.
      let q : ServerPlayer = record p { room_id = r.id } in
      let s : Room = record r { players = r.players ++ p.conn_id ∷ [] } in
      let (v, e, f, g) = let_in p r w h in
      (
        rw e (rooms-enter_room q s v f),
        ground (arith, length-append r.players (p.conn_id ∷ [])),
        rw e (ground (arith, players-enter_room q s v p.conn_id g, ==ℤ_iff p.conn_id p.conn_id)),
      ),
  refused p r w,
)

pub tasks-room_add_player :
    (p : ServerPlayer) (r : Room) (w : World) → (room_add_player p r w).tasks ≡ w.tasks
unfolding room_add_player enter_room show_game_data set_owner
tasks-room_add_player p r w = ground arith

-- ===== src/Server/Lobby/Joining.antt =====
-- From the lobby into a room.
use Prim.Native.String.{String}
use freekill_asio.Base.{
  ◌≡◌, ◌≢◌, refl, ℤ, pos, true, false, not, ◌&&◌, none, some, ==ℤ_iff, ◌∙◌, ap, subst, arith,
}
use freekill_asio.Base.Map.{find, contains, contains-remove_all}
use freekill_asio.Task.Manager.{remove_all_tasks_by_user}
use freekill_asio.Server.World.{World, ServerPlayer, Room, tell, do_notify}
use freekill_asio.Server.Room.{room_add_player}
use freekill_asio.Server.Leave.{is_outdated}
use freekill_asio.Server.Room.Entering.{
  is_let_in, room_with, player_in, room_add_player_lem, tasks-room_add_player,
}
use freekill_asio.Server.Game.{with_player}
use freekill_asio.Server.Leave.{lobby_remove_player}
use freekill_asio.Server.Lobby.{join_room, join_found, leave_if_in, admitted}

lobby_remove_player_lem :
    (p : ServerPlayer) (w : World)
    → let v = lobby_remove_player p w in
      (v.rooms ≡ w.rooms)
      × (v.players_map ≡ w.players_map)
      × (contains p.conn_id v.lobby ≡ false)
      × (v.tasks ≡ remove_all_tasks_by_user p.conn_id w.tasks)
unfolding lobby_remove_player
lobby_remove_player_lem p w = (
  refl,
  refl,
  ground (arith, contains-remove_all p.conn_id p.conn_id w.lobby, ==ℤ_iff p.conn_id p.conn_id),
  refl,
)

left :
    (p : ServerPlayer) (r : Room) (w v : World)
    → find p.conn_id v.players_map ≡ some (player_in p r)
    → find r.id v.rooms ≡ some (room_with p r)
    → with_player p.conn_id (leave_if_in r.id) v ≡ lobby_remove_player (player_in p r) v
unfolding leave_if_in
left p r w v f e = ground (arith, f, e, ==ℤ_iff r.id r.id)

let_in-lobby :
    (pw : String) (p : ServerPlayer) (r : Room) (w : World)
    → admitted r pw ≡ true
    → is_outdated r w ≡ false
    → is_let_in p r ≡ true
    → join_found false pw p (some r) w ≡ lobby_remove_player (player_in p r) (room_add_player p r w)
unfolding join_found
let_in-lobby pw p r w a o l =
    let (e, f, g) = (room_add_player_lem p r w).0 l in
    rw (a, o) (left p r w (room_add_player p r w) g e)

joined :
    (pw : String) (id : ℤ) (p : ServerPlayer) (r : Room) (w : World)
    → id ≢ pos 0
    → find id w.rooms ≡ some r
    → r.id ≡ id
    → admitted r pw ≡ true
    → is_outdated r w ≡ false
    → is_let_in p r ≡ true
    → join_room false 2 (some id) (some pw) p w
      ≡ lobby_remove_player (player_in p r) (room_add_player p r w)
unfolding join_room
joined pw id p r w nz here same a o l =
    ground (arith, nz, here, let_in-lobby pw p r w a o l, ==ℤ_iff id (pos 0))

moves_in :
    (pw : String) (id : ℤ) (p : ServerPlayer) (r : Room) (w : World)
    → id ≢ pos 0
    → find id w.rooms ≡ some r
    → r.id ≡ id
    → admitted r pw ≡ true
    → is_outdated r w ≡ false
    → is_let_in p r ≡ true
    → let v = join_room false 2 (some id) (some pw) p w in
      (find id v.rooms ≡ some (room_with p r))
      × (find p.conn_id v.players_map ≡ some (player_in p r))
      × (contains p.conn_id v.lobby ≡ false)
      × (v.tasks ≡ remove_all_tasks_by_user p.conn_id w.tasks)
moves_in pw id p r w nz here same a o l =
    let (e, f, g) = (room_add_player_lem p r w).0 l in
    let (rooms, players, lobby, tasks) =
      lobby_remove_player_lem (player_in p r) (room_add_player p r w) in
    rw (joined pw id p r w nz here same a o l) (
      subst
          (λ i.
            find i (lobby_remove_player (player_in p r) (room_add_player p r w)).rooms
            ≡ some (room_with p r))
          same (rw rooms e),
      rw players g,
      lobby,
      tasks ∙ ap (remove_all_tasks_by_user p.conn_id) (tasks-room_add_player p r w),
    )

-- One who joins a room by its id, with the password or where there is none, and who is let in, is in
-- the room afterwards, is not in the lobby, and has no tasks of the lobby. With a wrong password, for
-- an outdated room and for one that does not exist, nobody moves: players, lobby and tasks stay.
pub join_room_lem :
    (pw : String) (id : ℤ) (p : ServerPlayer) (w : World)
    → id ≢ pos 0
    → let v = join_room false 2 (some id) (some pw) p w in
      ((r : Room)
        → find id w.rooms ≡ some r
        → r.id ≡ id
        → admitted r pw ≡ true
        → is_outdated r w ≡ false
        → is_let_in p r ≡ true
        → (find id v.rooms ≡ some (room_with p r))
          × (find p.conn_id v.players_map ≡ some (player_in p r))
          × (contains p.conn_id v.lobby ≡ false)
          × (v.tasks ≡ remove_all_tasks_by_user p.conn_id w.tasks))
      × ((r : Room)
          → find id w.rooms ≡ some r
          → admitted r pw && not (is_outdated r w) ≡ false
          → (v.players_map ≡ w.players_map) × (v.lobby ≡ w.lobby) × (v.tasks ≡ w.tasks))
      × (find id w.rooms ≡ none → v ≡ tell (do_notify p "ErrorMsg") w)
unfolding join_room
join_room_lem pw id p w nz = (
  λ r here same a o l. moves_in pw id p r w nz here same a o l,
  λ r here h. ground (arith, here, ==ℤ_iff id (pos 0)),
  λ h. ground (arith, h, ==ℤ_iff id (pos 0)),
)

-- ===== src/Server/Game.antt =====
-- The rest of `Room` of src/server/room/room.cpp: the packets that a room handles, the start of a
-- game, observers, and how a room that nobody needs goes away.
pub mod Start
pub mod Over
use Prim.Native.String.{String}
use text.Mathlib.Text.{◌==◌ as str_eq}
use freekill_asio.Base.{
  ℕ, suc, ◌^◌, ◌-◌, ℤ, pos, negsuc, Bool, true, false, not, ◌&&◌, ◌||◌, List, [], ◌∷◌, ◌++◌, Option,
  none, some, if◌then◌else◌, is_positive, is_negative, ◌==ℤ◌, ltb, length,
}
use freekill_asio.Base.Map.{find, put, erase, contains, remove_first}
use freekill_asio.Task.{increment, decrement}
use freekill_asio.Server.World.{
  World, ServerPlayer, PlayerState, online, trust, Room, RoomThread, Event, push_request,
  push_newroom, wake_up, thread_add_observer, post_check_abandoned, reject_timer, kicked,
  room_removed, CheckAbandonReason, no_ref_count, no_human, set_player, set_room, tell,
  is_online_conn, do_notify, do_broadcast_notify, is_full, is_started, is_rejected, is_abandoned,
  on_thread,
}
use freekill_asio.Server.Users.{find_player, delete_player, create_robot}
use freekill_asio.Server.Room.{same_state, set_ready, set_state, lobby_add_player, add_robot}
use freekill_asio.Server.Leave.{is_outdated, forget_md5, room_remove_player}

-- An object, or a room, as it stands in the world, if it is there.
abbrev pub with_found : {A : Type 0} → Option A → (A → World → World) → World → World
with_found none f w = w
with_found (some x) f w = f x w

abbrev pub with_player : ℤ → (ServerPlayer → World → World) → World → World
with_player conn f w = with_found (find conn w.players_map) f w

abbrev pub with_room : ℤ → (Room → World → World) → World → World
with_room id f w = with_found (find id w.rooms) f w

abbrev pub with_user : ℤ → (ServerPlayer → World → World) → World → World
with_user id f w = with_found (find_player id w) (λ conn v. with_player conn f v) w

-- The observer's thread is taken for granted by the code; the model skips the call without one.
unfoldable pub add_observer : ServerPlayer → Room → World → World
add_observer p r w =
    if not (is_started r)
    then tell (do_notify p "ErrorMsg") w
    else if is_rejected p r
    then tell (do_notify p "ErrorMsg") w
    else tell
        (on_thread r (thread_add_observer p.conn_id r.id) w
          ++ on_thread r (push_request r.id p.id "observe") w)
        (set_player (record p { room_id = r.id })
          (set_room (record r { observers = r.observers ++ p.conn_id ∷ [] }) w))

-- `setReady(false)` and `setDied(false)` for every player of a room; the game timer is left out.
unfoldable pub stand_up : ServerPlayer → World → World
unfolding set_ready
stand_up p w = set_player (record p { ready = false; died = false }) (set_ready false p w)

unfoldable pub reset_players : List ℤ → World → World
reset_players [] w = w
reset_players (conn ∷ conns) w = reset_players conns (with_player conn stand_up w)

-- `Room::manuallyStart`. `detectSameIpAndDevice` resets the players again; its warnings are left
-- out.
unfoldable pub manually_start : Room → World → World
unfolding reset_players
manually_start r w =
    if not (is_full r) || is_started r
    then w
    else with_found (find r.thread_id w.threads)
        (λ _ v.
          set_room
            (record r {
              lua_ref_count = increment r.lua_ref_count;
              session_id = increment r.session_id;
            })
            (tell (push_newroom r.id ∷ []) (reset_players r.players (reset_players r.players v))))
        w

unfoldable pub dismiss : List ℤ → World → World
dismiss [] w = w
dismiss (conn ∷ conns) w =
    dismiss conns
      (with_player conn (λ p v. tell (do_notify p "ErrorMsg" ++ kicked p.conn_id ∷ []) v) w)

-- `Room::startGame`
unfoldable pub start_game : Room → World → World
unfolding manually_start dismiss
start_game r w =
    if is_outdated r w then dismiss r.players (set_room (forget_md5 r w) w) else manually_start r w

-- `Room::ready`, with `setPlayerReady`
unfoldable pub ready : ServerPlayer → Room → World → World
unfolding set_ready
ready p r w =
    let v = set_ready (not p.ready) p w in tell (do_broadcast_notify r.players "ReadyChanged" v) v

-- `Room::trust`
unfoldable pub toggle_trust : ServerPlayer → Room → World → World
unfolding set_state
toggle_trust p r w =
    if not (is_started r)
    then w
    else if same_state p.state trust
    then set_state online p w
    else let v = set_state trust p w in
      if p.thinking then tell (on_thread r (wake_up r.id "player_trust") v) v else v

unfoldable pub add_reject_id : ℤ → Room → World → World
add_reject_id id r w = set_room (record r { rejected_players = r.rejected_players ++ id ∷ [] }) w

unfoldable pub remove_reject_id : ℤ → Room → World → World
remove_reject_id id r w =
    set_room (record r { rejected_players = remove_first id r.rejected_players }) w

-- The end of `Room::kickPlayer`, for the object that the user id leads to.
unfoldable pub kick_found : ℤ → Room → ServerPlayer → World → World
unfolding room_remove_player lobby_add_player add_reject_id
kick_found id r p w =
    if is_started r || not (p.room_id ==ℤ r.id)
    then w
    else let v = with_player p.conn_id lobby_add_player (room_remove_player p r w) in
      tell (reject_timer r.id id ∷ []) (with_room r.id (add_reject_id id) v)

-- `Room::kickPlayer`; the id is what libcbor reads, 0 for nothing. Who sends it does not matter.
unfoldable pub kick_player : ℤ → Room → World → World
unfolding kick_found
kick_player id r w = if id ==ℤ pos 0 then w else with_user id (kick_found id r) w

unfoldable pub back_to_lobby : ServerPlayer → World → World
unfolding lobby_add_player
back_to_lobby p w = if same_state p.state online then lobby_add_player p w else w

-- `Room::quitRoom`
unfoldable pub quit_room : ServerPlayer → Room → World → World
unfolding room_remove_player back_to_lobby
quit_room p r w =
    let v = with_player p.conn_id back_to_lobby (room_remove_player p r w) in
    with_room r.id
      (λ s u.
        if is_outdated s u
        then with_user p.id (λ q t. tell (kicked q.conn_id ∷ []) t) (set_room (forget_md5 s u) u)
        else u)
      v

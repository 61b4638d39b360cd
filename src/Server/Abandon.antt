-- ===== src/Server/Abandon.antt =====
-- How a room of src/server/room/room.cpp goes away when no game and no human keeps it, and the
-- robots that the Lua side adds.
pub mod Kept
use freekill_asio.Base.{
  ℤ, pos, Bool, true, false, not, List, [], ◌∷◌, ◌++◌, Option, none, some, if◌then◌else◌,
  is_positive, ◌==ℤ◌,
}
use freekill_asio.Base.Map.{find, erase, contains, remove_first}
use freekill_asio.Task.{increment, decrement}
use freekill_asio.Server.World.{
  World, ServerPlayer, Room, wake_up, post_check_abandoned, room_removed, CheckAbandonReason,
  no_ref_count, no_human, set_player, set_room, tell, is_online_conn, is_started, is_abandoned,
  on_thread,
}
use freekill_asio.Server.Users.{delete_player, remove_player_by_conn_id, create_robot}
use freekill_asio.Server.Leave.{room_remove_player, lobby_remove_player}
use freekill_asio.Server.Game.{with_player, with_room}

-- The players of a list who have no socket.
unfoldable pub offline_ones : List ℤ → World → List ℤ
offline_ones [] w = []
offline_ones (conn ∷ conns) w =
    (if is_online_conn (find conn w.players_map) then [] else conn ∷ []) ++ offline_ones conns w

-- `ServerPlayer::~ServerPlayer` of an object without a socket that the maps no longer hold; room
-- id 0 is the lobby. The code of a room cannot find the object again: what it writes back is erased.
unfoldable pub destroy_player : ServerPlayer → World → World
unfolding room_remove_player lobby_remove_player remove_player_by_conn_id
destroy_player p w = remove_player_by_conn_id p.conn_id (
    if p.room_id ==ℤ pos 0
    then lobby_remove_player p w
    else with_room p.room_id (room_remove_player p) w)

abbrev pub delete_and_destroy : ServerPlayer → World → World
delete_and_destroy p w = destroy_player p (delete_player p w)

unfoldable pub delete_players : List ℤ → World → World
delete_players [] w = w
delete_players (conn ∷ conns) w = delete_players conns (with_player conn delete_and_destroy w)

unfoldable pub without : List ℤ → List ℤ → List ℤ
without gone [] = []
without gone (conn ∷ conns) = (if contains conn gone then [] else conn ∷ []) ++ without gone conns

-- The first part of `_checkAbandoned(NoRefCount)`.
unfoldable pub drop_offline : Room → World → World
unfolding offline_ones delete_players without
drop_offline r w =
    let gone = offline_ones r.players w in
    with_room r.id (λ s v. set_room (record s { players = without gone s.players }) v)
      (delete_players gone w)

-- `RoomManager::removeRoom`; the destructor of the room is left to the event.
unfoldable pub remove_room : ℤ → World → World
remove_room id w =
    with_room id (λ _ v. tell (room_removed id ∷ []) (record v { rooms = erase id v.rooms })) w

-- The second part: a room in which somebody has a socket stays, one with a game is woken up.
unfoldable pub abandon : Room → World → World
unfolding remove_room
abandon r w =
    if not (is_abandoned r w)
    then w
    else if is_started r
    then tell (on_thread r (wake_up r.id "abandon") w) w
    else remove_room r.id w

-- `Room::_checkAbandoned`
unfoldable pub check_abandoned : CheckAbandonReason → Room → World → World
unfolding drop_offline abandon
check_abandoned no_ref_count r w = with_room r.id abandon (drop_offline r w)
check_abandoned no_human r w = abandon r w

-- `Room::increaseRefCount` and `Room::decreaseRefCount`
unfoldable pub increase_ref_count : Room → World → World
increase_ref_count r w = set_room (record r { lua_ref_count = increment r.lua_ref_count }) w

unfoldable pub decrease_ref_count : Room → World → World
decrease_ref_count r w =
    let s : Room = record r { lua_ref_count = decrement r.lua_ref_count } in
    let v = set_room s w in
    if is_positive s.lua_ref_count then v else tell (post_check_abandoned r.id no_ref_count ∷ []) v

-- `Room::addNpc`, with the robot that it returns
unfoldable pub add_npc : Room → World → World × ServerPlayer
unfolding create_robot
add_npc r w =
    let (v, bot) = create_robot w in
    let q : ServerPlayer = record bot { room_id = r.id } in
    (set_player q (set_room (record r { players = r.players ++ bot.conn_id ∷ [] }) v), q)

-- `Room::removeNpc`
unfoldable pub remove_npc : ServerPlayer → Room → World → World
remove_npc p r w =
    if contains p.conn_id r.players
    then delete_player p (set_room (record r { players = remove_first p.conn_id r.players }) w)
    else w

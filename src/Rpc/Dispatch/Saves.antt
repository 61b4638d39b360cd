-- ===== src/Rpc/Dispatch/Saves.antt =====
-- The save states, which are read and written through the thread of the game data base:
-- `saveState`, `getSaveState`, `saveGlobalState` and `getGlobalSaveState` of `ServerPlayer`
-- (src/server/user/serverplayer.cpp) and `RoomBase` (src/server/room/roombase.cpp). The data itself
-- is left out.
use Prim.Native.String.{String}
use freekill_asio.Base.{
  pos, Bool, true, false, Option, none, some, if◌then◌else◌, is_negative, ◌==ℤ◌, [], ◌∷◌,
}
use freekill_asio.Base.Map.{find}
use freekill_asio.Util.SqlText.{check_string}
use freekill_asio.Server.World.{
  World, ServerPlayer, Room, Event, Wake, nobody, room_of, game_saves, global_saves, save, load,
  posted, tell,
}

-- A query if the key may stand in a statement; otherwise the callback is posted.
abbrev pub query_if : Bool → Event → Wake → World → World
query_if true e wake w = tell (e ∷ []) w
query_if false e wake w = tell (posted wake ∷ []) w

-- The room of a player; room id 0 is the lobby, which is none.
abbrev pub room_of_player : ServerPlayer → World → Option Room
room_of_player p w = if p.room_id ==ℤ pos 0 then none else find p.room_id w.rooms

abbrev wake_of : Option Room → Wake
wake_of none = nobody
wake_of (some r) = room_of r.id

abbrev pub wake_of_player : ServerPlayer → World → Wake
wake_of_player p w = wake_of (room_of_player p w)

unfoldable pub save_in : ServerPlayer → Wake → Option Room → World → World
unfolding check_string
save_in p wake none w = tell (posted wake ∷ []) w
save_in p wake (some r) w =
    query_if (check_string r.game_mode) (save game_saves p.id r.game_mode wake) wake w

-- `ServerPlayer::saveState`: under the game mode of the room
unfoldable pub save_state : ServerPlayer → Wake → World → World
unfolding save_in
save_state p wake w =
    if is_negative p.id then tell (posted wake ∷ []) w else save_in p wake (room_of_player p w) w

unfoldable pub load_in : ServerPlayer → Wake → Option Room → World → World
unfolding check_string
load_in p wake none w = tell (posted wake ∷ []) w
load_in p wake (some r) w =
    query_if (check_string r.game_mode) (load game_saves p.id r.game_mode wake) wake w

-- `ServerPlayer::getSaveState`
unfoldable pub get_save_state : ServerPlayer → Wake → World → World
unfolding load_in
get_save_state p wake w = load_in p wake (room_of_player p w) w

-- `ServerPlayer::saveGlobalState`
unfoldable pub save_global_state : ServerPlayer → String → Wake → World → World
unfolding check_string
save_global_state p key wake w =
    if is_negative p.id
    then tell (posted wake ∷ []) w
    else query_if (check_string key) (save global_saves p.id key wake) wake w

-- `ServerPlayer::getGlobalSaveState`
unfoldable pub get_global_save_state : ServerPlayer → String → Wake → World → World
unfolding check_string
get_global_save_state p key wake w =
    query_if (check_string key) (load global_saves p.id key wake) wake w

-- `RoomBase::saveGlobalState` and `RoomBase::getGlobalSaveState`: user id 0 is that of the server
unfoldable pub base_save_global_state : String → Wake → World → World
unfolding check_string
base_save_global_state key wake w =
    query_if (check_string key) (save global_saves (pos 0) key wake) wake w

unfoldable pub base_get_global_save_state : String → Wake → World → World
unfolding check_string
base_get_global_save_state key wake w =
    query_if (check_string key) (load global_saves (pos 0) key wake) wake w

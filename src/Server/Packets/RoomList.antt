-- ===== src/Server/Packets/RoomList.antt =====
-- `Lobby::refreshRoomList` of src/server/room/lobby.cpp.
pub mod Whole
use Prim.Native.String.{String}
use text.Mathlib.Text.{◌==◌ as str_eq}
use freekill_asio.Base.{ℕ, ℤ, Bool, true, false, not, List, [], ◌∷◌, ◌++◌, if◌then◌else◌, length}
use freekill_asio.Server.World.{World, ServerPlayer, Room, is_full, tell, do_notify}
use freekill_asio.Server.Leave.{is_outdated, forget_md5}

-- What the list shows of a room.
pub record RoomRow : Type 0 where
  pub id : ℤ
  pub name : String
  pub game_mode : String
  pub player_count : ℕ
  pub capacity : ℕ
  pub has_password : Bool
  pub outdated : Bool

abbrev pub row_of : World → Room → RoomRow
row_of w r = record {
  id = r.id;
  name = r.name;
  game_mode = r.game_mode;
  player_count = length r.players;
  capacity = r.capacity;
  has_password = not (str_eq r.password "");
  outdated = is_outdated r w;
}

-- One of the two loops: the rooms that are full, or those that are not.
unfoldable pub rows_if : Bool → World → List (ℤ × Room) → List RoomRow
rows_if full w [] = []
rows_if true w ((id, r) ∷ rs) =
    let rest = rows_if true w rs in if is_full r then row_of w r ∷ rest else rest
rows_if false w ((id, r) ∷ rs) =
    let rest = rows_if false w rs in if is_full r then rest else row_of w r ∷ rest

-- The list as it is sent: its length in the header is that of the map.
unfoldable pub room_list : World → List RoomRow
unfolding rows_if
room_list w = rows_if false w w.rooms ++ rows_if true w w.rooms

-- Every room was asked whether it is outdated.
unfoldable pub forget_all : World → List (ℤ × Room) → List (ℤ × Room)
forget_all w [] = []
forget_all w ((id, r) ∷ rs) = (id, forget_md5 r w) ∷ forget_all w rs

unfoldable pub refresh_room_list : ServerPlayer → World → World
unfolding forget_all
refresh_room_list p w =
    tell (do_notify p "UpdateRoomList") (record w { rooms = forget_all w w.rooms })

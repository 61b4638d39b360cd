-- ===== src/Server/Refresh.antt =====
-- `Server::_refreshMd5` of src/server/server.cpp: the hash of the server's files has changed.
pub mod Kept
pub mod Quiet
use Prim.Native.String.{String}
use freekill_asio.Base.{
  ℤ, pos, ◌≡◌, refl, ap, ◌∙◌, Bool, true, false, not, ◌&&◌, List, [], ◌∷◌, ◌++◌, Option, none, some,
  if◌then◌else◌, ◌==ℤ◌, ==ℤ_iff, Bool-cases, Option-cases, inl, inr, arith,
}
use freekill_asio.Base.Map.{find, erase, find-erase, contains}
use freekill_asio.Server.World.{
  World, ServerPlayer, Room, RoomThread, is_started, set_room, tell, do_broadcast_notify,
}
use freekill_asio.Server.Leave.{is_outdated, forget_md5}
use freekill_asio.Server.Connection.{kick_all}
use freekill_asio.Server.Threads.{thread_is_outdated, thread_forget_md5}

-- The players of an outdated room are kicked, or told if a game goes on. The source walks the vector
-- of the room's players while the destructors of those it kicks erase from it; here the players are
-- those who stood in it before.
unfoldable pub refresh_room : (ServerPlayer → Bool) → Room → World → World
unfolding kick_all do_broadcast_notify
refresh_room drained r w =
    if not (is_outdated r w)
    then w
    else let v = set_room (forget_md5 r w) w in
      if is_started r
      then tell (do_broadcast_notify r.players "GameLog" v) v
      else kick_all drained r.players v

abbrev pub refresh_found : (ServerPlayer → Bool) → Option Room → World → World
refresh_found drained none w = w
refresh_found drained (some r) w = refresh_room drained r w

unfoldable pub refresh_rooms : (ServerPlayer → Bool) → List ℤ → World → World
unfolding refresh_room
refresh_rooms drained [] w = w
refresh_rooms drained (id ∷ ids) w =
    refresh_rooms drained ids (refresh_found drained (find id w.rooms) w)

-- The keys of the map of rooms
abbrev pub room_ids : List (ℤ × Room) → List ℤ
room_ids [] = []
room_ids ((id, r) ∷ rs) = id ∷ room_ids rs

abbrev pub is_unused : String → RoomThread → Bool
is_unused md5 t = thread_is_outdated md5 t && t.ref_count ==ℤ pos 0

-- The threads once each was asked whether it is outdated, and the ids of those to remove.
unfoldable pub asked : String → List (ℤ × RoomThread) → List (ℤ × RoomThread)
asked md5 [] = []
asked md5 ((id, t) ∷ ts) = (id, thread_forget_md5 md5 t) ∷ asked md5 ts

unfoldable pub to_remove : String → List (ℤ × RoomThread) → List ℤ
to_remove md5 [] = []
to_remove md5 ((id, t) ∷ ts) =
    let rest = to_remove md5 ts in if is_unused md5 t then id ∷ rest else rest

unfoldable pub erase_all : List ℤ → List (ℤ × RoomThread) → List (ℤ × RoomThread)
erase_all [] ts = ts
erase_all (id ∷ ids) ts = erase_all ids (erase id ts)

unfoldable pub refresh_threads : World → World
unfolding asked to_remove erase_all
refresh_threads w = record w {
  threads = erase_all (to_remove w.md5 w.threads) (asked w.md5 w.threads);
}

unfoldable pub refresh_md5 : (ServerPlayer → Bool) → String → World → World
unfolding refresh_rooms refresh_threads kick_all
refresh_md5 drained md5 w =
    let v = refresh_threads (refresh_rooms drained (room_ids w.rooms) (record w { md5 = md5 })) in
    kick_all drained v.lobby v

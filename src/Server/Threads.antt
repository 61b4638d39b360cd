-- ===== src/Server/Threads.antt =====
-- The Lua threads: `Server` of src/server/server.cpp, and the bookkeeping of `RoomThread` in
-- src/server/gamelogic/roomthread.cpp.
pub mod Available
use Prim.Native.String.{String}
use text.Mathlib.Text.{◌==◌ as str_eq}
use freekill_asio.Base.{
  ℕ, zero, suc, ℤ, pos, negsuc, Bool, true, false, not, ◌&&◌, ◌||◌, List, [], ◌∷◌, ◌++◌, Option,
  none, some, if◌then◌else◌, is_positive, ltb, leb, leb_ℤ,
}
use freekill_asio.Base.Map.{find, put, erase, contains, remove_first}
use freekill_asio.Task.{increment, decrement}
use freekill_asio.Server.World.{World, Room, RoomThread, set_room}
use freekill_asio.Server.Game.{with_found}

-- `RoomThread::isFull`
abbrev pub thread_is_full : RoomThread → Bool
thread_is_full t = leb_ℤ t.capacity t.ref_count

-- `RoomThread::isOutdated`: as a room, an outdated thread forgets its hash.
abbrev pub thread_is_outdated : String → RoomThread → Bool
thread_is_outdated md5 t = not (str_eq t.md5 md5)

abbrev pub thread_forget_md5 : String → RoomThread → RoomThread
thread_forget_md5 md5 t = if thread_is_outdated md5 t then record t { md5 = "" } else t

-- The loop of `Server::getAvailableThread`: the threads as it leaves them, and the one it finds.
unfoldable pub find_available :
    String → List (ℤ × RoomThread) → List (ℤ × RoomThread) × Option RoomThread
find_available md5 [] = ([], none)
find_available md5 ((id, t) ∷ ts) =
    let rest = find_available md5 ts in
    if thread_is_outdated md5 t
    then ((id, record t { md5 = "" }) ∷ rest.0, rest.1)
    else if thread_is_full t
    then ((id, t) ∷ rest.0, rest.1)
    else ((id, t) ∷ ts, some t)

-- `Server::createThread`; the capacity is `roomCountPerThread` of the configuration.
unfoldable pub create_thread : ℤ → World → World × RoomThread
create_thread capacity w =
    let t : RoomThread = record {
      id = w.next_thread_id;
      rooms = [];
      capacity = capacity;
      ref_count = pos 0;
      md5 = w.md5;
    } in
    (record w { threads = put t.id t w.threads; next_thread_id = increment w.next_thread_id }, t)

unfoldable pub found_or_new : ℤ → World → Option RoomThread → World × RoomThread
unfolding create_thread
found_or_new capacity w (some t) = (w, t)
found_or_new capacity w none = create_thread capacity w

-- `Server::getAvailableThread`
unfoldable pub get_available_thread : ℤ → World → World × RoomThread
unfolding find_available found_or_new
get_available_thread capacity w =
    let found = find_available w.md5 w.threads in
    found_or_new capacity (record w { threads = found.0 }) found.1

-- `Server::removeThread`
unfoldable pub remove_thread : ℤ → World → World
remove_thread id w = record w { threads = erase id w.threads }

abbrev pub set_thread_entry : RoomThread → World → World
set_thread_entry t w = record w { threads = put t.id t w.threads }

-- `Room::setThread`, with `RoomThread::addRoom` and `increaseRefCount`
unfoldable pub set_thread : RoomThread → Room → World → World
set_thread t r w =
    set_thread_entry (record t { rooms = t.rooms ++ r.id ∷ []; ref_count = increment t.ref_count })
      (set_room (record r { thread_id = t.id; md5 = t.md5 }) w)

-- `RoomThread::decreaseRefCount`; the removal of the thread is posted, and the model runs it at
-- once.
unfoldable pub thread_decrease_ref_count : RoomThread → World → World
unfolding remove_thread
thread_decrease_ref_count t w =
    let u : RoomThread = record t { ref_count = decrement t.ref_count } in
    let v = set_thread_entry u w in
    if is_positive u.ref_count
    then v
    else if thread_is_outdated w.md5 u
    then remove_thread t.id v
    else v

-- What the destructor of a room does with its thread: `RoomThread::removeRoom`, then the count.
unfoldable pub release_room : Room → World → World
unfolding thread_decrease_ref_count
release_room r w =
    with_found (find r.thread_id w.threads)
      (λ t v. thread_decrease_ref_count (record t { rooms = remove_first r.id t.rooms }) v) w

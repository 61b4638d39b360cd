-- ===== src/Server/Refresh/Kept.antt =====
-- Which threads outlive a change of the hash.
use Prim.Native.String.{String}
use freekill_asio.Base.{ℤ, ◌≡◌, Bool, false, List, [], ◌∷◌, Option, none, some, if◌then◌else◌}
use freekill_asio.Base.Map.{find}
use freekill_asio.Server.World.{World, RoomThread}
use freekill_asio.Server.Threads.{thread_forget_md5}
use freekill_asio.Server.Refresh.{is_unused}

-- No id stands twice.
abbrev pub IsMap : List (ℤ × RoomThread) → Type 0
IsMap [] = Unit
IsMap ((id, t) ∷ ts) = (find id ts ≡ none) × IsMap ts

abbrev unused_found : String → Option RoomThread → Bool
unused_found md5 none = false
unused_found md5 (some t) = is_unused md5 t

-- What becomes of a thread: it goes if it is outdated and nothing refers to it, and forgets its hash
-- if it is outdated.
abbrev pub outlived : String → Option RoomThread → Option RoomThread
outlived md5 none = none
outlived md5 (some t) = if is_unused md5 t then none else some (thread_forget_md5 md5 t)

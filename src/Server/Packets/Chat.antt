-- ===== src/Server/Packets/Chat.antt =====
-- What users say: `RoomBase::chat` of src/server/room/roombase.cpp, with `Server::isMuted`.
pub mod Heard
use Prim.Native.String.{String}
use freekill_asio.Base.{
  ℕ, ℤ, pos, Bool, true, false, not, List, [], ◌∷◌, ◌++◌, Option, none, some, if◌then◌else◌, ◌==ℤ◌,
  leb_ℤ, take,
}
use freekill_asio.Base.Map.{find}
use freekill_asio.Server.World.{World, ServerPlayer, Room, chat_logged, tell, do_broadcast_notify}
use freekill_asio.Server.Auth.{Row, field, first, is_nil, Libraries, Config, joined}
use freekill_asio.Server.Auth.Password.{check_ban_word}
use freekill_asio.Server.Auth.Enter.{Login}

-- What `json::from_cbor` reads: nothing, a value that is no object, or the object's "type" (1 if it
-- has none) and "msg" (empty if it has none), if they are of the wanted kinds.
pub data Said : Type 0 where
  broken plain : Said
  object : Option ℤ → Option String → Said

module _ {Db : Type 0} (x : Libraries Db) (stoll : String → Option ℤ) where
  -- The mute that a row stands for: over if its time has passed; `none` where `std::stoll` throws.
  muted_by : ℤ → ServerPlayer → Option ℤ → Db → Option (Bool × Db)
  muted_by now p none db = none
  muted_by now p (some expire_at) db =
      if leb_ℤ now expire_at
      then some (true, db)
      else some
          (false, x.exec (joined ("DELETE FROM tempmute WHERE uid=" ∷ x.show p.id ∷ ";" ∷ [])) db)

  -- `Server::isMuted`
  unfoldable pub is_muted : ℤ → ServerPlayer → Db → Option (Bool × Db)
  unfolding muted_by
  is_muted now p db =
      let result =
        x.select
          (joined ("SELECT expireAt, type FROM tempmute WHERE uid=" ∷ x.show p.id ∷ ";" ∷ [])) db in
      if is_nil result
      then some (false, db)
      else muted_by now p (stoll (field (first result) "expireAt")) db

  -- At most 300 bytes.
  abbrev pub shortened : String → List ℕ
  shortened msg = take 300 (x.bytes_of msg)

  -- Whoever is in the lobby, or in the room, is told; what is meant for the other is dropped.
  unfoldable pub say : ℤ → String → Option Room → World → World
  unfolding do_broadcast_notify
  say kind msg none w =
      if kind ==ℤ pos 1
      then tell (do_broadcast_notify w.lobby "Chat" w ++ chat_logged (pos 0) (shortened msg) ∷ []) w
      else w
  say kind msg (some r) w =
      if kind ==ℤ pos 1
      then w
      else tell
          (do_broadcast_notify r.players "Chat" w
            ++ do_broadcast_notify r.observers "Chat" w
            ++ chat_logged r.id (shortened msg) ∷ [])
          w

  unfoldable pub say_unless :
      ℤ → String → Option Room → World → Option (Bool × Db) → Option (Login Db)
  unfolding say
  say_unless kind msg o w none = none
  say_unless kind msg o w (some (true, db)) = some (record { db = db; world = w })
  say_unless kind msg o w (some (false, db)) = some (record { db = db; world = say kind msg o w })

  -- `RoomBase::chat`, in a room or, without one, in the lobby. What is no number or no text throws.
  unfoldable pub chat :
      Config → ℤ → Said → ServerPlayer → Option Room → Login Db → Option (Login Db)
  unfolding say_unless is_muted
  chat c now broken p o l = some l
  chat c now plain p o l = some l
  chat c now (object none msg) p o l = none
  chat c now (object (some kind) none) p o l = none
  chat c now (object (some kind) (some msg)) p o l =
      if not (check_ban_word x c.ban_words msg)
      then some l
      else say_unless kind msg o l.world (is_muted now p l.db)

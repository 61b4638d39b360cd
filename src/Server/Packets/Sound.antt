-- ===== src/Server/Packets/Sound.antt =====
-- A packet keeps the maps in order, whatever it holds and whichever handler takes it.
use Prim.Native.String.{String}
use text.Mathlib.Text.{◌==◌ as str_eq}
use mathlib.Core.Option.{some-injective}
use freekill_asio.Base.{
  ℤ, ◌≡◌, subst, if_cases, Bool-cases, inl, inr, sym, ap, ◌∙◌, not, Bool, true, false, List, [],
  ◌∷◌, Option, none, some, ◌==ℤ◌, arith,
}
use freekill_asio.Base.Map.{find}
use freekill_asio.Rpc.Dispatch.Ordered.Saves.{get_global_save_state-IsSound}
use freekill_asio.Server.World.{World, ServerPlayer, Room, nobody}
use freekill_asio.Server.Leave.{forget_md5}
use freekill_asio.Server.Auth.{Libraries}
use freekill_asio.Server.Auth.Password.{check_ban_word}
use freekill_asio.Server.Auth.Enter.{Login}
use freekill_asio.Server.Packets.{
  Readers, Context, read_global_save_state, add_robot_request, push_text, handler_of,
}
use freekill_asio.Server.Packets.Chat.{Said, broken, plain, object, chat, say, is_muted, say_unless}
use freekill_asio.Server.Packets.RoomList.{forget_all, refresh_room_list}
use freekill_asio.Server.Sound.{IsSound, sound, tell-IsSound}
use freekill_asio.Server.Sound.Rooms.{add_robot-IsSound}

-- A handler that gives a world, if any, gives one whose maps are in order.
abbrev pub KeepsOrder : {Db : Type 0} → Option (Login Db) → Type 0
KeepsOrder {Db = Db} o = (m : Login Db) → o ≡ some m → IsSound m.world

pub kept : {Db : Type 0} (l : Login Db) → IsSound l.world → KeepsOrder (some l)
kept {Db = Db} l s m e = subst (λ (k : Login Db). IsSound k.world) (some-injective l m e) s

pub thrown : {Db : Type 0} → KeepsOrder {Db = Db} none
thrown m e = absurd (ground (arith, e))

-- All handlers of a table have a property.
unfoldable pub All : {A : Type 0} → (A → Type 0) → List (String × A) → Type 0
All {A = A} P hs = (command : String) (h : A) → handler_of hs command ≡ some h → P h

pub no-All : {A : Type 0} (P : A → Type 0) → All P []
unfolding All
no-All P command h e = absurd (ground (arith, e))

pub and-All :
    {A : Type 0} (P : A → Type 0) (c : String) (g : A) (hs : List (String × A))
    → P g
    → All P hs
    → All P ((c, g) ∷ hs)
unfolding All
and-All {A = A} P c g hs s t command h =
    if_cases (λ (o : Option A). o ≡ some h → P h) (str_eq c command)
      (λ _ e. subst P (some-injective g h e) s) (λ _. t command h)

forget_all_found :
    (w : World) (rs : List (ℤ × Room)) (j : ℤ) (r : Room)
    → find j (forget_all w rs) ≡ some r
    → (q : Room) × (find j rs ≡ some q) × (q.id ≡ r.id)
unfolding forget_all find
forget_all_found w [] j r h = absurd (ground (arith, h))
forget_all_found w ((id, q) ∷ rs) j r h = elim (Bool-cases (id ==ℤ j)) [
  | inl y ↦
      let e : forget_md5 q w ≡ r = some-injective _ _ (ground (arith, h, y)) in
      (q, ground (arith, y), ground arith ∙ ap (λ (x : Room). x.id) e)
  | inr y ↦
      let (u, f, g) = forget_all_found w rs j r (ground (arith, h, y)) in
      (u, ground (arith, y, f), g)
]

pub refresh_room_list-IsSound :
    (p : ServerPlayer) (w : World) → IsSound w → IsSound (refresh_room_list p w)
unfolding refresh_room_list
refresh_room_list-IsSound p w s =
    let t : IsSound (record w { rooms = forget_all w w.rooms }) = record {
      players_keyed = s.players_keyed;
      players_fine = s.players_fine;
      rooms_keyed =
          λ j r h. let (q, e, g) = forget_all_found w w.rooms j r h in sym g ∙ s.rooms_keyed j q e;
      threads_keyed = s.threads_keyed;
    } in
    tell-IsSound _ _ t

pub read_global_save_state-IsSound :
    (o : Option String) (p : ServerPlayer) (w : World)
    → IsSound w
    → IsSound (read_global_save_state o p w)
unfolding read_global_save_state
read_global_save_state-IsSound none p w s = s
read_global_save_state-IsSound (some key) p w s = get_global_save_state-IsSound p key nobody w s

pub add_robot_request-IsSound :
    (disabled : List String) (p : ServerPlayer) (r : Room) (w : World)
    → IsSound w
    → IsSound (add_robot_request disabled p r w)
unfolding add_robot_request
add_robot_request-IsSound disabled p r w s = search (sound, add_robot-IsSound) depth 12

pub push_text-IsSound :
    (o : Option String) (p : ServerPlayer) (r : Room) (w : World)
    → IsSound w
    → IsSound (push_text o p r w)
unfolding push_text
push_text-IsSound none p r w s = s
push_text-IsSound (some t) p r w s = tell-IsSound _ w s

say-IsSound :
    {Db : Type 0} (x : Libraries Db) (stoll : String → Option ℤ) (k : ℤ) (msg : String)
    (o : Option Room) (w : World)
    → IsSound w
    → IsSound (say x stoll k msg o w)
unfolding say
say-IsSound x stoll k msg none w s = search sound depth 12
say-IsSound x stoll k msg (some r) w s = search sound depth 12

module _ {Db J : Type 0} (x : Libraries Db) (d : Readers J) (c : Context) where
  pub chat-KeepsOrder :
      (a : Said) (p : ServerPlayer) (o : Option Room) (l : Login Db)
      → IsSound l.world
      → KeepsOrder (chat x c.stoll c.config c.now a p o l)
  unfolding chat
  chat-KeepsOrder broken p o l s = kept l s
  chat-KeepsOrder plain p o l s = kept l s
  chat-KeepsOrder (object none msg) p o l s = thrown
  chat-KeepsOrder (object (some k) none) p o l s = thrown
  chat-KeepsOrder (object (some k) (some msg)) p o l s =
      if_cases KeepsOrder (not (check_ban_word x c.config.ban_words msg)) (λ _. kept l s)
        (λ _. unless (is_muted x c.stoll c.now p l.db))
    where
      unless : (b : Option (Bool × Db)) → KeepsOrder (say_unless x c.stoll k msg o l.world b)
      unless none = thrown
      unless (some (true, db)) = kept (record { db = db; world = l.world }) s
      unless (some (false, db)) =
          kept (record { db = db; world = say x c.stoll k msg o l.world })
            (say-IsSound x c.stoll k msg o l.world s)

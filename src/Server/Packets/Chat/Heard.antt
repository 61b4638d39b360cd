-- ===== src/Server/Packets/Chat/Heard.antt =====
-- Who is told what a user says.
use Prim.Native.String.{String}
use text.Mathlib.Text.{◌==◌ as str_eq}
use mathlib.Core.List.{append-nil}
use freekill_asio.Base.{
  ℤ, pos, ◌≡◌, refl, ap, sym, ◌∙◌, Bool, true, false, not, ◌&&◌, ◌||◌, List, [], ◌∷◌, ◌++◌, Option,
  none, some, if◌then◌else◌, if_cases, ◌==ℤ◌, ==ℤ_iff, Bool-cases, Option-cases, inl, inr, arith,
}
use freekill_asio.Base.Map.{find, contains}
use freekill_asio.Server.World.{
  World, ServerPlayer, Room, Event, notify, chat_logged, do_notify, do_broadcast_notify,
  is_online_conn,
}
use freekill_asio.Server.Auth.{Libraries, Config}
use freekill_asio.Server.Auth.Password.{check_ban_word}
use freekill_asio.Server.Auth.Enter.{Login}
use freekill_asio.Server.Packets.Chat.{object, is_muted, say, say_unless, chat, shortened}
use freekill_asio.Server.Sound.{IsSound}

abbrev is_chat : ℤ → Event → Bool
is_chat j (notify conn command) = conn ==ℤ j && str_eq command "Chat"
is_chat j _ = false

-- Whether a connection is sent a "Chat" notification.
unfoldable pub told : ℤ → List Event → Bool
told j [] = false
told j (e ∷ es) = if is_chat j e then true else told j es

told-append : (j : ℤ) (xs ys : List Event) → told j (xs ++ ys) ≡ (told j xs || told j ys)
unfolding told
told-append j [] ys = refl
told-append j (e ∷ es) ys = ground (arith, told-append j es ys)

broadcast_told :
    (j : ℤ) (conns : List ℤ) (w : World)
    → IsSound w
    → told j (do_broadcast_notify conns "Chat" w)
      ≡ (contains j conns && is_online_conn (find j w.players_map))
unfolding told do_broadcast_notify contains
broadcast_told j [] w s = refl
broadcast_told j (conn ∷ conns) w s = elim (Option-cases (find conn w.players_map)) [
  | inl e ↦ rw e (ground (arith, e, broadcast_told j conns w s, ==ℤ_iff conn j))
  | inr (p, e) ↦ rw e (
      told-append j (do_notify p "Chat") (do_broadcast_notify conns "Chat" w)
      ∙ ground (arith, e, broadcast_told j conns w s, s.players_keyed conn p e, ==ℤ_iff conn j))
]

-- Who is in the lobby, or in a room as a player or an observer.
abbrev pub audience : Option Room → World → List ℤ
audience none w = w.lobby
audience (some r) w = r.players ++ r.observers

-- Kind 1 is meant for the lobby, the others for rooms.
abbrev pub fits : ℤ → Option Room → Bool
fits kind none = kind ==ℤ pos 1
fits kind (some r) = not (kind ==ℤ pos 1)

contains-append :
    (j : ℤ) (xs ys : List ℤ) → contains j (xs ++ ys) ≡ (contains j xs || contains j ys)
unfolding contains
contains-append j [] ys = refl
contains-append j (x ∷ xs) ys = ground (arith, contains-append j xs ys)

-- The events of `v` beyond those of `w`, and whom they tell.
abbrev pub TellsThose : World → World → (ℤ → Bool) → Type 0
TellsThose w v hears =
    (es : List Event) × (v ≡ record w { log = w.log ++ es })
    × ((j : ℤ) → told j es ≡ (hears j && is_online_conn (find j w.players_map)))

tells_nobody : (w : World) (hears : ℤ → Bool) → ((j : ℤ) → hears j ≡ false) → TellsThose w w hears
unfolding told
tells_nobody w hears f = (
  [],
  ap (λ (es : List Event). record w { log = es }) (sym (append-nil w.log)),
  λ j. ground (arith, f j),
)

module _ {Db : Type 0} (x : Libraries Db) (stoll : String → Option ℤ) where
  say_heard :
      (kind : ℤ) (msg : String) (o : Option Room) (w : World)
      → IsSound w
      → TellsThose w (say x stoll kind msg o w) (λ j. fits kind o && contains j (audience o w))
  unfolding say told
  say_heard kind msg none w s =
      if_cases (λ v. TellsThose w v (λ j. fits kind none && contains j w.lobby)) (kind ==ℤ pos 1)
        (λ e. (
          do_broadcast_notify w.lobby "Chat" w ++ chat_logged (pos 0) (shortened x stoll msg) ∷ [],
          refl,
          λ j.
              told-append j (do_broadcast_notify w.lobby "Chat" w) _
              ∙ ground (arith, e, broadcast_told j w.lobby w s),
        ))
        (λ e. tells_nobody w _ (λ j. ground (arith, e)))
  say_heard kind msg (some r) w s =
      if_cases
        (λ v. TellsThose w v (λ j. fits kind (some r) && contains j (r.players ++ r.observers)))
        (kind ==ℤ pos 1) (λ e. tells_nobody w _ (λ j. ground (arith, e)))
        (λ e. (
          do_broadcast_notify r.players "Chat" w
              ++ do_broadcast_notify r.observers "Chat" w
              ++ chat_logged r.id (shortened x stoll msg) ∷ [],
          refl,
          λ j.
              told-append j
                (do_broadcast_notify r.players "Chat" w ++ do_broadcast_notify r.observers "Chat" w)
                _
              ∙ ap (λ b. b || false)
                  (told-append j (do_broadcast_notify r.players "Chat" w)
                    (do_broadcast_notify r.observers "Chat" w))
              ∙ ground (
                arith,
                e,
                broadcast_told j r.players w s,
                broadcast_told j r.observers w s,
                contains-append j r.players r.observers,
              ),
        ))

  -- What a user says, if the text of the mute's end is a number: those who are told are exactly the
  -- connections with a socket in the lobby, or among the players and observers of the room, and only
  -- if the words are allowed, the user is not muted, and the kind fits the place. Nothing but the
  -- list of events changes in the world.
  pub chat_heard :
      (c : Config) (now kind : ℤ) (msg : String) (p : ServerPlayer) (o : Option Room) (l : Login Db)
      (muted : Bool) (db : Db)
      → IsSound l.world
      → is_muted x stoll now p l.db ≡ some (muted, db)
      → (m : Login Db) × (chat x stoll c now (object (some kind) (some msg)) p o l ≡ some m)
        × TellsThose l.world m.world (λ j.
          check_ban_word x c.ban_words msg
          && not muted
          && fits kind o
          && contains j (audience o l.world))
  unfolding chat say_unless
  chat_heard c now kind msg p o l true db s e =
      elim (Bool-cases (check_ban_word x c.ban_words msg)) [
        | inl a ↦ (
          record { db = db; world = l.world },
          rw (a, e) refl,
          tells_nobody l.world _ (λ j. ground arith),
        )
        | inr a ↦ (l, rw a refl, tells_nobody l.world _ (λ j. ground (arith, a)))
      ]
  chat_heard c now kind msg p o l false db s e =
      elim (Bool-cases (check_ban_word x c.ban_words msg)) [
        | inl a ↦
            let (es, f, g) = say_heard kind msg o l.world s in
            (
              record { db = db; world = say x stoll kind msg o l.world },
              rw (a, e) refl,
              (es, f, λ j. rw a (g j)),
            )
        | inr a ↦ (l, rw a refl, tells_nobody l.world _ (λ j. ground (arith, a)))
      ]

-- ===== src/Server/Sound.antt =====
-- When the maps of the server are in order, and what keeps them so.

pub mod Rooms
pub mod Games
pub mod Ends
pub mod Lobbies
use freekill_asio.Base.{
  ℤ, pos, ◌≡◌, refl, sym, ap, subst, ◌∙◌, ◌⊎◌, Bool, true, false, List, [], ◌∷◌, Option, none, some,
  if◌then◌else◌, is_negative, is_positive, ◌==ℤ◌, ==ℤ_iff, Option-cases, inl, inr, arith,
}
use freekill_asio.Base.Map.{find, put, erase, put_found, erase_found}
use freekill_asio.Server.World.{
  World, ServerPlayer, Room, RoomThread, Event, is_some_socket, set_player, set_room, tell,
}
use freekill_asio.Server.Users.{
  add_player, delete_player, remove_player, remove_player_by_conn_id, find_player,
}
use freekill_asio.Server.Threads.{set_thread_entry}
use freekill_asio.Server.Game.{with_found, with_player, with_room, with_user}

-- An object with a socket is no robot.
unfoldable pub IsFine : Option ℤ → ℤ → Type 0
IsFine socket id = is_some_socket socket ≡ true → is_negative id ≡ false

-- Objects, rooms and threads stand under their own ids, and the objects are fine.
pub record IsSound (w : World) : Type 0 where
  pub players_keyed : (j : ℤ) (p : ServerPlayer) → find j w.players_map ≡ some p → p.conn_id ≡ j
  pub players_fine :
      (j : ℤ) (p : ServerPlayer) → find j w.players_map ≡ some p → IsFine p.socket p.id
  pub rooms_keyed : (j : ℤ) (r : Room) → find j w.rooms ≡ some r → r.id ≡ j
  pub threads_keyed : (j : ℤ) (t : RoomThread) → find j w.threads ≡ some t → t.id ≡ j

-- The maps alone decide.
pub same_maps :
    (w v : World)
    → v.players_map ≡ w.players_map
    → v.rooms ≡ w.rooms
    → v.threads ≡ w.threads
    → IsSound w
    → IsSound v
same_maps w v a b c s = record {
  players_keyed = λ j p h. s.players_keyed j p (ap (find j) (sym a) ∙ h);
  players_fine = λ j p h. s.players_fine j p (ap (find j) (sym a) ∙ h);
  rooms_keyed = λ j r h. s.rooms_keyed j r (ap (find j) (sym b) ∙ h);
  threads_keyed = λ j t h. s.threads_keyed j t (ap (find j) (sym c) ∙ h);
}

pub tell-IsSound : (es : List Event) (w : World) → IsSound w → IsSound (tell es w)
tell-IsSound es w s = same_maps w (tell es w) refl refl refl s

pub set_player-IsSound :
    (p : ServerPlayer) (w : World) → IsFine p.socket p.id → IsSound w → IsSound (set_player p w)
set_player-IsSound p w f s = record {
  players_keyed = λ j q h. elim (put_found j p.conn_id p q w.players_map h) [
    | inl (e, k) ↦ ap (λ (x : ServerPlayer). x.conn_id) (sym e) ∙ k
    | inr g ↦ s.players_keyed j q g
  ];
  players_fine = λ j q h. elim (put_found j p.conn_id p q w.players_map h) [
    | inl (e, k) ↦ subst (λ (x : ServerPlayer). IsFine x.socket x.id) e f
    | inr g ↦ s.players_fine j q g
  ];
  rooms_keyed = s.rooms_keyed;
  threads_keyed = s.threads_keyed;
}

pub set_room-IsSound : (r : Room) (w : World) → IsSound w → IsSound (set_room r w)
set_room-IsSound r w s = record {
  players_keyed = s.players_keyed;
  players_fine = s.players_fine;
  rooms_keyed = λ j q h. elim (put_found j r.id r q w.rooms h) [
    | inl (e, k) ↦ ap (λ (x : Room). x.id) (sym e) ∙ k
    | inr g ↦ s.rooms_keyed j q g
  ];
  threads_keyed = s.threads_keyed;
}

pub set_thread_entry-IsSound :
    (t : RoomThread) (w : World) → IsSound w → IsSound (set_thread_entry t w)
set_thread_entry-IsSound t w s = record {
  players_keyed = s.players_keyed;
  players_fine = s.players_fine;
  rooms_keyed = s.rooms_keyed;
  threads_keyed = λ j q h. elim (put_found j t.id t q w.threads h) [
    | inl (e, k) ↦ ap (λ (x : RoomThread). x.id) (sym e) ∙ k
    | inr g ↦ s.threads_keyed j q g
  ];
}

-- Smaller maps are in order, too.
pub erase-IsSound :
    (w v : World) (i j k : ℤ)
    → ((v.players_map ≡ w.players_map) ⊎ (v.players_map ≡ erase i w.players_map))
    → ((v.rooms ≡ w.rooms) ⊎ (v.rooms ≡ erase j w.rooms))
    → ((v.threads ≡ w.threads) ⊎ (v.threads ≡ erase k w.threads))
    → IsSound w
    → IsSound v
erase-IsSound w v i j k a b c s = record {
  players_keyed = λ n p h. s.players_keyed n p (back n i p a h);
  players_fine = λ n p h. s.players_fine n p (back n i p a h);
  rooms_keyed = λ n r h. s.rooms_keyed n r (back n j r b h);
  threads_keyed = λ n t h. s.threads_keyed n t (back n k t c h);
}
  where
    back :
        {V : Type 0} {m l : List (ℤ × V)} (n i : ℤ) (u : V)
        → ((l ≡ m) ⊎ (l ≡ erase i m))
        → find n l ≡ some u
        → find n m ≡ some u
    back {m = m} n i u (inl e) h = ap (find n) (sym e) ∙ h
    back {m = m} n i u (inr e) h = erase_found n i u m (ap (find n) (sym e) ∙ h)

pub delete_player-IsSound : (p : ServerPlayer) (w : World) → IsSound w → IsSound (delete_player p w)
unfolding delete_player remove_player remove_player_by_conn_id
delete_player-IsSound p w s =
    erase-IsSound w _ p.conn_id (pos 0) (pos 0) (inr refl) (inl refl) (inl refl) s

pub remove_player_by_conn_id-IsSound :
    (conn : ℤ) (w : World) → IsSound w → IsSound (remove_player_by_conn_id conn w)
unfolding remove_player_by_conn_id
remove_player_by_conn_id-IsSound conn w s =
    erase-IsSound w _ conn (pos 0) (pos 0) (inr refl) (inl refl) (inl refl) s

-- An object that is added, over whatever the maps of user ids hold.
pub add_player-IsSound :
    (p : ServerPlayer) (w : World) → IsFine p.socket p.id → IsSound w → IsSound (add_player p w)
unfolding add_player
add_player-IsSound p w f s =
    same_maps (set_player p w) (add_player p w) (ground arith) (ground arith) (ground arith)
      (set_player-IsSound p w f s)

pub if-IsSound : (b : Bool) (w v : World) → IsSound w → IsSound v → IsSound (if b then w else v)
if-IsSound true w v s t = s
if-IsSound false w v s t = t

pub with_room-IsSound :
    (id : ℤ) (f : Room → World → World) (w : World)
    → IsSound w
    → ((r : Room) → IsSound (f r w))
    → IsSound (with_room id f w)
with_room-IsSound id f w s g = with_any (find id w.rooms)
  where
    with_any : (o : Option Room) → IsSound (with_found o f w)
    with_any none = s
    with_any (some r) = g r

pub with_found-IsSound :
    {A : Type 0} (o : Option A) (f : A → World → World) (w : World)
    → IsSound w
    → ((x : A) → IsSound (f x w))
    → IsSound (with_found o f w)
with_found-IsSound none f w s g = s
with_found-IsSound (some x) f w s g = g x

pub with_player-IsSound :
    (conn : ℤ) (f : ServerPlayer → World → World) (w : World)
    → IsSound w
    → ((p : ServerPlayer) → IsFine p.socket p.id → IsSound (f p w))
    → IsSound (with_player conn f w)
with_player-IsSound conn f w s g = elim (Option-cases (find conn w.players_map)) [
  | inl e ↦ rw e s
  | inr (p, e) ↦ rw e (g p (s.players_fine conn p e))
]

pub IsFine-none : (id : ℤ) → IsFine none id
unfolding IsFine
IsFine-none id h = absurd (ground (arith, h))

pub ruleset sound = (
  tell-IsSound, set_player-IsSound, set_room-IsSound, set_thread_entry-IsSound,
  delete_player-IsSound, remove_player_by_conn_id-IsSound, add_player-IsSound, if-IsSound,
  with_player-IsSound, with_room-IsSound, with_found-IsSound, IsFine-none,
)

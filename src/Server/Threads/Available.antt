-- ===== src/Server/Threads/Available.antt =====
-- Which thread a new room gets.
use Prim.Native.String.{String}
use text.Mathlib.TextEquality.{eq_iff}
use freekill_asio.Base.{
  ◌≡◌, ◌≢◌, refl, ℤ, true, false, List, [], ◌∷◌, some, ◌==ℤ◌, ==ℤ_iff, is_positive, arith,
  Bool-cases, Option-cases, inl, inr, ◌⊎◌,
}
use freekill_asio.Base.Map.{find, find-put}
use freekill_asio.Server.World.{World, RoomThread}
use freekill_asio.Server.Threads.{
  thread_is_full, thread_is_outdated, find_available, create_thread, found_or_new,
  get_available_thread,
}

pub StandsIn : RoomThread → List (ℤ × RoomThread) → Type 0
StandsIn t [] = true ≡ false
StandsIn t ((id, x) ∷ ts) = (x ≡ t) ⊎ StandsIn t ts

find_available_found :
    (md5 : String) (ts : List (ℤ × RoomThread)) (t : RoomThread)
    → (find_available md5 ts).1 ≡ some t
    → StandsIn t ts × (thread_is_full t ≡ false) × (thread_is_outdated md5 t ≡ false)
unfolding find_available StandsIn
find_available_found md5 [] t h = absurd (ground (arith, h))
find_available_found md5 ((id, x) ∷ ts) t h = elim (Bool-cases (thread_is_outdated md5 x)) [
  | inl o ↦ let (m, f, g) = find_available_found md5 ts t (ground (arith, o, h)) in (inr m, f, g)
  | inr o ↦ elim (Bool-cases (thread_is_full x)) [
    | inl f ↦
        let (m, g, k) = find_available_found md5 ts t (ground (arith, o, f, h)) in (inr m, g, k)
    | inr f ↦ (inl (ground (arith, o, f, h)), ground (arith, o, f, h), ground (arith, o, f, h))
  ]
]

abbrev pub HasKept : ℤ → RoomThread → List (ℤ × RoomThread) → Type 0
HasKept j t ts =
    (s : RoomThread) × (find j ts ≡ some s) × (s.rooms ≡ t.rooms) × (s.ref_count ≡ t.ref_count)

find_available_kept :
    (md5 : String) (ts : List (ℤ × RoomThread)) (j : ℤ) (t : RoomThread)
    → find j ts ≡ some t
    → HasKept j t (find_available md5 ts).0
unfolding find_available find
find_available_kept md5 [] j t h = absurd (ground (arith, h))
find_available_kept md5 ((id, x) ∷ ts) j t h = elim (Bool-cases (id ==ℤ j)) [
  | inl e ↦ elim (Bool-cases (thread_is_outdated md5 x)) [
    | inl o ↦ (record t { md5 = "" }, ground (arith, e, o, h), refl, refl)
    | inr o ↦ (t, ground (arith, e, o, h), refl, refl)
  ]
  | inr e ↦
      let (s, f, g, k) = find_available_kept md5 ts j t (ground (arith, e, h)) in
      elim (Bool-cases (thread_is_outdated md5 x)) [
        | inl o ↦ (s, ground (arith, e, o, f), g, k)
        | inr o ↦ elim (Bool-cases (thread_is_full x)) [
          | inl u ↦ (s, ground (arith, e, o, u, f), g, k)
          | inr u ↦ (t, ground (arith, e, o, u, h), refl, refl)
        ]
      ]
]

-- With a positive capacity in the configuration, the thread for a new room is of the server's
-- present version and has room for it; it is one that there was, or a new one under a new id without
-- rooms. Every other thread keeps its rooms and its count.
pub get_available_thread_lem :
    (capacity : ℤ) (w : World)
    → is_positive capacity ≡ true
    → let (v, t) = get_available_thread capacity w in
      (thread_is_full t ≡ false)
      × (thread_is_outdated w.md5 t ≡ false)
      × (StandsIn t w.threads
          ⊎ ((t.id ≡ w.next_thread_id) × (t.rooms ≡ []) × (find t.id v.threads ≡ some t)))
      × ((j : ℤ) (x : RoomThread)
          → j ≢ w.next_thread_id
          → find j w.threads ≡ some x
          → HasKept j x v.threads)
unfolding get_available_thread found_or_new create_thread
get_available_thread_lem capacity w h = elim (Option-cases (find_available w.md5 w.threads).1) [
  | inl e ↦ rw e (
    ground arith,
    ground (arith, eq_iff w.md5 w.md5),
    inr (
      refl,
      refl,
      ground (
        arith,
        find-put w.next_thread_id w.next_thread_id (create_thread capacity w).1
            (find_available w.md5 w.threads).0,
        ==ℤ_iff w.next_thread_id w.next_thread_id,
      ),
    ),
    λ j x n g.
        let (s, f, k, l) = find_available_kept w.md5 w.threads j x g in
        (
          s,
          ground (
            arith,
            n,
            f,
            ==ℤ_iff w.next_thread_id j,
            find-put j w.next_thread_id (create_thread capacity w).1
                (find_available w.md5 w.threads).0,
          ),
          k,
          l,
        ),
  )
  | inr (t, e) ↦
      let (m, f, o) = find_available_found w.md5 w.threads t e in
      rw e (f, o, inl m, λ j x _ g. find_available_kept w.md5 w.threads j x g)
]

pub rooms-get_available_thread :
    (capacity : ℤ) (w : World)
    → let v = (get_available_thread capacity w).0 in
      (v.rooms ≡ w.rooms) × (v.next_room_id ≡ w.next_room_id)
unfolding get_available_thread found_or_new create_thread
rooms-get_available_thread capacity w = elim (Option-cases (find_available w.md5 w.threads).1) [
  | inl e ↦ rw e (refl, refl)
  | inr (t, e) ↦ rw e (refl, refl)
]

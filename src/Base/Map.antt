-- ===== src/Base/Map.antt =====
-- `std::unordered_map<int, V>` as an association list; the order of iteration is the list's.
use freekill_asio.Base.Tests.{if◌then◌else◌, Bool-cases}
use freekill_asio.Base.Int.{ℤ, ◌==ℤ◌, ==ℤ_iff}
use mathlib.Core.Path.{◌≡◌, refl}
use mathlib.Core.Logic.{◌⊎◌, inl, inr}
use mathlib.Core.Bool.{Bool, true, false}
use mathlib.Core.List.{List, [], ◌∷◌, ◌++◌}
use mathlib.Core.Option.{Option, none, some}
use native.Mathlib.Omega.{arith}

module _ {ℓ} {V : Type ℓ} where
  unfoldable pub find : ℤ → List (ℤ × V) → Option V
  find k [] = none
  find k ((j, v) ∷ m) = if j ==ℤ k then some v else find k m

  unfoldable pub put : ℤ → V → List (ℤ × V) → List (ℤ × V)
  put k v [] = (k, v) ∷ []
  put k v ((j, w) ∷ m) = if j ==ℤ k then (k, v) ∷ m else (j, w) ∷ put k v m

  unfoldable pub erase : ℤ → List (ℤ × V) → List (ℤ × V)
  erase k [] = []
  erase k ((j, w) ∷ m) = let rest = erase k m in if j ==ℤ k then rest else (j, w) ∷ rest

  pub find-put :
      (j k : ℤ) (v : V) (m : List (ℤ × V))
      → find j (put k v m) ≡ (if k ==ℤ j then some v else find j m)
  unfolding find put
  find-put j k v [] = refl
  find-put j k v ((i, w) ∷ m) =
      ground (arith, ==ℤ_iff k j, ==ℤ_iff i k, ==ℤ_iff i j, find-put j k v m)

  pub find-erase :
      (j k : ℤ) (m : List (ℤ × V)) → find j (erase k m) ≡ (if k ==ℤ j then none else find j m)
  unfolding find erase
  find-erase j k [] = ground arith
  find-erase j k ((i, w) ∷ m) =
      ground (arith, ==ℤ_iff k j, ==ℤ_iff i k, ==ℤ_iff i j, find-erase j k m)

  -- What is found after `put` is what was put, or was there.
  pub put_found :
      (j k : ℤ) (v u : V) (m : List (ℤ × V))
      → find j (put k v m) ≡ some u
      → ((v ≡ u) × (k ≡ j)) ⊎ (find j m ≡ some u)
  put_found j k v u m h = elim (Bool-cases (k ==ℤ j)) [
    | inl e ↦ inl (ground (arith, find-put j k v m, h, e), (==ℤ_iff k j).0 e)
    | inr e ↦ inr (ground (arith, find-put j k v m, h, e))
  ]

  pub erase_found :
      (j k : ℤ) (u : V) (m : List (ℤ × V)) → find j (erase k m) ≡ some u → find j m ≡ some u
  erase_found j k u m h = ground (arith, find-erase j k m, h)

-- Membership in a `std::vector<int>`, and the erase-remove idiom.
unfoldable pub contains : ℤ → List ℤ → Bool
contains i [] = false
contains i (x ∷ xs) = if x ==ℤ i then true else contains i xs

unfoldable pub remove_all : ℤ → List ℤ → List ℤ
remove_all i [] = []
remove_all i (x ∷ xs) = let rest = remove_all i xs in if x ==ℤ i then rest else x ∷ rest

-- `erase(find(...))`: the first occurrence only.
unfoldable pub remove_first : ℤ → List ℤ → List ℤ
remove_first i [] = []
remove_first i (x ∷ xs) = if x ==ℤ i then xs else x ∷ remove_first i xs

pub contains-remove_all :
    (j i : ℤ) (xs : List ℤ)
    → contains j (remove_all i xs) ≡ (if i ==ℤ j then false else contains j xs)
unfolding contains remove_all
contains-remove_all j i [] = ground arith
contains-remove_all j i (x ∷ xs) =
    ground (arith, ==ℤ_iff i j, ==ℤ_iff x i, ==ℤ_iff x j, contains-remove_all j i xs)

pub contains-snoc :
    (j i : ℤ) (xs : List ℤ) → contains j (xs ++ i ∷ []) ≡ (if i ==ℤ j then true else contains j xs)
unfolding contains
contains-snoc j i [] = ground arith
contains-snoc j i (x ∷ xs) = ground (arith, contains-snoc j i xs)

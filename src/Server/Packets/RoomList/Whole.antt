-- ===== src/Server/Packets/RoomList/Whole.antt =====
-- What the list of rooms holds.
use mathlib.Core.List.{Perm, perm_middle}
use mathlib.Core.List.Perm
use mathlib.Core.Option.{some-injective}
use freekill_asio.Base.{
  ℕ, zero, suc, ◌+◌, ℤ, ◌≡◌, subst, some, get_elem?, if_cases, refl, ◌∙◌, Bool, true, false, List,
  [], ◌∷◌, ◌++◌, length, length-append, leb, Bool-cases, inl, inr, arith,
}
use freekill_asio.Server.World.{World, Room, is_full}
use freekill_asio.Server.Packets.RoomList.{RoomRow, row_of, rows_if, room_list}

unfoldable pub all_rows : World → List (ℤ × Room) → List RoomRow
all_rows w [] = []
all_rows w ((id, r) ∷ rs) = row_of w r ∷ all_rows w rs

both-Perm :
    (w : World) (rs : List (ℤ × Room))
    → Perm (rows_if false w rs ++ rows_if true w rs) (all_rows w rs)
unfolding rows_if all_rows
both-Perm w [] = Perm.nil
both-Perm w ((id, r) ∷ rs) = elim (Bool-cases (is_full r)) [
  | inl e ↦ rw e (
      Perm.trans (perm_middle (rows_if false w rs) (rows_if true w rs))
        (Perm.cons (row_of w r) (both-Perm w rs)))
  | inr e ↦ rw e (Perm.cons (row_of w r) (both-Perm w rs))
]

length-both :
    (w : World) (rs : List (ℤ × Room))
    → length (rows_if false w rs) + length (rows_if true w rs) ≡ length rs
unfolding rows_if
length-both w [] = omega arith
length-both w ((id, r) ∷ rs) = elim (Bool-cases (is_full r)) [
  | inl e ↦ rw e (omega (arith, length-both w rs))
  | inr e ↦ rw e (omega (arith, length-both w rs))
]

-- Whether a row shows a full room.
abbrev pub shows_full : RoomRow → Bool
shows_full a = leb a.capacity a.player_count

-- All rows show full rooms, or none does.
abbrev pub AllShow : Bool → List RoomRow → Type 0
AllShow b rows = (i : ℕ) (a : RoomRow) → get_elem? rows i ≡ some a → shows_full a ≡ b

none-AllShow : (b : Bool) → AllShow b []
none-AllShow b i a h = absurd (ground (arith, h))

more-AllShow :
    (b : Bool) (a : RoomRow) (rows : List RoomRow)
    → shows_full a ≡ b
    → AllShow b rows
    → AllShow b (a ∷ rows)
more-AllShow b a rows e s zero c h =
    subst (λ (x : RoomRow). shows_full x ≡ b) (some-injective a c h) e
more-AllShow b a rows e s (suc i) c h = s i c h

rows_if-AllShow : (b : Bool) (w : World) (rs : List (ℤ × Room)) → AllShow b (rows_if b w rs)
unfolding rows_if
rows_if-AllShow true w [] = none-AllShow true
rows_if-AllShow false w [] = none-AllShow false
rows_if-AllShow true w ((id, r) ∷ rs) =
    if_cases (AllShow true) (is_full r)
      (λ e. more-AllShow true (row_of w r) _ e (rows_if-AllShow true w rs))
      (λ _. rows_if-AllShow true w rs)
rows_if-AllShow false w ((id, r) ∷ rs) =
    if_cases (AllShow false) (is_full r) (λ _. rows_if-AllShow false w rs)
      (λ e. more-AllShow false (row_of w r) _ e (rows_if-AllShow false w rs))

-- The list that a user is sent holds a row for each room of the server exactly once, so that the
-- length that is written in front of it is right, and it is one list of rooms that are not full
-- followed by one of rooms that are.
pub room_list_lem :
    (w : World)
    → Perm (room_list w) (all_rows w w.rooms)
      × (length (room_list w) ≡ length w.rooms)
      × ((open_rows : List RoomRow) × (full_rows : List RoomRow) × (room_list w
            ≡ open_rows ++ full_rows)
          × AllShow false open_rows
          × AllShow true full_rows)
unfolding room_list
room_list_lem w = (
  both-Perm w w.rooms,
  length-append (rows_if false w w.rooms) (rows_if true w w.rooms) ∙ length-both w w.rooms,
  (
    rows_if false w w.rooms,
    rows_if true w w.rooms,
    refl,
    rows_if-AllShow false w w.rooms,
    rows_if-AllShow true w w.rooms,
  ),
)

-- ===== src/Server/Admin/Masked.antt =====
-- What is asked without the passwords does not depend on them.
use Prim.Native.String.{String}
use text.Mathlib.Text.{◌==◌ as str_eq}
use freekill_asio.Base.{
  ℤ, pos, ◌≡◌, refl, false, List, [], ◌∷◌, if◌then◌else◌, ◌==ℤ◌, is_positive, Bool-cases, inl, inr,
}
use freekill_asio.Base.Map.{find}
use freekill_asio.Server.World.{World, Room}
use freekill_asio.Server.Admin.{
  room_to_summary, shown_password, infos_of, summaries, detail_of, ls_room_info,
}

-- A room with another password in place of one that is not empty.
abbrev pub with_password : (Room → String) → Room → Room
with_password other r = record r { password = if str_eq r.password "" then r.password else other r }

unfoldable pub with_passwords : (Room → String) → List (ℤ × Room) → List (ℤ × Room)
with_passwords other [] = []
with_passwords other ((id, r) ∷ rs) = (id, with_password other r) ∷ with_passwords other rs

pub infos_of_same :
    (conns : List ℤ) (w v : World)
    → v.players_map ≡ w.players_map
    → infos_of conns v ≡ infos_of conns w
unfolding infos_of
infos_of_same [] w v e = refl
infos_of_same (conn ∷ conns) w v e = rw (infos_of_same conns w v e, e) refl

module _ (other : Room → String) (kept : (r : Room) → str_eq (other r) "" ≡ false) where
  masked : (r : Room) → room_to_summary false (with_password other r) ≡ room_to_summary false r
  unfolding room_to_summary shown_password
  masked r = elim (Bool-cases (str_eq r.password "")) [
    | inl e ↦ rw (e, e) refl
    | inr e ↦ rw (e, kept r) refl
  ]

  summaries-with_passwords :
      (rs : List (ℤ × Room)) → summaries false (with_passwords other rs) ≡ summaries false rs
  unfolding summaries with_passwords
  summaries-with_passwords [] = refl
  summaries-with_passwords ((id, r) ∷ rs) = rw (masked r, summaries-with_passwords rs) refl

  detail_of-with_password :
      (w : World) (id : ℤ) (rs : List (ℤ × Room))
      → detail_of false
          (record w { rooms = with_passwords other w.rooms })
          (find id (with_passwords other rs))
        ≡ detail_of false w (find id rs)
  unfolding detail_of with_passwords find
  detail_of-with_password w id [] = refl
  detail_of-with_password w id ((j, r) ∷ rs) = elim (Bool-cases (j ==ℤ id)) [
    | inl e ↦
        rw
          (
            e,
            masked r,
            infos_of_same r.players w (record w { rooms = with_passwords other w.rooms }) refl,
          )
          refl
    | inr e ↦ rw e (detail_of-with_password w id rs)
  ]

  -- Whatever non-empty passwords stand in place of those of the rooms that have one, a query of a
  -- room, of the lobby or of all rooms that does not ask for passwords has the same answer.
  pub ls_room_info_masked :
      (id : ℤ) (w : World)
      → ls_room_info id false (record w { rooms = with_passwords other w.rooms })
        ≡ ls_room_info id false w
  unfolding ls_room_info
  ls_room_info_masked id w = elim (Bool-cases (is_positive id)) [
    | inl e ↦ rw e (detail_of-with_password w id w.rooms)
    | inr e ↦ elim (Bool-cases (id ==ℤ pos 0)) [
      | inl z ↦
          rw
            (e, z, infos_of_same w.lobby w (record w { rooms = with_passwords other w.rooms }) refl)
            refl
      | inr z ↦ rw (e, z, summaries-with_passwords w.rooms) refl
    ]
  ]

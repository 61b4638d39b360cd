-- ===== src/Server/Admin/Duration.antt =====
-- `formatMsDuration` of src/server/admin/admin_service.cpp.
use Prim.Native.String.{String}
use freekill_asio.Base.{
  ℕ, ◌+◌, ◌*◌, ◌/◌, ◌%◌, ◌<◌, ◌==◌, if◌then◌else◌, ◌≡◌, [], ◌∷◌, Option, none, some, arith,
}
use freekill_asio.Server.Auth.{joined}

-- The parts of a duration that are shown; the larger units only where there is something of them.
pub record Parts : Type 0 where
  pub ms : ℕ
  pub seconds : ℕ
  pub minutes : Option ℕ
  pub hours : Option ℕ
  pub days : Option ℕ

unfoldable pub parts_of : ℕ → Parts
parts_of time =
    let m = time / 1000 / 60 in
    let h = m / 60 in
    let d = h / 24 in
    record {
      ms = time % 1000;
      seconds = time / 1000 % 60;
      minutes = if m == 0 then none else some (m % 60);
      hours = if h == 0 then none else some (h % 24);
      days = if d == 0 then none else some d;
    }

module _ (show : ℕ → String) where
  abbrev unit_text : Option ℕ → String → String
  unit_text none unit = ""
  unit_text (some n) unit = joined (show n ∷ unit ∷ [])

  -- How the parts are written. The milliseconds stand behind the point as they are.
  unfoldable pub text_of_parts : Parts → String
  text_of_parts p = joined (
      unit_text p.days " days, "
      ∷ unit_text p.hours " hours, "
      ∷ unit_text p.minutes " minutes, "
      ∷ show p.seconds
      ∷ "."
      ∷ show p.ms
      ∷ " seconds"
      ∷ [])

  unfoldable pub format_ms_duration : ℕ → String
  unfolding text_of_parts parts_of
  format_ms_duration time = text_of_parts (parts_of time)

abbrev or_zero : Option ℕ → ℕ
or_zero none = 0
or_zero (some n) = n

-- The milliseconds that the parts stand for.
abbrev pub total_ms : Parts → ℕ
total_ms p =
    (((or_zero p.days * 24 + or_zero p.hours) * 60 + or_zero p.minutes) * 60 + p.seconds) * 1000
    + p.ms

-- The parts of a duration add up to it, and those below a day are below the next unit.
pub parts_of_lem :
    (time : ℕ)
    → let p = parts_of time in
      (total_ms p ≡ time)
      × (p.ms < 1000)
      × (p.seconds < 60)
      × (or_zero p.minutes < 60)
      × (or_zero p.hours < 24)
unfolding parts_of
parts_of_lem time = (ground arith, ground arith, ground arith, ground arith, ground arith)

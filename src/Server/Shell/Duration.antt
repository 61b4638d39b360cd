-- ===== src/Server/Shell/Duration.antt =====
-- When a temporary ban or mute ends.
use Prim.Native.String.{String}
use freekill_asio.Base.{
  ℕ, ℤ, ◌+◌, ◌*◌, ◌/◌, ◌^◌, ◌<◌, ◌≡◌, ◌⊎◌, refl, sym, ap, ◌∙◌, pos, negsuc, true, some, Bool-cases,
  Option-cases, inl, inr, arith,
}
use text.Mathlib.Text.{◌==◌ as str_eq}
use text.Mathlib.TextEquality.{eq_iff}
use mathlib.Core.Option.{some-injective}
use freekill_asio.Server.Shell.Times.{
  Until, invalid, undefined, second, seconds_of, fits_int64, end_after, end_of, until_of,
  read_until,
}

whole_seconds :
    (now seconds : ℕ) → (now + seconds * 1000000000) / 1000000000 ≡ now / 1000000000 + seconds
whole_seconds now seconds = omega arith

-- The units and their seconds: a minute, an hour, a day, and a month of thirty days.
unfoldable pub IsUnit : String → ℕ → Type 0
IsUnit unit u =
    ((unit ≡ "m") × (u ≡ 60))
    ⊎ ((unit ≡ "h") × (u ≡ 60 * 60))
    ⊎ ((unit ≡ "d") × (u ≡ 24 * (60 * 60)))
    ⊎ ((unit ≡ "mo") × (u ≡ 30 * (24 * (60 * 60))))

seconds_of-IsUnit : (unit : String) (u : ℕ) → IsUnit unit u → seconds_of unit ≡ some u
unfolding IsUnit seconds_of
seconds_of-IsUnit unit u (inl (e, f)) = rw (e, f) refl
seconds_of-IsUnit unit u (inr (inl (e, f))) = rw (e, f) refl
seconds_of-IsUnit unit u (inr (inr (inl (e, f)))) = rw (e, f) refl
seconds_of-IsUnit unit u (inr (inr (inr (e, f)))) = rw (e, f) refl

IsUnit-seconds_of : (unit : String) (u : ℕ) → seconds_of unit ≡ some u → IsUnit unit u
unfolding IsUnit seconds_of
IsUnit-seconds_of unit u h = elim (Bool-cases (str_eq unit "m")) [
  | inl a ↦ inl ((eq_iff unit "m").0 a, some-injective _ _ (ground (arith, sym h, a)))
  | inr a ↦ elim (Bool-cases (str_eq unit "h")) [
    | inl b ↦ inr (inl ((eq_iff unit "h").0 b, some-injective _ _ (ground (arith, sym h, a, b))))
    | inr b ↦ elim (Bool-cases (str_eq unit "d")) [
      | inl c ↦
          inr
            (inr (inl ((eq_iff unit "d").0 c, some-injective _ _ (ground (arith, sym h, a, b, c)))))
      | inr c ↦ elim (Bool-cases (str_eq unit "mo")) [
        | inl d ↦ inr (
            inr (
              inr ((eq_iff unit "mo").0 d, some-injective _ _ (ground (arith, sym h, a, b, c, d)))))
        | inr d ↦ absurd (ground (arith, h, a, b, c, d))
      ]
    ]
  ]
]

until_second :
    (now n t u : ℕ)
    → end_of (end_after now (n * u)) ≡ second t
    → (now + n * u * 1000000000 < 2 ^ 63) × (t ≡ now / 1000000000 + n * u)
unfolding end_of end_after
until_second now n t u h = elim (Bool-cases (fits_int64 (now + n * u * 1000000000))) [
  | inl e ↦ (ground (arith, e), second-injective (sym h ∙ rw e refl) ∙ whole_seconds now (n * u))
  | inr e ↦ absurd (ground (arith, h, e))
]
  where
    second_or_0 : Until → ℕ
    second_or_0 (second t) = t
    second_or_0 invalid = 0
    second_or_0 undefined = 0

    second-injective : {s t : ℕ} → second s ≡ second t → s ≡ t
    second-injective e = ap second_or_0 e

second-until :
    (now n u : ℕ)
    → now + n * u * 1000000000 < 2 ^ 63
    → end_of (end_after now (n * u)) ≡ second (now / 1000000000 + n * u)
unfolding end_of end_after
second-until now n u l =
    let e : fits_int64 (now + n * u * 1000000000) ≡ true = ground (arith, l) in
    rw e (ap second (whole_seconds now (n * u)))

-- A duration ends at a second exactly if it is a number, not negative, of one of the four units,
-- and the nanoseconds from 1970 to its end fit into 64 bits; then it ends as many whole seconds
-- after the present one as these units have.
pub read_until_lem :
    (now t : ℕ) (v : ℤ) (unit : String)
    → (read_until now (some (v, unit)) ≡ second t
        → (n : ℕ) × (u : ℕ) × (v ≡ pos n)
          × IsUnit unit u
          × (now + n * u * 1000000000 < 2 ^ 63)
          × (t ≡ now / 1000000000 + n * u))
      × ((n u : ℕ)
          → v ≡ pos n
          → IsUnit unit u
          → now + n * u * 1000000000 < 2 ^ 63
          → read_until now (some (v, unit)) ≡ second (now / 1000000000 + n * u))
unfolding read_until until_of
read_until_lem now t (negsuc n) unit =
    (λ h. absurd (ground (arith, h)), λ m u e. absurd (ground (arith, e)))
read_until_lem now t (pos n) unit = (
  λ h. elim (Option-cases (seconds_of unit)) [
    | inl e ↦ absurd (ground (arith, h, e))
    | inr (u, e) ↦
        let (a, b) = until_second now n t u (sym (rw e refl) ∙ h) in
        (n, u, refl, IsUnit-seconds_of unit u e, a, b)
  ],
  λ m u e i l.
      let k : m ≡ n = sym (pos-injective e) in
      rw (k, seconds_of-IsUnit unit u i) (second-until now n u (rw (sym k) l)),
)
  where
    number : ℤ → ℕ
    number (pos n) = n
    number (negsuc n) = 0

    pos-injective : {m n : ℕ} → pos m ≡ pos n → m ≡ n
    pos-injective e = ap number e

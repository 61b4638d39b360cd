-- ===== src/Util/Compress.antt =====
-- `append_be32`, `read_be32`, `qCompress_std` and `qUncompress_std` of src/core/util.cpp. zlib's
-- `compress2` and `uncompress` are parameters.
use freekill_asio.Base.{
  ℕ, ◌+◌, ◌*◌, ◌/◌, ◌%◌, ◌^◌, ◌<◌, ◌≡◌, ◌≢◌, refl, ◌==◌, if◌then◌else◌, List, [], ◌∷◌, ◌++◌, Option,
  none, some, length, Option-cases, inl, inr, arith,
}

-- `(v >> k) & 0xff`
abbrev pub byte_at : ℕ → ℕ → ℕ
byte_at v k = v / 2 ^ k % 256

-- `v` is a uint32_t.
unfoldable pub append_be32 : List ℕ → ℕ → List ℕ
append_be32 out v = out ++ (byte_at v 24 ∷ byte_at v 16 ∷ byte_at v 8 ∷ byte_at v 0 ∷ [])

unfoldable pub read_be32 : ℕ → ℕ → ℕ → ℕ → ℕ
read_be32 a b c d = a * 2 ^ 24 + b * 2 ^ 16 + c * 2 ^ 8 + d

-- `none` is a status other than Z_OK. `uncompress` is given the size of the output buffer, and
-- returns what it wrote there.
pub record Zlib : Type 0 where
  pub compress2 : List ℕ → Option (List ℕ)
  pub uncompress : ℕ → List ℕ → Option (List ℕ)

-- `none` is a thrown `std::runtime_error`. The length is cast to 32 bits.
unfoldable pub q_compress_std : Zlib → List ℕ → Option (List ℕ)
unfolding append_be32
q_compress_std z [] = some (0 ∷ 0 ∷ 0 ∷ 0 ∷ [])
q_compress_std z (c ∷ cs) = elim (z.compress2 (c ∷ cs)) [
  | none ↦ none
  | some packed ↦ some (append_be32 [] (length (c ∷ cs) % 2 ^ 32) ++ packed)
]

inflate : Zlib → ℕ → List ℕ → Option (List ℕ)
inflate z expected packed = if expected == 0 then some [] else elim (z.uncompress expected packed) [
  | none ↦ none
  | some out ↦ if length out == expected then some out else none
]

unfoldable pub q_uncompress_std : Zlib → List ℕ → Option (List ℕ)
unfolding inflate read_be32
q_uncompress_std z (a ∷ b ∷ c ∷ d ∷ packed) = inflate z (read_be32 a b c d) packed
q_uncompress_std z _ = some []

read_be32-bytes :
    (v : ℕ) → v < 2 ^ 32 → read_be32 (byte_at v 24) (byte_at v 16) (byte_at v 8) (byte_at v 0) ≡ v
unfolding read_be32
read_be32-bytes v h = omega arith

module _ (z : Zlib) where
  -- zlib's promise: into a buffer of the original size, the data comes back.
  abbrev pub Restores : Type 0
  Restores = (xs ys : List ℕ) → z.compress2 xs ≡ some ys → z.uncompress (length xs) ys ≡ some xs

-- Given zlib's promise, data shorter than 4 GiB that is compressed without an exception is
-- decompressed to itself, without an exception; compression fails only where zlib does.
pub q_uncompress_std-q_compress_std :
    (z : Zlib) (bytes : List ℕ)
    → Restores z
    → length bytes < 2 ^ 32
    → ((packed : List ℕ)
        → q_compress_std z bytes ≡ some packed
        → q_uncompress_std z packed ≡ some bytes)
      × (bytes ≢ [] → q_compress_std z bytes ≡ none → z.compress2 bytes ≡ none)
unfolding q_compress_std q_uncompress_std append_be32
q_uncompress_std-q_compress_std z [] promise short =
    (λ packed h. ground arith, λ n _. absurd (n refl))
q_uncompress_std-q_compress_std z (c ∷ cs) promise short =
    elim (Option-cases (z.compress2 (c ∷ cs))) [
      | inl e ↦ (λ packed h. ground arith, λ _ _. e)
      | inr (ys, e) ↦ (
        λ packed h.
            ground (arith, promise (c ∷ cs) ys e, read_be32-bytes (length (c ∷ cs) % 2 ^ 32)),
        λ n h. ground arith,
      )
    ]

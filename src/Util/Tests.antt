-- ===== src/Util/Tests.antt =====
-- Runs of the hashing and framing functions at concrete inputs.
use mathlib.Core.List.{flatten}
use freekill_asio.Base.{ℕ, ◌≡◌, refl, List, [], ◌∷◌, some, arith}
use freekill_asio.Util.Hex.{to_hex}
use freekill_asio.Util.Normalize.{md5_input, compute_file_md5}
use freekill_asio.Util.Normalize.Chunks.{normalize, compute_file_md5-normalize}
use freekill_asio.Util.Compress.{
  Zlib, Restores, q_compress_std, q_uncompress_std, q_uncompress_std-q_compress_std,
}

-- "a\r" and "\nb\r": the pair is split between two chunks, and a carriage return ends the file.
abbrev split_pair : List (List ℕ)
split_pair = (b'a' ∷ 13 ∷ []) ∷ (10 ∷ b'b' ∷ 13 ∷ []) ∷ []

split_pair_fed : md5_input split_pair ≡ b'a' ∷ 10 ∷ b'b' ∷ 13 ∷ []
unfolding md5_input
split_pair_fed = refl

-- Any function stands for the hash.
compute_file_md5-normalize_example :
    compute_file_md5 (λ bytes. bytes) (some split_pair)
    ≡ to_hex (normalize (b'a' ∷ 13 ∷ 10 ∷ b'b' ∷ 13 ∷ []))
unfolding flatten
compute_file_md5-normalize_example = compute_file_md5-normalize (λ bytes. bytes) split_pair

-- A compressor that stores its input.
abbrev stored : Zlib
stored = record { compress2 = λ xs. some xs; uncompress = λ n xs. some xs }

stored-Restores : Restores stored
stored-Restores xs ys h = cc

q_uncompress_std-q_compress_std_example :
    q_uncompress_std stored (0 ∷ 0 ∷ 0 ∷ 2 ∷ 7 ∷ 8 ∷ []) ≡ some (7 ∷ 8 ∷ [])
q_uncompress_std-q_compress_std_example =
    (q_uncompress_std-q_compress_std stored (7 ∷ 8 ∷ []) stored-Restores (omega arith)).0
      (0 ∷ 0 ∷ 0 ∷ 2 ∷ 7 ∷ 8 ∷ []) (unfold q_compress_std in refl)

-- ===== src/Util/Normalize.antt =====
-- `computeFileMD5` of src/core/util.cpp: the file is read in chunks, "\r\n" is taken for "\n", and
-- the bytes go to `MD5_Update`, whose context is modelled by the bytes that it has been given.
pub mod Chunks
use freekill_asio.Base.{
  ℕ, suc, ◌+◌, ◌-◌, Bool, true, false, ◌==◌, ltb, if◌then◌else◌, List, [], ◌∷◌, ◌++◌, length,
  replicate, take, drop, Option, none, some,
}
use freekill_asio.Util.Hex.{to_hex}

-- '\r' and '\n'
abbrev pub cr : ℕ
cr = 13

abbrev pub lf : ℕ
lf = 10

-- The locals `start` and `pending_cr`, and what was given to `MD5_Update` so far.
pub record Scan : Type 0 where
  pub start : ℕ
  pub pending_cr : Bool
  pub fed : List ℕ

-- `MD5_Update(&ctx, buffer + from, count)`
abbrev pub feed : List ℕ → ℕ → ℕ → Scan → Scan
feed buffer from count s = record s { fed = s.fed ++ take count (drop from buffer) }

abbrev pub feed_byte : ℕ → Scan → Scan
feed_byte c s = record s { fed = s.fed ++ c ∷ [] }

-- The branch `if (pending_cr)` for the character `c` at index `i`.
unfoldable pub settle : List ℕ → ℕ → ℕ → Scan → Scan
settle buffer i c s =
    if s.pending_cr
    then if c == lf
      then record (feed_byte lf (if ltb 0 i then feed buffer 0 i s else s)) {
        start = i + 1;
        pending_cr = false;
      }
      else record (feed_byte cr s) { start = i; pending_cr = false }
    else s

-- What precedes a carriage return at index `i` goes out.
unfoldable pub flush_before : List ℕ → ℕ → Scan → Scan
flush_before buffer i s = if ltb s.start i then feed buffer s.start (i - s.start) s else s

-- The loop over one buffer. The list is what is left of the buffer from index `i` on, so
-- `i + 1 < n` says that another character follows.
unfoldable pub scan : List ℕ → List ℕ → ℕ → Scan → Scan
unfolding settle flush_before
scan buffer [] i s = s
scan buffer (c ∷ []) i s =
    let t = settle buffer i c s in
    if c == cr then record (flush_before buffer i t) { pending_cr = true; start = i + 1 } else t
scan buffer (c ∷ d ∷ rest) i s =
    let t = settle buffer i c s in
    let u = flush_before buffer i t in
    let joined = scan buffer rest (i + 2) (record (feed_byte lf u) { start = i + 2 }) in
    let single = scan buffer (d ∷ rest) (i + 1) (record (feed_byte cr u) { start = i + 1 }) in
    let plain = scan buffer (d ∷ rest) (i + 1) t in
    if c == cr then (if d == lf then joined else single) else plain

-- One round of the outer loop: `start = 0`, the scan, and the rest of the buffer.
unfoldable pub flush_rest : List ℕ → Scan → Scan
flush_rest buffer s =
    if ltb s.start (length buffer) then feed buffer s.start (length buffer - s.start) s else s

unfoldable pub read_chunk : List ℕ → Scan → Scan
unfolding scan flush_rest
read_chunk buffer s = flush_rest buffer (scan buffer buffer 0 (record s { start = 0 }))

unfoldable pub read_chunks : List (List ℕ) → Scan → Scan
unfolding read_chunk
read_chunks [] s = s
read_chunks (b ∷ bs) s = read_chunks bs (read_chunk b s)

abbrev pub fresh_scan : Scan
fresh_scan = record { start = 0; pending_cr = false; fed = [] }

-- All that `MD5_Update` is given for a file that is read in these chunks.
unfoldable pub md5_input : List (List ℕ) → List ℕ
unfolding read_chunks
md5_input chunks =
    let s = read_chunks chunks fresh_scan in if s.pending_cr then s.fed ++ cr ∷ [] else s.fed

-- `none` is a file that cannot be opened; `md5` is OpenSSL's hash of what its context was given.
unfoldable pub compute_file_md5 : (List ℕ → List ℕ) → Option (List (List ℕ)) → List ℕ
compute_file_md5 md5 none = replicate 32 b'0'
compute_file_md5 md5 (some chunks) = to_hex (md5 (md5_input chunks))

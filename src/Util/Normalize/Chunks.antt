-- ===== src/Util/Normalize/Chunks.antt =====
-- The chunked scan computes the plain normalisation of the whole file.
use native.Mathlib.Numerals.{add-one, towards_suc}
use mathlib.Core.List.{append_assoc, append-nil, flatten}
use freekill_asio.Base.{
  Bool-cases, some, inl, inr, ◌≢◌, ℕ, zero, suc, ◌+◌, ◌-◌, ◌≡◌, refl, sym, ap, ◌∙◌, Bool, true,
  false, ◌&&◌, ◌==◌, ==_iff, if◌then◌else◌, List, [], ◌∷◌, ◌++◌, length, length-append, length-drop,
  take, drop, arith,
}
use freekill_asio.Util.Normalize.{
  Scan, cr, lf, settle, flush_before, scan, flush_rest, read_chunk, read_chunks, fresh_scan,
  md5_input, compute_file_md5,
}
use freekill_asio.Util.Hex.{to_hex}

abbrev pub starts_lf : List ℕ → Bool
starts_lf [] = false
starts_lf (c ∷ cs) = c == lf

-- A carriage return goes if a line feed follows.
unfoldable pub normalize : List ℕ → List ℕ
normalize [] = []
normalize (c ∷ cs) = let rest = normalize cs in if c == cr && starts_lf cs then rest else c ∷ rest

-- What is to come, when a carriage return may be held back.
abbrev to_come : Bool → List ℕ → List ℕ
to_come false ys = normalize ys
to_come true ys = normalize (cr ∷ ys)

take-length : (xs ys : List ℕ) → take (length xs) (xs ++ ys) ≡ xs
take-length [] ys = refl
take-length (x ∷ xs) ys = ap (◌∷◌ x) (take-length xs ys)

-- `seg` lies in the buffer from index `a` on, and `rest` from `i` on.
record Lies (buffer seg rest : List ℕ) (a i : ℕ) : Type 0 where
  at_start : drop a buffer ≡ seg ++ rest
  at_index : drop i buffer ≡ rest
  distance : i ≡ a + length seg

drop-suc : (i c : ℕ) (xs rest : List ℕ) → drop i xs ≡ c ∷ rest → drop (suc i) xs ≡ rest
drop-suc zero c [] rest h = ground arith
drop-suc zero c (x ∷ xs) rest h = ground arith
drop-suc (suc i) c [] rest h = ground arith
drop-suc (suc i) c (x ∷ xs) rest h = drop-suc i c xs rest h

Lies-next :
    {buffer seg rest : List ℕ} {c a i : ℕ}
    → Lies buffer seg (c ∷ rest) a i
    → Lies buffer (seg ++ c ∷ []) rest a (i + 1)
Lies-next {buffer} {seg} {rest} {c} {a} {i} l = record {
  at_start = l.at_start ∙ sym (append_assoc seg (c ∷ []) rest);
  at_index = rw add-one (drop-suc i c buffer rest l.at_index);
  distance = omega (arith, l.distance, length-append seg (c ∷ []));
}

Lies-restart :
    {buffer seg rest : List ℕ} {a i : ℕ} → Lies buffer seg rest a i → Lies buffer [] rest i i
Lies-restart l = record { at_start = l.at_index; at_index = l.at_index; distance = omega arith }

Lies-skip :
    {buffer seg rest : List ℕ} {c d a i : ℕ}
    → Lies buffer seg (c ∷ d ∷ rest) a i
    → Lies buffer [] rest (i + 2) (i + 2)
Lies-skip {buffer} {seg} {rest} {c} {d} {a} {i} l = record {
  at_start = later;
  at_index = later;
  distance = omega arith;
}
  where
    later : drop (i + 2) buffer ≡ rest
    later =
        simp towards_suc
          (drop-suc (suc i) d buffer rest (drop-suc i c buffer (d ∷ rest) l.at_index))

-- A segment that lies in the buffer is what `MD5_Update` gets of it.
Lies-take :
    {buffer seg rest : List ℕ} {a i : ℕ}
    → Lies buffer seg rest a i
    → take (i - a) (drop a buffer) ≡ seg
Lies-take {buffer} {seg} {rest} {a} {i} l =
    let e : i - a ≡ length seg = omega (arith, l.distance) in
    rw (e, l.at_start) (take-length seg rest)

abbrev with_fed : Scan → List ℕ → Scan
with_fed s bytes = record s { fed = bytes }

flush_before-fed :
    (buffer seg rest : List ℕ) (i : ℕ) (s : Scan)
    → Lies buffer seg rest s.start i
    → flush_before buffer i s ≡ with_fed s (s.fed ++ seg)
unfolding flush_before
flush_before-fed buffer [] rest i s l =
    ground (arith, ap (with_fed s) (append-nil s.fed), l.distance)
flush_before-fed buffer (c ∷ seg) rest i s l =
    ground (arith, ap (λ xs. with_fed s (s.fed ++ xs)) (Lies-take l), l.distance)

normalize_split : (c : ℕ) (ys : List ℕ) → c ≢ cr → normalize (c ∷ ys) ≡ c ∷ normalize ys
unfolding normalize
normalize_split c ys h = ground arith

flush_rest-fed :
    (buffer seg : List ℕ) (i : ℕ) (s : Scan)
    → Lies buffer seg [] s.start i
    → flush_rest buffer s ≡ with_fed s (s.fed ++ seg)
unfolding flush_rest
flush_rest-fed buffer [] i s l =
    ground
      (arith, ap (with_fed s) (append-nil s.fed), ap length l.at_start, length-drop s.start buffer)
flush_rest-fed buffer (c ∷ seg) i s l = ground (
  arith,
  ap (λ xs. with_fed s (s.fed ++ xs)) (Lies-take l),
  l.distance,
  ap length l.at_start,
  length-drop s.start buffer,
  append-nil seg,
)

-- The bytes that the scan has passed on, and what it will pass on for the rest of the file.
abbrev whole : Scan → List ℕ → List ℕ
whole s ys = s.fed ++ to_come s.pending_cr ys

settle_plain :
    (buffer : List ℕ) (i c : ℕ) (s : Scan) → s.pending_cr ≡ false → settle buffer i c s ≡ s
unfolding settle
settle_plain buffer i c s p = rw p refl

abbrev held : ℕ → List ℕ → Scan
held i bytes = record { start = i; pending_cr = true; fed = bytes }

abbrev moved : ℕ → List ℕ → Scan
moved i bytes = record { start = i; pending_cr = false; fed = bytes }

normalize-crlf : (ys : List ℕ) → normalize (cr ∷ lf ∷ ys) ≡ lf ∷ normalize ys
unfolding normalize
normalize-crlf ys = refl

normalize-lone : (d : ℕ) (ys : List ℕ) → d ≢ lf → normalize (cr ∷ d ∷ ys) ≡ cr ∷ normalize (d ∷ ys)
unfolding normalize
normalize-lone d ys h = ground arith

scan_plain :
    (buffer seg rest : List ℕ) (i : ℕ) (s : Scan) (ys : List ℕ)
    → s.pending_cr ≡ false
    → Lies buffer seg rest s.start i
    → whole (flush_rest buffer (scan buffer rest i s)) ys ≡ (s.fed ++ seg) ++ normalize (rest ++ ys)
unfolding scan
scan_plain buffer seg [] i s ys p l = rw (flush_rest-fed buffer seg i s l, p) refl
scan_plain buffer seg (c ∷ []) i s ys p l =
    rw (settle_plain buffer i c s p) (elim (Bool-cases (c == cr)) [
      | inl e ↦
          rw
            (
              e,
              (==_iff c cr).0 e,
              flush_before-fed buffer seg (c ∷ []) i s l,
              flush_rest-fed buffer [] (i + 1) (held (i + 1) (s.fed ++ seg))
                  (Lies-restart (Lies-next l)),
            )
            (rw append-nil refl)
      | inr e ↦
          rw (e, flush_rest-fed buffer (seg ++ c ∷ []) (i + 1) s (Lies-next l), p)
            (rw (normalize_split c ys (ground arith)) (simp append_assoc))
    ])
scan_plain buffer seg (c ∷ d ∷ rest) i s ys p l =
    rw (settle_plain buffer i c s p, flush_before-fed buffer seg (c ∷ d ∷ rest) i s l, p)
      (elim (Bool-cases (c == cr)) [
        | inr e ↦ rw e (
            scan_plain buffer (seg ++ c ∷ []) (d ∷ rest) (i + 1) (moved s.start s.fed) ys refl
              (Lies-next l)
            ∙ rw (normalize_split c (d ∷ (rest ++ ys)) (ground arith)) (simp append_assoc))
        | inl e ↦
            rw (e, (==_iff c cr).0 e)
              (elim (Bool-cases (d == lf)) [
                | inl f ↦
                    rw (f, (==_iff d lf).0 f)
                      (scan_plain buffer [] rest (i + 2) (moved (i + 2) ((s.fed ++ seg) ++ lf ∷ []))
                          ys refl (Lies-skip l)
                        ∙ rw (normalize-crlf (rest ++ ys)) (simp (append_assoc, append-nil)))
                | inr f ↦ rw f (
                    scan_plain buffer [] (d ∷ rest) (i + 1)
                      (moved (i + 1) ((s.fed ++ seg) ++ cr ∷ [])) ys refl
                      (Lies-restart (Lies-next l))
                    ∙ rw (normalize-lone d (rest ++ ys) (ground arith))
                        (simp (append_assoc, append-nil)))
              ])
      ])

-- A carriage return held back from the last chunk meets the first character of this one.
scan-held-lf :
    (buffer rest : List ℕ) (bytes : List ℕ)
    → scan buffer (lf ∷ rest) 0 (held 0 bytes) ≡ scan buffer rest 1 (moved 1 (bytes ++ lf ∷ []))
unfolding scan settle
scan-held-lf buffer [] bytes = refl
scan-held-lf buffer (d ∷ rest) bytes = refl

scan-held-ne :
    (buffer : List ℕ) (c : ℕ) (rest bytes : List ℕ)
    → (c == lf) ≡ false
    → scan buffer (c ∷ rest) 0 (held 0 bytes)
      ≡ scan buffer (c ∷ rest) 0 (moved 0 (bytes ++ cr ∷ []))
unfolding scan settle
scan-held-ne buffer c [] bytes h = rw h refl
scan-held-ne buffer c (d ∷ rest) bytes h = rw h refl

Lies-whole : (buffer : List ℕ) → Lies buffer [] buffer 0 0
Lies-whole buffer = record { at_start = refl; at_index = refl; distance = omega arith }

chunk-whole :
    (buffer : List ℕ) (pending : Bool) (bytes ys : List ℕ)
    → whole
        (flush_rest buffer
          (scan buffer buffer 0 (record { start = 0; pending_cr = pending; fed = bytes })))
        ys
      ≡ bytes ++ to_come pending (buffer ++ ys)
chunk-whole buffer false bytes ys =
    scan_plain buffer [] buffer 0 (moved 0 bytes) ys refl (Lies-whole buffer) ∙ simp append-nil
chunk-whole [] true bytes ys = unfold scan flush_rest in refl
chunk-whole (c ∷ rest) true bytes ys = elim (Bool-cases (c == lf)) [
  | inl e ↦
      rw ((==_iff c lf).0 e, scan-held-lf (lf ∷ rest) rest bytes)
        (scan_plain (lf ∷ rest) [] rest 1 (moved 1 (bytes ++ lf ∷ [])) ys refl
            (record { at_start = refl; at_index = refl; distance = omega arith })
          ∙ rw (normalize-crlf (rest ++ ys)) (simp (append_assoc, append-nil)))
  | inr e ↦ rw (scan-held-ne (c ∷ rest) c rest bytes e) (
      scan_plain (c ∷ rest) [] (c ∷ rest) 0 (moved 0 (bytes ++ cr ∷ [])) ys refl
        (Lies-whole (c ∷ rest))
      ∙ rw (normalize-lone c (rest ++ ys) (ground arith)) (simp (append_assoc, append-nil)))
]

read_chunks-whole :
    (chunks : List (List ℕ)) (s : Scan) → whole (read_chunks chunks s) [] ≡ whole s (flatten chunks)
unfolding read_chunks flatten
read_chunks-whole [] s = refl
read_chunks-whole (b ∷ bs) s =
    read_chunks-whole bs (read_chunk b s)
    ∙ unfold read_chunk in chunk-whole b s.pending_cr s.fed (flatten bs)

close_whole :
    (pending : Bool) (bytes r : List ℕ)
    → bytes ++ to_come pending [] ≡ r
    → (if pending then bytes ++ cr ∷ [] else bytes) ≡ r
unfolding normalize
close_whole true bytes r h = h
close_whole false bytes r h = sym (append-nil bytes) ∙ h

md5_input-normalize : (chunks : List (List ℕ)) → md5_input chunks ≡ normalize (flatten chunks)
unfolding md5_input
md5_input-normalize chunks = close_whole _ _ _ (read_chunks-whole chunks fresh_scan)

-- However the file is cut into chunks, its hash is that of the whole file with each carriage return
-- dropped that a line feed follows, also where the two stand in different chunks.
pub compute_file_md5-normalize :
    (md5 : List ℕ → List ℕ) (chunks : List (List ℕ))
    → compute_file_md5 md5 (some chunks) ≡ to_hex (md5 (normalize (flatten chunks)))
unfolding compute_file_md5
compute_file_md5-normalize md5 chunks = ap (λ b. to_hex (md5 b)) (md5_input-normalize chunks)

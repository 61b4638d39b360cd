-- ===== src/Network/Buffer/Kept.antt =====
-- The loop of `handleBuffer` ends, and what it keeps of the buffer.
use freekill_asio.Base.{
  if_cases, ◌^◌, ℤ, pos, negsuc, to_int64, ℕ, zero, suc, ◌-◌, ◌≤◌, ◌<◌, ◌≡◌, refl, sym, subst, ap,
  ◌∙◌, Bool, true, false, not, ◌&&◌, ◌==◌, ltb, if◌then◌else◌, List, [], ◌∷◌, ◌++◌, length,
  length-drop, drop-drop, drop, some, Bool-cases, inl, inr, arith,
}
use freekill_asio.Network.Builder.{
  Packet, PacketBuilder, Item, new_builder, on_item, on_items, next_field, handle_integer,
  handle_bytes, start_array, negint64_value, uint8, uint16, uint32, uint64, negint8, negint16,
  negint32, negint64, byte_string, array_start, other,
}
use freekill_asio.Network.Buffer.{
  Status, Decoder, Cursor, Handled, is_error, is_finished, decode_item, decode_loop, handle_buffer,
  keep_rest, start_cursor,
}

-- What libcbor documents: it reads no more than it is given, a decoded item takes at least a byte,
-- and no callback is called where the data is incomplete or malformed.
pub record IsStreamDecoder (decode : Decoder) : Type 0 where
  pub reads_within : (xs : List ℕ) → (decode xs).read ≤ length xs
  pub reads_some : (xs : List ℕ) → is_finished (decode xs).status ≡ true → 0 < (decode xs).read
  pub quiet : (xs : List ℕ) → is_finished (decode xs).status ≡ false → (decode xs).item ≡ other

-- The decoder reads these items one after another, and leaves the rest.
pub data Reads (decode : Decoder) : List ℕ → List Item → List ℕ → Type 0 where
  done : {xs : List ℕ} → Reads decode xs [] xs
  read_on :
      {xs rest : List ℕ} {items : List Item}
      → is_finished (decode xs).status ≡ true
      → Reads decode (drop (decode xs).read xs) items rest
      → Reads decode xs ((decode xs).item ∷ items) rest

-- Where the loop stands in the buffer.
pub record IsPlaced (buffer : List ℕ) (c : Cursor) : Type 0 where
  pub place : c.rest ≡ drop c.total_consumed buffer
  pub within : c.total_consumed ≤ length buffer
  pub real : c.real_consumed ≡ (if c.builder.handled == 0 then 0 else c.total_consumed)

next_field-handled : (b : PacketBuilder) → b.handled ≤ (next_field b).handled
unfolding next_field
next_field-handled b = ground arith

handle_integer-handled : (v : ℤ) (b : PacketBuilder) → b.handled ≤ (handle_integer v b).handled
unfolding handle_integer
handle_integer-handled v b =
    let P : PacketBuilder → Type 0 = λ c. b.handled ≤ c.handled in
    let step : (p : Packet) → P (next_field (record b { pkt = p })) =
      λ p. next_field-handled (record b { pkt = p }) in
    if_cases P (not b.valid_packet) (λ _. omega arith)
      λ _.
        if_cases P (b.current_field == 0) (λ _. step _)
          λ _.
            if_cases P (b.current_field == 1) (λ _. step _)
              λ _.
                if_cases P (b.current_field == 4) (λ _. step _)
                  λ _. if_cases P (b.current_field == 5) (λ _. step _) λ _. omega arith

handle_bytes-handled : (v : List ℕ) (b : PacketBuilder) → b.handled ≤ (handle_bytes v b).handled
unfolding handle_bytes
handle_bytes-handled v b =
    let P : PacketBuilder → Type 0 = λ c. b.handled ≤ c.handled in
    let step : (p : Packet) → P (next_field (record b { pkt = p })) =
      λ p. next_field-handled (record b { pkt = p }) in
    if_cases P (not b.valid_packet) (λ _. omega arith)
      λ _.
        if_cases P (b.current_field == 2) (λ _. step _)
          λ _. if_cases P (b.current_field == 3) (λ _. step _) λ _. omega arith

on_item-handled : (x : Item) (b : PacketBuilder) → b.handled ≤ (on_item x b).handled
unfolding on_item
on_item-handled (uint8 n) b = handle_integer-handled (pos n) b
on_item-handled (uint16 n) b = handle_integer-handled (pos n) b
on_item-handled (uint32 n) b = handle_integer-handled (pos n) b
on_item-handled (uint64 n) b = handle_integer-handled (to_int64 n) b
on_item-handled (negint8 n) b = handle_integer-handled (negsuc n) b
on_item-handled (negint16 n) b = handle_integer-handled (negsuc n) b
on_item-handled (negint32 n) b = handle_integer-handled (pos (2 ^ 32 - 1 - n)) b
on_item-handled (negint64 n) b = handle_integer-handled (negint64_value n) b
on_item-handled (byte_string v) b = handle_bytes-handled v b
on_item-handled (array_start n) b = unfold start_array in omega arith
on_item-handled other b = omega arith

on_item-other : (b : PacketBuilder) → on_item other b ≡ b
unfolding on_item
on_item-other b = refl

module _ (decode : Decoder) (d : IsStreamDecoder decode) (buffer : List ℕ) where
  stopped :
      (c : Cursor)
      → (is_finished (decode c.rest).status && not ((decode c.rest).read == 0)) ≡ false
      → is_finished (decode c.rest).status ≡ false
  stopped c h = elim (Bool-cases (is_finished (decode c.rest).status)) [
    | inr e ↦ e
    | inl e ↦ ground (arith, d.reads_some c.rest e)
  ]

  decode_item-IsPlaced : (c : Cursor) → IsPlaced buffer c → IsPlaced buffer (decode_item decode c)
  unfolding decode_item
  decode_item-IsPlaced c v =
      if_cases (IsPlaced buffer)
        (is_finished (decode c.rest).status && not ((decode c.rest).read == 0))
        (λ go. record {
          place =
              ap (drop (decode c.rest).read) v.place
              ∙ drop-drop c.total_consumed (decode c.rest).read buffer;
          within = ground (
            arith,
            d.reads_within c.rest,
            ap length v.place,
            length-drop c.total_consumed buffer,
          );
          real = ground (arith, v.real, on_item-handled (decode c.rest).item c.builder);
        })
        (λ stop.
          let q : (decode c.rest).item ≡ other = d.quiet c.rest (stopped c stop) in
          record { place = v.place; within = v.within; real = rw (q, on_item-other) v.real })

  last_stat-decode_item :
      (c : Cursor)
      → (is_finished (decode c.rest).status && not ((decode c.rest).read == 0)) ≡ false
      → is_finished (decode_item decode c).last_stat ≡ false
  unfolding decode_item
  last_stat-decode_item c stop = ground (arith, stopped c stop)

  -- What a round does to the cursor if it decodes an item, and if it does not.
  went :
      (c : Cursor)
      → (is_finished (decode c.rest).status && not ((decode c.rest).read == 0)) ≡ true
      → ((decode_item decode c).rest ≡ drop (decode c.rest).read c.rest)
        × ((decode_item decode c).builder ≡ on_item (decode c.rest).item c.builder)
  unfolding decode_item
  went c go = (ground (arith, go), ground (arith, go))

  stood :
      (c : Cursor)
      → (is_finished (decode c.rest).status && not ((decode c.rest).read == 0)) ≡ false
      → ((decode_item decode c).rest ≡ c.rest)
        × ((decode_item decode c).builder ≡ c.builder)
        × ((decode_item decode c).last_stat ≡ (decode (decode_item decode c).rest).status)
  unfolding decode_item
  stood c stop =
      let q : (decode c.rest).item ≡ other = d.quiet c.rest (stopped c stop) in
      (ground (arith, stop), rw (stop, q) (on_item-other c.builder), ground (arith, stop))

  decode_item-shorter :
      (c : Cursor) (fuel : ℕ)
      → (is_finished (decode c.rest).status && not ((decode c.rest).read == 0)) ≡ true
      → length c.rest < suc fuel
      → length (decode_item decode c).rest < fuel
  unfolding decode_item
  decode_item-shorter c fuel go h =
      ground (arith, d.reads_within c.rest, length-drop (decode c.rest).read c.rest)

  decode_loop_total :
      (fuel : ℕ) (c : Cursor)
      → length c.rest < fuel
      → IsPlaced buffer c
      → (e : Cursor) × (decode_loop fuel decode c ≡ some e)
        × IsPlaced buffer e
        × (e.last_stat ≡ (decode e.rest).status)
        × (is_finished e.last_stat ≡ false)
        × (items : List Item) × Reads decode c.rest items e.rest
        × (e.builder ≡ on_items items c.builder)
  unfolding decode_loop on_items
  decode_loop_total zero c h v = elim h [ ]
  decode_loop_total (suc fuel) c h v =
      elim (Bool-cases (is_finished (decode c.rest).status && not ((decode c.rest).read == 0))) [
        | inl go ↦
            let (e, f, p, l, t, items, rs, b) =
              decode_loop_total fuel (decode_item decode c) (decode_item-shorter c fuel go h)
                (decode_item-IsPlaced c v) in
            rw go (
              e,
              f,
              p,
              l,
              t,
              (decode c.rest).item ∷ items,
              read_on (ground (arith, go))
                  (subst (λ r. Reads decode r items e.rest) (went c go).0 rs),
              b ∙ ap (on_items items) (went c go).1,
            )
        | inr stop ↦ rw stop (
          decode_item decode c,
          refl,
          decode_item-IsPlaced c v,
          (stood c stop).2,
          last_stat-decode_item c stop,
          [],
          subst (λ r. Reads decode c.rest [] r) (sym (stood c stop).0) done,
          (stood c stop).1,
        )
      ]

abbrev pub is_nil : List ℕ → Bool
is_nil [] = true
is_nil (x ∷ xs) = false

-- What is kept of a buffer of which the rest is not decoded.
abbrev pub kept_bytes : List ℕ → Status → PacketBuilder → List ℕ → List ℕ
kept_bytes buffer status b rest =
    if is_error status
    then buffer
    else if b.handled == 0
    then (if b.valid_packet && is_nil rest then [] else buffer)
    else (if ltb (length buffer - length rest) (length rest) then rest else [])

keep_rest-eq :
    (buffer : List ℕ) (c : Cursor)
    → IsPlaced buffer c
    → keep_rest buffer c ≡ kept_bytes buffer c.last_stat c.builder c.rest
unfolding keep_rest
keep_rest-eq buffer c v =
    ground
      (arith, v.place, v.real, v.within, ap length v.place, length-drop c.total_consumed buffer)

start-IsPlaced : (buffer : List ℕ) (pkt : Packet) → IsPlaced buffer (start_cursor buffer pkt)
unfolding new_builder
start-IsPlaced buffer pkt = record { place = refl; within = omega arith; real = refl }

-- For a decoder that does as libcbor documents, the call ends: it reads items from what was kept and
-- what was read until it meets bytes, `rest`, of which no item can be decoded. The builder that has
-- been given just these items has the packets that are passed on. Kept is the whole buffer after an
-- error, and where no packet was completed (but nothing, if a packet has begun and all its items so
-- far are decoded). Where packets were completed, only `rest` is kept, and only if it is longer than
-- all that was decoded.
pub handle_buffer_kept :
    (decode : Decoder) (pkt : Packet) (kept read : List ℕ)
    → IsStreamDecoder decode
    → (items : List Item) × (rest : List ℕ) × Reads decode (kept ++ read) items rest
      × (is_finished (decode rest).status ≡ false)
      × (handle_buffer decode pkt kept read
          ≡ some (record {
            cbor_buffer =
                kept_bytes
                  (kept ++ read)
                  (decode rest).status
                  (on_items items (new_builder pkt))
                  rest;
            got = (on_items items (new_builder pkt)).got;
            status = (decode rest).status;
          }))
unfolding handle_buffer
handle_buffer_kept decode pkt kept read d =
    let buffer : List ℕ = kept ++ read in
    let (c, e, v, l, f, items, rs, b) =
      decode_loop_total decode d buffer (suc (length buffer)) (start_cursor buffer pkt)
        (omega arith) (start-IsPlaced buffer pkt) in
    (
      items,
      c.rest,
      rs,
      subst (λ st. is_finished st ≡ false) l f,
      rw e (ap some (left c items b l v)),
    )
  where
    left :
        (c : Cursor) (items : List Item)
        → c.builder ≡ on_items items (new_builder pkt)
        → c.last_stat ≡ (decode c.rest).status
        → IsPlaced (kept ++ read) c
        → ◌≡◌ {A = Handled}
            (record {
              cbor_buffer = keep_rest (kept ++ read) c;
              got = c.builder.got;
              status = c.last_stat;
            })
            (record {
              cbor_buffer =
                  kept_bytes
                    (kept ++ read)
                    (decode c.rest).status
                    (on_items items (new_builder pkt))
                    c.rest;
              got = (on_items items (new_builder pkt)).got;
              status = (decode c.rest).status;
            })
    left c items b l v = rw (keep_rest-eq (kept ++ read) c v, b, l) refl

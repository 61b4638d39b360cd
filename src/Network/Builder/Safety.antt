-- ===== src/Network/Builder/Safety.antt =====
-- What the builder guarantees of any stream of items, well-formed or not.
use freekill_asio.Base.{
  if_cases, not, ℕ, ◌-◌, ◌^◌, ◌<◌, ◌≡◌, ◌≢◌, refl, ◌⊎◌, ℤ, pos, negsuc, true, false, ◌==◌, List, [],
  ◌∷◌, ◌++◌, length, length-append, arith,
}
use freekill_asio.Network.Builder.{
  Packet, PacketBuilder, handle_integer, handle_bytes, start_array, next_field, new_builder,
  on_item, on_items, Item, uint8, uint16, uint32, uint64, negint8, negint16, negint32, negint64,
  negint64_value, byte_string, array_start, other, to_int64,
}

abbrev pub HasPacketLen : Packet → Type 0
HasPacketLen p = (p.len ≡ 4) ⊎ (p.len ≡ 6)

abbrev pub AllHavePacketLen : List Packet → Type 0
AllHavePacketLen [] = Unit {0}
AllHavePacketLen (p ∷ ps) = HasPacketLen p × AllHavePacketLen ps

pub record IsSound (b : PacketBuilder) : Type 0 where
  pub valid_len : b.valid_packet ≡ true → HasPacketLen b.pkt
  pub got_len : AllHavePacketLen b.got
  pub counted : b.handled ≡ length b.got

AllHavePacketLen-snoc :
    (ps : List Packet) (p : Packet)
    → HasPacketLen p
    → AllHavePacketLen ps
    → AllHavePacketLen (ps ++ p ∷ [])
AllHavePacketLen-snoc [] p h hs = (h, tt)
AllHavePacketLen-snoc (q ∷ ps) p h hs = (hs.0, AllHavePacketLen-snoc ps p h hs.1)

next_field-IsSound : (b : PacketBuilder) → HasPacketLen b.pkt → IsSound b → IsSound (next_field b)
unfolding next_field
next_field-IsSound b h v = record {
  valid_len = λ t. ground arith;
  got_len = ground (arith, AllHavePacketLen-snoc b.got b.pkt h v.got_len);
  counted = ground (arith, length-append b.got (b.pkt ∷ []));
}

-- A field is set, and the builder goes on to the next one.
step-IsSound :
    (b : PacketBuilder) (p : Packet)
    → p.len ≡ b.pkt.len
    → b.valid_packet ≡ true
    → IsSound b
    → IsSound (next_field (record b { pkt = p }))
step-IsSound b p e t v =
    next_field-IsSound (record b { pkt = p }) (ground (arith, v.valid_len t))
      (record {
        valid_len = λ _. ground (arith, v.valid_len t);
        got_len = v.got_len;
        counted = v.counted;
      })

spoil-IsSound : (b : PacketBuilder) → IsSound b → IsSound (record b { valid_packet = false })
spoil-IsSound b v = record { valid_len = λ t. cc; got_len = v.got_len; counted = v.counted }

handle_integer-IsSound :
    (value : ℤ) (b : PacketBuilder) → IsSound b → IsSound (handle_integer value b)
unfolding handle_integer
handle_integer-IsSound value b v =
    if_cases IsSound (not b.valid_packet) (λ _. v)
      λ n.
        let t : b.valid_packet ≡ true = ground arith in
        if_cases IsSound (b.current_field == 0) (λ _. step-IsSound b _ refl t v)
          λ _.
            if_cases IsSound (b.current_field == 1) (λ _. step-IsSound b _ refl t v)
              λ _.
                if_cases IsSound (b.current_field == 4) (λ _. step-IsSound b _ refl t v)
                  λ _.
                    if_cases IsSound (b.current_field == 5) (λ _. step-IsSound b _ refl t v)
                      λ _. spoil-IsSound b v

handle_bytes-IsSound :
    (bytes : List ℕ) (b : PacketBuilder) → IsSound b → IsSound (handle_bytes bytes b)
unfolding handle_bytes
handle_bytes-IsSound bytes b v =
    if_cases IsSound (not b.valid_packet) (λ _. v)
      λ n.
        let t : b.valid_packet ≡ true = ground arith in
        if_cases IsSound (b.current_field == 2) (λ _. step-IsSound b _ refl t v)
          λ _.
            if_cases IsSound (b.current_field == 3) (λ _. step-IsSound b _ refl t v)
              λ _. spoil-IsSound b v

start_array-IsSound : (size : ℕ) (b : PacketBuilder) → IsSound b → IsSound (start_array size b)
unfolding start_array
start_array-IsSound size b v = record {
  valid_len = λ t. ground arith;
  got_len = v.got_len;
  counted = v.counted;
}

pub on_item-IsSound : (x : Item) (b : PacketBuilder) → IsSound b → IsSound (on_item x b)
unfolding on_item
on_item-IsSound (uint8 n) b v = handle_integer-IsSound (pos n) b v
on_item-IsSound (uint16 n) b v = handle_integer-IsSound (pos n) b v
on_item-IsSound (uint32 n) b v = handle_integer-IsSound (pos n) b v
on_item-IsSound (uint64 n) b v = handle_integer-IsSound (to_int64 n) b v
on_item-IsSound (negint8 n) b v = handle_integer-IsSound (negsuc n) b v
on_item-IsSound (negint16 n) b v = handle_integer-IsSound (negsuc n) b v
on_item-IsSound (negint32 n) b v = handle_integer-IsSound (pos (2 ^ 32 - 1 - n)) b v
on_item-IsSound (negint64 n) b v = handle_integer-IsSound (negint64_value n) b v
on_item-IsSound (byte_string bytes) b v = handle_bytes-IsSound bytes b v
on_item-IsSound (array_start size) b v = start_array-IsSound size b v
on_item-IsSound other b v = v

on_items-IsSound : (xs : List Item) (b : PacketBuilder) → IsSound b → IsSound (on_items xs b)
unfolding on_items
on_items-IsSound [] b v = v
on_items-IsSound (x ∷ xs) b v = on_items-IsSound xs (on_item x b) (on_item-IsSound x b v)

-- Whatever a client sends, a new builder passes on only packets of 4 or 6 items, and `handled`
-- counts the packets that were passed on.
pub on_items-new_builder-IsSound :
    (xs : List Item) (p : Packet) → IsSound (on_items xs (new_builder p))
unfolding new_builder
on_items-new_builder-IsSound xs p =
    on_items-IsSound xs (new_builder p)
      (record { valid_len = λ t. cc; got_len = tt; counted = refl })

-- An integer from -2^31 to -1 that comes in four bytes is right where the builder casts it to
-- `int`, and wrong where it stands in the `int64_t` timestamp: there 2^32 is added to it.
pub negint32_timestamp :
    (v : ℕ) (b : PacketBuilder)
    → v < 2 ^ 31
    → b.valid_packet ≡ true
    → (b.current_field ≡ 0 → b.pkt.len ≢ 1 → (on_item (negint32 v) b).pkt.request_id ≡ negsuc v)
      × (b.current_field ≡ 5
          → b.pkt.len ≡ 6
          → (on_item (negint32 v) b).pkt.timestamp ≡ pos (2 ^ 32 - 1 - v))
unfolding on_item
negint32_timestamp v b h t = (λ z n. ground arith, λ z n. ground arith)

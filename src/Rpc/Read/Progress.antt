-- ===== src/Rpc/Read/Progress.antt =====
-- Reading a packet ends, and what it keeps.
use freekill_asio.Base.{
  ℕ, zero, suc, ◌+◌, ◌-◌, ◌≤◌, ◌<◌, ◌≡◌, ◌≢◌, refl, ◌∙◌, false, List, length, drop, length-drop,
  drop-drop, Option, some, ◌==◌, Bool-cases, ◌⊎◌, inl, inr, arith,
}
use freekill_asio.Network.Buffer.{finished, is_finished}
use freekill_asio.Rpc.Packet.{RpcPacket}
use freekill_asio.Rpc.Builder.{error, Builder, new_builder, on_item}
use freekill_asio.Rpc.Builder.Stuck.{on_item-error}
use freekill_asio.Rpc.Read.{Decoder, is_fin, Reading, read_loop, read_packet}

-- libcbor reads no more than there is, and has decoded an item only where it has read some bytes.
pub record IsDecoder (decode : Decoder) : Type 0 where
  pub reads_within : (xs : List ℕ) → (decode xs).read ≤ length xs
  pub stops : (xs : List ℕ) → (decode xs).read ≡ 0 → is_finished (decode xs).status ≡ false

-- What may come of reading a packet from a buffer: a packet, and the bytes after it, of which there
-- are fewer; or none, and the whole buffer is kept.
abbrev pub IsReading : List ℕ → Option Reading → Type 0
IsReading buffer o =
    (r : Reading) × (o ≡ some r)
    × (((r.status ≡ finished) × (n : ℕ) × (r.rest ≡ drop n buffer) × (0 < n) × (n ≤ length buffer))
        ⊎ ((is_finished r.status ≡ false) × (r.rest ≡ buffer)))

module _ (decode : Decoder) (d : IsDecoder decode) (buffer : List ℕ) where
  read_loop_total :
      (fuel n : ℕ) (b : Builder)
      → n ≤ length buffer
      → length buffer - n < fuel
      → IsReading buffer (read_loop fuel decode buffer (drop n buffer) b)
  unfolding read_loop
  read_loop_total zero n b l m = absurd (omega arith)
  read_loop_total (suc fuel) n b l m =
      let r = decode (drop n buffer) in
      let w = d.reads_within (drop n buffer) in
      elim (Bool-cases (r.read == 0)) [
        | inl z ↦ (
          record { rest = buffer; status = r.status; pkt = (on_item r.item b).pkt },
          ground (arith, z),
          inr (d.stops (drop n buffer) (ground (arith, z)), refl),
        )
        | inr z ↦ elim (Bool-cases (is_fin (on_item r.item b))) [
          | inl f ↦ (
            record {
              rest = drop r.read (drop n buffer);
              status = finished;
              pkt = (on_item r.item b).pkt;
            },
            ground (arith, z, f),
            inl (
              refl,
              n + r.read,
              drop-drop n r.read buffer,
              ground (arith, z),
              ground (arith, w, l, length-drop n buffer),
            ),
          )
          | inr f ↦
              let (x, e, h) =
                read_loop_total fuel (n + r.read) (on_item r.item b)
                  (ground (arith, w, l, length-drop n buffer))
                  (ground (arith, z, m, w, l, length-drop n buffer)) in
              (x, ground (arith, z, f, e, drop-drop n r.read buffer), h)
        ]
      ]

  read_loop_stuck :
      (fuel n : ℕ) (b : Builder)
      → n ≤ length buffer
      → length buffer - n < fuel
      → b.state ≡ error
      → (r : Reading) × (read_loop fuel decode buffer (drop n buffer) b ≡ some r)
        × (is_finished r.status ≡ false)
        × (r.rest ≡ buffer)
  unfolding read_loop
  read_loop_stuck zero n b l m s = absurd (omega arith)
  read_loop_stuck (suc fuel) n b l m s =
      let r = decode (drop n buffer) in
      let w = d.reads_within (drop n buffer) in
      elim (Bool-cases (r.read == 0)) [
        | inl z ↦ (
          record { rest = buffer; status = r.status; pkt = (on_item r.item b).pkt },
          ground (arith, z),
          d.stops (drop n buffer) (ground (arith, z)),
          refl,
        )
        | inr z ↦
            let (x, e, h, k) =
              read_loop_stuck fuel (n + r.read) b (ground (arith, w, l, length-drop n buffer))
                (ground (arith, z, m, w, l, length-drop n buffer)) s in
            (x, ground (arith, z, s, e, on_item-error r.item b s, drop-drop n r.read buffer), h, k)
      ]

  -- Reading a packet comes to an end, with the fuel that it is given: with a packet, and the bytes
  -- after it, of which there are fewer; or with none, and the whole buffer.
  pub read_packet_total : (p : RpcPacket) → IsReading buffer (read_packet decode buffer p)
  unfolding read_packet
  read_packet_total p =
      read_loop_total (suc (length buffer)) 0 (new_builder p) (omega arith) (omega arith)

  -- `n` bytes have been read and have led a new builder to `b`, which is not done.
  pub data Consumed (p : RpcPacket) : ℕ → Builder → Type 0 where
    start : Consumed p 0 (new_builder p)
    more :
        {n : ℕ} {b : Builder}
        → Consumed p n b
        → (decode (drop n buffer)).read ≢ 0
        → is_fin (on_item (decode (drop n buffer)).item b) ≡ false
        → Consumed p (n + (decode (drop n buffer)).read) (on_item (decode (drop n buffer)).item b)

  abbrev IsAt : RpcPacket → ℕ → Builder → Type 0
  IsAt p n b =
      (fuel : ℕ) × (n ≤ length buffer)
      × (length buffer - n < fuel)
      × (read_packet decode buffer p ≡ read_loop fuel decode buffer (drop n buffer) b)

  further :
      (p : RpcPacket) (n : ℕ) (b : Builder)
      → IsAt p n b
      → (decode (drop n buffer)).read ≢ 0
      → is_fin (on_item (decode (drop n buffer)).item b) ≡ false
      → IsAt p (n + (decode (drop n buffer)).read) (on_item (decode (drop n buffer)).item b)
  unfolding read_loop
  further p n b (zero, l, m, e) z f = absurd (omega arith)
  further p n b (suc fuel, l, m, e) z f =
      let r = decode (drop n buffer) in
      let w = d.reads_within (drop n buffer) in
      (
        fuel,
        ground (arith, w, l, length-drop n buffer),
        ground (arith, z, m, w, l, length-drop n buffer),
        e ∙ ground (arith, z, f, drop-drop n r.read buffer),
      )

  Consumed-IsAt : (p : RpcPacket) (n : ℕ) (b : Builder) → Consumed p n b → IsAt p n b
  unfolding read_packet
  Consumed-IsAt p _ _ start = (suc (length buffer), omega arith, omega arith, refl)
  Consumed-IsAt p _ _ (more {n} {b} c z f) = further p n b (Consumed-IsAt p n b c) z f

  -- Once the items at the start of the buffer have led the builder into its error state, no packet
  -- is read, and the whole buffer is kept, so that the next read starts at the same items.
  pub read_packet_stuck :
      (p : RpcPacket) (n : ℕ) (b : Builder)
      → Consumed p n b
      → b.state ≡ error
      → (r : Reading) × (read_packet decode buffer p ≡ some r)
        × (is_finished r.status ≡ false)
        × (r.rest ≡ buffer)
  read_packet_stuck p n b c s =
      let (fuel, l, m, e) = Consumed-IsAt p n b c in
      let (r, f, g, h) = read_loop_stuck fuel n b l m s in (r, e ∙ f, g, h)

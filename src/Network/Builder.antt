-- ===== src/Network/Builder.antt =====
-- `Packet` and `PacketBuilder` of src/network/client_socket.h and client_socket.cpp: the builder is
-- called for each CBOR item, and passes on a packet when an array of 4 or 6 items is complete.
pub mod Stream
pub mod Safety
use freekill_asio.Base.{
  ℕ, suc, ◌+◌, ◌-◌, ◌%◌, ◌^◌, ℤ, pos, negsuc, to_int, to_int64, Bool, true, false, not, ◌&&◌, ◌||◌,
  ◌==◌, if◌then◌else◌, List, [], ◌∷◌, ◌++◌, Option, none, some,
}

-- `type` is `kind` here, `_len` is `len`; a string is the list of its bytes.
pub record Packet : Type 0 where
  pub request_id : ℤ
  pub kind : ℤ
  pub timeout : ℤ
  pub len : ℕ
  pub timestamp : ℤ
  pub command : List ℕ
  pub cbor_data : List ℕ

pub record PacketBuilder : Type 0 where
  pub pkt : Packet
  pub current_field : ℕ
  pub valid_packet : Bool
  pub handled : ℕ
  -- the packets given to `message_got_callback`, oldest first
  pub got : List Packet

-- What `reset` leaves alone keeps its old value: `request_id`, `timeout` and `timestamp`.
abbrev pub cleared : Packet → Packet
cleared p = record p { kind = pos 0; len = 0; command = []; cbor_data = [] }

unfoldable pub reset : PacketBuilder → PacketBuilder
reset b = record b { pkt = cleared b.pkt; current_field = 0; valid_packet = false }

-- The constructor, over a packet whose fields hold anything.
unfoldable pub new_builder : Packet → PacketBuilder
unfolding reset
new_builder p =
    reset (record { pkt = p; current_field = 0; valid_packet = false; handled = 0; got = [] })

unfoldable pub next_field : PacketBuilder → PacketBuilder
unfolding reset
next_field b =
    let c = record b { current_field = b.current_field + 1 } in
    if c.current_field == c.pkt.len
    then reset (record c { got = c.got ++ c.pkt ∷ []; handled = c.handled + 1 })
    else c

abbrev spoil : PacketBuilder → PacketBuilder
spoil b = record b { valid_packet = false }

abbrev set_pkt : PacketBuilder → Packet → PacketBuilder
set_pkt b p = record b { pkt = p }

unfoldable pub handle_integer : ℤ → PacketBuilder → PacketBuilder
handle_integer value b =
    if not b.valid_packet
    then b
    else if b.current_field == 0
    then next_field (set_pkt b (record p { request_id = to_int value }))
    else if b.current_field == 1
    then next_field (set_pkt b (record p { kind = to_int value }))
    else if b.current_field == 4
    then next_field (set_pkt b (record p { timeout = to_int value }))
    else if b.current_field == 5
    then next_field (set_pkt b (record p { timestamp = value }))
    else spoil b
  where
    p : Packet
    p = b.pkt

unfoldable pub handle_bytes : List ℕ → PacketBuilder → PacketBuilder
handle_bytes bytes b =
    if not b.valid_packet
    then b
    else if b.current_field == 2
    then next_field (set_pkt b (record p { command = bytes }))
    else if b.current_field == 3
    then next_field (set_pkt b (record p { cbor_data = bytes }))
    else spoil b
  where
    p : Packet
    p = b.pkt

-- `_len` is an `int`; only the sizes 4 and 6 matter, and they are not changed by the cast.
unfoldable pub start_array : ℕ → PacketBuilder → PacketBuilder
start_array size b = record b {
  pkt = record p { len = size };
  valid_packet = size == 4 || size == 6;
}
  where
    p : Packet
    p = b.pkt

-- The callbacks of libcbor's stream decoder that `init_callbacks` sets; the others do nothing.
pub data Item : Type 0 where
  uint8 uint16 uint32 uint64 negint8 negint16 negint32 negint64 : ℕ → Item
  byte_string : List ℕ → Item
  array_start : ℕ → Item
  other : Item

-- `-1 - value` is computed in 32 unsigned bits for a `uint32_t`, in 64 signed bits for the last.
unfoldable pub negint64_value : ℕ → ℤ
negint64_value v = to_int64 (2 ^ 64 - 1 - v % 2 ^ 64)

unfoldable pub on_item : Item → PacketBuilder → PacketBuilder
unfolding handle_integer handle_bytes start_array next_field to_int to_int64 negint64_value
on_item (uint8 v) b = handle_integer (pos v) b
on_item (uint16 v) b = handle_integer (pos v) b
on_item (uint32 v) b = handle_integer (pos v) b
on_item (uint64 v) b = handle_integer (to_int64 v) b
on_item (negint8 v) b = handle_integer (negsuc v) b
on_item (negint16 v) b = handle_integer (negsuc v) b
on_item (negint32 v) b = handle_integer (pos (2 ^ 32 - 1 - v)) b
on_item (negint64 v) b = handle_integer (negint64_value v) b
on_item (byte_string bytes) b = handle_bytes bytes b
on_item (array_start size) b = start_array size b
on_item other b = b

unfoldable pub on_items : List Item → PacketBuilder → PacketBuilder
unfolding on_item
on_items [] b = b
on_items (x ∷ xs) b = on_items xs (on_item x b)

-- ===== src/Network/Builder/Stream.antt =====
-- What the builder makes of a stream of items.
use freekill_asio.Base.{
  ℕ, ◌+◌, ◌-◌, ◌^◌, ◌≡◌, refl, ap, sym, ◌∙◌, ℤ, pos, negsuc, to_int, to_int64, Bool, false, List,
  [], ◌∷◌, ◌++◌, Option, none, some, length, arith,
}
use mathlib.Core.List.{append_assoc, append-nil}
use freekill_asio.Network.Builder.{
  Packet, PacketBuilder, cleared, handle_integer, handle_bytes, start_array, next_field,
  negint64_value, new_builder, on_item, on_items, Item, uint8, uint16, uint32, uint64, negint8,
  negint16, negint32, negint64, byte_string, array_start, other,
}

-- The integer that `handleInteger` is called with, for an item that is an integer.
abbrev pub int_value : Item → Option ℤ
int_value (uint8 v) = some (pos v)
int_value (uint16 v) = some (pos v)
int_value (uint32 v) = some (pos v)
int_value (uint64 v) = some (to_int64 v)
int_value (negint8 v) = some (negsuc v)
int_value (negint16 v) = some (negsuc v)
int_value (negint32 v) = some (pos (2 ^ 32 - 1 - v))
int_value (negint64 v) = some (negint64_value v)
int_value (byte_string bytes) = none
int_value (array_start size) = none
int_value other = none

on_item-int :
    (x : Item) (v : ℤ) (b : PacketBuilder) → int_value x ≡ some v → on_item x b ≡ handle_integer v b
unfolding on_item
on_item-int (uint8 v) w b h = ground arith
on_item-int (uint16 v) w b h = ground arith
on_item-int (uint32 v) w b h = ground arith
on_item-int (uint64 v) w b h = ground arith
on_item-int (negint8 v) w b h = ground arith
on_item-int (negint16 v) w b h = ground arith
on_item-int (negint32 v) w b h = ground arith
on_item-int (negint64 v) w b h = ground arith
on_item-int (byte_string v) w b h = ground arith
on_item-int (array_start v) w b h = ground arith
on_item-int other w b h = ground arith

-- An item that is an integer, with its value.
pub record IntItem : Type 0 where
  pub item : Item
  pub value : ℤ
  pub is_int : int_value item ≡ some value

-- A well-formed message: four items, or six where it carries a timeout and a timestamp.
pub record Message : Type 0 where
  pub id : IntItem
  pub kind : IntItem
  pub command : List ℕ
  pub cbor_data : List ℕ
  pub times : Option (IntItem × IntItem)

abbrev items_of : Message → Option (IntItem × IntItem) → List Item
items_of m none =
    array_start 4 ∷ m.id.item ∷ m.kind.item ∷ byte_string m.command ∷ byte_string m.cbor_data ∷ []
items_of m (some (timeout, timestamp)) =
    array_start 6
    ∷ m.id.item
    ∷ m.kind.item
    ∷ byte_string m.command
    ∷ byte_string m.cbor_data
    ∷ timeout.item
    ∷ timestamp.item
    ∷ []

abbrev pub items : Message → List Item
items m = items_of m m.times

-- The packet for a message. Where it has four items, the timeout and the timestamp are those that
-- the packet had before.
abbrev packet_of : Message → Packet → Option (IntItem × IntItem) → Packet
packet_of m p none = record {
  request_id = to_int m.id.value;
  kind = to_int m.kind.value;
  timeout = p.timeout;
  len = 4;
  timestamp = p.timestamp;
  command = m.command;
  cbor_data = m.cbor_data;
}
packet_of m p (some (timeout, timestamp)) = record {
  request_id = to_int m.id.value;
  kind = to_int m.kind.value;
  timeout = to_int timeout.value;
  len = 6;
  timestamp = timestamp.value;
  command = m.command;
  cbor_data = m.cbor_data;
}

abbrev pub packet : Message → Packet → Packet
packet m p = packet_of m p m.times

abbrev ready : Packet → Bool → ℕ → List Packet → PacketBuilder
ready p v h g = record { pkt = p; current_field = 0; valid_packet = v; handled = h; got = g }

on_items-append :
    (xs ys : List Item) (b : PacketBuilder) → on_items (xs ++ ys) b ≡ on_items ys (on_items xs b)
unfolding on_items
on_items-append [] ys b = refl
on_items-append (x ∷ xs) ys b = on_items-append xs ys (on_item x b)

on_items-int :
    (x : IntItem) (xs : List Item) (b : PacketBuilder)
    → on_items (x.item ∷ xs) b ≡ on_items xs (handle_integer x.value b)
unfolding on_items
on_items-int x xs b = ap (on_items xs) (on_item-int x.item x.value b x.is_int)

on_items-bytes :
    (bytes : List ℕ) (xs : List Item) (b : PacketBuilder)
    → on_items (byte_string bytes ∷ xs) b ≡ on_items xs (handle_bytes bytes b)
unfolding on_items
on_items-bytes bytes xs b = refl

on_items-array :
    (size : ℕ) (xs : List Item) (b : PacketBuilder)
    → on_items (array_start size ∷ xs) b ≡ on_items xs (start_array size b)
unfolding on_items
on_items-array size xs b = refl

on_items-nil : (b : PacketBuilder) → on_items [] b ≡ b
unfolding on_items
on_items-nil b = refl

on_items-items :
    (m : Message) (t : Option (IntItem × IntItem)) (p : Packet) (v : Bool) (h : ℕ) (g : List Packet)
    → on_items (items_of m t) (ready p v h g)
      ≡ ready (cleared (packet_of m p t)) false (h + 1) (g ++ packet_of m p t ∷ [])
on_items-items m none p v h g =
    rw
      (
        on_items-array,
        on_items-int m.id,
        on_items-int m.kind,
        on_items-bytes m.command,
        on_items-bytes m.cbor_data,
        on_items-nil,
      )
      (unfold handle_integer handle_bytes start_array next_field in refl)
on_items-items m (some (timeout, timestamp)) p v h g =
    rw
      (
        on_items-array,
        on_items-int m.id,
        on_items-int m.kind,
        on_items-bytes m.command,
        on_items-bytes m.cbor_data,
        on_items-int timeout,
        on_items-int timestamp,
        on_items-nil,
      )
      (unfold handle_integer handle_bytes start_array next_field in refl)

abbrev pub stream : List Message → List Item
stream [] = []
stream (m ∷ ms) = items m ++ stream ms

-- One packet for each message, in order. What a message of four items does not set comes from the
-- message before it.
abbrev pub packets : List Message → Packet → List Packet
packets [] p = []
packets (m ∷ ms) p = packet m p ∷ packets ms (cleared (packet m p))

on_items-stream :
    (ms : List Message) (p : Packet) (v : Bool) (h : ℕ) (g : List Packet)
    → ((on_items (stream ms) (ready p v h g)).got ≡ g ++ packets ms p)
      × ((on_items (stream ms) (ready p v h g)).handled ≡ h + length ms)
      × ((on_items (stream ms) (ready p v h g)).current_field ≡ 0)
on_items-stream [] p v h g = unfold on_items in (sym (append-nil g), omega arith, refl)
on_items-stream (m ∷ ms) p v h g =
    let q : Packet = packet m p in
    let (gs, hs, fs) = on_items-stream ms (cleared q) false (h + 1) (g ++ q ∷ []) in
    rw (on_items-append (items m) (stream ms), on_items-items m m.times p v h g)
      (gs ∙ append_assoc g (q ∷ []) (packets ms (cleared q)), omega (arith, hs), fs)

-- A new builder that is fed the items of well-formed messages, whatever the widths in which the
-- integers are encoded, passes on one packet for each message, in order and with the message's
-- fields, counts them, and is ready for the next message.
pub on_items-packets :
    (ms : List Message) (p : Packet)
    → ((on_items (stream ms) (new_builder p)).got ≡ packets ms (cleared p))
      × ((on_items (stream ms) (new_builder p)).handled ≡ length ms)
      × ((on_items (stream ms) (new_builder p)).current_field ≡ 0)
unfolding new_builder
on_items-packets ms p =
    let (gs, hs, fs) = on_items-stream ms (cleared p) false 0 [] in (gs, omega (arith, hs), fs)

-- ===== src/Network/Buffer.antt =====
-- `ClientSocket::handleBuffer` of src/network/client_socket.cpp: the bytes of a socket are decoded
-- item by item, and what is left over is kept for the next read. libcbor's `cbor_stream_decode` is
-- a parameter.
pub mod Kept
use freekill_asio.Base.{
  ℕ, zero, suc, ◌+◌, ◌≤◌, Bool, true, false, not, ◌&&◌, ◌==◌, ltb, if◌then◌else◌, List, [], ◌∷◌,
  ◌++◌, length, drop, Option, none, some,
}
use freekill_asio.Network.Builder.{Packet, PacketBuilder, Item, new_builder, on_item}

-- `cbor_decoder_status`
pub data Status : Type 0 where
  finished nedata error : Status

-- The status, how many bytes were read, and the callback that was called (`other` for none).
pub record Decoded : Type 0 where
  pub status : Status
  pub read : ℕ
  pub item : Item

abbrev pub Decoder : Type 0
Decoder = List ℕ → Decoded

-- The locals of `handleBuffer`; `rest` is `cbuf` with its length `len`.
pub record Cursor : Type 0 where
  pub last_stat : Status
  pub rest : List ℕ
  pub total_consumed : ℕ
  pub real_consumed : ℕ
  pub builder : PacketBuilder

abbrev pub is_finished : Status → Bool
is_finished finished = true
is_finished nedata = false
is_finished error = false

abbrev pub is_error : Status → Bool
is_error error = true
is_error finished = false
is_error nedata = false

-- One call of the decoder. The local `handled` of the source stays 0.
unfoldable pub decode_item : Decoder → Cursor → Cursor
decode_item decode c =
    let r = decode c.rest in
    let b = on_item r.item c.builder in
    if is_finished r.status && not (r.read == 0)
    then record {
      last_stat = r.status;
      rest = drop r.read c.rest;
      total_consumed = c.total_consumed + r.read;
      real_consumed = if b.handled == 0 then c.real_consumed else c.total_consumed + r.read;
      builder = b;
    }
    else record c { last_stat = r.status; builder = b }

-- The loop goes on as long as an item is decoded. `none` means that the fuel ran out.
unfoldable pub decode_loop : ℕ → Decoder → Cursor → Option Cursor
decode_loop zero decode c = none
decode_loop (suc fuel) decode c =
    let r = decode c.rest in
    let next = decode_loop fuel decode (decode_item decode c) in
    if is_finished r.status && not (r.read == 0) then next else some (decode_item decode c)

-- What the call leaves: the kept bytes, the packets passed on, and the status.
pub record Handled : Type 0 where
  pub cbor_buffer : List ℕ
  pub got : List Packet
  pub status : Status

unfoldable pub keep_rest : List ℕ → Cursor → List ℕ
keep_rest buffer c =
    if is_error c.last_stat
    then buffer
    else if c.builder.handled == 0 && not c.builder.valid_packet
    then buffer
    else if ltb c.real_consumed (length c.rest)
    then drop c.real_consumed buffer
    else []

abbrev finish : List ℕ → Option Cursor → Option Handled
unfolding keep_rest
finish buffer none = none
finish buffer (some c) =
    some (record { cbor_buffer = keep_rest buffer c; got = c.builder.got; status = c.last_stat })

abbrev pub start_cursor : List ℕ → Packet → Cursor
start_cursor buffer pkt = record {
  last_stat = finished;
  rest = buffer;
  total_consumed = 0;
  real_consumed = 0;
  builder = new_builder pkt;
}

-- `kept` is `cborBuffer`, `read` what has just been read from the socket, and `pkt` the packet on
-- the stack, whose integers are not initialised.
unfoldable pub handle_buffer : Decoder → Packet → List ℕ → List ℕ → Option Handled
unfolding decode_loop decode_item finish
handle_buffer decode pkt kept read =
    let buffer = kept ++ read in
    finish buffer (decode_loop (suc (length buffer)) decode (start_cursor buffer pkt))

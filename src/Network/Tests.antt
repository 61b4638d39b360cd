-- ===== src/Network/Tests.antt =====
-- Runs of the packet builder and of the read buffer at concrete inputs.
use freekill_asio.Base.{
  to_int, if◌then◌else◌, ◌==◌, ℕ, ◌≤◌, ◌<◌, ◌≡◌, refl, pos, negsuc, true, false, List, [], ◌∷◌,
  none, some, length, arith,
}
use freekill_asio.Base.Map.{contains}
use freekill_asio.Util.Compress.{Zlib}
use freekill_asio.Network.Router.{
  Router, answered, aborted, ignored, reply_ready, request, after_request_id, handle_packet,
  request_answered_once,
}
use freekill_asio.Network.Builder.{
  Packet, PacketBuilder, Item, new_builder, on_item, on_items, uint8, negint8, byte_string,
  array_start, other,
}
use freekill_asio.Network.Builder.Stream.{Message, stream, on_items-packets}
use freekill_asio.Network.Builder.Safety.{IsSound, on_items-new_builder-IsSound}
use mathlib.Core.Option
use freekill_asio.Network.Buffer.{is_finished, finished, nedata, Decoded, Decoder, handle_buffer}
use freekill_asio.Network.Buffer.Kept.{kept_bytes, Reads, IsStreamDecoder, handle_buffer_kept}

abbrev junk : Packet
junk = record {
  request_id = pos 5;
  kind = pos 0;
  timeout = pos 77;
  len = 0;
  timestamp = pos 99;
  command = [];
  cbor_data = [];
}

-- A heartbeat: [-2, 0x400, "Heartbeat" (here one byte), ""].
abbrev heartbeat : Message
heartbeat = record {
  id = record { item = negint8 1; value = negsuc 1; is_int = refl };
  kind = record { item = uint8 100; value = pos 100; is_int = refl };
  command = b'H' ∷ [];
  cbor_data = [];
  times = none;
}

on_items-packets_example :
    (on_items (stream (heartbeat ∷ heartbeat ∷ [])) (new_builder junk)).handled ≡ 2
on_items-packets_example = (on_items-packets (heartbeat ∷ heartbeat ∷ []) junk).1

on_items-new_builder-IsSound_example :
    IsSound (on_items (array_start 4 ∷ byte_string [] ∷ uint8 3 ∷ []) (new_builder junk))
on_items-new_builder-IsSound_example =
    on_items-new_builder-IsSound (array_start 4 ∷ byte_string [] ∷ uint8 3 ∷ []) junk

-- The timestamp of a request is next.
abbrev before_timestamp : PacketBuilder
before_timestamp = record {
  pkt = record junk { len = 6 };
  current_field = 5;
  valid_packet = true;
  handled = 0;
  got = [];
}

-- A toy encoding in the decoder's place: each byte below 24 is an integer, 0x84 begins an array of
-- four items, and 0x41 is a byte string of one byte.
toy_item : ℕ → List ℕ → Decoded
toy_item c [] = record { status = nedata; read = 0; item = other }
toy_item c (x ∷ xs) = record { status = finished; read = 2; item = byte_string (x ∷ []) }

toy : Decoder
unfolding toy_item
toy [] = record { status = nedata; read = 0; item = other }
toy (c ∷ rest) =
    if c == 0x84
    then record { status = finished; read = 1; item = array_start 4 }
    else if c == 0x41
    then toy_item c rest
    else record { status = finished; read = 1; item = uint8 c }

toy-IsStreamDecoder : IsStreamDecoder toy
unfolding toy
toy-IsStreamDecoder = record { reads_within = reads_within; reads_some = reads_some; quiet = quiet }
  where
    reads_within : (xs : List ℕ) → (toy xs).read ≤ length xs
    reads_within [] = omega arith
    reads_within (c ∷ []) = ground arith
    reads_within (c ∷ x ∷ xs) = ground arith

    reads_some : (xs : List ℕ) → is_finished (toy xs).status ≡ true → 0 < (toy xs).read
    reads_some [] h = ground arith
    reads_some (c ∷ []) h = ground arith
    reads_some (c ∷ x ∷ xs) h = ground arith

    quiet : (xs : List ℕ) → is_finished (toy xs).status ≡ false → (toy xs).item ≡ other
    quiet [] h = refl
    quiet (c ∷ []) h = ground arith
    quiet (c ∷ x ∷ xs) h = ground arith

-- One whole packet, and the first three bytes of the next one.
abbrev packet_and_more : List ℕ
packet_and_more = 0x84 ∷ 1 ∷ 2 ∷ 0x41 ∷ 72 ∷ 0x41 ∷ 73 ∷ 0x84 ∷ 3 ∷ 0x41 ∷ []

-- The rest of the second packet is lost.
more_is_lost : Option.map (λ h. h.cbor_buffer) (handle_buffer toy junk [] packet_and_more) ≡ some []
unfolding handle_buffer toy on_item new_builder
more_is_lost = refl

handle_buffer_kept_example :
    (items : List Item) × (rest : List ℕ) × Reads toy packet_and_more items rest
    × (is_finished (toy rest).status ≡ false)
    × (handle_buffer toy junk [] packet_and_more
        ≡ some (record {
          cbor_buffer =
              kept_bytes packet_and_more (toy rest).status (on_items items (new_builder junk)) rest;
          got = (on_items items (new_builder junk)).got;
          status = (toy rest).status;
        }))
handle_buffer_kept_example = handle_buffer_kept toy junk [] packet_and_more toy-IsStreamDecoder

abbrev plain : Zlib
plain = record { compress2 = λ xs. some xs; uncompress = λ n xs. some xs }

-- A reply (0x222) to the first request.
abbrev first_reply : Packet
first_reply = record junk { request_id = pos 1; kind = pos 546; cbor_data = 246 ∷ [] }

abbrev second_reply : Packet
second_reply = record first_reply { cbor_data = [] }

abbrev idle : Router
idle = record {
  expected_reply_ids = [];
  reply_timeout = pos 0;
  request_start_time = 0;
  reply = aborted;
}

abbrev answered_router : Router
answered_router = record {
  expected_reply_ids = [];
  reply_timeout = pos 15;
  request_start_time = 1000;
  reply = answered (246 ∷ []);
}

request_answered_once_example :
    (handle_packet plain 2000 first_reply (request (pos 15) 1000 0 idle).0
      ≡ some (answered_router, reply_ready))
    × (handle_packet plain 3000 second_reply answered_router ≡ some (answered_router, ignored))
unfolding request
request_answered_once_example =
    request_answered_once plain (pos 15) 1000 2000 3000 0 first_reply second_reply idle
      (unfold contains in refl) (unfold request to_int in refl) (unfold after_request_id in refl)
      (unfold after_request_id in refl) refl refl refl refl refl refl

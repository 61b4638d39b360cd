-- ===== src/Rpc/Tests.antt =====
-- The calls between the server and its Lua processes at concrete inputs.
use Prim.Native.String.{String}
use freekill_asio.Base.{
  ℕ, ◌≡◌, ◌≢◌, ◌≤◌, ◌^◌, refl, pos, negsuc, false, List, [], ◌∷◌, length, Option, none, some,
  if◌then◌else◌, ltb, arith,
}
use freekill_asio.Task.Manager.{no_tasks}
use freekill_asio.Server.World.{World}
use freekill_asio.Network.Buffer.{finished, nedata, is_finished}
use freekill_asio.Rpc.Packet.{
  int, string, view, RpcPacket, new_packet, Outcome, handle_request, call_found, answer,
  response_error,
}
use freekill_asio.Rpc.Packet.Answer.{send_answer-handle_request}
use freekill_asio.Rpc.Encode.{
  uint8, uint64, negint8, negint16, negint32, negint64, map_start, other, Encoder, IsEncoder,
  send_request,
}
use freekill_asio.Rpc.Builder.{Builder, fin, reading_error_v, new_builder, on_item, on_items}
use freekill_asio.Rpc.Builder.Roundtrip.{read_back, on_items-send_request}
use freekill_asio.Rpc.Read.{Decoder, Reading, read_packet, send_answer}
use freekill_asio.Rpc.Read.Progress.{
  IsDecoder, IsReading, read_packet_total, read_packet_stuck, start, more,
}
use freekill_asio.Rpc.Dispatch.Methods.{lookup, server_rpc_methods}
use freekill_asio.Base.Map.{find}
use freekill_asio.Rpc.Dispatch.Rooms.{rpc_room_delay}
use freekill_asio.Rpc.Dispatch.Refused.{handle_request_refused}

-- An encoder that writes numbers as libcbor does.
abbrev written : Encoder
written = record {
  uint = λ n. if ltb n 256 then uint8 n else uint64 n;
  negint = λ n.
      if ltb n 256
      then negint8 n
      else if ltb n (2 ^ 16)
      then negint16 n
      else if ltb n (2 ^ 32)
      then negint32 n
      else negint64 n;
}

written-IsEncoder : IsEncoder written
written-IsEncoder = record {
  uint_value = λ n h. ground arith;
  negint_value = λ n h. ground arith;
  shortest = λ n m h. ground (arith, h);
}

abbrev asking : RpcPacket
asking = record new_packet {
  id = pos 7;
  method = "HandleRequest";
  param_count = 2;
  param1 = int (negsuc 4);
  param2 = string "1,2,leave";
}

asking_read :
    (on_items (send_request written asking) (new_builder new_packet)).pkt
    ≡ record asking { param2 = view "1,2,leave" }
unfolding on_items on_item send_request new_builder
asking_read = refl

on_items-send_request_example :
    let b = on_items (send_request written asking) (new_builder new_packet) in
    (b.state ≡ fin) × (b.pkt ≡ read_back 2 asking new_packet)
on_items-send_request_example =
    on_items-send_request written written-IsEncoder asking new_packet 7 refl (omega arith)
      (omega arith) (ground arith, tt)

-- The builder where the code of an error comes next.
abbrev at_code : Builder
at_code = record (new_builder new_packet) { state = reading_error_v; current_err_key = pos 200 }

-- A decoder of items of one byte.
abbrev bytewise : Decoder
bytewise [] = record { status = nedata; read = 0; item = other }
bytewise (x ∷ xs) = record {
  status = finished;
  read = 1;
  item = if ltb x 24 then uint8 x else map_start x;
}

bytewise-IsDecoder : IsDecoder bytewise
bytewise-IsDecoder = record { reads_within = within; stops = stops }
  where
    within : (xs : List ℕ) → (bytewise xs).read ≤ length xs
    within [] = omega arith
    within (x ∷ xs) = ground arith

    stops : (xs : List ℕ) → (bytewise xs).read ≡ 0 → is_finished (bytewise xs).status ≡ false
    stops [] h = refl
    stops (x ∷ xs) h = absurd (omega arith)

read_packet_total_example : IsReading (5 ∷ 6 ∷ []) (read_packet bytewise (5 ∷ 6 ∷ []) new_packet)
read_packet_total_example = read_packet_total bytewise bytewise-IsDecoder (5 ∷ 6 ∷ []) new_packet

-- A number where a map should begin.
read_packet_stuck_example :
    (r : Reading) × (read_packet bytewise (5 ∷ 6 ∷ []) new_packet ≡ some r)
    × (is_finished r.status ≡ false)
    × (r.rest ≡ 5 ∷ 6 ∷ [])
unfolding on_item new_builder
read_packet_stuck_example =
    read_packet_stuck bytewise bytewise-IsDecoder (5 ∷ 6 ∷ []) new_packet 1
      (on_item (uint8 5) (new_builder new_packet)) (more start (ground arith) refl) refl

abbrev world : World
world = record {
  online_players_map = [];
  robots_map = [];
  players_map = [];
  rooms = [];
  lobby = [];
  threads = [];
  tasks = no_tasks;
  md5 = "v1";
  next_conn_id = pos 1003;
  next_robot_id = negsuc 1;
  next_room_id = pos 4;
  next_thread_id = pos 1001;
  log = [];
}

abbrev methods : String → Option (RpcPacket → World → World × Outcome)
methods = lookup (server_rpc_methods (λ p. "player") (λ t. "task") (λ r o ps. "room") (λ p. pos 60))

-- A delay in a room that is gone.
abbrev delay : RpcPacket
delay = record new_packet {
  id = pos 1;
  method = "Room_delay";
  param_count = 2;
  param1 = int (pos 3);
  param2 = int (pos 100);
}

handle_request_refused_example : (handle_request methods delay world).0 ≡ world
unfolding handle_request call_found answer response_error rpc_room_delay find
handle_request_refused_example =
    handle_request_refused world delay (λ p. "player") (λ t. "task") (λ r o ps. "room")
      (λ p. pos 60) refl

send_answer-handle_request_example : send_answer (handle_request methods delay world).1 ≢ none
send_answer-handle_request_example =
    (send_answer-handle_request methods delay world).0 (λ e. ground (arith, e))

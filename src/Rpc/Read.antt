-- ===== src/Rpc/Read.antt =====
-- `readJsonRpcPacket` and `RpcLua::wait` of src/server/rpc-lua/rpc-lua.cpp. libcbor's
-- `cbor_stream_decode` is a parameter.
pub mod Progress
use Prim.Native.String.{String}
use text.Mathlib.Text.{◌==◌ as str_eq}
use freekill_asio.Base.{
  ℕ, zero, suc, ◌+◌, ◌≤◌, ◌<◌, ◌≡◌, ℤ, pos, negsuc, Bool, true, false, not, ◌&&◌, ◌||◌, List, [],
  ◌∷◌, ◌++◌, length, drop, Option, none, some, if◌then◌else◌, ◌==◌, ◌==ℤ◌, is_negative, is_positive,
}
use freekill_asio.Network.Buffer.{Status, finished, nedata, error}
use freekill_asio.Rpc.Packet.{RpcPacket, RpcError, Outcome, handle_request, reset_packet}
use freekill_asio.Rpc.Encode.{Item}
use freekill_asio.Rpc.Builder.{State, fin, Builder, new_builder, on_item}

-- The status, how many bytes were read, and the callback that was called (`other` for none).
pub record Decoded : Type 0 where
  pub status : Status
  pub read : ℕ
  pub item : Item

abbrev pub Decoder : Type 0
Decoder = List ℕ → Decoded

abbrev pub is_fin : Builder → Bool
is_fin b = go b.state
  where
    go : State → Bool
    go fin = true
    go _ = false

-- What the reading of a packet leaves: the bytes from `cbuf` on, the status, and the packet.
pub record Reading : Type 0 where
  pub rest : List ℕ
  pub status : Status
  pub pkt : RpcPacket

-- The loop over the items from `rest` on. Without a further item the whole buffer is kept. `none`
-- means that the fuel ran out.
unfoldable pub read_loop : ℕ → Decoder → List ℕ → List ℕ → Builder → Option Reading
read_loop zero decode buffer rest b = none
read_loop (suc fuel) decode buffer rest b =
    let r = decode rest in
    let c = on_item r.item b in
    let next = read_loop fuel decode buffer (drop r.read rest) c in
    if r.read == 0
    then some (record { rest = buffer; status = r.status; pkt = pkt_of c })
    else if is_fin c
    then some (record { rest = drop r.read rest; status = finished; pkt = pkt_of c })
    else next
  where
    pkt_of : Builder → RpcPacket
    pkt_of b = b.pkt

unfoldable pub read_packet : Decoder → List ℕ → RpcPacket → Option Reading
unfolding read_loop new_builder
read_packet decode buffer p = read_loop (suc (length buffer)) decode buffer buffer (new_builder p)

pub data WaitType : Type 0 where
  wait_for_response wait_for_notification : WaitType

-- What `wait` makes of a packet that it has read.
pub data Step : Type 0 where
  done failed : Step
  -- a request to answer, with the answer
  answered : Option RpcPacket → Step

abbrev code_of : RpcPacket → ℤ
code_of p = go p.error
  where
    go : RpcError → ℤ
    go e = e.code

-- The packet that is waited for: the response to an id, or the notification of a method.
abbrev pub is_awaited : WaitType → String → ℤ → RpcPacket → Bool
is_awaited wait_for_response method id p = p.id ==ℤ id && str_eq p.method "" && code_of p ==ℤ pos 0
is_awaited wait_for_notification method id p = p.id ==ℤ negsuc 0 && str_eq p.method method

module _ {S : Type 0} (methods : String → Option (RpcPacket → S → S × Outcome)) where
  unfoldable pub take_packet : WaitType → String → ℤ → RpcPacket → S → S × Step
  unfolding handle_request
  take_packet w method id p s =
      if is_awaited w method id p
      then (s, done)
      else if not (code_of p ==ℤ pos 0)
      then (s, failed)
      else let (t, res) = handle_request methods p s in (t, answered res)

-- How an answer is written: an error has a negative code, any other answer needs a positive id;
-- `none` is the exception that the code throws.
pub data Sending : Type 0 where
  nothing : Sending
  sent_error sent_response : RpcPacket → Sending

unfoldable pub send_answer : Option RpcPacket → Option Sending
send_answer none = some nothing
send_answer (some res) =
    if is_negative (code_of res)
    then some (sent_error res)
    else if is_positive res.id
    then some (sent_response res)
    else none

-- One read of the pipe: the bytes that were kept, with the new ones. After an error all are
-- dropped, and waiting ends.
pub data Wait : Type 0 where
  stopped again : List ℕ → Wait
  got : List ℕ → RpcPacket → Wait

after_reading : Option Reading → Option Wait
after_reading none = none
after_reading (some r) = some (go r.status)
  where
    go : Status → Wait
    go error = stopped []
    go nedata = again r.rest
    go finished = got r.rest r.pkt

unfoldable pub wait_read : Decoder → List ℕ → List ℕ → RpcPacket → Option Wait
unfolding read_packet after_reading reset_packet
wait_read decode kept read p = after_reading (read_packet decode (kept ++ read) (reset_packet p))

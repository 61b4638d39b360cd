-- ===== src/Rpc/Builder.antt =====
-- `RpcPacketBuilder` of src/server/rpc-lua/rpc-lua.cpp: the state machine that reads a packet from a
-- Lua process, item by item.
pub mod Roundtrip
pub mod Stuck
pub mod ErrorCode
use Prim.Native.String.{String}
use text.Mathlib.Text.{◌==◌ as str_eq}
use freekill_asio.Base.{
  ℕ, zero, suc, ◌+◌, ◌-◌, ◌%◌, ◌^◌, ℤ, pos, negsuc, Bool, true, false, not, ◌&&◌, ◌||◌, List, [],
  ◌∷◌, if◌then◌else◌, ltb, ◌==◌, ◌==ℤ◌, is_negative, to_int, to_int64,
}
use freekill_asio.Rpc.Packet.{
  Param, int, int64, string, view, boolean, null, RpcError, RpcPacket, reset_packet,
}
use freekill_asio.Rpc.Encode.{
  Item, uint8, uint16, uint32, uint64, negint8, negint16, negint32, negint64, byte_string,
  array_start, map_start, bool, other,
}

pub data State : Type 0 where
  not_start wait_key wait_value reading_params reading_error_k reading_error_v fin error : State

pub record Builder : Type 0 where
  pub state : State
  pub key_count : ℕ
  pub param_count : ℕ
  pub valid : Bool
  pub current_key : ℤ
  pub value_readed : ℕ
  pub current_param_idx : ℕ
  pub error_key_count : ℕ
  pub current_err_key : ℤ
  pub error_value_readed : ℕ
  pub pkt : RpcPacket

-- The constructor calls `reset`, which resets the packet as well.
unfoldable pub new_builder : RpcPacket → Builder
unfolding reset_packet
new_builder p = record {
  state = not_start;
  key_count = 0;
  param_count = 0;
  valid = false;
  current_key = pos 0;
  value_readed = 0;
  current_param_idx = 0;
  error_key_count = 0;
  current_err_key = pos 0;
  error_value_readed = 0;
  pkt = reset_packet p;
}

-- `checkState(ERROR)`: any state but `error` becomes it.
abbrev pub fail : Builder → Builder
fail b = go b.state
  where
    go : State → Builder
    go error = b
    go _ = record b { state = error; valid = false }

unfoldable pub next_key : Builder → Builder
next_key b = record b {
  value_readed = b.value_readed + 1;
  state = if b.value_readed + 1 == b.key_count then fin else wait_key;
}

abbrev set_param : ℕ → Param → RpcPacket → RpcPacket
set_param zero v p = record p { param1 = v }
set_param (suc zero) v p = record p { param2 = v }
set_param (suc (suc zero)) v p = record p { param3 = v }
set_param (suc (suc (suc zero))) v p = record p { param4 = v }
set_param (suc (suc (suc (suc n)))) v p = record p { param5 = v }

unfoldable pub read_param : Param → Builder → Builder
unfolding next_key
read_param v b =
    if ltb 4 b.current_param_idx
    then fail b
    else let c : Builder = record b {
      pkt = set_param b.current_param_idx v b.pkt;
      current_param_idx = b.current_param_idx + 1;
    } in
      if c.current_param_idx == c.param_count then next_key c else c

-- After a value of the error object.
unfoldable pub next_error_key : Builder → Builder
unfolding next_key
next_error_key b =
    let c : Builder = record b { error_value_readed = b.error_value_readed + 1 } in
    if c.error_value_readed == c.error_key_count
    then next_key c
    else record c { state = reading_error_k }

-- An `int64_t` as a parameter: what is negative, or below 0xFFFFFFFF, is cast to `int`.
unfoldable pub int_param : ℤ → Param
unfolding to_int
int_param (pos n) = if ltb n 4294967295 then int (to_int (pos n)) else int64 (pos n)
int_param (negsuc n) = int (to_int (negsuc n))

abbrev pub set_code : ℤ → Builder → Builder
set_code code b = record b {
  pkt = record (pkt_of b) { error = record (error_of b) { code = code } };
}
  where
    pkt_of : Builder → RpcPacket
    pkt_of b = b.pkt

    error_of : Builder → RpcError
    error_of b = (pkt_of b).error

abbrev set_message : String → Builder → Builder
set_message m b = record b {
  pkt = record (pkt_of b) { error = record (error_of b) { message = m } };
}
  where
    pkt_of : Builder → RpcPacket
    pkt_of b = b.pkt

    error_of : Builder → RpcError
    error_of b = (pkt_of b).error

abbrev set_id : ℤ → Builder → Builder
set_id id b = record b { pkt = record (pkt_of b) { id = id } }
  where
    pkt_of : Builder → RpcPacket
    pkt_of b = b.pkt

abbrev set_method : String → Builder → Builder
set_method m b = record b { pkt = record (pkt_of b) { method = m } }
  where
    pkt_of : Builder → RpcPacket
    pkt_of b = b.pkt

-- The keys 100 to 105 of a packet, and 200 to 202 of its error object.
unfoldable pub int_value : ℤ → Builder → Builder
unfolding next_key to_int
int_value v b =
    if b.current_key ==ℤ pos 104
    then next_key (set_id (to_int v) b)
    else if b.current_key ==ℤ pos 105
    then next_key b
    else fail b

unfoldable pub int_error_value : ℤ → Builder → Builder
unfolding next_error_key to_int
int_error_value v b =
    if b.current_err_key ==ℤ pos 200
    then next_error_key (set_code (to_int v) b)
    else if b.current_err_key ==ℤ pos 202
    then next_error_key b
    else fail b

handle_integer_in : State → ℤ → Builder → Builder
unfolding int_value int_error_value read_param int_param to_int
handle_integer_in wait_key v b = record b { current_key = to_int v; state = wait_value }
handle_integer_in reading_error_k v b = record b {
  current_err_key = to_int v;
  state = reading_error_v;
}
handle_integer_in wait_value v b = int_value v b
handle_integer_in reading_error_v v b = int_error_value v b
handle_integer_in reading_params v b = read_param (int_param v) b
handle_integer_in not_start v b = fail b
handle_integer_in fin v b = fail b
handle_integer_in error v b = fail b

unfoldable pub handle_integer : ℤ → Builder → Builder
unfolding handle_integer_in
handle_integer v b = handle_integer_in b.state v b

handle_bool_in : State → Bool → Builder → Builder
unfolding next_key read_param
handle_bool_in wait_value v b = if b.current_key ==ℤ pos 105 then next_key b else fail b
handle_bool_in reading_params v b = read_param (boolean v) b
handle_bool_in not_start v b = fail b
handle_bool_in wait_key v b = fail b
handle_bool_in reading_error_k v b = fail b
handle_bool_in reading_error_v v b = fail b
handle_bool_in fin v b = fail b
handle_bool_in error v b = fail b

unfoldable pub handle_bool : Bool → Builder → Builder
unfolding handle_bool_in
handle_bool v b = handle_bool_in b.state v b

unfoldable pub bytes_value : String → Builder → Builder
unfolding next_key
bytes_value s b =
    if b.current_key ==ℤ pos 100
    then (if str_eq s "2.0" then next_key b else fail b)
    else if b.current_key ==ℤ pos 101
    then next_key (set_method s b)
    else if b.current_key ==ℤ pos 105
    then next_key b
    else fail b

unfoldable pub bytes_error_value : String → Builder → Builder
unfolding next_error_key
bytes_error_value s b =
    if b.current_err_key ==ℤ pos 201
    then next_error_key (set_message s b)
    else if b.current_err_key ==ℤ pos 202
    then next_error_key b
    else fail b

handle_bytes_in : State → String → Builder → Builder
unfolding bytes_value bytes_error_value read_param
handle_bytes_in wait_value s b = bytes_value s b
handle_bytes_in reading_params s b = read_param (view s) b
handle_bytes_in reading_error_v s b = bytes_error_value s b
handle_bytes_in not_start s b = fail b
handle_bytes_in wait_key s b = fail b
handle_bytes_in reading_error_k s b = fail b
handle_bytes_in fin s b = fail b
handle_bytes_in error s b = fail b

unfoldable pub handle_bytes : String → Builder → Builder
unfolding handle_bytes_in
handle_bytes s b = handle_bytes_in b.state s b

abbrev is_wait_value : State → Bool
is_wait_value wait_value = true
is_wait_value _ = false

unfoldable pub start_array : ℕ → Builder → Builder
unfolding next_key
start_array size b =
    if not (is_wait_value b.state && b.current_key ==ℤ pos 102)
    then fail b
    else let c : Builder = record b {
      param_count = size;
      pkt = record (pkt_of b) { param_count = size };
    } in
      if ltb 0 size then record c { state = reading_params } else next_key c
  where
    pkt_of : Builder → RpcPacket
    pkt_of b = b.pkt

start_map_in : State → ℕ → Builder → Builder
start_map_in not_start size b = record b { key_count = size; valid = true; state = wait_key }
start_map_in wait_value size b =
    if b.current_key ==ℤ pos 103
    then record b { error_key_count = size; state = reading_error_k }
    else fail b
start_map_in wait_key size b = fail b
start_map_in reading_params size b = fail b
start_map_in reading_error_k size b = fail b
start_map_in reading_error_v size b = fail b
start_map_in fin size b = fail b
start_map_in error size b = fail b

unfoldable pub start_map : ℕ → Builder → Builder
unfolding start_map_in
start_map size b = start_map_in b.state size b

-- `init_callbacks`; as in the packet builder of a socket, `-1 - value` wraps around for a
-- `uint32_t`.
unfoldable pub on_item : Item → Builder → Builder
unfolding handle_integer handle_bytes handle_bool start_array start_map to_int64
on_item (uint8 v) b = handle_integer (pos v) b
on_item (uint16 v) b = handle_integer (pos v) b
on_item (uint32 v) b = handle_integer (pos v) b
on_item (uint64 v) b = handle_integer (to_int64 v) b
on_item (negint8 v) b = handle_integer (negsuc v) b
on_item (negint16 v) b = handle_integer (negsuc v) b
on_item (negint32 v) b = handle_integer (pos (2 ^ 32 - 1 - v)) b
on_item (negint64 v) b = handle_integer (to_int64 (2 ^ 64 - 1 - v % 2 ^ 64)) b
on_item (byte_string s) b = handle_bytes s b
on_item (array_start n) b = start_array n b
on_item (map_start n) b = start_map n b
on_item (bool v) b = handle_bool v b
on_item other b = b

unfoldable pub on_items : List Item → Builder → Builder
unfolding on_item
on_items [] b = b
on_items (x ∷ xs) b = on_items xs (on_item x b)

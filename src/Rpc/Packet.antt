-- ===== src/Rpc/Packet.antt =====
-- src/server/rpc-lua/jsonrpc.cpp: packets of JSON-RPC, and how a request from Lua is answered.
pub mod Answer
use Prim.Native.String.{String}
use text.Mathlib.Text.{◌==◌ as str_eq}
use freekill_asio.Base.{
  ℕ, suc, ◌+◌, ℤ, pos, negsuc, Bool, true, false, ◌||◌, Option, none, some, if◌then◌else◌, ltb,
  is_negative, ◌==ℤ◌,
}

-- `JsonRpcParam`; `string` is a `std::string`, `view` a `std::string_view`.
pub data Param : Type 0 where
  int int64 : ℤ → Param
  string view : String → Param
  boolean : Bool → Param
  null : Param

pub record RpcError : Type 0 where
  pub code : ℤ
  pub message : String
  pub data_of : Param

pub record RpcPacket : Type 0 where
  pub id : ℤ
  pub param_count : ℕ
  pub method : String
  pub param1 : Param
  pub param2 : Param
  pub param3 : Param
  pub param4 : Param
  pub param5 : Param
  pub error : RpcError
  pub result : Param

abbrev pub no_error : RpcError
no_error = record { code = pos 0; message = ""; data_of = null }

abbrev pub new_packet : RpcPacket
new_packet = record {
  id = negsuc 0;
  param_count = 0;
  method = "";
  param1 = null;
  param2 = null;
  param3 = null;
  param4 = null;
  param5 = null;
  error = no_error;
  result = null;
}

-- `JsonRpcPacket::reset` leaves the parameters, and the data of the error.
unfoldable pub reset_packet : RpcPacket → RpcPacket
reset_packet p = record p {
  id = negsuc 0;
  param_count = 0;
  method = "";
  error = record { code = pos 0; message = ""; data_of = data_of_error p.error };
  result = null;
}
  where
    data_of_error : RpcError → Param
    data_of_error e = e.data_of

pub data ErrorName : Type 0 where
  parse_error invalid_request method_not_found invalid_params internal_error server_error :
      ErrorName

-- `errorObjects`; the code uses no other name.
unfoldable pub get_error_object : ErrorName → RpcError
get_error_object parse_error = record {
  code = negsuc 32699;
  message = "Parse error";
  data_of = null;
}
get_error_object invalid_request = record {
  code = negsuc 32599;
  message = "Invalid request";
  data_of = null;
}
get_error_object method_not_found = record {
  code = negsuc 32600;
  message = "Method not found";
  data_of = null;
}
get_error_object invalid_params = record {
  code = negsuc 32601;
  message = "Invalid params";
  data_of = null;
}
get_error_object internal_error = record {
  code = negsuc 32602;
  message = "Internal error";
  data_of = null;
}
get_error_object server_error = record {
  code = negsuc 31999;
  message = "Server error";
  data_of = null;
}

abbrev pub is_null : Param → Bool
is_null null = true
is_null _ = false

-- `notification`: the parameters up to the first that is null.
unfoldable pub notification : String → Param → Param → Param → RpcPacket
notification method a b c =
    let p : RpcPacket = record new_packet { method = method } in
    if is_null a
    then p
    else if is_null b
    then record p { param1 = a; param_count = 1 }
    else if is_null c
    then record p { param1 = a; param2 = b; param_count = 2 }
    else record p { param1 = a; param2 = b; param3 = c; param_count = 3 }

-- `_reqId++` with its wrap-around
unfoldable pub after_req_id : ℕ → ℕ
after_req_id n = if ltb 10000000 (n + 1) then 1 else n + 1

-- `request` with a fresh id, which `call` uses; the second component is the counter after it.
unfoldable pub rpc_request : String → Param → Param → Param → ℕ → RpcPacket × ℕ
unfolding notification after_req_id
rpc_request method a b c req_id =
    (record (notification method a b c) { id = pos req_id }, after_req_id req_id)

unfoldable pub response : RpcPacket → Param → RpcPacket
response req result = record new_packet {
  id = if is_negative req.id then negsuc 0 else req.id;
  result = result;
}

-- An error that says that no request was understood has no id.
unfoldable pub response_error : RpcPacket → ErrorName → Param → RpcPacket
unfolding get_error_object
response_error req name d =
    let e = get_error_object name in
    record new_packet {
      error = if is_null d then e else record e { data_of = d };
      id =
          if e.code ==ℤ negsuc 32699 || e.code ==ℤ negsuc 32599 || is_negative req.id
          then negsuc 0
          else req.id;
    }

-- What a method of the server does: it returns its success and a value, or throws.
pub data Outcome : Type 0 where
  returned : Bool → Param → Outcome
  thrown : String → Outcome

unfoldable pub answer : RpcPacket → Outcome → Option RpcPacket
unfolding response response_error
answer req (returned false v) = some (response_error req invalid_params v)
answer req (returned true v) = if is_negative req.id then none else some (response req v)
answer req (thrown what) = some (response_error req internal_error (view what))

-- `handleRequest`, for methods that work on a state.
module _ {S : Type 0} where
  unfoldable pub call_found :
      Option (RpcPacket → S → S × Outcome) → RpcPacket → S → S × Option RpcPacket
  unfolding answer response_error
  call_found none req s = (s, some (response_error req method_not_found null))
  call_found (some f) req s = let (t, o) = f req s in (t, answer req o)

  unfoldable pub handle_request :
      (String → Option (RpcPacket → S → S × Outcome)) → RpcPacket → S → S × Option RpcPacket
  unfolding call_found response_error
  handle_request methods req s =
      if str_eq req.method ""
      then (s, some (response_error req invalid_request null))
      else call_found (methods req.method) req s

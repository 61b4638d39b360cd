-- ===== src/Rpc/Encode.antt =====
-- What `sendRequest`, `sendResponse` and `sendError` of src/server/rpc-lua/rpc-lua.cpp write to a
-- Lua process, as the CBOR items that the bytes stand for. How an integer is encoded is a matter
-- of libcbor: `cbor_encode_uint` and `cbor_encode_negint` are parameters.
use Prim.Native.String.{String}
use freekill_asio.Base.{
  ℕ, zero, suc, ◌-◌, ◌%◌, ◌^◌, ◌≤◌, ◌<◌, ◌≡◌, ℤ, pos, negsuc, Bool, List, [], ◌∷◌, ◌++◌, Option,
  none, some, if◌then◌else◌, is_negative,
}
use freekill_asio.Rpc.Packet.{Param, int, int64, string, view, boolean, null, RpcError, RpcPacket}

-- The items for which `init_callbacks` sets a callback; `other` is any that has none.
pub data Item : Type 0 where
  uint8 uint16 uint32 uint64 negint8 negint16 negint32 negint64 : ℕ → Item
  byte_string : String → Item
  array_start map_start : ℕ → Item
  bool : Bool → Item
  other : Item

-- The number that an item stands for.
abbrev pub value_of : Item → Option ℤ
value_of (uint8 n) = some (pos n)
value_of (uint16 n) = some (pos n)
value_of (uint32 n) = some (pos n)
value_of (uint64 n) = some (pos n)
value_of (negint8 n) = some (negsuc n)
value_of (negint16 n) = some (negsuc n)
value_of (negint32 n) = some (negsuc n)
value_of (negint64 n) = some (negsuc n)
value_of _ = none

pub record Encoder : Type 0 where
  pub uint : ℕ → Item
  pub negint : ℕ → Item

-- libcbor writes the number it is given, a negative one in the shortest of the four forms.
pub record IsEncoder (e : Encoder) : Type 0 where
  pub uint_value : (n : ℕ) → n < 2 ^ 64 → value_of (e.uint n) ≡ some (pos n)
  pub negint_value : (n : ℕ) → n < 2 ^ 64 → value_of (e.negint n) ≡ some (negsuc n)
  pub shortest : (n m : ℕ) → e.negint n ≡ negint32 m → (2 ^ 16 ≤ m) × (m < 2 ^ 32)

-- An `int` as the `uint64_t` that libcbor takes.
abbrev pub to_uint64 : ℤ → ℕ
to_uint64 (pos n) = n % 2 ^ 64
to_uint64 (negsuc n) = 2 ^ 64 - 1 - n % 2 ^ 64

module _ (e : Encoder) where
  -- `sendParam`; nothing is written for an `int64_t`.
  unfoldable pub send_param : Param → List Item
  send_param (int (pos n)) = e.uint n ∷ []
  send_param (int (negsuc n)) = e.negint n ∷ []
  send_param (int64 n) = []
  send_param (string s) = byte_string s ∷ []
  send_param (view s) = byte_string s ∷ []
  send_param (boolean b) = bool b ∷ []
  send_param null = other ∷ []

  -- The parameters that a request writes: as many as it counts, three at most.
  unfoldable pub send_params : ℕ → RpcPacket → List Item
  unfolding send_param
  send_params zero p = []
  send_params (suc zero) p = send_param p.param1 ++ []
  send_params (suc (suc zero)) p = send_param p.param1 ++ (send_param p.param2 ++ [])
  send_params n p = send_param p.param1 ++ (send_param p.param2 ++ (send_param p.param3 ++ []))

  unfoldable pub send_request : RpcPacket → List Item
  unfolding send_params
  send_request p =
      map_start 4
      ∷ uint8 100
      ∷ byte_string "2.0"
      ∷ uint8 101
      ∷ byte_string p.method
      ∷ uint8 104
      ∷ e.uint (to_uint64 p.id)
      ∷ uint8 102
      ∷ array_start p.param_count
      ∷ send_params p.param_count p

  unfoldable pub send_response : RpcPacket → List Item
  unfolding send_param
  send_response p =
      map_start 3
      ∷ uint8 100
      ∷ byte_string "2.0"
      ∷ uint8 104
      ∷ e.uint (to_uint64 p.id)
      ∷ uint8 105
      ∷ send_param p.result

  abbrev send_id : ℤ → List Item
  send_id (pos n) = uint8 104 ∷ e.uint n ∷ []
  send_id (negsuc n) = []

  -- The code is given to `cbor_encode_negint` as it is.
  abbrev send_error_object : RpcError → List Item
  send_error_object r =
      uint8 103
      ∷ map_start 3
      ∷ uint8 200
      ∷ e.negint (to_uint64 r.code)
      ∷ uint8 201
      ∷ byte_string r.message
      ∷ uint8 202
      ∷ send_param r.data_of

  unfoldable pub send_error : RpcPacket → List Item
  unfolding send_param
  send_error p =
      (if is_negative p.id then map_start 2 else map_start 3)
        ∷ uint8 100
        ∷ byte_string "2.0"
        ∷ send_id p.id
      ++ send_error_object p.error

-- ===== src/Server/Auth.antt =====
-- src/server/user/auth.cpp: what a connection must show to become a user. The data base, RSA,
-- SHA-256, libcbor and the versions' library are parameters.
pub mod Setup
pub mod Password
pub mod Enter
pub mod Admitted
pub mod Created
pub mod Unsafe
mod Tests
use Prim.Native.String.{String, ◌++◌}
use text.Mathlib.Text.{◌==◌ as str_eq}
use freekill_asio.Base.{ℕ, ℤ, Bool, true, false, List, [], ◌∷◌, if◌then◌else◌}
use freekill_asio.Network.Buffer.{Status}
use freekill_asio.Server.World.{World, Event, early_packet, disconnected_host, tell}

-- A row of a result: the columns with their values.
abbrev pub Row : Type 0
Row = List (String × String)

-- `obj["..."]` of a `std::map`: a missing key has the empty text.
abbrev pub field : Row → String → String
field [] key = ""
field ((k, v) ∷ row) key = let rest = field row key in if str_eq key k then v else rest

-- `result[0]`; the code reads it only where the result has a row.
abbrev pub first : List Row → Row
first [] = []
first (row ∷ rows) = row

abbrev pub is_nil : {A : Type 0} → List A → Bool
is_nil [] = true
is_nil (x ∷ xs) = false

-- What `cbor_stream_decode` makes of some bytes: its status, how many it has read, and the text of
-- the callback that it has called, if any.
pub record Decoded : Type 0 where
  pub status : Status
  pub read : ℕ
  pub text : List String

-- The libraries that a login uses, over the states `Db` of the data base.
pub record Libraries (Db : Type 0) : Type 0 where
  pub select : String → Db → List Row
  pub exec : String → Db → Db
  pub decode : List ℕ → Decoded
  pub in_range : String → Bool
  pub find : String → String → Bool
  pub rsa_private_decrypt : String → List ℕ
  pub sha256 : List ℕ → List ℕ
  pub bytes_of : String → List ℕ
  pub text_of : List ℕ → String
  pub atoi : String → ℤ
  pub atoll : String → ℤ
  pub show : ℤ → String

pub record Config : Type 0 where
  pub ban_words : List String
  pub enable_whitelist : Bool
  pub max_players_per_device : ℤ
  pub capacity : ℕ
  pub temp_banlist : List String

-- The connection, and what a login draws from its surroundings: the address, a salt, the time.
pub record Visit : Type 0 where
  pub socket : ℤ
  pub peer_address : String
  pub salt : String
  pub now : ℤ

-- A message to a connection that is no user's yet, and its end.
abbrev pub turn_away : Visit → String → World → World
turn_away v message w =
    tell (early_packet v.socket "ErrorDlg" message ∷ disconnected_host v.socket ∷ []) w

abbrev pub quoted : String → String → String
quoted before text = before ++ (text ++ "';")

-- `fmt::format`, with the pieces in order.
abbrev pub joined : List String → String
joined [] = ""
joined (t ∷ ts) = t ++ joined ts

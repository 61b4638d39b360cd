-- ===== src/Server/Auth/Setup.antt =====
-- The setup message: `AuthManagerPrivate` and `loadSetupData`, and what a connection meets before
-- it, `UserManager::processNewConnection`.
use Prim.Native.String.{String}
use text.Mathlib.Text.{◌==◌ as str_eq}
use freekill_asio.Base.{
  ℕ, zero, suc, ◌+◌, pos, negsuc, Bool, true, false, not, ◌&&◌, ◌||◌, List, [], ◌∷◌, length, leb,
  drop, if◌then◌else◌, ◌==◌, ◌==ℤ◌,
}
use freekill_asio.Network.Buffer.{is_finished}
use freekill_asio.Network.Builder.{Packet}
use freekill_asio.Server.World.{World, early_packet, signup_timer, tell}
use freekill_asio.Server.Auth.{Libraries, Config, Visit, is_nil, turn_away, quoted}

pub record Setup : Type 0 where
  pub current_idx : ℕ
  pub name : String
  pub password : String
  pub md5 : String
  pub version : String
  pub uuid : String

abbrev pub reset : Setup
reset = record {
  current_idx = 0;
  name = "";
  password = "";
  md5 = "";
  version = "unknown";
  uuid = "";
}

abbrev pub is_valid : Setup → Bool
is_valid s = s.current_idx == 5

abbrev pub fill : String → Setup → Setup
fill t s =
    if s.current_idx == 0
    then record s { name = t }
    else if s.current_idx == 1
    then record s { password = t }
    else if s.current_idx == 2
    then record s { md5 = t }
    else if s.current_idx == 3
    then record s { version = t }
    else if s.current_idx == 4
    then record s { uuid = t }
    else s

-- `AuthManagerPrivate::handle`
abbrev pub handle : String → Setup → Setup
handle t s = record (fill t s) { current_idx = s.current_idx + 1 }

abbrev handle_all : List String → Setup → Setup
handle_all [] s = s
handle_all (t ∷ ts) s = handle_all ts (handle t s)

abbrev pub is_temp_banned : String → List String → Bool
is_temp_banned addr [] = false
is_temp_banned addr (a ∷ addrs) = str_eq a addr || is_temp_banned addr addrs

-- The bytes of "Setup".
abbrev setup_command : List ℕ
setup_command = 83 ∷ 101 ∷ 116 ∷ 117 ∷ 112 ∷ []

abbrev same_bytes : List ℕ → List ℕ → Bool
same_bytes [] [] = true
same_bytes (x ∷ xs) (y ∷ ys) = x == y && same_bytes xs ys
same_bytes [] (y ∷ ys) = false
same_bytes (x ∷ xs) [] = false

-- A notification from a client to the server, 0x400, 0x010 and 0x002, of four fields.
abbrev pub is_setup : Packet → Bool
is_setup p =
    p.len == 4
    && p.request_id ==ℤ negsuc 1
    && p.kind ==ℤ pos 1042
    && same_bytes p.command setup_command

module _ {Db : Type 0} (x : Libraries Db) where
  -- The loop of six items, which ends at an item that is not complete.
  unfoldable pub read_setup : ℕ → List ℕ → Setup → Setup
  read_setup zero bytes s = s
  read_setup (suc n) bytes s =
      let d = x.decode bytes in
      let t = handle_all d.text s in
      let rest = read_setup n (drop d.read bytes) t in if is_finished d.status then rest else t

  -- The packet that is no setup leaves what was read from an earlier one.
  unfoldable pub load_setup_data : Visit → Packet → Setup → World → Bool × Setup × World
  unfolding read_setup
  load_setup_data v p s w =
      if not (is_setup p)
      then (false, s, turn_away v "INVALID SETUP STRING" w)
      else let t = read_setup 6 p.cbor_data reset in
        if is_valid t then (true, t, w) else (false, t, turn_away v "INVALID SETUP STRING" w)

  -- `UserManager::processNewConnection`. The public key that is sent is left out; the callback that
  -- it sets is `process_new_connection`.
  unfoldable pub accept : Config → Visit → Db → World → World
  accept c v db w =
      if not (is_nil (x.select (quoted "SELECT * FROM banip WHERE ip='" v.peer_address) db))
      then turn_away v "you have been banned!" w
      else if is_temp_banned v.peer_address c.temp_banlist
      then turn_away v "you have been temporarily banned!" w
      else if leb c.capacity (length w.online_players_map)
      then turn_away v "server is full!" w
      else tell (early_packet v.socket "NetworkDelayTest" "" ∷ signup_timer v.socket ∷ []) w

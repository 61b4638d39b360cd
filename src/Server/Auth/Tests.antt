-- ===== src/Server/Auth/Tests.antt =====
-- Logins at concrete inputs.
use Prim.Native.String.{String}
use text.Mathlib.Text.{◌==◌ as str_eq}
use freekill_asio.Base.{
  arith, ℕ, zero, suc, ◌≡◌, refl, pos, negsuc, true, false, List, [], ◌∷◌, some, if◌then◌else◌,
  ◌==◌,
}
use freekill_asio.Base.Map.{find}
use freekill_asio.Task.Manager.{no_tasks}
use freekill_asio.Util.SqlText.{check_string}
use freekill_asio.Network.Buffer.{finished, nedata}
use freekill_asio.Network.Builder.{Packet}
use freekill_asio.Server.World.{World}
use freekill_asio.Server.Users.{find_player, add_player, after_conn_id}
use freekill_asio.Server.Room.{lobby_add_player}
use freekill_asio.Server.Auth.{Row, Decoded, Libraries, Config, Visit}
use freekill_asio.Server.Auth.Setup.{Setup, is_setup, is_valid, read_setup, reset, load_setup_data}
use freekill_asio.Server.Auth.Password.{query_user_info}
use freekill_asio.Server.Auth.Enter.{
  enter, create_new_player, process_new_connection, Login, take_over, check_hash, after_query,
  check_password, check_md5, check_uuid, check_login,
}
use freekill_asio.Server.Auth.Admitted.{IsAdmitted}
use freekill_asio.Server.Auth.Created.{next_of, checked, process_new_connection-IsAdmitted}
use freekill_asio.Server.Auth.Unsafe.{load_setup_data_lem, check_login_unsafe}

abbrev alice_row : Row
alice_row =
    ("id", "1")
    ∷ ("name", "alice")
    ∷ ("password", "hash")
    ∷ ("salt", "0011aabb")
    ∷ ("banned", "0")
    ∷ []

abbrev zeros : ℕ → List ℕ
zeros zero = []
zeros (suc n) = 0 ∷ zeros n

abbrev text_of_byte : ℕ → List String
text_of_byte b =
    if b == 0
    then []
    else if b == 1
    then "alice" ∷ []
    else if b == 2
    then "secret" ∷ []
    else if b == 3
    then "v1" ∷ []
    else if b == 4
    then "0.5.19" ∷ []
    else "device" ∷ []

abbrev one_byte : List ℕ → Decoded
one_byte [] = record { status = nedata; read = 0; text = [] }
one_byte (b ∷ bs) = record { status = finished; read = 1; text = text_of_byte b }

-- The data base is the list of the statements that it has run, and knows one user.
abbrev libraries : Libraries (List String)
libraries = record {
  select = λ sql db.
      if str_eq sql "SELECT * FROM userinfo WHERE name='alice';" then alice_row ∷ [] else [];
  exec = λ sql db. sql ∷ db;
  decode = one_byte;
  in_range = λ version. str_eq version "0.5.19";
  find = λ word text. str_eq word text;
  rsa_private_decrypt = λ text. zeros 40;
  sha256 = λ bytes. bytes;
  bytes_of = λ text. [];
  text_of = λ bytes. "hash";
  atoi = λ text. pos 1;
  atoll = λ text. pos 1;
  show = λ n. "1";
}

abbrev config : Config
config = record {
  ban_words = "admin" ∷ [];
  enable_whitelist = false;
  max_players_per_device = pos 5;
  capacity = 100;
  temp_banlist = [];
}

abbrev visit : Visit
visit = record { socket = pos 7; peer_address = "127.0.0.1"; salt = "00ff00ff"; now = pos 1000 }

abbrev alice : Setup
alice = record {
  current_idx = 5;
  name = "alice";
  password = "secret";
  md5 = "v1";
  version = "0.5.19";
  uuid = "device";
}

abbrev world : World
world = record {
  online_players_map = [];
  robots_map = [];
  players_map = [];
  rooms = [];
  lobby = [];
  threads = [];
  tasks = no_tasks;
  md5 = "v1";
  next_conn_id = pos 1003;
  next_robot_id = negsuc 1;
  next_room_id = pos 4;
  next_thread_id = pos 1001;
  log = [];
}

abbrev login : Login (List String)
login = record { db = []; world = world }

alice_enters : (check_login libraries config visit alice login).0 ≡ some alice_row
unfolding check_login check_uuid check_md5 check_password after_query check_hash take_over
    query_user_info check_string find_player find
alice_enters = refl

abbrev setup_packet : Packet
setup_packet = record {
  request_id = negsuc 1;
  kind = pos 1042;
  timeout = pos 0;
  len = 4;
  timestamp = pos 0;
  command = 83 ∷ 101 ∷ 116 ∷ 117 ∷ 112 ∷ [];
  cbor_data = 0 ∷ 1 ∷ 2 ∷ 3 ∷ 4 ∷ 5 ∷ [];
}

load_setup_data_lem_example :
    load_setup_data libraries visit setup_packet reset world ≡ (true, alice, world)
load_setup_data_lem_example =
    load_setup_data_lem libraries visit setup_packet reset world "alice" "secret" "v1" "0.5.19"
      "device" refl
      (refl, refl, (refl, refl, (refl, refl, (refl, refl, (refl, refl, (refl, refl, tt))))))

check_login_unsafe_example :
    (check_login libraries config visit (record alice { uuid = "x'y" }) login).1 ≡ login
check_login_unsafe_example =
    ((check_login_unsafe libraries config visit (record alice { uuid = "x'y" }) login).1
        (unfold check_string in refl)).2
      refl

alice_is_new :
    next_of (process_new_connection libraries config visit setup_packet reset login).1 ≡ pos 1004
unfolding process_new_connection load_setup_data read_setup check_login check_uuid check_md5
    check_password after_query check_hash take_over query_user_info check_string find_player find
    enter create_new_player after_conn_id add_player lobby_add_player
alice_is_new = refl

process_new_connection-IsAdmitted_example :
    let r = process_new_connection libraries config visit setup_packet reset login in
    (is_setup setup_packet ≡ true)
    × (is_valid r.0 ≡ true)
    × (obj : Row) × IsAdmitted libraries config visit r.0 (checked libraries config visit login) obj
process_new_connection-IsAdmitted_example =
    process_new_connection-IsAdmitted libraries config visit setup_packet reset login
      (λ e. ground (arith, alice_is_new, e))

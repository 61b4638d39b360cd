-- ===== src/Server/Steps/Examples.antt =====
-- A server with one user, libraries, packets and rooms, for the tests.
use Prim.Native.String.{String}
use text.Mathlib.Text.{starts_with}
use freekill_asio.Base.{ℕ, pos, negsuc, true, false, List, [], ◌∷◌, none, some, if◌then◌else◌}
use freekill_asio.Task.Manager.{no_tasks}
use freekill_asio.Network.Buffer.{finished}
use freekill_asio.Network.Builder.{Packet}
use freekill_asio.Server.World.{World, ServerPlayer, Room, online}
use freekill_asio.Server.Auth.{Row, Libraries, Visit}
use freekill_asio.Server.Auth.Setup.{reset}
use freekill_asio.Server.Auth.Enter.{Login, create_new_player}
use freekill_asio.Server.Packets.{Readers, Context}
use freekill_asio.Server.Packets.Chat.{object}
use freekill_asio.Server.Lobby.Tasks.{array}

abbrev pub alice_row : Row
alice_row = ("id", "1") ∷ ("password", "hash") ∷ ("salt", "0011aabb") ∷ ("banned", "1") ∷ []

abbrev pub hash_or_command : List ℕ → String
hash_or_command [] = "hash"
hash_or_command (b ∷ bs) = "Chat"

-- The data base is the list of the statements that it has run; nobody is muted or banned for a time.
abbrev pub libraries : Libraries (List String)
libraries = record {
  select = λ sql db.
      if starts_with sql "SELECT expireAt"
      then []
      else if starts_with sql "SELECT uid"
      then []
      else alice_row ∷ [];
  exec = λ sql db. sql ∷ db;
  decode = λ bytes. record { status = finished; read = 1; text = [] };
  in_range = λ version. true;
  find = λ text part. false;
  rsa_private_decrypt = λ text. [];
  sha256 = λ bytes. [];
  bytes_of = λ text. 104 ∷ 105 ∷ [];
  text_of = hash_or_command;
  atoi = λ text. pos 1;
  atoll = λ text. pos 1;
  show = λ n. "1";
}

-- Every packet says "hi" to the lobby.
abbrev pub readers : Readers ℕ
readers = record {
  text = λ bytes. none;
  int = λ bytes. pos 0;
  join = λ bytes. record { count = 0; id = none; password = none };
  fields =
      λ bytes. record { count = 0; name = none; capacity = none; timeout = none; settings = "" };
  passwords = λ bytes. record { count = 0; old = none; fresh = none };
  said = λ bytes. object (some (pos 1)) (some "hi");
  from_cbor = λ bytes. array [];
  to_text = λ j. none;
  to_cbor = λ j. "";
  load_settings = λ text. none;
}

abbrev pub context : Context
context = record {
  config = record {
    ban_words = [];
    enable_whitelist = false;
    max_players_per_device = pos 5;
    capacity = 100;
    temp_banlist = [];
  };
  disabled_features = [];
  room_count_per_thread = pos 2000;
  now = pos 1000;
  stoll = λ text. none;
}

abbrev pub empty_world : World
empty_world = record {
  online_players_map = [];
  robots_map = [];
  players_map = [];
  rooms = [];
  lobby = [];
  threads = [];
  tasks = no_tasks;
  md5 = "v1";
  next_conn_id = pos 1003;
  next_robot_id = negsuc 1;
  next_room_id = pos 4;
  next_thread_id = pos 1001;
  log = [];
}

abbrev pub first_state : Login (List String)
first_state = record { db = []; world = empty_world }

abbrev pub visit : Visit
visit = record { socket = pos 7; peer_address = "127.0.0.1"; salt = "00ff00ff"; now = pos 1000 }

abbrev pub chat_packet : Packet
chat_packet = record {
  request_id = negsuc 1;
  kind = pos 1042;
  timeout = pos 0;
  len = 4;
  timestamp = pos 0;
  command = 67 ∷ [];
  cbor_data = [];
}

abbrev pub alice : ServerPlayer
alice = record {
  conn_id = pos 1003;
  id = pos 1;
  state = online;
  ready = false;
  died = false;
  runned = false;
  thinking = false;
  room_id = pos 0;
  socket = some (pos 7);
  screen_name = "";
  avatar = "liubei";
  last_game_mode = "";
  total_game_time = pos 1;
  total_games = pos 0;
  win_count = pos 0;
  run_count = pos 0;
  ttl = pos 6;
}

-- The lobby with one user.
unfoldable pub entered : Login (List String)
unfolding create_new_player
entered = create_new_player libraries visit reset "liubei" (pos 1) first_state

abbrev pub full_room : Room
full_room = record {
  id = pos 3;
  thread_id = pos 1000;
  players = pos 1001 ∷ [];
  observers = [];
  name = "room";
  capacity = 1;
  owner_conn_id = pos 1001;
  settings = "";
  game_mode = "";
  password = "secret";
  rejected_players = [];
  timeout = pos 15;
  md5 = "v1";
  lua_ref_count = pos 0;
  session_id = pos 0;
  session_data = "{}";
  request_timer = false;
}

abbrev pub two_rooms : World
two_rooms = record empty_world {
  rooms = (pos 3, full_room) ∷ (pos 4, record full_room { id = pos 4; capacity = 2 }) ∷ [];
}

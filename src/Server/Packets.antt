-- ===== src/Server/Packets.antt =====
-- How a packet of a user finds its handler: `ServerPlayer::onNotificationGot` of
-- src/server/user/serverplayer.cpp, and `handlePacket` of `Lobby` and `Room`.
pub mod Account
pub mod Chat
pub mod RoomList
pub mod Sound
pub mod Kept
use Prim.Native.String.{String}
use text.Mathlib.Text.{◌==◌ as str_eq}
use freekill_asio.Base.{
  ℕ, ℤ, pos, Bool, true, false, not, List, [], ◌∷◌, Option, none, some, if◌then◌else◌, ◌==ℤ◌,
}
use freekill_asio.Base.Map.{find}
use freekill_asio.Network.Builder.{Packet}
use freekill_asio.Rpc.Dispatch.Saves.{get_global_save_state}
use freekill_asio.Server.World.{
  max_ttl, set_player, World, ServerPlayer, Room, nobody, push_request, tell, on_thread,
}
use freekill_asio.Server.Room.{add_robot}
use freekill_asio.Server.Game.{kick_player, quit_room, ready, start_game, toggle_trust}
use freekill_asio.Server.Lobby.{RoomFields, change_room, join_room, lobby_create_room}
use freekill_asio.Server.Lobby.Tasks.{Content, handle_task}
use freekill_asio.Server.Settings.{Pair}
use freekill_asio.Server.Auth.{Libraries, Config}
use freekill_asio.Server.Auth.Password.{check_ban_word}
use freekill_asio.Server.Auth.Enter.{Login}
use freekill_asio.Server.Packets.Account.{PasswordFields, update_avatar, update_password}
use freekill_asio.Server.Packets.Chat.{Said, chat}
use freekill_asio.Server.Packets.RoomList.{refresh_room_list}

pub record JoinFields : Type 0 where
  pub count : ℕ
  pub id : Option ℤ
  pub password : Option String

-- What libcbor and the JSON library read from the bytes of a packet, for each kind of packet, and
-- how the second writes an element. `int` is 0 where there is no integer.
pub record Readers (J : Type 0) : Type 0 where
  pub text : List ℕ → Option String
  pub int : List ℕ → ℤ
  pub join : List ℕ → JoinFields
  pub fields : List ℕ → RoomFields
  pub passwords : List ℕ → PasswordFields
  pub said : List ℕ → Said
  pub from_cbor : List ℕ → Content J
  pub to_text : J → Option String
  pub to_cbor : J → String
  pub load_settings : String → Option (List Pair)

-- What else a handler asks for: the configuration, the time, and `std::stoll`.
pub record Context : Type 0 where
  pub config : Config
  pub disabled_features : List String
  pub room_count_per_thread : ℤ
  pub now : ℤ
  pub stoll : String → Option ℤ

abbrev pub is_in : String → List String → Bool
is_in s [] = false
is_in s (t ∷ ts) = let rest = is_in s ts in if str_eq t s then true else rest

abbrev pub in_world : {Db : Type 0} → (World → World) → Login Db → Option (Login Db)
in_world f l = some (record l { world = f l.world })

-- `RoomBase::readGlobalSaveState`
unfoldable pub read_global_save_state : Option String → ServerPlayer → World → World
unfolding get_global_save_state
read_global_save_state none p w = w
read_global_save_state (some key) p w = get_global_save_state p key nobody w

-- `Room::addRobotRequest`
unfoldable pub add_robot_request : List String → ServerPlayer → Room → World → World
unfolding add_robot
add_robot_request disabled p r w = if is_in "AddRobot" disabled then w else add_robot p r w

unfoldable pub push_text : Option String → ServerPlayer → Room → World → World
push_text none p r w = w
push_text (some t) p r w = tell (on_thread r (push_request r.id p.id t) w) w

-- The handler that a map of commands has for one, if any.
abbrev pub handler_of : {A : Type 0} → List (String × A) → String → Option A
handler_of [] command = none
handler_of ((c, h) ∷ hs) command =
    let rest = handler_of hs command in if str_eq c command then some h else rest

module _ {Db J : Type 0} (x : Libraries Db) (d : Readers J) (c : Context) where
  abbrev pub RoomHandler : Type 0
  RoomHandler = ServerPlayer → Room → Login Db → Option (Login Db)

  -- `room_actions`; a handler is given the bytes of the packet and who sends it.
  unfoldable pub room_actions : List (String × (List ℕ → RoomHandler))
  unfolding quit_room add_robot_request kick_player ready start_game toggle_trust change_room chat
      read_global_save_state
  room_actions =
      ("QuitRoom", λ bytes p r. in_world (quit_room p r))
      ∷ ("AddRobot", λ bytes p r. in_world (add_robot_request c.disabled_features p r))
      ∷ ("KickPlayer", λ bytes p r. in_world (kick_player (d.int bytes) r))
      ∷ ("Ready", λ bytes p r. in_world (ready p r))
      ∷ ("StartGame", λ bytes p r. in_world (start_game r))
      ∷ ("Trust", λ bytes p r. in_world (toggle_trust p r))
      ∷ ("ChangeRoom", λ bytes p r. in_world (change_room d.load_settings (d.fields bytes) p r))
      ∷ ("Chat", λ bytes p r. chat x c.stoll c.config c.now (d.said bytes) p (some r))
      ∷ ("ReadGlobalSaveState", λ bytes p r. in_world (read_global_save_state (d.text bytes) p))
      ∷ []

  -- A thrown exception is `none`.
  abbrev pub on_world : Login Db → Option World → Option (Login Db)
  on_world l none = none
  on_world l (some w) = some (record l { world = w })

  unfoldable pub task_packet : List ℕ → ServerPlayer → Login Db → Option (Login Db)
  unfolding handle_task
  task_packet bytes p l =
      on_world l
        (handle_task d.from_cbor d.to_text d.to_cbor c.room_count_per_thread p bytes l.world)

  -- `Lobby::joinRoom`, for `enterRoom` and `observeRoom`
  unfoldable pub join_packet : Bool → List ℕ → ServerPlayer → World → World
  unfolding join_room
  join_packet observe bytes p w =
      let f = d.join bytes in join_room observe f.count f.id f.password p w

  unfoldable pub create_packet : List ℕ → ServerPlayer → World → World
  unfolding lobby_create_room
  create_packet bytes p w =
      lobby_create_room d.load_settings (check_ban_word x c.config.ban_words)
        c.room_count_per_thread (d.fields bytes) p w

  -- `lobby_actions`
  unfoldable pub lobby_actions :
      List (String × (List ℕ → ServerPlayer → Login Db → Option (Login Db)))
  unfolding update_avatar update_password create_packet join_packet refresh_room_list task_packet
      chat read_global_save_state
  lobby_actions =
      ("UpdateAvatar", λ bytes p l. some (update_avatar x (d.text bytes) p l))
      ∷ ("UpdatePassword", λ bytes p l. some (update_password x (d.passwords bytes) p l))
      ∷ ("CreateRoom", λ bytes p. in_world (create_packet bytes p))
      ∷ ("EnterRoom", λ bytes p. in_world (join_packet false bytes p))
      ∷ ("ObserveRoom", λ bytes p. in_world (join_packet true bytes p))
      ∷ ("RefreshRoomList", λ bytes p. in_world (refresh_room_list p))
      ∷ ("LobbyTask", task_packet)
      ∷ ("Chat", λ bytes p. chat x c.stoll c.config c.now (d.said bytes) p none)
      ∷ ("ReadGlobalSaveState", λ bytes p. in_world (read_global_save_state (d.text bytes) p))
      ∷ []

  abbrev pub act :
      Option (List ℕ → ServerPlayer → Login Db → Option (Login Db))
      → List ℕ
      → ServerPlayer
      → Login Db
      → Option (Login Db)
  act none bytes p l = some l
  act (some h) bytes p l = h bytes p l

  abbrev pub act_in :
      Option (List ℕ → RoomHandler) → List ℕ → ServerPlayer → Room → Login Db → Option (Login Db)
  act_in none bytes p r l = some l
  act_in (some h) bytes p r l = h bytes p r l

  -- `Lobby::handlePacket`
  unfoldable pub lobby_handle_packet : String → List ℕ → ServerPlayer → Login Db → Option (Login Db)
  unfolding lobby_actions
  lobby_handle_packet command bytes p l = act (handler_of lobby_actions command) bytes p l

  -- `Room::handlePacket`
  unfoldable pub room_handle_packet : String → List ℕ → RoomHandler
  unfolding room_actions push_text
  room_handle_packet command bytes p r l =
      if str_eq command "PushRequest"
      then in_world (push_text (d.text bytes) p r) l
      else act_in (handler_of room_actions command) bytes p r l

  -- The room of a player; id 0 is the lobby.
  unfoldable pub in_room :
      String → List ℕ → ServerPlayer → Option Room → Login Db → Option (Login Db)
  unfolding room_handle_packet
  in_room command bytes p none l = some l
  in_room command bytes p (some r) l = room_handle_packet command bytes p r l

  -- `ServerPlayer::onNotificationGot`
  unfoldable pub on_notification : Packet → ServerPlayer → Login Db → Option (Login Db)
  unfolding lobby_handle_packet in_room
  on_notification k p l =
      let command = x.text_of k.command in
      if str_eq command "Heartbeat"
      then some (record l { world = set_player (record p { ttl = max_ttl }) l.world })
      else if p.room_id ==ℤ pos 0
      then lobby_handle_packet command k.cbor_data p l
      else in_room command k.cbor_data p (find p.room_id l.world.rooms) l

-- ===== src/Server/Packets/Kept.antt =====
-- The two tables of handlers, and `on_notification`, keep the maps in order.
use Prim.Native.String.{String}
use text.Mathlib.Text.{◌==◌ as str_eq}
use freekill_asio.Base.{
  ℕ, pos, ◌≡◌, refl, not, ◌||◌, ◌==◌, if_cases, true, false, List, Option, none, some, ◌==ℤ◌,
}
use freekill_asio.Base.Map.{find}
use freekill_asio.Network.Builder.{Packet}
use freekill_asio.Server.World.{max_ttl, World, ServerPlayer, Room}
use freekill_asio.Server.Lobby.Tasks.{handle_task}
use freekill_asio.Server.Auth.{Libraries}
use freekill_asio.Util.SqlText.{check_string}
use freekill_asio.Server.Auth.Password.{check_ban_word}
use freekill_asio.Server.Auth.Enter.{Login}
use freekill_asio.Server.Packets.{
  Readers, Context, RoomHandler, handler_of, act, act_in, room_actions, lobby_actions, on_world,
  task_packet, join_packet, create_packet, lobby_handle_packet, room_handle_packet, in_room,
  on_notification,
}
use freekill_asio.Server.Packets.Account.{
  PasswordFields, store_avatar, change_password, take_passwords, update_avatar, update_password,
}
use freekill_asio.Server.Packets.Sound.{
  KeepsOrder, kept, thrown, All, no-All, and-All, chat-KeepsOrder, refresh_room_list-IsSound,
  read_global_save_state-IsSound, add_robot_request-IsSound, push_text-IsSound,
}
use freekill_asio.Server.Sound.{IsSound, IsFine, set_player-IsSound, sound, tell-IsSound}
use freekill_asio.Server.Sound.Games.{
  kick_player-IsSound, quit_room-IsSound, ready-IsSound, start_game-IsSound, toggle_trust-IsSound,
}
use freekill_asio.Server.Sound.Lobbies.{
  change_room-IsSound, join_room-IsSound, lobby_create_room-IsSound, handle_task-IsSound,
}

module _ {Db J : Type 0} (x : Libraries Db) (d : Readers J) (c : Context) where
  abbrev RoomHandlerKeeps : (List ℕ → RoomHandler x d c) → Type 0
  RoomHandlerKeeps h =
      (bytes : List ℕ) (p : ServerPlayer) (r : Room) (l : Login Db)
      → IsFine p.socket p.id
      → IsSound l.world
      → KeepsOrder (h bytes p r l)

  abbrev HandlerKeeps : (List ℕ → ServerPlayer → Login Db → Option (Login Db)) → Type 0
  HandlerKeeps h =
      (bytes : List ℕ) (p : ServerPlayer) (l : Login Db)
      → IsFine p.socket p.id
      → IsSound l.world
      → KeepsOrder (h bytes p l)

  room_actions-All : All RoomHandlerKeeps (room_actions x d c)
  unfolding room_actions
  room_actions-All =
      and-All _ _ _ _ (λ bytes p r l f s. kept _ (quit_room-IsSound p r l.world f s))
        (and-All _ _ _ _
          (λ bytes p r l f s. kept _ (add_robot_request-IsSound c.disabled_features p r l.world s))
          (and-All _ _ _ _
            (λ bytes p r l f s. kept _ (kick_player-IsSound (d.int bytes) r l.world s))
            (and-All _ _ _ _ (λ bytes p r l f s. kept _ (ready-IsSound p r l.world f s))
              (and-All _ _ _ _ (λ bytes p r l f s. kept _ (start_game-IsSound r l.world s))
                (and-All _ _ _ _ (λ bytes p r l f s. kept _ (toggle_trust-IsSound p r l.world f s))
                  (and-All _ _ _ _
                    (λ bytes p r l f s.
                      kept _ (change_room-IsSound d.load_settings (d.fields bytes) p r l.world s))
                    (and-All _ _ _ _
                      (λ bytes p r l f s. chat-KeepsOrder x d c (d.said bytes) p (some r) l s)
                      (and-All _ _ _ _
                        (λ bytes p r l f s.
                          kept _ (read_global_save_state-IsSound (d.text bytes) p l.world s))
                        (no-All _)))))))))

  update_avatar-IsSound :
      (o : Option String) (p : ServerPlayer) (l : Login Db)
      → IsFine p.socket p.id
      → IsSound l.world
      → IsSound (update_avatar x o p l).world
  unfolding update_avatar store_avatar
  update_avatar-IsSound none p l f s = s
  update_avatar-IsSound (some a) p l f s =
      if_cases (λ (m : Login Db). IsSound m.world) (str_eq a "" || not (check_string a)) (λ _. s)
        (λ _. search sound depth 12)

  take_passwords-IsSound :
      (old fresh : Option String) (p : ServerPlayer) (l : Login Db)
      → IsSound l.world
      → IsSound (take_passwords x old fresh p l).world
  unfolding take_passwords change_password
  take_passwords-IsSound (some old) (some fresh) p l s =
      if_cases (λ (m : Login Db). IsSound m.world) (str_eq old "" || str_eq fresh "") (λ _. s)
        (λ _. tell-IsSound _ l.world s)
  take_passwords-IsSound none fresh p l s = s
  take_passwords-IsSound (some old) none p l s = s

  update_password-IsSound :
      (g : PasswordFields) (p : ServerPlayer) (l : Login Db)
      → IsSound l.world
      → IsSound (update_password x g p l).world
  unfolding update_password
  update_password-IsSound g p l s =
      if_cases (λ (m : Login Db). IsSound m.world) (not (g.count == 2)) (λ _. s)
        (λ _. take_passwords-IsSound g.old g.fresh p l s)

  task_packet-KeepsOrder :
      (bytes : List ℕ) (p : ServerPlayer) (l : Login Db)
      → IsSound l.world
      → KeepsOrder (task_packet x d c bytes p l)
  unfolding task_packet
  task_packet-KeepsOrder bytes p l s =
      found (handle_task d.from_cbor d.to_text d.to_cbor c.room_count_per_thread p bytes l.world)
        (λ v h.
          handle_task-IsSound d.from_cbor d.to_text d.to_cbor c.room_count_per_thread p bytes
            l.world v s h)
    where
      found :
          (o : Option World)
          → ((v : World) → o ≡ some v → IsSound v)
          → KeepsOrder (on_world x d c l o)
      found none g = thrown
      found (some v) g = kept _ (g v refl)

  lobby_actions-All : All HandlerKeeps (lobby_actions x d c)
  unfolding lobby_actions join_packet create_packet
  lobby_actions-All =
      and-All _ _ _ _ (λ bytes p l f s. kept _ (update_avatar-IsSound (d.text bytes) p l f s))
        (and-All _ _ _ _
          (λ bytes p l f s. kept _ (update_password-IsSound (d.passwords bytes) p l s))
          (and-All _ _ _ _
            (λ bytes p l f s. kept _ (
              lobby_create_room-IsSound d.load_settings (check_ban_word x c.config.ban_words)
                c.room_count_per_thread (d.fields bytes) p l.world f s))
            (and-All _ _ _ _
              (λ bytes p l f s.
                let g = d.join bytes in
                kept _ (join_room-IsSound false g.count g.id g.password p l.world f s))
              (and-All _ _ _ _
                (λ bytes p l f s.
                  let g = d.join bytes in
                  kept _ (join_room-IsSound true g.count g.id g.password p l.world f s))
                (and-All _ _ _ _ (λ bytes p l f s. kept _ (refresh_room_list-IsSound p l.world s))
                  (and-All _ _ _ _ (λ bytes p l f s. task_packet-KeepsOrder bytes p l s)
                    (and-All _ _ _ _
                      (λ bytes p l f s. chat-KeepsOrder x d c (d.said bytes) p none l s)
                      (and-All _ _ _ _
                        (λ bytes p l f s.
                          kept _ (read_global_save_state-IsSound (d.text bytes) p l.world s))
                        (no-All _)))))))))

  act-KeepsOrder :
      (o : Option (List ℕ → ServerPlayer → Login Db → Option (Login Db))) (bytes : List ℕ)
      (p : ServerPlayer) (l : Login Db)
      → ((h : List ℕ → ServerPlayer → Login Db → Option (Login Db)) → o ≡ some h → HandlerKeeps h)
      → IsFine p.socket p.id
      → IsSound l.world
      → KeepsOrder (act x d c o bytes p l)
  act-KeepsOrder none bytes p l g f s = kept l s
  act-KeepsOrder (some h) bytes p l g f s = g h refl bytes p l f s

  act_in-KeepsOrder :
      (o : Option (List ℕ → RoomHandler x d c)) (bytes : List ℕ) (p : ServerPlayer) (r : Room)
      (l : Login Db)
      → ((h : List ℕ → RoomHandler x d c) → o ≡ some h → RoomHandlerKeeps h)
      → IsFine p.socket p.id
      → IsSound l.world
      → KeepsOrder (act_in x d c o bytes p r l)
  act_in-KeepsOrder none bytes p r l g f s = kept l s
  act_in-KeepsOrder (some h) bytes p r l g f s = g h refl bytes p r l f s

  room_handle_packet-KeepsOrder :
      (command : String) (bytes : List ℕ) (p : ServerPlayer) (o : Option Room) (l : Login Db)
      → IsFine p.socket p.id
      → IsSound l.world
      → KeepsOrder (in_room x d c command bytes p o l)
  unfolding in_room room_handle_packet All
  room_handle_packet-KeepsOrder command bytes p none l f s = kept l s
  room_handle_packet-KeepsOrder command bytes p (some r) l f s =
      if_cases KeepsOrder (str_eq command "PushRequest")
        (λ _. kept _ (push_text-IsSound (d.text bytes) p r l.world s))
        (λ _.
          act_in-KeepsOrder (handler_of (room_actions x d c) command) bytes p r l
            (λ h e. room_actions-All command h e) f s)

  -- Whatever packet a user sends, of the lobby or of a room: unless a handler throws, the maps of
  -- the server are in order after it if they were before.
  pub on_notification-IsSound :
      (k : Packet) (p : ServerPlayer) (l m : Login Db)
      → IsFine p.socket p.id
      → IsSound l.world
      → on_notification x d c k p l ≡ some m
      → IsSound m.world
  unfolding on_notification lobby_handle_packet All
  on_notification-IsSound k p l m f s =
      let command = x.text_of k.command in
      if_cases KeepsOrder (str_eq command "Heartbeat")
        (λ _. kept _ (set_player-IsSound (record p { ttl = max_ttl }) l.world f s))
        (λ _.
          if_cases KeepsOrder (p.room_id ==ℤ pos 0)
            (λ _.
              act-KeepsOrder (handler_of (lobby_actions x d c) command) k.cbor_data p l
                (λ h e. lobby_actions-All command h e) f s)
            (λ _.
              room_handle_packet-KeepsOrder command k.cbor_data p (find p.room_id l.world.rooms) l f
                s))
        m

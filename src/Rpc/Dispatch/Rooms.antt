-- ===== src/Rpc/Dispatch/Rooms.antt =====
-- The dispatchers for rooms.
use Prim.Native.String.{String}
use freekill_asio.Base.{
  ℤ, pos, true, false, not, List, [], ◌∷◌, ◌++◌, Option, none, some, if◌then◌else◌, is_positive,
}
use freekill_asio.Base.Map.{find}
use freekill_asio.Rpc.Packet.{RpcPacket, int, string, view, boolean}
use freekill_asio.Rpc.Dispatch.Guards.{
  Handler, refuse, missing, succeed, give, found, one_int, two_ints, int_view, int_view_view,
}
use freekill_asio.Rpc.Dispatch.Saves.{base_save_global_state, base_get_global_save_state}
use freekill_asio.Server.World.{
  World, ServerPlayer, Room, room_of, room_delay, set_timer, set_room, tell, on_thread,
}
use freekill_asio.Server.Game.{with_found}
use freekill_asio.Server.Game.Over.{game_over}
use freekill_asio.Server.Abandon.{decrease_ref_count, add_npc, remove_npc}

-- The room that a dispatcher is about.
abbrev pub on_room : ℤ → (Room → Handler) → Handler
on_room id f w = found (find id w.rooms) (missing "Room not found") f w

-- `Room::delay`
abbrev delay_room : Room → ℤ → World → World
delay_room r ms w = tell (on_thread r (room_delay r.id ms) w) w

unfoldable pub rpc_room_delay : RpcPacket → Handler
rpc_room_delay p = two_ints p (λ id ms.
    if not (is_positive ms) then refuse else on_room id (λ r w. succeed (delay_room r ms w)))

-- `Room::setRequestTimer`: nothing without a thread.
abbrev start_timer : Room → ℤ → World → World
start_timer r ms w =
    with_found (find r.thread_id w.threads)
      (λ _ v. tell (set_timer r.id ms ∷ []) (set_room (record r { request_timer = true }) v)) w

unfoldable pub rpc_room_set_request_timer : RpcPacket → Handler
rpc_room_set_request_timer p = two_ints p (λ id ms.
    if not (is_positive ms) then refuse else on_room id (λ r w. succeed (start_timer r ms w)))

unfoldable pub rpc_room_destroy_request_timer : RpcPacket → Handler
rpc_room_destroy_request_timer p =
    one_int p (λ id. on_room id (λ r w. succeed (set_room (record r { request_timer = false }) w)))

unfoldable pub rpc_room_decrease_ref_count : RpcPacket → Handler
unfolding decrease_ref_count
rpc_room_decrease_ref_count p =
    one_int p (λ id. on_room id (λ r w. succeed (decrease_ref_count r w)))

unfoldable pub rpc_room_get_session_id : RpcPacket → Handler
rpc_room_get_session_id p = one_int p (λ id. on_room id (λ r. give (int r.session_id)))

unfoldable pub rpc_room_get_session_data : RpcPacket → Handler
rpc_room_get_session_data p = one_int p (λ id. on_room id (λ r. give (view r.session_data)))

unfoldable pub rpc_room_set_session_data : RpcPacket → Handler
rpc_room_set_session_data p =
    int_view p (λ id d. on_room id (λ r w. succeed (set_room (record r { session_data = d }) w)))

unfoldable pub rpc_room_remove_npc : RpcPacket → Handler
unfolding remove_npc
rpc_room_remove_npc p = two_ints p (λ id conn. on_room id (λ r w.
    found (find conn w.players_map) (missing "Player not found") (λ q v. succeed (remove_npc q r v))
      w))

unfoldable pub rpc_room_save_global_state : RpcPacket → Handler
unfolding base_save_global_state
rpc_room_save_global_state p = int_view_view p (λ id key d w.
    found (find id w.rooms) refuse
      (λ r v. give (boolean true) (base_save_global_state key (room_of r.id) v)) w)

unfoldable pub rpc_room_get_global_save_state : RpcPacket → Handler
unfolding base_get_global_save_state
rpc_room_get_global_save_state p = int_view p (λ id key w.
    found (find id w.rooms) refuse
      (λ r v. give (boolean true) (base_get_global_save_state key (room_of r.id) v)) w)

-- What `json::to_cbor` makes of a player is a parameter.
module _ (player_object : ServerPlayer → String) where
  unfoldable pub rpc_room_add_npc : RpcPacket → Handler
  unfolding add_npc
  rpc_room_add_npc p =
      one_int p (λ id.
        on_room id (λ r w. let (v, bot) = add_npc r w in give (string (player_object bot)) v))

  abbrev objects : List ℤ → World → List String
  objects [] w = []
  objects (conn ∷ conns) w = object (find conn w.players_map) ++ objects conns w
    where
      object : Option ServerPlayer → List String
      object none = []
      object (some p) = player_object p ∷ []

  abbrev owner_id : Option ServerPlayer → ℤ
  owner_id none = pos 0
  owner_id (some p) = p.id

  -- `RoomThread_getRoom`; `room_object` makes one text of the room, its owner's id and its players.
  unfoldable pub room_thread_get_room : (Room → ℤ → List String → String) → RpcPacket → Handler
  room_thread_get_room room_object p = one_int p (λ id.
      if not (is_positive id)
      then refuse
      else on_room id (λ r w.
        give
          (string
            (room_object r (owner_id (find r.owner_conn_id w.players_map)) (objects r.players w)))
          w))

-- The time that a player's timer shows is a parameter.
module _ (game_time : ServerPlayer → ℤ) where
  unfoldable pub rpc_room_game_over : RpcPacket → Handler
  unfolding game_over
  rpc_room_game_over p = one_int p (λ id. on_room id (λ r w. succeed (game_over game_time r w)))

-- ===== src/Rpc/Dispatch/Methods.antt =====
-- `RpcDispatchers::ServerRpcMethods`, without the methods that are SQL (the win rates) and
-- `ServerPlayer_waitForReply`.
use Prim.Native.String.{String}
use text.Mathlib.Text.{◌==◌ as str_eq}
use freekill_asio.Base.{ℤ, List, [], ◌∷◌, Option, none, some, if◌then◌else◌}
use freekill_asio.Task.{Task}
use freekill_asio.Rpc.Packet.{RpcPacket}
use freekill_asio.Rpc.Dispatch.Guards.{Handler}
use freekill_asio.Rpc.Dispatch.Tasks.{
  task_delay, task_decrease_ref_count, task_save_global_state, task_get_global_save_state,
  task_save_player_global_state, task_get_player_global_save_state, task_get_player,
  server_get_task,
}
use freekill_asio.Rpc.Dispatch.Players.{
  log_line, print, player_do_request, player_do_notify, player_thinking, player_set_thinking,
  player_set_died, player_emit_kick, player_save_state, player_get_save_state,
  player_save_global_state, player_get_global_save_state,
}
use freekill_asio.Rpc.Dispatch.Rooms.{
  rpc_room_delay, rpc_room_game_over, rpc_room_set_request_timer, rpc_room_destroy_request_timer,
  rpc_room_decrease_ref_count, rpc_room_get_session_id, rpc_room_get_session_data,
  rpc_room_set_session_data, rpc_room_add_npc, rpc_room_remove_npc, rpc_room_save_global_state,
  rpc_room_get_global_save_state, room_thread_get_room,
}
use freekill_asio.Server.World.{ServerPlayer, Room}

abbrev pub Method : Type 0
Method = RpcPacket → Handler

-- The find of the map of methods.
abbrev pub lookup : List (String × Method) → String → Option Method
lookup [] name = none
lookup ((n, f) ∷ ms) name = let rest = lookup ms name in if str_eq name n then some f else rest

abbrev pub log_methods : List (String × Method)
log_methods =
    ("qDebug", log_line)
    ∷ ("qInfo", log_line)
    ∷ ("qWarning", log_line)
    ∷ ("qCritical", log_line)
    ∷ ("print", print)
    ∷ []

abbrev pub player_methods : List (String × Method)
player_methods =
    ("ServerPlayer_doRequest", player_do_request)
    ∷ ("ServerPlayer_doNotify", player_do_notify)
    ∷ ("ServerPlayer_thinking", player_thinking)
    ∷ ("ServerPlayer_setThinking", player_set_thinking)
    ∷ ("ServerPlayer_setDied", player_set_died)
    ∷ ("ServerPlayer_emitKick", player_emit_kick)
    ∷ ("ServerPlayer_saveState", player_save_state)
    ∷ ("ServerPlayer_getSaveState", player_get_save_state)
    ∷ ("ServerPlayer_saveGlobalState", player_save_global_state)
    ∷ ("ServerPlayer_getGlobalSaveState", player_get_global_save_state)
    ∷ log_methods

-- How `json::to_cbor` writes a player, a task and a room is a parameter, and so is the time that a
-- player's timer shows.
module _ (player_object : ServerPlayer → String) (task_object : Task → String)
    (room_object : Room → ℤ → List String → String) (game_time : ServerPlayer → ℤ) where
  abbrev pub room_methods : List (String × Method)
  room_methods =
      ("Room_delay", rpc_room_delay)
      ∷ ("Room_gameOver", rpc_room_game_over game_time)
      ∷ ("Room_setRequestTimer", rpc_room_set_request_timer)
      ∷ ("Room_destroyRequestTimer", rpc_room_destroy_request_timer)
      ∷ ("Room_decreaseRefCount", rpc_room_decrease_ref_count)
      ∷ ("Room_getSessionId", rpc_room_get_session_id)
      ∷ ("Room_getSessionData", rpc_room_get_session_data)
      ∷ ("Room_setSessionData", rpc_room_set_session_data)
      ∷ ("Room_addNpc", rpc_room_add_npc player_object)
      ∷ ("Room_removeNpc", rpc_room_remove_npc)
      ∷ ("Room_saveGlobalState", rpc_room_save_global_state)
      ∷ ("Room_getGlobalSaveState", rpc_room_get_global_save_state)
      ∷ ("RoomThread_getRoom", room_thread_get_room player_object room_object)
      ∷ player_methods

  abbrev pub server_rpc_methods : List (String × Method)
  server_rpc_methods =
      ("Task_delay", task_delay)
      ∷ ("Task_decreaseRefCount", task_decrease_ref_count)
      ∷ ("Task_saveGlobalState", task_save_global_state)
      ∷ ("Task_getGlobalSaveState", task_get_global_save_state)
      ∷ ("Task_savePlayerGlobalState", task_save_player_global_state)
      ∷ ("Task_getPlayerGlobalSaveState", task_get_player_global_save_state)
      ∷ ("Task_getPlayer", task_get_player player_object task_object)
      ∷ ("Server_getTask", server_get_task player_object task_object)
      ∷ room_methods

-- ===== src/Rpc/Dispatch/Ordered/Calls.antt =====
-- Every method that Lua may call leaves the maps of the server in order.
use Prim.Native.String.{String}
use freekill_asio.Base.{ℤ, List, if_cases}
use freekill_asio.Task.{Task}
use freekill_asio.Rpc.Packet.{RpcPacket}
use freekill_asio.Rpc.Dispatch.Tasks.{
  task_delay, task_decrease_ref_count, task_save_global_state, task_get_global_save_state,
  task_save_player_global_state, task_get_player_global_save_state, task_get_player,
  server_get_task,
}
use freekill_asio.Rpc.Dispatch.Players.{
  log_line, are_views, print, player_do_request, player_do_notify, player_thinking,
  player_set_thinking, player_set_died, player_emit_kick, player_save_state, player_get_save_state,
  player_save_global_state, player_get_global_save_state,
}
use freekill_asio.Rpc.Dispatch.Rooms.{
  rpc_room_delay, rpc_room_game_over, rpc_room_set_request_timer, rpc_room_destroy_request_timer,
  rpc_room_decrease_ref_count, rpc_room_get_session_id, rpc_room_get_session_data,
  rpc_room_set_session_data, rpc_room_add_npc, rpc_room_remove_npc, rpc_room_save_global_state,
  rpc_room_get_global_save_state, room_thread_get_room,
}
use freekill_asio.Rpc.Dispatch.Ordered.{IsOrdered, ordered, out-IsOrdered, found_player-IsOrdered}
use freekill_asio.Rpc.Dispatch.Ordered.Saves.{
  save_state-IsSound, get_save_state-IsSound, save_global_state-IsSound,
  get_global_save_state-IsSound, base_save_global_state-IsSound, base_get_global_save_state-IsSound,
}
use freekill_asio.Server.World.{World, ServerPlayer, Room}
use freekill_asio.Server.Sound.{IsSound, sound}
use freekill_asio.Server.Sound.Games.{game_over-IsSound}
use freekill_asio.Server.Sound.Ends.{
  decrease_ref_count-IsSound, add_npc-IsSound, remove_npc-IsSound,
}

ruleset calls = (
  ordered, sound, found_player-IsOrdered, save_state-IsSound, get_save_state-IsSound,
  save_global_state-IsSound, get_global_save_state-IsSound, base_save_global_state-IsSound,
  base_get_global_save_state-IsSound, game_over-IsSound, decrease_ref_count-IsSound,
  add_npc-IsSound, remove_npc-IsSound,
)

module _ (w : World) (s : IsSound w) (p : RpcPacket) where
  pub log_line-IsOrdered : IsOrdered (log_line p w)
  unfolding log_line
  log_line-IsOrdered = search calls depth 16

  pub print-IsOrdered : IsOrdered (print p w)
  unfolding print
  print-IsOrdered =
      if_cases IsOrdered (are_views p.param_count p) (λ _. out-IsOrdered w _ s)
        (λ _. out-IsOrdered w _ s)

  pub player_do_request-IsOrdered : IsOrdered (player_do_request p w)
  unfolding player_do_request
  player_do_request-IsOrdered = search calls depth 16

  pub player_do_notify-IsOrdered : IsOrdered (player_do_notify p w)
  unfolding player_do_notify
  player_do_notify-IsOrdered = search calls depth 16

  pub player_thinking-IsOrdered : IsOrdered (player_thinking p w)
  unfolding player_thinking
  player_thinking-IsOrdered = search calls depth 16

  pub player_set_thinking-IsOrdered : IsOrdered (player_set_thinking p w)
  unfolding player_set_thinking
  player_set_thinking-IsOrdered = search calls depth 16

  pub player_set_died-IsOrdered : IsOrdered (player_set_died p w)
  unfolding player_set_died
  player_set_died-IsOrdered = search calls depth 16

  pub player_emit_kick-IsOrdered : IsOrdered (player_emit_kick p w)
  unfolding player_emit_kick
  player_emit_kick-IsOrdered = search calls depth 16

  pub player_save_state-IsOrdered : IsOrdered (player_save_state p w)
  unfolding player_save_state
  player_save_state-IsOrdered = search calls depth 16

  pub player_get_save_state-IsOrdered : IsOrdered (player_get_save_state p w)
  unfolding player_get_save_state
  player_get_save_state-IsOrdered = search calls depth 16

  pub player_save_global_state-IsOrdered : IsOrdered (player_save_global_state p w)
  unfolding player_save_global_state
  player_save_global_state-IsOrdered = search calls depth 16

  pub player_get_global_save_state-IsOrdered : IsOrdered (player_get_global_save_state p w)
  unfolding player_get_global_save_state
  player_get_global_save_state-IsOrdered = search calls depth 16

  pub rpc_room_delay-IsOrdered : IsOrdered (rpc_room_delay p w)
  unfolding rpc_room_delay
  rpc_room_delay-IsOrdered = search calls depth 16

  pub rpc_room_set_request_timer-IsOrdered : IsOrdered (rpc_room_set_request_timer p w)
  unfolding rpc_room_set_request_timer
  rpc_room_set_request_timer-IsOrdered = search calls depth 16

  pub rpc_room_destroy_request_timer-IsOrdered : IsOrdered (rpc_room_destroy_request_timer p w)
  unfolding rpc_room_destroy_request_timer
  rpc_room_destroy_request_timer-IsOrdered = search calls depth 16

  pub rpc_room_decrease_ref_count-IsOrdered : IsOrdered (rpc_room_decrease_ref_count p w)
  unfolding rpc_room_decrease_ref_count
  rpc_room_decrease_ref_count-IsOrdered = search calls depth 16

  pub rpc_room_get_session_id-IsOrdered : IsOrdered (rpc_room_get_session_id p w)
  unfolding rpc_room_get_session_id
  rpc_room_get_session_id-IsOrdered = search calls depth 16

  pub rpc_room_get_session_data-IsOrdered : IsOrdered (rpc_room_get_session_data p w)
  unfolding rpc_room_get_session_data
  rpc_room_get_session_data-IsOrdered = search calls depth 16

  pub rpc_room_set_session_data-IsOrdered : IsOrdered (rpc_room_set_session_data p w)
  unfolding rpc_room_set_session_data
  rpc_room_set_session_data-IsOrdered = search calls depth 16

  pub rpc_room_add_npc-IsOrdered :
      (player_object : ServerPlayer → String) → IsOrdered (rpc_room_add_npc player_object p w)
  unfolding rpc_room_add_npc
  rpc_room_add_npc-IsOrdered player_object = search calls depth 16

  pub rpc_room_remove_npc-IsOrdered : IsOrdered (rpc_room_remove_npc p w)
  unfolding rpc_room_remove_npc
  rpc_room_remove_npc-IsOrdered = search calls depth 16

  pub rpc_room_save_global_state-IsOrdered : IsOrdered (rpc_room_save_global_state p w)
  unfolding rpc_room_save_global_state
  rpc_room_save_global_state-IsOrdered = search calls depth 16

  pub rpc_room_get_global_save_state-IsOrdered : IsOrdered (rpc_room_get_global_save_state p w)
  unfolding rpc_room_get_global_save_state
  rpc_room_get_global_save_state-IsOrdered = search calls depth 16

  pub room_thread_get_room-IsOrdered :
      (player_object : ServerPlayer → String) (room_object : Room → ℤ → List String → String)
      → IsOrdered (room_thread_get_room player_object room_object p w)
  unfolding room_thread_get_room
  room_thread_get_room-IsOrdered player_object room_object = search calls depth 16

  pub task_delay-IsOrdered : IsOrdered (task_delay p w)
  unfolding task_delay
  task_delay-IsOrdered = search calls depth 16

  pub task_decrease_ref_count-IsOrdered : IsOrdered (task_decrease_ref_count p w)
  unfolding task_decrease_ref_count
  task_decrease_ref_count-IsOrdered = search calls depth 16

  pub task_save_global_state-IsOrdered : IsOrdered (task_save_global_state p w)
  unfolding task_save_global_state
  task_save_global_state-IsOrdered = search calls depth 16

  pub task_get_global_save_state-IsOrdered : IsOrdered (task_get_global_save_state p w)
  unfolding task_get_global_save_state
  task_get_global_save_state-IsOrdered = search calls depth 16

  pub task_save_player_global_state-IsOrdered : IsOrdered (task_save_player_global_state p w)
  unfolding task_save_player_global_state
  task_save_player_global_state-IsOrdered = search calls depth 16

  pub task_get_player_global_save_state-IsOrdered :
      IsOrdered (task_get_player_global_save_state p w)
  unfolding task_get_player_global_save_state
  task_get_player_global_save_state-IsOrdered = search calls depth 16

  pub task_get_player-IsOrdered :
      (player_object : ServerPlayer → String) (task_object : Task → String)
      → IsOrdered (task_get_player player_object task_object p w)
  unfolding task_get_player
  task_get_player-IsOrdered player_object task_object = search calls depth 16

  pub server_get_task-IsOrdered :
      (player_object : ServerPlayer → String) (task_object : Task → String)
      → IsOrdered (server_get_task player_object task_object p w)
  unfolding server_get_task
  server_get_task-IsOrdered player_object task_object = search calls depth 16

  pub rpc_room_game_over-IsOrdered :
      (game_time : ServerPlayer → ℤ) → IsOrdered (rpc_room_game_over game_time p w)
  unfolding rpc_room_game_over
  rpc_room_game_over-IsOrdered game_time = search calls depth 16

-- ===== src/Rpc/Dispatch/Kept.antt =====
-- Each dispatcher changes nothing unless it succeeds.
use Prim.Native.String.{String}
use freekill_asio.Base.{ℤ, List, if_cases}
use freekill_asio.Task.{Task}
use freekill_asio.Rpc.Packet.{RpcPacket, Outcome, null}
use freekill_asio.Rpc.Dispatch.Tasks.{
  task_delay, task_decrease_ref_count, task_save_global_state, task_get_global_save_state,
  task_save_player_global_state, task_get_player_global_save_state, task_get_player,
  server_get_task,
}
use freekill_asio.Rpc.Dispatch.Players.{
  log_line, are_views, print, player_do_request, player_do_notify, player_thinking,
  player_set_thinking, player_set_died, player_emit_kick, player_save_state, player_get_save_state,
  player_save_global_state, player_get_global_save_state,
}
use freekill_asio.Rpc.Dispatch.Rooms.{
  rpc_room_delay, rpc_room_game_over, rpc_room_set_request_timer, rpc_room_destroy_request_timer,
  rpc_room_decrease_ref_count, rpc_room_get_session_id, rpc_room_get_session_data,
  rpc_room_set_session_data, rpc_room_add_npc, rpc_room_remove_npc, rpc_room_save_global_state,
  rpc_room_get_global_save_state, room_thread_get_room,
}
use freekill_asio.Rpc.Dispatch.Safe.{IsSafe, safe, done-IsSafe, kept-IsSafe}
use freekill_asio.Server.World.{World, ServerPlayer, Room}

module _ (w : World) (p : RpcPacket) where
  pub log_line-IsSafe : IsSafe w (log_line p w)
  unfolding log_line
  log_line-IsSafe = search safe depth 8

  pub print-IsSafe : IsSafe w (print p w)
  unfolding print
  print-IsSafe =
      if_cases (λ (r : World × Outcome). IsSafe w r) (are_views p.param_count p)
        (λ _. done-IsSafe w _ null) (λ _. kept-IsSafe w _)

  pub player_do_request-IsSafe : IsSafe w (player_do_request p w)
  unfolding player_do_request
  player_do_request-IsSafe = search safe depth 8

  pub player_do_notify-IsSafe : IsSafe w (player_do_notify p w)
  unfolding player_do_notify
  player_do_notify-IsSafe = search safe depth 8

  pub player_thinking-IsSafe : IsSafe w (player_thinking p w)
  unfolding player_thinking
  player_thinking-IsSafe = search safe depth 8

  pub player_set_thinking-IsSafe : IsSafe w (player_set_thinking p w)
  unfolding player_set_thinking
  player_set_thinking-IsSafe = search safe depth 8

  pub player_set_died-IsSafe : IsSafe w (player_set_died p w)
  unfolding player_set_died
  player_set_died-IsSafe = search safe depth 8

  pub player_emit_kick-IsSafe : IsSafe w (player_emit_kick p w)
  unfolding player_emit_kick
  player_emit_kick-IsSafe = search safe depth 8

  pub player_save_state-IsSafe : IsSafe w (player_save_state p w)
  unfolding player_save_state
  player_save_state-IsSafe = search safe depth 8

  pub player_get_save_state-IsSafe : IsSafe w (player_get_save_state p w)
  unfolding player_get_save_state
  player_get_save_state-IsSafe = search safe depth 8

  pub player_save_global_state-IsSafe : IsSafe w (player_save_global_state p w)
  unfolding player_save_global_state
  player_save_global_state-IsSafe = search safe depth 8

  pub player_get_global_save_state-IsSafe : IsSafe w (player_get_global_save_state p w)
  unfolding player_get_global_save_state
  player_get_global_save_state-IsSafe = search safe depth 8

  pub rpc_room_delay-IsSafe : IsSafe w (rpc_room_delay p w)
  unfolding rpc_room_delay
  rpc_room_delay-IsSafe = search safe depth 8

  pub rpc_room_set_request_timer-IsSafe : IsSafe w (rpc_room_set_request_timer p w)
  unfolding rpc_room_set_request_timer
  rpc_room_set_request_timer-IsSafe = search safe depth 8

  pub rpc_room_destroy_request_timer-IsSafe : IsSafe w (rpc_room_destroy_request_timer p w)
  unfolding rpc_room_destroy_request_timer
  rpc_room_destroy_request_timer-IsSafe = search safe depth 8

  pub rpc_room_decrease_ref_count-IsSafe : IsSafe w (rpc_room_decrease_ref_count p w)
  unfolding rpc_room_decrease_ref_count
  rpc_room_decrease_ref_count-IsSafe = search safe depth 8

  pub rpc_room_get_session_id-IsSafe : IsSafe w (rpc_room_get_session_id p w)
  unfolding rpc_room_get_session_id
  rpc_room_get_session_id-IsSafe = search safe depth 8

  pub rpc_room_get_session_data-IsSafe : IsSafe w (rpc_room_get_session_data p w)
  unfolding rpc_room_get_session_data
  rpc_room_get_session_data-IsSafe = search safe depth 8

  pub rpc_room_set_session_data-IsSafe : IsSafe w (rpc_room_set_session_data p w)
  unfolding rpc_room_set_session_data
  rpc_room_set_session_data-IsSafe = search safe depth 8

  pub rpc_room_add_npc-IsSafe :
      (player_object : ServerPlayer → String) → IsSafe w (rpc_room_add_npc player_object p w)
  unfolding rpc_room_add_npc
  rpc_room_add_npc-IsSafe player_object = search safe depth 8

  pub rpc_room_remove_npc-IsSafe : IsSafe w (rpc_room_remove_npc p w)
  unfolding rpc_room_remove_npc
  rpc_room_remove_npc-IsSafe = search safe depth 8

  pub rpc_room_save_global_state-IsSafe : IsSafe w (rpc_room_save_global_state p w)
  unfolding rpc_room_save_global_state
  rpc_room_save_global_state-IsSafe = search safe depth 8

  pub rpc_room_get_global_save_state-IsSafe : IsSafe w (rpc_room_get_global_save_state p w)
  unfolding rpc_room_get_global_save_state
  rpc_room_get_global_save_state-IsSafe = search safe depth 8

  pub room_thread_get_room-IsSafe :
      (player_object : ServerPlayer → String) (room_object : Room → ℤ → List String → String)
      → IsSafe w (room_thread_get_room player_object room_object p w)
  unfolding room_thread_get_room
  room_thread_get_room-IsSafe player_object room_object = search safe depth 8

  pub task_delay-IsSafe : IsSafe w (task_delay p w)
  unfolding task_delay
  task_delay-IsSafe = search safe depth 8

  pub task_decrease_ref_count-IsSafe : IsSafe w (task_decrease_ref_count p w)
  unfolding task_decrease_ref_count
  task_decrease_ref_count-IsSafe = search safe depth 8

  pub task_save_global_state-IsSafe : IsSafe w (task_save_global_state p w)
  unfolding task_save_global_state
  task_save_global_state-IsSafe = search safe depth 8

  pub task_get_global_save_state-IsSafe : IsSafe w (task_get_global_save_state p w)
  unfolding task_get_global_save_state
  task_get_global_save_state-IsSafe = search safe depth 8

  pub task_save_player_global_state-IsSafe : IsSafe w (task_save_player_global_state p w)
  unfolding task_save_player_global_state
  task_save_player_global_state-IsSafe = search safe depth 8

  pub task_get_player_global_save_state-IsSafe : IsSafe w (task_get_player_global_save_state p w)
  unfolding task_get_player_global_save_state
  task_get_player_global_save_state-IsSafe = search safe depth 8

  pub task_get_player-IsSafe :
      (player_object : ServerPlayer → String) (task_object : Task → String)
      → IsSafe w (task_get_player player_object task_object p w)
  unfolding task_get_player
  task_get_player-IsSafe player_object task_object = search safe depth 8

  pub server_get_task-IsSafe :
      (player_object : ServerPlayer → String) (task_object : Task → String)
      → IsSafe w (server_get_task player_object task_object p w)
  unfolding server_get_task
  server_get_task-IsSafe player_object task_object = search safe depth 8

  pub rpc_room_game_over-IsSafe :
      (game_time : ServerPlayer → ℤ) → IsSafe w (rpc_room_game_over game_time p w)
  unfolding rpc_room_game_over
  rpc_room_game_over-IsSafe game_time = search safe depth 8

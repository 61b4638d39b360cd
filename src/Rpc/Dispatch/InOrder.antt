-- ===== src/Rpc/Dispatch/InOrder.antt =====
-- The table of methods, and the requests of Lua, leave the maps of the server in order.
use Prim.Native.String.{String}
use text.Mathlib.Text.{◌==◌ as str_eq}
use freekill_asio.Base.{
  arith, subst, Option-cases, inl, inr, ℤ, ◌≡◌, List, [], ◌∷◌, Option, some, if_cases,
}
use mathlib.Core.Option.{some-injective}
use freekill_asio.Task.{Task}
use freekill_asio.Rpc.Packet.{RpcPacket, call_found, handle_request}
use freekill_asio.Rpc.Dispatch.Methods.{
  Method, lookup, log_methods, player_methods, room_methods, server_rpc_methods,
}
use freekill_asio.Rpc.Dispatch.Ordered.{IsOrdered}
use freekill_asio.Server.Sound.{IsSound}
use freekill_asio.Server.World.{World, ServerPlayer, Room}
use freekill_asio.Rpc.Dispatch.Ordered.Calls.{
  log_line-IsOrdered, print-IsOrdered, player_do_request-IsOrdered, player_do_notify-IsOrdered,
  player_thinking-IsOrdered, player_set_thinking-IsOrdered, player_set_died-IsOrdered,
  player_emit_kick-IsOrdered, player_save_state-IsOrdered, player_get_save_state-IsOrdered,
  player_save_global_state-IsOrdered, player_get_global_save_state-IsOrdered,
  rpc_room_delay-IsOrdered, rpc_room_game_over-IsOrdered, rpc_room_set_request_timer-IsOrdered,
  rpc_room_destroy_request_timer-IsOrdered, rpc_room_decrease_ref_count-IsOrdered,
  rpc_room_get_session_id-IsOrdered, rpc_room_get_session_data-IsOrdered,
  rpc_room_set_session_data-IsOrdered, rpc_room_add_npc-IsOrdered, rpc_room_remove_npc-IsOrdered,
  rpc_room_save_global_state-IsOrdered, rpc_room_get_global_save_state-IsOrdered,
  room_thread_get_room-IsOrdered, task_delay-IsOrdered, task_decrease_ref_count-IsOrdered,
  task_save_global_state-IsOrdered, task_get_global_save_state-IsOrdered,
  task_save_player_global_state-IsOrdered, task_get_player_global_save_state-IsOrdered,
  task_get_player-IsOrdered, server_get_task-IsOrdered,
}

module _ (w : World) (s : IsSound w) (p : RpcPacket) where
  AreOrdered : List (String × Method) → Type 0
  AreOrdered ms = (name : String) (f : Method) → lookup ms name ≡ some f → IsOrdered (f p w)

  none-AreOrdered : AreOrdered []
  unfolding AreOrdered
  none-AreOrdered name f e = absurd (ground (arith, e))

  more-AreOrdered :
      (n : String) (g : Method) (ms : List (String × Method))
      → IsOrdered (g p w)
      → AreOrdered ms
      → AreOrdered ((n, g) ∷ ms)
  unfolding AreOrdered
  more-AreOrdered n g ms k t name f =
      if_cases (λ (o : Option Method). o ≡ some f → IsOrdered (f p w)) (str_eq name n)
        (λ _ e. subst (λ (h : Method). IsOrdered (h p w)) (some-injective _ _ e) k) (λ _. t name f)

  log_methods-AreOrdered : AreOrdered log_methods
  log_methods-AreOrdered =
      search (none-AreOrdered, more-AreOrdered, log_line-IsOrdered, print-IsOrdered) depth 12

  player_methods-AreOrdered : AreOrdered player_methods
  player_methods-AreOrdered =
      search
        (
          log_methods-AreOrdered, more-AreOrdered, player_do_request-IsOrdered,
          player_do_notify-IsOrdered, player_thinking-IsOrdered, player_set_thinking-IsOrdered,
          player_set_died-IsOrdered, player_emit_kick-IsOrdered, player_save_state-IsOrdered,
          player_get_save_state-IsOrdered, player_save_global_state-IsOrdered,
          player_get_global_save_state-IsOrdered,
        )
        depth 16

  module _ (player_object : ServerPlayer → String) (task_object : Task → String)
      (room_object : Room → ℤ → List String → String) (game_time : ServerPlayer → ℤ) where
    room_methods-AreOrdered :
        AreOrdered (room_methods player_object task_object room_object game_time)
    room_methods-AreOrdered =
        search
          (
            player_methods-AreOrdered, more-AreOrdered, rpc_room_delay-IsOrdered,
            rpc_room_game_over-IsOrdered, rpc_room_set_request_timer-IsOrdered,
            rpc_room_destroy_request_timer-IsOrdered, rpc_room_decrease_ref_count-IsOrdered,
            rpc_room_get_session_id-IsOrdered, rpc_room_get_session_data-IsOrdered,
            rpc_room_set_session_data-IsOrdered, rpc_room_add_npc-IsOrdered,
            rpc_room_remove_npc-IsOrdered, rpc_room_save_global_state-IsOrdered,
            rpc_room_get_global_save_state-IsOrdered, room_thread_get_room-IsOrdered,
          )
          depth 16

    server_rpc_methods-AreOrdered :
        AreOrdered (server_rpc_methods player_object task_object room_object game_time)
    server_rpc_methods-AreOrdered =
        search
          (
            room_methods-AreOrdered, more-AreOrdered, task_delay-IsOrdered,
            task_decrease_ref_count-IsOrdered, task_save_global_state-IsOrdered,
            task_get_global_save_state-IsOrdered, task_save_player_global_state-IsOrdered,
            task_get_player_global_save_state-IsOrdered, task_get_player-IsOrdered,
            server_get_task-IsOrdered,
          )
          depth 16

    -- Whatever Lua asks for, known or not and with whatever parameters: the maps of the server are
    -- in order after it if they were before.
    pub handle_request-IsSound :
        IsSound
          (handle_request
            (lookup (server_rpc_methods player_object task_object room_object game_time))
            p
            w).0
    unfolding handle_request call_found IsOrdered AreOrdered
    handle_request-IsSound =
        if_cases (λ (r : World × Option RpcPacket). IsSound r.0) (str_eq p.method "") (λ _. s)
          (λ _.
            elim (Option-cases (
              lookup (server_rpc_methods player_object task_object room_object game_time)
                p.method)) [
                  | inl n ↦ rw n s
                  | inr (f, n) ↦ rw n (server_rpc_methods-AreOrdered p.method f n)
                ])

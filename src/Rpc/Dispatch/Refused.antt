-- ===== src/Rpc/Dispatch/Refused.antt =====
-- A request that is answered with an error changes nothing, whatever its method.
use Prim.Native.String.{String}
use text.Mathlib.Text.{◌==◌ as str_eq}
use freekill_asio.Base.{
  arith, subst, Option-cases, is_negative, inl, inr, ℤ, ◌≡◌, refl, Bool, true, false, List, [], ◌∷◌,
  Option, none, some, if_cases,
}
use mathlib.Core.Option.{some-injective}
use freekill_asio.Task.{Task}
use freekill_asio.Rpc.Packet.{
  RpcPacket, Outcome, returned, thrown, answer, call_found, handle_request, response,
}
use freekill_asio.Rpc.Dispatch.Methods.{
  Method, lookup, log_methods, player_methods, room_methods, server_rpc_methods,
}
use freekill_asio.Rpc.Packet.Answer.{error_code}
use freekill_asio.Rpc.Dispatch.Safe.{succeeded, IsSafe}
use freekill_asio.Server.World.{World, ServerPlayer, Room}
use freekill_asio.Rpc.Dispatch.Kept.{
  log_line-IsSafe, print-IsSafe, player_do_request-IsSafe, player_do_notify-IsSafe,
  player_thinking-IsSafe, player_set_thinking-IsSafe, player_set_died-IsSafe,
  player_emit_kick-IsSafe, player_save_state-IsSafe, player_get_save_state-IsSafe,
  player_save_global_state-IsSafe, player_get_global_save_state-IsSafe, rpc_room_delay-IsSafe,
  rpc_room_game_over-IsSafe, rpc_room_set_request_timer-IsSafe,
  rpc_room_destroy_request_timer-IsSafe, rpc_room_decrease_ref_count-IsSafe,
  rpc_room_get_session_id-IsSafe, rpc_room_get_session_data-IsSafe,
  rpc_room_set_session_data-IsSafe, rpc_room_add_npc-IsSafe, rpc_room_remove_npc-IsSafe,
  rpc_room_save_global_state-IsSafe, rpc_room_get_global_save_state-IsSafe,
  room_thread_get_room-IsSafe, task_delay-IsSafe, task_decrease_ref_count-IsSafe,
  task_save_global_state-IsSafe, task_get_global_save_state-IsSafe,
  task_save_player_global_state-IsSafe, task_get_player_global_save_state-IsSafe,
  task_get_player-IsSafe, server_get_task-IsSafe,
}

-- An error of a negative code.
abbrev is_refusal : Option RpcPacket → Bool
is_refusal none = false
is_refusal (some q) = is_negative (error_code q)

answer_refused :
    (p : RpcPacket) (o : Outcome) → is_refusal (answer p o) ≡ true → succeeded o ≡ false
unfolding answer response
answer_refused p (returned false v) = λ _. refl
answer_refused p (thrown what) = λ _. refl
answer_refused p (returned true v) =
    if_cases (λ (o : Option RpcPacket). is_refusal o ≡ true → true ≡ false) (is_negative p.id)
      (λ _ h. absurd (ground (arith, h))) (λ _ h. absurd (ground (arith, h)))

module _ (w : World) (p : RpcPacket) where
  AreSafe : List (String × Method) → Type 0
  AreSafe ms = (name : String) (f : Method) → lookup ms name ≡ some f → IsSafe w (f p w)

  none-AreSafe : AreSafe []
  unfolding AreSafe
  none-AreSafe name f e = absurd (ground (arith, e))

  more-AreSafe :
      (n : String) (g : Method) (ms : List (String × Method))
      → IsSafe w (g p w)
      → AreSafe ms
      → AreSafe ((n, g) ∷ ms)
  unfolding AreSafe
  more-AreSafe n g ms s t name f =
      if_cases (λ (o : Option Method). o ≡ some f → IsSafe w (f p w)) (str_eq name n)
        (λ _ e. subst (λ (h : Method). IsSafe w (h p w)) (some-injective _ _ e) s) (λ _. t name f)

  log_methods-AreSafe : AreSafe log_methods
  log_methods-AreSafe = search (none-AreSafe, more-AreSafe, log_line-IsSafe, print-IsSafe) depth 12

  player_methods-AreSafe : AreSafe player_methods
  player_methods-AreSafe =
      search
        (
          log_methods-AreSafe, more-AreSafe, player_do_request-IsSafe, player_do_notify-IsSafe,
          player_thinking-IsSafe, player_set_thinking-IsSafe, player_set_died-IsSafe,
          player_emit_kick-IsSafe, player_save_state-IsSafe, player_get_save_state-IsSafe,
          player_save_global_state-IsSafe, player_get_global_save_state-IsSafe,
        )
        depth 16

  module _ (player_object : ServerPlayer → String) (task_object : Task → String)
      (room_object : Room → ℤ → List String → String) (game_time : ServerPlayer → ℤ) where
    room_methods-AreSafe : AreSafe (room_methods player_object task_object room_object game_time)
    room_methods-AreSafe =
        search
          (
            player_methods-AreSafe, more-AreSafe, rpc_room_delay-IsSafe, rpc_room_game_over-IsSafe,
            rpc_room_set_request_timer-IsSafe, rpc_room_destroy_request_timer-IsSafe,
            rpc_room_decrease_ref_count-IsSafe, rpc_room_get_session_id-IsSafe,
            rpc_room_get_session_data-IsSafe, rpc_room_set_session_data-IsSafe,
            rpc_room_add_npc-IsSafe, rpc_room_remove_npc-IsSafe, rpc_room_save_global_state-IsSafe,
            rpc_room_get_global_save_state-IsSafe, room_thread_get_room-IsSafe,
          )
          depth 16

    server_rpc_methods-AreSafe :
        AreSafe (server_rpc_methods player_object task_object room_object game_time)
    server_rpc_methods-AreSafe =
        search
          (
            room_methods-AreSafe, more-AreSafe, task_delay-IsSafe, task_decrease_ref_count-IsSafe,
            task_save_global_state-IsSafe, task_get_global_save_state-IsSafe,
            task_save_player_global_state-IsSafe, task_get_player_global_save_state-IsSafe,
            task_get_player-IsSafe, server_get_task-IsSafe,
          )
          depth 16

    -- A request to the server's table of methods whose answer is an error has changed nothing.
    pub handle_request_refused :
        is_refusal
            (handle_request
              (lookup (server_rpc_methods player_object task_object room_object game_time))
              p
              w).1
          ≡ true
        → (handle_request
            (lookup (server_rpc_methods player_object task_object room_object game_time))
            p
            w).0
          ≡ w
    unfolding handle_request call_found IsSafe AreSafe
    handle_request_refused =
        if_cases (λ (r : World × Option RpcPacket). is_refusal r.1 ≡ true → r.0 ≡ w)
          (str_eq p.method "") (λ _ _. refl)
          (λ _.
            elim (Option-cases (
              lookup (server_rpc_methods player_object task_object room_object game_time)
                p.method)) [
                  | inl n ↦ rw n (λ _. refl)
                  | inr (f, n) ↦
                      rw n (λ h.
                        server_rpc_methods-AreSafe p.method f n (answer_refused p (f p w).1 h))
                ])

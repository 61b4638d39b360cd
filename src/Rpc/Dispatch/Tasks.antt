-- ===== src/Rpc/Dispatch/Tasks.antt =====
-- The dispatchers for tasks.
use Prim.Native.String.{String}
use freekill_asio.Base.{ℤ, true, not, List, ◌++◌, if◌then◌else◌, is_positive}
use freekill_asio.Base.Map.{find, put}
use freekill_asio.Task.{Task, ThreadCall, delay, decrease_ref_count}
use freekill_asio.Task.Manager.{TaskManager, get_task, remove_task}
use freekill_asio.Rpc.Packet.{RpcPacket, string, boolean}
use freekill_asio.Rpc.Dispatch.Guards.{
  Handler, refuse, missing, succeed, give, found, one_int, two_ints, int_view, int_view_view,
}
use freekill_asio.Rpc.Dispatch.Saves.{
  save_global_state, get_global_save_state, base_save_global_state, base_get_global_save_state,
}
use freekill_asio.Server.World.{World, ServerPlayer, task_of}

abbrev pub call_threads : List ThreadCall → World → World
call_threads cs w = record w { tasks = record (tasks_of w) { calls = calls_of w ++ cs } }
  where
    tasks_of : World → TaskManager
    tasks_of w = w.tasks

    calls_of : World → List ThreadCall
    calls_of w = (tasks_of w).calls

abbrev put_task : Task → TaskManager → TaskManager
put_task t m = record m { task_map = put t.id t m.task_map }

abbrev on_task : ℤ → Handler → (Task → Handler) → Handler
unfolding get_task
on_task id other f w = found (get_task id w.tasks) other f w

unfoldable pub task_delay : RpcPacket → Handler
unfolding delay get_task
task_delay p = two_ints p (λ id ms.
    if not (is_positive ms)
    then refuse
    else on_task id (missing "Task not found") (λ t w. succeed (call_threads (delay t ms) w)))

-- With the last reference the removal of the task is dispatched; the model runs it at once.
release : Task → World → World
unfolding decrease_ref_count remove_task
release t w =
    let (u, last) = decrease_ref_count t in
    record w { tasks = if last then remove_task t.id (put_task u w.tasks) else put_task u w.tasks }

unfoldable pub task_decrease_ref_count : RpcPacket → Handler
unfolding release get_task
task_decrease_ref_count p =
    one_int p (λ id. on_task id (missing "Task not found") (λ t w. succeed (release t w)))

-- The lobby is always there.
unfoldable pub task_save_global_state : RpcPacket → Handler
unfolding base_save_global_state get_task
task_save_global_state p = int_view_view p (λ id key d.
    on_task id refuse (λ t w. give (boolean true) (base_save_global_state key (task_of id) w)))

unfoldable pub task_get_global_save_state : RpcPacket → Handler
unfolding base_get_global_save_state get_task
task_get_global_save_state p = int_view p (λ id key.
    on_task id refuse (λ t w. give (boolean true) (base_get_global_save_state key (task_of id) w)))

-- A task whose user is gone succeeds with nothing.
unfoldable pub task_save_player_global_state : RpcPacket → Handler
unfolding save_global_state get_task
task_save_player_global_state p = int_view_view p (λ id key d. on_task id refuse (λ t w.
    found (find t.user_conn_id w.players_map) succeed
      (λ q v. give (boolean true) (save_global_state q key (task_of id) v)) w))

unfoldable pub task_get_player_global_save_state : RpcPacket → Handler
unfolding get_global_save_state get_task
task_get_player_global_save_state p = int_view p (λ id key. on_task id refuse (λ t w.
    found (find t.user_conn_id w.players_map) succeed
      (λ q v. give (boolean true) (get_global_save_state q key (task_of id) v)) w))

module _ (player_object : ServerPlayer → String) (task_object : Task → String) where
  unfoldable pub task_get_player : RpcPacket → Handler
  unfolding get_task
  task_get_player p = one_int p (λ id. on_task id (missing "Task not found") (λ t w.
      found (find t.user_conn_id w.players_map) succeed (λ q. give (string (player_object q))) w))

  unfoldable pub server_get_task : RpcPacket → Handler
  unfolding get_task
  server_get_task p =
      one_int p (λ id. on_task id (missing "Task not found") (λ t. give (string (task_object t))))

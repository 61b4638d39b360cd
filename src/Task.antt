-- ===== src/Task.antt =====
-- src/server/task/task.h and task.cpp: one background task that runs in a Lua thread.
-- A call into the `RoomThread` of the task is recorded as a value, in the order of the calls.
pub mod Ids
mod Tests
pub mod Manager
use Prim.Native.String.{String}
use freekill_asio.Base.{
  ℤ, pos, negsuc, ◌≡◌, ◌+◌, ◌-◌, ℕ, suc, zero, Bool, true, false, ◌==ℤ◌, List, [], ◌∷◌, ◌++◌, ltb,
  if◌then◌else◌, arith,
}

-- The calls that a task makes on its thread. The text of a request is "-1,<id>,newtask".
pub data ThreadCall : Type 0 where
  increase_thread_ref decrease_thread_ref : ℤ → ThreadCall
  push_newtask : ℤ → ℤ → ThreadCall
  wake_up : ℤ → ℤ → String → ThreadCall
  delay_task : ℤ → ℤ → ℤ → ThreadCall

pub record Task : Type 0 where
  pub id : ℤ
  pub user_conn_id : ℤ
  pub expected_reply_id : ℤ
  pub task_type : String
  pub payload : String
  pub thread : ℤ
  pub lua_ref_count : ℤ

-- `n + 1` and `n - 1` on `int`; the counters here stay far from the ends of the range.
abbrev pub increment : ℤ → ℤ
increment (pos n) = pos (suc n)
increment (negsuc zero) = pos 0
increment (negsuc (suc n)) = negsuc n

abbrev pub decrement : ℤ → ℤ
decrement (pos zero) = negsuc 0
decrement (pos (suc n)) = pos n
decrement (negsuc n) = negsuc (suc n)

-- `negsuc 999` is -1000.
abbrev pub first_task_id : ℤ
first_task_id = negsuc 999

-- `nextId--`, back to -1000 once it is below -10000000.
unfoldable pub after_task_id : ℤ → ℤ
after_task_id (pos n) = decrement (pos n)
after_task_id (negsuc n) = if ltb 9999999 (suc n) then first_task_id else negsuc (suc n)

-- The constructor, given `nextId` and the thread that `getAvailableThread` returned.
unfoldable pub new_task : ℤ → ℤ → String → String → Task
new_task next_id thread task_type payload = record {
  id = next_id;
  user_conn_id = pos 0;
  expected_reply_id = pos 0;
  task_type = task_type;
  payload = payload;
  thread = thread;
  lua_ref_count = pos 0;
}

unfoldable pub abort : Task → List ThreadCall
abort t = wake_up t.thread t.id "abort" ∷ []

-- The destructor.
unfoldable pub destroy_task : Task → List ThreadCall
unfolding abort
destroy_task t = abort t ++ decrease_thread_ref t.thread ∷ []

unfoldable pub increase_ref_count : Task → Task
increase_ref_count t = record t { lua_ref_count = increment t.lua_ref_count }

-- The flag says whether `removeTask(id)` is dispatched to the main context.
unfoldable pub decrease_ref_count : Task → Task × Bool
decrease_ref_count t =
    let n = decrement t.lua_ref_count in (record t { lua_ref_count = n }, n ==ℤ pos 0)

unfoldable pub start : Task → Task × List ThreadCall
unfolding increase_ref_count
start t = (increase_ref_count t, push_newtask t.thread t.id ∷ [])

unfoldable pub resume : Task → String → List ThreadCall
resume t reason = wake_up t.thread t.id reason ∷ []

unfoldable pub delay : Task → ℤ → List ThreadCall
delay t ms = delay_task t.thread t.id ms ∷ []

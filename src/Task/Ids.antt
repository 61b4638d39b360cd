-- ===== src/Task/Ids.antt =====
-- The ids that the constructor of `Task` hands out, and the count of Lua references.
use freekill_asio.Base.{ℤ, pos, negsuc, ◌≡◌, ◌≤◌, ℕ, zero, suc, ◌==◌, arith}
use freekill_asio.Task.{Task, after_task_id, first_task_id, decrease_ref_count, start}

-- -10000000 ≤ id ≤ -1000
abbrev pub IsTaskId : ℤ → Type 0
IsTaskId (pos n) = ⊥
IsTaskId (negsuc n) = (999 ≤ n) × (n ≤ 9999999)

pub iterate : ℕ → (ℤ → ℤ) → ℤ → ℤ
iterate zero f a = a
iterate (suc n) f a = f (iterate n f a)

after_task_id-IsTaskId : (a : ℤ) → IsTaskId a → IsTaskId (after_task_id a)
unfolding after_task_id
after_task_id-IsTaskId (pos n) h = absurd h
after_task_id-IsTaskId (negsuc n) h = ground arith

-- Every task id that is ever handed out lies from -10000000 to -1000, so it is no room id (those
-- are positive), and the counter does not run past the end of `int`.
pub IsTaskId-iterate : (n : ℕ) → IsTaskId (iterate n after_task_id first_task_id)
unfolding iterate
IsTaskId-iterate zero = omega arith
IsTaskId-iterate (suc n) =
    after_task_id-IsTaskId (iterate n after_task_id first_task_id) (IsTaskId-iterate n)

-- The removal of a task is dispatched exactly when the last of its references goes: a task with `n`
-- further references survives a matched pair of `start` and `decreaseRefCount` if `n` is not 0, and
-- the count is then as before.
pub decrease_ref_count-start :
    (t : Task) (n : ℕ) → t.lua_ref_count ≡ pos n → decrease_ref_count (start t).0 ≡ (t, n == 0)
unfolding decrease_ref_count start
decrease_ref_count-start t n h = ground arith

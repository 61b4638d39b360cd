-- ===== src/Task/Manager/Removal.antt =====
-- What `removeTask`, `removeAllTasksByUser`, `attachTaskToUser` and `setTaskExpectedReplyId` leave.
use freekill_asio.Base.{
  ℤ, ◌≡◌, ◌≢◌, refl, true, false, ◌==ℤ◌, ==ℤ_iff, is_positive, List, [], ◌∷◌, none, some,
  if◌then◌else◌, Option-cases, inl, inr, arith,
}
use freekill_asio.Base.Map.{find, erase, contains, find-put, find-erase}
use freekill_asio.Task.{Task}
use freekill_asio.Task.Manager.{
  TaskManager, get_task, get_task_by_request_id, get_task_ids_by_user, remove_task, remove_tasks,
  remove_all_tasks_by_user, attach_task_to_user, set_task_expected_reply_id,
}
use freekill_asio.Task.Manager.Index.{
  IsIndexed, belongs, remove_task-IsIndexed, remove_tasks-IsIndexed,
}

pub get_task-remove_task :
    (j id : ℤ) (m : TaskManager)
    → get_task j (remove_task id m) ≡ (if id ==ℤ j then none else get_task j m)
unfolding get_task remove_task
get_task-remove_task j id m = ground (arith, ==ℤ_iff id j, find-erase j id m.task_map)

get_task-remove_tasks :
    (j : ℤ) (ids : List ℤ) (m : TaskManager)
    → get_task j (remove_tasks ids m) ≡ (if contains j ids then none else get_task j m)
unfolding remove_tasks contains
get_task-remove_tasks j [] m = refl
get_task-remove_tasks j (id ∷ ids) m =
    ground (arith, get_task-remove_tasks j ids (remove_task id m), get_task-remove_task j id m)

-- With the indexes in order, `removeAllTasksByUser` of a positive connection id removes exactly the
-- tasks that belong to the user, leaves every other task as it was, and no id is listed for the
-- user afterwards.
pub remove_all_tasks_by_user_lem :
    (conn : ℤ) (m : TaskManager)
    → IsIndexed m
    → is_positive conn ≡ true
    → ((id : ℤ)
        → get_task id (remove_all_tasks_by_user conn m)
          ≡ (if belongs conn (get_task id m) then none else get_task id m))
      × ((id : ℤ)
          → contains id (get_task_ids_by_user conn (remove_all_tasks_by_user conn m)) ≡ false)
unfolding remove_all_tasks_by_user
remove_all_tasks_by_user_lem conn m v p = (tasks, lists)
  where
    ids : List ℤ
    ids = get_task_ids_by_user conn m

    tasks :
        (id : ℤ)
        → get_task id (remove_tasks ids m)
          ≡ (if belongs conn (get_task id m) then none else get_task id m)
    tasks id = rw (get_task-remove_tasks id ids m) (unfold get_task in rw (v.listed conn id p))

    after : IsIndexed (remove_tasks ids m)
    after = remove_tasks-IsIndexed ids m v

    lists : (id : ℤ) → contains id (get_task_ids_by_user conn (remove_tasks ids m)) ≡ false
    lists id = unfold get_task in ground (arith, after.listed conn id p, tasks id)

-- With the indexes in order, a task that is removed is found no more, by no positive connection id
-- listed, and by no request id; the other tasks and their places in the lists are untouched.
pub remove_task_lem :
    (j id : ℤ) (m : TaskManager)
    → IsIndexed m
    → (get_task j (remove_task id m) ≡ (if id ==ℤ j then none else get_task j m))
      × ((conn : ℤ)
          → is_positive conn ≡ true
          → contains j (get_task_ids_by_user conn (remove_task id m))
            ≡ (if id ==ℤ j then false else contains j (get_task_ids_by_user conn m)))
      × ((req : ℤ) → find req (remove_task id m).task_request_id_map ≢ some id)
unfolding get_task get_task_ids_by_user
remove_task_lem j id m v = (
  get_task-remove_task j id m,
  λ conn p. ground (
    arith,
    (remove_task-IsIndexed id m v).listed conn j p,
    v.listed conn j p,
    get_task-remove_task j id m,
  ),
  λ req h. ground (
    arith,
    (remove_task-IsIndexed id m v).requested req id h,
    get_task-remove_task id id m,
    ==ℤ_iff id id,
  ),
)

-- A task that belongs to a user stays with that user: a second attachment changes nothing, whoever
-- it names, and neither does one to a connection id that is not positive, or of an unknown task.
pub attach_task_to_user_once :
    (id c d : ℤ) (m : TaskManager)
    → (attach_task_to_user id d (attach_task_to_user id c m)
        ≡ (if is_positive c then attach_task_to_user id c m else attach_task_to_user id d m))
      × (get_task id m ≡ none → attach_task_to_user id c m ≡ m)
unfolding attach_task_to_user get_task
attach_task_to_user_once id c d m = (
  elim (Option-cases (find id m.task_map)) [
    | inl e ↦ ground arith
    | inr (t, e) ↦
        ground (arith, find-put id id (record t { user_conn_id = c }) m.task_map, ==ℤ_iff id id)
  ],
  λ h. ground arith,
)

-- Once a known task waits for a positive request id, that id finds the task, waiting for it; and the
-- positive id that it waited for before, if another one, finds nothing.
pub set_task_expected_reply_id_lem :
    (id req : ℤ) (t : Task) (m : TaskManager)
    → get_task id m ≡ some t
    → is_positive req ≡ true
    → (get_task_by_request_id req (set_task_expected_reply_id id req m)
        ≡ some (record t { expected_reply_id = req }))
      × (is_positive t.expected_reply_id ≡ true
          → t.expected_reply_id ≢ req
          → get_task_by_request_id t.expected_reply_id (set_task_expected_reply_id id req m) ≡ none)
unfolding get_task set_task_expected_reply_id get_task_by_request_id
set_task_expected_reply_id_lem id req t m e p = (
  ground (
    arith,
    find-put id id (record t { expected_reply_id = req }) m.task_map,
    ==ℤ_iff id id,
    ==ℤ_iff req req,
    find-put req req id m.task_request_id_map,
    find-put req req id (erase t.expected_reply_id m.task_request_id_map),
  ),
  λ q n. ground (
    arith,
    ==ℤ_iff req t.expected_reply_id,
    ==ℤ_iff t.expected_reply_id t.expected_reply_id,
    find-put t.expected_reply_id req id (erase t.expected_reply_id m.task_request_id_map),
    find-erase t.expected_reply_id t.expected_reply_id m.task_request_id_map,
  ),
)

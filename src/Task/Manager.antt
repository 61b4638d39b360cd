-- ===== src/Task/Manager.antt =====
-- src/server/task/task_manager.cpp: the tasks by id, with two indexes, by request id and by the
-- connection of the user that a task belongs to.
pub mod Index
pub mod Removal
use Prim.Native.String.{String}
use freekill_asio.Base.{
  ℤ, pos, negsuc, ◌≡◌, Bool, true, false, ◌==ℤ◌, is_positive, List, [], ◌∷◌, ◌++◌, Option, none,
  some, not, if◌then◌else◌,
}
use freekill_asio.Base.Map.{find, put, erase, contains, remove_all}
use freekill_asio.Task.{
  Task, ThreadCall, increase_thread_ref, new_task, after_task_id, destroy_task,
}

pub record TaskManager : Type 0 where
  pub task_map : List (ℤ × Task)
  pub task_request_id_map : List (ℤ × ℤ)
  pub task_conn_id_map : List (ℤ × List ℤ)
  -- the static `nextId` of the constructor of `Task`
  pub next_id : ℤ
  -- what the tasks have called on their threads, oldest first
  pub calls : List ThreadCall

abbrev pub no_tasks : TaskManager
no_tasks = record {
  task_map = [];
  task_request_id_map = [];
  task_conn_id_map = [];
  next_id = negsuc 999;
  calls = [];
}

-- What the destructor of a map entry that is overwritten or erased calls.
abbrev pub destroyed : Option Task → List ThreadCall
unfolding destroy_task
destroyed none = []
destroyed (some t) = destroy_task t

-- The id of the new task is returned. `thread` is what `getAvailableThread` gave.
unfoldable pub create_task : ℤ → String → String → TaskManager → TaskManager × ℤ
unfolding new_task
create_task thread task_type payload m =
    let task = new_task m.next_id thread task_type payload in
    (
      record m {
        task_map = put task.id task m.task_map;
        next_id = after_task_id m.next_id;
        calls = m.calls ++ (increase_thread_ref thread ∷ destroyed (find task.id m.task_map));
      },
      task.id,
    )

unfoldable pub get_task : ℤ → TaskManager → Option Task
get_task id m = find id m.task_map

unfoldable pub get_task_by_request_id : ℤ → TaskManager → Option Task
unfolding get_task
get_task_by_request_id req_id m = elim (find req_id m.task_request_id_map) [
  | none ↦ none
  | some id ↦ get_task id m
]

abbrev pub or_empty : Option (List ℤ) → List ℤ
or_empty none = []
or_empty (some ids) = ids

unfoldable pub get_task_ids_by_user : ℤ → TaskManager → List ℤ
get_task_ids_by_user conn_id m = or_empty (find conn_id m.task_conn_id_map)

abbrev pub is_nil : List ℤ → Bool
is_nil [] = true
is_nil (x ∷ xs) = false

-- `vec.erase(std::remove(...))`, and the entry goes when the vector becomes empty.
unfoldable pub drop_from_user : ℤ → ℤ → List (ℤ × List ℤ) → List (ℤ × List ℤ)
drop_from_user conn_id id users =
    let rest = remove_all id (or_empty (find conn_id users)) in
    if is_nil rest then erase conn_id users else put conn_id rest users

remove_found : ℤ → Task → TaskManager → TaskManager
unfolding drop_from_user
remove_found id task m = record m {
  task_map = erase id m.task_map;
  task_request_id_map =
      if is_positive task.expected_reply_id
      then erase task.expected_reply_id m.task_request_id_map
      else m.task_request_id_map;
  task_conn_id_map =
      if is_positive task.user_conn_id
      then drop_from_user task.user_conn_id id m.task_conn_id_map
      else m.task_conn_id_map;
  calls = m.calls ++ destroyed (some task);
}

unfoldable pub remove_task : ℤ → TaskManager → TaskManager
unfolding remove_found
remove_task id m = elim (find id m.task_map) [ none ↦ m | some task ↦ remove_found id task m ]

unfoldable pub remove_tasks : List ℤ → TaskManager → TaskManager
remove_tasks [] m = m
remove_tasks (id ∷ ids) m = remove_tasks ids (remove_task id m)

-- The loop runs over a copy of the vector, since `removeTask` changes it.
unfoldable pub remove_all_tasks_by_user : ℤ → TaskManager → TaskManager
unfolding get_task_ids_by_user
remove_all_tasks_by_user conn_id m = remove_tasks (get_task_ids_by_user conn_id m) m

attach_found : ℤ → ℤ → Task → TaskManager → TaskManager
attach_found task_id conn_id task m = if is_positive task.user_conn_id then m else record m {
  task_map = put task_id (record task { user_conn_id = conn_id }) m.task_map;
  task_conn_id_map =
      let ids = or_empty (find conn_id m.task_conn_id_map) in
      put conn_id (if contains task_id ids then ids else ids ++ task_id ∷ []) m.task_conn_id_map;
}

unfoldable pub attach_task_to_user : ℤ → ℤ → TaskManager → TaskManager
unfolding attach_found get_task
attach_task_to_user task_id conn_id m =
    if not (is_positive conn_id)
    then m
    else elim (get_task task_id m) [ none ↦ m | some task ↦ attach_found task_id conn_id task m ]

expect_found : ℤ → ℤ → Task → TaskManager → TaskManager
expect_found task_id req_id task m =
    let old =
      if is_positive task.expected_reply_id
      then erase task.expected_reply_id m.task_request_id_map
      else m.task_request_id_map in
    record m {
      task_map = put task_id (record task { expected_reply_id = req_id }) m.task_map;
      task_request_id_map = if req_id ==ℤ pos 0 then old else put req_id task_id old;
    }

unfoldable pub set_task_expected_reply_id : ℤ → ℤ → TaskManager → TaskManager
unfolding expect_found get_task
set_task_expected_reply_id task_id req_id m = elim (get_task task_id m) [
  | none ↦ m
  | some task ↦ expect_found task_id req_id task m
]

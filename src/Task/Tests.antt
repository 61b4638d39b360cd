-- ===== src/Task/Tests.antt =====
-- Runs of the task manager at concrete inputs.
use freekill_asio.Base.{pos, negsuc, ◌≡◌, refl, false, [], ◌∷◌, none}
use freekill_asio.Base.Map.{find, put, erase, contains, remove_all}
use freekill_asio.Task.{Task, new_task}
use freekill_asio.Task.Manager.{
  TaskManager, no_tasks, create_task, get_task, get_task_ids_by_user, attach_task_to_user,
  remove_task, remove_all_tasks_by_user, remove_tasks,
}
use freekill_asio.Task.Manager.Index.{
  IsIndexed, Reached, empty, created, attached, Reached-IsIndexed,
}
use freekill_asio.Task.Manager.Removal.{remove_all_tasks_by_user_lem}

abbrev one_task : TaskManager
one_task = (create_task (pos 1000) "ping" "null" no_tasks).0

abbrev owned : TaskManager
owned = attach_task_to_user (negsuc 999) (pos 1001) one_task

owned-Reached : Reached owned
owned-Reached =
    attached (negsuc 999) (pos 1001)
      (created {m = no_tasks} (pos 1000) "ping" "null" (unfold get_task find in refl) empty)

two_users : get_task_ids_by_user (pos 1001) owned ≡ negsuc 999 ∷ []
unfolding get_task_ids_by_user attach_task_to_user create_task find put contains
two_users = refl

gone : get_task (negsuc 999) (remove_all_tasks_by_user (pos 1001) owned) ≡ none
unfolding remove_all_tasks_by_user remove_task get_task get_task_ids_by_user attach_task_to_user
    create_task find put contains erase remove_all remove_tasks
gone = refl

abbrev ping : Task
ping = new_task (negsuc 999) (pos 1000) "ping" "null"

Reached-IsIndexed_example : IsIndexed owned
Reached-IsIndexed_example = Reached-IsIndexed owned-Reached

remove_all_tasks_by_user_lem_example :
    contains
      (negsuc 999)
      (get_task_ids_by_user (pos 1001) (remove_all_tasks_by_user (pos 1001) owned))
    ≡ false
remove_all_tasks_by_user_lem_example =
    (remove_all_tasks_by_user_lem (pos 1001) owned (Reached-IsIndexed owned-Reached) refl).1
      (negsuc 999)

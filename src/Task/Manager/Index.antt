-- ===== src/Task/Manager/Index.antt =====
-- What the two indexes of the task manager promise, and that every operation keeps it.
use Prim.Native.String.{String}
use freekill_asio.Base.{
  ℤ, ◌≡◌, refl, Bool, true, false, ◌==ℤ◌, ==ℤ_iff, is_positive, is_negative, List, [], ◌∷◌, Option,
  none, some, if◌then◌else◌, ◌++◌, Bool-cases, Option-cases, inl, inr, arith,
}
use freekill_asio.Base.Map.{
  remove_all, find, erase, contains, find-put, find-erase, contains-remove_all, contains-snoc,
}
use freekill_asio.Task.{Task, new_task}
use freekill_asio.Task.Manager.{
  TaskManager, no_tasks, create_task, get_task, remove_task, remove_found, remove_tasks,
  remove_all_tasks_by_user, attach_task_to_user, attach_found, set_task_expected_reply_id,
  expect_found, or_empty, drop_from_user,
}

abbrev pub belongs : ℤ → Option Task → Bool
belongs conn none = false
belongs conn (some t) = t.user_conn_id ==ℤ conn

abbrev pub expects : ℤ → Option Task → Bool
expects req none = false
expects req (some t) = t.expected_reply_id ==ℤ req

-- A user's list holds exactly the ids of the tasks that belong to the user, and a request id leads
-- to a task that waits for it.
pub record IsIndexed (m : TaskManager) : Type 0 where
  pub listed :
      (conn id : ℤ)
      → is_positive conn ≡ true
      → contains id (or_empty (find conn m.task_conn_id_map)) ≡ belongs conn (find id m.task_map)
  pub requested :
      (req id : ℤ)
      → find req m.task_request_id_map ≡ some id
      → expects req (find id m.task_map) ≡ true
  pub positive : (req id : ℤ) → find req m.task_request_id_map ≡ some id → is_positive req ≡ true

contains-drop_from_user :
    (conn c id j : ℤ) (users : List (ℤ × List ℤ))
    → contains j (or_empty (find conn (drop_from_user c id users))) ≡ (
        if c ==ℤ conn
        then (if id ==ℤ j then false else contains j (or_empty (find conn users)))
        else contains j (or_empty (find conn users)))
unfolding drop_from_user contains
contains-drop_from_user conn c id j users = ground (
  arith,
  ==ℤ_iff c conn,
  find-erase conn c users,
  find-put conn c (remove_all id (or_empty (find c users))) users,
  contains-remove_all j id (or_empty (find c users)),
)

remove_found-IsIndexed :
    (rid : ℤ) (t : Task) (m : TaskManager)
    → find rid m.task_map ≡ some t
    → IsIndexed m
    → IsIndexed (remove_found rid t m)
unfolding remove_found
remove_found-IsIndexed rid t m e v = record {
  listed = λ conn id p. ground (
    arith,
    find-erase id rid m.task_map,
    contains-drop_from_user conn t.user_conn_id rid id m.task_conn_id_map,
    ==ℤ_iff rid id,
    ==ℤ_iff t.user_conn_id conn,
    v.listed conn id p,
  );
  requested = λ req id h. ground (
    arith,
    find-erase id rid m.task_map,
    find-erase req t.expected_reply_id m.task_request_id_map,
    ==ℤ_iff rid id,
    ==ℤ_iff t.expected_reply_id req,
    v.requested req id,
    v.positive req id,
  );
  positive = λ req id h. ground (
    arith,
    find-erase req t.expected_reply_id m.task_request_id_map,
    ==ℤ_iff t.expected_reply_id req,
    v.positive req id,
  );
}

pub remove_task-IsIndexed : (id : ℤ) (m : TaskManager) → IsIndexed m → IsIndexed (remove_task id m)
unfolding remove_task
remove_task-IsIndexed id m v = elim (Option-cases (find id m.task_map)) [
  | inl e ↦ rw (e, remove_task) v
  | inr (t, e) ↦ rw (e, remove_task) (remove_found-IsIndexed id t m e v)
]

attach_found-IsIndexed :
    (tid c : ℤ) (t : Task) (m : TaskManager)
    → is_positive c ≡ true
    → find tid m.task_map ≡ some t
    → IsIndexed m
    → IsIndexed (attach_found tid c t m)
unfolding attach_found
attach_found-IsIndexed tid c t m pc e v = record {
  listed = λ conn id p. ground (
    arith,
    find-put id tid (record t { user_conn_id = c }) m.task_map,
    find-put conn c (or_empty (find c m.task_conn_id_map)) m.task_conn_id_map,
    find-put conn c (or_empty (find c m.task_conn_id_map) ++ tid ∷ []) m.task_conn_id_map,
    contains-snoc id tid (or_empty (find c m.task_conn_id_map)),
    ==ℤ_iff tid id,
    ==ℤ_iff c conn,
    ==ℤ_iff t.user_conn_id conn,
    v.listed conn id p,
  );
  requested = λ req id h. ground (
    arith,
    find-put id tid (record t { user_conn_id = c }) m.task_map,
    ==ℤ_iff tid id,
    v.requested req id,
  );
  positive = λ req id h. ground (arith, v.positive req id);
}

pub attach_task_to_user-IsIndexed :
    (tid c : ℤ) (m : TaskManager) → IsIndexed m → IsIndexed (attach_task_to_user tid c m)
unfolding attach_task_to_user
attach_task_to_user-IsIndexed tid c m v = elim (Bool-cases (is_positive c)) [
  | inr n ↦ rw (n, attach_task_to_user) v
  | inl p ↦ elim (Option-cases (find tid m.task_map)) [
    | inl e ↦ rw (p, e, attach_task_to_user) v
    | inr (t, e) ↦ rw (p, e, attach_task_to_user) (attach_found-IsIndexed tid c t m p e v)
  ]
]

expect_found-IsIndexed :
    (tid r : ℤ) (t : Task) (m : TaskManager)
    → is_negative r ≡ false
    → find tid m.task_map ≡ some t
    → IsIndexed m
    → IsIndexed (expect_found tid r t m)
unfolding expect_found
expect_found-IsIndexed tid r t m nr e v = record {
  listed = λ conn id p. ground (
    arith,
    find-put id tid (record t { expected_reply_id = r }) m.task_map,
    ==ℤ_iff tid id,
    v.listed conn id p,
  );
  requested = λ req id h. ground (
    arith,
    find-put id tid (record t { expected_reply_id = r }) m.task_map,
    find-erase req t.expected_reply_id m.task_request_id_map,
    find-put req r tid m.task_request_id_map,
    find-put req r tid (erase t.expected_reply_id m.task_request_id_map),
    ==ℤ_iff tid id,
    ==ℤ_iff r req,
    ==ℤ_iff t.expected_reply_id req,
    v.requested req id,
    v.positive req id,
  );
  positive = λ req id h. ground (
    arith,
    find-erase req t.expected_reply_id m.task_request_id_map,
    find-put req r tid m.task_request_id_map,
    find-put req r tid (erase t.expected_reply_id m.task_request_id_map),
    ==ℤ_iff r req,
    v.positive req id,
  );
}

pub set_task_expected_reply_id-IsIndexed :
    (tid r : ℤ) (m : TaskManager)
    → is_negative r ≡ false
    → IsIndexed m
    → IsIndexed (set_task_expected_reply_id tid r m)
unfolding set_task_expected_reply_id
set_task_expected_reply_id-IsIndexed tid r m nr v = elim (Option-cases (find tid m.task_map)) [
  | inl e ↦ rw (e, set_task_expected_reply_id) v
  | inr (t, e) ↦ rw (e, set_task_expected_reply_id) (expect_found-IsIndexed tid r t m nr e v)
]

pub create_task-IsIndexed :
    (thread : ℤ) (type payload : String) (m : TaskManager)
    → find m.next_id m.task_map ≡ none
    → IsIndexed m
    → IsIndexed (create_task thread type payload m).0
unfolding create_task
create_task-IsIndexed thread type payload m free v = record {
  listed = λ conn id p. ground (
    arith,
    find-put id m.next_id (new_task m.next_id thread type payload) m.task_map,
    ==ℤ_iff m.next_id id,
    v.listed conn id p,
  );
  requested = λ req id h. ground (
    arith,
    find-put id m.next_id (new_task m.next_id thread type payload) m.task_map,
    ==ℤ_iff m.next_id id,
    v.requested req id,
  );
  positive = λ req id h. ground (arith, v.positive req id);
}

pub remove_tasks-IsIndexed :
    (ids : List ℤ) (m : TaskManager) → IsIndexed m → IsIndexed (remove_tasks ids m)
unfolding remove_tasks
remove_tasks-IsIndexed [] m v = v
remove_tasks-IsIndexed (id ∷ ids) m v =
    remove_tasks-IsIndexed ids (remove_task id m) (remove_task-IsIndexed id m v)

-- The managers that the operations lead to. A task is created under an id that is free, and a
-- request id is not negative (`Router` gives out positive ones, and 0 clears the expectation).
pub data Reached : TaskManager → Type 0 where
  empty : Reached no_tasks
  created :
      {m : TaskManager} (thread : ℤ) (type payload : String)
      → get_task m.next_id m ≡ none
      → Reached m
      → Reached (create_task thread type payload m).0
  removed : {m : TaskManager} (id : ℤ) → Reached m → Reached (remove_task id m)
  left : {m : TaskManager} (conn : ℤ) → Reached m → Reached (remove_all_tasks_by_user conn m)
  attached : {m : TaskManager} (id conn : ℤ) → Reached m → Reached (attach_task_to_user id conn m)
  expecting :
      {m : TaskManager} (id req : ℤ)
      → is_negative req ≡ false
      → Reached m
      → Reached (set_task_expected_reply_id id req m)

-- Whatever the operations so far, the list of a user (of a positive connection id) holds exactly
-- the ids of the tasks that belong to that user, and every request id in the other index is
-- positive and leads to a task that waits for this id.
pub Reached-IsIndexed : {m : TaskManager} → Reached m → IsIndexed m
unfolding get_task find contains remove_all_tasks_by_user
Reached-IsIndexed empty = record {
  listed = λ conn id p. refl;
  requested = λ req id h. ground arith;
  positive = λ req id h. ground arith;
}
Reached-IsIndexed (created {m = m} thread type payload free r) =
    create_task-IsIndexed thread type payload m free (Reached-IsIndexed r)
Reached-IsIndexed (removed {m = m} id r) = remove_task-IsIndexed id m (Reached-IsIndexed r)
Reached-IsIndexed (left {m = m} conn r) = remove_tasks-IsIndexed _ m (Reached-IsIndexed r)
Reached-IsIndexed (attached {m = m} id conn r) =
    attach_task_to_user-IsIndexed id conn m (Reached-IsIndexed r)
Reached-IsIndexed (expecting {m = m} id req nr r) =
    set_task_expected_reply_id-IsIndexed id req m nr (Reached-IsIndexed r)

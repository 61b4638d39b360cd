-- ===== src/Server/Lobby/Tasks.antt =====
-- `Lobby::handleTask` of src/server/room/lobby.cpp. The JSON library is a parameter: what it reads
-- from bytes, the text of an element, and how it writes an element.
use Prim.Native.String.{String}
use freekill_asio.Base.{
  ℕ, ℤ, pos, ◌≡◌, refl, subst, ==ℤ_iff, true, List, [], ◌∷◌, ◌++◌, Option, none, some, is_positive,
  arith,
}
use freekill_asio.Base.Map.{find, put, find-put}
use freekill_asio.Task.{Task, new_task, start, increase_ref_count}
use freekill_asio.Task.Manager.{TaskManager, create_task, get_task, attach_task_to_user}
use freekill_asio.Server.World.{World, ServerPlayer}
use freekill_asio.Server.Threads.{get_available_thread}

-- What stands in the data of a packet: no JSON, a value that is no array, or an array.
pub data Content {ℓ} (J : Type ℓ) : Type ℓ where
  broken plain : Content J
  array : List J → Content J

started_task : ℤ → Task → TaskManager → TaskManager
unfolding start
started_task id t m = record m {
  task_map = put id (start t).0 m.task_map;
  calls = m.calls ++ (start t).1;
}

unfoldable pub start_found : ℤ → Option Task → TaskManager → TaskManager
unfolding started_task
start_found id none m = m
start_found id (some t) m = started_task id t m

unfoldable pub create_and_start : ℤ → ℤ → String → String → TaskManager → TaskManager
unfolding create_task attach_task_to_user start_found get_task
create_and_start thread conn task_type payload m =
    let (made, id) = create_task thread task_type payload m in
    let owned = attach_task_to_user id conn made in start_found id (get_task id owned) owned

module _ {ℓ} {J : Type ℓ} (from_cbor : List ℕ → Content J) (to_text : J → Option String)
    (to_cbor : J → String) where
  unfoldable pub new_task_in : ℤ → ServerPlayer → String → String → World → World
  unfolding create_and_start get_available_thread
  new_task_in capacity p task_type payload w =
      let (v, t) = get_available_thread capacity w in
      record v { tasks = create_and_start t.id p.conn_id task_type payload (tasks_of v) }
    where
      tasks_of : World → TaskManager
      tasks_of v = v.tasks

  -- The type that is no text makes the code throw: `none`.
  unfoldable pub take_type : ℤ → ServerPlayer → Option String → J → World → Option World
  unfolding new_task_in
  take_type capacity p none payload w = none
  take_type capacity p (some t) payload w = some (new_task_in capacity p t (to_cbor payload) w)

  unfoldable pub take_content : ℤ → ServerPlayer → Content J → World → Option World
  unfolding take_type
  take_content capacity p broken w = some w
  take_content capacity p plain w = some w
  take_content capacity p (array []) w = some w
  take_content capacity p (array (a ∷ [])) w = some w
  take_content capacity p (array (a ∷ b ∷ [])) w = take_type capacity p (to_text a) b w
  take_content capacity p (array (a ∷ b ∷ c ∷ rest)) w = some w

  unfoldable pub handle_task : ℤ → ServerPlayer → List ℕ → World → Option World
  unfolding take_content
  handle_task capacity p bytes w = take_content capacity p (from_cbor bytes) w

-- The task of a user, with the reference of its start.
unfoldable pub running : ℤ → ℤ → String → String → ℤ → Task
unfolding new_task
running id thread task_type payload conn = record (new_task id thread task_type payload) {
  user_conn_id = conn;
  lua_ref_count = pos 1;
}

find-put_self : (j : ℤ) (t : Task) (ts : List (ℤ × Task)) → find j (put j t ts) ≡ some t
find-put_self j t ts = ground (arith, find-put j j t ts, ==ℤ_iff j j)

create_and_start_lem :
    (thread conn : ℤ) (task_type payload : String) (m : TaskManager)
    → is_positive conn ≡ true
    → get_task m.next_id (create_and_start thread conn task_type payload m)
      ≡ some (running m.next_id thread task_type payload conn)
unfolding create_and_start create_task attach_task_to_user start_found started_task start
    increase_ref_count get_task running new_task
create_and_start_lem thread conn task_type payload m h =
    let t : Task = new_task m.next_id thread task_type payload in
    let made = (create_task thread task_type payload m).0 in
    rw
      (
        h,
        find-put_self m.next_id t m.task_map,
        find-put_self m.next_id (record t { user_conn_id = conn }) made.task_map,
      )
      (find-put_self m.next_id _ _)

tasks-get_available_thread :
    (capacity : ℤ) (w : World) → (get_available_thread capacity w).0.tasks ≡ w.tasks
unfolding get_available_thread
tasks-get_available_thread capacity w = ground arith

module _ {ℓ} {J : Type ℓ} (from_cbor : List ℕ → Content J) (to_text : J → Option String)
    (to_cbor : J → String) where
  -- A task that a user asks for by a type that is text, and a value, is made under the next id,
  -- belongs to the user, and is started on the thread that is available, with one reference. If the
  -- type is no text, the code throws.
  pub handle_task_lem :
      (capacity : ℤ) (p : ServerPlayer) (bytes : List ℕ) (w : World) (a b : J)
      → from_cbor bytes ≡ array (a ∷ b ∷ [])
      → (to_text a ≡ none → handle_task from_cbor to_text to_cbor capacity p bytes w ≡ none)
        × ((t : String)
            → to_text a ≡ some t
            → is_positive p.conn_id ≡ true
            → (v : World) × (handle_task from_cbor to_text to_cbor capacity p bytes w ≡ some v)
              × (get_task w.tasks.next_id v.tasks
                  ≡ some (
                      running w.tasks.next_id
                        (get_available_thread capacity w).1.id
                        t
                        (to_cbor b)
                        p.conn_id)))
  unfolding handle_task take_content take_type new_task_in
  handle_task_lem capacity p bytes w a b h = (
    λ n. rw (h, n) refl,
    λ t n c. (
      new_task_in from_cbor to_text to_cbor capacity p t (to_cbor b) w,
      rw (h, n) refl,
      subst
          (λ (m : TaskManager).
            get_task m.next_id (
              create_and_start (get_available_thread capacity w).1.id p.conn_id t (to_cbor b)
                (get_available_thread capacity w).0.tasks)
            ≡ some
                (running m.next_id (get_available_thread capacity w).1.id t (to_cbor b) p.conn_id))
          (tasks-get_available_thread capacity w)
          (create_and_start_lem (get_available_thread capacity w).1.id p.conn_id t (to_cbor b) _ c),
    ),
  )

-- ===== src/Storage.antt =====
-- The task storage: `DataStorage` (src/libraries/backend/data_storage/interface/data_storage.hpp)
-- and its one implementation `InMemoryStorage`
-- (src/libraries/backend/data_storage/in_memory_storage/in_memory_storage.cpp). Each method takes
-- the state and returns the new one; the lock that each takes is in Threads.
pub mod LowerBound
pub mod Rounds
pub mod Validity
pub mod Lookup
pub mod Spec
pub mod Refinement
pub mod Identity
pub mod Threads
mod Tests
use just_queue_it.Base.{
  ℕ, zero, suc, ◌+◌, ◌-◌, ◌/◌, ◌%◌, ◌^◌, Option, none, some, List, [], ◌∷◌, ◌++◌, Bool, true, false,
  not, ◌||◌, ltb, ◌==◌, if◌then◌else◌, length, get_elem?, erase_at,
}
use just_queue_it.Task.{Task, TaskPayload}

-- The pure virtual methods, over the state of the implementing object.
pub record DataStorage (S : Type 0) : Type 0 where
  pub create_task : TaskPayload → S → Task × S
  pub get_task : ℕ → S → Option Task
  pub delete_task : ℕ → S → S
  pub get_tasks : S → List Task

-- `m_mutex` has no content; `tasks` is `m_tasks`, `next_id` is `m_id`.
pub record InMemoryStorage : Type 0 where
  pub tasks : List Task
  pub next_id : ℕ

abbrev pub size_max : ℕ
size_max = 2 ^ 64

abbrev pub empty : InMemoryStorage
empty = record { tasks = []; next_id = 0 }

-- `less{}(task.id, index)` at a position; past the end there is nothing to compare.
abbrev id_below : ℕ → Option Task → Bool
id_below index none = false
id_below index (some t) = ltb t.id index

-- The loop of `std::ranges::lower_bound` over `[first, first + len)`. Each round shortens the
-- range, so the length of the list is fuel enough.
pub bound_loop : ℕ → List Task → ℕ → ℕ → ℕ → ℕ
bound_loop zero tasks index first len = first
bound_loop (suc fuel) tasks index first len =
    let half = len / 2 in
    let right = bound_loop fuel tasks index (first + half + 1) (len - half - 1) in
    let left = bound_loop fuel tasks index first half in
    if len == 0
    then first
    else if id_below index (get_elem? tasks (first + half))
    then right
    else left

-- `std::ranges::lower_bound(m_tasks, index, std::ranges::less{}, &Task::id)`, as a position.
pub lower_bound : List Task → ℕ → ℕ
unfolding bound_loop
lower_bound tasks index = bound_loop (length tasks) tasks index 0 (length tasks)

-- `Task{.id = m_id++, .payload = payload}`, with the wrap-around of `size_t`.
unfoldable pub create_task : TaskPayload → InMemoryStorage → Task × InMemoryStorage
create_task payload s =
    let t : Task = record { id = s.next_id; payload = payload } in
    (t, record { tasks = s.tasks ++ t ∷ []; next_id = (s.next_id + 1) % size_max })

-- `itr == m_tasks.end() || itr->id != index`
abbrev pub missed : ℕ → Option Task → Bool
missed index none = true
missed index (some t) = not (t.id == index)

unfoldable pub delete_task : ℕ → InMemoryStorage → InMemoryStorage
unfolding lower_bound
delete_task index s =
    let itr = lower_bound s.tasks index in
    if missed index (get_elem? s.tasks itr) then s else record s { tasks = erase_at itr s.tasks }

unfoldable pub get_task : ℕ → InMemoryStorage → Option Task
unfolding lower_bound
get_task index s =
    let itr = lower_bound s.tasks index in
    if missed index (get_elem? s.tasks itr) then none else get_elem? s.tasks itr

unfoldable pub get_tasks : InMemoryStorage → List Task
get_tasks s = s.tasks

-- `InMemoryStorage final : public DataStorage`.
abbrev pub in_memory : DataStorage InMemoryStorage
in_memory = record {
  create_task = create_task;
  get_task = get_task;
  delete_task = delete_task;
  get_tasks = get_tasks;
}

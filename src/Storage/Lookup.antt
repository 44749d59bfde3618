-- ===== src/Storage/Lookup.antt =====
-- `GetTask` and `DeleteTask` by bisection agree with a search through the whole vector, and what a
-- reader sees of one id after a write.
use just_queue_it.Base.{
  ℕ, suc, ◌+◌, ◌<◌, ◌≡◌, refl, Option, none, some, List, [], ◌∷◌, ◌++◌, ◌==◌, if◌then◌else◌,
  get_elem?, erase_at, All, arith,
}
use just_queue_it.Task.{Task, TaskPayload}
use just_queue_it.Storage.{InMemoryStorage, size_max, missed, create_task, delete_task, get_task}
use just_queue_it.Storage.LowerBound.{IsSorted, rank, lower_bound-rank}
use just_queue_it.Storage.Validity.{IsValid, create_task-IsValid, delete_task-IsValid}

-- The task with an id, by a search through the whole list.
abbrev pub find_task : ℕ → List Task → Option Task
find_task index [] = none
find_task index (t ∷ ts) = if t.id == index then some t else find_task index ts

-- The list less every task with an id.
abbrev pub without : ℕ → List Task → List Task
without index [] = []
without index (t ∷ ts) = let rest = without index ts in if t.id == index then rest else t ∷ rest

pub find_task_above :
    (k : ℕ) (ts : List Task) (index : ℕ)
    → All (λ u. k < u.id) ts
    → index < suc k
    → find_task index ts ≡ none
find_task_above k [] index a h = refl
find_task_above k (t ∷ ts) index a h = ground (arith, find_task_above k ts index)

find_task_below : (n : ℕ) (ts : List Task) → All (λ u. u.id < n) ts → find_task n ts ≡ none
find_task_below n [] a = refl
find_task_below n (t ∷ ts) a = ground (arith, find_task_below n ts)

without_above :
    (k : ℕ) (ts : List Task) (index : ℕ)
    → All (λ u. k < u.id) ts
    → index < suc k
    → without index ts ≡ ts
without_above k [] index a h = refl
without_above k (t ∷ ts) index a h = ground (arith, without_above k ts index)

get_elem?-rank :
    (ts : List Task) (index : ℕ)
    → IsSorted ts
    → (if missed index (get_elem? ts (rank ts index)) then none else get_elem? ts (rank ts index))
      ≡ find_task index ts
get_elem?-rank [] index s = refl
get_elem?-rank (t ∷ ts) index s =
    ground (arith, get_elem?-rank ts index s.1, find_task_above t.id ts index s.0)

erase_at-rank :
    (ts : List Task) (index : ℕ)
    → IsSorted ts
    → (if missed index (get_elem? ts (rank ts index)) then ts else erase_at (rank ts index) ts)
      ≡ without index ts
erase_at-rank [] index s = refl
erase_at-rank (t ∷ ts) index s =
    ground (arith, erase_at-rank ts index s.1, without_above t.id ts index s.0)

-- In a valid storage `GetTask` returns what a search from the first task to the last returns: the
-- first task with the id, or none.
pub get_task-find_task :
    (index : ℕ) (s : InMemoryStorage) → IsValid s → get_task index s ≡ find_task index s.tasks
unfolding get_task
get_task-find_task index s v =
    rw (lower_bound-rank s.tasks index v.sorted) (get_elem?-rank s.tasks index v.sorted)

-- In a valid storage `DeleteTask` removes the tasks with the id and no other, keeps their order and
-- leaves the next id.
delete_task-without :
    (index : ℕ) (s : InMemoryStorage)
    → IsValid s
    → delete_task index s ≡ record s { tasks = without index s.tasks }
unfolding delete_task
delete_task-without index s v =
    rw (lower_bound-rank s.tasks index v.sorted)
      (ground (arith, erase_at-rank s.tasks index v.sorted))

find_task-concat :
    (index : ℕ) (ts : List Task) (t : Task)
    → All (λ u. u.id < t.id) ts
    → find_task index (ts ++ t ∷ []) ≡ (if t.id == index then some t else find_task index ts)
find_task-concat index [] t a = refl
find_task-concat index (u ∷ ts) t a = ground (arith, find_task-concat index ts t)

find_task-without :
    (i j : ℕ) (ts : List Task)
    → find_task j (without i ts) ≡ (if i == j then none else find_task j ts)
find_task-without i j [] = ground arith
find_task-without i j (t ∷ ts) = ground (arith, find_task-without i j ts)

-- After `CreateTask` on a valid storage, while the ids fit in `size_t`, the next id has the new
-- task, and every other id what it had before.
pub get_task-create_task :
    (payload : TaskPayload) (index : ℕ) (s : InMemoryStorage)
    → IsValid s
    → s.next_id + 1 < size_max
    → get_task index (create_task payload s).1 ≡ (
        if s.next_id == index
        then some (record { id = s.next_id; payload = payload })
        else get_task index s)
get_task-create_task payload index s v h =
    rw
      (
        get_task-find_task index (create_task payload s).1 (create_task-IsValid payload s v h),
        get_task-find_task index s v,
      )
      (unfold create_task in find_task-concat index s.tasks _ v.below)

-- After `DeleteTask` on a valid storage the id has no task, and every other id what it had before.
pub get_task-delete_task :
    (i j : ℕ) (s : InMemoryStorage)
    → IsValid s
    → get_task j (delete_task i s) ≡ (if i == j then none else get_task j s)
get_task-delete_task i j s v =
    rw
      (
        get_task-find_task j (delete_task i s) (delete_task-IsValid i s v),
        get_task-find_task j s v,
        delete_task-without i s v,
      )
      (find_task-without i j s.tasks)

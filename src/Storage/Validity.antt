-- ===== src/Storage/Validity.antt =====
-- What every operation of `InMemoryStorage` keeps: ids increase along the vector and lie below the
-- next id. (in_memory_storage.cpp searches the vector by bisection and relies on this.)
use just_queue_it.Base.{
  ℕ, zero, suc, ◌+◌, ◌%◌, ◌<◌, ◌≡◌, List, [], ◌∷◌, ◌++◌, inl, inr, Bool-cases, get_elem?, erase_at,
  All, All-append, arith,
}
use just_queue_it.Task.{Task, TaskPayload}
use just_queue_it.Storage.{
  InMemoryStorage, empty, size_max, create_task, delete_task, lower_bound, missed,
}
use just_queue_it.Storage.LowerBound.{IsSorted}

pub record IsValid (s : InMemoryStorage) : Type 0 where
  pub sorted : IsSorted s.tasks
  pub below : All (λ t. t.id < s.next_id) s.tasks
  pub fits : s.next_id < size_max

pub empty-IsValid : IsValid empty
empty-IsValid = record { sorted = tt; below = tt; fits = omega arith }

All-mono : (m n : ℕ) (ts : List Task) → m < n → All (λ t. t.id < m) ts → All (λ t. t.id < n) ts
All-mono m n [] h a = tt
All-mono m n (t ∷ ts) h a = (omega arith, All-mono m n ts h a.1)

IsSorted-concat :
    (ts : List Task) (u : Task) → IsSorted ts → All (λ t. t.id < u.id) ts → IsSorted (ts ++ u ∷ [])
IsSorted-concat [] u s a = (tt, tt)
IsSorted-concat (t ∷ ts) u (h, s) (lt, a) =
    (All-append (λ v. t.id < v.id) ts (u ∷ []) h (lt, tt), IsSorted-concat ts u s a)

module _ (P : Task → Type 0) where
  All-erase_at : (i : ℕ) (ts : List Task) → All P ts → All P (erase_at i ts)
  All-erase_at i [] a = tt
  All-erase_at zero (t ∷ ts) a = a.1
  All-erase_at (suc i) (t ∷ ts) a = (a.0, All-erase_at i ts a.1)

IsSorted-erase_at : (i : ℕ) (ts : List Task) → IsSorted ts → IsSorted (erase_at i ts)
IsSorted-erase_at i [] s = tt
IsSorted-erase_at zero (t ∷ ts) s = s.1
IsSorted-erase_at (suc i) (t ∷ ts) s =
    (All-erase_at (λ u. t.id < u.id) i ts s.0, IsSorted-erase_at i ts s.1)

-- `CreateTask` on a valid storage, while the ids fit in `size_t`, leaves a valid one.
pub create_task-IsValid :
    (payload : TaskPayload) (s : InMemoryStorage)
    → IsValid s
    → s.next_id + 1 < size_max
    → IsValid (create_task payload s).1
unfolding create_task
create_task-IsValid payload s v h =
    let next : (s.next_id + 1) % size_max ≡ s.next_id + 1 = omega arith in
    record {
      sorted =
          IsSorted-concat s.tasks (record { id = s.next_id; payload = payload }) v.sorted v.below;
      below = rw next (
          All-append (λ t. t.id < s.next_id + 1) s.tasks _
            (All-mono s.next_id (s.next_id + 1) s.tasks (omega arith) v.below) (omega arith, tt));
      fits = omega arith;
    }

-- `DeleteTask` on a valid storage leaves a valid one.
pub delete_task-IsValid :
    (index : ℕ) (s : InMemoryStorage) → IsValid s → IsValid (delete_task index s)
unfolding delete_task
delete_task-IsValid index s v =
    elim (Bool-cases (missed index (get_elem? s.tasks (lower_bound s.tasks index)))) [
      | inl e ↦ rw e v
      | inr e ↦ rw e (record {
        sorted = IsSorted-erase_at (lower_bound s.tasks index) s.tasks v.sorted;
        below = All-erase_at (λ t. t.id < s.next_id) (lower_bound s.tasks index) s.tasks v.below;
        fits = v.fits;
      })
    ]

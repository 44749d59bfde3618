-- ===== src/Storage/Threads/Tests.antt =====
-- Runs of two threads in a given order, and the theorems on threads at them.
use mathlib.Core.Option
use just_queue_it.Base.{
  ℕ, zero, suc, ◌+◌, ◌≡◌, ◌≤◌, refl, ap, ◌⊎◌, Option, none, some, List, [], ◌∷◌, ◌++◌, codes, true,
  arith,
}
use just_queue_it.Task.{Task, TaskPayload}
use just_queue_it.Storage.{InMemoryStorage, empty}
use just_queue_it.Storage.Validity.{IsValid, empty-IsValid}
use just_queue_it.Storage.Spec.{create, list, created, tasks, abstract_storage, run}
use just_queue_it.Storage.Refinement.{view}
use just_queue_it.Storage.Threads.{
  Pc, idle, Advance, numbered, stored, advance, System, after, Move, begin, move, Reach, here,
  later,
}
use just_queue_it.Storage.Threads.Counts.{exclusive, shared, total}
use just_queue_it.Storage.Threads.Invariant.{calls, replies}
use just_queue_it.Storage.Threads.Linear.{threads-refine, mutual_exclusion}
use just_queue_it.Storage.Threads.Progress.{work, none_made, one_made, threads_finish}

-- A thread among the others.
abbrev Chosen : List Pc → Type 0
Chosen ps = (xs : List Pc) × (p : Pc) × (ys : List Pc) × (ps ≡ xs ++ p ∷ ys)

abbrev behind : {q : Pc} {ps : List Pc} → Chosen ps → Chosen (q ∷ ps)
behind {q} (xs, p, ys, e) = (q ∷ xs, p, ys, ap (λ l. q ∷ l) e)

abbrev choose : ℕ → (ps : List Pc) → Option (Chosen ps)
choose i [] = none
choose zero (p ∷ ps) = some ([], p, ps, refl)
choose (suc i) (p ∷ ps) = Option.map behind (choose i ps)

abbrev outcome : (o : Option Advance) → Option ((a : Advance) × (o ≡ some a))
outcome none = none
outcome (some a) = some (a, refl)

record Run (n : ℕ) (m : InMemoryStorage) : Type 0 where
  last : System
  reach : Reach n m last

-- The thread `i` makes a step if it can.
turn : {n : ℕ} {m : InMemoryStorage} → Run n m → ℕ → Run n m
unfolding advance
turn r i = elim (choose i r.last.threads) [
  | none ↦ r
  | some (xs, p, ys, e) ↦ elim (outcome (advance r.last.mem r.last.lock p)) [
    | none ↦ r
    | some (a, moved) ↦ record {
      last = after r.last xs ys a;
      reach = later r.reach (
          move (record {
            before = xs;
            behind = ys;
            place = p;
            advanced = a;
            chosen = e;
            moved = moved;
            reached = refl;
          }));
    }
  ]
]

turns : {n : ℕ} {m : InMemoryStorage} → Run n m → List ℕ → Run n m
unfolding turn
turns r [] = r
turns r (i ∷ is) = turns (turn r i) is

abbrev payload : TaskPayload
payload = record { name = codes "a"; description = [] }

-- Two threads, the one in `CreateTask` and the other in `GetTasks`.
abbrev both : Run 2 empty
both = record {
  last = _;
  reach =
      later (later here (begin [] (idle ∷ []) (create payload) refl refl))
        (begin (Pc.waiting (create payload) ∷ []) [] list refl refl);
}

-- The first takes the lock and the next id, and the second has to wait.
inside : Run 2 empty
unfolding turns
inside = turns both (0 ∷ 1 ∷ 0 ∷ 1 ∷ [])

inside_lem : inside.last.threads ≡ numbered payload 0 ∷ Pc.waiting list ∷ []
unfolding inside
inside_lem = refl

-- Then the call of the first returns, and that of the second finds the task.
finished : Run 2 empty
unfolding turns
finished = turns both (0 ∷ 1 ∷ 0 ∷ 1 ∷ 0 ∷ 0 ∷ 0 ∷ 1 ∷ 1 ∷ 1 ∷ [])

abbrev stored_task : Task
stored_task = record { id = 0; payload = payload }

finished_lem : replies finished.last.log ≡ created stored_task ∷ tasks (stored_task ∷ []) ∷ []
unfolding finished
finished_lem = refl

threads-refine_example :
    (replies finished.last.log ≡ (run abstract_storage (calls finished.last.log) (view empty)).0)
    × ((finished.last.lock.writer ≡ true)
        ⊎ (IsValid finished.last.mem
            × (view finished.last.mem
                ≡ (run abstract_storage (calls finished.last.log) (view empty)).1)))
unfolding finished
threads-refine_example =
    threads-refine 2 empty finished.last empty-IsValid (omega arith) finished.reach

mutual_exclusion_example :
    (total exclusive inside.last.threads ≤ 1)
    × ((total exclusive inside.last.threads ≡ 0) ⊎ (total shared inside.last.threads ≡ 0))
mutual_exclusion_example = mutual_exclusion 2 empty inside.last inside.reach

-- The first thread puts the task into the vector.
abbrev stores : Advance
stores = record {
  mem = record { tasks = stored_task ∷ []; next_id = 1 };
  lock = record { writer = true; readers = 0 };
  pc = stored payload;
  logged = [];
}

abbrev store_made : System
store_made = after inside.last [] (Pc.waiting list ∷ []) stores

stores_lem : Move inside.last store_made
unfolding inside advance
stores_lem = record {
  before = [];
  behind = Pc.waiting list ∷ [];
  place = numbered payload 0;
  advanced = stores;
  chosen = refl;
  moved = refl;
  reached = refl;
}

threads_finish_example :
    (1 + total work store_made.threads ≤ total work inside.last.threads)
    × ((total work store_made.threads ≡ 0) ⊎ ((u : System) × Move store_made u))
threads_finish_example =
    threads_finish 2 1 empty inside.last store_made inside.reach (one_made stores_lem none_made)

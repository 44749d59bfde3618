-- ===== src/Storage/Threads.antt =====
-- Threads that call the methods of one `InMemoryStorage` at the same time
-- (src/libraries/backend/data_storage/in_memory_storage/in_memory_storage.cpp), with the lock
-- `m_mutex` and one access to the members in each step.
pub mod Counts
pub mod Invariant
pub mod Local
pub mod Linear
pub mod Progress
mod Tests
use just_queue_it.Base.{
  ℕ, zero, suc, ◌+◌, ◌-◌, ◌%◌, Option, none, some, List, [], ◌∷◌, ◌++◌, Bool, true, false, not,
  ◌||◌, ◌==◌, if◌then◌else◌, get_elem?, erase_at, ◌≡◌, map,
}
use mathlib.Core.Option
use just_queue_it.Task.{Task, TaskPayload}
use just_queue_it.Storage.{InMemoryStorage, size_max, missed, lower_bound}
use just_queue_it.Storage.Spec.{
  Call, create, get, delete, list, Reply, created, found, deleted, tasks,
}

-- `std::shared_mutex`: whether it is held exclusively, and how many hold it shared.
pub record SharedMutex : Type 0 where
  pub writer : Bool
  pub readers : ℕ

-- Where a thread stands, with what it has read. From `entered` to `leaving` it holds the lock.
pub data Pc : Type 0 where
  idle : Pc
  -- before the constructor of the guard
  waiting entered : Call → Pc
  -- `m_id++` has been evaluated, and then the task has been put into the vector
  numbered : TaskPayload → ℕ → Pc
  stored : TaskPayload → Pc
  -- `itr` has been found
  located_get located_delete : ℕ → ℕ → Pc
  -- before the destructor of the guard
  leaving : Call → Reply → Pc

-- A call that has returned.
pub record Entry : Type 0 where
  pub call : Call
  pub reply : Reply

-- What a step of a thread makes of the members, the lock and its place.
pub record Advance : Type 0 where
  pub mem : InMemoryStorage
  pub lock : SharedMutex
  pub pc : Pc
  pub logged : List Entry

-- `GetTasks` takes the lock by `std::shared_lock`, the others by `std::lock_guard`.
abbrev pub is_shared : Call → Bool
is_shared (create payload) = false
is_shared (get index) = false
is_shared (delete index) = false
is_shared list = true

abbrev acquire : SharedMutex → Bool → Option SharedMutex
acquire l true = if l.writer then none else some (record l { readers = l.readers + 1 })
acquire l false =
    if l.writer || not (l.readers == 0) then none else some (record l { writer = true })

abbrev pub release : SharedMutex → Bool → SharedMutex
release l true = record l { readers = l.readers - 1 }
release l false = record l { writer = false }

-- `m_tasks.back()`
abbrev pub back : List Task → Option Task
back [] = none
back (t ∷ []) = some t
back (t ∷ u ∷ ts) = back (u ∷ ts)

-- The first access of a method under the lock.
abbrev pub enter : InMemoryStorage → SharedMutex → Call → Advance
unfolding lower_bound
enter m l (create payload) = record {
  mem = record m { next_id = (m.next_id + 1) % size_max };
  lock = l;
  pc = numbered payload m.next_id;
  logged = [];
}
enter m l (get index) = record {
  mem = m;
  lock = l;
  pc = located_get index (lower_bound m.tasks index);
  logged = [];
}
enter m l (delete index) = record {
  mem = m;
  lock = l;
  pc = located_delete index (lower_bound m.tasks index);
  logged = [];
}
enter m l list = record { mem = m; lock = l; pc = leaving list (tasks m.tasks); logged = [] }

-- The next step of a thread that is in a call; `none` if it has to wait for the lock.
unfoldable pub advance : InMemoryStorage → SharedMutex → Pc → Option Advance
unfolding enter
advance m l idle = none
advance m l (waiting c) =
    Option.map (λ l'. record { mem = m; lock = l'; pc = entered c; logged = [] })
      (acquire l (is_shared c))
advance m l (entered c) = some (enter m l c)
advance m l (numbered payload id) = some (record {
  mem = record m { tasks = m.tasks ++ record { id = id; payload = payload } ∷ [] };
  lock = l;
  pc = stored payload;
  logged = [];
})
advance m l (stored payload) =
    Option.map
      (λ t. record { mem = m; lock = l; pc = leaving (create payload) (created t); logged = [] })
      (back m.tasks)
advance m l (located_get index itr) = some (record {
  mem = m;
  lock = l;
  pc =
      leaving (get index)
        (found (if missed index (get_elem? m.tasks itr) then none else get_elem? m.tasks itr));
  logged = [];
})
advance m l (located_delete index itr) = some (record {
  mem =
      if missed index (get_elem? m.tasks itr) then m else record m { tasks = erase_at itr m.tasks };
  lock = l;
  pc = leaving (delete index) deleted;
  logged = [];
})
advance m l (leaving c r) = some (record {
  mem = m;
  lock = release l (is_shared c);
  pc = idle;
  logged = record { call = c; reply = r } ∷ [];
})

-- The members, the lock, the threads, and the calls that have returned, the first one first.
pub record System : Type 0 where
  pub mem : InMemoryStorage
  pub lock : SharedMutex
  pub threads : List Pc
  pub log : List Entry

abbrev unlocked : SharedMutex
unlocked = record { writer = false; readers = 0 }

abbrev pub after : System → List Pc → List Pc → Advance → System
after s xs ys a = record {
  mem = a.mem;
  lock = a.lock;
  threads = xs ++ a.pc ∷ ys;
  log = s.log ++ a.logged;
}

-- One thread makes the next step of its call.
pub record Move (s t : System) : Type 0 where
  pub before : List Pc
  pub behind : List Pc
  pub place : Pc
  pub advanced : Advance
  pub chosen : s.threads ≡ before ++ place ∷ behind
  pub moved : advance s.mem s.lock place ≡ some advanced
  pub reached : t ≡ after s before behind advanced

-- One thread begins a call, or makes the next step of its call.
pub data Step (s t : System) : Type 0 where
  begin :
      (xs ys : List Pc) (c : Call)
      → s.threads ≡ xs ++ idle ∷ ys
      → t ≡ record s { threads = xs ++ waiting c ∷ ys }
      → Step s t
  move : Move s t → Step s t

abbrev pub idle_threads : ℕ → List Pc
idle_threads zero = []
idle_threads (suc n) = idle ∷ idle_threads n

-- `n` threads over a storage that nobody uses yet.
abbrev pub start : ℕ → InMemoryStorage → System
start n m = record { mem = m; lock = unlocked; threads = idle_threads n; log = [] }

pub data Reach (n : ℕ) (m : InMemoryStorage) : System → Type 0 where
  here : Reach n m (start n m)
  later : {s t : System} → Reach n m s → Step s t → Reach n m t

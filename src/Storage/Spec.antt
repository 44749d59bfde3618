-- ===== src/Storage/Spec.antt =====
-- What a `DataStorage` promises (src/libraries/backend/data_storage/interface/data_storage.hpp),
-- with no vector and no search: a partial function from ids to payloads and the next id, which is
-- not bounded.
use just_queue_it.Base.{ℕ, zero, suc, ◌+◌, Option, none, some, List, [], ◌∷◌, ◌==◌, if◌then◌else◌}
use just_queue_it.Task.{Task, TaskPayload}
use just_queue_it.Storage.{DataStorage}

pub record Abstract : Type 0 where
  pub live : ℕ → Option TaskPayload
  pub next : ℕ

abbrev pub task_at : ℕ → Option TaskPayload → Option Task
task_at id none = none
task_at id (some payload) = some (record { id = id; payload = payload })

abbrev listed : ℕ → Option TaskPayload → List Task → List Task
listed id none ts = ts
listed id (some payload) ts = record { id = id; payload = payload } ∷ ts

-- The live tasks among the `n` ids from `k` on, in the order of the ids.
abbrev pub collect : (ℕ → Option TaskPayload) → ℕ → ℕ → List Task
collect live k zero = []
collect live k (suc n) = listed k (live k) (collect live (k + 1) n)

abbrev pub abstract_storage : DataStorage Abstract
abstract_storage = record {
  create_task = λ payload a. (
    record { id = a.next; payload = payload },
    record { live = λ i. if a.next == i then some payload else a.live i; next = a.next + 1 },
  );
  get_task = λ index a. task_at index (a.live index);
  delete_task = λ index a. record a { live = λ i. if index == i then none else a.live i };
  get_tasks = λ a. collect a.live 0 a.next;
}

-- What a storage is that nothing has been put into.
abbrev pub nothing_stored : Abstract
nothing_stored = record { live = λ i. none; next = 0 }

-- A call of one of the four methods, and what it returns.
pub data Call : Type 0 where
  create : TaskPayload → Call
  get delete : ℕ → Call
  list : Call

pub data Reply : Type 0 where
  created : Task → Reply
  found : Option Task → Reply
  deleted : Reply
  tasks : List Task → Reply

module _ {S : Type 0} (storage : DataStorage S) where
  abbrev pub call : Call → S → Reply × S
  call (create payload) s = let (t, s') = storage.create_task payload s in (created t, s')
  call (get index) s = (found (storage.get_task index s), s)
  call (delete index) s = (deleted, storage.delete_task index s)
  call list s = (tasks (storage.get_tasks s), s)

  -- The replies of a sequence of calls, and the state after it.
  abbrev pub run : List Call → S → List Reply × S
  run [] s = ([], s)
  run (c ∷ cs) s = let (r, s') = call c s in let (rs, s'') = run cs s' in (r ∷ rs, s'')

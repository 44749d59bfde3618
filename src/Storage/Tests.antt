-- ===== src/Storage/Tests.antt =====
-- Runs of the in-memory storage, and its theorems at concrete states
-- (src/libraries/backend/data_storage/ut/storages_ut.cpp).
use just_queue_it.Base.{ℕ, ◌≤◌, codes, ◌≡◌, refl, none, some, List, [], ◌∷◌, arith}
use just_queue_it.Task.{Task, TaskPayload}
use just_queue_it.Storage.{
  InMemoryStorage, empty, in_memory, create_task, get_task, delete_task, get_tasks, lower_bound,
}
use just_queue_it.Storage.Rounds.{Searches, lower_bound-Searches}
use just_queue_it.Storage.LowerBound.{rank, lower_bound-rank}
use just_queue_it.Storage.Validity.{IsValid}
use just_queue_it.Storage.Lookup.{get_task-create_task, get_task-delete_task}
use just_queue_it.Storage.Spec.{
  Call, create, get, delete, list, created, found, deleted, tasks, abstract_storage, run,
}
use just_queue_it.Storage.Refinement.{view, in_memory-refines}
use just_queue_it.Storage.Identity.{created_ids, count_from, created_ids-run}

abbrev payload : TaskPayload
payload = record { name = codes "name"; description = codes "description" }

abbrev other_payload : TaskPayload
other_payload = record { name = codes "name2"; description = codes "description2" }

abbrev task : ℕ → TaskPayload → Task
task id p = record { id = id; payload = p }

-- The id 1 has been deleted.
abbrev sample : InMemoryStorage
sample = record { tasks = task 0 payload ∷ task 2 other_payload ∷ []; next_id = 3 }

sample-IsValid : IsValid sample
sample-IsValid = omega arith

abbrev script : List Call
script =
    create payload
    ∷ create other_payload
    ∷ list
    ∷ get 0
    ∷ get 1000
    ∷ delete 10000
    ∷ delete 1
    ∷ create payload
    ∷ delete 0
    ∷ list
    ∷ []

script_replies :
    (run in_memory script empty).0
    ≡ created (task 0 payload)
      ∷ created (task 1 other_payload)
      ∷ tasks (task 0 payload ∷ task 1 other_payload ∷ [])
      ∷ found (some (task 0 payload))
      ∷ found none
      ∷ deleted
      ∷ deleted
      ∷ created (task 2 payload)
      ∷ deleted
      ∷ tasks (task 2 payload ∷ [])
      ∷ []
unfolding create_task get_task delete_task get_tasks
script_replies = refl

in_memory-refines_example :
    ((run in_memory script sample).0 ≡ (run abstract_storage script (view sample)).0)
    × (view (run in_memory script sample).1 ≡ (run abstract_storage script (view sample)).1)
    × IsValid (run in_memory script sample).1
in_memory-refines_example = in_memory-refines script sample sample-IsValid (omega arith)

lower_bound-Searches_example :
    (n : ℕ) × (n ≤ 2)
    × Searches sample.tasks 2 n 0 2 (lower_bound sample.tasks 2)
    × (lower_bound sample.tasks 2 ≤ 2)
lower_bound-Searches_example = lower_bound-Searches 2 sample.tasks 2 (omega arith)

created_ids-run_example : created_ids (run in_memory script sample).0 ≡ count_from 3 3
created_ids-run_example = created_ids-run script sample (omega arith)

lower_bound-rank_example : lower_bound sample.tasks 2 ≡ rank sample.tasks 2
lower_bound-rank_example = lower_bound-rank sample.tasks 2 (omega arith)

get_task-create_task_example : get_task 3 (create_task payload sample).1 ≡ some (task 3 payload)
get_task-create_task_example = get_task-create_task payload 3 sample sample-IsValid (omega arith)

get_task-delete_task_example : get_task 2 (delete_task 2 sample) ≡ none
get_task-delete_task_example = get_task-delete_task 2 2 sample sample-IsValid

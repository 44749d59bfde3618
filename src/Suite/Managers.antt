-- ===== src/Suite/Managers.antt =====
-- src/libraries/backend/tasks_manager/ut/tasks_manager_ut.cpp: the manager over a mock
-- (src/libraries/backend/data_storage/interface/data_storage_mock.hpp).
use just_queue_it.Base.{
  ℕ, codes, Bool, true, false, ◌&&◌, ◌≡◌, refl, Option, none, some, List, [], ◌∷◌, ◌++◌, ◌==◌,
  if◌then◌else◌,
}
use just_queue_it.Task.{Task, payload_eq}
use just_queue_it.Storage.{DataStorage}
use just_queue_it.Storage.Spec.{Call, create, delete}
use just_queue_it.TasksManager
use just_queue_it.TasksManager.{TasksManager}
use just_queue_it.Suite.Storages.{payload, tasks_eq, value_eq}

-- What the mock returns, and the calls of its two methods that are not `const`. Of a `const` method
-- a test sees what it returns.
pub record Expected : Type 0 where
  pub task : Task
  pub all : List Task
  pub one : ℕ → Option Task

abbrev pub mock : Expected → DataStorage (List Call)
mock e = record {
  create_task = λ payload calls. (e.task, calls ++ create payload ∷ []);
  get_task = λ index calls. e.one index;
  delete_task = λ index calls. calls ++ delete index ∷ [];
  get_tasks = λ calls. e.all;
}

abbrev task : Task
task = record {
  id = 123;
  payload = record { name = codes "name2"; description = codes "description2" };
}

-- `REQUIRE_CALL(*mock, GetTask(0)).RETURN(task)`
abbrev only_zero : ℕ → Option Task
only_zero index = if index == 0 then some task else none

abbrev expected : Expected
expected = record { task = task; all = task ∷ []; one = only_zero }

abbrev manager : TasksManager (List Call)
manager = record { storage = mock expected }

-- One call was made, and it is the one that was required.
abbrev created_once : List Call → Bool
created_once (create p ∷ []) = payload_eq p payload
created_once _ = false

abbrev deleted_once : List Call → Bool
deleted_once (delete index ∷ []) = index == 0
deleted_once _ = false

create_case : Bool
unfolding TasksManager.create_task
create_case = created_once (TasksManager.create_task manager payload []).1

get_tasks_case : Bool
unfolding TasksManager.get_tasks
get_tasks_case = tasks_eq (TasksManager.get_tasks manager []) (task ∷ [])

get_task_case : Bool
unfolding TasksManager.get_task
get_task_case = value_eq (TasksManager.get_task manager 0 []) task

delete_case : Bool
unfolding TasksManager.delete_task
delete_case = deleted_once (TasksManager.delete_task manager 0 [])

all_pass : create_case && get_tasks_case && get_task_case && delete_case ≡ true
unfolding create_case get_tasks_case get_task_case delete_case
all_pass = refl

-- ===== src/TasksManager.antt =====
-- `TasksManager` (src/libraries/backend/tasks_manager/tasks_manager.cpp): a shared pointer to a
-- `DataStorage`, to which every method forwards. The state is that of the storage that the pointer
-- leads to.
use just_queue_it.Base.{ℕ, Option, List}
use just_queue_it.Task.{Task, TaskPayload}
use just_queue_it.Storage.{DataStorage}

-- `m_storage` is the dispatch table of the object that the pointer leads to.
pub record TasksManager (S : Type 0) : Type 0 where
  pub storage : DataStorage S

module _ {S : Type 0} (m : TasksManager S) where
  unfoldable pub create_task : TaskPayload → S → Task × S
  create_task payload s = m.storage.create_task payload s

  unfoldable pub get_tasks : S → List Task
  get_tasks s = m.storage.get_tasks s

  unfoldable pub get_task : ℕ → S → Option Task
  get_task id s = m.storage.get_task id s

  unfoldable pub delete_task : ℕ → S → S
  delete_task id s = m.storage.delete_task id s

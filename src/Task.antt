-- ===== src/Task.antt =====
-- `Task` and `TaskPayload` of src/libraries/backend/interface/task/task.hpp.
use just_queue_it.Base.{ℕ, Bytes, bytes_eq, Bool, ◌&&◌, ◌==◌}

pub record TaskPayload : Type 0 where
  pub name : Bytes
  pub description : Bytes

-- `id` is a `size_t`: a number below `2 ^ 64`.
pub record Task : Type 0 where
  pub id : ℕ
  pub payload : TaskPayload

-- The comparisons that `operator<=>` by default gives.
abbrev pub payload_eq : TaskPayload → TaskPayload → Bool
payload_eq a b = bytes_eq a.name b.name && bytes_eq a.description b.description

abbrev pub task_eq : Task → Task → Bool
task_eq a b = a.id == b.id && payload_eq a.payload b.payload

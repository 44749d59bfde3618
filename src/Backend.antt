-- ===== src/Backend.antt =====
-- `backend::StartServer` (src/libraries/backend/server/server.cpp): the four routes of the service
-- over a `TasksManager`. The state is that of the storage behind the manager; the JSON functions of
-- reflect-cpp are parameters.
pub mod Number
pub mod Table
pub mod Service
pub mod Journey
pub mod Effects
pub mod Order
pub mod Spec
pub mod Handled
pub mod Meets
mod Tests
use just_queue_it.Base.{ℕ, Bytes, codes, Option, none, some, List, [], ◌∷◌, Bool, true, false}
use just_queue_it.Base.Equality.{bytes_equality}
use just_queue_it.Base.Exec.{Exec, Outcome, returned, thrown, pure, throw, lift, ◌>>=◌}
use just_queue_it.Base.Map.{lookup}
use just_queue_it.Core.{Method, get, post, delete, Request, Response}
use just_queue_it.Core.Codes.{Status, ok, no_content}
use just_queue_it.Query.{Params}
use just_queue_it.Task.{Task, TaskPayload}
use just_queue_it.TasksManager
use just_queue_it.TasksManager.{TasksManager}
use just_queue_it.Router.{
  RouteInfo, Routes, Added, added, invalid_argument, regex_error, outside, route,
}
use just_queue_it.Endpoint.{SerializableResponse, no_body, json_body, add_route, add_route_value}
use just_queue_it.Backend.Number.{stoull}

-- `rfl::json::write` and `rfl::json::read<T>(…).value()` at the types that the routes use.
pub record Json : Type 0 where
  pub read_payload : Bytes → Outcome TaskPayload
  pub write_task : Task → Bytes
  pub write_tasks : List Task → Bytes
  pub write_optional : Option Task → Bytes
  pub write_none : Bytes

abbrev pub tasks_path : Bytes
tasks_path = codes "/tasks"

abbrev pub task_path : Bytes
task_path = codes "/tasks/{:id}"

-- `params.at(key)`, which throws `std::out_of_range` where there is no such key.
abbrev pub at : Option Bytes → Outcome Bytes
at none = thrown (codes "_Map_base::at")
at (some text) = returned text

abbrev to_id : Outcome Bytes → Outcome ℕ
unfolding stoull
to_id (thrown what) = thrown what
to_id (returned text) = stoull text

-- `std::stoull(params.at("id"))`
pub task_id : Params → Outcome ℕ
unfolding to_id
task_id params = to_id (at (lookup (codes "id") params))

abbrev pub status_for : Option Task → Status
status_for none = no_content
status_for (some task) = ok

module _ {S : Type 0} (json : Json) (manager : TasksManager S) where
  pub list_tasks : Unit {0} → Params → Exec S (List Task)
  list_tasks body params s = (returned (TasksManager.get_tasks manager s), s)

  unfoldable pub create_task : TaskPayload → Params → Exec S Task
  create_task payload params s =
      let (task, s') = TasksManager.create_task manager payload s in (returned task, s')

  unfoldable pub get_task : Unit {0} → Params → Exec S (SerializableResponse (Option Task))
  unfolding task_id
  get_task body params = do
    id ← lift (task_id params)
    λ s.
        let task = TasksManager.get_task manager id s in
        (returned (record { status_code = status_for task; body = task }), s)

  unfoldable pub delete_task : Unit {0} → Params → Exec S (Unit {0})
  unfolding task_id
  delete_task body params = do
    id ← lift (task_id params)
    λ s. (returned tt, TasksManager.delete_task manager id s)

  -- The next call of `AddRoute` is made if the one before has not thrown.
  abbrev and_added : Added S → (Routes S → Added S) → Added S
  and_added (added routes) next = next routes
  and_added (invalid_argument what) next = invalid_argument what
  and_added regex_error next = regex_error
  and_added outside next = outside

  -- The router that `StartServer` fills.
  pub make_router : Added S
  unfolding add_route add_route_value list_tasks create_task get_task delete_task
  make_router =
      and_added
        (and_added
          (and_added (add_route_value tasks_path get no_body json.write_tasks list_tasks []) (
            add_route_value tasks_path post (json_body json.read_payload) json.write_task
              create_task))
          (add_route task_path get no_body json.write_optional get_task))
        (add_route_value task_path delete no_body (λ n. json.write_none) delete_task)

-- What a request gets from the router, if it has been filled; else the exception has left
-- `StartServer`, and there is no service.
abbrev pub serve :
    {S : Type 0} → (Routes S → List (Bytes × RouteInfo S)) → Added S → Request → Exec S Response
serve iterate (added routes) req = route iterate routes req
serve iterate (invalid_argument what) req = throw what
serve iterate regex_error req = throw []
serve iterate outside req = throw []

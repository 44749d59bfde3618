-- ===== src/Backend/Journey.antt =====
-- Two requests after one another to the service over the in-memory storage, as
-- src/apps/backend/backend_app.cpp sets it up.
use just_queue_it.Base.{ℕ, ◌+◌, ◌<◌, Bytes, ◌≡◌, refl, ap, ◌∙◌, none, some, List, ==_iff}
use just_queue_it.Base.Exec.{Outcome, returned}
use just_queue_it.Core.{Method, get, post, delete, Request, Response}
use just_queue_it.Core.Codes.{ok, no_content}
use just_queue_it.Core.Content.{application_json}
use just_queue_it.Pattern.Token.{IsSegment}
use just_queue_it.Query.{Params, parse_params}
use just_queue_it.Task.{TaskPayload}
use just_queue_it.Storage
use just_queue_it.Storage.{InMemoryStorage, size_max, in_memory}
use just_queue_it.Storage.Validity.{IsValid}
use just_queue_it.Storage.Lookup.{get_task-create_task, get_task-delete_task}
use just_queue_it.TasksManager.{TasksManager, get_task, create_task, delete_task}
use just_queue_it.Router.{RouteInfo, Routes}
use just_queue_it.Router.Choice.{IsIteration}
use just_queue_it.Backend.{Json, tasks_path}
use just_queue_it.Backend.Number.{stoull}
use just_queue_it.Backend.Table.{task_url}
use just_queue_it.Backend.Service.{
  json_response, service, service-create, service-get, service-delete,
}

-- `TasksManager tasks_manager{std::make_shared<InMemoryStorage>()}`
abbrev pub tasks_manager : TasksManager InMemoryStorage
tasks_manager = record { storage = in_memory }

-- A request for a path with a query, in JSON both ways.
pub record IsJson (req : Request) (verb : Method) (path : Bytes) : Type 0 where
  pub params : Params
  pub parsed : parse_params req.path ≡ (params, path)
  pub method : req.method ≡ verb
  pub content_type : req.content_type ≡ application_json
  pub accept_content_type : req.accept_content_type ≡ application_json

module _ (json : Json) {iterate : Routes InMemoryStorage → List (Bytes × RouteInfo InMemoryStorage)}
    (it : IsIteration iterate) where
  -- The storage is valid and its ids fit in `size_t`. After a `POST /tasks` with a payload as its
  -- body a `GET /tasks/v`, where the segment `v` is read as the id that the storage had next, answers
  -- 200 with the JSON of the task with this id and payload. Both requests are in JSON both ways.
  pub get-after-create :
      (req next : Request) (payload : TaskPayload) (v : Bytes) (s : InMemoryStorage)
      → IsValid s
      → s.next_id + 1 < size_max
      → IsJson req post tasks_path
      → json.read_payload req.body ≡ returned payload
      → IsSegment v
      → stoull v ≡ returned s.next_id
      → IsJson next get (task_url v)
      → (service json tasks_manager it next (service json tasks_manager it req s).1).0
        ≡ returned (
            json_response ok
              (json.write_optional (some (record { id = s.next_id; payload = payload }))))
  unfolding get_task create_task
  get-after-create req next payload v s valid fits posted body segment number asked =
      let created =
        service-create json tasks_manager it req posted.params payload s posted.parsed posted.method
          posted.content_type posted.accept_content_type body in
      let s' = (Storage.create_task payload s).1 in
      let got =
        service-get json tasks_manager it next asked.params v s.next_id s' segment asked.parsed
          asked.method asked.accept_content_type number in
      let found : Storage.get_task s.next_id s'
          ≡ some (record { id = s.next_id; payload = payload }) =
        get_task-create_task payload s.next_id s valid fits
        ∙ rw ((==_iff s.next_id s.next_id).1 refl) in
      ap (λ (x : Outcome Response × InMemoryStorage). (service json tasks_manager it next x.1).0)
        created
      ∙ ap (λ (x : Outcome Response × InMemoryStorage). x.0) got
      ∙ rw found

  -- The storage is valid. After a `DELETE /tasks/v` a `GET /tasks/w`, where the segments `v` and `w`
  -- are read as the same id, answers 204 with the JSON of no task. Both requests are in JSON both
  -- ways.
  pub get-after-delete :
      (req next : Request) (v w : Bytes) (id : ℕ) (s : InMemoryStorage)
      → IsValid s
      → IsSegment v
      → stoull v ≡ returned id
      → IsJson req delete (task_url v)
      → IsSegment w
      → stoull w ≡ returned id
      → IsJson next get (task_url w)
      → (service json tasks_manager it next (service json tasks_manager it req s).1).0
        ≡ returned (json_response no_content (json.write_optional none))
  unfolding get_task delete_task
  get-after-delete req next v w id s valid seg_v number_v removed seg_w number_w asked =
      let gone =
        service-delete json tasks_manager it req removed.params v id s seg_v removed.parsed
          removed.method removed.accept_content_type number_v in
      let s' = Storage.delete_task id s in
      let got =
        service-get json tasks_manager it next asked.params w id s' seg_w asked.parsed asked.method
          asked.accept_content_type number_w in
      let missing : Storage.get_task id s' ≡ none =
        get_task-delete_task id id s valid ∙ rw ((==_iff id id).1 refl) in
      ap (λ (x : Outcome Response × InMemoryStorage). (service json tasks_manager it next x.1).0)
        gone
      ∙ ap (λ (x : Outcome Response × InMemoryStorage). x.0) got
      ∙ rw missing

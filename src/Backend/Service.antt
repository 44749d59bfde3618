-- ===== src/Backend/Service.antt =====
-- What the service answers, and what it does to the storage.
use just_queue_it.Base.{ℕ, Bytes, codes, [], ◌≢◌, ◌≡◌, refl, ap, ◌∙◌, some, List, ◌⊎◌, inl, inr}
use just_queue_it.Base.Equality.{bytes_equality}
use just_queue_it.Base.Exec.{Exec, Outcome, returned, thrown, pure}
use just_queue_it.Base.Map.{lookup, insert, lookup-insert}
use just_queue_it.Core.{method_equality, get, post, delete, Request, Response}
use just_queue_it.Core.Codes.{Status, ok, bad_request, not_found, internal_server_error}
use just_queue_it.Core.Content.{text_plain, application_json}
use just_queue_it.Pattern.Token.{IsSegment}
use just_queue_it.Query.{Params, parse_params}
use just_queue_it.Task.{TaskPayload}
use just_queue_it.TasksManager
use just_queue_it.TasksManager.{TasksManager}
use just_queue_it.Router.{Handler, RouteInfo, Routes, respond, call_handler, route}
use just_queue_it.Router.Choice.{IsIteration}
use just_queue_it.Endpoint.Branches.{wrap-thrown, wrap-json, wrap-text_plain}
use just_queue_it.Endpoint.{json_body, wrap, with_ok, finish, serialize, deserialize}
use just_queue_it.Backend.{
  Json, serve, make_router, task_id, status_for, tasks_path, list_tasks, create_task, get_task,
  delete_task,
}
use just_queue_it.Backend.Number.{stoull}
use just_queue_it.Backend.Table.{
  table, make_router_lem, tasks_handlers, task_url, route-tasks, route-task, route-other,
}

abbrev pub json_response : Status → Bytes → Response
json_response status body = record {
  status_code = status;
  body = body;
  content_type = application_json;
}

-- The segment of the URL is the id, whatever the query says.
pub task_id-insert :
    (v : Bytes) (params : Params) → task_id (insert (codes "id") v params) ≡ stoull v
unfolding task_id
task_id-insert v params = rw (lookup-insert (codes "id") (codes "id") v params)

call_handler-returned :
    {S : Type 0} (req : Request) (params : Params) (handler : Handler S) (s t : S) (r : Response)
    → handler req params s ≡ (returned r, t)
    → call_handler req params (some handler) s ≡ (returned r, t)
unfolding call_handler
call_handler-returned req params handler s t r e = rw e

json_body-json :
    {A : Type 0} (read : Bytes → Outcome A) (req : Request)
    → req.content_type ≡ application_json
    → json_body read req ≡ read req.body
unfolding deserialize
json_body-json read req e = rw e

module _ {S : Type 0} (json : Json) (manager : TasksManager S)
    {iterate : Routes S → List (Bytes × RouteInfo S)} (it : IsIteration iterate) where
  abbrev pub service : Request → Exec S Response
  service req = serve iterate (make_router json manager) req

  -- The service is the table of two entries.
  pub service-table : (req : Request) → service req ≡ route iterate (table json manager) req
  service-table req = ap (λ a. serve iterate a req) (make_router_lem json manager)

  -- A path that is neither that of the tasks nor that of one task is answered with 404, whatever the
  -- method, and the state stays.
  pub service-other :
      (req : Request)
      → (parse_params req.path).1 ≢ tasks_path
      → ((v : Bytes) → IsSegment v → (parse_params req.path).1 ≢ task_url v)
      → service req ≡ pure (respond not_found [])
  service-other req no_tasks no_task =
      service-table req ∙ route-other json manager it req (parse_params req.path).0 no_tasks no_task

  -- `GET /tasks`, with any query: 200 with the list of the tasks as JSON, and the state stays.
  pub service-list :
      (req : Request) (params : Params) (s : S)
      → parse_params req.path ≡ (params, tasks_path)
      → req.method ≡ get
      → req.accept_content_type ≡ application_json
      → service req s
        ≡ (returned (json_response ok (json.write_tasks (TasksManager.get_tasks manager s))), s)
  unfolding call_handler wrap with_ok finish serialize list_tasks
  service-list req params s parsed method accept =
      ap (λ (m : Exec S Response). m s)
        (service-table req ∙ route-tasks json manager it req params parsed)
      ∙ rw (method, accept)

  -- What the handler of `POST /tasks` returns is the answer.
  posted :
      (req : Request) (params : Params) (s t : S) (r : Response)
      → parse_params req.path ≡ (params, tasks_path)
      → req.method ≡ post
      → wrap
          (json_body json.read_payload)
          json.write_task
          (with_ok (create_task json manager))
          req
          params
          s
        ≡ (returned r, t)
      → service req s ≡ (returned r, t)
  posted req params s t r parsed method wrapped =
      let handler =
        wrap (json_body json.read_payload) json.write_task (with_ok (create_task json manager)) in
      let chosen : lookup req.method (tasks_handlers json manager) ≡ some handler = rw method in
      ap (λ (m : Exec S Response). m s)
        (service-table req ∙ route-tasks json manager it req params parsed)
      ∙ ap (λ h. call_handler req params h s) chosen
      ∙ call_handler-returned req params handler s t r wrapped

  -- `POST /tasks`, with any query, with JSON as the type of the body and as the accepted type, and a
  -- body that is a payload: 200 with the created task as JSON, and the storage has created it.
  pub service-create :
      (req : Request) (params : Params) (payload : TaskPayload) (s : S)
      → parse_params req.path ≡ (params, tasks_path)
      → req.method ≡ post
      → req.content_type ≡ application_json
      → req.accept_content_type ≡ application_json
      → json.read_payload req.body ≡ returned payload
      → service req s ≡ (
        returned
            (json_response ok (json.write_task (TasksManager.create_task manager payload s).0)),
        (TasksManager.create_task manager payload s).1,
      )
  unfolding with_ok create_task
  service-create req params payload s parsed method content accept body =
      posted req params s _ _ parsed method (
        wrap-json (json_body json.read_payload) json.write_task (with_ok (create_task json manager))
          req params s payload
          (record { status_code = ok; body = (TasksManager.create_task manager payload s).0 })
          (TasksManager.create_task manager payload s).1
          (json_body-json json.read_payload req content ∙ body) refl accept)

  -- `POST /tasks` with a body that is no payload: 400 with the message of the reader, and nothing is
  -- created.
  service-create_bad_body :
      (req : Request) (params : Params) (what : Bytes) (s : S)
      → parse_params req.path ≡ (params, tasks_path)
      → req.method ≡ post
      → deserialize json.read_payload req.body req.content_type ≡ thrown what
      → service req s ≡ (returned (respond bad_request what), s)
  service-create_bad_body req params what s parsed method body =
      posted req params s s (respond bad_request what) parsed method (
        wrap-thrown (json_body json.read_payload) json.write_task
          (with_ok (create_task json manager)) req params s what (unfold deserialize in body))

  -- `POST /tasks` with a body that is a payload, where plain text is accepted: the answer is 400,
  -- but the task has been created.
  pub service-create_text_plain :
      (req : Request) (params : Params) (payload : TaskPayload) (s : S)
      → parse_params req.path ≡ (params, tasks_path)
      → req.method ≡ post
      → req.content_type ≡ application_json
      → req.accept_content_type ≡ text_plain
      → json.read_payload req.body ≡ returned payload
      → service req s ≡ (
        returned (respond bad_request (codes "Unsupported accept content type")),
        (TasksManager.create_task manager payload s).1,
      )
  unfolding with_ok create_task
  service-create_text_plain req params payload s parsed method content accept body =
      posted req params s _ _ parsed method (
        wrap-text_plain (json_body json.read_payload) json.write_task
          (with_ok (create_task json manager)) req params s payload
          (record { status_code = ok; body = (TasksManager.create_task manager payload s).0 })
          (TasksManager.create_task manager payload s).1
          (json_body-json json.read_payload req content ∙ body) refl accept)

  -- `GET /tasks/v` for a segment that is read as an id, with any query: 200 with the task of the id
  -- as JSON if there is one, else 204 with no task as JSON; and the state stays.
  pub service-get :
      (req : Request) (params : Params) (v : Bytes) (id : ℕ) (s : S)
      → IsSegment v
      → parse_params req.path ≡ (params, task_url v)
      → req.method ≡ get
      → req.accept_content_type ≡ application_json
      → stoull v ≡ returned id
      → service req s ≡ (
        returned (
            json_response
              (status_for (TasksManager.get_task manager id s))
              (json.write_optional (TasksManager.get_task manager id s))),
        s,
      )
  unfolding call_handler wrap finish serialize get_task
  service-get req params v id s segment parsed method accept number =
      ap (λ (m : Exec S Response). m s)
        (service-table req ∙ route-task json manager it req params v segment parsed)
      ∙ rw (method, accept, task_id-insert v params, number)

  -- `DELETE /tasks/v` for a segment that is read as an id, with any query: 200, and the storage has
  -- deleted the id.
  pub service-delete :
      (req : Request) (params : Params) (v : Bytes) (id : ℕ) (s : S)
      → IsSegment v
      → parse_params req.path ≡ (params, task_url v)
      → req.method ≡ delete
      → req.accept_content_type ≡ application_json
      → stoull v ≡ returned id
      → service req s
        ≡ (returned (json_response ok json.write_none), TasksManager.delete_task manager id s)
  unfolding call_handler wrap with_ok finish serialize delete_task
  service-delete req params v id s segment parsed method accept number =
      ap (λ (m : Exec S Response). m s)
        (service-table req ∙ route-task json manager it req params v segment parsed)
      ∙ rw (method, accept, task_id-insert v params, number)

  -- `GET` or `DELETE` of `/tasks/v` for a segment that is not read as an id: 500 with the message of
  -- the number parser, whatever is accepted, and the state stays.
  pub service-bad_id :
      (req : Request) (params : Params) (v what : Bytes) (s : S)
      → IsSegment v
      → parse_params req.path ≡ (params, task_url v)
      → (req.method ≡ get) ⊎ (req.method ≡ delete)
      → stoull v ≡ thrown what
      → service req s ≡ (returned (respond internal_server_error what), s)
  unfolding call_handler wrap with_ok get_task delete_task
  service-bad_id req params v what s segment parsed (inl method) number =
      ap (λ (m : Exec S Response). m s)
        (service-table req ∙ route-task json manager it req params v segment parsed)
      ∙ rw (method, task_id-insert v params, number)
  service-bad_id req params v what s segment parsed (inr method) number =
      ap (λ (m : Exec S Response). m s)
        (service-table req ∙ route-task json manager it req params v segment parsed)
      ∙ rw (method, task_id-insert v params, number)

-- ===== src/App/Created.antt =====
-- A task over HTTP: one connection that creates it and then reads it.
use just_queue_it.Base.{
  ◌+◌, ◌<◌, Bytes, true, false, ◌≡◌, refl, sym, ap, ◌∙◌, some, List, [], ◌∷◌, ==_iff,
}
use just_queue_it.Base.Exec.{Exec, Outcome, returned, and_then}
use just_queue_it.Core.{Method, get, post, Request, Response}
use just_queue_it.Core.Codes.{ok, status_code}
use just_queue_it.Core.Content.{ContentType, application_json, ListsAll, content_type_name}
use just_queue_it.Pattern.Token.{IsSegment}
use just_queue_it.Query.{Params, parse_params}
use just_queue_it.Task.{Task, TaskPayload}
use just_queue_it.Storage
use just_queue_it.Storage.{InMemoryStorage, size_max, create_task}
use just_queue_it.Storage.Validity.{IsValid}
use just_queue_it.Storage.Lookup.{get_task-create_task}
use just_queue_it.TasksManager
use just_queue_it.Router.{RouteInfo, Routes}
use just_queue_it.Router.Choice.{IsIteration}
use just_queue_it.Server.{
  HttpRequest, HttpResponse, unprepared, create_response, parse_method, prepare_response,
}
use just_queue_it.Server.Prepare.{prepare_response-route}
use just_queue_it.Server.Session.{closed, Round, answer}
use just_queue_it.Server.Session.Traces.{good, none_left, one_more, session_closes}
use just_queue_it.Backend.{Json, tasks_path}
use just_queue_it.Backend.Number.{stoull}
use just_queue_it.Backend.Table.{table, make_router_lem, task_url}
use just_queue_it.Backend.Journey.{tasks_manager}
use just_queue_it.Backend.Service.{
  json_response, service, service-table, service-create, service-get,
}
use just_queue_it.App.{served_by, connection}

-- `prepare_payload` of Boost.Beast: a response with the status 200 is taken as it is, but for the
-- length of the body.
pub record KeepsOk (prepare_payload : HttpResponse → Outcome HttpResponse) : Type 0 where
  pub keeps : (r : HttpResponse) → r.result ≡ 200 → prepare_payload r ≡ returned r

-- A request for a path with a query, in JSON both ways.
pub record IsHttpJson (req : HttpRequest) (method : Method) (path : Bytes) : Type 0 where
  pub params : Params
  pub parsed : parse_params req.target ≡ (params, path)
  pub known : parse_method req.method ≡ some method
  pub content_name : content_type_name application_json ≡ req.content_type
  pub accept_name : content_type_name application_json ≡ req.accept

-- The response with the status 200 and JSON.
abbrev pub http_ok : Bytes → HttpResponse
http_ok body = unprepared (json_response ok body)

module _ (json : Json) (enumerators : List (Bytes × ContentType))
    {iterate : Routes InMemoryStorage → List (Bytes × RouteInfo InMemoryStorage)}
    (it : IsIteration iterate) (prepare_payload : HttpResponse → Outcome HttpResponse) where
  abbrev given : HttpRequest → Method → Request
  given req method = record {
    method = method;
    path = req.target;
    body = req.body;
    content_type = application_json;
    accept_content_type = application_json;
  }

  -- What the service answers with 200 and JSON is the answer of the server.
  answer_ok :
      (req : HttpRequest) (method : Method) (path body : Bytes) (s t : InMemoryStorage)
      → ListsAll enumerators
      → KeepsOk prepare_payload
      → IsHttpJson req method path
      → service json tasks_manager it (given req method) s ≡ (returned (json_response ok body), t)
      → answer enumerators iterate prepare_payload (table json tasks_manager) req s
        ≡ (returned (http_ok body), t)
  unfolding answer create_response
  answer_ok req method path body s t all beast asked served =
      let routes = table json tasks_manager in
      let prepared : prepare_response enumerators iterate routes req s
          ≡ (returned (json_response ok body), t) =
        ap (λ (m : Exec InMemoryStorage Response). m s)
          (prepare_response-route enumerators iterate routes req method application_json
              application_json all asked.known asked.content_name asked.accept_name
            ∙ sym (service-table json tasks_manager it (given req method)))
        ∙ served in
      ap (and_then (λ r u. (create_response prepare_payload r, u))) prepared
      ∙ ap (λ o. (o, t)) (beast.keeps (http_ok body) (unfold status_code in refl))

  -- The storage is valid and its ids fit in `size_t`, the array of reflect-cpp names every content
  -- type, and Beast takes a response with the status 200 as it is. A connection brings a
  -- `POST /tasks` with a payload as its body, which keeps the connection, and a `GET /tasks/v`, which
  -- does not, where the segment `v` is read as the id that the storage had next; both are in JSON
  -- both ways, with any queries. Then two responses with the status 200 are sent, the created task
  -- as JSON and the same task found as JSON; the connection is closed, nothing that comes behind is
  -- read, and the storage has created the task and done nothing else.
  pub connection-created :
      (req next : HttpRequest) (payload : TaskPayload) (v : Bytes) (rounds : List Round)
      (s : InMemoryStorage)
      → ListsAll enumerators
      → KeepsOk prepare_payload
      → IsValid s
      → s.next_id + 1 < size_max
      → IsHttpJson req post tasks_path
      → json.read_payload req.body ≡ returned payload
      → req.keep_alive ≡ true
      → IsHttpJson next get (task_url v)
      → IsSegment v
      → stoull v ≡ returned s.next_id
      → next.keep_alive ≡ false
      → connection enumerators iterate prepare_payload json (good req ∷ good next ∷ rounds) s
        ≡ record {
          ending = closed;
          sent =
              record (http_ok (json.write_task (record { id = s.next_id; payload = payload }))) {
                keep_alive = req.keep_alive;
              }
              ∷ record (http_ok
                  (json.write_optional (some (record { id = s.next_id; payload = payload })))) {
                    keep_alive = next.keep_alive;
                  }
              ∷ [];
          state = (create_task payload s).1;
        }
  unfolding connection create_task TasksManager.create_task TasksManager.get_task
  connection-created req next payload v rounds s all beast valid fits posted body kept asked segment
        number closes =
      let routes = table json tasks_manager in
      let t : Task = record { id = s.next_id; payload = payload } in
      let s' = (create_task payload s).1 in
      let first = answer_ok req post tasks_path (json.write_task t) s s' all beast posted (
        service-create json tasks_manager it (given req post) posted.params payload s posted.parsed
          refl refl refl body) in
      let found : Storage.get_task s.next_id s' ≡ some t =
        get_task-create_task payload s.next_id s valid fits
        ∙ rw ((==_iff s.next_id s.next_id).1 refl) in
      let second =
        answer_ok next get (task_url v) (json.write_optional (some t)) s' s' all beast asked (
          service-get json tasks_manager it (given next get) asked.params v s.next_id s' segment
            asked.parsed refl refl number
          ∙ rw found) in
      ap (λ a. served_by enumerators iterate prepare_payload a (good req ∷ good next ∷ rounds) s)
        (make_router_lem json tasks_manager)
      ∙ session_closes enumerators iterate prepare_payload routes (req ∷ []) next rounds s s' s' _
          (http_ok (json.write_optional (some t))) (kept, tt) (one_more first none_left) second
          closes

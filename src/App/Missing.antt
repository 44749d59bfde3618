-- ===== src/App/Missing.antt =====
-- `GET /tasks/{:id}` of an id that has no task, over HTTP.
use just_queue_it.Base.{ℕ, Bytes, ◌≡◌, ◌≢◌, refl, sym, ap, ◌∙◌, none, some, List, [], ◌∷◌}
use just_queue_it.Base.Exec.{Exec, Outcome, returned, thrown, and_then}
use just_queue_it.Core.{Method, Request, Response}
use just_queue_it.Core.Codes.{no_content, status_code}
use just_queue_it.Core.Content.{ContentType, application_json, ListsAll, content_type_name}
use just_queue_it.Pattern.Token.{IsSegment}
use just_queue_it.Query.{Params, parse_params}
use just_queue_it.Storage.{InMemoryStorage, get_task}
use just_queue_it.TasksManager
use just_queue_it.Router.{RouteInfo, Routes, route}
use just_queue_it.Router.Choice.{IsIteration}
use just_queue_it.Server.{
  HttpRequest, HttpResponse, Verb, unprepared, create_response, parse_method, prepare_response,
}
use just_queue_it.Server.Prepare.{prepare_response-route}
use just_queue_it.Server.Session.{exception, failed, Round, answer}
use just_queue_it.Server.Session.Traces.{good, none_left, session_fails}
use just_queue_it.Backend.{Json}
use just_queue_it.Backend.Number.{stoull}
use just_queue_it.Backend.Table.{table, make_router_lem, task_url}
use just_queue_it.Backend.Journey.{tasks_manager}
use just_queue_it.Backend.Service.{json_response, service-table, service-get}
use just_queue_it.App.{served_by, connection}

-- `prepare_payload` of Boost.Beast: a response with the status 204 and a body is refused with an
-- exception.
pub record RefusesBody (prepare_payload : HttpResponse → Outcome HttpResponse) : Type 0 where
  pub refuses :
      (r : HttpResponse)
      → r.result ≡ 204
      → r.body ≢ []
      → (what : Bytes) × (prepare_payload r ≡ thrown what)

service-missing :
    (json : Json) {iterate : Routes InMemoryStorage → List (Bytes × RouteInfo InMemoryStorage)}
    (it : IsIteration iterate) (req : Request) (params : Params) (v : Bytes) (id : ℕ)
    (s : InMemoryStorage)
    → IsSegment v
    → parse_params req.path ≡ (params, task_url v)
    → req.method ≡ Method.get
    → req.accept_content_type ≡ application_json
    → stoull v ≡ returned id
    → get_task id s ≡ none
    → route iterate (table json tasks_manager) req s
      ≡ (returned (json_response no_content (json.write_optional none)), s)
unfolding TasksManager.get_task
service-missing json it req params v id s segment parsed method accept number missing =
    ap (λ (m : Exec InMemoryStorage Response). m s) (sym (service-table json tasks_manager it req))
    ∙ service-get json tasks_manager it req params v id s segment parsed method accept number
    ∙ rw missing

module _ (prepare_payload : HttpResponse → Outcome HttpResponse) where
  refused_body :
      (response : Response)
      → RefusesBody prepare_payload
      → response.status_code ≡ no_content
      → response.body ≢ []
      → (what : Bytes) × (create_response prepare_payload response ≡ thrown what)
  unfolding create_response status_code
  refused_body response beast status body =
      beast.refuses (unprepared response) (ap status_code status) body

  answer_refused :
      {S : Type 0} (enumerators : List (Bytes × ContentType))
      (iterate : Routes S → List (Bytes × RouteInfo S)) (routes : Routes S) (req : HttpRequest)
      (s : S) (response : Response) (what : Bytes)
      → prepare_response enumerators iterate routes req s ≡ (returned response, s)
      → create_response prepare_payload response ≡ thrown what
      → answer enumerators iterate prepare_payload routes req s ≡ (thrown what, s)
  unfolding answer
  answer_refused enumerators iterate routes req s response what prepared refused =
      ap (and_then (λ r t. (create_response prepare_payload r, t))) prepared
      ∙ ap (λ o. (o, s)) refused

module _ (json : Json) (enumerators : List (Bytes × ContentType))
    {iterate : Routes InMemoryStorage → List (Bytes × RouteInfo InMemoryStorage)}
    (it : IsIteration iterate) (prepare_payload : HttpResponse → Outcome HttpResponse) where
  -- If the JSON of no task is not empty and Beast refuses a body with the status 204, a `GET` of a
  -- task that the storage does not have, with a known content type and JSON accepted, gets no
  -- response: the session ends with an exception, and whatever comes behind the request is not read.
  pub connection-missing_task :
      (req : HttpRequest) (content : ContentType) (params : Params) (v : Bytes) (id : ℕ)
      (rounds : List Round) (s : InMemoryStorage)
      → ListsAll enumerators
      → RefusesBody prepare_payload
      → json.write_optional none ≢ []
      → req.method ≡ Verb.get
      → content_type_name content ≡ req.content_type
      → content_type_name application_json ≡ req.accept
      → IsSegment v
      → parse_params req.target ≡ (params, task_url v)
      → stoull v ≡ returned id
      → get_task id s ≡ none
      → (what : Bytes) × (connection enumerators iterate prepare_payload json (good req ∷ rounds) s
          ≡ record { ending = failed (exception what); sent = []; state = s })
  unfolding connection
  connection-missing_task req content params v id rounds s all beast written method content_name
        accept_name segment parsed number missing =
      let routes = table json tasks_manager in
      let response = json_response no_content (json.write_optional none) in
      let inner : Request = record {
        method = Method.get;
        path = req.target;
        body = req.body;
        content_type = content;
        accept_content_type = application_json;
      } in
      let known : parse_method req.method ≡ some Method.get = unfold parse_method in rw method in
      let (what, refused) = refused_body prepare_payload response beast refl written in
      let answered : answer enumerators iterate prepare_payload routes req s ≡ (thrown what, s) =
        answer_refused prepare_payload enumerators iterate routes req s response what
          (ap (λ (m : Exec InMemoryStorage Response). m s)
              (prepare_response-route enumerators iterate routes req Method.get content
                application_json all known content_name accept_name)
            ∙ service-missing json it inner params v id s segment parsed refl refl number missing)
          refused in
      (
        what,
        ap (λ a. served_by enumerators iterate prepare_payload a (good req ∷ rounds) s)
              (make_router_lem json tasks_manager)
            ∙ session_fails enumerators iterate prepare_payload routes [] req rounds s s s [] what
                tt none_left answered,
      )

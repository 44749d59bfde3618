-- ===== src/App/Tests.antt =====
-- Connections to the program, and its theorem at one.
use just_queue_it.Base.{
  some, get_elem?, false, List, ◌≤◌, Bytes, codes, true, ◌≡◌, ◌≢◌, refl, none, [], ◌∷◌, arith,
}
use just_queue_it.Base.Exec.{returned, thrown}
use just_queue_it.Core.Content.{text_plain, content_type_name, parse_content_type}
use just_queue_it.Core.Codes.{status_code}
use just_queue_it.Router.{route, call_handler}
use just_queue_it.Endpoint.{wrap, with_ok, finish, serialize, deserialize}
use just_queue_it.Backend
use just_queue_it.TasksManager
use just_queue_it.Pattern.{match_pieces}
use just_queue_it.Backend.Journey.{tasks_manager}
use just_queue_it.Query.{parse_params}
use just_queue_it.Storage.{get_task, create_task}
use just_queue_it.Storage.Validity.{IsValid, empty-IsValid}
use just_queue_it.Server.{
  HttpRequest, HttpResponse, Verb, parse_method, create_response, prepare_response,
}
use just_queue_it.Server.Session.{exception, failed, closed, answer}
use just_queue_it.Server.Session.Traces.{good}
use just_queue_it.Server.Listening.{Event, accept, resume, stop}
use just_queue_it.Core.{get, post}
use just_queue_it.Backend.{tasks_path}
use just_queue_it.Backend.Number.{stoull}
use just_queue_it.Backend.Table.{task_url, table, make_router_lem}
use just_queue_it.App.{main_state, connection}
use just_queue_it.App.Missing.{RefusesBody, connection-missing_task}
use just_queue_it.App.Created.{KeepsOk, IsHttpJson, http_ok, connection-created}
use just_queue_it.App.Serving.{serving, serving-IsValid}
use just_queue_it.Server.Listening.Sequence.{for_session, Explained}
use just_queue_it.Server.Listening.{waiting, Connection, launched, serve_events, turn}
use just_queue_it.Storage.Spec.{abstract_storage, nothing_stored}
use just_queue_it.Storage.Refinement.{view}
use just_queue_it.App.Spec.{perform_all}
use just_queue_it.App.Program.{program_asks, serving-perform_all}
use just_queue_it.Fixtures.{
  enumerators, enumerators-ListsAll, as_is, as_is-IsIteration, names_json, refuse_body,
  strict_payload,
}

abbrev missing : HttpRequest
missing = record {
  method = Verb.get;
  target = codes "/tasks/5";
  content_type = codes "text/plain";
  accept = codes "application/json";
  body = [];
  keep_alive = true;
}

strict_payload-RefusesBody : RefusesBody strict_payload
strict_payload-RefusesBody = record { refuses = refuses }
  where
    refuses :
        (r : HttpResponse)
        → r.result ≡ 204
        → r.body ≢ []
        → (what : Bytes) × (strict_payload r ≡ thrown what)
    refuses r status body = (codes "invalid response body", ground arith)

five_parsed : parse_params (codes "/tasks/5") ≡ ([], task_url (codes "5"))
unfolding parse_params
five_parsed = refl

five : stoull (codes "5") ≡ returned 5
unfolding stoull
five = refl

no_task : get_task 5 main_state ≡ none
unfolding get_task
no_task = refl

connection-missing_task_example :
    (what : Bytes) × (connection enumerators as_is strict_payload names_json
        (good missing ∷ good missing ∷ [])
        main_state
      ≡ record { ending = failed (exception what); sent = []; state = main_state })
unfolding content_type_name
connection-missing_task_example =
    connection-missing_task names_json enumerators as_is-IsIteration strict_payload missing
      text_plain [] (codes "5") 5 (good missing ∷ []) main_state enumerators-ListsAll
      strict_payload-RefusesBody (cc) refl refl refl ((cc), (ground arith)) five_parsed five no_task

-- A client creates a task and hangs up, another asks for one that is missing.
abbrev create : HttpRequest
create = record missing {
  method = Verb.post;
  target = codes "/tasks";
  content_type = codes "application/json";
  body = codes "n";
}

abbrev two_clients : List Event
two_clients =
    accept (good create ∷ [])
    ∷ accept (good missing ∷ [])
    ∷ resume 0
    ∷ resume 1
    ∷ resume 0
    ∷ stop
    ∷ []

serving-IsValid_example :
    IsValid (serving enumerators as_is strict_payload names_json two_clients).state
    × ((serving enumerators as_is strict_payload names_json two_clients).state.next_id ≤ 6)
serving-IsValid_example =
    serving-IsValid enumerators as_is strict_payload names_json as_is-IsIteration
      enumerators-ListsAll two_clients (omega arith)

strict_payload-KeepsOk : KeepsOk strict_payload
strict_payload-KeepsOk = record { keeps = keeps }
  where
    kept : (body : Bytes) (r : HttpResponse) → r.result ≡ 200 → refuse_body body r ≡ returned r
    kept [] r status = refl
    kept (c ∷ s) r status = ground arith

    keeps : (r : HttpResponse) → r.result ≡ 200 → strict_payload r ≡ returned r
    keeps r status = kept r.body r status

abbrev read_back : HttpRequest
read_back = record missing {
  target = codes "/tasks/0?x";
  content_type = codes "application/json";
  keep_alive = false;
}

create_parsed : parse_params (codes "/tasks") ≡ ([], tasks_path)
unfolding parse_params
create_parsed = refl

read_parsed : parse_params (codes "/tasks/0?x") ≡ ((codes "x", []) ∷ [], task_url (codes "0"))
unfolding parse_params
read_parsed = refl

create-IsHttpJson : IsHttpJson create post tasks_path
unfolding parse_method content_type_name
create-IsHttpJson = record {
  params = [];
  parsed = create_parsed;
  known = refl;
  content_name = refl;
  accept_name = refl;
}

read_back-IsHttpJson : IsHttpJson read_back get (task_url (codes "0"))
unfolding parse_method content_type_name
read_back-IsHttpJson = record {
  params = (codes "x", []) ∷ [];
  parsed = read_parsed;
  known = refl;
  content_name = refl;
  accept_name = refl;
}

zero_read : stoull (codes "0") ≡ returned 0
unfolding stoull
zero_read = refl

connection-created_example :
    connection enumerators as_is strict_payload names_json
      (good create ∷ good read_back ∷ good missing ∷ [])
      main_state
    ≡ record {
      ending = closed;
      sent =
          record (http_ok (codes "n")) { keep_alive = true }
          ∷ record (http_ok (codes "n")) { keep_alive = false }
          ∷ [];
      state = (create_task (record { name = codes "n"; description = [] }) main_state).1;
    }
connection-created_example =
    connection-created names_json enumerators as_is-IsIteration strict_payload create read_back
      (record { name = codes "n"; description = [] }) (codes "0") (good missing ∷ []) main_state
      enumerators-ListsAll strict_payload-KeepsOk empty-IsValid (omega arith) create-IsHttpJson refl
      refl read_back-IsHttpJson ((cc), (ground arith)) zero_read refl

-- The first of the two clients has been answered, and has not been read again.
abbrev first_client : Connection
first_client = record {
  rounds = [];
  phase = waiting;
  sent = record (http_ok (codes "n")) { keep_alive = true } ∷ [];
}

served_by_table :
    get_elem?
      (serve_events enumerators as_is strict_payload
        (table names_json tasks_manager)
        two_clients
        (launched main_state)).connections
      0
    ≡ some first_client
unfolding serve_events turn answer create_response prepare_response parse_method parse_content_type
    content_type_name status_code route wrap with_ok finish serialize deserialize call_handler
    parse_params match_pieces Backend.create_task TasksManager.create_task create_task
served_by_table = refl

first_served :
    get_elem? (serving enumerators as_is strict_payload names_json two_clients).connections 0
    ≡ some first_client
unfolding serving
first_served = rw (make_router_lem names_json tasks_manager) served_by_table

serving-perform_all_example :
    (view (serving enumerators as_is strict_payload names_json two_clients).state
      ≡ (perform_all names_json abstract_storage strict_payload
          (program_asks enumerators as_is strict_payload names_json two_clients)
          nothing_stored).1)
    × Explained
        (for_session 0
          (perform_all names_json abstract_storage strict_payload
            (program_asks enumerators as_is strict_payload names_json two_clients)
            nothing_stored).0)
        first_client
serving-perform_all_example =
    serving-perform_all enumerators as_is strict_payload names_json two_clients 0 first_client
      as_is-IsIteration enumerators-ListsAll (omega arith) first_served

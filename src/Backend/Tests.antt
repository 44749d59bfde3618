-- ===== src/Backend/Tests.antt =====
-- Requests to the service, and its theorems at them.
use mathlib.Core.Bool.{false≢true}
use mathlib.Core.List.{Memᴰ}
use just_queue_it.Base.{
  List, ◌≤◌, Bytes, codes, ◌≡◌, ◌≢◌, refl, [], ◌∷◌, inl, String, sym, ap, ◌∙◌, take, bytes_eq_iff,
  arith,
}
use just_queue_it.Base.Exec.{returned, thrown, pure}
use just_queue_it.Base.Equality.{bytes_equality}
use just_queue_it.Core.{Method, method_equality, get, post, delete, Request}
use just_queue_it.Core.Codes.{ok, no_content, bad_request, internal_server_error, not_found}
use just_queue_it.Core.Content.{ContentType, text_plain, application_json}
use just_queue_it.Query.{parse_params}
use just_queue_it.Task.{TaskPayload}
use just_queue_it.Storage
use just_queue_it.Storage.{InMemoryStorage, empty}
use just_queue_it.Storage.Validity.{IsValid}
use just_queue_it.TasksManager
use just_queue_it.Router.{respond, RouteInfo, Routes, route}
use just_queue_it.Router.Choice.{IsIteration}
use just_queue_it.Router.Order.{route-order}
use just_queue_it.Backend.{tasks_path}
use just_queue_it.Backend.Number.{stoull, stoull-digits}
use just_queue_it.Backend.Table.{task_url, table}
use just_queue_it.Backend.Order.{table-IsUnambiguous, service-order}
use just_queue_it.Backend.Spec.{wanted, perform}
use just_queue_it.Backend.Handled.{answers}
use just_queue_it.Backend.Meets.{service-perform}
use just_queue_it.Backend.Effects.{IsOneCall, start, next, service-IsOneCall, reached-IsValid}
use just_queue_it.Backend.Service.{
  service-other, json_response, service, service-list, service-create, service-create_text_plain,
  service-get, service-delete, service-bad_id,
}
use just_queue_it.Backend.Journey.{tasks_manager, IsJson, get-after-create, get-after-delete}
use just_queue_it.Fixtures.{as_is, as_is-IsIteration, names_json}

abbrev payload : TaskPayload
payload = record { name = codes "n"; description = [] }

-- One task, with the id 7.
abbrev sample : InMemoryStorage
sample = record { tasks = record { id = 7; payload = payload } ∷ []; next_id = 8 }

sample-IsValid : IsValid sample
sample-IsValid = omega arith

abbrev ask : Method → String → String → ContentType → Request
ask method path body accept = record {
  method = method;
  path = codes path;
  body = codes body;
  content_type = application_json;
  accept_content_type = accept;
}

reads_number : stoull (codes " +12x") ≡ returned 12
unfolding stoull
reads_number = refl

reads_negative : stoull (codes "-1") ≡ returned 18446744073709551615
unfolding stoull
reads_negative = refl

out_of_range : stoull (codes "18446744073709551616") ≡ thrown (codes "stoull")
unfolding stoull
out_of_range = refl

reads_padded : stoull (codes "007") ≡ returned 7
reads_padded = stoull-digits (codes "007") ((cc), (ground arith)) (omega arith)

abbrev list_request : Request
list_request = ask get "/tasks?x=1" "" application_json

list_parsed : parse_params (codes "/tasks?x=1") ≡ ((codes "x", codes "1") ∷ [], tasks_path)
unfolding parse_params
list_parsed = refl

abbrev create_request : Request
create_request = ask post "/tasks" "n" application_json

create_parsed : parse_params (codes "/tasks") ≡ ([], tasks_path)
unfolding parse_params
create_parsed = refl

abbrev get_request : Request
get_request = ask get "/tasks/8" "" application_json

get_parsed : parse_params (codes "/tasks/8") ≡ ([], task_url (codes "8"))
unfolding parse_params
get_parsed = refl

abbrev delete_request : Request
delete_request = ask delete "/tasks/7" "" application_json

seven_parsed : parse_params (codes "/tasks/7") ≡ ([], task_url (codes "7"))
unfolding parse_params
seven_parsed = refl

number : stoull (codes "8") ≡ returned 8
unfolding stoull
number = refl

seven : stoull (codes "7") ≡ returned 7
unfolding stoull
seven = refl

no_number : stoull (codes "x") ≡ thrown (codes "stoull")
unfolding stoull
no_number = refl

bad_parsed : parse_params (codes "/tasks/x") ≡ ([], task_url (codes "x"))
unfolding parse_params
bad_parsed = refl

other_parsed : (parse_params (codes "/other")).1 ≡ codes "/other"
unfolding parse_params
other_parsed = refl

other_no_tasks : (parse_params (codes "/other")).1 ≢ tasks_path
other_no_tasks e = false≢true ((bytes_eq_iff (codes "/other") tasks_path).1 (sym other_parsed ∙ e))

other_no_task : (v : Bytes) → (parse_params (codes "/other")).1 ≢ task_url v
other_no_task v e =
    false≢true ((bytes_eq_iff (codes "/o") (codes "/t")).1 (ap (take 2) (sym other_parsed ∙ e)))

other_path :
    service names_json tasks_manager as_is-IsIteration (ask get "/other" "" text_plain)
    ≡ pure (respond not_found [])
other_path =
    service-other names_json tasks_manager as_is-IsIteration (ask get "/other" "" text_plain)
      other_no_tasks (λ v segment. other_no_task v)

lists :
    service names_json tasks_manager as_is-IsIteration list_request sample
    ≡ (returned (json_response ok (codes "n")), sample)
unfolding TasksManager.get_tasks Storage.get_tasks
lists =
    service-list names_json tasks_manager as_is-IsIteration list_request
      ((codes "x", codes "1") ∷ []) sample list_parsed refl refl

creates : service names_json tasks_manager as_is-IsIteration create_request sample ≡ (
  returned (json_response ok (codes "n")),
  (TasksManager.create_task tasks_manager payload sample).1,
)
unfolding TasksManager.create_task Storage.create_task
creates =
    service-create names_json tasks_manager as_is-IsIteration create_request [] payload sample
      create_parsed refl refl refl refl

creates_for_text :
    service names_json tasks_manager as_is-IsIteration (ask post "/tasks" "n" text_plain) sample ≡ (
      returned (respond bad_request (codes "Unsupported accept content type")),
      (TasksManager.create_task tasks_manager payload sample).1,
    )
creates_for_text =
    service-create_text_plain names_json tasks_manager as_is-IsIteration
      (ask post "/tasks" "n" text_plain) [] payload sample create_parsed refl refl refl refl

gets_none :
    service names_json tasks_manager as_is-IsIteration get_request sample
    ≡ (returned (json_response no_content (codes "null")), sample)
unfolding TasksManager.get_task Storage.get_task
gets_none =
    service-get names_json tasks_manager as_is-IsIteration get_request [] (codes "8") 8 sample
      ((cc), (ground arith)) get_parsed refl refl number

deletes :
    service names_json tasks_manager as_is-IsIteration delete_request sample
    ≡ (returned (json_response ok (codes "{}")), TasksManager.delete_task tasks_manager 7 sample)
deletes =
    service-delete names_json tasks_manager as_is-IsIteration delete_request [] (codes "7") 7 sample
      ((cc), (ground arith)) seven_parsed refl refl seven

no_id :
    service names_json tasks_manager as_is-IsIteration (ask get "/tasks/x" "" text_plain) sample
    ≡ (returned (respond internal_server_error (codes "stoull")), sample)
no_id =
    service-bad_id names_json tasks_manager as_is-IsIteration (ask get "/tasks/x" "" text_plain) []
      (codes "x") (codes "stoull") sample ((cc), (ground arith)) bad_parsed (inl refl) no_number

created : IsJson create_request post tasks_path
created = record {
  params = [];
  parsed = create_parsed;
  method = refl;
  content_type = refl;
  accept_content_type = refl;
}

asked : IsJson get_request get (task_url (codes "8"))
asked = record {
  params = [];
  parsed = get_parsed;
  method = refl;
  content_type = refl;
  accept_content_type = refl;
}

abbrev get_seven : Request
get_seven = ask get "/tasks/7" "" application_json

removed : IsJson delete_request delete (task_url (codes "7"))
removed = record {
  params = [];
  parsed = seven_parsed;
  method = refl;
  content_type = refl;
  accept_content_type = refl;
}

asked_seven : IsJson get_seven get (task_url (codes "7"))
asked_seven = record {
  params = [];
  parsed = seven_parsed;
  method = refl;
  content_type = refl;
  accept_content_type = refl;
}

get-after-create_example :
    (service names_json tasks_manager as_is-IsIteration get_request
      (service names_json tasks_manager as_is-IsIteration create_request sample).1).0
    ≡ returned (json_response ok (codes "n"))
get-after-create_example =
    get-after-create names_json as_is-IsIteration create_request get_request payload (codes "8")
      sample sample-IsValid (omega arith) created refl ((cc), (ground arith)) number asked

get-after-delete_example :
    (service names_json tasks_manager as_is-IsIteration get_seven
      (service names_json tasks_manager as_is-IsIteration delete_request sample).1).0
    ≡ returned (json_response no_content (codes "null"))
get-after-delete_example =
    get-after-delete names_json as_is-IsIteration delete_request get_seven (codes "7") (codes "7") 7
      sample sample-IsValid ((cc), (ground arith)) seven removed ((cc), (ground arith)) seven
      asked_seven

one_call_made :
    IsOneCall sample (service names_json tasks_manager as_is-IsIteration create_request sample).1
one_call_made = service-IsOneCall names_json as_is-IsIteration create_request sample

reached-IsValid_example :
    IsValid (service names_json tasks_manager as_is-IsIteration create_request empty).1
    × ((service names_json tasks_manager as_is-IsIteration create_request empty).1.next_id ≤ 1)
reached-IsValid_example =
    reached-IsValid names_json as_is-IsIteration 1 _ (next create_request start) (omega arith)

-- The description at a request: it asks for the creation of the task in its body.
service-perform_example :
    service names_json tasks_manager as_is-IsIteration create_request sample
    ≡ answers (
        perform names_json tasks_manager.storage application_json
          (wanted names_json create_request)
          sample)
service-perform_example =
    service-perform names_json tasks_manager as_is-IsIteration create_request sample

-- An iteration that begins with the second entry.
abbrev swapped : {S : Type 0} → Routes S → List (Bytes × RouteInfo S)
swapped [] = []
swapped (d ∷ []) = d ∷ []
swapped (d ∷ e ∷ routes) = e ∷ d ∷ routes

swapped_visits :
    {S : Type 0} (routes : Routes S) (x : Bytes × RouteInfo S)
    → Memᴰ x (swapped routes)
    → Memᴰ x routes
swapped_visits [] x m = m
swapped_visits (d ∷ []) x m = m
swapped_visits (d ∷ e ∷ routes) x (Memᴰ.head h) = Memᴰ.tail (Memᴰ.head h)
swapped_visits (d ∷ e ∷ routes) x (Memᴰ.tail (Memᴰ.head h)) = Memᴰ.head h
swapped_visits (d ∷ e ∷ routes) x (Memᴰ.tail (Memᴰ.tail m)) = Memᴰ.tail (Memᴰ.tail m)

visits_swapped :
    {S : Type 0} (routes : Routes S) (x : Bytes × RouteInfo S)
    → Memᴰ x routes
    → Memᴰ x (swapped routes)
visits_swapped [] x m = m
visits_swapped (d ∷ []) x m = m
visits_swapped (d ∷ e ∷ routes) x (Memᴰ.head h) = Memᴰ.tail (Memᴰ.head h)
visits_swapped (d ∷ e ∷ routes) x (Memᴰ.tail (Memᴰ.head h)) = Memᴰ.head h
visits_swapped (d ∷ e ∷ routes) x (Memᴰ.tail (Memᴰ.tail m)) = Memᴰ.tail (Memᴰ.tail m)

swapped-IsIteration : {S : Type 0} → IsIteration (swapped {S = S})
swapped-IsIteration = record {
  visits = λ routes x. (swapped_visits routes x, visits_swapped routes x);
}

service-order_example :
    service names_json tasks_manager as_is-IsIteration get_request
    ≡ service names_json tasks_manager swapped-IsIteration get_request
service-order_example =
    service-order names_json tasks_manager as_is-IsIteration swapped-IsIteration get_request

abbrev routes : Routes InMemoryStorage
routes = table names_json tasks_manager

route-order_example : route as_is routes get_request ≡ route swapped (swapped routes) get_request
route-order_example =
    route-order as_is-IsIteration swapped-IsIteration routes (swapped routes) get_request
      (λ x. (visits_swapped routes x, swapped_visits routes x))
      (table-IsUnambiguous names_json tasks_manager (parse_params (codes "/tasks/8")).1)

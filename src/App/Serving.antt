-- ===== src/App/Serving.antt =====
-- The running program: the server of `main` with any number of connections, whose sessions take
-- turns.
use just_queue_it.Base.{ℕ, suc, ◌+◌, ◌<◌, ◌≤◌, Bytes, true, false, List, [], ◌∷◌, length, arith}
use just_queue_it.Base.Exec.{Outcome}
use just_queue_it.Core.Content.{ContentType, ListsAll}
use just_queue_it.Storage.{InMemoryStorage, size_max}
use just_queue_it.Storage.Validity.{IsValid, empty-IsValid}
use just_queue_it.Router.{RouteInfo, Routes, Added, added, invalid_argument, regex_error, outside}
use just_queue_it.Router.Choice.{IsIteration}
use just_queue_it.Router.Keeps.{Keeps}
use just_queue_it.Server.{HttpRequest, HttpResponse}
use just_queue_it.Server.Session.{answer}
use just_queue_it.Server.Listening.{Event, Serving, launched, handle, serve_events}
use just_queue_it.Server.Listening.State.{answer-Keeps, handle-Keeps}
use just_queue_it.Backend.{Json, make_router}
use just_queue_it.Backend.Table.{table, make_router_lem}
use just_queue_it.Backend.Journey.{tasks_manager}
use just_queue_it.Backend.Service.{service-table}
use just_queue_it.Backend.Effects.{IsOneCall, unchanged, service-IsOneCall, one_call-IsValid}
use just_queue_it.App.{main_state}

-- What `main` leaves behind if the router could not be filled.
abbrev never_launched : InMemoryStorage → Serving InMemoryStorage
never_launched s = record (launched s) { listening = false; stopped = true }

module _ (enumerators : List (Bytes × ContentType))
    (iterate : Routes InMemoryStorage → List (Bytes × RouteInfo InMemoryStorage))
    (prepare_payload : HttpResponse → Outcome HttpResponse) where
  abbrev serving_by : Added InMemoryStorage → List Event → Serving InMemoryStorage
  serving_by (added routes) es =
      serve_events enumerators iterate prepare_payload routes es (launched main_state)
  serving_by (invalid_argument what) es = never_launched main_state
  serving_by regex_error es = never_launched main_state
  serving_by outside es = never_launched main_state

  -- The program after the events.
  unfoldable pub serving : Json → List Event → Serving InMemoryStorage
  serving json es = serving_by (make_router json tasks_manager) es

  module _ (json : Json) (it : IsIteration iterate) (all : ListsAll enumerators) where
    answer-IsOneCall :
        (req : HttpRequest)
        → Keeps IsOneCall
            (answer enumerators iterate prepare_payload (table json tasks_manager) req)
    answer-IsOneCall req s =
        answer-Keeps enumerators iterate prepare_payload (table json tasks_manager) IsOneCall
          unchanged all
          (λ r t. rw (service-table json tasks_manager it r) at (service-IsOneCall json it r t)) req
          s

    serve_events-IsValid :
        (es : List Event) (n : ℕ) (v : Serving InMemoryStorage)
        → IsValid v.state
        → v.state.next_id ≤ n
        → n + length es < size_max
        → IsValid
            (serve_events enumerators iterate prepare_payload (table json tasks_manager) es v).state
          × ((serve_events enumerators iterate prepare_payload
                (table json tasks_manager)
                es
                v).state.next_id
              ≤ n + length es)
    unfolding serve_events
    serve_events-IsValid [] n v valid ids fits = (valid, omega arith)
    serve_events-IsValid (e ∷ es) n v valid ids fits =
        let w = handle enumerators iterate prepare_payload (table json tasks_manager) e v in
        let call =
          handle-Keeps enumerators iterate prepare_payload (table json tasks_manager) IsOneCall
            unchanged answer-IsOneCall e v in
        let (kept, grown) = one_call-IsValid json it v.state w.state call valid (omega arith) in
        let (still, last) = serve_events-IsValid es (suc n) w kept (omega arith) (omega arith) in
        (still, omega arith)

    -- If the array of reflect-cpp names every content type and the iteration of the table visits its
    -- entries and no others, then after fewer events than `size_t` has values, accepted connections,
    -- failures and turns of the sessions in any order, whatever the clients send, the storage of the
    -- program is valid, and it has handed out no more ids than there were events.
    pub serving-IsValid :
        (es : List Event)
        → length es < size_max
        → IsValid (serving json es).state × ((serving json es).state.next_id ≤ length es)
    unfolding serving
    serving-IsValid es fits =
        let (valid, ids) =
          serve_events-IsValid es 0 (launched main_state) empty-IsValid (omega arith)
            (omega arith) in
        rw (make_router_lem json tasks_manager) (valid, omega arith)

-- ===== src/App/Program.antt =====
-- The program of src/apps/backend/backend_app.cpp as its clients see it.
use just_queue_it.Base.{
  ℕ, ◌<◌, ◌≤◌, Bytes, Bool, true, false, ◌≡◌, ap, ◌∙◌, Option, none, some, List, [], ◌∷◌, length,
  length-append, get_elem?, if◌then◌else◌, arith,
}
use just_queue_it.Base.Exec.{Outcome}
use just_queue_it.Core.Content.{ContentType, ListsAll}
use just_queue_it.Storage.{InMemoryStorage, size_max, empty}
use just_queue_it.Storage.Validity.{empty-IsValid}
use just_queue_it.Storage.Spec.{abstract_storage, nothing_stored}
use just_queue_it.Storage.Refinement.{view, view-empty}
use just_queue_it.Router.{RouteInfo, Routes, Added, added, invalid_argument, regex_error, outside}
use just_queue_it.Router.Choice.{IsIteration}
use just_queue_it.Server.{HttpRequest, HttpResponse}
use just_queue_it.Server.Listening.{
  Connection, Event, accept, accept_failure, resume, stop, Serving, launched, handle,
}
use just_queue_it.Server.Listening.Sequence.{
  Asked, to_answer, asked_by, asked_at, asked_running, asked_event, for_session, Explained, history,
}
use just_queue_it.Server.Listening.Sequence.Sessions.{sessions-in_sequence}
use just_queue_it.Backend.{Json, make_router}
use just_queue_it.Backend.Table.{table, make_router_lem}
use just_queue_it.Backend.Journey.{tasks_manager}
use just_queue_it.App.{main_state}
use just_queue_it.App.Serving.{serving}
use just_queue_it.App.Spec.{perform_all}
use just_queue_it.App.Refines.{in_sequence-refines}

asked_by_once : (i : ℕ) (o : Option HttpRequest) → length (asked_by i o) ≤ 1
asked_by_once i none = omega arith
asked_by_once i (some req) = omega arith

asked_at_once : (i : ℕ) (o : Option Connection) → length (asked_at i o) ≤ 1
asked_at_once i none = omega arith
asked_at_once i (some c) = asked_by_once i (to_answer c.phase c.rounds)

asked_running_once : {S : Type 0} (e : Event) (v : Serving S) → length (asked_running e v) ≤ 1
asked_running_once (accept rounds) v = omega arith
asked_running_once (accept_failure e) v = omega arith
asked_running_once (resume i) v = asked_at_once i (get_elem? v.connections i)
asked_running_once stop v = omega arith

asked_event_once :
    {S : Type 0} (b : Bool) (e : Event) (v : Serving S)
    → length (if b then [] else asked_running e v) ≤ 1
asked_event_once true e v = omega arith
asked_event_once false e v = asked_running_once e v

module _ (enumerators : List (Bytes × ContentType))
    (iterate : Routes InMemoryStorage → List (Bytes × RouteInfo InMemoryStorage))
    (prepare_payload : HttpResponse → Outcome HttpResponse) where
  length-history :
      (router : Routes InMemoryStorage) (es : List Event) (v : Serving InMemoryStorage)
      → length (history enumerators iterate prepare_payload router es v) ≤ length es
  unfolding history
  length-history router [] v = omega arith
  length-history router (e ∷ es) v =
      let w = handle enumerators iterate prepare_payload router e v in
      omega (
        arith,
        length-append (asked_event e v) (history enumerators iterate prepare_payload router es w),
        asked_event_once v.stopped e v,
        length-history router es w,
      )

  abbrev asks_by : Added InMemoryStorage → List Event → List Asked
  asks_by (added routes) es =
      history enumerators iterate prepare_payload routes es (launched main_state)
  asks_by (invalid_argument what) es = []
  asks_by regex_error es = []
  asks_by outside es = []

  -- The requests that the program answers, in the order of the answers.
  pub program_asks : Json → List Event → List Asked
  program_asks json es = asks_by (make_router json tasks_manager) es

  -- The array of reflect-cpp names every content type, the iteration of the table visits its entries
  -- and no others, and there are fewer events than `size_t` has values: accepted connections,
  -- failures, a stop and turns of the sessions in any order, with any requests. Then the storage of
  -- the program stands for what its description leaves in the abstract storage when it performs the
  -- answered requests one after another; and for each session, the responses of the description are,
  -- in order, those that the session has sent and, behind them, the one that it is writing, none if
  -- it waits, and at most one if it is over.
  pub serving-perform_all :
      (json : Json) (es : List Event) (i : ℕ) (c : Connection)
      → IsIteration iterate
      → ListsAll enumerators
      → length es < size_max
      → get_elem? (serving enumerators iterate prepare_payload json es).connections i ≡ some c
      → (view (serving enumerators iterate prepare_payload json es).state
          ≡ (perform_all json abstract_storage prepare_payload
              (program_asks json es)
              nothing_stored).1)
        × Explained
            (for_session i
              (perform_all json abstract_storage prepare_payload
                (program_asks json es)
                nothing_stored).0)
            c
  unfolding serving program_asks
  serving-perform_all json es i c it all fits found =
      let routes = table json tasks_manager in
      let asks = history enumerators iterate prepare_payload routes es (launched main_state) in
      let here = rw (make_router_lem json tasks_manager) at found in
      let (state, explained) =
        sessions-in_sequence enumerators iterate prepare_payload routes es main_state i c here in
      let (replies, last) =
        in_sequence-refines json enumerators iterate prepare_payload it all asks empty
          nothing_stored empty-IsValid view-empty
          (omega (arith, length-history routes es (launched main_state))) in
      rw (make_router_lem json tasks_manager) (ap view state ∙ last, rw (← replies) explained)

-- ===== src/Server/Listening/Sequence.antt =====
-- The requests of all sessions in the order in which the server has answered them.
pub mod Turn
pub mod Stands
pub mod Sessions
use just_queue_it.Base.{
  ℕ, zero, suc, ◌+◌, ◌≤◌, Bytes, Bool, true, false, ◌≡◌, ◌≢◌, refl, sym, ap, ◌∙◌, Option, none,
  some, List, [], ◌∷◌, ◌++◌, append_assoc, append-nil, length, get_elem?, if◌then◌else◌, ◌==◌,
  arith,
}
use just_queue_it.Base.Exec.{Outcome, returned, thrown}
use just_queue_it.Core.Content.{ContentType}
use just_queue_it.Router.{RouteInfo, Routes}
use just_queue_it.Server.{HttpRequest, HttpResponse}
use just_queue_it.Server.Session.{Failure, Received, request, failed_read, Round, answer}
use just_queue_it.Server.Listening.{
  Phase, waiting, writing, over, Connection, Serving, Event, accept, accept_failure, resume, stop,
  after_answer, turn, handle, serve_events,
}

-- A request, and the session that has brought it.
pub record Asked : Type 0 where
  pub session : ℕ
  pub req : HttpRequest

-- A response, and the session that it is for.
pub record Replied : Type 0 where
  pub session : ℕ
  pub res : HttpResponse

abbrev request_of : Received → Option HttpRequest
request_of (request req) = some req
request_of (failed_read e) = none

-- The request that the next turn of a session answers.
abbrev pub to_answer : Phase → List Round → Option HttpRequest
to_answer waiting [] = none
to_answer waiting (round ∷ rounds) = request_of round.read
to_answer (writing res write_error shutdown_error) rounds = none
to_answer (over e) rounds = none

abbrev pub asked_by : ℕ → Option HttpRequest → List Asked
asked_by i none = []
asked_by i (some req) = record { session = i; req = req } ∷ []

abbrev pub asked_at : ℕ → Option Connection → List Asked
asked_at i none = []
asked_at i (some c) = asked_by i (to_answer c.phase c.rounds)

abbrev pub asked_running : {S : Type 0} → Event → Serving S → List Asked
asked_running (resume i) v = asked_at i (get_elem? v.connections i)
asked_running (accept rounds) v = []
asked_running (accept_failure e) v = []
asked_running stop v = []

-- The request that an event answers, if it is a turn in which one is.
abbrev pub asked_event : {S : Type 0} → Event → Serving S → List Asked
asked_event e v = if v.stopped then [] else asked_running e v

abbrev pub one_reply : Asked → Outcome HttpResponse → List Replied
one_reply a (thrown what) = []
one_reply a (returned res) =
    record { session = a.session; res = record res { keep_alive = a.req.keep_alive } } ∷ []

-- The responses for one session.
abbrev pub for_session : ℕ → List Replied → List HttpResponse
for_session i [] = []
for_session i (r ∷ rs) = if r.session == i then r.res ∷ for_session i rs else for_session i rs

-- What is left to send: nothing of a session that waits, the response that a session is writing, and
-- at most one response of a session that is over.
abbrev pub Owes : Phase → List HttpResponse → Type 0
Owes waiting rest = rest ≡ []
Owes (writing res write_error shutdown_error) rest = rest ≡ res ∷ []
Owes (over e) rest = length rest ≤ 1

-- The responses are those that the session has sent, and what it has left to send.
abbrev pub Explained : List HttpResponse → Connection → Type 0
Explained past c = (rest : List HttpResponse) × (past ≡ c.sent ++ rest) × Owes c.phase rest

module _ {S : Type 0} (enumerators : List (Bytes × ContentType))
    (iterate : Routes S → List (Bytes × RouteInfo S))
    (prepare_payload : HttpResponse → Outcome HttpResponse) (router : Routes S) where
  -- All the requests that events answer, in the order of the answers.
  unfoldable pub history : List Event → Serving S → List Asked
  history [] v = []
  history (e ∷ es) v =
      asked_event e v ++ history es (handle enumerators iterate prepare_payload router e v)

  -- One request answered after another, with nothing between them.
  unfoldable pub in_sequence : List Asked → S → List Replied × S
  in_sequence [] s = ([], s)
  in_sequence (a ∷ asks) s =
      let (outcome, t) = answer enumerators iterate prepare_payload router a.req s in
      let (replies, u) = in_sequence asks t in (one_reply a outcome ++ replies, u)

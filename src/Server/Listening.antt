-- ===== src/Server/Listening.antt =====
-- The loop of `DoListen` and the sessions that it spawns, in
-- src/libraries/rest/server/rest_server.cpp: coroutines that share one state and take turns. A
-- coroutine is left where it waits for the network, so a turn of a session is one read with the
-- answer to it, or one write with what follows it. The turns of an answer are whole, since a request
-- makes at most one call of the storage.
pub mod Turns
pub mod Alone
pub mod Others
pub mod State
pub mod Sequence
pub mod Closing
mod Tests
use just_queue_it.Base.{
  ℕ, zero, suc, Bytes, Bool, true, false, Option, none, some, List, [], ◌∷◌, ◌++◌, if◌then◌else◌,
}
use just_queue_it.Base.Exec.{Outcome, returned, thrown}
use just_queue_it.Core.Content.{ContentType}
use just_queue_it.Router.{RouteInfo, Routes}
use just_queue_it.Server.{HttpRequest, HttpResponse}
use just_queue_it.Server.Session.{
  Failure, exception, log_error, Received, request, failed_read, Round, answer,
}

-- Where a session waits. A session that is over has a null pointer or an exception for `LogError`.
pub data Phase : Type 0 where
  waiting : Phase
  writing : HttpResponse → Option Failure → Option Failure → Phase
  over : Option Failure → Phase

-- A session: what the network has in store for it, and what it has sent.
pub record Connection : Type 0 where
  pub rounds : List Round
  pub phase : Phase
  pub sent : List HttpResponse

-- `listening` is false once `DoListen` has ended with an exception.
pub record Serving (S : Type 0) : Type 0 where
  pub connections : List Connection
  pub logged : Bytes
  pub listening : Bool
  pub stopped : Bool
  pub state : S

-- What the threads of the `io_context` take up next: an accepted connection, a failed accept, a
-- session, or a call of `Stop`.
pub data Event : Type 0 where
  accept : List Round → Event
  accept_failure : Failure → Event
  resume : ℕ → Event
  stop : Event

-- `if (keep_alive) continue;`, else the shutdown.
abbrev after_write : HttpResponse → Option Failure → Phase
after_write res shutdown_error = if res.keep_alive then waiting else over shutdown_error

abbrev sending : HttpResponse → Option Failure → Option Failure → Connection → Connection
sending res (some e) shutdown_error c = record c { phase = over (some e) }
sending res none shutdown_error c = record c {
  phase = after_write res shutdown_error;
  sent = c.sent ++ res ∷ [];
}

abbrev pub after_answer : Bool → Option Failure → Option Failure → Outcome HttpResponse → Phase
after_answer keep_alive write_error shutdown_error (thrown what) = over (some (exception what))
after_answer keep_alive write_error shutdown_error (returned res) =
    writing (record res { keep_alive = keep_alive }) write_error shutdown_error

-- `LogError` is called when a session ends.
abbrev logs : Phase → Phase → Bytes
logs (over e) after = []
logs waiting (over e) = log_error e
logs (writing res write_error shutdown_error) (over e) = log_error e
logs waiting after = []
logs (writing res write_error shutdown_error) after = []

abbrev pub connected : List Round → Connection
connected rounds = record { rounds = rounds; phase = waiting; sent = [] }

module _ {S : Type 0} where
  -- The server behind `started.store(true)`.
  abbrev pub launched : S → Serving S
  launched s = record {
    connections = [];
    logged = [];
    listening = true;
    stopped = false;
    state = s;
  }

  abbrev accepted : List Round → Serving S → Serving S
  accepted rounds v =
      if v.listening then record v { connections = v.connections ++ connected rounds ∷ [] } else v

  abbrev ended : Failure → Serving S → Serving S
  ended e v =
      if v.listening
      then record v { listening = false; logged = v.logged ++ log_error (some e) }
      else v

module _ {S : Type 0} (enumerators : List (Bytes × ContentType))
    (iterate : Routes S → List (Bytes × RouteInfo S))
    (prepare_payload : HttpResponse → Outcome HttpResponse) (router : Routes S) where
  pub received : Received → Option Failure → Option Failure → S → Phase × S
  unfolding answer
  received (failed_read e) write_error shutdown_error s = (over (some e), s)
  received (request req) write_error shutdown_error s =
      let (outcome, t) = answer enumerators iterate prepare_payload router req s in
      (after_answer req.keep_alive write_error shutdown_error outcome, t)

  advance : Phase → List Round → Connection → S → Connection × S
  unfolding received
  advance waiting [] c s = (c, s)
  advance waiting (round ∷ rest) c s =
      let (phase, t) = received round.read round.write_error round.shutdown_error s in
      (record c { rounds = rest; phase = phase }, t)
  advance (writing res write_error shutdown_error) rounds c s =
      (sending res write_error shutdown_error c, s)
  advance (over e) rounds c s = (c, s)

  -- One turn of a session.
  unfoldable pub turn : Connection → S → Connection × S
  unfolding advance
  turn c s = advance c.phase c.rounds c s

  -- A turn of the session at a position, with what it logs.
  pub resume_at : ℕ → List Connection → S → List Connection × Bytes × S
  unfolding turn
  resume_at i [] s = ([], [], s)
  resume_at zero (c ∷ cs) s = let (c', t) = turn c s in (c' ∷ cs, logs c.phase c'.phase, t)
  resume_at (suc i) (c ∷ cs) s = let (cs', text, t) = resume_at i cs s in (c ∷ cs', text, t)

  resumed : List Connection × Bytes × S → Serving S → Serving S
  resumed (cs, text, t) v = record v { connections = cs; logged = v.logged ++ text; state = t }

  pub handle_event : Event → Serving S → Serving S
  unfolding resume_at resumed
  handle_event (accept rounds) v = accepted rounds v
  handle_event (accept_failure e) v = ended e v
  handle_event (resume i) v = resumed (resume_at i v.connections v.state) v
  handle_event stop v = record v { stopped = true }

  -- A stopped context takes nothing up.
  pub handle : Event → Serving S → Serving S
  unfolding handle_event
  handle e v = if v.stopped then v else handle_event e v

  unfoldable pub serve_events : List Event → Serving S → Serving S
  unfolding handle
  serve_events [] v = v
  serve_events (e ∷ es) v = serve_events es (handle e v)

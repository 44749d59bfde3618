-- ===== src/Server/Listening/Tests.antt =====
-- Two clients of a server with no routes, whose sessions take turns.
use just_queue_it.Base.{
  codes, Bool, true, false, ◌≡◌, refl, none, some, List, [], ◌∷◌, ◌++◌, get_elem?, arith,
}
use just_queue_it.Base.Exec.{Outcome, returned}
use just_queue_it.Core.Codes.{status_code}
use just_queue_it.Core.Content.{content_type_name, parse_content_type}
use just_queue_it.Router.{Routes, route}
use just_queue_it.Server.{
  HttpRequest, HttpResponse, Verb, parse_method, create_response, prepare_response,
}
use just_queue_it.Server.Session.{
  end_of_stream, system_error, log_error, Round, failed_read, answer, do_session,
}
use just_queue_it.Server.Session.Traces.{good}
use just_queue_it.Server.Listening.{
  writing, over, Connection, Serving, Event, accept, accept_failure, resume, stop, connected,
  launched, turn, serve_events,
}
use just_queue_it.Server.Listening.Alone.{ending_of, resumes, serve_events-do_session}
use just_queue_it.Server.Listening.Others.{Later, serve_events-Later}
use just_queue_it.Server.Listening.Sequence.{history, in_sequence, for_session, Explained}
use just_queue_it.Server.Listening.Sequence.Sessions.{sessions-in_sequence}
use just_queue_it.Server.Session.Traces.{none_left, one_more}
use just_queue_it.Server.Listening.Closing.{serve_events-closed}
use just_queue_it.Fixtures.{enumerators, as_is}

abbrev ask : Bool → HttpRequest
ask keep_alive = record {
  method = Verb.get;
  target = codes "/a";
  content_type = codes "text/plain";
  accept = codes "text/plain";
  body = [];
  keep_alive = keep_alive;
}

abbrev as_prepared : HttpResponse → Outcome HttpResponse
as_prepared r = returned r

abbrev no_routes : Routes Unit
no_routes = []

abbrev not_found_response : Bool → HttpResponse
not_found_response keep_alive = record {
  result = 404;
  server = codes "JustQueueIt";
  content_type = codes "text/plain";
  body = [];
  keep_alive = keep_alive;
}

abbrev hung_up : Round
hung_up = record { read = failed_read end_of_stream; write_error = none; shutdown_error = none }

abbrev two_requests : List Round
two_requests = good (ask true) ∷ good (ask false) ∷ []

abbrev after : List Event → Serving Unit
unfolding serve_events turn do_session answer create_response prepare_response route status_code
    content_type_name parse_content_type parse_method
after es = serve_events enumerators as_is as_prepared no_routes es (launched tt)

interleaved :
    after (
      accept two_requests
      ∷ resume 0
      ∷ accept (hung_up ∷ [])
      ∷ resume 1
      ∷ resume 0
      ∷ accept_failure (system_error (codes "accept"))
      ∷ accept []
      ∷ resume 0
      ∷ resume 7
      ∷ resume 0
      ∷ stop
      ∷ resume 0
      ∷ [])
    ≡ record {
      connections =
          record {
            rounds = [];
            phase = over none;
            sent = not_found_response true ∷ not_found_response false ∷ [];
          }
          ∷ record { rounds = []; phase = over (some end_of_stream); sent = [] }
          ∷ [];
      logged = codes "Error in session: accept\n";
      listening = false;
      stopped = true;
      state = tt;
    }
unfolding after log_error
interleaved = refl

abbrev two_clients : Serving Unit
two_clients = record (launched tt) {
  connections = connected two_requests ∷ connected (hung_up ∷ []) ∷ [];
}

first_alone :
    (c : Connection) × (get_elem?
        (serve_events enumerators as_is as_prepared no_routes
          (resumes 0 two_requests)
          two_clients).connections
        0
      ≡ some c)
    × (ending_of c.phase
        ≡ (do_session enumerators as_is as_prepared no_routes two_requests tt).ending)
    × (c.sent ≡ [] ++ (do_session enumerators as_is as_prepared no_routes two_requests tt).sent)
    × ((serve_events enumerators as_is as_prepared no_routes
          (resumes 0 two_requests)
          two_clients).state
        ≡ (do_session enumerators as_is as_prepared no_routes two_requests tt).state)
    × (get_elem?
          (serve_events enumerators as_is as_prepared no_routes
            (resumes 0 two_requests)
            two_clients).connections
          1
        ≡ some (connected (hung_up ∷ [])))
first_alone =
    serve_events-do_session enumerators as_is as_prepared no_routes 0 two_clients two_requests [] 1
      refl refl (omega arith)

second_goes_on :
    (c : Connection) × (get_elem?
        (serve_events enumerators as_is as_prepared no_routes
          (resume 1 ∷ resume 0 ∷ stop ∷ [])
          two_clients).connections
        1
      ≡ some c)
    × Later (connected (hung_up ∷ [])) c
second_goes_on =
    serve_events-Later enumerators as_is as_prepared no_routes (resume 1 ∷ resume 0 ∷ stop ∷ []) 1
      (connected (hung_up ∷ [])) two_clients refl

-- The first client waits to write its second response when the second has hung up.
abbrev in_turns : List Event
in_turns =
    accept two_requests ∷ resume 0 ∷ accept (hung_up ∷ []) ∷ resume 1 ∷ resume 0 ∷ resume 0 ∷ []

abbrev first_client : Connection
first_client = record {
  rounds = [];
  phase = writing (not_found_response false) none none;
  sent = not_found_response true ∷ [];
}

first_in_turns :
    get_elem?
      (serve_events enumerators as_is as_prepared no_routes in_turns (launched tt)).connections
      0
    ≡ some first_client
unfolding after
first_in_turns = refl

both_asked :
    history enumerators as_is as_prepared no_routes in_turns (launched tt)
    ≡ record { session = 0; req = ask true } ∷ record { session = 0; req = ask false } ∷ []
unfolding after history
both_asked = refl

sessions-in_sequence_example :
    ((serve_events enumerators as_is as_prepared no_routes in_turns (launched tt)).state
      ≡ (in_sequence enumerators as_is as_prepared no_routes
          (history enumerators as_is as_prepared no_routes in_turns (launched tt))
          tt).1)
    × Explained
        (for_session 0
          (in_sequence enumerators as_is as_prepared no_routes
            (history enumerators as_is as_prepared no_routes in_turns (launched tt))
            tt).0)
        first_client
sessions-in_sequence_example =
    sessions-in_sequence enumerators as_is as_prepared no_routes in_turns tt 0 first_client
      first_in_turns

first_answered :
    answer enumerators as_is as_prepared no_routes (ask true) tt
    ≡ (returned (not_found_response true), tt)
unfolding after
first_answered = refl

last_answered :
    answer enumerators as_is as_prepared no_routes (ask false) tt
    ≡ (returned (not_found_response true), tt)
unfolding after
last_answered = refl

-- Afterwards the second client hangs up, and the first session has more turns.
abbrev afterwards : List Event
afterwards = resume 1 ∷ resume 0 ∷ stop ∷ []

serve_events-closed_example :
    ((serve_events enumerators as_is as_prepared no_routes
        (resumes 0 two_requests)
        two_clients).state
      ≡ tt)
    × ((c : Connection) × (get_elem?
            (serve_events enumerators as_is as_prepared no_routes afterwards (
              serve_events enumerators as_is as_prepared no_routes
                (resumes 0 two_requests)
                two_clients)).connections
            0
          ≡ some c)
        × (c.phase ≡ over none)
        × (c.sent ≡ not_found_response true ∷ not_found_response false ∷ []))
serve_events-closed_example =
    serve_events-closed enumerators as_is as_prepared no_routes two_clients 0 (ask true ∷ [])
      (ask false) [] [] (not_found_response true ∷ []) (not_found_response true) tt tt afterwards
      refl refl (refl, tt) (one_more first_answered none_left) last_answered refl

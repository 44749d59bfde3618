-- ===== src/Server/Session.antt =====
-- `DoSession` and `LogError` of src/libraries/rest/server/rest_server.cpp. What the network does is
-- a list of rounds: what each `async_read` delivers, and whether the write and the shutdown fail.
pub mod Traces
use just_queue_it.Base.{
  Bytes, codes, Bool, true, false, Option, none, some, List, [], ◌∷◌, ◌++◌, if◌then◌else◌,
}
use just_queue_it.Base.Exec.{Exec, Outcome, returned, thrown, and_then}
use just_queue_it.Core.{Response}
use just_queue_it.Core.Content.{ContentType}
use just_queue_it.Router.{RouteInfo, Routes}
use just_queue_it.Server.{HttpRequest, HttpResponse, create_response, prepare_response}

-- An exception that ends a session: a `system_error` with the code `end_of_stream`, one with
-- another code, or another `std::exception`.
pub data Failure : Type 0 where
  end_of_stream : Failure
  system_error exception : Bytes → Failure

-- `LogError`: what is written to the standard error stream.
unfoldable pub log_error : Option Failure → Bytes
log_error none = []
log_error (some end_of_stream) = []
log_error (some (system_error what)) = codes "Error in session: " ++ what ++ codes "\n"
log_error (some (exception what)) = codes "Error in session: " ++ what ++ codes "\n"

pub data Received : Type 0 where
  request : HttpRequest → Received
  failed_read : Failure → Received

pub record Round : Type 0 where
  pub read : Received
  pub write_error : Option Failure
  pub shutdown_error : Option Failure

-- `reading` is a session that waits for its next request.
pub data Ending : Type 0 where
  reading closed : Ending
  failed : Failure → Ending

-- How a session ends, what it has sent, and the state after it.
pub record Trace (S : Type 0) : Type 0 where
  pub ending : Ending
  pub sent : List HttpResponse
  pub state : S

module _ {S : Type 0} where
  abbrev pub then_sent : HttpResponse → Trace S → Trace S
  then_sent res t = record t { sent = res ∷ t.sent }

  -- `stream.socket().shutdown(…)` and `break`
  abbrev shut_down : Option Failure → S → Trace S
  shut_down none s = record { ending = closed; sent = []; state = s }
  shut_down (some e) s = record { ending = failed e; sent = []; state = s }

  -- The round from `async_write` on; `continue` is the next round.
  abbrev pub written : Option Failure → Option Failure → HttpResponse → (S → Trace S) → S → Trace S
  written (some e) shutdown_error res continue s = record {
    ending = failed e;
    sent = [];
    state = s;
  }
  written none shutdown_error res continue s =
      then_sent res (if res.keep_alive then continue s else shut_down shutdown_error s)

  abbrev pub answered :
      Bool → Option Failure → Option Failure → (S → Trace S) → Outcome HttpResponse × S → Trace S
  answered keep_alive write_error shutdown_error continue (thrown what, s) = record {
    ending = failed (exception what);
    sent = [];
    state = s;
  }
  answered keep_alive write_error shutdown_error continue (returned res, s) =
      written write_error shutdown_error (record res { keep_alive = keep_alive }) continue s

module _ {S : Type 0} (enumerators : List (Bytes × ContentType))
    (iterate : Routes S → List (Bytes × RouteInfo S))
    (prepare_payload : HttpResponse → Outcome HttpResponse) (router : Routes S) where
  -- `CreateResponse(PrepareResponse(req, ctx->router))`
  unfoldable pub answer : HttpRequest → Exec S HttpResponse
  unfolding create_response prepare_response
  answer req s =
      and_then (λ r t. (create_response prepare_payload r, t))
        (prepare_response enumerators iterate router req s)

  unfoldable pub step : Received → Option Failure → Option Failure → (S → Trace S) → S → Trace S
  unfolding answer
  step (failed_read e) write_error shutdown_error continue s = record {
    ending = failed e;
    sent = [];
    state = s;
  }
  step (request req) write_error shutdown_error continue s =
      answered req.keep_alive write_error shutdown_error continue (answer req s)

  unfoldable pub do_session : List Round → S → Trace S
  unfolding step
  do_session [] s = record { ending = reading; sent = []; state = s }
  do_session (round ∷ rounds) s =
      step round.read round.write_error round.shutdown_error (do_session rounds) s

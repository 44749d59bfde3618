-- ===== src/App.antt =====
-- The program of src/apps/backend/backend_app.cpp: the service over an empty in-memory storage,
-- behind the HTTP server.
pub mod Missing
pub mod Serving
pub mod Created
pub mod Spec
pub mod Refines
pub mod Program
mod Tests
use just_queue_it.Base.{ℕ, Bytes, codes, List, []}
use just_queue_it.Base.Exec.{Outcome}
use just_queue_it.Core.Content.{ContentType}
use just_queue_it.Router.{RouteInfo, Routes, Added, added, invalid_argument, regex_error, outside}
use just_queue_it.Server.{HttpResponse}
use just_queue_it.Server.Session.{exception, Round, failed, Trace, do_session}
use just_queue_it.Server.Lifetime.{ServerConfig}
use just_queue_it.Storage.{InMemoryStorage, empty}
use just_queue_it.Backend.{Json, make_router}
use just_queue_it.Backend.Journey.{tasks_manager}

-- `rest::ServerConfig{.port = 8080}` with the defaults of the other members.
abbrev main_config : ServerConfig
main_config = record { address = codes "127.0.0.1"; port = 8080; threads = 1 }

-- The state when `main` has made the storage.
abbrev pub main_state : InMemoryStorage
main_state = empty

module _ (enumerators : List (Bytes × ContentType))
    (iterate : Routes InMemoryStorage → List (Bytes × RouteInfo InMemoryStorage))
    (prepare_payload : HttpResponse → Outcome HttpResponse) where
  -- A connection to the server with a router, if it has been filled; else `main` ends with the
  -- exception, and nothing is sent.
  abbrev pub served_by :
      Added InMemoryStorage → List Round → InMemoryStorage → Trace InMemoryStorage
  served_by (added routes) rounds s = do_session enumerators iterate prepare_payload routes rounds s
  served_by (invalid_argument what) rounds s = record {
    ending = failed (exception what);
    sent = [];
    state = s;
  }
  served_by regex_error rounds s = record { ending = failed (exception []); sent = []; state = s }
  served_by outside rounds s = record { ending = failed (exception []); sent = []; state = s }

  -- One connection to the program.
  pub connection : Json → List Round → InMemoryStorage → Trace InMemoryStorage
  connection json rounds s = served_by (make_router json tasks_manager) rounds s

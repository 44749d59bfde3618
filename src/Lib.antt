-- ===== src/Lib.antt =====
-- JustQueueIt, a service that keeps tasks: create, list, read and delete them over HTTP with JSON.
--
-- The parts, and how they interact. A connection (src/libraries/rest/server/rest_server.cpp) reads
-- requests of Boost.Beast one after another. Each becomes a `rest::Request`, which the router
-- (src/libraries/rest/router) gives to a handler by its path and method. The typed handlers of
-- `Router::AddRoute` read the body as JSON, call the callback of a route, and write its result as
-- JSON. The callbacks of the service (src/libraries/backend/server/server.cpp) call a `TasksManager`
-- (src/libraries/backend/tasks_manager), which forwards to a `DataStorage`
-- (src/libraries/backend/data_storage). `main` (src/apps/backend/backend_app.cpp) puts these together.
--
-- State. The state of the whole program is that of the storage: the vector `m_tasks` and the counter
-- `m_id`. Code that reads and writes it and may throw is a function `Exec S A` from a state to an
-- outcome, a value or the text of an exception, and a new state (Base/Exec). The router, the typed
-- handlers and the server are for every type of state `S`; App sets it to `InMemoryStorage`.
--
-- The files:
--   Base        shared types and lemmas: lists, bytes, equality, maps, the exceptions
--   Task        `Task`, `TaskPayload`: src/libraries/backend/interface/task/task.hpp
--   Storage     `DataStorage`, `InMemoryStorage` and its search `lower_bound`:
--               src/libraries/backend/data_storage. LowerBound is about the search, Validity about
--               what every method keeps, Lookup about what a method returns after another, Rounds
--               about how long the search takes, Spec is the abstract storage, Refinement and
--               Identity are about sequences of calls. Threads is the lock with threads that call
--               the methods at the same time, one access of the members in each step
--   TasksManager  `TasksManager`: src/libraries/backend/tasks_manager
--   Core        `Request`, `Response`, the statuses and content types: src/libraries/rest/core. Wrapped
--               is `NotDefaultConstructible`
--   Pattern     the regular expressions of `Router::AddRouteImpl`, `std::regex` and
--               `std::regex_match`: src/libraries/rest/router/rest_router.cpp. Params is about the
--               two passes over `{:name}`, Token about paths as lists of characters and parameters,
--               Compile, Match and Malformed about the expression of such a path, Language about what
--               any expression means
--   Query       `ParseParams`: src/libraries/rest/router/rest_router.cpp
--   Router      `Router::AddRouteImpl`, `Router::Route`: src/libraries/rest/router. Spec says what they
--               do in terms of the calls of `AddRoute` alone; Order is about the order of the table, Rejects
--               about calls that throw
--   Endpoint    `Serialize`, `DeSerialize`, `Router::AddRoute`: src/libraries/rest/router. Traits is
--               the choice that the compiler makes in `AddRoute` by the type of the handler, with
--               src/libraries/utils
--   Backend     `backend::StartServer`: src/libraries/backend/server/server.cpp. Number is
--               `std::stoull`, Table the table of routes, Service the answers to one request,
--               Journey to two, Effects what requests may do to the storage. Spec describes the service
--               with no router and no wrapper, Handled and Meets are about this description, Order
--               about the order of the table
--   Server      `ParseMethod`, `PrepareResponse`, `CreateResponse`: rest_server.cpp in
--               src/libraries/rest/server; Session is `DoSession` and `LogError`, Lifetime is
--               `StartServer`, `DoListen` and `StopHandler`, Listening the loop of `DoListen` with
--               the sessions that it spawns, which take turns. Listening/Sequence is about the order of the
--               answers, Listening/Closing about how a session ends, Lifetime/Destroy about the destructors, Lifetime/Owners about copies of a handler
--   App         `main`: src/apps/backend/backend_app.cpp. Missing and Created are about one
--               connection, Serving about the running program with any number of them. Spec describes
--               what the program answers over any storage, Refines and Program are about this
--               description
--   Suite       the unit tests and the mock (the folders ut, and data_storage_mock.hpp), each case a
--               function to `Bool`
--   Fixtures    concrete functions in the places of the parameters, for the tests
-- The functions of the source keep their names in snake_case: `Router::Route` is `route`,
-- `InMemoryStorage::CreateTask` is `Storage.create_task`.
--
-- Bounds and fuel. A byte is a natural number and a string a list of them. `m_id` wraps around at
-- 2 ^ 64, so the theorems on ids ask that they fit. `lower_bound` recurses on fuel, the length of
-- the vector, and so does the loop of `ParseParams`, one round more than the length of the query;
-- Storage/Rounds and Query/Split are about whether that is enough. The instantiations of
-- `AddRoute` are counted on fuel too. All other recursion is structural.
--
-- Parameters. Code outside the repository is a parameter with named hypotheses: the JSON functions
-- of reflect-cpp (`Json`) and its list of the enumerators of `ContentType` (`ListsAll`), the order
-- in which a `std::unordered_map` is iterated (`IsIteration`), `prepare_payload` of Boost.Beast
-- (`RefusesBody`, `KeepsOk`), `stopped` of the `io_context` (`StopsWithoutWork`), what the network
-- delivers and the `io_context` takes up (`Round`, `Setup`, `Event`), and `make_address` of
-- Boost.Asio; and of the compiler, where a `ConvertibleToAny` converts to (`ConvertsToAny`).
--
-- Concurrency. It is modelled at two levels. In Storage/Threads a step is one access of a member
-- under the lock, and the calls of the threads interleave in any way. In Server/Listening the
-- answer to a request, which makes at most one call of the storage, is one step, and the sessions
-- of the connections interleave where they wait for the network.
--
-- Not modelled: the memory model of C++ below the lock, and spurious failures to take it; of
-- regular expressions, all but characters, `.`, classes in brackets, `\d`, `\w`, escaped
-- punctuation, one of `*`, `+` and `?` on each, the group of a parameter, and the errors of
-- unmatched brackets and parentheses and of ranges that run backwards: for any other construct,
-- such as an alternative or a group that is no parameter, `compile` says `unmodelled`; exceptions
-- that are no `std::exception`, which neither `Router::Route` nor `LogError` catches, and those of
-- `std::regex_match`; the deleted default constructor of `NotDefaultConstructible`; `ENSURE_MSG`
-- behind a `switch` over all enumerators, which is not reached; the build files.
pub mod Base
pub mod Task
pub mod Storage
pub mod TasksManager
pub mod Core
pub mod Pattern
pub mod Query
pub mod Router
pub mod Endpoint
pub mod Backend
pub mod Server
pub mod App
pub mod Suite
mod Fixtures

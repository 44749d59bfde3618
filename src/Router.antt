-- ===== src/Router.antt =====
-- `rest::Router` of src/libraries/rest/router/rest_router.hpp and rest_router.cpp: the table of
-- routes, `AddRouteImpl` and `Route`. A handler is a callback that reads and writes the program's
-- state `S` and may throw. The order in which a `std::unordered_map` is iterated is a parameter.
pub mod Binding
pub mod Table
pub mod Choice
pub mod Total
pub mod Lookup
pub mod Keeps
pub mod Spec
pub mod Order
pub mod Rejects
mod Tests
use just_queue_it.Base.{
  ℕ, Bytes, codes, Bool, true, false, not, ◌||◌, Option, none, some, List, [], ◌∷◌, ◌++◌, ◌==◌,
  if◌then◌else◌, length,
}
use just_queue_it.Base.Equality.{bytes_equality}
use just_queue_it.Base.Exec.{Exec, Outcome, returned, thrown, pure, try_catch}
use just_queue_it.Base.Map.{Map, lookup, insert}
use just_queue_it.Core.{Method, method_equality, Request, Response}
use just_queue_it.Core.Codes.{Status, internal_server_error, method_not_allowed, not_found}
use just_queue_it.Core.Content.{text_plain}
use just_queue_it.Pattern.{Piece, Regex, compiled, malformed, unmodelled, compile, match_pieces}
use just_queue_it.Pattern.Params.{full_regex, parameter_names}
use just_queue_it.Query.{Params, parse_params}

-- `HandlerWithParams`
abbrev pub Handler : Type 0 → Type 0
Handler S = Request → Params → Exec S Response

-- `pattern` is a compiled regular expression.
pub record RouteInfo (S : Type 0) : Type 0 where
  pub pattern : List Piece
  pub parameter_names : List Bytes
  pub handlers : Map Method (Handler S)

-- `m_routes`
abbrev pub Routes : Type 0 → Type 0
Routes S = Map Bytes (RouteInfo S)

-- What a call of `AddRoute` comes to. `outside` stands for a path whose regular expression is not modelled.
pub data Added (S : Type 0) : Type 0 where
  added : Routes S → Added S
  invalid_argument : Bytes → Added S
  regex_error outside : Added S

-- `path.empty() || path[0] != '/'`
abbrev pub bad_path : Bytes → Bool
bad_path [] = true
bad_path (c ∷ s) = not (c == b'/')

abbrev pub respond : Status → Bytes → Response
respond status body = record { status_code = status; body = body; content_type = text_plain }

-- `params[route.parameter_names[i]] = match[i + 1]` for each index of the names.
unfoldable pub bind_params : List Bytes → List Bytes → Params → Params
bind_params [] texts params = params
bind_params (name ∷ names) [] params = params
bind_params (name ∷ names) (text ∷ texts) params = bind_params names texts (insert name text params)

module _ {S : Type 0} where
  -- The handlers that the entry of the path has already; `try_emplace` makes an entry with none.
  abbrev pub handlers_of : Option (RouteInfo S) → Map Method (Handler S)
  handlers_of none = []
  handlers_of (some info) = info.handlers

  pub emplace : Bytes → Method → Handler S → Routes S → Regex → Added S
  emplace path method handler routes malformed = regex_error
  emplace path method handler routes unmodelled = outside
  emplace path method handler routes (compiled pattern) =
      let handlers = handlers_of (lookup path routes) in
      added (
        insert path
          (record {
            pattern = pattern;
            parameter_names = parameter_names 0 path;
            handlers = insert method handler handlers;
          })
          routes)

  -- A null handler is `none`. A call that throws leaves the table as it was.
  unfoldable pub add_route_impl : Bytes → Method → Option (Handler S) → Routes S → Added S
  unfolding emplace
  add_route_impl path method none routes =
      if bad_path path
      then invalid_argument (codes "Path must start with '/'")
      else invalid_argument (codes "Handler cannot be null")
  add_route_impl path method (some handler) routes =
      if bad_path path
      then invalid_argument (codes "Path must start with '/'")
      else emplace path method handler routes (compile (full_regex path))

  -- `handler_it->second(req, params)`, or the answer where there is no handler for the method.
  unfoldable pub call_handler : Request → Params → Option (Handler S) → Exec S Response
  call_handler req params none = pure (respond method_not_allowed [])
  call_handler req params (some handler) =
      try_catch (handler req params) (λ what. pure (respond internal_server_error what))

  -- The rest of a round of the loop once the pattern has matched.
  pub serve_match : Request → Params → RouteInfo S → List Bytes → Exec S Response
  unfolding call_handler bind_params
  serve_match req params route texts =
      if not (length texts == length route.parameter_names)
      then pure (respond internal_server_error (codes "Internal server error"))
      else call_handler req (bind_params route.parameter_names texts params)
          (lookup req.method route.handlers)

  -- The loop over the table, in the order of the list.
  pub route_loop : Request → Bytes → Params → List (Bytes × RouteInfo S) → Exec S Response
  unfolding serve_match match_pieces
  route_loop req url params [] = pure (respond not_found [])
  route_loop req url params ((_, route) ∷ rest) = elim (match_pieces route.pattern url) [
    | none ↦ route_loop req url params rest
    | some texts ↦ serve_match req params route texts
  ]

  -- `iterate` lists the entries of the table in the order in which the container has them.
  unfoldable pub route :
      (Routes S → List (Bytes × RouteInfo S)) → Routes S → Request → Exec S Response
  unfolding route_loop parse_params
  route iterate routes req =
      let (params, url) = parse_params req.path in route_loop req url params (iterate routes)

-- ===== src/Router/Tests.antt =====
-- Requests to a small table, and the theorems of the router at it
-- (src/libraries/rest/router/ut/rest_router_ut.cpp).
use mathlib.Core.List.{Memᴰ}
use just_queue_it.Base.{
  All, Bytes, codes, bytes_eq, map, ◌++◌, ◌⊎◌, inl, inr, Bool-cases, arith, ◌≡◌, refl, Option, some,
  none, [], ◌∷◌, List, String,
}
use just_queue_it.Base.Equality.{bytes_equality}
use just_queue_it.Base.Exec.{Outcome, returned, pure, throw}
use just_queue_it.Base.Map.{lookup, insert}
use just_queue_it.Core.{Method, get, post, Request, Response, request_default}
use just_queue_it.Core.Codes.{ok, internal_server_error, method_not_allowed, not_found}
use just_queue_it.Core.Content.{text_plain}
use just_queue_it.Pattern.{compile, match_pieces}
use just_queue_it.Pattern.Token.{Token, lit, param, render, names, pieces, IsPlain}
use just_queue_it.Pattern.Params.{full_regex, parameter_names}
use just_queue_it.Query.{parse_params}
use just_queue_it.Router.{
  Handler, RouteInfo, Routes, Added, added, invalid_argument, regex_error, outside, respond,
  bind_params, call_handler, add_route_impl, route,
}
use just_queue_it.Router.Binding.{lookup-bind_params}
use just_queue_it.Router.Choice.{IsIteration}
use just_queue_it.Router.Spec.{
  AddCall, Built, nothing, one_more, Fits, registered, route-registered,
}
use just_queue_it.Router.Rejects.{add_route_impl-malformed}
use just_queue_it.Router.Total.{route_total}
use just_queue_it.Router.Table.{
  IsTable, empty-IsTable, new_info, handler_at, add_route_impl-IsTable, handler_at-add_route_impl,
}
use just_queue_it.Router.Lookup.{IsOnly, route-add_route_impl}

abbrev value_of_id : Option Bytes → Bytes
value_of_id none = codes "?"
value_of_id (some v) = v

-- Answers with the parameter `id`.
abbrev show_id : Handler Unit
show_id req params = pure (respond ok (value_of_id (lookup (codes "id") params)))

abbrev failing : Handler Unit
failing req params = throw (codes "test")

abbrev routes_of : {S : Type 0} → Added S → Routes S
routes_of (added routes) = routes
routes_of (invalid_argument what) = []
routes_of regex_error = []
routes_of outside = []

abbrev table : Routes Unit
unfolding add_route_impl
table = routes_of (
    add_route_impl (codes "/fail") get (some failing)
      (routes_of (add_route_impl (codes "/test/{:id}/subtest") get (some show_id) [])))

abbrev ask : Method → String → Outcome Response
unfolding route
ask method path = (route (λ m. m) table (request_default method (codes path) [] text_plain) tt).0

asks : Unit {0}
unfolding ask table add_route_impl route compile full_regex parameter_names
asks = tt

found : ask get "/test/135/subtest?id=7" ≡ returned (respond ok (codes "135"))
unfolding asks
found = refl

no_route : ask get "/test/135" ≡ returned (respond not_found [])
unfolding asks
no_route = refl

no_method : ask post "/test/1/subtest" ≡ returned (respond method_not_allowed [])
unfolding asks
no_method = refl

throws : ask get "/fail" ≡ returned (respond internal_server_error (codes "test"))
unfolding asks
throws = refl

-- The container lists its entries in the order of their insertion, or in reverse.
abbrev as_is : Routes Unit → List (Bytes × RouteInfo Unit)
as_is routes = routes

as_is-IsIteration : IsIteration as_is
as_is-IsIteration = record { visits = λ routes e. (λ m. m, λ m. m) }

abbrev fail_info : RouteInfo Unit
fail_info = record {
  pattern = pieces (map lit (codes "/fail"));
  parameter_names = [];
  handlers = (get, failing) ∷ [];
}

abbrev fail_table : Routes Unit
fail_table = (codes "/fail", fail_info) ∷ []

fail_table_lem : add_route_impl (codes "/fail") get (some failing) [] ≡ added fail_table
unfolding add_route_impl compile full_regex parameter_names
fail_table_lem = refl

fail_table-IsTable : IsTable fail_table
fail_table-IsTable =
    add_route_impl-IsTable (codes "/fail") get (some failing) [] fail_table empty-IsTable
      fail_table_lem

-- `/t/{:id}`
abbrev tokens : List Token
tokens = map lit (codes "/t/") ++ param b'i' (codes "d") ∷ []

abbrev values : List Bytes
values = codes "7" ∷ []

abbrev both : Routes Unit
both =
    insert (codes "/t/{:id}") (new_info (codes "/t/{:id}") get show_id fail_table (pieces tokens))
      fail_table

both_lem : add_route_impl (codes "/t/{:id}") get (some show_id) fail_table ≡ added both
unfolding add_route_impl compile full_regex
both_lem = refl

fail_table-IsOnly : IsOnly (codes "/t/{:id}") (codes "/t/7") fail_table
unfolding match_pieces
fail_table-IsOnly p info ne e = elim (Bool-cases (bytes_eq (codes "/fail") p)) [
  | inl here ↦ let same : fail_info ≡ info = ground arith in rw (← same) refl
  | inr other ↦ absurd (ground arith)
]

abbrev sample_request : Request
sample_request = request_default get (codes "/t/7?id=9") [] text_plain

sample_parsed : parse_params (codes "/t/7?id=9") ≡ ((codes "id", codes "9") ∷ [], codes "/t/7")
unfolding parse_params
sample_parsed = refl

route-add_route_impl_example :
    route as_is both sample_request
    ≡ call_handler sample_request
        (bind_params (codes "id" ∷ []) values ((codes "id", codes "9") ∷ []))
        (some show_id)
route-add_route_impl_example =
    route-add_route_impl as_is-IsIteration tokens values show_id fail_table both sample_request
      ((codes "id", codes "9") ∷ []) fail_table-IsTable (ground arith) tt (ground arith) refl
      fail_table-IsOnly sample_parsed both_lem

both-IsTable : IsTable both
both-IsTable =
    add_route_impl-IsTable (codes "/t/{:id}") get (some show_id) fail_table both fail_table-IsTable
      both_lem

fail_stays : handler_at (codes "/fail") get both ≡ some failing
fail_stays =
    handler_at-add_route_impl (codes "/t/{:id}") get show_id fail_table both (codes "/fail") get
      both_lem

path_wins :
    lookup (codes "id") (bind_params (codes "id" ∷ []) values ((codes "id", codes "9") ∷ []))
    ≡ some (codes "7")
path_wins = lookup-bind_params (codes "id") (codes "id" ∷ []) values ((codes "id", codes "9") ∷ [])

sample_answered : (r : Response) × ((route as_is both sample_request tt).0 ≡ returned r)
sample_answered = route_total as_is both sample_request tt

abbrev calls : List (AddCall Unit)
calls =
    record { tokens = tokens; method = get; handler = show_id }
    ∷ record { tokens = map lit (codes "/fail"); method = get; handler = failing }
    ∷ []

both-Built : Built calls both
both-Built = one_more _ (one_more _ nothing fail_table_lem) both_lem

calls-IsPlain : (c : AddCall Unit) → Memᴰ c calls → All IsPlain c.tokens
calls-IsPlain c (Memᴰ.head h) = rw h (ground arith)
calls-IsPlain c (Memᴰ.tail (Memᴰ.head h)) = rw h (ground arith)
calls-IsPlain c (Memᴰ.tail (Memᴰ.tail h)) = elim h [ ]

route-registered_example :
    (((c : AddCall Unit)
        → Memᴰ c calls
        → (vs : List Bytes) → ¬ Fits c.tokens (parse_params (codes "/t/7?id=9")).1 vs)
      × (route as_is both sample_request ≡ pure (respond not_found [])))
    ⊎ ((c : AddCall Unit) × (vs : List Bytes) × Memᴰ c calls
        × Fits c.tokens (parse_params (codes "/t/7?id=9")).1 vs
        × (route as_is both sample_request
            ≡ call_handler sample_request
                (bind_params (names c.tokens) vs (parse_params (codes "/t/7?id=9")).0)
                (registered calls (render c.tokens) get)))
route-registered_example =
    route-registered as_is-IsIteration both-Built sample_request calls-IsPlain

-- `/t/{:id}(x`
add_route_impl-malformed_example :
    (add_route_impl (codes "/t/{:id}(x") get (some show_id) fail_table ≡ regex_error)
    × (add_route_impl (codes "/t/{:id}(x") get none fail_table
        ≡ invalid_argument (codes "Handler cannot be null"))
add_route_impl-malformed_example =
    add_route_impl-malformed (map lit (codes "t/") ++ param b'i' (codes "d") ∷ []) b'(' (codes "x")
      get show_id fail_table (ground arith) (inr (inl refl, (refl, tt)))

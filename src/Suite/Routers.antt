-- ===== src/Suite/Routers.antt =====
-- src/libraries/rest/router/ut/rest_router_ut.cpp. The state of a handler is whether all the checks
-- made in handlers so far hold.
use just_queue_it.Base.{
  Bytes, codes, bytes_eq, String, Bool, true, false, ◌&&◌, ◌≡◌, refl, Option, none, some, List, [],
  ◌∷◌, ◌==◌,
}
use just_queue_it.Base.Equality.{bytes_equality}
use just_queue_it.Base.Exec.{Outcome, returned, thrown}
use just_queue_it.Base.Map.{lookup}
use just_queue_it.Core.{Method, get, post, Response, request_default}
use just_queue_it.Core.Codes.{
  Status, status_code, ok, processing, not_found, method_not_allowed, internal_server_error,
}
use just_queue_it.Core.Content.{text_plain}
use just_queue_it.Pattern.{compile}
use just_queue_it.Pattern.Params.{full_regex, parameter_names}
use just_queue_it.Query.{Params}
use just_queue_it.Router.{
  Handler, Routes, Added, added, invalid_argument, regex_error, outside, respond, route,
}
use just_queue_it.Endpoint.{add_route_request}
use just_queue_it.Fixtures.{as_is}

-- `router.Route(…).status_code == status`, where every check in a handler holds.
abbrev has_status : Status → Outcome Response × Bool → Bool
has_status status (returned r, held) = held && status_code r.status_code == status_code status
has_status status (thrown what, held) = false

gives : Routes Bool → Method → String → Status → Bool
unfolding route status_code
gives routes method path status =
    has_status status (route as_is routes (request_default method (codes path) [] text_plain) true)

-- What comes after a call of `AddRoute`, which must not throw.
abbrev pub then_with : {S : Type 0} → Added S → (Routes S → Bool) → Bool
then_with (added routes) checks = checks routes
then_with (invalid_argument what) checks = false
then_with regex_error checks = false
then_with outside checks = false

add : String → Method → Handler Bool → Routes Bool → Added Bool
unfolding add_route_request compile full_regex parameter_names
add path method handler routes = add_route_request (codes path) method handler routes

abbrev answering : Status → Handler Bool
answering status req params held = (returned (respond status []), held)

abbrev throwing : Handler Bool
throwing req params held = (thrown (codes "test"), held)

abbrev at_is : Bytes → Option Bytes → Bool
at_is value none = false
at_is value (some v) = bytes_eq v value

-- `REQUIRE(params.at(key) == value)` for each pair: one that fails throws.
abbrev required : List (String × String) → Params → Bool
required [] params = true
required ((key, value) ∷ rest) params =
    at_is (codes value) (lookup (codes key) params) && required rest params

abbrev if_required : Bool → Bool → Outcome Response × Bool
if_required true held = (returned (respond ok []), held)
if_required false held = (thrown (codes "REQUIRE"), false)

abbrev requiring : List (String × String) → Handler Bool
requiring pairs req params held = if_required (required pairs params) held

-- The subcases without a route.
no_routes : Bool
unfolding gives
no_routes = gives [] get "" not_found && gives [] get "/test" not_found

-- "add get /test" and its subcases
add_get : Bool
unfolding add gives
add_get = then_with (add "/test" get (answering ok) []) λ routes.
    gives routes get "/test" ok
    && gives routes get "/test_2" not_found
    && gives routes post "/test" method_not_allowed
    && then_with (add "/test" post (answering processing) routes)
        (λ more. gives more get "/test" ok && gives more post "/test" processing)

exception_inside_handler : Bool
unfolding add gives
exception_inside_handler =
    then_with (add "/test" get throwing []) λ routes. gives routes get "/test" internal_server_error

pattern_with_parameter : Bool
unfolding add gives
pattern_with_parameter =
    then_with (add "/test/{:id}/subtest" get (requiring (("id", "135") ∷ [])) [])
      λ routes. gives routes get "/test/135/subtest" ok && gives routes get "/test/135" not_found

query_params : Bool
unfolding add gives
query_params =
    then_with (add "/test/" get (requiring (("key", "value") ∷ [])) [])
      λ routes. gives routes get "/test/?key=value" ok

query_and_path_params : Bool
unfolding add gives
query_and_path_params =
    then_with
      (add "/test/{:id}/subtest" get
        (requiring (("key", "value") ∷ ("key2", "value2") ∷ ("id", "23") ∷ [])) [])
      λ routes. gives routes get "/test/23/subtest?key=value&key2=value2" ok

all_pass :
    no_routes && add_get && exception_inside_handler && pattern_with_parameter && query_params
      && query_and_path_params
    ≡ true
unfolding no_routes add_get exception_inside_handler pattern_with_parameter query_params
    query_and_path_params
all_pass = refl

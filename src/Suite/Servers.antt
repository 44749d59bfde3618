-- ===== src/Suite/Servers.antt =====
-- src/libraries/rest/server/ut/rest_server_ut.cpp: requests over HTTP to a server with one route,
-- whose handler is a mock. The state is whether the mock has been called.
use just_queue_it.Base.{
  ℕ, Bytes, codes, bytes_eq, String, Bool, true, false, not, ◌&&◌, ◌≡◌, refl, none, List, [], ◌∷◌,
  ◌==◌,
}
use just_queue_it.Base.Exec.{Outcome, returned}
use just_queue_it.Core.{get, Response}
use just_queue_it.Core.Codes.{ok, status_code}
use just_queue_it.Core.Content.{application_json, content_type_name, parse_content_type}
use just_queue_it.Pattern.{compile}
use just_queue_it.Pattern.Params.{full_regex, parameter_names}
use just_queue_it.Router.{Handler, Routes, Added}
use just_queue_it.Endpoint.{add_route_request}
use just_queue_it.Server.{HttpResponse, Verb}
use just_queue_it.Server.Session.{Trace, do_session}
use just_queue_it.Server.Session.Traces.{good}
use just_queue_it.Server.Lifetime.{
  ServerConfig, Setup, Start, started, blocked, bad_address, do_listen, start_server, stop,
}
use just_queue_it.Fixtures.{enumerators, as_is}
use just_queue_it.Suite.Routers.{then_with}

-- Nothing is wrong with a response of these tests.
abbrev unchanged : HttpResponse → Outcome HttpResponse
unchanged r = returned r

-- `MakeRequest`: a connection that sends one request of HTTP/1.0 and reads the response.
make_request : Routes Bool → String → Verb → String → String → Trace Bool
unfolding do_session parse_content_type content_type_name status_code
make_request router path method content_type accept_content_type =
    do_session enumerators as_is unchanged router
      (good (record {
        method = method;
        target = codes path;
        content_type = codes content_type;
        accept = codes accept_content_type;
        body = [];
        keep_alive = false;
      })
        ∷ [])
      false

abbrev test_response : Response
test_response = record { status_code = ok; body = codes "test"; content_type = application_json }

abbrev mock_method : Handler Bool
mock_method req params called = (returned test_response, true)

router : Added Bool
unfolding add_route_request compile full_regex parameter_names
router = add_route_request (codes "/test") get mock_method []

-- The checks on the result and the body of the response, and on its content type.
abbrev received : ℕ → String → List HttpResponse → Bool
received result body (r ∷ []) = r.result == result && bytes_eq r.body (codes body)
received result body _ = false

abbrev has_type : Bytes → List HttpResponse → Bool
has_type type (r ∷ []) = bytes_eq r.content_type type
has_type type _ = false

-- The subcases; a mock that no call is required of must not be called.
get_invalid : Routes Bool → Bool
unfolding make_request
get_invalid routes =
    let t = make_request routes "/invalid" Verb.get "text/plain" "text/plain" in
    received 404 "" t.sent && not t.state

get_test : Routes Bool → Bool
unfolding make_request content_type_name
get_test routes =
    let t = make_request routes "/test" Verb.get "text/plain" "text/plain" in
    received 200 "test" t.sent && has_type (content_type_name application_json) t.sent && t.state

-- `http::verb::lock` is none of the verbs that the server knows.
invalid_method : Routes Bool → Bool
unfolding make_request
invalid_method routes =
    let t = make_request routes "/test" (Verb.other 9) "text/plain" "text/plain" in
    received 405 "Unsupported or unknown method" t.sent && not t.state

invalid_content_type : Routes Bool → Bool
unfolding make_request
invalid_content_type routes =
    let t = make_request routes "/test" Verb.get "123asf" "text/plain" in
    received 400 "Unsupported or unknown content type" t.sent && not t.state

invalid_accept_content_type : Routes Bool → Bool
unfolding make_request
invalid_accept_content_type routes =
    let t = make_request routes "/test" Verb.get "text/plain" "123asf" in
    received 400 "Unsupported or unknown accept content type" t.sent && not t.state

abbrev default_config : ServerConfig
default_config = record { address = codes "127.0.0.1"; port = 8080; threads = 1 }

abbrev any_address : Bytes → Outcome Bytes
any_address text = returned text

abbrev nothing_fails : Setup
nothing_fails = record {
  open_error = none;
  set_option_error = none;
  bind_error = none;
  listen_error = none;
}

-- `stop_token.Stop()` on what `StartServer` has returned.
abbrev stops : Start → Bool
unfolding stop
stops (started l) = (stop l).stopped
stops (blocked logged) = false
stops (bad_address what) = false

-- "BackendServer provides correct api"
provides_api : Bool
unfolding router get_invalid get_test invalid_method invalid_content_type
    invalid_accept_content_type stops start_server do_listen
provides_api =
    then_with router (λ routes.
      get_invalid routes
      && get_test routes
      && invalid_method routes
      && invalid_content_type routes
      && invalid_accept_content_type routes)
    && stops (start_server any_address default_config nothing_fails)

all_pass : provides_api ≡ true
unfolding provides_api
all_pass = refl

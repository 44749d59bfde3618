-- ===== src/Server/Tests.antt =====
-- Requests and connections over HTTP, and the theorems of the server at them
-- (src/libraries/rest/server/ut/rest_server_ut.cpp).
use just_queue_it.Base.{
  List, Bytes, codes, Bool, true, false, not, ◌≡◌, ◌↔◌, ◌≤◌, refl, none, some, [], ◌∷◌, ◌⊎◌, length,
  All, String, if◌then◌else◌, ◌==◌,
}
use just_queue_it.Base.Exec.{Outcome, returned, thrown}
use just_queue_it.Core.{Method, Response}
use just_queue_it.Core.Codes.{status_code, not_found, bad_request, method_not_allowed}
use just_queue_it.Core.Content.{text_plain, application_json, content_type_name, parse_content_type}
use just_queue_it.Router.{Routes, respond, route}
use just_queue_it.Server.{
  HttpRequest, HttpResponse, Verb, parse_method, create_response, prepare_response,
}
use just_queue_it.Server.Prepare.{
  NoName, IsRefused, IsRouted, prepare_response-route, prepare_response-cases,
}
use just_queue_it.Server.Session.{
  Failure, end_of_stream, system_error, exception, log_error, closed, failed, answer, do_session,
}
use just_queue_it.Server.Session.Traces.{
  good, Answers, none_left, one_more, session_closes, session_fails,
}
use just_queue_it.Server.Lifetime.{
  ServerConfig, Setup, ServerLifetime, started, blocked, do_listen, start_server, stop,
  stop-start_server,
}
use just_queue_it.Server.Lifetime.{wait, replicate}
use mathlib.Core.List.{Memᴰ}
use just_queue_it.Server.Lifetime.Owners.{
  Use, copy, call_wait, destruction, out_of_work, owned, released, use_handlers, Stops, has_ended,
  IsTidy, handlers-IsTidy,
}
use just_queue_it.Server.Lifetime.Destroy.{
  StopsWithoutWork, freed, terminated, has_work, lifetime_after, destroy, destroy-lifetime_after,
}
use just_queue_it.Server.Listening.{Serving, launched}
use just_queue_it.Fixtures.{enumerators, enumerators-ListsAll, as_is}

abbrev ask : Verb → String → String → String → Bool → HttpRequest
ask method target content_type accept keep_alive = record {
  method = method;
  target = codes target;
  content_type = codes content_type;
  accept = codes accept;
  body = [];
  keep_alive = keep_alive;
}

-- A server with no routes.
abbrev no_routes : Routes Unit
no_routes = []

abbrev prepared : HttpRequest → Outcome Response
unfolding prepare_response
prepared req = (prepare_response enumerators as_is no_routes req tt).0

served : Unit {0}
unfolding prepared prepare_response answer do_session parse_content_type content_type_name
    status_code parse_method route create_response
served = tt

gets_invalid :
    prepared (ask Verb.get "/invalid" "text/plain" "text/plain" true)
    ≡ returned (respond not_found [])
unfolding served
gets_invalid = refl

refuses_method :
    prepared (ask (Verb.other 9) "/" "text/plain" "text/plain" true)
    ≡ returned (respond method_not_allowed (codes "Unsupported or unknown method"))
unfolding served
refuses_method = refl

refuses_content :
    prepared (ask Verb.get "/" "123asf" "123asf" true)
    ≡ returned (respond bad_request (codes "Unsupported or unknown content type"))
unfolding served
refuses_content = refl

refuses_accept :
    prepared (ask Verb.get "/" "text/plain" "123asf" true)
    ≡ returned (respond bad_request (codes "Unsupported or unknown accept content type"))
unfolding served
refuses_accept = refl

abbrev kept : HttpRequest
kept = ask Verb.get "/a" "text/plain" "application/json" true

abbrev last : HttpRequest
last = ask Verb.get "/b" "text/plain" "text/plain" false

abbrev not_found_response : HttpResponse
not_found_response = record {
  result = 404;
  server = codes "JustQueueIt";
  content_type = codes "text/plain";
  body = [];
  keep_alive = true;
}

-- Refuses the responses to unknown methods.
abbrev refuse_405 : HttpResponse → Outcome HttpResponse
refuse_405 r = if r.result == 405 then thrown (codes "no") else returned r

routed_whole :
    prepare_response enumerators as_is no_routes kept
    ≡ route as_is no_routes (record {
      method = Method.get;
      path = codes "/a";
      body = [];
      content_type = text_plain;
      accept_content_type = application_json;
    })
unfolding parse_method content_type_name
routed_whole =
    prepare_response-route enumerators as_is no_routes kept Method.get text_plain application_json
      enumerators-ListsAll refl refl refl

prepare_response-cases_example :
    IsRouted enumerators as_is no_routes kept
    ⊎ (((parse_method kept.method ≡ none)
          × IsRefused enumerators as_is no_routes kept method_not_allowed
              "Unsupported or unknown method")
        ⊎ ((NoName kept.content_type
              × IsRefused enumerators as_is no_routes kept bad_request
                  "Unsupported or unknown content type")
            ⊎ (NoName kept.accept
                × IsRefused enumerators as_is no_routes kept bad_request
                    "Unsupported or unknown accept content type")))
prepare_response-cases_example =
    prepare_response-cases enumerators as_is no_routes kept enumerators-ListsAll

answers_kept :
    answer enumerators as_is refuse_405 no_routes kept tt ≡ (returned not_found_response, tt)
unfolding served
answers_kept = refl

answers_last :
    answer enumerators as_is refuse_405 no_routes last tt ≡ (returned not_found_response, tt)
unfolding served
answers_last = refl

abbrev locked : HttpRequest
locked = ask (Verb.other 9) "/b" "text/plain" "text/plain" true

answers_locked : answer enumerators as_is refuse_405 no_routes locked tt ≡ (thrown (codes "no"), tt)
unfolding served
answers_locked = refl

one_answer :
    Answers enumerators as_is refuse_405 no_routes (kept ∷ []) tt (not_found_response ∷ []) tt
one_answer = one_more answers_kept none_left

session_closes_example :
    do_session enumerators as_is refuse_405 no_routes (good kept ∷ good last ∷ good kept ∷ []) tt
    ≡ record {
      ending = closed;
      sent = not_found_response ∷ record not_found_response { keep_alive = false } ∷ [];
      state = tt;
    }
session_closes_example =
    session_closes enumerators as_is refuse_405 no_routes (kept ∷ []) last (good kept ∷ []) tt tt tt
      (not_found_response ∷ []) not_found_response (refl, tt) one_answer answers_last refl

session_fails_example :
    do_session enumerators as_is refuse_405 no_routes (good kept ∷ good locked ∷ good kept ∷ []) tt
    ≡ record {
      ending = failed (exception (codes "no"));
      sent = not_found_response ∷ [];
      state = tt;
    }
session_fails_example =
    session_fails enumerators as_is refuse_405 no_routes (kept ∷ []) locked (good kept ∷ []) tt tt
      tt (not_found_response ∷ []) (codes "no") (refl, tt) one_answer answers_locked

quiet : log_error (some end_of_stream) ≡ []
unfolding log_error
quiet = refl

-- An address is its text.
abbrev any_address : Bytes → Outcome Bytes
any_address text = returned text

abbrev config : ServerConfig
config = record { address = codes "127.0.0.1"; port = 8080; threads = 2 }

abbrev clean : Setup
clean = record {
  open_error = none;
  set_option_error = none;
  bind_error = none;
  listen_error = none;
}

abbrev in_use : Failure
in_use = system_error (codes "bind: Address already in use")

abbrev port_taken : Setup
port_taken = record clean { bind_error = some in_use }

abbrev running : ServerLifetime
running = record { stopped = false; threads = true ∷ true ∷ [] }

starts : start_server any_address config clean ≡ started running
unfolding start_server do_listen
starts = refl

stop-start_server_example : (do_listen clean ≡ none) ↔ (
    (l : ServerLifetime) × (start_server any_address config clean ≡ started l)
    × ((stop l).stopped ≡ true)
    × All (λ j. j ≡ false) (stop l).threads
    × (1 ≤ length (stop l).threads)
    × (2 ≤ length (stop l).threads)
    × (stop (stop l) ≡ stop l))
stop-start_server_example = stop-start_server any_address config clean (codes "127.0.0.1") refl

port_taken_blocks : start_server any_address config port_taken ≡ blocked (log_error (some in_use))
unfolding start_server do_listen
port_taken_blocks = refl

-- The accept has failed, and there is no session.
abbrev nothing_left : Serving Unit
nothing_left = record (launched tt) { listening = false }

abbrev two_threads : ServerLifetime
two_threads = record { stopped = false; threads = replicate 2 }

two_threads_start : start_server any_address config clean ≡ started two_threads
unfolding start_server do_listen
two_threads_start = refl

-- A context that says what is left of its work.
abbrev without_work : Serving Unit → Bool
without_work v = not (has_work v)

without_work-StopsWithoutWork : StopsWithoutWork without_work
without_work-StopsWithoutWork = record { without_work = λ v running. refl }

destroy-lifetime_after_example :
    (destroy (lifetime_after without_work nothing_left two_threads) ≡ terminated)
    × (destroy (wait (lifetime_after without_work nothing_left two_threads)) ≡ freed)
destroy-lifetime_after_example =
    destroy-lifetime_after any_address config clean two_threads nothing_left without_work
      without_work-StopsWithoutWork two_threads_start refl

joined_first : destroy (lifetime_after without_work (launched tt) two_threads) ≡ freed
joined_first =
    (destroy-lifetime_after any_address config clean two_threads (launched tt) without_work
      without_work-StopsWithoutWork two_threads_start refl).0

-- A copy of the handler is destroyed, then the handler.
abbrev two_handlers : List Use
two_handlers = copy ∷ destruction ∷ call_wait ∷ destruction ∷ []

handlers-IsTidy_example :
    ((e : Use)
      → Memᴰ e two_handlers
      → Stops e
      → has_ended (use_handlers two_handlers (owned 0 two_threads)) ≡ true)
    × (¬ Memᴰ out_of_work two_handlers → IsTidy (use_handlers two_handlers (owned 0 two_threads)))
handlers-IsTidy_example =
    handlers-IsTidy any_address config clean two_threads two_handlers two_threads_start

one_copy_gone :
    use_handlers (copy ∷ destruction ∷ []) (owned 0 two_threads) ≡ owned 0 (stop two_threads)
unfolding use_handlers
one_copy_gone = refl

both_gone : use_handlers two_handlers (owned 0 two_threads) ≡ released freed
unfolding use_handlers stop
both_gone = refl

runs_out : use_handlers (out_of_work ∷ destruction ∷ []) (owned 0 two_threads) ≡ released terminated
unfolding use_handlers stop
runs_out = refl

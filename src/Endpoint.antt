-- ===== src/Endpoint.antt =====
-- The typed handlers of `Router::AddRoute` (src/libraries/rest/router/rest_router.hpp):
-- `Serialize`, `DeSerialize`, and the wrappers that turn a handler of values into one of requests.
-- `rfl::json::write` and `rfl::json::read<T>(…).value()` are the parameters `write` and `read`.
pub mod Branches
pub mod Keeps
pub mod Traits
mod Tests
use just_queue_it.Base.{Bytes, codes, some}
use just_queue_it.Base.Exec.{Exec, Outcome, returned, thrown, pure, throw, lift, try_catch, ◌>>=◌}
use just_queue_it.Core.{Method, Request, Response}
use just_queue_it.Core.Codes.{Status, ok, bad_request}
use just_queue_it.Core.Content.{ContentType, text_plain, application_json}
use just_queue_it.Query.{Params}
use just_queue_it.Router.{Handler, Routes, Added, respond, add_route_impl}

-- The `ENSURE_MSG` behind the two switches is not reached: each has a case for every enumerator.
module _ {T : Type 0} where
  unfoldable pub serialize : (T → Bytes) → T → ContentType → Outcome Bytes
  serialize write v application_json = returned (write v)
  serialize write v text_plain = thrown (codes "Unsupported accept content type")

  unfoldable pub deserialize : (Bytes → Outcome T) → Bytes → ContentType → Outcome T
  deserialize read v application_json = read v
  deserialize read v text_plain = thrown (codes "Unsupported request content type")

-- `Router::SerializableResponse<T>`
pub record SerializableResponse (T : Type 0) : Type 0 where
  pub status_code : Status
  pub body : T

-- How the first argument is had from the request: nothing for a `None`, else the body.
abbrev pub no_body : Request → Outcome (Unit {0})
no_body req = returned tt

abbrev pub json_body : {A : Type 0} → (Bytes → Outcome A) → Request → Outcome A
unfolding deserialize
json_body read req = deserialize read req.body req.content_type

-- A `Response` of the status 400 with the message of the exception.
abbrev pub refuse : Bytes → Response
refuse what = respond bad_request what

module _ {S R : Type 0} where
  -- What is made of the handler's result.
  unfoldable pub finish : (R → Bytes) → Request → SerializableResponse R → Exec S Response
  unfolding serialize
  finish write req res = elim (serialize write res.body req.accept_content_type) [
    | thrown what ↦ pure (refuse what)
    | returned body_str ↦ pure (record {
      status_code = res.status_code;
      body = body_str;
      content_type = req.accept_content_type;
    })
  ]

module _ {S A R : Type 0} where
  -- The lambda for a handler that returns a `SerializableResponse`. The two `try` blocks hold the
  -- reading of the body and the writing of the result, and not the call of the handler.
  unfoldable pub wrap :
      (Request → Outcome A)
      → (R → Bytes)
      → (A → Params → Exec S (SerializableResponse R))
      → Handler S
  unfolding finish
  wrap decode write handler req params = elim (decode req) [
    | thrown what ↦ pure (refuse what)
    | returned body ↦ do res ← handler body params; finish write req res
  ]

  -- The lambda for a handler that returns a plain value: the status is 200.
  unfoldable pub with_ok : (A → Params → Exec S R) → A → Params → Exec S (SerializableResponse R)
  with_ok handler body params = do
    value ← handler body params
    pure (record { status_code = ok; body = value })

  -- `AddRoute(path, method, handler)` for a handler with the result type `SerializableResponse<R>`.
  unfoldable pub add_route :
      Bytes
      → Method
      → (Request → Outcome A)
      → (R → Bytes)
      → (A → Params → Exec S (SerializableResponse R))
      → Routes S
      → Added S
  unfolding wrap add_route_impl
  add_route path method decode write handler routes =
      add_route_impl path method (some (wrap decode write handler)) routes

  -- `AddRoute(path, method, handler)` for a handler with the result type `R`.
  unfoldable pub add_route_value :
      Bytes
      → Method
      → (Request → Outcome A)
      → (R → Bytes)
      → (A → Params → Exec S R)
      → Routes S
      → Added S
  unfolding add_route with_ok
  add_route_value path method decode write handler routes =
      add_route path method decode write (with_ok handler) routes

-- `AddRoute(path, method, handler)` for a handler of requests.
unfoldable pub add_route_request : {S : Type 0} → Bytes → Method → Handler S → Routes S → Added S
unfolding add_route_impl
add_route_request path method handler routes = add_route_impl path method (some handler) routes

-- ===== src/Server.antt =====
-- The HTTP server of src/libraries/rest/server/rest_server.cpp: a request of Boost.Beast becomes a
-- `rest::Request`, and the router's response one of Beast; and the loop of a connection.
-- Parameters: the enumerators of `ContentType` (reflect-cpp), the iteration of the table, and
-- `prepare_payload` of Beast, which may throw.
pub mod Prepare
pub mod Session
pub mod Lifetime
pub mod Listening
mod Tests
use just_queue_it.Base.{
  ℕ, Bytes, codes, Bool, true, false, Option, none, some, List, [], ◌∷◌, ◌++◌, if◌then◌else◌,
}
use just_queue_it.Base.Exec.{Exec, Outcome, returned, thrown, pure}
use just_queue_it.Core.{Method, Request, Response}
use just_queue_it.Core.Codes.{status_code, method_not_allowed, bad_request}
use just_queue_it.Core.Content.{ContentType, content_type_name, parse_content_type}
use just_queue_it.Router.{RouteInfo, Routes, respond, route}

-- `boost::beast::http::verb`; `other` is every verb that `ParseMethod` does not name.
pub data Verb : Type 0 where
  get post put delete_ patch head options : Verb
  other : ℕ → Verb

-- What the server reads of a request; a field that is absent is empty.
pub record HttpRequest : Type 0 where
  pub method : Verb
  pub target : Bytes
  pub content_type : Bytes
  pub accept : Bytes
  pub body : Bytes
  pub keep_alive : Bool

pub record HttpResponse : Type 0 where
  pub result : ℕ
  pub server : Bytes
  pub content_type : Bytes
  pub body : Bytes
  pub keep_alive : Bool

unfoldable pub parse_method : Verb → Option Method
parse_method get = some Method.get
parse_method post = some Method.post
parse_method put = some Method.put
parse_method delete_ = some Method.delete
parse_method patch = some Method.patch
parse_method head = some Method.head
parse_method options = some Method.options
parse_method (other n) = none

-- The response before `prepare_payload`; a new response of Beast is one of HTTP/1.1, whose
-- connection is kept.
abbrev pub unprepared : Response → HttpResponse
unfolding status_code content_type_name
unprepared response = record {
  result = status_code response.status_code;
  server = codes "JustQueueIt";
  content_type = content_type_name response.content_type;
  body = response.body;
  keep_alive = true;
}

unfoldable pub create_response :
    (HttpResponse → Outcome HttpResponse) → Response → Outcome HttpResponse
unfolding unprepared
create_response prepare_payload response = prepare_payload (unprepared response)

module _ {S : Type 0} (enumerators : List (Bytes × ContentType))
    (iterate : Routes S → List (Bytes × RouteInfo S)) (router : Routes S) where
  -- The tests of `PrepareResponse`, each after the one before.
  with_accept : HttpRequest → Method → ContentType → Option ContentType → Exec S Response
  with_accept req method content_type none =
      pure (respond bad_request (codes "Unsupported or unknown accept content type"))
  with_accept req method content_type (some accept_content_type) = route iterate router (record {
    method = method;
    path = req.target;
    body = req.body;
    content_type = content_type;
    accept_content_type = accept_content_type;
  })

  with_type : HttpRequest → Method → Option ContentType → Exec S Response
  unfolding with_accept parse_content_type
  with_type req method none =
      pure (respond bad_request (codes "Unsupported or unknown content type"))
  with_type req method (some content_type) =
      with_accept req method content_type (parse_content_type enumerators req.accept)

  with_method : HttpRequest → Option Method → Exec S Response
  unfolding with_type parse_content_type
  with_method req none = pure (respond method_not_allowed (codes "Unsupported or unknown method"))
  with_method req (some method) =
      with_type req method (parse_content_type enumerators req.content_type)

  unfoldable pub prepare_response : HttpRequest → Exec S Response
  unfolding with_method parse_method route
  prepare_response req = with_method req (parse_method req.method)

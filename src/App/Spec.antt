-- ===== src/App/Spec.antt =====
-- What the program of src/apps/backend/backend_app.cpp answers to requests over HTTP, one after
-- another: each is refused, or asks the service for a call of the storage.
use just_queue_it.Base.{
  Bytes, codes, bytes_eq, Option, none, some, List, [], ◌∷◌, ◌++◌, if◌then◌else◌,
}
use just_queue_it.Base.Exec.{Outcome}
use just_queue_it.Core.{Method, Response}
use just_queue_it.Core.Codes.{bad_request, method_not_allowed}
use just_queue_it.Core.Content.{ContentType, text_plain, application_json}
use just_queue_it.Storage.{DataStorage}
use just_queue_it.Router.{respond}
use just_queue_it.Server.{HttpRequest, HttpResponse, parse_method, create_response}
use just_queue_it.Server.Listening.Sequence.{Asked, Replied, one_reply}
use just_queue_it.Backend.{Json}
use just_queue_it.Backend.Spec.{wanted, perform}

-- The content type that a field names in full.
abbrev pub named_type : Bytes → Option ContentType
named_type text =
    if bytes_eq text (codes "text/plain")
    then some text_plain
    else if bytes_eq text (codes "application/json")
    then some application_json
    else none

module _ {S : Type 0} (json : Json) (storage : DataStorage S) where
  -- With the method, the type of the body and the accepted type, if they are known.
  abbrev pub perform_known :
      HttpRequest → Option Method → Option ContentType → Option ContentType → S → Response × S
  perform_known req none content accept s =
      (respond method_not_allowed (codes "Unsupported or unknown method"), s)
  perform_known req (some method) none accept s =
      (respond bad_request (codes "Unsupported or unknown content type"), s)
  perform_known req (some method) (some content) none s =
      (respond bad_request (codes "Unsupported or unknown accept content type"), s)
  perform_known req (some method) (some content) (some accept) s =
      perform json storage accept
        (wanted json (record {
          method = method;
          path = req.target;
          body = req.body;
          content_type = content;
          accept_content_type = accept;
        }))
        s

  unfoldable pub perform_request : HttpRequest → S → Response × S
  perform_request req s =
      perform_known req (parse_method req.method) (named_type req.content_type)
        (named_type req.accept) s

  -- The responses to requests that are answered in a row, each for the session that has brought its
  -- request; there is none where `prepare_payload` throws.
  unfoldable pub perform_all :
      (HttpResponse → Outcome HttpResponse) → List Asked → S → List Replied × S
  perform_all prepare_payload [] s = ([], s)
  perform_all prepare_payload (a ∷ asks) s =
      let (response, t) = perform_request a.req s in
      let (replies, u) = perform_all prepare_payload asks t in
      (one_reply a (create_response prepare_payload response) ++ replies, u)

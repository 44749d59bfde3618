-- ===== src/Endpoint/Tests.antt =====
-- Typed handlers at concrete requests (src/libraries/rest/router/ut/rest_router_ut.cpp).
use just_queue_it.Base.{Bytes, codes, ◌≡◌, refl, []}
use just_queue_it.Base.Exec.{Exec, Outcome, returned}
use just_queue_it.Core.{get, Response}
use just_queue_it.Core.Codes.{ok}
use just_queue_it.Core.Content.{ContentType, text_plain, application_json}
use just_queue_it.Query.{Params}
use just_queue_it.Endpoint.{json_body, refuse, wrap, with_ok}

-- Sends the body back, and counts nothing: the state is the last body.
abbrev echo : Bytes → Params → Exec Bytes Bytes
echo body params s = (returned body, body)

abbrev read_all : Bytes → Outcome Bytes
read_all body = returned body

abbrev ask : ContentType → ContentType → Outcome Response × Bytes
unfolding wrap with_ok
ask content accept =
    wrap (json_body read_all) (λ b. b) (with_ok echo)
      (record {
        method = get;
        path = codes "/test";
        body = codes "{}";
        content_type = content;
        accept_content_type = accept;
      })
      [] []

valid_request : ask application_json application_json ≡ (
  returned (record { status_code = ok; body = codes "{}"; content_type = application_json }),
  codes "{}",
)
unfolding ask wrap with_ok json_body
valid_request = refl

unsupported_content :
    ask text_plain application_json
    ≡ (returned (refuse (codes "Unsupported request content type")), [])
unfolding ask wrap with_ok json_body
unsupported_content = refl

-- The handler has run.
unsupported_accept :
    ask application_json text_plain
    ≡ (returned (refuse (codes "Unsupported accept content type")), codes "{}")
unfolding ask wrap with_ok json_body
unsupported_accept = refl

-- ===== src/Backend/Spec.antt =====
-- What the service of src/libraries/backend/server/server.cpp answers, with no router, no wrapper and
-- no exception: a request asks for one call of the storage, or is refused, and the answer is read
-- off the reply.
use just_queue_it.Base.{
  ℕ, Bytes, codes, bytes_eq, Bool, true, false, ◌&&◌, Option, none, some, [], ◌∷◌, ◌==◌,
  if◌then◌else◌,
}
use just_queue_it.Base.Exec.{Outcome, returned, thrown}
use just_queue_it.Core.{Method, Request, Response}
use just_queue_it.Core.Codes.{
  Status, ok, no_content, bad_request, not_found, method_not_allowed, internal_server_error,
}
use just_queue_it.Core.Content.{ContentType, text_plain, application_json}
use just_queue_it.Query.{parse_params}
use just_queue_it.Task.{TaskPayload}
use just_queue_it.Storage.{DataStorage}
use just_queue_it.Storage.Spec.{Call, create, list, Reply, created, found, deleted, tasks, call}
use just_queue_it.Router.{respond}
use just_queue_it.Backend.{Json, tasks_path}
use just_queue_it.Backend.Number.{stoull}

-- A request asks for a call, or it is refused with a status and a message.
pub data Wanted : Type 0 where
  calls : Call → Wanted
  refused : Status → Bytes → Wanted

-- The call on a value that has been read; an exception of the reader is its message.
abbrev wanted_on : {A : Type 0} → Status → (A → Call) → Outcome A → Wanted
wanted_on status on (thrown what) = refused status what
wanted_on status on (returned a) = calls (on a)

-- `/tasks`, with what the reader makes of the body.
abbrev pub tasks_wanted : Method → Outcome TaskPayload → Wanted
tasks_wanted Method.get payload = calls list
tasks_wanted Method.post payload = wanted_on bad_request create payload
tasks_wanted _ payload = refused method_not_allowed []

-- `/tasks/v`, with the number that `v` is read as.
abbrev pub task_wanted : Method → Outcome ℕ → Wanted
task_wanted Method.get id = wanted_on internal_server_error Call.get id
task_wanted Method.delete id = wanted_on internal_server_error Call.delete id
task_wanted _ id = refused method_not_allowed []

-- The text behind a prefix.
abbrev pub behind : Bytes → Bytes → Option Bytes
behind [] text = some text
behind (p ∷ prefix) [] = none
behind (p ∷ prefix) (c ∷ text) = if p == c then behind prefix text else none

abbrev pub no_slash : Bytes → Bool
no_slash [] = true
no_slash (c ∷ text) = (if c == b'/' then false else true) && no_slash text

-- One segment: some text with no slash.
abbrev pub is_segment : Bytes → Bool
is_segment [] = false
is_segment (c ∷ text) = no_slash (c ∷ text)

abbrev pub segment_wanted : Method → Option Bytes → Wanted
segment_wanted method none = refused not_found []
segment_wanted method (some v) =
    if is_segment v then task_wanted method (stoull v) else refused not_found []

-- The payload in the body of a request, which must be JSON.
abbrev pub payload_in : Json → ContentType → Bytes → Outcome TaskPayload
payload_in json application_json body = json.read_payload body
payload_in json text_plain body = thrown (codes "Unsupported request content type")

abbrev wanted_at : Json → Request → Bytes → Wanted
wanted_at json req url =
    if bytes_eq url tasks_path
    then tasks_wanted req.method (payload_in json req.content_type req.body)
    else segment_wanted req.method (behind (codes "/tasks/") url)

-- The query of the path plays no part.
unfoldable pub wanted : Json → Request → Wanted
wanted json req = wanted_at json req (parse_params req.path).1

abbrev pub reply_status : Reply → Status
reply_status (found none) = no_content
reply_status (found (some task)) = ok
reply_status (created task) = ok
reply_status deleted = ok
reply_status (tasks ts) = ok

abbrev pub reply_body : Json → Reply → Bytes
reply_body json (created task) = json.write_task task
reply_body json (found task) = json.write_optional task
reply_body json deleted = json.write_none
reply_body json (tasks ts) = json.write_tasks ts

-- A result can be had as JSON only.
abbrev pub replied : ContentType → Status → Bytes → Response
replied application_json status body = record {
  status_code = status;
  body = body;
  content_type = application_json;
}
replied text_plain status body = respond bad_request (codes "Unsupported accept content type")

-- The call is made, whether or not its result can be had.
abbrev pub perform : {S : Type 0} → Json → DataStorage S → ContentType → Wanted → S → Response × S
perform json storage accept (refused status what) s = (respond status what, s)
perform json storage accept (calls c) s =
    let (reply, t) = call storage c s in
    (replied accept (reply_status reply) (reply_body json reply), t)

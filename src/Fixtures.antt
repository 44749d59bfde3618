-- ===== src/Fixtures.antt =====
-- Data for the tests: concrete functions in the places of the parameters of the model.
use mathlib.Core.List.{Memᴰ}
use just_queue_it.Base.{
  Bytes, codes, bytes_eq, refl, Option, none, some, List, [], ◌∷◌, if◌then◌else◌, ◌==◌,
}
use just_queue_it.Base.Exec.{Outcome, returned, thrown}
use just_queue_it.Task.{Task, TaskPayload}
use just_queue_it.Core.Content.{ContentType, text_plain, application_json, ListsAll}
use just_queue_it.Router.{RouteInfo, Routes}
use just_queue_it.Router.Choice.{IsIteration}
use just_queue_it.Backend.{Json}
use just_queue_it.Server.{HttpResponse}

abbrev pub enumerators : List (Bytes × ContentType)
enumerators = (codes "TextPlain", text_plain) ∷ (codes "ApplicationJson", application_json) ∷ []

pub enumerators-ListsAll : ListsAll enumerators
enumerators-ListsAll = record { listed = listed }
  where
    listed : (t : ContentType) → (name : Bytes) × Memᴰ (name, t) enumerators
    listed text_plain = (codes "TextPlain", Memᴰ.head refl)
    listed application_json = (codes "ApplicationJson", Memᴰ.tail (Memᴰ.head refl))

abbrev pub as_is : {S : Type 0} → Routes S → List (Bytes × RouteInfo S)
as_is routes = routes

pub as_is-IsIteration : {S : Type 0} → IsIteration (as_is {S = S})
as_is-IsIteration = record { visits = λ routes e. (λ m. m, λ m. m) }

-- The text of a payload is its name; a body `{` is none.
abbrev read_name : Bytes → Outcome TaskPayload
read_name body =
    if bytes_eq body (codes "{")
    then thrown (codes "Could not parse document")
    else returned (record { name = body; description = [] })

abbrev write_names : List Task → Bytes
write_names [] = codes "[]"
write_names (t ∷ ts) = t.payload.name

abbrev write_name_or_null : Option Task → Bytes
write_name_or_null none = codes "null"
write_name_or_null (some t) = t.payload.name

abbrev pub names_json : Json
names_json = record {
  read_payload = read_name;
  write_task = λ t. t.payload.name;
  write_tasks = write_names;
  write_optional = write_name_or_null;
  write_none = codes "{}";
}

-- Refuses a body with the status 204, and adds nothing.
abbrev pub refuse_body : Bytes → HttpResponse → Outcome HttpResponse
refuse_body [] r = returned r
refuse_body (c ∷ s) r =
    if r.result == 204 then thrown (codes "invalid response body") else returned r

abbrev pub strict_payload : HttpResponse → Outcome HttpResponse
strict_payload r = refuse_body r.body r

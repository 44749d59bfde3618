-- ===== src/Suite/Serialization.antt =====
-- The subcases on JSON of src/libraries/rest/router/ut/rest_router_ut.cpp. The functions of
-- reflect-cpp for the type of the test are parameters.
use just_queue_it.Base.{
  ℕ, Bytes, codes, bytes_eq, Bool, true, false, ◌&&◌, ◌≡◌, List, [], ◌∷◌, ◌==◌,
}
use just_queue_it.Base.Exec.{Exec, Outcome, returned, thrown}
use just_queue_it.Core.{get, Response}
use just_queue_it.Core.Codes.{Status, status_code, ok, bad_request}
use just_queue_it.Core.Content.{ContentType, text_plain, application_json}
use just_queue_it.Pattern.{compile}
use just_queue_it.Pattern.Params.{full_regex, parameter_names}
use just_queue_it.Query.{Params}
use just_queue_it.Router.{Routes, route}
use just_queue_it.Endpoint.{
  SerializableResponse, json_body, serialize, deserialize, wrap, finish, add_route, add_route_value,
}
use just_queue_it.Fixtures.{as_is}
use just_queue_it.Suite.Routers.{then_with}

-- `data` is an `int`; the test has no negative one.
pub record SerializableData : Type 0 where
  pub number : ℕ
  pub texts : List Bytes

abbrev texts_eq : List Bytes → List Bytes → Bool
texts_eq [] [] = true
texts_eq (a ∷ as') (b ∷ bs) = bytes_eq a b && texts_eq as' bs
texts_eq _ _ = false

abbrev pub data_eq : SerializableData → SerializableData → Bool
data_eq a b = a.number == b.number && texts_eq a.texts b.texts

abbrev pub sample : SerializableData
sample = record { number = 30; texts = codes "hello" ∷ codes "world" ∷ [] }

-- `rfl::json::write` and `rfl::json::read<SerializableData>(…).value()`.
pub record DataJson : Type 0 where
  pub write : SerializableData → Bytes
  pub read : Bytes → Outcome SerializableData

abbrev written : Bytes
written = codes "{\"data\":30,\"texts\":[\"hello\",\"world\"]}"

abbrev spaced : Bytes
spaced = codes "{\"data\": 30, \"texts\" : [\"hello\", \"world\"]}"

abbrev broken : Bytes
broken = codes "{\"data\": 20, "

abbrev partial : Bytes
partial = codes "{\"texts\" : [\"hello\", \"world\"]}"

-- What reflect-cpp does with the texts of the test.
pub record IsReflectCpp (json : DataJson) : Type 0 where
  pub writes : json.write sample ≡ written
  pub reads_written : json.read written ≡ returned sample
  pub reads_spaced : json.read spaced ≡ returned sample
  pub reads_broken : json.read broken ≡ thrown (codes "Could not parse document")
  pub reads_partial : json.read partial ≡ thrown (codes "Field named 'data' not found.")

-- What a handler gets is what the checks in it ask for.
abbrev checked : SerializableData → Bool → Bool
checked request held = held && data_eq request sample

abbrev explicit : SerializableData → Params → Exec Bool (SerializableResponse SerializableData)
explicit request params held =
    (returned (record { status_code = ok; body = sample }), checked request held)

abbrev lean : SerializableData → Params → Exec Bool SerializableData
lean request params held = (returned sample, checked request held)

abbrev is_type : ContentType → ContentType → Bool
is_type text_plain text_plain = true
is_type application_json application_json = true
is_type _ _ = false

abbrev is_text : Bytes → Outcome Bytes → Bool
is_text text (returned b) = bytes_eq b text
is_text text (thrown what) = false

abbrev is_data : SerializableData → Outcome SerializableData → Bool
is_data d (returned e) = data_eq e d
is_data d (thrown what) = false

-- The checks of a subcase on the response, where those in the handler hold.
abbrev responds : Status → ContentType → Bytes → Outcome Response × Bool → Bool
responds status type body (returned r, held) =
    held
    && status_code r.status_code == status_code status
    && is_type r.content_type type
    && bytes_eq r.body body
responds status type body (thrown what, held) = false

asked : Routes Bool → Bytes → ContentType → ContentType → Outcome Response × Bool
unfolding route status_code
asked routes body content accept =
    route as_is routes
      (record {
        method = get;
        path = codes "/test";
        body = body;
        content_type = content;
        accept_content_type = accept;
      })
      true

module _ (json : DataJson) where
  pub round_trip : Bool
  unfolding serialize deserialize
  round_trip =
      is_text written (serialize json.write sample application_json)
      && is_data sample (deserialize json.read written application_json)

  -- The lambda `test`.
  five_requests : Routes Bool → Bool
  unfolding asked
  five_requests routes =
      responds ok application_json written (asked routes spaced application_json application_json)
      && responds bad_request text_plain (codes "Could not parse document")
          (asked routes broken application_json application_json)
      && responds bad_request text_plain (codes "Field named 'data' not found.")
          (asked routes partial application_json application_json)
      && responds bad_request text_plain (codes "Unsupported request content type")
          (asked routes spaced text_plain text_plain)
      && responds bad_request text_plain (codes "Unsupported accept content type")
          (asked routes spaced application_json text_plain)

  pub explicit_serialization : Bool
  unfolding five_requests add_route compile full_regex parameter_names
  explicit_serialization =
      then_with (add_route (codes "/test") get (json_body json.read) json.write explicit [])
        five_requests

  pub lean_serialization : Bool
  unfolding five_requests add_route_value compile full_regex parameter_names
  lean_serialization =
      then_with (add_route_value (codes "/test") get (json_body json.read) json.write lean [])
        five_requests

  lean_passes : IsReflectCpp json → lean_serialization ≡ true
  unfolding lean_serialization deserialize serialize wrap finish
  lean_passes r =
      rw (r.reads_spaced, wrap, deserialize, r.writes, finish, r.reads_broken, r.reads_partial)

  explicit_passes : IsReflectCpp json → explicit_serialization ≡ true
  unfolding explicit_serialization deserialize serialize wrap finish
  explicit_passes r =
      rw (r.reads_spaced, wrap, deserialize, r.writes, finish, r.reads_broken, r.reads_partial)

  round_trip_passes : IsReflectCpp json → round_trip ≡ true
  unfolding round_trip
  round_trip_passes r = rw (r.writes, r.reads_written)

  -- With the functions of reflect-cpp, as far as the test uses them, all the checks hold.
  pub serialization_passes :
      IsReflectCpp json → round_trip && explicit_serialization && lean_serialization ≡ true
  serialization_passes r = rw (round_trip_passes r, explicit_passes r, lean_passes r)

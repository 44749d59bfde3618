-- ===== src/Suite/Tests.antt =====
-- The theorems on the unit tests at concrete parameters.
use just_queue_it.Base.{
  ◌∷◌, ◌↔◌, All, false, none, [], Bytes, codes, bytes_eq, ◌≡◌, ◌&&◌, ◌≤◌, List, length, refl, true,
  if◌then◌else◌, arith,
}
use just_queue_it.Base.Exec.{Outcome, returned, thrown}
use just_queue_it.Storage.{DataStorage, in_memory, empty}
use just_queue_it.Storage.Validity.{empty-IsValid}
use just_queue_it.Storage.Spec.{Call}
use just_queue_it.Storage.Refinement.{view-empty, in_memory-refines}
use just_queue_it.Suite.Storages.{
  manipulate_storage, scripts, KeepsContract, manipulate_storage_iff,
}
use just_queue_it.Suite.Serialization.{
  SerializableData, DataJson, IsReflectCpp, sample, round_trip, explicit_serialization,
  lean_serialization, serialization_passes,
}

-- The in-memory storage that holds nothing.
manipulate_storage_iff_example :
    (manipulate_storage in_memory empty ≡ true) ↔ All (KeepsContract in_memory empty) scripts
manipulate_storage_iff_example = manipulate_storage_iff in_memory empty

-- A storage that forgets what it is given.
abbrev forgetful : DataStorage Unit
forgetful = record {
  create_task = λ payload s. (record { id = 0; payload = payload }, s);
  get_task = λ index s. none;
  delete_task = λ index s. s;
  get_tasks = λ s. [];
}

forgetful_fails : manipulate_storage forgetful tt ≡ false
forgetful_fails = refl

empty_keeps : (cs : List Call) → length cs ≤ 10 → KeepsContract in_memory empty cs
empty_keeps cs h = rw (← view-empty) (in_memory-refines cs empty empty-IsValid (omega arith)).0

each_kept :
    (css : List (List Call))
    → All (λ cs. length cs ≤ 10) css
    → All (KeepsContract in_memory empty) css
each_kept [] h = tt
each_kept (cs ∷ css) h = (empty_keeps cs h.0, each_kept css h.1)

empty_passes : manipulate_storage in_memory empty ≡ true
empty_passes = (manipulate_storage_iff in_memory empty).1 (each_kept scripts (omega arith))

abbrev table : Bytes → Outcome SerializableData
table body =
    if bytes_eq body (codes "{\"data\": 20, ")
    then thrown (codes "Could not parse document")
    else if bytes_eq body (codes "{\"texts\" : [\"hello\", \"world\"]}")
    then thrown (codes "Field named 'data' not found.")
    else returned sample

abbrev table_json : DataJson
table_json = record {
  write = λ d. codes "{\"data\":30,\"texts\":[\"hello\",\"world\"]}";
  read = table;
}

table_json-IsReflectCpp : IsReflectCpp table_json
table_json-IsReflectCpp = record {
  writes = refl;
  reads_written = refl;
  reads_spaced = refl;
  reads_broken = refl;
  reads_partial = refl;
}

table_passes :
    round_trip table_json && explicit_serialization table_json && lean_serialization table_json
    ≡ true
table_passes = serialization_passes table_json table_json-IsReflectCpp

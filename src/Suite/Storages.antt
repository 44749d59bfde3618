-- ===== src/Suite/Storages.antt =====
-- src/libraries/backend/data_storage/ut/storages_ut.cpp: what every storage has to satisfy.
use just_queue_it.Base.{
  codes, bytes_eq_iff, ==_iff, and_both, ◌↔◌, All, Bool, true, false, not, ◌&&◌, ◌≡◌, refl, Option,
  none, some, List, [], ◌∷◌, arith,
}
use just_queue_it.Task.{Task, TaskPayload, payload_eq, task_eq}
use just_queue_it.Storage.{
  DataStorage, empty, in_memory, create_task, get_task, delete_task, get_tasks,
}
use just_queue_it.Storage.Spec.{
  Call, create, get, delete, list, abstract_storage, nothing_stored, run,
}

abbrev pub payload : TaskPayload
payload = record { name = codes "name"; description = codes "description" }

abbrev new_payload : TaskPayload
new_payload = record { name = codes "name2"; description = codes "description2" }

abbrev task_0 : Task
task_0 = record { id = 0; payload = payload }

abbrev task_1 : Task
task_1 = record { id = 1; payload = new_payload }

abbrev task_2 : Task
task_2 = record { id = 2; payload = payload }

-- `==` on `std::vector<Task>`
abbrev pub tasks_eq : List Task → List Task → Bool
tasks_eq [] [] = true
tasks_eq (a ∷ as') (b ∷ bs) = task_eq a b && tasks_eq as' bs
tasks_eq _ _ = false

-- `found.value() == t`; without a value it throws.
abbrev pub value_eq : Option Task → Task → Bool
value_eq none t = false
value_eq (some a) t = task_eq a t

abbrev has_value : Option Task → Bool
has_value none = false
has_value (some a) = true

module _ {S : Type 0} (storage : DataStorage S) where
  -- The subcases, over the storage with the tasks 0 and 1.
  abbrev get_task_0 : S → Bool
  get_task_0 s = value_eq (storage.get_task 0 s) task_0

  abbrev get_task_1000 : S → Bool
  get_task_1000 s = not (has_value (storage.get_task 1000 s))

  abbrev delete_task_0 : S → Bool
  delete_task_0 s = tasks_eq (storage.get_tasks (storage.delete_task 0 s)) (task_1 ∷ [])

  abbrev delete_missing : S → Bool
  delete_missing s =
      tasks_eq (storage.get_tasks (storage.delete_task 10000 s)) (task_0 ∷ task_1 ∷ [])

  -- The subcases of "delete task 1".
  abbrev delete_both : S → Bool
  delete_both s = tasks_eq (storage.get_tasks (storage.delete_task 0 s)) []

  abbrev add_task_3 : S → Bool
  add_task_3 s =
      let (t, s') = storage.create_task payload s in
      task_eq t task_2
      && tasks_eq (storage.get_tasks s') (task_0 ∷ task_2 ∷ [])
      && tasks_eq (storage.get_tasks (storage.delete_task 0 s')) (task_2 ∷ [])

  abbrev delete_task_1 : S → Bool
  delete_task_1 s =
      let s' = storage.delete_task 1 s in
      tasks_eq (storage.get_tasks s') (task_0 ∷ []) && delete_both s' && add_task_3 s'

  -- "manipulate storage"
  abbrev pub manipulate_storage : S → Bool
  manipulate_storage s =
      let (t, s') = storage.create_task payload s in
      let (t', s'') = storage.create_task new_payload s' in
      task_eq t task_0
      && task_eq t' task_1
      && tasks_eq (storage.get_tasks s'') (task_0 ∷ task_1 ∷ [])
      && get_task_0 s''
      && get_task_1000 s''
      && delete_task_0 s''
      && delete_missing s''
      && delete_task_1 s''

-- The calls of the test, in an order in which each subcase gets the state that it is about.
in_memory_passes : manipulate_storage in_memory empty ≡ true
unfolding create_task get_task delete_task get_tasks
in_memory_passes = refl

payload_eq_iff : (a b : TaskPayload) → (payload_eq a b ≡ true) ↔ (a ≡ b)
payload_eq_iff a b =
    ground (arith, bytes_eq_iff a.name b.name, bytes_eq_iff a.description b.description)

task_eq_iff : (a b : Task) → (task_eq a b ≡ true) ↔ (a ≡ b)
task_eq_iff a b = ground (arith, ==_iff a.id b.id, payload_eq_iff a.payload b.payload)

tasks_eq_iff : (as' bs : List Task) → (tasks_eq as' bs ≡ true) ↔ (as' ≡ bs)
tasks_eq_iff [] [] = ground arith
tasks_eq_iff [] (b ∷ bs) = ground arith
tasks_eq_iff (a ∷ as') [] = ground arith
tasks_eq_iff (a ∷ as') (b ∷ bs) = ground (arith, task_eq_iff a b, tasks_eq_iff as' bs)

value_eq_iff : (o : Option Task) (t : Task) → (value_eq o t ≡ true) ↔ (o ≡ some t)
value_eq_iff none t = ground arith
value_eq_iff (some a) t = ground (arith, task_eq_iff a t)

has_no_value_iff : (o : Option Task) → (not (has_value o) ≡ true) ↔ (o ≡ none)
has_no_value_iff none = ground arith
has_no_value_iff (some a) = ground arith

-- The calls of the test, in five sequences.
abbrev pub scripts : List (List Call)
scripts =
    (create payload ∷ create new_payload ∷ list ∷ get 0 ∷ get 1000 ∷ [])
    ∷ (create payload ∷ create new_payload ∷ delete 0 ∷ list ∷ [])
    ∷ (create payload ∷ create new_payload ∷ delete 10000 ∷ list ∷ [])
    ∷ (create payload ∷ create new_payload ∷ delete 1 ∷ list ∷ delete 0 ∷ list ∷ [])
    ∷ (create payload
        ∷ create new_payload
        ∷ delete 1
        ∷ create payload
        ∷ list
        ∷ delete 0
        ∷ list
        ∷ [])
    ∷ []

module _ {S : Type 0} (storage : DataStorage S) (s : S) where
  abbrev one_task : S
  one_task = (storage.create_task payload s).1

  abbrev two_tasks : S
  two_tasks = (storage.create_task new_payload one_task).1

  abbrev one_left : S
  one_left = storage.delete_task 1 two_tasks

  abbrev added_third : S
  added_third = (storage.create_task payload one_left).1

  -- What the test requires, with `≡` in the place of `==`.
  record Required : Type 0 where
    first_created : (storage.create_task payload s).0 ≡ task_0
    second_created : (storage.create_task new_payload one_task).0 ≡ task_1
    both_kept : storage.get_tasks two_tasks ≡ task_0 ∷ task_1 ∷ []
    first_found : storage.get_task 0 two_tasks ≡ some task_0
    none_found : storage.get_task 1000 two_tasks ≡ none
    first_deleted : storage.get_tasks (storage.delete_task 0 two_tasks) ≡ task_1 ∷ []
    none_deleted : storage.get_tasks (storage.delete_task 10000 two_tasks) ≡ task_0 ∷ task_1 ∷ []
    second_deleted : storage.get_tasks one_left ≡ task_0 ∷ []
    both_deleted : storage.get_tasks (storage.delete_task 0 one_left) ≡ []
    third_created : (storage.create_task payload one_left).0 ≡ task_2
    third_kept : storage.get_tasks added_third ≡ task_0 ∷ task_2 ∷ []
    third_left : storage.get_tasks (storage.delete_task 0 added_third) ≡ task_2 ∷ []

  Required-manipulate_storage : manipulate_storage storage s ≡ true → Required
  Required-manipulate_storage passes =
      let (h₇, delete_one) = and_both _ (delete_task_1 storage two_tasks) passes in
      let (h₆, missing) = and_both _ (delete_missing storage two_tasks) h₇ in
      let (h₅, delete_zero) = and_both _ (delete_task_0 storage two_tasks) h₆ in
      let (h₄, get_thousand) = and_both _ (get_task_1000 storage two_tasks) h₅ in
      let (h₃, get_zero) = and_both _ (get_task_0 storage two_tasks) h₄ in
      let (h₂, kept) =
        and_both _ (tasks_eq (storage.get_tasks two_tasks) (task_0 ∷ task_1 ∷ [])) h₃ in
      let (first, second) =
        and_both _ (task_eq (storage.create_task new_payload one_task).0 task_1) h₂ in
      let (deletes, third) = and_both _ (add_task_3 storage one_left) delete_one in
      let (one, none_left) = and_both _ (delete_both storage one_left) deletes in
      let (third_there, last) =
        and_both _ (tasks_eq (storage.get_tasks (storage.delete_task 0 added_third)) (task_2 ∷ []))
          third in
      let (third_new, third_listed) =
        and_both _ (tasks_eq (storage.get_tasks added_third) (task_0 ∷ task_2 ∷ [])) third_there in
      record {
        first_created = (task_eq_iff _ task_0).0 first;
        second_created = (task_eq_iff _ task_1).0 second;
        both_kept = (tasks_eq_iff _ (task_0 ∷ task_1 ∷ [])).0 kept;
        first_found = (value_eq_iff _ task_0).0 get_zero;
        none_found = (has_no_value_iff _).0 get_thousand;
        first_deleted = (tasks_eq_iff _ (task_1 ∷ [])).0 delete_zero;
        none_deleted = (tasks_eq_iff _ (task_0 ∷ task_1 ∷ [])).0 missing;
        second_deleted = (tasks_eq_iff _ (task_0 ∷ [])).0 one;
        both_deleted = (tasks_eq_iff _ []).0 none_left;
        third_created = (task_eq_iff _ task_2).0 third_new;
        third_kept = (tasks_eq_iff _ (task_0 ∷ task_2 ∷ [])).0 third_listed;
        third_left = (tasks_eq_iff _ (task_2 ∷ [])).0 last;
      }

  manipulate_storage-Required : Required → manipulate_storage storage s ≡ true
  manipulate_storage-Required r = rw (
    r.first_created, r.second_created, r.both_kept, r.first_found, r.none_found, r.first_deleted,
    r.none_deleted, r.second_deleted, r.both_deleted, r.third_created, r.third_kept, r.third_left,
  )

  abbrev pub KeepsContract : List Call → Type 0
  KeepsContract cs = (run storage cs s).0 ≡ (run abstract_storage cs nothing_stored).0

  scripts-Required : Required → All KeepsContract scripts
  scripts-Required r = (
    rw (r.first_created, r.second_created, r.both_kept, r.first_found, r.none_found),
    (
      rw (r.first_created, r.second_created, r.first_deleted),
      (
        rw (r.first_created, r.second_created, r.none_deleted),
        (
          rw (r.first_created, r.second_created, r.second_deleted, r.both_deleted),
          (rw (r.first_created, r.second_created, r.third_created, r.third_kept, r.third_left), tt),
        ),
      ),
    ),
  )

  Required-scripts : All KeepsContract scripts → Required
  Required-scripts (kept, (first, (missing, (none_left, (third, _))))) = record {
    first_created = cc kept;
    second_created = cc kept;
    both_kept = cc kept;
    first_found = cc kept;
    none_found = cc kept;
    first_deleted = cc first;
    none_deleted = cc missing;
    second_deleted = cc none_left;
    both_deleted = cc none_left;
    third_created = cc third;
    third_kept = cc third;
    third_left = cc third;
  }

  -- A storage passes the test of every storage exactly if it gives the replies of the abstract
  -- storage that holds nothing to each of the five sequences of calls that the test makes.
  pub manipulate_storage_iff : (manipulate_storage storage s ≡ true) ↔ All KeepsContract scripts
  manipulate_storage_iff = (
    λ passes. scripts-Required (Required-manipulate_storage passes),
    λ keeps. manipulate_storage-Required (Required-scripts keeps),
  )

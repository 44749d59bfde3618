-- ===== src/Backend/Handled.antt =====
-- What the four handlers of src/libraries/backend/server/server.cpp make of a request, in terms of
-- Spec.
use just_queue_it.Base.{Bytes, ◌≡◌, refl, ◌∙◌, Option, none, some, inl, inr}
use just_queue_it.Base.Equality.{bytes_equality}
use just_queue_it.Base.Exec.{Exec, Outcome, returned, thrown}
use just_queue_it.Base.Map.{lookup}
use just_queue_it.Core.{Method, method_equality, Request, Response}
use just_queue_it.Core.Codes.{ok, bad_request, internal_server_error}
use just_queue_it.Core.Content.{ContentType, text_plain, application_json}
use just_queue_it.Query.{Params}
use just_queue_it.Task.{Task}
use just_queue_it.Storage.Spec.{found}
use just_queue_it.TasksManager
use just_queue_it.TasksManager.{TasksManager}
use just_queue_it.Router.{call_handler, respond}
use just_queue_it.Endpoint.{
  SerializableResponse, no_body, json_body, wrap, with_ok, finish, serialize,
}
use just_queue_it.Endpoint.Branches.{wrap-thrown, wrap_throws}
use just_queue_it.Endpoint.Keeps.{Outcome-cases}
use just_queue_it.Backend.{
  Json, list_tasks, create_task, get_task, delete_task, status_for, task_id,
}
use just_queue_it.Backend.Table.{tasks_handlers, task_handlers}
use just_queue_it.Backend.Spec.{Wanted, tasks_wanted, task_wanted, replied, perform, reply_status}

-- An answer that is not an exception.
abbrev pub answers : {S : Type 0} → Response × S → Outcome Response × S
answers (response, s) = (returned response, s)

module _ {S A R : Type 0} (decode : Request → Outcome A) (write : R → Bytes)
    (handler : A → Params → Exec S (SerializableResponse R)) (req : Request) (params : Params) where
  finish-replied :
      (accept : ContentType) (res : SerializableResponse R) (s : S)
      → req.accept_content_type ≡ accept
      → finish write req res s ≡ (returned (replied accept res.status_code (write res.body)), s)
  unfolding finish serialize
  finish-replied application_json res s e = rw e
  finish-replied text_plain res s e = rw e

  wrap-replied :
      (a : A) (res : SerializableResponse R) (s t : S)
      → decode req ≡ returned a
      → handler a params s ≡ (returned res, t)
      → call_handler req params (some (wrap decode write handler)) s
        ≡ (returned (replied req.accept_content_type res.status_code (write res.body)), t)
  unfolding wrap call_handler
  wrap-replied a res s t d h = rw (d, wrap, h, finish-replied req.accept_content_type res t refl)

  wrap-refused :
      (what : Bytes) (s : S)
      → decode req ≡ thrown what
      → call_handler req params (some (wrap decode write handler)) s
        ≡ (returned (respond bad_request what), s)
  unfolding call_handler
  wrap-refused what s d = rw (wrap-thrown decode write handler req params s what d)

  wrap_fails :
      (a : A) (what : Bytes) (s : S)
      → decode req ≡ returned a
      → handler a params s ≡ (thrown what, s)
      → call_handler req params (some (wrap decode write handler)) s
        ≡ (returned (respond internal_server_error what), s)
  unfolding call_handler
  wrap_fails a what s d h = rw (wrap_throws decode write handler req params s a what s d h)

module _ {S : Type 0} (json : Json) (manager : TasksManager S) (req : Request)
    (params : Params) where
  abbrev pub performed : Wanted → S → Outcome Response × S
  performed w s = answers (perform json manager.storage req.accept_content_type w s)

  pub tasks-performed :
      (method : Method) (s : S)
      → call_handler req params (lookup method (tasks_handlers json manager)) s
        ≡ performed (tasks_wanted method (json_body json.read_payload req)) s
  unfolding list_tasks create_task with_ok call_handler TasksManager.get_tasks
      TasksManager.create_task
  tasks-performed Method.get s =
      wrap-replied no_body json.write_tasks (with_ok (list_tasks json manager)) req params tt
        (record { status_code = ok; body = manager.storage.get_tasks s }) s s refl refl
  tasks-performed Method.post s = elim (Outcome-cases (json_body json.read_payload req)) [
    | inl (what, e) ↦
        wrap-refused (json_body json.read_payload) json.write_task
          (with_ok (create_task json manager)) req params what s e
        ∙ rw e
    | inr (payload, e) ↦
        wrap-replied (json_body json.read_payload) json.write_task
          (with_ok (create_task json manager)) req params payload
          (record { status_code = ok; body = (manager.storage.create_task payload s).0 }) s
          (manager.storage.create_task payload s).1 e refl
        ∙ rw e
  ]
  tasks-performed _ s = refl

  reply_status-found : (o : Option Task) → status_for o ≡ reply_status (found o)
  reply_status-found none = refl
  reply_status-found (some task) = refl

  pub task-performed :
      (method : Method) (s : S)
      → call_handler req params (lookup method (task_handlers json manager)) s
        ≡ performed (task_wanted method (task_id params)) s
  unfolding get_task delete_task with_ok call_handler TasksManager.get_task TasksManager.delete_task
  task-performed Method.get s = elim (Outcome-cases (task_id params)) [
    | inl (what, e) ↦
        wrap_fails no_body json.write_optional (get_task json manager) req params tt what s refl
          (rw e)
        ∙ rw e
    | inr (id, e) ↦
        let o = manager.storage.get_task id s in
        wrap-replied no_body json.write_optional (get_task json manager) req params tt
          (record { status_code = status_for o; body = o }) s s refl (rw e)
        ∙ rw (e, reply_status-found o)
  ]
  task-performed Method.delete s = elim (Outcome-cases (task_id params)) [
    | inl (what, e) ↦
        wrap_fails no_body (λ n. json.write_none) (with_ok (delete_task json manager)) req params tt
          what s refl (rw e)
        ∙ rw e
    | inr (id, e) ↦
        wrap-replied no_body (λ n. json.write_none) (with_ok (delete_task json manager)) req params
          tt (record { status_code = ok; body = tt }) s (manager.storage.delete_task id s) refl
          (rw e)
        ∙ rw e
  ]
  task-performed _ s = refl

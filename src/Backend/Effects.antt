-- ===== src/Backend/Effects.antt =====
-- What a request may do to the in-memory storage behind the service, and what storages requests lead
-- to.
use mathlib.Core.List.{Memᴰ}
use just_queue_it.Base.{
  ℕ, zero, suc, ◌+◌, ◌<◌, ◌≤◌, ◌≡◌, refl, ap, some, List, inl, inr, Bytes, ◌⊎◌, arith,
}
use just_queue_it.Base.Map.{lookup}
use just_queue_it.Core.{Method, method_equality, get, post, delete, Request}
use just_queue_it.Query.{Params}
use just_queue_it.Task.{TaskPayload}
use just_queue_it.Storage
use just_queue_it.Storage.{InMemoryStorage, size_max, empty}
use just_queue_it.Storage.Validity.{
  IsValid, empty-IsValid, create_task-IsValid, delete_task-IsValid,
}
use just_queue_it.TasksManager
use just_queue_it.Router.{Handler, RouteInfo, Routes}
use just_queue_it.Router.Choice.{IsIteration}
use just_queue_it.Router.Keeps.{Keeps, route-Keeps}
use just_queue_it.Endpoint.{no_body, json_body, wrap, with_ok}
use just_queue_it.Endpoint.Keeps.{Outcome-cases, wrap-Keeps, with_ok-Keeps}
use just_queue_it.Backend.{Json, list_tasks, create_task, get_task, delete_task, task_id}
use just_queue_it.Backend.Table.{table, tasks_handlers, task_handlers, tasks_info, task_info}
use just_queue_it.Backend.Journey.{tasks_manager}
use just_queue_it.Backend.Service.{service, service-table}

-- The storage is as before, or one task has been created, or one id deleted.
abbrev pub IsOneCall : InMemoryStorage → InMemoryStorage → Type 0
IsOneCall s t =
    (t ≡ s)
    ⊎ (((payload : TaskPayload) × (t ≡ (Storage.create_task payload s).1))
        ⊎ ((id : ℕ) × (t ≡ Storage.delete_task id s)))

pub unchanged : (s : InMemoryStorage) → IsOneCall s s
unchanged s = inl refl

module _ (json : Json) where
  list_tasks-Keeps :
      (body : Unit) (params : Params) → Keeps IsOneCall (list_tasks json tasks_manager body params)
  unfolding list_tasks
  list_tasks-Keeps body params s = inl refl

  create_task-Keeps :
      (payload : TaskPayload) (params : Params)
      → Keeps IsOneCall (create_task json tasks_manager payload params)
  unfolding create_task TasksManager.create_task
  create_task-Keeps payload params s = inr (inl (payload, refl))

  get_task-Keeps :
      (body : Unit) (params : Params) → Keeps IsOneCall (get_task json tasks_manager body params)
  unfolding get_task
  get_task-Keeps body params s = elim (Outcome-cases (task_id params)) [
    | inl (what, e) ↦ rw (e, get_task) (inl refl)
    | inr (id, e) ↦ rw (e, get_task) (inl refl)
  ]

  delete_task-Keeps :
      (body : Unit) (params : Params) → Keeps IsOneCall (delete_task json tasks_manager body params)
  unfolding delete_task TasksManager.delete_task
  delete_task-Keeps body params s = elim (Outcome-cases (task_id params)) [
    | inl (what, e) ↦ rw (e, delete_task) (inl refl)
    | inr (id, e) ↦ rw (e, delete_task) (inr (inr (id, refl)))
  ]

  tasks_handlers-Keeps :
      (method : Method) (h : Handler InMemoryStorage) (req : Request) (params : Params)
      → lookup method (tasks_handlers json tasks_manager) ≡ some h
      → Keeps IsOneCall (h req params)
  tasks_handlers-Keeps get h req params e =
      let same : wrap no_body json.write_tasks (with_ok (list_tasks json tasks_manager)) ≡ h = cc in
      rw (← same) (
        wrap-Keeps IsOneCall unchanged no_body json.write_tasks
          (with_ok (list_tasks json tasks_manager)) req params
          (λ a.
            with_ok-Keeps IsOneCall unchanged (list_tasks json tasks_manager) a params
              (list_tasks-Keeps a params)))
  tasks_handlers-Keeps post h req params e =
      let read = json_body json.read_payload in
      let same : wrap read json.write_task (with_ok (create_task json tasks_manager)) ≡ h = cc in
      rw (← same) (
        wrap-Keeps IsOneCall unchanged read json.write_task
          (with_ok (create_task json tasks_manager)) req params
          (λ a.
            with_ok-Keeps IsOneCall unchanged (create_task json tasks_manager) a params
              (create_task-Keeps a params)))
  tasks_handlers-Keeps _ h req params e = cc

  task_handlers-Keeps :
      (method : Method) (h : Handler InMemoryStorage) (req : Request) (params : Params)
      → lookup method (task_handlers json tasks_manager) ≡ some h
      → Keeps IsOneCall (h req params)
  task_handlers-Keeps get h req params e =
      let same : wrap no_body json.write_optional (get_task json tasks_manager) ≡ h = cc in
      rw (← same) (
        wrap-Keeps IsOneCall unchanged no_body json.write_optional (get_task json tasks_manager) req
          params (λ a. get_task-Keeps a params))
  task_handlers-Keeps delete h req params e =
      let write : Unit → Bytes = λ n. json.write_none in
      let same : wrap no_body write (with_ok (delete_task json tasks_manager)) ≡ h = cc in
      rw (← same) (
        wrap-Keeps IsOneCall unchanged no_body write (with_ok (delete_task json tasks_manager)) req
          params
          (λ a.
            with_ok-Keeps IsOneCall unchanged (delete_task json tasks_manager) a params
              (delete_task-Keeps a params)))
  task_handlers-Keeps _ h req params e = cc

  entries-Keep :
      (req : Request) (p : Bytes) (info : RouteInfo InMemoryStorage) (h : Handler InMemoryStorage)
      (ps : Params)
      → Memᴰ (p, info) (table json tasks_manager)
      → lookup req.method info.handlers ≡ some h
      → Keeps IsOneCall (h req ps)
  entries-Keep req p info h ps (Memᴰ.head e) found =
      let same : info ≡ tasks_info json tasks_manager =
        ap (λ (x : Bytes × RouteInfo InMemoryStorage). x.1) e in
      tasks_handlers-Keeps req.method h req ps (rw same at found)
  entries-Keep req p info h ps (Memᴰ.tail (Memᴰ.head e)) found =
      let same : info ≡ task_info json tasks_manager =
        ap (λ (x : Bytes × RouteInfo InMemoryStorage). x.1) e in
      task_handlers-Keeps req.method h req ps (rw same at found)
  entries-Keep req p info h ps (Memᴰ.tail (Memᴰ.tail m)) found = elim m [ ]

  module _ {iterate : Routes InMemoryStorage → List (Bytes × RouteInfo InMemoryStorage)}
      (it : IsIteration iterate) where
    -- A request, whatever it holds, leaves the storage as it was, or creates one task in it, or
    -- deletes one id: it makes at most one call that changes the storage.
    pub service-IsOneCall :
        (req : Request) (s : InMemoryStorage) → IsOneCall s (service json tasks_manager it req s).1
    service-IsOneCall req s =
        rw (service-table json tasks_manager it req)
          (route-Keeps IsOneCall unchanged it (table json tasks_manager) req (entries-Keep req) s)

    -- The storages that a number of requests lead to from the empty one, in whatever order the
    -- connections bring them: each request makes at most one call, which holds the lock.
    pub data Reaches : ℕ → InMemoryStorage → Type 0 where
      start : Reaches 0 empty
      next :
          {n : ℕ} {s : InMemoryStorage} (req : Request)
          → Reaches n s
          → Reaches (suc n) (service json tasks_manager it req s).1

    pub one_call-IsValid :
        (s t : InMemoryStorage)
        → IsOneCall s t
        → IsValid s
        → s.next_id + 1 < size_max
        → IsValid t × (t.next_id ≤ s.next_id + 1)
    unfolding Storage.create_task Storage.delete_task
    one_call-IsValid s t (inl e) v h = rw e (v, omega arith)
    one_call-IsValid s t (inr (inl (payload, e))) v h =
        rw e (create_task-IsValid payload s v h, omega arith)
    one_call-IsValid s t (inr (inr (id, e))) v h = rw e (delete_task-IsValid id s v, ground arith)

    -- While there have been fewer requests than `size_t` has values, every storage that requests
    -- lead to from the empty one is valid, and has handed out no more ids than there were requests.
    pub reached-IsValid :
        (n : ℕ) (s : InMemoryStorage) → Reaches n s → n < size_max → IsValid s × (s.next_id ≤ n)
    reached-IsValid zero s start h = (empty-IsValid, omega arith)
    reached-IsValid (suc n) t (next {s = s} req r) h =
        let (valid, ids) = reached-IsValid n s r (omega arith) in
        let (kept, grown) =
          one_call-IsValid s (service json tasks_manager it req s).1 (service-IsOneCall req s) valid
            (omega arith) in
        (kept, omega arith)

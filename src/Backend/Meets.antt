-- ===== src/Backend/Meets.antt =====
-- The service of src/libraries/backend/server/server.cpp against its description in Spec.
use just_queue_it.Base.{
  Bytes, codes, bytes_eq, bytes_eq_iff, true, ◌≡◌, ◌≢◌, refl, ap, ◌∙◌, Option, none, some, List, [],
  ◌∷◌, ◌++◌, inl, inr, Bool-cases, All, ◌↔◌, arith,
}
use just_queue_it.Base.Equality.{bytes_equality}
use just_queue_it.Base.Exec.{Exec}
use just_queue_it.Base.Map.{insert}
use just_queue_it.Core.{method_equality, Request, Response}
use just_queue_it.Core.Codes.{not_found}
use just_queue_it.Core.Content.{ContentType, text_plain, application_json}
use just_queue_it.Pattern.{in_segment}
use just_queue_it.Pattern.Token.{IsSegment}
use just_queue_it.Query.{Params, parse_params}
use just_queue_it.TasksManager.{TasksManager}
use just_queue_it.Router.{RouteInfo, Routes}
use just_queue_it.Router.Choice.{IsIteration}
use just_queue_it.Endpoint.{json_body, deserialize}
use just_queue_it.Backend.{Json, tasks_path}
use just_queue_it.Backend.Number.{stoull}
use just_queue_it.Backend.Table.{task_url, route-tasks, route-task}
use just_queue_it.Backend.Service.{service, service-table, service-other, task_id-insert}
use just_queue_it.Backend.Spec.{
  Wanted, refused, tasks_wanted, task_wanted, behind, no_slash, is_segment, segment_wanted,
  payload_in, wanted, perform,
}
use just_queue_it.Backend.Handled.{answers, performed, tasks-performed, task-performed}

no_slash-in_segment : (v : Bytes) → All (λ c. in_segment c ≡ true) v ↔ (no_slash v ≡ true)
no_slash-in_segment [] = (λ h. refl, λ h. tt)
no_slash-in_segment (c ∷ v) = ground (arith, no_slash-in_segment v)

is_segment_iff : (v : Bytes) → IsSegment v ↔ (is_segment v ≡ true)
is_segment_iff [] = (λ h. absurd (h.0 refl), λ h. cc)
is_segment_iff (c ∷ v) =
    (λ h. (no_slash-in_segment (c ∷ v)).0 h.1, λ h. (λ e. cc, (no_slash-in_segment (c ∷ v)).1 h))

behind-append : (prefix text : Bytes) → behind prefix (prefix ++ text) ≡ some text
behind-append [] text = refl
behind-append (p ∷ prefix) text = ground (arith, behind-append prefix text)

behind_sound : (prefix url text : Bytes) → behind prefix url ≡ some text → url ≡ prefix ++ text
behind_sound [] url text e = cc
behind_sound (p ∷ prefix) [] text e = cc
behind_sound (p ∷ prefix) (c ∷ url) text e = ground (arith, behind_sound prefix url text)

module _ {S : Type 0} (json : Json) (manager : TasksManager S)
    {iterate : Routes S → List (Bytes × RouteInfo S)} (it : IsIteration iterate) (req : Request)
    (s : S) where
  abbrev url : Bytes
  url = (parse_params req.path).1

  abbrev params : Params
  params = (parse_params req.path).0

  abbrev Meets : Wanted → Type 0
  Meets w = service json manager it req s ≡ performed json manager req params w s

  same_payload :
      (type : ContentType)
      → req.content_type ≡ type
      → json_body json.read_payload req ≡ payload_in json type req.body
  unfolding deserialize
  same_payload application_json e = rw e
  same_payload text_plain e = rw e

  tasks-Meets :
      url ≡ tasks_path → Meets (tasks_wanted req.method (payload_in json req.content_type req.body))
  tasks-Meets e =
      let parsed : parse_params req.path ≡ (params, tasks_path) = ap (λ u. (params, u)) e in
      ap (λ (m : Exec S Response). m s)
        (service-table json manager it req ∙ route-tasks json manager it req params parsed)
      ∙ tasks-performed json manager req params req.method s
      ∙ ap (λ p. performed json manager req params (tasks_wanted req.method p) s)
          (same_payload req.content_type refl)

  task-Meets :
      (v : Bytes) → IsSegment v → url ≡ task_url v → Meets (task_wanted req.method (stoull v))
  task-Meets v segment e =
      let parsed : parse_params req.path ≡ (params, task_url v) = ap (λ u. (params, u)) e in
      ap (λ (m : Exec S Response). m s)
        (service-table json manager it req ∙ route-task json manager it req params v segment parsed)
      ∙ task-performed json manager req (insert (codes "id") v params) req.method s
      ∙ ap (λ n. performed json manager req params (task_wanted req.method n) s)
          (task_id-insert v params)

  no_task-Meets :
      url ≢ tasks_path
      → ((v : Bytes) → IsSegment v → url ≢ task_url v)
      → Meets (refused not_found [])
  no_task-Meets not_tasks no_task =
      ap (λ (m : Exec S Response). m s) (service-other json manager it req not_tasks no_task)

  same_segment : (v w : Bytes) → behind (codes "/tasks/") url ≡ some v → url ≡ task_url w → v ≡ w
  same_segment v w e u =
      let here = ap (behind (codes "/tasks/")) u ∙ behind-append (codes "/tasks/") w in cc

  segment-Meets :
      (o : Option Bytes)
      → behind (codes "/tasks/") url ≡ o
      → url ≢ tasks_path
      → Meets (segment_wanted req.method o)
  segment-Meets none e not_tasks = no_task-Meets not_tasks λ v segment u.
      let found = ap (behind (codes "/tasks/")) u ∙ behind-append (codes "/tasks/") v in cc
  segment-Meets (some v) e not_tasks =
      let u = behind_sound (codes "/tasks/") url v e in
      elim (Bool-cases (is_segment v)) [
        | inl segment ↦ rw segment (task-Meets v ((is_segment_iff v).1 segment) u)
        | inr other ↦ rw other (
            no_task-Meets not_tasks λ w segment there.
              let whole = (is_segment_iff w).0 segment in let same = same_segment v w e there in cc)
      ]

  -- The service, with its router and its wrappers, and over any storage, does what its description
  -- says: a request makes the call of the storage that it asks for, and its answer is the reply as
  -- JSON, or the refusal of plain text; or it is refused without a call; and no exception is left.
  pub service-perform :
      service json manager it req s
      ≡ answers (perform json manager.storage req.accept_content_type (wanted json req) s)
  unfolding wanted
  service-perform = elim (Bool-cases (bytes_eq url tasks_path)) [
    | inl is_tasks ↦ rw is_tasks (tasks-Meets ((bytes_eq_iff url tasks_path).0 is_tasks))
    | inr other ↦ rw other (
        segment-Meets (behind (codes "/tasks/") url) refl
          λ e. let same = (bytes_eq_iff url tasks_path).1 e in cc)
  ]

-- ===== src/Backend/Order.antt =====
-- The service does not depend on the order in which the table of routes is iterated.
use just_queue_it.Base.{Bytes, ◌≡◌, sym, ◌∙◌, List, inl, inr}
use just_queue_it.Core.{Request}
use just_queue_it.Query.{parse_params}
use just_queue_it.TasksManager.{TasksManager}
use just_queue_it.Router.{RouteInfo, Routes}
use just_queue_it.Router.Choice.{IsIteration}
use just_queue_it.Router.Order.{IsUnambiguous, route-order}
use just_queue_it.Backend.{Json}
use just_queue_it.Backend.Table.{table, entry_cases, differ}
use just_queue_it.Backend.Service.{service, service-table}

module _ {S : Type 0} (json : Json) (manager : TasksManager S) where
  pub table-IsUnambiguous : (url : Bytes) → IsUnambiguous url (table json manager)
  table-IsUnambiguous url d e m n fits hit = elim (entry_cases json manager url d m fits) [
    | inl (is_d, at_d) ↦ elim (entry_cases json manager url e n hit) [
      | inl (is_e, _) ↦ is_d ∙ sym is_e
      | inr (_, (v, _, at_e)) ↦ absurd (differ v (sym at_e ∙ at_d))
    ]
    | inr (is_d, (v, _, at_d)) ↦ elim (entry_cases json manager url e n hit) [
      | inl (_, at_e) ↦ absurd (differ v (sym at_d ∙ at_e))
      | inr (is_e, _) ↦ is_d ∙ sym is_e
    ]
  ]

  -- Whatever the order in which the table is iterated, a request gets the same answer and leaves the
  -- same state.
  pub service-order :
      {iterate other : Routes S → List (Bytes × RouteInfo S)} (it : IsIteration iterate)
      (jt : IsIteration other) (req : Request)
      → service json manager it req ≡ service json manager jt req
  service-order it jt req =
      service-table json manager it req
      ∙ route-order it jt (table json manager) (table json manager) req (λ e. (λ m. m, λ m. m))
          (table-IsUnambiguous (parse_params req.path).1)
      ∙ sym (service-table json manager jt req)

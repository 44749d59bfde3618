-- ===== src/Router/Order.antt =====
-- When the order in which `m_routes` is iterated does not matter.
use mathlib.Core.List.{Memᴰ}
use just_queue_it.Base.{Bytes, ◌≡◌, ◌↔◌, sym, ◌∙◌, Option, none, some, List, inl, inr}
use just_queue_it.Core.{Request}
use just_queue_it.Query.{parse_params}
use just_queue_it.Router.{RouteInfo, Routes, route}
use just_queue_it.Router.Choice.{IsIteration, Matches, route-cases, route-chosen, route-not_found}

-- At most one entry of the table matches the URL.
abbrev pub IsUnambiguous : {S : Type 0} → Bytes → Routes S → Type 0
IsUnambiguous {S} url routes =
    (d e : Bytes × RouteInfo S)
    → Memᴰ d routes
    → Memᴰ e routes
    → Matches url d
    → Matches url e
    → d ≡ e

module _ {S : Type 0} {iterate other : Routes S → List (Bytes × RouteInfo S)}
    (it : IsIteration iterate) (jt : IsIteration other) where
  -- Two tables have the same entries, in whatever order, each is iterated in an order of its own, and
  -- at most one entry matches the path of the request without its query. Then both give the request
  -- the same answer and leave the same state.
  pub route-order :
      (routes others : Routes S) (req : Request)
      → ((e : Bytes × RouteInfo S) → Memᴰ e routes ↔ Memᴰ e others)
      → IsUnambiguous (parse_params req.path).1 routes
      → route iterate routes req ≡ route other others req
  route-order routes others req same one = elim (route-cases it routes req) [
    | inl (missed, e) ↦ e ∙ sym (route-not_found jt others req (λ x m. missed x ((same x).1 m)))
    | inr (p, info, texts, m, hit, e) ↦
        e
        ∙ sym (
            route-chosen jt others req p info texts ((same (p, info)).0 m) hit
              (λ x n fits. one x (p, info) ((same x).1 n) m fits (λ miss. hit_none miss hit)))
  ]
    where
      hit_none : {A : Type 0} {a : A} {o : Option A} → o ≡ none → o ≡ some a → ⊥
      hit_none miss hit = cc

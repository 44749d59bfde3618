-- ===== src/Router/Choice.antt =====
-- Which entry of the table serves a request, in whatever order the container is iterated.
use mathlib.Core.List.{Memᴰ}
use just_queue_it.Base.{
  Bytes, ◌≡◌, ◌≢◌, ◌↔◌, ◌⊎◌, inl, inr, refl, ap, ◌∙◌, none, some, List, [], ◌∷◌, Option-cases,
}
use just_queue_it.Base.Exec.{Exec, pure}
use just_queue_it.Core.{method_equality, Request, Response}
use just_queue_it.Core.Codes.{not_found}
use just_queue_it.Pattern.{match_pieces}
use just_queue_it.Query.{Params, parse_params}
use just_queue_it.Router.{RouteInfo, Routes, respond, serve_match, route_loop, route}

pub mem-tail : {A : Type 0} {a x : A} {xs : List A} → Memᴰ a (x ∷ xs) → a ≢ x → Memᴰ a xs
mem-tail (Memᴰ.head e) h = absurd (h e)
mem-tail (Memᴰ.tail m) h = m

module _ {S : Type 0} where
  -- An iteration over a container visits its entries and no others.
  pub record IsIteration (iterate : Routes S → List (Bytes × RouteInfo S)) : Type 0 where
    pub visits :
        (routes : Routes S) (e : Bytes × RouteInfo S) → Memᴰ e (iterate routes) ↔ Memᴰ e routes

  abbrev pub Matches : Bytes → Bytes × RouteInfo S → Type 0
  Matches url (_, info) = match_pieces info.pattern url ≢ none

  -- What one entry makes of a request.
  abbrev pub served : Request → RouteInfo S → List Bytes → Exec S Response
  served req info texts = serve_match req (parse_params req.path).0 info texts

  module _ (req : Request) (url : Bytes) (params : Params) where
    route_loop-not_found :
        (entries : List (Bytes × RouteInfo S))
        → ((e : Bytes × RouteInfo S) → Memᴰ e entries → ¬ Matches url e)
        → route_loop req url params entries ≡ pure (respond not_found [])
    unfolding route_loop
    route_loop-not_found [] h = refl
    route_loop-not_found ((p, info) ∷ rest) h =
        elim (Option-cases (match_pieces info.pattern url)) [
          | inl e ↦ rw (e, route_loop) (route_loop-not_found rest (λ x m. h x (Memᴰ.tail m)))
          | inr (texts, e) ↦ absurd (h (p, info) (Memᴰ.head refl) (cc))
        ]

    route_loop-chosen :
        (entries : List (Bytes × RouteInfo S)) (p : Bytes) (info : RouteInfo S) (texts : List Bytes)
        → Memᴰ (p, info) entries
        → match_pieces info.pattern url ≡ some texts
        → ((e : Bytes × RouteInfo S) → Memᴰ e entries → Matches url e → e ≡ (p, info))
        → route_loop req url params entries ≡ serve_match req params info texts
    unfolding route_loop
    route_loop-chosen [] p info texts m e only = elim m [ ]
    route_loop-chosen ((q, other) ∷ rest) p info texts m e only =
        elim (Option-cases (match_pieces other.pattern url)) [
          | inl missed ↦
              let not_here : (p, info) ≢ (q, other) = λ (same : (p, info) ≡ (q, other)).
                let o : info ≡ other = ap (λ (x : Bytes × RouteInfo S). x.1) same in
                let there : match_pieces info.pattern url ≡ none =
                  ap (λ (i : RouteInfo S). match_pieces i.pattern url) o ∙ missed in
                cc in
              rw (missed, route_loop)
                (route_loop-chosen rest p info texts (mem-tail m not_here) e
                  (λ x n. only x (Memᴰ.tail n)))
          | inr (found, hit) ↦
              let o : other ≡ info =
                ap (λ (x : Bytes × RouteInfo S). x.1) (only (q, other) (Memᴰ.head refl) (cc)) in
              let f : found ≡ texts = cc (ap (λ (i : RouteInfo S). match_pieces i.pattern url) o) in
              rw (hit, route_loop) (rw (o, f))
        ]

    -- Either no entry of the list matches, or the first that does serves the request.
    pub route_loop-cases :
        (entries : List (Bytes × RouteInfo S))
        → (((e : Bytes × RouteInfo S) → Memᴰ e entries → ¬ Matches url e)
            × (route_loop req url params entries ≡ pure (respond not_found [])))
          ⊎ ((p : Bytes) × (info : RouteInfo S) × (texts : List Bytes) × Memᴰ (p, info) entries
              × (match_pieces info.pattern url ≡ some texts)
              × (route_loop req url params entries ≡ serve_match req params info texts))
    unfolding route_loop
    route_loop-cases [] = inl ((λ e m. elim m [ ]), refl)
    route_loop-cases ((q, other) ∷ rest) = elim (Option-cases (match_pieces other.pattern url)) [
      | inl missed ↦ elim (route_loop-cases rest) [
        | inl (nothing, e) ↦ inl (
          (λ x m. λ hit.
              nothing x
                (mem-tail m (λ same.
                  let o : x.1 ≡ other = ap (λ (y : Bytes × RouteInfo S). y.1) same in
                  hit (ap (λ (i : RouteInfo S). match_pieces i.pattern url) o ∙ missed)))
                hit),
          rw (missed, route_loop) e,
        )
        | inr (p, info, texts, m, hit, e) ↦
            inr (p, info, texts, Memᴰ.tail m, hit, rw (missed, route_loop) e)
      ]
      | inr (texts, hit) ↦ inr (q, other, texts, Memᴰ.head refl, hit, rw (hit, route_loop))
    ]

  module _ {iterate : Routes S → List (Bytes × RouteInfo S)} (it : IsIteration iterate)
      (routes : Routes S) (req : Request) where
    -- If one entry matches the path of the request without its query, and every entry that does is
    -- that one, then it serves the request, whatever the order of the iteration.
    pub route-chosen :
        (p : Bytes) (info : RouteInfo S) (texts : List Bytes)
        → Memᴰ (p, info) routes
        → match_pieces info.pattern (parse_params req.path).1 ≡ some texts
        → ((e : Bytes × RouteInfo S)
            → Memᴰ e routes
            → Matches (parse_params req.path).1 e
            → e ≡ (p, info))
        → route iterate routes req ≡ served req info texts
    unfolding route
    route-chosen p info texts m e only =
        route_loop-chosen req (parse_params req.path).1 (parse_params req.path).0 (iterate routes) p
          info texts ((it.visits routes (p, info)).1 m) e (λ x n. only x ((it.visits routes x).0 n))

    -- If the iteration visits the entries of the table and no others, in whatever order, then either
    -- no entry of the table matches, and the answer is 404 with an empty body and the state
    -- unchanged, or an entry that matches serves the request.
    pub route-cases :
        (((e : Bytes × RouteInfo S) → Memᴰ e routes → ¬ Matches (parse_params req.path).1 e)
          × (route iterate routes req ≡ pure (respond not_found [])))
        ⊎ ((p : Bytes) × (info : RouteInfo S) × (texts : List Bytes) × Memᴰ (p, info) routes
            × (match_pieces info.pattern (parse_params req.path).1 ≡ some texts)
            × (route iterate routes req ≡ served req info texts))
    unfolding route
    route-cases =
        elim (route_loop-cases req (parse_params req.path).1 (parse_params req.path).0
          (iterate routes)) [
            | inl (nothing, e) ↦ inl ((λ x m. nothing x ((it.visits routes x).1 m)), e)
            | inr (p, info, texts, m, hit, e) ↦
                inr (p, info, texts, (it.visits routes (p, info)).0 m, hit, e)
          ]

    -- If no entry matches, the answer is 404.
    pub route-not_found :
        ((e : Bytes × RouteInfo S) → Memᴰ e routes → ¬ Matches (parse_params req.path).1 e)
        → route iterate routes req ≡ pure (respond not_found [])
    unfolding route
    route-not_found nothing =
        route_loop-not_found req (parse_params req.path).1 (parse_params req.path).0
          (iterate routes) (λ x m. nothing x ((it.visits routes x).0 m))

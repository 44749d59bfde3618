-- ===== src/Router/Keeps.antt =====
-- What a request may do to the state: what the handler of an entry may do, or nothing.
use mathlib.Core.List.{Memᴰ}
use just_queue_it.Base.{
  Bytes, not, ◌≡◌, inl, inr, refl, Option, none, some, List, length, ◌==◌, Bool-cases,
}
use just_queue_it.Base.Exec.{Exec, Outcome, returned, thrown, pure, handled}
use just_queue_it.Base.Map.{lookup}
use just_queue_it.Core.{method_equality, Request, Response}
use just_queue_it.Core.Codes.{internal_server_error}
use just_queue_it.Query.{Params, parse_params}
use just_queue_it.Router.{
  Handler, RouteInfo, Routes, respond, bind_params, call_handler, serve_match, route,
}
use just_queue_it.Router.Choice.{IsIteration, route-cases}

module _ {S A : Type 0} (R : S → S → Type 0) where
  -- The state after the code is related to that before.
  abbrev pub Keeps : Exec S A → Type 0
  Keeps m = (s : S) → R s (m s).1

module _ {S : Type 0} (R : S → S → Type 0) (unchanged : (s : S) → R s s) where
  handled-state :
      (o : Outcome Response × S)
      → (handled (λ what. pure (respond internal_server_error what)) o).1 ≡ o.1
  handled-state (returned r, t) = refl
  handled-state (thrown what, t) = refl

  call_handler-Keeps :
      (req : Request) (params : Params) (handler : Option (Handler S))
      → ((h : Handler S) → handler ≡ some h → Keeps R (h req params))
      → Keeps R (call_handler req params handler)
  unfolding call_handler
  call_handler-Keeps req params none k s = unchanged s
  call_handler-Keeps req params (some h) k s = rw (handled-state (h req params s)) (k h refl s)

  serve_match-Keeps :
      (req : Request) (params : Params) (info : RouteInfo S) (texts : List Bytes)
      → ((h : Handler S) (ps : Params)
          → lookup req.method info.handlers ≡ some h
          → Keeps R (h req ps))
      → Keeps R (serve_match req params info texts)
  unfolding serve_match
  serve_match-Keeps req params info texts k s =
      elim (Bool-cases (not (length texts == length info.parameter_names))) [
        | inl e ↦ rw e (unchanged s)
        | inr e ↦
            let ps = bind_params info.parameter_names texts params in
            rw e (
              call_handler-Keeps req ps (lookup req.method info.handlers) (λ h found. k h ps found)
                s)
      ]

  -- If the handlers of all the entries keep a reflexive relation, so does `Route`.
  pub route-Keeps :
      {iterate : Routes S → List (Bytes × RouteInfo S)} (it : IsIteration iterate)
      (routes : Routes S) (req : Request)
      → ((p : Bytes) (info : RouteInfo S) (h : Handler S) (ps : Params)
          → Memᴰ (p, info) routes
          → lookup req.method info.handlers ≡ some h
          → Keeps R (h req ps))
      → Keeps R (route iterate routes req)
  route-Keeps it routes req k s = elim (route-cases it routes req) [
    | inl (nothing, e) ↦ rw e (unchanged s)
    | inr (p, info, texts, m, hit, e) ↦ rw e (
        serve_match-Keeps req (parse_params req.path).0 info texts
          (λ h ps found. k p info h ps m found) s)
  ]

-- ===== src/Router/Total.antt =====
-- `Route` turns each `std::exception` of a handler into a response. The model has no other exceptions
-- of handlers, which `Route` does not catch, and none of `std::regex_match`.
use just_queue_it.Base.{
  Bytes, codes, not, ◌≡◌, inl, inr, refl, ap, ◌∙◌, Option, none, some, List, [], length, ◌==◌,
  Bool-cases,
}
use just_queue_it.Base.Exec.{Exec, Outcome, returned, thrown, pure, handled}
use just_queue_it.Base.Map.{lookup}
use just_queue_it.Core.{method_equality, Request, Response}
use just_queue_it.Core.Codes.{internal_server_error, not_found}
use just_queue_it.Query.{Params, parse_params}
use just_queue_it.Router.{
  Handler, RouteInfo, Routes, respond, bind_params, call_handler, serve_match, route,
}
use just_queue_it.Router.Choice.{route_loop-cases}

module _ {S : Type 0} where
  abbrev pub Answers : Outcome Response × S → Type 0
  Answers o = (r : Response) × (o.0 ≡ returned r)

  handled_total :
      (o : Outcome Response × S)
      → Answers (handled (λ what. pure (respond internal_server_error what)) o)
  handled_total (returned r, t) = (r, refl)
  handled_total (thrown what, t) = (respond internal_server_error what, refl)

  call_handler_total :
      (req : Request) (params : Params) (handler : Option (Handler S)) (s : S)
      → Answers (call_handler req params handler s)
  unfolding call_handler
  call_handler_total req params none s = (_, refl)
  call_handler_total req params (some handler) s = handled_total (handler req params s)

  serve_match_total :
      (req : Request) (params : Params) (info : RouteInfo S) (texts : List Bytes) (s : S)
      → Answers (serve_match req params info texts s)
  unfolding serve_match
  serve_match_total req params info texts s =
      elim (Bool-cases (not (length texts == length info.parameter_names))) [
        | inl e ↦ (respond internal_server_error (codes "Internal server error"), rw e)
        | inr e ↦
            let (r, returns) =
              call_handler_total req (bind_params info.parameter_names texts params)
                (lookup req.method info.handlers) s in
            (r, rw e returns)
      ]

  -- `Route` returns a response from every state, for every table and request, where handlers throw
  -- nothing but `std::exception`s and `std::regex_match` throws nothing.
  pub route_total :
      (iterate : Routes S → List (Bytes × RouteInfo S)) (routes : Routes S) (req : Request) (s : S)
      → (r : Response) × ((route iterate routes req s).0 ≡ returned r)
  unfolding route
  route_total iterate routes req s =
      elim (route_loop-cases req (parse_params req.path).1 (parse_params req.path).0
        (iterate routes)) [
          | inl (nothing, e) ↦ (respond not_found [], ap (λ (m : Exec S Response). (m s).0) e)
          | inr (p, info, texts, m, hit, e) ↦
              let (r, returns) = serve_match_total req (parse_params req.path).0 info texts s in
              (r, ap (λ (m : Exec S Response). (m s).0) e ∙ returns)
        ]

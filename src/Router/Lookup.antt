-- ===== src/Router/Lookup.antt =====
-- A route that is added is found: `AddRoute` followed by `Route`.
use mathlib.Core.List.{Memᴰ}
use mathlib.Core.Bool.{false≢true}
use just_queue_it.Base.{
  Bytes, true, ◌≡◌, ◌≢◌, refl, sym, ap, ◌∙◌, none, some, List, inl, inr, bytes_eq, bytes_eq_iff,
  length, ◌==◌, Bool-cases, All, arith,
}
use just_queue_it.Base.Equality.{bytes_equality}
use just_queue_it.Base.Map.{Map, lookup, insert, lookup-insert}
use just_queue_it.Base.Map.Entries.{IsDistinct, lookup-mem, mem-lookup}
use just_queue_it.Core.{Method, method_equality, method_eq_iff, Request}
use just_queue_it.Pattern.{match_pieces}
use just_queue_it.Pattern.Token.{
  Token, render, names, pieces, fill, IsPlain, IsSegment, IsSeparated,
}
use just_queue_it.Pattern.Compile.{compile-full_regex, parameter_names-render}
use just_queue_it.Pattern.Match.{match_pieces-fill}
use just_queue_it.Query.{Params, parse_params}
use just_queue_it.Router.{
  Handler, RouteInfo, Routes, added, bind_params, handlers_of, call_handler, serve_match,
  add_route_impl, route,
}
use just_queue_it.Router.Choice.{IsIteration, Matches, route-chosen}
use just_queue_it.Router.Table.{IsTable, new_info, add_route_impl_lem, add_route_impl-IsTable}

module _ {S : Type 0} where
  pub serve_match_count :
      (req : Request) (params : Params) (info : RouteInfo S) (texts : List Bytes)
      → length texts ≡ length info.parameter_names
      → serve_match req params info texts
        ≡ call_handler req
            (bind_params info.parameter_names texts params)
            (lookup req.method info.handlers)
  unfolding serve_match
  serve_match_count req params info texts e =
      let counted : (length texts == length info.parameter_names) ≡ true = ground arith in
      rw counted

  -- No entry of another path matches the URL.
  abbrev pub IsOnly : Bytes → Bytes → Routes S → Type 0
  IsOnly path url routes =
      (p : Bytes) (info : RouteInfo S)
      → p ≢ path
      → lookup p routes ≡ some info
      → match_pieces info.pattern url ≡ none

  lookup-insert_self :
      (path : Bytes) (info : RouteInfo S) (routes : Routes S)
      → lookup path (insert path info routes) ≡ some info
  lookup-insert_self path info routes =
      let same = (bytes_eq_iff path path).1 refl in lookup-insert path path info routes ∙ rw same

  handler-insert_self :
      (method : Method) (handler : Handler S) (handlers : Map Method (Handler S))
      → lookup method (insert method handler handlers) ≡ some handler
  handler-insert_self method handler handlers =
      let same = (method_eq_iff method method).1 refl in
      lookup-insert method method handler handlers ∙ rw same

  -- The entry that was put in is the only one that matches.
  only_entry :
      (path url : Bytes) (info : RouteInfo S) (routes : Routes S)
      → IsDistinct (insert path info routes)
      → IsOnly path url routes
      → (x : Bytes × RouteInfo S) → Memᴰ x (insert path info routes)
      → Matches url x
      → x ≡ (path, info)
  only_entry path url info routes d only (p, i) m hit =
      let found = lookup-mem p i (insert path info routes) d m in
      let at_p = lookup-insert path p info routes in
      elim (Bool-cases (bytes_eq path p)) [
        | inl here ↦
            let key : path ≡ p = (bytes_eq_iff path p).0 here in
            let value : i ≡ info = ground arith in cc
        | inr other ↦
            let differs : p ≢ path =
              λ same. false≢true (sym other ∙ (bytes_eq_iff path p).1 (sym same)) in
            absurd (hit (only p i differs (ground arith)))
      ]

  -- The table has no path twice, and each of its entries has the regular expression and the parameter
  -- names of its own path (`IsTable`); its iteration visits its entries and no others. The path is plain, and is separated: a parameter
  -- stands at its end or has a slash behind it. It is added with a handler, and no other path of the
  -- table has a pattern that matches the URL. Then a request whose path, without its query, is the
  -- path with one segment in the place of each parameter, and whose method is that of the handler,
  -- is given to the handler, with the segments under the names of the parameters, over the parameters
  -- of the query.
  pub route-add_route_impl :
      {iterate : Routes S → List (Bytes × RouteInfo S)} (it : IsIteration iterate) (ts : List Token)
      (vs : List Bytes) (handler : Handler S) (routes routes' : Routes S) (req : Request)
      (params : Params)
      → IsTable routes
      → All IsPlain ts
      → IsSeparated ts
      → All IsSegment vs
      → length vs ≡ length (names ts)
      → IsOnly (render ts) (fill ts vs) routes
      → parse_params req.path ≡ (params, fill ts vs)
      → add_route_impl (render ts) req.method (some handler) routes ≡ added routes'
      → route iterate routes' req
        ≡ call_handler req (bind_params (names ts) vs params) (some handler)
  route-add_route_impl it ts vs handler routes routes' req params t plain sep segs count only parsed
        e =
      let (h, pattern, is_some, good, compiles, same) =
        add_route_impl_lem (render ts) req.method (some handler) routes routes' e in
      let same_h : handler ≡ h = cc in
      let same_pattern : pattern ≡ pieces ts = cc (compile-full_regex ts plain) in
      let t' = add_route_impl-IsTable (render ts) req.method (some handler) routes routes' t e in
      let info = new_info (render ts) req.method h routes pattern in
      let url : (parse_params req.path).1 ≡ fill ts vs = ap (λ (x : Params × Bytes). x.1) parsed in
      let query : (parse_params req.path).0 ≡ params = ap (λ (x : Params × Bytes). x.0) parsed in
      let its_names : info.parameter_names ≡ names ts = parameter_names-render ts plain in
      let chosen =
        route-chosen it routes' req (render ts) info vs
          (mem-lookup (render ts) info routes'
            (ap (lookup (render ts)) same ∙ lookup-insert_self (render ts) info routes))
          (rw (same_pattern, url) (match_pieces-fill ts vs sep segs count))
          (λ x m hit.
            only_entry (render ts) (fill ts vs) info routes (rw (← same) t'.distinct) only x
              (rw same at m) (rw url at hit)) in
      chosen
      ∙ serve_match_count req (parse_params req.path).0 info vs (count ∙ ap length (sym its_names))
      ∙ rw (
        query,
        its_names,
        handler-insert_self req.method h (handlers_of (lookup (render ts) routes)),
        same_h,
      )

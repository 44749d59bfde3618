-- ===== src/Router/Spec.antt =====
-- `AddRoute` and `Route` of src/libraries/rest/router with no regular expression and no table: the
-- paths that have been added, as text with parameters, and for each the handlers added last.
use mathlib.Core.List.{Memᴰ}
use mathlib.Core.Bool.{false≢true}
use just_queue_it.Base.{
  Bytes, bytes_eq, bytes_eq_iff, ◌≡◌, ◌≢◌, refl, sym, ap, ◌∙◌, ◌⊎◌, inl, inr, Bool-cases, Option,
  none, some, List, [], ◌∷◌, length, if◌then◌else◌, All, arith,
}
use just_queue_it.Base.Equality.{bytes_equality}
use just_queue_it.Base.Exec.{pure}
use just_queue_it.Base.Map.{lookup, insert, lookup-insert}
use just_queue_it.Base.Map.Entries.{lookup-mem, mem-lookup, All-mem}
use just_queue_it.Core.{Method, method_equality, method_eq, Request}
use just_queue_it.Core.Codes.{not_found}
use just_queue_it.Pattern.Token.{Token, render, names, pieces, fill, IsPlain, IsSegment}
use just_queue_it.Pattern.Compile.{compile-full_regex, parameter_names-render}
use just_queue_it.Pattern.Match.{match_pieces_sound, match_pieces_complete}
use just_queue_it.Query.{parse_params}
use just_queue_it.Router.{
  Handler, RouteInfo, Routes, added, respond, bind_params, handlers_of, call_handler,
  add_route_impl, route,
}
use just_queue_it.Router.Table.{
  IsEntry, IsTable, empty-IsTable, new_info, handler_at, add_route_impl_lem, add_route_impl-IsTable,
  handler_at-add_route_impl,
}
use just_queue_it.Router.Choice.{mem-tail, IsIteration, Matches, route-cases}
use just_queue_it.Router.Lookup.{serve_match_count}

-- A call of `AddRoute`, for a path of text and parameters.
pub record AddCall (S : Type 0) : Type 0 where
  pub tokens : List Token
  pub method : Method
  pub handler : Handler S

-- The URL is the path with segments in the places of the parameters.
abbrev pub Fits : List Token → Bytes → List Bytes → Type 0
Fits ts url vs = (url ≡ fill ts vs) × All IsSegment vs × (length vs ≡ length (names ts))

module _ {S : Type 0} where
  -- The table after the calls, the last one first.
  pub data Built : List (AddCall S) → Routes S → Type 0 where
    nothing : Built [] []
    one_more :
        {calls : List (AddCall S)} {routes routes' : Routes S} (c : AddCall S)
        → Built calls routes
        → add_route_impl (render c.tokens) c.method (some c.handler) routes ≡ added routes'
        → Built (c ∷ calls) routes'

  -- The handler that was added last for a path and a method.
  abbrev pub registered : List (AddCall S) → Bytes → Method → Option (Handler S)
  registered [] path method = none
  registered (c ∷ calls) path method =
      if bytes_eq (render c.tokens) path
      then if method_eq c.method method then some c.handler else registered calls path method
      else registered calls path method

  -- A path was added.
  abbrev IsAdded : List (AddCall S) → Bytes → Type 0
  IsAdded calls p = (c : AddCall S) × Memᴰ c calls × (p ≡ render c.tokens)

  IsAdded-more :
      (d : AddCall S) (calls : List (AddCall S)) (p : Bytes)
      → IsAdded calls p
      → IsAdded (d ∷ calls) p
  IsAdded-more d calls p (c, m, e) = (c, Memᴰ.tail m, e)

  -- What the table has of the calls.
  record Implements (calls : List (AddCall S)) (routes : Routes S) : Type 0 where
    table : IsTable routes
    from_calls : (p : Bytes) (info : RouteInfo S) → lookup p routes ≡ some info → IsAdded calls p
    to_entries :
        (c : AddCall S)
        → Memᴰ c calls
        → (info : RouteInfo S) × (lookup (render c.tokens) routes ≡ some info)
    handlers : (p : Bytes) (m : Method) → handler_at p m routes ≡ registered calls p m

  module _ (c : AddCall S) (calls : List (AddCall S)) (routes : Routes S) (info : RouteInfo S)
      (old : Implements calls routes) where
    more-from_calls :
        (p : Bytes) (i : RouteInfo S)
        → lookup p (insert (render c.tokens) info routes) ≡ some i
        → IsAdded (c ∷ calls) p
    more-from_calls p i found = elim (Bool-cases (bytes_eq (render c.tokens) p)) [
      | inl here ↦ (c, Memᴰ.head refl, sym ((bytes_eq_iff (render c.tokens) p).0 here))
      | inr other ↦
          let before : lookup p routes ≡ some i =
            ground (arith, lookup-insert (render c.tokens) p info routes) in
          IsAdded-more c calls p (old.from_calls p i before)
    ]

    more-to_entries :
        (d : AddCall S)
        → Memᴰ d (c ∷ calls)
        → (i : RouteInfo S) × (lookup (render d.tokens) (insert (render c.tokens) info routes)
            ≡ some i)
    more-to_entries d m =
        let at_d = lookup-insert (render c.tokens) (render d.tokens) info routes in
        elim (Bool-cases (bytes_eq (render c.tokens) (render d.tokens))) [
          | inl here ↦ (info, at_d ∙ rw here)
          | inr other ↦
              let differs : d ≢ c = λ (same : d ≡ c). false≢true (
                sym other
                ∙ (bytes_eq_iff (render c.tokens) (render d.tokens)).1
                    (ap (λ (x : AddCall S). render x.tokens) (sym same))) in
              let (i, found) = old.to_entries d (mem-tail m differs) in (i, at_d ∙ rw other found)
        ]

  Built-Implements :
      {calls : List (AddCall S)} {routes : Routes S} → Built calls routes → Implements calls routes
  Built-Implements nothing = record {
    table = empty-IsTable;
    from_calls = λ p info e. cc;
    to_entries = λ c m. elim m [ ];
    handlers = λ p m. refl;
  }
  Built-Implements (one_more {calls} {routes} {routes'} c b e) =
      let old = Built-Implements b in
      let (h, pattern, is_some, good, compiles, same) =
        add_route_impl_lem (render c.tokens) c.method (some c.handler) routes routes' e in
      let info = new_info (render c.tokens) c.method h routes pattern in
      record {
        table =
            add_route_impl-IsTable (render c.tokens) c.method (some c.handler) routes routes'
              old.table e;
        from_calls = λ p i found. more-from_calls c calls routes info old p i (rw same at found);
        to_entries = λ d m. rw same (more-to_entries c calls routes info old d m);
        handlers = λ p m.
            handler_at-add_route_impl (render c.tokens) c.method c.handler routes routes' p m e
            ∙ rw (old.handlers p m);
      }

  -- An entry whose path is plain has the pattern and the names of its tokens.
  module _ {routes : Routes S} (t : IsTable routes) (ts : List Token) (plain : All IsPlain ts)
      (info : RouteInfo S) (found : lookup (render ts) routes ≡ some info) where
    entry_of_tokens : (info.pattern ≡ pieces ts) × (info.parameter_names ≡ names ts)
    entry_of_tokens =
        let (good, compiles, its_names) =
          All-mem IsEntry routes (render ts, info) t.entries
            (mem-lookup (render ts) info routes found) in
        (cc (compile-full_regex ts plain), its_names ∙ parameter_names-render ts plain)

  module _ {iterate : Routes S → List (Bytes × RouteInfo S)} (it : IsIteration iterate)
      {calls : List (AddCall S)} {routes : Routes S} (b : Built calls routes) (req : Request)
      (plain : (c : AddCall S) → Memᴰ c calls → All IsPlain c.tokens) where
    no_fit :
        ((e : Bytes × RouteInfo S) → Memᴰ e routes → ¬ Matches (parse_params req.path).1 e)
        → (c : AddCall S) → Memᴰ c calls
        → (vs : List Bytes) → ¬ Fits c.tokens (parse_params req.path).1 vs
    no_fit missed c m vs (url, segments, count) =
        let old = Built-Implements b in
        let (info, found) = old.to_entries c m in
        let (same, its_names) = entry_of_tokens old.table c.tokens (plain c m) info found in
        missed (render c.tokens, info) (mem-lookup (render c.tokens) info routes found)
          (rw (same, url) (match_pieces_complete c.tokens vs segments count))

    -- If the table is what calls of `AddRoute` with plain paths make of an empty one, and the
    -- iteration visits its entries and no others, in whatever order, then either no added path fits
    -- the URL of the request without its query, and the answer is 404 with an empty body and the
    -- state unchanged, or an added path fits it with segments in the places of its parameters, and
    -- the handler that was added last for this path and the method of the request, or the answer 405
    -- if there is none, is given the segments under the names of the parameters, over the parameters
    -- of the query.
    pub route-registered :
        (((c : AddCall S)
            → Memᴰ c calls
            → (vs : List Bytes) → ¬ Fits c.tokens (parse_params req.path).1 vs)
          × (route iterate routes req ≡ pure (respond not_found [])))
        ⊎ ((c : AddCall S) × (vs : List Bytes) × Memᴰ c calls
            × Fits c.tokens (parse_params req.path).1 vs
            × (route iterate routes req
                ≡ call_handler req
                    (bind_params (names c.tokens) vs (parse_params req.path).0)
                    (registered calls (render c.tokens) req.method)))
    route-registered = elim (route-cases it routes req) [
      | inl (missed, e) ↦ inl (no_fit missed, e)
      | inr (p, info, texts, m, hit, e) ↦
          let old = Built-Implements b in
          let found_p = lookup-mem p info routes old.table.distinct m in
          let (c, called, key) = old.from_calls p info found_p in
          let found : lookup (render c.tokens) routes ≡ some info = rw (← key) found_p in
          let (same, its_names) = entry_of_tokens old.table c.tokens (plain c called) info found in
          let fits =
            match_pieces_sound c.tokens (parse_params req.path).1 texts (rw (← same) hit) in
          let handler : lookup req.method info.handlers
              ≡ registered calls (render c.tokens) req.method =
            sym (ap (λ x. lookup req.method (handlers_of x)) found)
            ∙ old.handlers (render c.tokens) req.method in
          inr (
            c,
            texts,
            called,
            fits,
            e
                ∙ serve_match_count req (parse_params req.path).0 info texts
                    (fits.2 ∙ ap length (sym its_names))
                ∙ rw (its_names, handler),
          )
    ]

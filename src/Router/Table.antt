-- ===== src/Router/Table.antt =====
-- What `AddRoute` keeps of the table of routes, and what it changes in it.
use just_queue_it.Base.{
  Bytes, false, ◌≡◌, refl, Option, none, some, List, [], inl, inr, if◌then◌else◌, bytes_eq,
  bytes_eq_iff, Bool-cases, All, arith,
}
use just_queue_it.Base.Equality.{bytes_equality}
use just_queue_it.Base.Map.{lookup, insert, lookup-insert}
use just_queue_it.Base.Map.Entries.{IsDistinct, IsDistinct-insert, All-insert}
use just_queue_it.Core.{Method, method_equality, method_eq}
use just_queue_it.Pattern.{Piece, Regex, compiled, malformed, unmodelled, compile}
use just_queue_it.Pattern.Params.{full_regex, parameter_names}
use just_queue_it.Router.{
  Handler, RouteInfo, Routes, added, bad_path, handlers_of, emplace, add_route_impl,
}

module _ {S : Type 0} where
  -- An entry holds the regular expression and the parameter names of its own path.
  abbrev pub IsEntry : Bytes × RouteInfo S → Type 0
  IsEntry (path, info) =
      (bad_path path ≡ false)
      × (compile (full_regex path) ≡ compiled info.pattern)
      × (info.parameter_names ≡ parameter_names 0 path)

  pub record IsTable (routes : Routes S) : Type 0 where
    pub entries : All IsEntry routes
    pub distinct : IsDistinct routes

  -- The entry that `AddRoute` leaves for its path.
  abbrev pub new_info : Bytes → Method → Handler S → Routes S → List Piece → RouteInfo S
  new_info path method handler routes pattern = record {
    pattern = pattern;
    parameter_names = parameter_names 0 path;
    handlers = insert method handler (handlers_of (lookup path routes));
  }

  emplace_lem :
      (path : Bytes) (method : Method) (handler : Handler S) (routes routes' : Routes S) (r : Regex)
      → emplace path method handler routes r ≡ added routes'
      → (pattern : List Piece) × (r ≡ compiled pattern)
        × (routes' ≡ insert path (new_info path method handler routes pattern) routes)
  unfolding emplace
  emplace_lem path method handler routes routes' malformed e = cc
  emplace_lem path method handler routes routes' unmodelled e = cc
  emplace_lem path method handler routes routes' (compiled pattern) e = (pattern, refl, cc)

  -- A call of `AddRoute` that adds has a path that begins with a slash and a regular expression,
  -- and changes the entry of this path alone.
  pub add_route_impl_lem :
      (path : Bytes) (method : Method) (handler : Option (Handler S)) (routes routes' : Routes S)
      → add_route_impl path method handler routes ≡ added routes'
      → (h : Handler S) × (pattern : List Piece) × (handler ≡ some h)
        × (bad_path path ≡ false)
        × (compile (full_regex path) ≡ compiled pattern)
        × (routes' ≡ insert path (new_info path method h routes pattern) routes)
  unfolding add_route_impl
  add_route_impl_lem path method none routes routes' e = absurd (ground arith)
  add_route_impl_lem path method (some h) routes routes' e = elim (Bool-cases (bad_path path)) [
    | inl bad ↦ absurd (ground arith)
    | inr good ↦
        let (pattern, compiles, same) =
          emplace_lem path method h routes routes' (compile (full_regex path)) (ground arith) in
        (h, pattern, refl, good, compiles, same)
  ]

  pub empty-IsTable : IsTable []
  empty-IsTable = record { entries = tt; distinct = tt }

  -- `AddRoute` on a table that has one entry for each path, and in each entry the regular expression
  -- and the parameter names of its path, leaves such a table.
  pub add_route_impl-IsTable :
      (path : Bytes) (method : Method) (handler : Option (Handler S)) (routes routes' : Routes S)
      → IsTable routes
      → add_route_impl path method handler routes ≡ added routes'
      → IsTable routes'
  add_route_impl-IsTable path method handler routes routes' t e =
      let (h, pattern, is_some, good, compiles, same) =
        add_route_impl_lem path method handler routes routes' e in
      let info = new_info path method h routes pattern in
      rw same (record {
        entries = All-insert IsEntry path info routes (good, compiles, refl) t.entries;
        distinct = IsDistinct-insert path info routes t.distinct;
      })

  -- The handler of a path and a method.
  abbrev pub handler_at : Bytes → Method → Routes S → Option (Handler S)
  handler_at path method routes = lookup method (handlers_of (lookup path routes))

  -- If `AddRoute` with a handler does not throw, its path and method have the new handler, and every
  -- other path and method the handler that they had before.
  pub handler_at-add_route_impl :
      (path : Bytes) (method : Method) (h : Handler S) (routes routes' : Routes S) (p : Bytes)
      (m : Method)
      → add_route_impl path method (some h) routes ≡ added routes'
      → handler_at p m routes' ≡ (
          if bytes_eq path p
          then if method_eq method m then some h else handler_at p m routes
          else handler_at p m routes)
  handler_at-add_route_impl path method h routes routes' p m e =
      let (h', pattern, is_some, good, compiles, same) =
        add_route_impl_lem path method (some h) routes routes' e in
      let same_h : h ≡ h' = cc in
      let info = new_info path method h' routes pattern in
      let at_p = lookup-insert path p info routes in
      let at_m = lookup-insert method m h' (handlers_of (lookup path routes)) in
      elim (Bool-cases (bytes_eq path p)) [
        | inl here ↦
            let key : path ≡ p = (bytes_eq_iff path p).0 here in
            rw (same, at_p, here, ← key, at_m, same_h)
        | inr other ↦ rw (same, at_p, other)
      ]

-- ===== src/Backend/Table.antt =====
-- The table of routes that `backend::StartServer` fills, and which of its two entries serves a URL.
use mathlib.Core.List.{Memᴰ}
use just_queue_it.Base.{
  Bytes, codes, ◌≡◌, ◌≢◌, refl, sym, ap, ◌∙◌, Option, none, some, List, [], ◌∷◌, ◌++◌, map,
  append-nil, length, ◌⊎◌, inl, inr, All, arith,
}
use just_queue_it.Base.Equality.{bytes_equality}
use just_queue_it.Base.Exec.{pure}
use just_queue_it.Base.Map.{Map, lookup, insert}
use just_queue_it.Core.{Method, method_equality, get, post, delete, Request}
use just_queue_it.Core.Codes.{not_found}
use just_queue_it.Pattern.{match_pieces, compile}
use just_queue_it.Pattern.Params.{full_regex, parameter_names}
use just_queue_it.Pattern.Token.{Token, lit, param, pieces, fill, IsSegment}
use just_queue_it.Pattern.Match.{match_pieces_sound, match_pieces-fill}
use just_queue_it.Query.{Params, parse_params}
use just_queue_it.TasksManager.{TasksManager}
use just_queue_it.Router.{
  Handler, RouteInfo, Routes, added, respond, call_handler, bind_params, route,
}
use just_queue_it.Router.Choice.{IsIteration, Matches, route-chosen, route-not_found}
use just_queue_it.Router.Lookup.{serve_match_count}
use just_queue_it.Endpoint.{no_body, json_body, wrap, with_ok}
use just_queue_it.Backend.{
  Json, tasks_path, task_path, list_tasks, create_task, get_task, delete_task, make_router,
}

abbrev tasks_tokens : List Token
tasks_tokens = map lit (codes "/tasks")

abbrev task_tokens : List Token
task_tokens = map lit (codes "/tasks/") ++ param b'i' (codes "d") ∷ []

module _ {S : Type 0} (json : Json) (manager : TasksManager S) where
  abbrev pub tasks_handlers : Map Method (Handler S)
  tasks_handlers =
      (get, wrap no_body json.write_tasks (with_ok (list_tasks json manager)))
      ∷ (
        post,
        wrap (json_body json.read_payload) json.write_task (with_ok (create_task json manager)),
      )
      ∷ []

  abbrev pub task_handlers : Map Method (Handler S)
  task_handlers =
      (get, wrap no_body json.write_optional (get_task json manager))
      ∷ (delete, wrap no_body (λ n. json.write_none) (with_ok (delete_task json manager)))
      ∷ []

  abbrev pub tasks_info : RouteInfo S
  tasks_info = record {
    pattern = pieces tasks_tokens;
    parameter_names = [];
    handlers = tasks_handlers;
  }

  abbrev pub task_info : RouteInfo S
  task_info = record {
    pattern = pieces task_tokens;
    parameter_names = codes "id" ∷ [];
    handlers = task_handlers;
  }

  abbrev pub table : Routes S
  table = (tasks_path, tasks_info) ∷ (task_path, task_info) ∷ []

  -- The four calls of `AddRoute` succeed, and fill a table of two entries with two handlers each.
  pub make_router_lem : make_router json manager ≡ added table
  unfolding make_router compile full_regex parameter_names
  make_router_lem = refl

-- `/tasks/` and a value behind it.
abbrev pub task_url : Bytes → Bytes
task_url v = codes "/tasks/" ++ v

fill-task_tokens : (v : Bytes) → fill task_tokens (v ∷ []) ≡ task_url v
fill-task_tokens v = ap (λ s. codes "/tasks/" ++ s) (append-nil v)

tasks_match :
    (url : Bytes) (vs : List Bytes)
    → match_pieces (pieces tasks_tokens) url ≡ some vs
    → url ≡ tasks_path
tasks_match url vs e = (match_pieces_sound tasks_tokens url vs e).0

task_match :
    (url : Bytes) (vs : List Bytes)
    → match_pieces (pieces task_tokens) url ≡ some vs
    → (v : Bytes) × IsSegment v × (url ≡ task_url v)
task_match url vs e = only_one vs (match_pieces_sound task_tokens url vs e)
  where
    only_one :
        (vs : List Bytes)
        → (url ≡ fill task_tokens vs) × All IsSegment vs × (length vs ≡ 1)
        → (v : Bytes) × IsSegment v × (url ≡ task_url v)
    only_one [] (u, segs, count) = absurd (omega arith)
    only_one (v ∷ []) (u, segs, count) = (v, segs.0, u ∙ fill-task_tokens v)
    only_one (v ∷ w ∷ vs) (u, segs, count) = absurd (omega arith)

pub differ : (v : Bytes) → task_url v ≢ tasks_path
differ v e = cc

ne-none : {A : Type 0} (o : Option A) → o ≢ none → (a : A) × (o ≡ some a)
ne-none none h = absurd (h refl)
ne-none (some a) h = (a, refl)

module _ {S : Type 0} (json : Json) (manager : TasksManager S) where
  -- An entry that matches a URL is that of `/tasks`, and the URL is this path, or it is that of
  -- `/tasks/{:id}`, and the URL has a segment for the id.
  pub entry_cases :
      (url : Bytes) (x : Bytes × RouteInfo S)
      → Memᴰ x (table json manager)
      → Matches url x
      → ((x ≡ (tasks_path, tasks_info json manager)) × (url ≡ tasks_path))
        ⊎ ((x ≡ (task_path, task_info json manager))
            × ((v : Bytes) × IsSegment v × (url ≡ task_url v)))
  entry_cases url x (Memᴰ.head e) hit =
      let (vs, matched) = ne-none (match_pieces x.1.pattern url) hit in
      let pattern : x.1.pattern ≡ pieces tasks_tokens =
        ap (λ (y : Bytes × RouteInfo S). y.1.pattern) e in
      inl (e, tasks_match url vs (rw pattern at matched))
  entry_cases url x (Memᴰ.tail (Memᴰ.head e)) hit =
      let (vs, matched) = ne-none (match_pieces x.1.pattern url) hit in
      let pattern : x.1.pattern ≡ pieces task_tokens =
        ap (λ (y : Bytes × RouteInfo S). y.1.pattern) e in
      inr (e, task_match url vs (rw pattern at matched))
  entry_cases url x (Memᴰ.tail (Memᴰ.tail m)) hit = elim m [ ]

  only_tasks :
      (x : Bytes × RouteInfo S)
      → Memᴰ x (table json manager)
      → Matches tasks_path x
      → x ≡ (tasks_path, tasks_info json manager)
  only_tasks x m hit = elim (entry_cases tasks_path x m hit) [
    | inl (e, _) ↦ e
    | inr (e, (v, segment, url)) ↦ absurd (differ v (sym url))
  ]

  only_task :
      (v : Bytes) (x : Bytes × RouteInfo S)
      → Memᴰ x (table json manager)
      → Matches (task_url v) x
      → x ≡ (task_path, task_info json manager)
  only_task v x m hit = elim (entry_cases (task_url v) x m hit) [
    | inl (e, url) ↦ absurd (differ v url)
    | inr (e, _) ↦ e
  ]

  module _ {iterate : Routes S → List (Bytes × RouteInfo S)} (it : IsIteration iterate)
      (req : Request) (params : Params) where
    -- A request for `/tasks`, with any query, is given to the handler of its method for `/tasks`.
    pub route-tasks :
        parse_params req.path ≡ (params, tasks_path)
        → route iterate (table json manager) req
          ≡ call_handler req params (lookup req.method (tasks_handlers json manager))
    route-tasks parsed =
        let url : (parse_params req.path).1 ≡ tasks_path =
          ap (λ (x : Params × Bytes). x.1) parsed in
        let query : (parse_params req.path).0 ≡ params = ap (λ (x : Params × Bytes). x.0) parsed in
        route-chosen it (table json manager) req tasks_path (tasks_info json manager) []
          (Memᴰ.head refl) (rw url (match_pieces-fill tasks_tokens [] tt tt refl))
          (λ x m hit. only_tasks x m (rw url at hit))
        ∙ serve_match_count req (parse_params req.path).0 (tasks_info json manager) [] refl
        ∙ rw query (unfold bind_params in refl)

    -- A request for `/tasks/` and a segment, with any query, is given to the handler of its method
    -- for `/tasks/{:id}`, with the segment as the parameter `id`.
    pub route-task :
        (v : Bytes)
        → IsSegment v
        → parse_params req.path ≡ (params, task_url v)
        → route iterate (table json manager) req
          ≡ call_handler req
              (insert (codes "id") v params)
              (lookup req.method (task_handlers json manager))
    route-task v segment parsed =
        let url : (parse_params req.path).1 ≡ task_url v =
          ap (λ (x : Params × Bytes). x.1) parsed in
        let query : (parse_params req.path).0 ≡ params = ap (λ (x : Params × Bytes). x.0) parsed in
        let found : match_pieces (pieces task_tokens) (task_url v) ≡ some (v ∷ []) =
          rw (← fill-task_tokens v)
            (match_pieces-fill task_tokens (v ∷ []) tt (segment, tt) refl) in
        route-chosen it (table json manager) req task_path (task_info json manager) (v ∷ [])
          (Memᴰ.tail (Memᴰ.head refl)) (rw url found) (λ x m hit. only_task v x m (rw url at hit))
        ∙ serve_match_count req (parse_params req.path).0 (task_info json manager) (v ∷ []) refl
        ∙ rw query (unfold bind_params in refl)

    pub route-other :
        (parse_params req.path).1 ≢ tasks_path
        → ((v : Bytes) → IsSegment v → (parse_params req.path).1 ≢ task_url v)
        → route iterate (table json manager) req ≡ pure (respond not_found [])
    route-other no_tasks no_task = route-not_found it (table json manager) req λ x m hit.
        elim (entry_cases (parse_params req.path).1 x m hit) [
          | inl (e, url) ↦ no_tasks url
          | inr (e, (v, segment, url)) ↦ no_task v segment url
        ]

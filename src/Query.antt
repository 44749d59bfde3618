-- ===== src/Query.antt =====
-- `ParseParams` of src/libraries/rest/router/rest_router.cpp: the query of a URL, cut off and
-- parsed.
pub mod Split
pub mod RoundTrip
mod Tests
use mathlib.Core.Option
use just_queue_it.Base.{
  ℕ, zero, suc, ◌+◌, ◌-◌, Bytes, find, Option, none, some, List, [], ◌∷◌, if◌then◌else◌, length,
  take, drop,
}
use just_queue_it.Base.Equality.{bytes_equality}
use just_queue_it.Base.Map.{Map, insert}

-- `std::unordered_map<std::string, std::string>`
abbrev pub Params : Type 0
Params = Map Bytes Bytes

-- `view.find(c, start)`, a position in the view, not in its rest.
abbrev find_from : ℕ → Bytes → ℕ → Option ℕ
find_from c s start = Option.map (λ i. start + i) (find c (drop start s))

-- `view.substr(start, count)`, where `none` is the count `npos`.
abbrev substr : Bytes → ℕ → Option ℕ → Bytes
substr s start none = drop start s
substr s start (some count) = take count (drop start s)

-- `param.substr(0, eq)`, and `eq != npos ? param.substr(eq + 1) : ""`.
abbrev key_of : Bytes → Option ℕ → Bytes
key_of s none = s
key_of s (some eq) = take eq s

abbrev value_of : Bytes → Option ℕ → Bytes
value_of s none = []
value_of s (some eq) = drop (eq + 1) s

-- `query_params[key] = value` for one `param`.
pub store_param : Bytes → Params → Params
store_param param query_params =
    let eq = find b'=' param in insert (key_of param eq) (value_of param eq) query_params

-- The `while (true)` of `ParseParams`. `start` grows in each round and stays within the query, so
-- one round more than its length is fuel enough.
pub query_loop : ℕ → Bytes → ℕ → Params → Params
unfolding store_param
query_loop zero query start query_params = query_params
query_loop (suc fuel) query start query_params = elim (find_from b'&' query start) [
  | none ↦ store_param (substr query start none) query_params
  | some end ↦
      query_loop fuel query (end + 1)
        (store_param (substr query start (some (end - start))) query_params)
]

-- The parameters, and what `url` is afterwards.
unfoldable pub parse_params : Bytes → Params × Bytes
unfolding query_loop
parse_params url = elim (find b'?' url) [
  | none ↦ ([], url)
  | some query_start ↦
      let query = drop (query_start + 1) url in
      (query_loop (length query + 1) query 0 [], take query_start url)
]

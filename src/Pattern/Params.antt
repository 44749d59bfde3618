-- ===== src/Pattern/Params.antt =====
-- The two passes of `Router::AddRouteImpl` (src/libraries/rest/router/rest_router.cpp) with the
-- regular expression `\{\:([a-zA-Z_][a-zA-Z0-9_]*)\}`.
use mathlib.Core.Option
use just_queue_it.Base.{
  ℕ, zero, suc, ◌+◌, Bytes, codes, Bool, ◌&&◌, ◌||◌, Option, none, some, List, [], ◌∷◌, ◌++◌, leb,
  ◌==◌, if◌then◌else◌, length,
}

-- `[a-zA-Z_]`
abbrev pub is_name_start : ℕ → Bool
is_name_start c = (leb b'a' c && leb c b'z') || (leb b'A' c && leb c b'Z') || c == b'_'

-- `[a-zA-Z0-9_]`
abbrev pub is_name_char : ℕ → Bool
is_name_char c = is_name_start c || (leb b'0' c && leb c b'9')

-- The rest of a name up to the brace that closes it. The brace is no character of a name, so the
-- longest run is the only one that can match.
unfoldable pub name_rest : Bytes → Option Bytes
name_rest [] = none
name_rest (c ∷ s) =
    let more = Option.map (λ n. c ∷ n) (name_rest s) in
    if is_name_char c then more else if c == b'}' then some [] else none

-- The name of the parameter that a match at the front of the text captures.
unfoldable pub param_at : Bytes → Option Bytes
unfolding name_rest
param_at (a ∷ b ∷ c ∷ s) =
    if a == b'{' && b == b':' && is_name_start c
    then Option.map (λ n. c ∷ n) (name_rest s)
    else none
param_at _ = none

abbrev pub group_text : Bytes
group_text = codes "([^/]+)"

-- `std::regex_replace(path, param_regex, "([^/]+)")`. The first argument counts the bytes of the
-- last match that are still to be passed over: a match `{:name}` has three more than the name.
unfoldable pub replace_params : ℕ → Bytes → Bytes
unfolding param_at
replace_params k [] = []
replace_params (suc k) (c ∷ s) = replace_params k s
replace_params zero (c ∷ s) = elim (param_at (c ∷ s)) [
  | none ↦ c ∷ replace_params zero s
  | some name ↦ group_text ++ replace_params (length name + 2) s
]

-- `parameter_names`: the first group of each match of `std::sregex_iterator`.
unfoldable pub parameter_names : ℕ → Bytes → List Bytes
unfolding param_at
parameter_names k [] = []
parameter_names (suc k) (c ∷ s) = parameter_names k s
parameter_names zero (c ∷ s) = elim (param_at (c ∷ s)) [
  | none ↦ parameter_names zero s
  | some name ↦ name ∷ parameter_names (length name + 2) s
]

-- `std::regex("^" + regex_path + "$")`, as a text.
unfoldable pub full_regex : Bytes → Bytes
unfolding replace_params
full_regex path = codes "^" ++ replace_params 0 path ++ codes "$"

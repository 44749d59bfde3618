-- ===== src/Query/Tests.antt =====
-- Runs of the query parser, and its theorems at concrete URLs.
use just_queue_it.Base.{Bytes, List, arith, codes, ◌≡◌, refl, [], ◌∷◌}
use just_queue_it.Query.{parse_params}
use just_queue_it.Query.Split.{parts, store_all, parse_params-some}
use just_queue_it.Query.RoundTrip.{parse_params-query_text}

-- A key without `=` has no value, an empty parameter an empty key, and a later value wins.
parses :
    parse_params (codes "/p?a=1&b&&a=2=3")
    ≡ ((codes "a", codes "2=3") ∷ (codes "b", []) ∷ ([], []) ∷ [], codes "/p")
unfolding parse_params
parses = refl

-- `/p?a=1&b=2`
abbrev pairs : List (Bytes × Bytes)
pairs = (codes "b", codes "2") ∷ []

abbrev first_pair : Bytes × Bytes
first_pair = (codes "a", codes "1")

parse_params-some_example :
    parse_params (codes "/p?a=1&b") ≡ (store_all (parts b'&' (codes "a=1&b")) [], codes "/p")
parse_params-some_example = parse_params-some (codes "/p?a=1&b") 2 refl

parse_params-query_text_example :
    parse_params (codes "/p?a=1&b=2")
    ≡ ((codes "a", codes "1") ∷ (codes "b", codes "2") ∷ [], codes "/p")
parse_params-query_text_example =
    parse_params-query_text (codes "/p") first_pair pairs (ground arith) (ground arith)

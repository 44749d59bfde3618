-- ===== src/Query/RoundTrip.antt =====
-- A query that is written from keys and values is parsed to these keys and values.
use just_queue_it.Base.{
  ℕ, suc, ◌+◌, Bytes, find, false, ◌≡◌, refl, ap, ◌∙◌, some, List, [], ◌∷◌, ◌++◌, ◌==◌, length,
  take, drop, All, All-append, arith,
}
use just_queue_it.Base.Equality.{bytes_equality}
use just_queue_it.Base.Map.{insert}
use just_queue_it.Query.{Params, store_param, parse_params}
use just_queue_it.Query.Split.{parts, store_all, parse_params-some}

abbrev Lacks : ℕ → Bytes → Type 0
Lacks sep = All (λ c. (c == sep) ≡ false)

-- `key=value`
abbrev pair_text : Bytes × Bytes → Bytes
pair_text (k, v) = k ++ b'=' ∷ v

-- The pairs, joined by `&`.
abbrev query_text : List (Bytes × Bytes) → Bytes
query_text [] = []
query_text (p ∷ []) = pair_text p
query_text (p ∷ q ∷ ps) = pair_text p ++ b'&' ∷ query_text (q ∷ ps)

abbrev insert_all : List (Bytes × Bytes) → Params → Params
insert_all [] m = m
insert_all ((k, v) ∷ ps) m = insert_all ps (insert k v m)

abbrev IsWritable : Bytes × Bytes → Type 0
IsWritable (k, v) = Lacks b'=' k × Lacks b'&' k × Lacks b'&' v

find-append : (sep : ℕ) (p s : Bytes) → Lacks sep p → find sep (p ++ sep ∷ s) ≡ some (length p)
find-append sep [] s h = ground arith
find-append sep (c ∷ p) s h = ground (arith, find-append sep p s h.1)

take-append : (p s : Bytes) → take (length p) (p ++ s) ≡ p
take-append [] s = refl
take-append (c ∷ p) s = ap (λ x. c ∷ x) (take-append p s)

drop-append_suc : (sep : ℕ) (p s : Bytes) → drop (suc (length p)) (p ++ sep ∷ s) ≡ s
drop-append_suc sep [] s = refl
drop-append_suc sep (c ∷ p) s = drop-append_suc sep p s

drop-append : (sep : ℕ) (p s : Bytes) → drop (length p + 1) (p ++ sep ∷ s) ≡ s
drop-append sep p s =
    let e : length p + 1 ≡ suc (length p) = omega arith in rw e (drop-append_suc sep p s)

parts-append : (sep : ℕ) (p s : Bytes) → Lacks sep p → parts sep (p ++ sep ∷ s) ≡ p ∷ parts sep s
parts-append sep [] s h = ground arith
parts-append sep (c ∷ p) s h = ground (arith, parts-append sep p s h.1)

parts-single : (sep : ℕ) (p : Bytes) → Lacks sep p → parts sep p ≡ p ∷ []
parts-single sep [] h = refl
parts-single sep (c ∷ p) h = ground (arith, parts-single sep p h.1)

store_param-pair_text :
    (p : Bytes × Bytes) (m : Params) → IsWritable p → store_param (pair_text p) m ≡ insert p.0 p.1 m
unfolding store_param
store_param-pair_text (k, v) m h =
    rw (find-append b'=' k v h.0, take-append k (b'=' ∷ v), drop-append b'=' k v)

pair_text-Lacks : (p : Bytes × Bytes) → IsWritable p → Lacks b'&' (pair_text p)
pair_text-Lacks (k, v) h = All-append _ k (b'=' ∷ v) h.1 (refl, h.2)

store_all-query_text :
    (p : Bytes × Bytes) (ps : List (Bytes × Bytes)) (m : Params)
    → All IsWritable (p ∷ ps)
    → store_all (parts b'&' (query_text (p ∷ ps))) m ≡ insert_all (p ∷ ps) m
store_all-query_text p [] m h =
    rw (parts-single b'&' (pair_text p) (pair_text-Lacks p h.0), store_param-pair_text p m h.0)
store_all-query_text p (q ∷ ps) m h =
    let later = query_text (q ∷ ps) in
    ap (λ l. store_all l m) (parts-append b'&' (pair_text p) later (pair_text-Lacks p h.0))
    ∙ ap (store_all (parts b'&' later)) (store_param-pair_text p m h.0)
    ∙ store_all-query_text q ps (insert p.0 p.1 m) h.1

-- If no key holds `=` or `&`, no value `&` and the path no `?`, then the query written from one or
-- more pairs is parsed to the map with these pairs inserted from left to right, so that the last
-- value of a key wins, and the path is left in the URL.
pub parse_params-query_text :
    (path : Bytes) (p : Bytes × Bytes) (ps : List (Bytes × Bytes))
    → Lacks b'?' path
    → All IsWritable (p ∷ ps)
    → parse_params (path ++ b'?' ∷ query_text (p ∷ ps)) ≡ (insert_all (p ∷ ps) [], path)
parse_params-query_text path p ps clean h =
    let query = query_text (p ∷ ps) in
    rw
      (
        parse_params-some (path ++ b'?' ∷ query) (length path) (find-append b'?' path query clean),
        drop-append b'?' path query,
        take-append path (b'?' ∷ query),
      )
      (ap (λ m. (m, path)) (store_all-query_text p ps [] h))

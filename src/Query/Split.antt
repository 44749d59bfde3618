-- ===== src/Query/Split.antt =====
-- The loop of `ParseParams` against a description with no positions: the query is cut at every
-- `&`, and the parts are stored from left to right.
use just_queue_it.Base.{
  ℕ, zero, suc, ◌+◌, ◌-◌, ◌<◌, Bytes, find, ◌≡◌, refl, sym, ap, ◌∙◌, none, some, List, [], ◌∷◌,
  if◌then◌else◌, ◌==◌, length, take, drop, inl, inr, Bool-cases, Option-cases, arith,
}
use just_queue_it.Query.{Params, store_param, query_loop, parse_params}

-- The parts of a text between the separators: one more than there are separators.
abbrev head_part : ℕ → Bytes → Bytes
head_part sep [] = []
head_part sep (c ∷ s) = if c == sep then [] else c ∷ head_part sep s

abbrev tail_parts : ℕ → Bytes → List Bytes
tail_parts sep [] = []
tail_parts sep (c ∷ s) =
    let rest = tail_parts sep s in if c == sep then head_part sep s ∷ rest else rest

abbrev pub parts : ℕ → Bytes → List Bytes
parts sep s = head_part sep s ∷ tail_parts sep s

abbrev pub store_all : List Bytes → Params → Params
store_all [] ps = ps
store_all (p ∷ rest) ps = store_all rest (store_param p ps)

parts-find-none : (sep : ℕ) (s : Bytes) → find sep s ≡ none → parts sep s ≡ s ∷ []
parts-find-none sep [] e = refl
parts-find-none sep (c ∷ s) e = ground (arith, parts-find-none sep s)

parts-find-some :
    (sep : ℕ) (s : Bytes) (i : ℕ)
    → find sep s ≡ some i
    → (head_part sep s ≡ take i s)
      × (tail_parts sep s ≡ parts sep (drop (suc i) s))
      × (i < length s)
parts-find-some sep [] i e = cc
parts-find-some sep (c ∷ s) i e = elim (Bool-cases (c == sep)) [
  | inl here ↦ let zero_at : 0 ≡ i = ground arith in rw (← zero_at, here) (refl, refl, omega arith)
  | inr later ↦ elim (Option-cases (find sep s)) [
    | inl missing ↦ absurd (ground arith)
    | inr (j, at_j) ↦
        let (head, tail, bound) = parts-find-some sep s j at_j in
        let suc_at : suc j ≡ i = ground arith in
        rw (← suc_at, later) (ap (λ x. c ∷ x) head, tail, omega arith)
  ]
]

drop-nil : (i : ℕ) → drop {A = ℕ} i [] ≡ []
drop-nil zero = refl
drop-nil (suc i) = refl

drop-drop : (i j : ℕ) (s : Bytes) → drop i (drop j s) ≡ drop (j + i) s
drop-drop i zero s = ap (λ n. drop n s) (omega arith)
drop-drop i (suc j) [] = drop-nil i ∙ sym (drop-nil (suc j + i))
drop-drop i (suc j) (c ∷ s) =
    let grown : suc (j + i) ≡ suc j + i = omega arith in
    drop-drop i j s ∙ ap (λ n. drop n (c ∷ s)) grown

length-drop_lt : (i : ℕ) (s : Bytes) → i < length s → length (drop (suc i) s) < length s
length-drop_lt i [] h = absurd (omega arith)
length-drop_lt zero (c ∷ s) h = omega arith
length-drop_lt (suc i) (c ∷ s) h = omega (arith, length-drop_lt i s)

query_loop_step :
    (fuel : ℕ) (query : Bytes) (start i : ℕ) (ps : Params)
    → find b'&' (drop start query) ≡ some i
    → query_loop (suc fuel) query start ps
      ≡ query_loop fuel query (start + i + 1) (store_param (take i (drop start query)) ps)
unfolding query_loop
query_loop_step fuel query start i ps e =
    let back : start + i - start ≡ i = omega arith in rw (e, query_loop) (rw back)

query_loop-parts :
    (fuel : ℕ) (query : Bytes) (start : ℕ) (ps : Params)
    → length (drop start query) < fuel
    → query_loop fuel query start ps ≡ store_all (parts b'&' (drop start query)) ps
query_loop-parts zero query start ps h = absurd (omega arith)
query_loop-parts (suc fuel) query start ps h = elim (Option-cases (find b'&' (drop start query))) [
  | inl e ↦ rw (parts-find-none b'&' (drop start query) e) (unfold query_loop in rw (e, query_loop))
  | inr (i, e) ↦
      let (head, tail, bound) = parts-find-some b'&' (drop start query) i e in
      let next : drop (suc i) (drop start query) ≡ drop (start + i + 1) query =
        drop-drop (suc i) start query ∙ ap (λ n. drop n query) (omega arith) in
      let shorter = length-drop_lt i (drop start query) bound in
      let ih =
        query_loop-parts fuel query (start + i + 1) (store_param (take i (drop start query)) ps)
          (rw (← next) (omega arith)) in
      query_loop_step fuel query start i ps e ∙ ih ∙ rw (head, tail, next)
]

-- `ParseParams` stores the parts between the `&` of what stands behind the first `?`, from left to
-- right, and leaves in the URL what stands before it.
pub parse_params-some :
    (url : Bytes) (i : ℕ)
    → find b'?' url ≡ some i
    → parse_params url ≡ (store_all (parts b'&' (drop (i + 1) url)) [], take i url)
unfolding parse_params
parse_params-some url i e =
    rw (e, parse_params)
      (rw (query_loop-parts (length (drop (i + 1) url) + 1) (drop (i + 1) url) 0 [] (omega arith)))

parse_params-none : (url : Bytes) → find b'?' url ≡ none → parse_params url ≡ ([], url)
unfolding parse_params
parse_params-none url e = rw (e, parse_params)

-- ===== src/Pattern/Malformed.antt =====
-- Paths whose regular expression is none: `AddRoute` throws a `std::regex_error` for them.
use just_queue_it.Base.{
  bytes_eq, take, ℕ, Bytes, codes, false, ◌≡◌, ◌⊎◌, inl, inr, refl, ap, ◌∙◌, none, List, [], ◌∷◌,
  ◌++◌, ◌==◌, All, arith,
}
use just_queue_it.Pattern.{
  malformed, wrong, is_one_of, is_special, group_rest, grouped, bracketed, element, parse_pieces,
  compile,
}
use just_queue_it.Pattern.Params.{param_at, replace_params, full_regex}
use just_queue_it.Pattern.Token.{Token, render, pieces, IsPlain}
use just_queue_it.Pattern.Compile.{
  replace_params_step, full_regex-render, is_quantifier, parse_pieces-regex_text,
  prepend_all-malformed,
}

-- A byte with no meaning in a regular expression.
abbrev IsOrdinary : ℕ → Type 0
IsOrdinary c = is_special c ≡ false

-- A parenthesis that nothing has opened, or one or a bracket that nothing closes.
abbrev pub IsUnmatched : ℕ → Bytes → Type 0
IsUnmatched c s = (c ≡ b')') ⊎ (((c ≡ b'(') ⊎ (c ≡ b'[')) × All IsOrdinary s)

param_at-other : (c : ℕ) (s : Bytes) → (c == b'{') ≡ false → param_at (c ∷ s) ≡ none
unfolding param_at
param_at-other c [] h = refl
param_at-other c (d ∷ []) h = refl
param_at-other c (d ∷ e ∷ s) h = ground arith

replace_params-other :
    (c : ℕ) (s : Bytes) → (c == b'{') ≡ false → replace_params 0 (c ∷ s) ≡ c ∷ replace_params 0 s
replace_params-other c s h = replace_params_step c s (param_at-other c s h)

replace_params-ordinary : (s : Bytes) → All IsOrdinary s → replace_params 0 s ≡ s
replace_params-ordinary [] h = unfold replace_params in refl
replace_params-ordinary (c ∷ s) h =
    replace_params-other c s (ground arith) ∙ ap (λ x. c ∷ x) (replace_params-ordinary s h.1)

never_closed :
    (b : ℕ) (s : Bytes)
    → (b ≡ b')') ⊎ (b ≡ b']')
    → All IsOrdinary s
    → is_one_of (s ++ codes "$") b ≡ false
never_closed b [] e h = ground arith
never_closed b (c ∷ s) e h = ground (arith, never_closed b s e h.1)

open_group : (s : Bytes) → All IsOrdinary s → grouped (s ++ codes "$") ≡ wrong
open_group [] h = refl
open_group (c ∷ s) h =
    let open_ = never_closed b')' (c ∷ s) (inl refl) h in
    let no_group : bytes_eq (take 6 (c ∷ (s ++ codes "$"))) group_rest ≡ false = ground arith in
    rw (no_group, open_)

open_class_lem : (s : Bytes) → All IsOrdinary s → bracketed (s ++ codes "$") ≡ wrong
unfolding bracketed
open_class_lem [] h = refl
open_class_lem (c ∷ s) h = rw (never_closed b']' (c ∷ s) (inr refl) h)

-- What the bytes behind a plain path are when they begin with no parameter.
behind_plain :
    (ts : List Token) (c : ℕ) (s : Bytes)
    → All IsPlain ts
    → (c == b'{') ≡ false
    → is_quantifier c ≡ false
    → element c (replace_params 0 s ++ codes "$") ≡ wrong
    → compile (full_regex (render ts ++ c ∷ s)) ≡ malformed
unfolding compile parse_pieces
behind_plain ts c s h name plain bad =
    let rest = c ∷ (replace_params 0 s ++ codes "$") in
    let parsed : parse_pieces 0 rest ≡ malformed = rw (bad, parse_pieces) in
    rw (full_regex-render ts (c ∷ s) h, replace_params-other c s name)
      (parse_pieces-regex_text ts rest h (rw plain)
        ∙ rw (parsed, prepend_all-malformed (pieces ts)))

-- A plain path with a closing parenthesis and any bytes behind it, or with an opening parenthesis or
-- bracket and only ordinary bytes behind it, is no regular expression.
pub compile-malformed :
    (ts : List Token) (c : ℕ) (s : Bytes)
    → All IsPlain ts
    → IsUnmatched c s
    → compile (full_regex (render ts ++ c ∷ s)) ≡ malformed
unfolding element
compile-malformed ts c s h (inl close) =
    behind_plain ts c s h (ground arith) (ground arith) (rw close)
compile-malformed ts c s h (inr (inl open_, ordinary)) =
    let same = replace_params-ordinary s ordinary in
    behind_plain ts c s h (ground arith) (ground arith) (rw (open_, same) (open_group s ordinary))
compile-malformed ts c s h (inr (inr open_, ordinary)) =
    let same = replace_params-ordinary s ordinary in
    behind_plain ts c s h (ground arith) (ground arith)
      (rw (open_, same) (open_class_lem s ordinary))

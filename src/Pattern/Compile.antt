-- ===== src/Pattern/Compile.antt =====
-- What the regular expression of a plain path is.
use just_queue_it.Base.{
  ℕ, ◌+◌, Bytes, codes, Bool, true, false, not, ◌||◌, ◌≡◌, refl, ap, none, some, List, [], ◌∷◌,
  ◌++◌, append_assoc, append-nil, sym, ◌∙◌, length, length-append, All, ◌==◌, arith,
}
use just_queue_it.Pattern.{
  Atom, Piece, piece, one, group, chr, Regex, compiled, malformed, atom_of, quantified, is_special,
  element, prepend, parse_pieces, compile,
}
use just_queue_it.Pattern.Params.{
  is_name_char, name_rest, param_at, group_text, replace_params, parameter_names, full_regex,
}
use just_queue_it.Pattern.Token.{Token, lit, param, render, names, pieces, IsPlain}

name_rest-append :
    (n s : Bytes) → All (λ d. is_name_char d ≡ true) n → name_rest (n ++ b'}' ∷ s) ≡ some n
unfolding name_rest
name_rest-append [] s h = refl
name_rest-append (c ∷ n) s h = ground (arith, name_rest-append n s h.1)

param_at-param :
    (c : ℕ) (n s : Bytes)
    → IsPlain (param c n)
    → param_at (b'{' ∷ b':' ∷ c ∷ (n ++ b'}' ∷ s)) ≡ some (c ∷ n)
unfolding param_at
param_at-param c n s h = ground (arith, name_rest-append n s h.1)

param_at-lit : (c : ℕ) (s : Bytes) → IsPlain (lit c) → param_at (c ∷ s) ≡ none
unfolding param_at
param_at-lit c [] h = refl
param_at-lit c (d ∷ []) h = refl
param_at-lit c (d ∷ e ∷ s) h = ground arith

replace_params-skip : (t s : Bytes) → replace_params (length t) (t ++ s) ≡ replace_params 0 s
unfolding replace_params
replace_params-skip [] s = refl
replace_params-skip (c ∷ t) s = replace_params-skip t s

parameter_names-skip : (t s : Bytes) → parameter_names (length t) (t ++ s) ≡ parameter_names 0 s
unfolding parameter_names
parameter_names-skip [] s = refl
parameter_names-skip (c ∷ t) s = parameter_names-skip t s

-- The text of the regular expression, without the anchors.
abbrev regex_text : List Token → Bytes
regex_text [] = []
regex_text (lit c ∷ ts) = c ∷ regex_text ts
regex_text (param c n ∷ ts) = group_text ++ regex_text ts

-- The bytes of a parameter behind its opening brace.
abbrev behind_brace : ℕ → Bytes → Bytes
behind_brace c n = b':' ∷ c ∷ (n ++ b'}' ∷ [])

length-behind_brace : (c : ℕ) (n : Bytes) → length (c ∷ n) + 2 ≡ length (behind_brace c n)
length-behind_brace c n = omega (arith, length-append {0} n (b'}' ∷ []))

behind_brace-append : (c : ℕ) (n s : Bytes) → behind_brace c n ++ s ≡ b':' ∷ c ∷ (n ++ b'}' ∷ s)
behind_brace-append c n s = rw append_assoc

pub replace_params_step :
    (c : ℕ) (s : Bytes)
    → param_at (c ∷ s) ≡ none
    → replace_params 0 (c ∷ s) ≡ c ∷ replace_params 0 s
unfolding replace_params
replace_params_step c s h = ground arith

parameter_names_step :
    (c : ℕ) (s : Bytes) → param_at (c ∷ s) ≡ none → parameter_names 0 (c ∷ s) ≡ parameter_names 0 s
unfolding parameter_names
parameter_names_step c s h = ground arith

module _ (c : ℕ) (n s : Bytes) (plain : IsPlain (param c n)) where
  skipped :
      {A : Type 0} (f : ℕ → Bytes → A)
      → ((t u : Bytes) → f (length t) (t ++ u) ≡ f 0 u)
      → f (length (c ∷ n) + 2) (b':' ∷ c ∷ (n ++ b'}' ∷ s)) ≡ f 0 s
  skipped f skip =
      rw (length-behind_brace c n, ← behind_brace-append c n s) (skip (behind_brace c n) s)

  replace_params_param :
      replace_params 0 (b'{' ∷ b':' ∷ c ∷ (n ++ b'}' ∷ s)) ≡ group_text ++ replace_params 0 s
  unfolding replace_params
  replace_params_param =
      ground (arith, param_at-param c n s plain, skipped replace_params replace_params-skip)

  parameter_names_param :
      parameter_names 0 (b'{' ∷ b':' ∷ c ∷ (n ++ b'}' ∷ s)) ≡ (c ∷ n) ∷ parameter_names 0 s
  unfolding parameter_names
  parameter_names_param =
      ground (arith, param_at-param c n s plain, skipped parameter_names parameter_names-skip)

replace_params-render :
    (ts : List Token) (s : Bytes)
    → All IsPlain ts
    → replace_params 0 (render ts ++ s) ≡ regex_text ts ++ replace_params 0 s
replace_params-render [] s h = refl
replace_params-render (lit c ∷ ts) s h =
    rw (replace_params_step c (render ts ++ s) (param_at-lit c (render ts ++ s) h.0))
      (ap (λ x. c ∷ x) (replace_params-render ts s h.1))
replace_params-render (param c n ∷ ts) s h =
    ap (λ x. replace_params 0 (b'{' ∷ b':' ∷ c ∷ x)) (append_assoc n (b'}' ∷ render ts) s)
    ∙ rw (replace_params_param c n (render ts ++ s) h.0)
        (ap (λ x. group_text ++ x) (replace_params-render ts s h.1))

-- The parameter names of a plain path are those of its parameters, in order.
pub parameter_names-render :
    (ts : List Token) → All IsPlain ts → parameter_names 0 (render ts) ≡ names ts
parameter_names-render [] h = unfold parameter_names in refl
parameter_names-render (lit c ∷ ts) h =
    rw (parameter_names_step c (render ts) (param_at-lit c (render ts) h.0))
      (parameter_names-render ts h.1)
parameter_names-render (param c n ∷ ts) h =
    rw (parameter_names_param c n (render ts) h.0)
      (ap (λ ns. (c ∷ n) ∷ ns) (parameter_names-render ts h.1))

-- The text behind an atom does not begin with a quantifier.
abbrev pub is_quantifier : ℕ → Bool
is_quantifier c = c == b'*' || c == b'+' || c == b'?'

abbrev starts_plain : Bytes → Bool
starts_plain [] = true
starts_plain (c ∷ s) = not (is_quantifier c)

regex_text-starts_plain :
    (ts : List Token) (s : Bytes)
    → All IsPlain ts
    → starts_plain s ≡ true
    → starts_plain (regex_text ts ++ s) ≡ true
regex_text-starts_plain [] s h p = p
regex_text-starts_plain (lit c ∷ ts) s h p = ground arith
regex_text-starts_plain (param c n ∷ ts) s h p = refl

special_ends :
    (c : ℕ)
    → is_special c ≡ false
    → ((c == b'$') ≡ false)
      × ((c == b'(') ≡ false)
      × ((c == b')') ≡ false)
      × ((c == b'[') ≡ false)
      × ((c == b'\\') ≡ false)
special_ends c h = ground arith

quantified_one : (a : Atom) (s : Bytes) → starts_plain s ≡ true → quantified a s ≡ (one a, 0)
quantified_one a [] p = refl
quantified_one a (d ∷ s) p = ground arith

atom_of_chr : (c : ℕ) → (c == b'.') ≡ false → atom_of c ≡ chr c
atom_of_chr c h = rw h

element_lit :
    (c : ℕ) (s : Bytes)
    → IsPlain (lit c)
    → starts_plain s ≡ true
    → element c s ≡ piece (one (chr c)) 0
unfolding element
element_lit c s (ordinary, no_dot) p =
    let (no_end, no_group, no_close, no_class, no_escape) = special_ends c ordinary in
    rw (
      no_end,
      no_group,
      no_close,
      no_class,
      no_escape,
      ordinary,
      atom_of_chr c no_dot,
      quantified_one (chr c) s p,
    )

parse_pieces_lit :
    (c : ℕ) (s : Bytes)
    → IsPlain (lit c)
    → starts_plain s ≡ true
    → parse_pieces 0 (c ∷ s) ≡ prepend (one (chr c)) (parse_pieces 0 s)
unfolding parse_pieces
parse_pieces_lit c s plain p = rw (element_lit c s plain p, parse_pieces)

parse_pieces_group :
    (s : Bytes) → parse_pieces 0 (group_text ++ s) ≡ prepend group (parse_pieces 0 s)
unfolding parse_pieces
parse_pieces_group s = refl

-- What stands behind a plain path is parsed behind its pieces.
abbrev prepend_all : List Piece → Regex → Regex
prepend_all [] r = r
prepend_all (p ∷ ps) r = prepend p (prepend_all ps r)

prepend_all-compiled : (ps qs : List Piece) → prepend_all ps (compiled qs) ≡ compiled (ps ++ qs)
prepend_all-compiled [] qs = refl
prepend_all-compiled (p ∷ ps) qs = rw (prepend_all-compiled ps qs)

pub prepend_all-malformed : (ps : List Piece) → prepend_all ps malformed ≡ malformed
prepend_all-malformed [] = refl
prepend_all-malformed (p ∷ ps) = rw (prepend_all-malformed ps)

pub parse_pieces-regex_text :
    (ts : List Token) (s : Bytes)
    → All IsPlain ts
    → starts_plain s ≡ true
    → parse_pieces 0 (regex_text ts ++ s) ≡ prepend_all (pieces ts) (parse_pieces 0 s)
parse_pieces-regex_text [] s h p = refl
parse_pieces-regex_text (lit c ∷ ts) s h p = rw (
  parse_pieces_lit c (regex_text ts ++ s) h.0 (regex_text-starts_plain ts s h.1 p),
  parse_pieces-regex_text ts s h.1 p,
)
parse_pieces-regex_text (param c n ∷ ts) s h p =
    rw (parse_pieces_group (regex_text ts ++ s), parse_pieces-regex_text ts s h.1 p)

pub full_regex-render :
    (ts : List Token) (s : Bytes)
    → All IsPlain ts
    → full_regex (render ts ++ s) ≡ b'^' ∷ (regex_text ts ++ (replace_params 0 s ++ codes "$"))
unfolding full_regex
full_regex-render ts s h = rw (replace_params-render ts s h) (rw append_assoc)

-- The regular expression of a plain path matches its bytes one by one, and a group for each
-- parameter.
pub compile-full_regex :
    (ts : List Token) → All IsPlain ts → compile (full_regex (render ts)) ≡ compiled (pieces ts)
unfolding compile replace_params
compile-full_regex ts h =
    ap (λ x. compile (full_regex x)) (sym (append-nil (render ts)))
    ∙ rw (full_regex-render ts [] h) (
        parse_pieces-regex_text ts (codes "$") h refl
        ∙ unfold parse_pieces in
          prepend_all-compiled (pieces ts) [] ∙ ap compiled (append-nil (pieces ts)))

-- ===== src/Pattern/Language.antt =====
-- What a list of pieces means, with no order in which alternatives are tried.
use just_queue_it.Base.{
  ℕ, suc, Bytes, true, ◌≡◌, ◌≢◌, ◌⊎◌, refl, ap, ◌∙◌, none, some, List, [], ◌∷◌, ◌++◌, length, inl,
  inr, Bool-cases, Option-cases, arith,
}
use just_queue_it.Pattern.{
  Atom, Piece, one, opt, star, plus, group, atom_ok, match_star, match_pieces,
}
use just_queue_it.Pattern.Token.{IsSegment}
use just_queue_it.Pattern.Match.{match_group_sound, match_group_complete}

-- The pieces match the whole text, with these texts for the groups.
pub data InLanguage : List Piece → Bytes → List Bytes → Type 0 where
  done : InLanguage [] [] []
  one_byte :
      {a : Atom} {ps : List Piece} {c : ℕ} {s : Bytes} {vs : List Bytes}
      → atom_ok a c ≡ true
      → InLanguage ps s vs
      → InLanguage (one a ∷ ps) (c ∷ s) vs
  opt_none :
      {a : Atom} {ps : List Piece} {s : Bytes} {vs : List Bytes}
      → InLanguage ps s vs
      → InLanguage (opt a ∷ ps) s vs
  opt_byte :
      {a : Atom} {ps : List Piece} {c : ℕ} {s : Bytes} {vs : List Bytes}
      → atom_ok a c ≡ true
      → InLanguage ps s vs
      → InLanguage (opt a ∷ ps) (c ∷ s) vs
  star_none :
      {a : Atom} {ps : List Piece} {s : Bytes} {vs : List Bytes}
      → InLanguage ps s vs
      → InLanguage (star a ∷ ps) s vs
  star_byte :
      {a : Atom} {ps : List Piece} {c : ℕ} {s : Bytes} {vs : List Bytes}
      → atom_ok a c ≡ true
      → InLanguage (star a ∷ ps) s vs
      → InLanguage (star a ∷ ps) (c ∷ s) vs
  plus_byte :
      {a : Atom} {ps : List Piece} {c : ℕ} {s : Bytes} {vs : List Bytes}
      → atom_ok a c ≡ true
      → InLanguage (star a ∷ ps) s vs
      → InLanguage (plus a ∷ ps) (c ∷ s) vs
  segment :
      {ps : List Piece} {u t : Bytes} {s : Bytes} {vs : List Bytes}
      → IsSegment u
      → s ≡ u ++ t
      → InLanguage ps t vs
      → InLanguage (group ∷ ps) s (u ∷ vs)

-- The number of groups.
abbrev pub groups : List Piece → ℕ
groups [] = 0
groups (group ∷ ps) = suc (groups ps)
groups (_ ∷ ps) = groups ps

module _ (a : Atom) (ps : List Piece) where
  module _
      (sound : (s : Bytes) (vs : List Bytes)
        → match_pieces ps s ≡ some vs
        → InLanguage ps s vs) where
    match_star_sound :
        (s : Bytes) (vs : List Bytes)
        → match_star (atom_ok a) (match_pieces ps) s ≡ some vs
        → InLanguage (star a ∷ ps) s vs
    unfolding match_star
    match_star_sound [] vs e = star_none (sound [] vs e)
    match_star_sound (c ∷ s) vs e = elim (Bool-cases (atom_ok a c)) [
      | inr stops ↦ star_none (sound (c ∷ s) vs (ground arith))
      | inl goes ↦ elim (Option-cases (match_star (atom_ok a) (match_pieces ps) s)) [
        | inl no_more ↦ star_none (sound (c ∷ s) vs (ground arith))
        | inr (ws, more) ↦
            let same : ws ≡ vs = ground arith in
            star_byte goes (match_star_sound s vs (more ∙ ap some same))
      ]
    ]

  module _
      (complete : (s : Bytes) (vs : List Bytes)
        → InLanguage ps s vs
        → match_pieces ps s ≢ none) where
    match_star_complete :
        {s : Bytes} {vs : List Bytes}
        → InLanguage (star a ∷ ps) s vs
        → match_star (atom_ok a) (match_pieces ps) s ≢ none
    unfolding match_star
    match_star_complete (star_none {s = []} {vs = vs} d) = complete [] vs d
    match_star_complete (star_none {s = c ∷ s} {vs = vs} d) =
        let here : match_pieces ps (c ∷ s) ≢ none = complete (c ∷ s) vs d in ground arith
    match_star_complete (star_byte {s = s} h d) =
        let later : match_star (atom_ok a) (match_pieces ps) s ≢ none = match_star_complete d in
        ground arith

match_pieces-InLanguage :
    (ps : List Piece) (s : Bytes) (vs : List Bytes)
    → match_pieces ps s ≡ some vs
    → InLanguage ps s vs
unfolding match_pieces
match_pieces-InLanguage [] [] [] e = done
match_pieces-InLanguage [] [] (v ∷ vs) e = cc
match_pieces-InLanguage [] (c ∷ s) vs e = cc
match_pieces-InLanguage (one a ∷ ps) [] vs e = cc
match_pieces-InLanguage (one a ∷ ps) (c ∷ s) vs e = elim (Bool-cases (atom_ok a c)) [
  | inl fits ↦ one_byte fits (match_pieces-InLanguage ps s vs (ground arith))
  | inr misses ↦ absurd (ground arith)
]
match_pieces-InLanguage (opt a ∷ ps) [] vs e = opt_none (match_pieces-InLanguage ps [] vs e)
match_pieces-InLanguage (opt a ∷ ps) (c ∷ s) vs e = elim (Bool-cases (atom_ok a c)) [
  | inl fits ↦ elim (Option-cases (match_pieces ps s)) [
    | inl no_rest ↦ opt_none (match_pieces-InLanguage ps (c ∷ s) vs (ground arith))
    | inr (ws, rest) ↦
        let same : ws ≡ vs = ground arith in
        opt_byte fits (match_pieces-InLanguage ps s vs (rest ∙ ap some same))
  ]
  | inr misses ↦ opt_none (match_pieces-InLanguage ps (c ∷ s) vs (ground arith))
]
match_pieces-InLanguage (star a ∷ ps) s vs e =
    match_star_sound a ps (match_pieces-InLanguage ps) s vs e
match_pieces-InLanguage (plus a ∷ ps) [] vs e = cc
match_pieces-InLanguage (plus a ∷ ps) (c ∷ s) vs e = elim (Bool-cases (atom_ok a c)) [
  | inl fits ↦
      plus_byte fits (match_star_sound a ps (match_pieces-InLanguage ps) s vs (ground arith))
  | inr misses ↦ absurd (ground arith)
]
match_pieces-InLanguage (group ∷ ps) s vs e =
    let (u, t, ws, split, is_segment, matched, same) = match_group_sound ps s vs e in
    rw same (segment is_segment split (match_pieces-InLanguage ps t ws matched))

InLanguage-match_pieces :
    (ps : List Piece) (s : Bytes) (vs : List Bytes) → InLanguage ps s vs → match_pieces ps s ≢ none
unfolding match_pieces
InLanguage-match_pieces [] s vs done = cc
InLanguage-match_pieces (one a ∷ ps) s vs (one_byte {c = c} {s = t} h d) =
    let rest = InLanguage-match_pieces ps t vs d in ground arith
InLanguage-match_pieces (opt a ∷ ps) [] vs (opt_none d) = InLanguage-match_pieces ps [] vs d
InLanguage-match_pieces (opt a ∷ ps) (c ∷ s) vs (opt_none d) =
    let rest = InLanguage-match_pieces ps (c ∷ s) vs d in ground arith
InLanguage-match_pieces (opt a ∷ ps) (c ∷ s) vs (opt_byte h d) =
    let rest = InLanguage-match_pieces ps s vs d in ground arith
InLanguage-match_pieces (star a ∷ ps) s vs d =
    match_star_complete a ps (InLanguage-match_pieces ps) d
InLanguage-match_pieces (plus a ∷ ps) [] vs d = elim d [ ]
InLanguage-match_pieces (plus a ∷ ps) (c ∷ s) vs (plus_byte h d) =
    let rest = match_star_complete a ps (InLanguage-match_pieces ps) d in ground arith
InLanguage-match_pieces (group ∷ ps) s vs (segment {u = u} {t = t} {vs = ws} is_segment split d) =
    rw split (match_group_complete ps u t is_segment (InLanguage-match_pieces ps t ws d))

length-InLanguage :
    {ps : List Piece} {s : Bytes} {vs : List Bytes} → InLanguage ps s vs → length vs ≡ groups ps
length-InLanguage done = refl
length-InLanguage (one_byte h d) = length-InLanguage d
length-InLanguage (opt_none d) = length-InLanguage d
length-InLanguage (opt_byte h d) = length-InLanguage d
length-InLanguage (star_none d) = length-InLanguage d
length-InLanguage (star_byte h d) = length-InLanguage d
length-InLanguage (plus_byte h d) = length-InLanguage d
length-InLanguage (segment i e d) = ap suc (length-InLanguage d)

-- A URL is matched exactly if it is in the language of the pieces: with texts for the groups that
-- are found there is a match with these texts, one for each group; and if there is a match with any
-- texts, then texts are found.
pub match_pieces-decides :
    (ps : List Piece) (s : Bytes)
    → ((match_pieces ps s ≡ none) × ((vs : List Bytes) → ¬ InLanguage ps s vs))
      ⊎ ((vs : List Bytes) × (match_pieces ps s ≡ some vs)
          × InLanguage ps s vs
          × (length vs ≡ groups ps))
match_pieces-decides ps s = elim (Option-cases (match_pieces ps s)) [
  | inl missed ↦ inl (missed, λ vs d. InLanguage-match_pieces ps s vs d missed)
  | inr (vs, e) ↦ let d = match_pieces-InLanguage ps s vs e in inr (vs, e, d, length-InLanguage d)
]

-- ===== src/Pattern/Match.antt =====
-- What the regular expression of a plain path matches.
use mathlib.Core.Option
use just_queue_it.Base.{
  ℕ, suc, Bytes, true, false, ◌≡◌, ◌≢◌, refl, sym, ap, ◌∙◌, Option, none, some, List, [], ◌∷◌, ◌++◌,
  append_assoc, append-nil, length, All, inl, inr, Bool-cases, Option-cases, arith,
}
use just_queue_it.Pattern.{Piece, group, in_segment, match_segment, match_pieces}
use just_queue_it.Pattern.Token.{Token, lit, param, names, pieces, fill, IsSegment, IsSeparated}

-- The text is at its end or before a slash.
abbrev IsCut : Bytes → Type 0
IsCut [] = Unit
IsCut (c ∷ t) = in_segment c ≡ false

module _ {R : Type 0} (rest : Bytes → Bytes → Option R) where
  match_segment_sound :
      (text s : Bytes) (r : R)
      → match_segment rest text s ≡ some r
      → (u t : Bytes) × (s ≡ u ++ t)
        × All (λ c. in_segment c ≡ true) u
        × (rest (text ++ u) t ≡ some r)
  unfolding match_segment
  match_segment_sound text [] r e = ([], [], refl, tt, rw append-nil e)
  match_segment_sound text (c ∷ s) r e = elim (Bool-cases (in_segment c)) [
    | inr out ↦ ([], c ∷ s, refl, tt, rw append-nil (ground arith))
    | inl inside ↦ elim (Option-cases (match_segment rest (text ++ c ∷ []) s)) [
      | inl none_longer ↦ ([], c ∷ s, refl, tt, rw append-nil (ground arith))
      | inr (r', longer) ↦
          let same : some r' ≡ some r = ground arith in
          let (u, t, split, ok, done) = match_segment_sound (text ++ c ∷ []) s r (longer ∙ same) in
          (c ∷ u, t, ap (λ x. c ∷ x) split, (inside, ok), rw append_assoc at done)
    ]
  ]

  match_segment_complete :
      (text u t : Bytes)
      → All (λ c. in_segment c ≡ true) u
      → rest (text ++ u) t ≢ none
      → match_segment rest text (u ++ t) ≢ none
  unfolding match_segment
  match_segment_complete text [] [] ok h = rw append-nil at h
  match_segment_complete text [] (c ∷ t) ok h =
      let here : rest text (c ∷ t) ≢ none = rw append-nil at h in ground arith
  match_segment_complete text (c ∷ u) t (inside, ok) h =
      let longer = match_segment_complete (text ++ c ∷ []) u t ok (rw append_assoc h) in
      ground arith

  -- The longest text comes first: it ends where the segment does.
  match_segment_longest :
      (text u t : Bytes) (r : R)
      → All (λ c. in_segment c ≡ true) u
      → IsCut t
      → rest (text ++ u) t ≡ some r
      → match_segment rest text (u ++ t) ≡ some r
  unfolding match_segment
  match_segment_longest text [] [] r ok cut h = rw append-nil at h
  match_segment_longest text [] (c ∷ t) r ok cut h =
      let here : rest text (c ∷ t) ≡ some r = rw append-nil at h in ground arith
  match_segment_longest text (c ∷ u) t r (inside, ok) cut h =
      ground (arith, match_segment_longest (text ++ c ∷ []) u t r ok cut (rw append_assoc h))

map-eq-some :
    {A B : Type 0} (f : A → B) (o : Option A) {b : B}
    → Option.map f o ≡ some b
    → (a : A) × (o ≡ some a) × (f a ≡ b)
map-eq-some f o e = (Option.map-eq-some_iff f o).0 e

module _ (ps : List Piece) where
  -- What a group does with the text that it has taken.
  abbrev after_group : Bytes → Bytes → Option (List Bytes)
  after_group text rest = Option.map (λ vs. text ∷ vs) (match_pieces ps rest)

  pub match_group_sound :
      (s : Bytes) (vs : List Bytes)
      → match_pieces (group ∷ ps) s ≡ some vs
      → (u : Bytes) × (t : Bytes) × (ws : List Bytes) × (s ≡ u ++ t)
        × IsSegment u
        × (match_pieces ps t ≡ some ws)
        × (vs ≡ u ∷ ws)
  unfolding match_pieces
  match_group_sound [] vs e = cc
  match_group_sound (c ∷ s) vs e =
      let inside : in_segment c ≡ true = ground arith in
      let taken : match_segment after_group (c ∷ []) s ≡ some vs = ground arith in
      let (u, t, split, ok, done) = match_segment_sound after_group (c ∷ []) s vs taken in
      let (ws, matched, same) = map-eq-some (λ vs. (c ∷ u) ∷ vs) (match_pieces ps t) done in
      (c ∷ u, t, ws, ap (λ x. c ∷ x) split, ((cc), (inside, ok)), matched, sym same)

  pub match_group_complete :
      (u t : Bytes)
      → IsSegment u
      → match_pieces ps t ≢ none
      → match_pieces (group ∷ ps) (u ++ t) ≢ none
  unfolding match_pieces
  match_group_complete [] t (ne, ok) h = absurd (ne refl)
  match_group_complete (c ∷ u) t (ne, (inside, ok)) h =
      let longer : match_segment after_group (c ∷ []) (u ++ t) ≢ none =
        match_segment_complete after_group (c ∷ []) u t ok (ground arith) in
      ground arith

  match_group_longest :
      (u t : Bytes) (ws : List Bytes)
      → IsSegment u
      → IsCut t
      → match_pieces ps t ≡ some ws
      → match_pieces (group ∷ ps) (u ++ t) ≡ some (u ∷ ws)
  unfolding match_pieces
  match_group_longest [] t ws (ne, ok) cut h = absurd (ne refl)
  match_group_longest (c ∷ u) t ws (ne, (inside, ok)) cut h =
      let longer : match_segment after_group (c ∷ []) (u ++ t) ≡ some ((c ∷ u) ∷ ws) =
        match_segment_longest after_group (c ∷ []) u t ((c ∷ u) ∷ ws) ok cut (ground arith) in
      ground arith

-- If the pieces of a path match a URL with some texts for its groups, then the texts are segments,
-- one for each parameter, and the URL is the path with the texts in their places.
pub match_pieces_sound :
    (ts : List Token) (url : Bytes) (vs : List Bytes)
    → match_pieces (pieces ts) url ≡ some vs
    → (url ≡ fill ts vs) × All IsSegment vs × (length vs ≡ length (names ts))
unfolding match_pieces
match_pieces_sound [] [] vs e = ground arith
match_pieces_sound [] (c ∷ s) vs e = cc
match_pieces_sound (lit a ∷ ts) [] vs e = cc
match_pieces_sound (lit a ∷ ts) (c ∷ s) vs e = ground (arith, match_pieces_sound ts s vs)
match_pieces_sound (param a n ∷ ts) s vs e =
    let (u, t, ws, split, segment, matched, same) = match_group_sound (pieces ts) s vs e in
    let (url, segments, count) = match_pieces_sound ts t ws matched in
    rw same (split ∙ ap (λ x. u ++ x) url, (segment, segments), ap suc count)

-- A path with segments in the places of its parameters, one for each, is matched.
pub match_pieces_complete :
    (ts : List Token) (vs : List Bytes)
    → All IsSegment vs
    → length vs ≡ length (names ts)
    → match_pieces (pieces ts) (fill ts vs) ≢ none
unfolding match_pieces
match_pieces_complete [] [] ok e = cc
match_pieces_complete [] (v ∷ vs) ok e = absurd (omega arith)
match_pieces_complete (lit a ∷ ts) vs ok e = ground (arith, match_pieces_complete ts vs ok e)
match_pieces_complete (param a n ∷ ts) [] ok e = absurd (omega arith)
match_pieces_complete (param a n ∷ ts) (v ∷ vs) (segment, ok) e =
    match_group_complete (pieces ts) v (fill ts vs) segment
      (match_pieces_complete ts vs ok (omega arith))

IsCut-fill :
    (a : ℕ) (n : Bytes) (ts : List Token) (vs : List Bytes)
    → IsSeparated (param a n ∷ ts)
    → IsCut (fill ts vs) × IsSeparated ts
IsCut-fill a n [] vs h = (tt, tt)
IsCut-fill a n (lit d ∷ ts) vs h = h
IsCut-fill a n (param d m ∷ ts) vs h = absurd h

-- If every parameter of a path ends at a slash or at the end, the path with segments in the places
-- of its parameters, one for each, is matched, and the groups have these segments in order.
pub match_pieces-fill :
    (ts : List Token) (vs : List Bytes)
    → IsSeparated ts
    → All IsSegment vs
    → length vs ≡ length (names ts)
    → match_pieces (pieces ts) (fill ts vs) ≡ some vs
unfolding match_pieces
match_pieces-fill [] [] sep ok e = refl
match_pieces-fill [] (v ∷ vs) sep ok e = absurd (omega arith)
match_pieces-fill (lit a ∷ ts) vs sep ok e = ground (arith, match_pieces-fill ts vs sep ok e)
match_pieces-fill (param a n ∷ ts) [] sep ok e = absurd (omega arith)
match_pieces-fill (param a n ∷ ts) (v ∷ vs) sep (segment, ok) e =
    let (cut, separated) = IsCut-fill a n ts vs sep in
    match_group_longest (pieces ts) v (fill ts vs) vs segment cut
      (match_pieces-fill ts vs separated ok (omega arith))

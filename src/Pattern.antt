-- ===== src/Pattern.antt =====
-- The regular expressions of src/libraries/rest/router/rest_router.cpp: the path of a route becomes
-- an ECMAScript `std::regex`, which is then matched against the whole of a URL. Modelled of
-- `std::regex` are ordinary characters, `.`, classes in brackets, and the escapes `\d`, `\D`, `\w`,
-- `\W` and of punctuation, each with a quantifier `*`, `+` or `?` or none, the group `([^/]+)`, and
-- the anchors `^` and `$` at the two ends; and the errors of brackets and parentheses that do not
-- match and of ranges that run backwards. A pattern with any other construct is `unmodelled`, and
-- nothing is said of it.
pub mod Params
pub mod Token
pub mod Compile
pub mod Match
pub mod Language
pub mod Malformed
mod Tests
use mathlib.Core.Option
use just_queue_it.Base.{
  ℕ, zero, suc, ◌+◌, Bytes, codes, bytes_eq, Bool, true, false, not, ◌&&◌, ◌||◌, Option, none, some,
  List, [], ◌∷◌, ◌++◌, ltb, leb, ◌==◌, if◌then◌else◌, length, take, drop,
}

-- `set` is a class in brackets, negated or not, with the ranges that it lists.
pub data Atom : Type 0 where
  chr : ℕ → Atom
  dot : Atom
  set : Bool → List (ℕ × ℕ) → Atom

-- `group` is `([^/]+)`.
pub data Piece : Type 0 where
  one opt star plus : Atom → Piece
  group : Piece

-- `malformed` is a text for which the constructor throws a `std::regex_error`.
pub data Regex : Type 0 where
  compiled : List Piece → Regex
  malformed unmodelled : Regex

abbrev pub is_one_of : Bytes → ℕ → Bool
is_one_of [] c = false
is_one_of (a ∷ s) c = a == c || is_one_of s c

-- The bytes that are no ordinary characters, less `.`.
abbrev pub is_special : ℕ → Bool
is_special c = is_one_of (codes "^$\\()[]{}|*+?") c

abbrev atom_of : ℕ → Atom
atom_of c = if c == b'.' then dot else chr c

-- What the byte after an atom makes of it, and how many bytes that takes.
abbrev quantified : Atom → Bytes → Piece × ℕ
quantified a [] = (one a, 0)
quantified a (q ∷ s) =
    if q == b'*'
    then (star a, 1)
    else if q == b'+'
    then (plus a, 1)
    else if q == b'?'
    then (opt a, 1)
    else (one a, 0)

-- The next part of a pattern: the `$` that ends it, a piece with the number of bytes that it takes
-- behind its first, an error, or a construct that is not modelled.
pub data Element : Type 0 where
  ends : Element
  piece : Piece → ℕ → Element
  wrong unknown : Element

-- An atom that takes a number of bytes behind its first, with the quantifier behind it.
abbrev atom_at : Atom → ℕ → Bytes → Element
atom_at a width s = let (p, more) = quantified a (drop width s) in piece p (width + more)

-- The items of a class up to the bracket that closes it, with the number of bytes read.
pub data Class : Type 0 where
  closed : List (ℕ × ℕ) → ℕ → Class
  bad_range open_class : Class

abbrev with_span : ℕ × ℕ → ℕ → Class → Class
with_span span width (closed spans n) = closed (span ∷ spans) (width + n)
with_span span width bad_range = bad_range
with_span span width open_class = open_class

-- What has a meaning of its own in a class, or none that is modelled.
abbrev is_odd : ℕ → Bool
is_odd c = is_one_of (codes "\\[]-") c || leb 128 c

class_items : Bytes → Class
class_items [] = open_class
class_items (a ∷ d ∷ b ∷ rest) =
    let range = with_span (a, b) 3 (class_items rest) in
    let single = with_span (a, a) 1 (class_items (d ∷ b ∷ rest)) in
    if a == b']'
    then closed [] 1
    else if is_odd a
    then open_class
    else if not (d == b'-')
    then single
    else if is_odd b
    then open_class
    else if ltb b a
    then bad_range
    else range
class_items (a ∷ rest) =
    if a == b']'
    then closed [] 1
    else if is_odd a
    then open_class
    else with_span (a, a) 1 (class_items rest)

abbrev class_atom : Bool → ℕ → Bytes → Class → Element
class_atom negated width s (closed spans n) = atom_at (set negated spans) (width + n) s
class_atom negated width s bad_range = wrong
class_atom negated width s open_class = unknown

-- Behind a `[`. A bracket that nothing closes is an error.
pub bracketed : Bytes → Element
unfolding class_items
bracketed [] = wrong
bracketed (c ∷ s) =
    if not (is_one_of (c ∷ s) b']')
    then wrong
    else if c == b'^'
    then class_atom true 1 (c ∷ s) (class_items s)
    else class_atom false 0 (c ∷ s) (class_items (c ∷ s))

abbrev digits : List (ℕ × ℕ)
digits = (b'0', b'9') ∷ []

-- `[A-Za-z0-9_]`
abbrev word : List (ℕ × ℕ)
word = (b'A', b'Z') ∷ (b'a', b'z') ∷ (b'0', b'9') ∷ (b'_', b'_') ∷ []

-- Behind a backslash: a class by its letter, or a byte of punctuation for itself.
escaped : Bytes → Element
escaped [] = wrong
escaped (e ∷ s) =
    if e == b'd'
    then atom_at (set false digits) 1 (e ∷ s)
    else if e == b'D'
    then atom_at (set true digits) 1 (e ∷ s)
    else if e == b'w'
    then atom_at (set false word) 1 (e ∷ s)
    else if e == b'W'
    then atom_at (set true word) 1 (e ∷ s)
    else if is_special e || is_one_of (codes "./-") e
    then atom_at (chr e) 1 (e ∷ s)
    else unknown

abbrev pub group_rest : Bytes
group_rest = codes "[^/]+)"

-- Behind a `(`. A parenthesis that nothing closes is an error.
abbrev pub grouped : Bytes → Element
grouped s =
    if bytes_eq (take 6 s) group_rest
    then piece group 6
    else if is_one_of s b')'
    then unknown
    else wrong

pub element : ℕ → Bytes → Element
unfolding bracketed escaped
element c s =
    if c == b'$' && bytes_eq s []
    then ends
    else if c == b'('
    then grouped s
    else if c == b')'
    then wrong
    else if c == b'['
    then bracketed s
    else if c == b'\\'
    then escaped s
    else if is_special c
    then unknown
    else atom_at (atom_of c) 0 s

abbrev pub prepend : Piece → Regex → Regex
prepend p (compiled ps) = compiled (p ∷ ps)
prepend p malformed = malformed
prepend p unmodelled = unmodelled

-- The pieces behind the leading `^`. The first argument counts bytes that are part of the piece
-- before. The whole text of a URL is matched, so that a `$` at the end may be missing, as where a
-- backslash stands before it.
pub parse_pieces : ℕ → Bytes → Regex
unfolding element
parse_pieces zero [] = compiled []
parse_pieces (suc k) [] = unmodelled
parse_pieces (suc k) (c ∷ s) = parse_pieces k s
parse_pieces zero (c ∷ s) = elim (element c s) [
  | ends ↦ compiled []
  | piece p width ↦ prepend p (parse_pieces width s)
  | wrong ↦ malformed
  | unknown ↦ unmodelled
]

-- `std::regex(text)`
unfoldable pub compile : Bytes → Regex
unfolding parse_pieces
compile [] = unmodelled
compile (c ∷ s) = if c == b'^' then parse_pieces 0 s else unmodelled

abbrev in_spans : List (ℕ × ℕ) → ℕ → Bool
in_spans [] c = false
in_spans ((a, b) ∷ spans) c = (leb a c && leb c b) || in_spans spans c

abbrev pub atom_ok : Atom → ℕ → Bool
atom_ok (chr a) c = a == c
atom_ok dot c = not (c == b'\n' || c == b'\r')
atom_ok (set negated spans) c = if negated then not (in_spans spans c) else in_spans spans c

abbrev pub in_segment : ℕ → Bool
in_segment c = not (c == b'/')

module _ {R : Type 0} where
  -- As many bytes as possible, then fewer: the first number with which the rest matches.
  pub match_star : (ℕ → Bool) → (Bytes → Option R) → Bytes → Option R
  match_star test rest [] = rest []
  match_star test rest (c ∷ s) = elim (test c) [
    | true ↦ elim (match_star test rest s) [ some r ↦ some r | none ↦ rest (c ∷ s) ]
    | false ↦ rest (c ∷ s)
  ]

  -- The same over the bytes of a segment, which are collected behind `text`.
  pub match_segment : (Bytes → Bytes → Option R) → Bytes → Bytes → Option R
  match_segment rest text [] = rest text []
  match_segment rest text (c ∷ s) = elim (in_segment c) [
    | true ↦ elim (match_segment rest (text ++ c ∷ []) s) [
      | some r ↦ some r
      | none ↦ rest text (c ∷ s)
    ]
    | false ↦ rest text (c ∷ s)
  ]

  abbrev pub first_of_two : Option R → Option R → Option R
  first_of_two (some r) other = some r
  first_of_two none other = other

-- `std::regex_match(url, match, pattern)`: the groups of `match` from index 1 on, if the pieces
-- match the whole text. The alternatives are tried in ECMAScript's order.
unfoldable pub match_pieces : List Piece → Bytes → Option (List Bytes)
unfolding match_star match_segment
match_pieces [] [] = some []
match_pieces [] (c ∷ s) = none
match_pieces (one a ∷ ps) [] = none
match_pieces (one a ∷ ps) (c ∷ s) = if atom_ok a c then match_pieces ps s else none
match_pieces (opt a ∷ ps) [] = match_pieces ps []
match_pieces (opt a ∷ ps) (c ∷ s) =
    let taken = match_pieces ps s in
    let left = match_pieces ps (c ∷ s) in if atom_ok a c then first_of_two taken left else left
match_pieces (star a ∷ ps) s = match_star (atom_ok a) (match_pieces ps) s
match_pieces (plus a ∷ ps) [] = none
match_pieces (plus a ∷ ps) (c ∷ s) =
    if atom_ok a c then match_star (atom_ok a) (match_pieces ps) s else none
match_pieces (group ∷ ps) [] = none
match_pieces (group ∷ ps) (c ∷ s) =
    if in_segment c
    then match_segment (λ text rest. Option.map (λ ts. text ∷ ts) (match_pieces ps rest)) (c ∷ []) s
    else none

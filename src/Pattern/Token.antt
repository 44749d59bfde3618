-- ===== src/Pattern/Token.antt =====
-- Route paths as the comment of `Router::AddRoute` means them
-- (src/libraries/rest/router/rest_router.hpp): ordinary text with parameters `{:name}`, each of
-- which stands for one segment of a URL.
use just_queue_it.Base.{ℕ, Bytes, true, false, ◌≡◌, ◌≢◌, List, [], ◌∷◌, ◌++◌, ◌==◌, All}
use just_queue_it.Pattern.{Piece, one, group, chr, is_special, in_segment}
use just_queue_it.Pattern.Params.{is_name_start, is_name_char}

-- A parameter's name is a first byte and the bytes behind it.
pub data Token : Type 0 where
  lit : ℕ → Token
  param : ℕ → Bytes → Token

-- The path as the program writes it.
abbrev pub render : List Token → Bytes
render [] = []
render (lit c ∷ ts) = c ∷ render ts
render (param c n ∷ ts) = b'{' ∷ b':' ∷ c ∷ (n ++ b'}' ∷ render ts)

abbrev pub names : List Token → List Bytes
names [] = []
names (lit c ∷ ts) = names ts
names (param c n ∷ ts) = (c ∷ n) ∷ names ts

abbrev pub pieces : List Token → List Piece
pieces [] = []
pieces (lit c ∷ ts) = one (chr c) ∷ pieces ts
pieces (param c n ∷ ts) = group ∷ pieces ts

-- A byte with no meaning in a regular expression, or the name of a parameter.
abbrev pub IsPlain : Token → Type 0
IsPlain (lit c) = (is_special c ≡ false) × ((c == b'.') ≡ false)
IsPlain (param c n) = (is_name_start c ≡ true) × All (λ d. is_name_char d ≡ true) n

-- What a parameter stands for: some bytes, none of them a slash.
abbrev pub IsSegment : Bytes → Type 0
IsSegment v = (v ≢ []) × All (λ c. in_segment c ≡ true) v

-- The URL with the values in the places of the parameters.
abbrev pub fill : List Token → List Bytes → Bytes
fill [] vs = []
fill (lit c ∷ ts) vs = c ∷ fill ts vs
fill (param c n ∷ ts) [] = fill ts []
fill (param c n ∷ ts) (v ∷ vs) = v ++ fill ts vs

-- Each parameter stands at the end of the path or before a slash.
abbrev pub IsSeparated : List Token → Type 0
IsSeparated [] = Unit
IsSeparated (lit c ∷ ts) = IsSeparated ts
IsSeparated (param c n ∷ []) = Unit
IsSeparated (param c n ∷ lit d ∷ ts) = (in_segment d ≡ false) × IsSeparated ts
IsSeparated (param c n ∷ param d m ∷ ts) = ⊥

-- ===== src/Core/Content.antt =====
-- `rest::ContentType` and the two `ParseContentType` of src/libraries/rest/core/rest_core.cpp.
-- `rfl::get_enumerator_array` is the list `enumerators` of names and values, a parameter.
use just_queue_it.Base.{
  Bytes, codes, bytes_eq, bytes_eq_iff, ◌≡◌, ◌↔◌, refl, ap, Option, none, some, List, [], ◌∷◌,
  if◌then◌else◌, arith,
}
use mathlib.Core.List.{Memᴰ}

pub data ContentType : Type 0 where
  text_plain application_json : ContentType

unfoldable pub content_type_name : ContentType → Bytes
content_type_name text_plain = codes "text/plain"
content_type_name application_json = codes "application/json"

unfoldable pub parse_content_type : List (Bytes × ContentType) → Bytes → Option ContentType
parse_content_type [] content_type = none
parse_content_type ((_, type) ∷ rest) content_type =
    if bytes_eq (content_type_name type) content_type
    then some type
    else parse_content_type rest content_type

-- The array of the enumerators names each of them.
pub record ListsAll (enumerators : List (Bytes × ContentType)) : Type 0 where
  pub listed : (t : ContentType) → (name : Bytes) × Memᴰ (name, t) enumerators

content_type_name-injective :
    (a b : ContentType) → content_type_name a ≡ content_type_name b → a ≡ b
unfolding content_type_name
content_type_name-injective text_plain text_plain e = refl
content_type_name-injective _ _ e = ground arith

-- What `ParseContentType` returns has the text as its name.
pub parse_content_type_sound :
    (enumerators : List (Bytes × ContentType)) (text : Bytes) (t : ContentType)
    → parse_content_type enumerators text ≡ some t
    → content_type_name t ≡ text
unfolding parse_content_type
parse_content_type_sound [] text t e = cc
parse_content_type_sound ((n, u) ∷ rest) text t e =
    ground (arith, bytes_eq_iff (content_type_name u) text, parse_content_type_sound rest text t)

parse_content_type-listed :
    (enumerators : List (Bytes × ContentType)) (name : Bytes) (t : ContentType)
    → Memᴰ (name, t) enumerators
    → parse_content_type enumerators (content_type_name t) ≡ some t
unfolding parse_content_type
parse_content_type-listed [] name t m = elim m [ ]
parse_content_type-listed ((n, u) ∷ rest) name t (Memᴰ.head e) =
    let same : t ≡ u = ap (λ (p : Bytes × ContentType). p.1) e in
    ground (arith, same, bytes_eq_iff (content_type_name u) (content_type_name t))
parse_content_type-listed ((n, u) ∷ rest) name t (Memᴰ.tail m) = ground (
  arith,
  bytes_eq_iff (content_type_name u) (content_type_name t),
  content_type_name-injective u t,
  parse_content_type-listed rest name t m,
)

-- If the array names every enumerator, a text is parsed to a content type exactly when it is the
-- name of that type.
pub parse_content_type_iff :
    (enumerators : List (Bytes × ContentType)) (text : Bytes) (t : ContentType)
    → ListsAll enumerators
    → (parse_content_type enumerators text ≡ some t) ↔ (content_type_name t ≡ text)
parse_content_type_iff enumerators text t all =
    let (name, here) = all.listed t in
    (
      parse_content_type_sound enumerators text t,
      λ e. rw (← e) (parse_content_type-listed enumerators name t here),
    )

-- ===== src/Core/Tests.antt =====
-- Content types and wrapped values at concrete ones.
use mathlib.Core.List.{Memᴰ}
use std.Path.{PathP, transport}
use just_queue_it.Core.{Method, method_eq}
use just_queue_it.Core.Wrapped.{
  NotDefaultConstructible, equals_value, compare_value, compare_wrapped, wrapped-path,
}
use just_queue_it.Base.{Bytes, Bool, codes, ◌≡◌, refl, none, some, List, [], ◌∷◌}
use just_queue_it.Core.Content.{
  ContentType, text_plain, application_json, content_type_name, parse_content_type, ListsAll,
}

abbrev enumerators : List (Bytes × ContentType)
enumerators = (codes "TextPlain", text_plain) ∷ (codes "ApplicationJson", application_json) ∷ []

enumerators-ListsAll : ListsAll enumerators
enumerators-ListsAll = record { listed = listed }
  where
    listed : (t : ContentType) → (name : Bytes) × Memᴰ (name, t) enumerators
    listed text_plain = (codes "TextPlain", Memᴰ.head refl)
    listed application_json = (codes "ApplicationJson", Memᴰ.tail (Memᴰ.head refl))

parses_json : parse_content_type enumerators (codes "application/json") ≡ some application_json
unfolding parse_content_type content_type_name
parses_json = refl

parses_no_parameter :
    parse_content_type enumerators (codes "application/json; charset=utf-8") ≡ none
unfolding parse_content_type content_type_name
parses_no_parameter = refl

-- The method of a request.
wrapped_method :
    (p : NotDefaultConstructible Method ≡ Method) × ((w : NotDefaultConstructible Method)
      → transport p w ≡ w.value)
    × PathP (λ i. p i → Method → Bool) (equals_value method_eq) method_eq
    × PathP (λ i. p i → Method → Bool) (compare_value method_eq) method_eq
    × PathP (λ i. p i → p i → Bool) (compare_wrapped method_eq) method_eq
wrapped_method = wrapped-path method_eq method_eq

-- ===== src/Router/Binding.antt =====
-- What a handler finds in its parameters.
use just_queue_it.Base.{
  Bytes, bytes_eq, ◌≡◌, refl, Option, none, some, List, [], ◌∷◌, if◌then◌else◌, arith,
}
use just_queue_it.Base.Equality.{bytes_equality}
use just_queue_it.Base.Map.{lookup, insert, lookup-insert}
use just_queue_it.Query.{Params}
use just_queue_it.Router.{bind_params}

abbrev or_else {ℓ} : {A : Type ℓ} → Option A → Option A → Option A
or_else none other = other
or_else (some a) other = some a

-- The text of the last parameter in the path with a name.
abbrev last_text : Bytes → List Bytes → List Bytes → Option Bytes
last_text key [] texts = none
last_text key (name ∷ names) [] = none
last_text key (name ∷ names) (text ∷ texts) =
    or_else (last_text key names texts) (if bytes_eq name key then some text else none)

-- A handler that looks a name up finds the text of the last parameter of the path with that name,
-- whatever the query says, and what the query says if the path has no such parameter.
pub lookup-bind_params :
    (key : Bytes) (names texts : List Bytes) (params : Params)
    → lookup key (bind_params names texts params)
      ≡ or_else (last_text key names texts) (lookup key params)
unfolding bind_params
lookup-bind_params key [] texts params = refl
lookup-bind_params key (name ∷ names) [] params = refl
lookup-bind_params key (name ∷ names) (text ∷ texts) params = ground (
  arith,
  lookup-bind_params key names texts (insert name text params),
  lookup-insert name key text params,
)

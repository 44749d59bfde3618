-- ===== src/Endpoint/Traits/Accepted.antt =====
-- The handlers that `Router::AddRoute` (src/libraries/rest/router/rest_router.hpp) is meant for.
use just_queue_it.Base.{and_both, ℕ, ◌≡◌, refl, Bool, true, false, ◌&&◌, [], ◌∷◌}
use just_queue_it.Endpoint.Traits.{
  Class, request, response, params, serializable_response, Reference, by_value, lvalue, rvalue,
  takes_temporary, Ty, const_ref, Callable, closure, pointer, is_request, is_response, is_params,
  is_base_of_response, takes_mutable, takes_const, const_arguments, body_arguments,
}

pub const_arguments_lem :
    (a b : Ty)
    → const_arguments (a ∷ b ∷ []) ≡ true
    → (takes_const a.reference a.is_const ≡ true) × (takes_const b.reference b.is_const ≡ true)
const_arguments_lem a b e =
    let (front, second) =
      and_both (takes_const a.reference a.is_const && is_params b.class)
        (takes_const b.reference b.is_const) e in
    ((and_both (takes_const a.reference a.is_const) (is_params b.class) front).0, second)

pub body_arguments_lem :
    (a b : Ty)
    → body_arguments (a ∷ b ∷ []) ≡ true
    → (takes_mutable a.reference ≡ true) × (takes_const b.reference b.is_const ≡ true)
body_arguments_lem a b e =
    let (front, second) =
      and_both (takes_mutable a.reference && is_params b.class) (takes_const b.reference b.is_const)
        e in
    ((and_both (takes_mutable a.reference) (is_params b.class) front).0, second)

-- A class with an `operator()` of two arguments, const or not, or a pointer to a function of two.
pub data Takes : Callable → Bool → Ty → Ty → Ty → Type 0 where
  by_closure : {c : Bool} {r a b : Ty} → Takes (closure c r (a ∷ b ∷ [])) c r a b
  by_pointer : {r a b : Ty} → Takes (pointer r (a ∷ b ∷ [])) true r a b

-- `Params` or `const Params&`.
abbrev pub IsParams : Ty → Type 0
IsParams b = (b.class ≡ params) × (takes_const b.reference b.is_const ≡ true)

-- A `ConvertibleToAny` converts to a reference to any const class.
pub record ConvertsToAny (any_to : Ty → Bool) : Type 0 where
  pub const_refs : (c : Class) → any_to (const_ref c) ≡ true

module _ (any_to : Ty → Bool) (deserializable : Class → Bool) where
  -- The handlers that compile, by the number of instantiations: those of requests, those that return a
  -- `SerializableResponse`, and those that return another value.
  pub data Accepted (f : Callable) : ℕ → Type 0 where
    of_requests :
        {c : Bool} {r a b : Ty}
        → Takes f c r a b
        → any_to a ≡ true
        → IsParams b
        → a.class ≡ request
        → takes_const a.reference a.is_const ≡ true
        → r.class ≡ response
        → Accepted f 1
    of_values :
        {r a b : Ty} (t : Class)
        → Takes f true r a b
        → any_to a ≡ true
        → IsParams b
        → is_request a.class ≡ false
        → deserializable a.class ≡ true
        → takes_mutable a.reference ≡ true
        → r.class ≡ serializable_response t
        → Accepted f 2
    of_plain :
        {r a b : Ty}
        → Takes f true r a b
        → any_to a ≡ true
        → IsParams b
        → is_request a.class ≡ false
        → deserializable a.class ≡ true
        → takes_const a.reference a.is_const ≡ true
        → is_base_of_response r.class ≡ false
        → deserializable r.class ≡ true
        → Accepted f 3

pub is_request_lem : (t : Class) → is_request t ≡ true → t ≡ request
is_request_lem request e = refl
is_request_lem _ e = cc

pub is_response_lem : (t : Class) → is_response t ≡ true → t ≡ response
is_response_lem response e = refl
is_response_lem _ e = cc

pub is_params_lem : (t : Class) → is_params t ≡ true → t ≡ params
is_params_lem params e = refl
is_params_lem _ e = cc

pub is_base_of_response_lem :
    (t : Class) → is_base_of_response t ≡ true → (u : Class) × (t ≡ serializable_response u)
is_base_of_response_lem (serializable_response u) e = (u, refl)
is_base_of_response_lem _ e = cc

pub takes_temporary-takes_const :
    (q : Reference) (c : Bool) → takes_const q c ≡ true → takes_temporary q c ≡ true
takes_temporary-takes_const by_value c e = refl
takes_temporary-takes_const lvalue c e = e
takes_temporary-takes_const rvalue c e = refl

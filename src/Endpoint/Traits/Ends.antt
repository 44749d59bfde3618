-- ===== src/Endpoint/Traits/Ends.antt =====
-- The overloads of `Router::AddRoute` end: each call of it makes a handler of another kind.
use just_queue_it.Base.{
  and_both, ℕ, ◌≡◌, ◌≤◌, Bool, true, false, ◌&&◌, Option, some, [], ◌∷◌, ◌⊎◌, if◌then◌else◌,
}
use just_queue_it.Endpoint.Traits.{
  Class, Ty, Callable, is_request, is_response, is_base_of_response, from_params, const_arguments,
  body_arguments, Choice, implemented, rejected, again, request_lambda, ok_lambda, add_route_choice,
  instantiations,
}
use just_queue_it.Endpoint.Traits.Accepted.{Takes, ConvertsToAny, Accepted}

module _ (any_to : Ty → Bool) (deserializable : Class → Bool) where
  abbrev choice : Callable → Choice
  choice f = add_route_choice any_to deserializable f

  abbrev count : Callable → Option (Bool × ℕ)
  count f = instantiations any_to deserializable 3 f

  -- The choice for a handler that takes two arguments.
  abbrev chosen : Bool → Ty → Ty → Ty → Choice
  chosen c r a b =
      if any_to a && from_params any_to b
      then if is_request a.class
        then if is_response r.class && const_arguments (a ∷ b ∷ []) then implemented else rejected
        else if deserializable a.class
        then if is_base_of_response r.class
          then if c && body_arguments (a ∷ b ∷ []) then again request_lambda else rejected
          else if deserializable r.class && (c && const_arguments (a ∷ b ∷ []))
          then again (ok_lambda a.class r.class)
          else rejected
        else rejected
      else rejected

  module _ (converts : ConvertsToAny any_to) where
    abbrev Ends : Callable → Type 0
    Ends f =
        (ok : Bool) × (k : ℕ) × (count f ≡ some (ok, k))
        × (k ≤ 3)
        × ((ok ≡ false) ⊎ Accepted any_to deserializable f k)

    module _ {f : Callable} {c : Bool} {r a b : Ty} (h : Takes f c r a b)
        (both : (any_to a && from_params any_to b) ≡ true) where
      abbrev invocable : (any_to a ≡ true) × (from_params any_to b ≡ true)
      invocable = and_both (any_to a) (from_params any_to b) both

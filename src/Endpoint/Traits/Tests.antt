-- ===== src/Endpoint/Traits/Tests.antt =====
-- The handlers of src/libraries/backend/server/server.cpp by their types, others that do not
-- compile, and the theorem at one.
use just_queue_it.Base.{Bool, true, false, ◌≡◌, refl, some, [], ◌∷◌}
use just_queue_it.Endpoint.Traits.{
  Class, request, response, params, none_type, named, serializable_response, lvalue, Ty, const_ref,
  plain, Callable, closure, member, pointer, add_route_choice, instantiations,
}
use just_queue_it.Endpoint.Traits.Accepted.{Accepted}

-- The classes of the routes can be read from JSON.
abbrev readable : Class → Bool
readable t = true

-- A `ConvertibleToAny` converts to every type.
abbrev any_type : Ty → Bool
any_type t = true

-- A lambda of a body and the parameters.
abbrev handler : Class → Class → Callable
handler body result = closure true (plain result) (const_ref body ∷ const_ref params ∷ [])

tried : Unit {0}
unfolding instantiations add_route_choice
tried = tt

-- `GetTasks`, whose result is the class 1.
list_tasks : instantiations any_type readable 3 (handler none_type (named 1)) ≡ some (true, 3)
unfolding tried
list_tasks = refl

get_task :
    instantiations any_type readable 3 (handler none_type (serializable_response (named 2)))
    ≡ some (true, 2)
unfolding tried
get_task = refl

of_requests : instantiations any_type readable 3 (handler request response) ≡ some (true, 1)
unfolding tried
of_requests = refl

-- A handler of requests has to return a `Response`.
no_response : instantiations any_type readable 3 (handler request (named 1)) ≡ some (false, 1)
unfolding tried
no_response = refl

one_argument :
    instantiations any_type readable 3 (closure true (plain response) (const_ref request ∷ []))
    ≡ some (false, 1)
unfolding tried
one_argument = refl

member_pointer :
    instantiations any_type readable 3
      (member true (plain response) (const_ref request ∷ const_ref params ∷ []))
    ≡ some (false, 1)
unfolding tried
member_pointer = refl

-- The parameters are a temporary, and const in the lambdas.
changes_params :
    instantiations any_type readable 3 (
      pointer (plain (named 1)) (
        const_ref (named 2) ∷ record { class = params; is_const = false; reference = lvalue } ∷ []))
    ≡ some (false, 1)
unfolding tried
changes_params = refl

-- A mutable lambda is called by `std::function`, and not by the lambdas of `AddRoute`.
mutable_requests :
    instantiations any_type readable 3
      (closure false (plain response) (const_ref request ∷ const_ref params ∷ []))
    ≡ some (true, 1)
unfolding tried
mutable_requests = refl

mutable_values :
    instantiations any_type readable 3
      (closure false (plain (named 1)) (const_ref (named 2) ∷ const_ref params ∷ []))
    ≡ some (false, 1)
unfolding tried
mutable_values = refl

-- ===== src/Endpoint/Traits.antt =====
-- How `Router::AddRoute` (src/libraries/rest/router/rest_router.hpp) chooses among its three ways
-- by the type of the handler, with the traits of src/libraries/utils/function_traits.hpp and the
-- concept of src/libraries/utils/utils.hpp. All this is done by the compiler: types are data here.
-- A handler is passed as a temporary and has no default arguments; classes can be copied, and do not
-- convert into one another.
pub mod Accepted
pub mod Ends
mod Tests
use just_queue_it.Base.{
  ℕ, zero, suc, ◌+◌, Bool, true, false, ◌&&◌, Option, none, some, List, [], ◌∷◌, map, if◌then◌else◌,
  get_elem?,
}

-- The classes that handlers take and return. `named` is any other class, which derives from none of
-- these.
pub data Class : Type 0 where
  request response params none_type : Class
  named : ℕ → Class
  serializable_response : Class → Class

pub data Reference : Type 0 where
  by_value lvalue rvalue : Reference

-- `T`, `T&` or `T&&`, where `T` may be const.
pub record Ty : Type 0 where
  pub class : Class
  pub is_const : Bool
  pub reference : Reference

-- `const T&`
abbrev pub const_ref : Class → Ty
const_ref c = record { class = c; is_const = true; reference = lvalue }

abbrev pub plain : Class → Ty
plain c = record { class = c; is_const = false; reference = by_value }

-- `std::decay_t`, for types that are no arrays and no functions.
abbrev decay : Ty → Class
decay t = t.class

-- What a handler may be: a class with an `operator()`, which is const or not; a pointer to such an
-- operator; or a pointer to a function.
pub data Callable : Type 0 where
  closure member : Bool → Ty → List Ty → Callable
  pointer : Ty → List Ty → Callable

-- `result` and `arguments`; the specialisation for no arguments has no `arguments`.
pub record Traits : Type 0 where
  pub result : Ty
  pub arguments : List Class

abbrev of_pointer : Ty → List Ty → Traits
of_pointer r args = record { result = r; arguments = map decay args }

abbrev of_member : Bool → Ty → List Ty → Traits
of_member is_const r args = of_pointer r args

-- `FunctionTraits<T>`: each specialisation inherits from the next.
abbrev function_traits : Callable → Traits
function_traits (closure is_const r args) = of_member is_const r args
function_traits (member is_const r args) = of_member is_const r args
function_traits (pointer r args) = of_pointer r args

-- `argument<I>`, with its `requires (sizeof...(Args) > I)`.
abbrev argument : Traits → ℕ → Option Class
argument t i = get_elem? t.arguments i

abbrev pub is_request : Class → Bool
is_request request = true
is_request _ = false

abbrev pub is_response : Class → Bool
is_response response = true
is_response _ = false

abbrev pub is_params : Class → Bool
is_params params = true
is_params _ = false

-- `utils::IsBaseOf<T, SerializableResponse>`
abbrev pub is_base_of_response : Class → Bool
is_base_of_response (serializable_response t) = true
is_base_of_response _ = false

-- Whether a parameter of a type takes an object of its own class: a temporary, an object that is
-- not const, and one that is const.
abbrev pub takes_temporary : Reference → Bool → Bool
takes_temporary lvalue is_const = is_const
takes_temporary by_value is_const = true
takes_temporary rvalue is_const = true

abbrev pub takes_mutable : Reference → Bool
takes_mutable rvalue = false
takes_mutable lvalue = true
takes_mutable by_value = true

abbrev pub takes_const : Reference → Bool → Bool
takes_const rvalue is_const = false
takes_const lvalue is_const = is_const
takes_const by_value is_const = true

-- What one instantiation of `AddRoute` comes to: `AddRouteImpl`, a program that does not compile, or
-- `AddRoute` of another handler.
pub data Choice : Type 0 where
  implemented rejected : Choice
  again : Callable → Choice

-- The lambda of requests, and the lambda that answers with 200.
abbrev pub request_lambda : Callable
request_lambda = closure true (plain response) (const_ref request ∷ const_ref params ∷ [])

abbrev pub ok_lambda : Class → Class → Callable
ok_lambda first result =
    closure true (plain (serializable_response result)) (const_ref first ∷ const_ref params ∷ [])

-- `any_to` says which types the conversions of `utils::ConvertibleToAny` lead to.
module _ (any_to : Ty → Bool) where
  -- `Params` as a temporary.
  abbrev pub from_params : Ty → Bool
  from_params t = is_params t.class && takes_temporary t.reference t.is_const

  abbrev two_arguments : List Ty → Bool
  two_arguments (a ∷ b ∷ []) = any_to a && from_params b
  two_arguments _ = false

  -- `std::invocable<THandler, utils::ConvertibleToAny, Params>`. A pointer to a member wants an
  -- object of its class first, which a `ConvertibleToAny` is not.
  abbrev is_invocable : Callable → Bool
  is_invocable (closure is_const r args) = two_arguments args
  is_invocable (member is_const r args) = false
  is_invocable (pointer r args) = two_arguments args

-- The calls of a handler. `std::function` calls its own copy with `const Request&` and `const
-- Params&`. A lambda calls a copy that is const, so that it has no `operator()` unless that is const.
abbrev pub const_arguments : List Ty → Bool
const_arguments (a ∷ b ∷ []) =
    takes_const a.reference a.is_const && is_params b.class && takes_const b.reference b.is_const
const_arguments _ = false

abbrev pub body_arguments : List Ty → Bool
body_arguments (a ∷ b ∷ []) =
    takes_mutable a.reference && is_params b.class && takes_const b.reference b.is_const
body_arguments _ = false

-- `AddRouteImpl(…, std::forward<THandler>(handler))`
abbrev fits_function : Callable → Bool
fits_function (closure is_const r args) = const_arguments args
fits_function (member is_const r args) = false
fits_function (pointer r args) = const_arguments args

-- `handler(body.value(), params)`, where `body` is not const.
abbrev fits_body : Callable → Bool
fits_body (closure is_const r args) = is_const && body_arguments args
fits_body (member is_const r args) = false
fits_body (pointer r args) = body_arguments args

-- `handler(req, params)`, where `req` is a `const FirstArgument&`.
abbrev fits_values : Callable → Bool
fits_values (closure is_const r args) = is_const && const_arguments args
fits_values (member is_const r args) = false
fits_values (pointer r args) = const_arguments args

module _ (any_to : Ty → Bool) (deserializable : Class → Bool) where
  abbrev choose : Callable → Class → Class → Choice
  choose f first result =
      if is_request first
      then if is_response result && fits_function f then implemented else rejected
      else if deserializable first
      then if is_base_of_response result
        then if fits_body f then again request_lambda else rejected
        else if deserializable result && fits_values f
        then again (ok_lambda first result)
        else rejected
      else rejected

  -- `FirstArgument` is `argument<0>`, and a handler without one is rejected.
  abbrev choose_first : Callable → Option Class → Class → Choice
  choose_first f none result = rejected
  choose_first f (some first) result = choose f first result

  -- The constraint comes before the body.
  pub add_route_choice : Callable → Choice
  add_route_choice f =
      let traits = function_traits f in
      if is_invocable any_to f
      then choose_first f (argument traits 0) (decay traits.result)
      else rejected

  -- The instantiations of `AddRoute` up to a number; `none` if there are more.
  pub instantiations : ℕ → Callable → Option (Bool × ℕ)
  instantiations zero f = none
  instantiations (suc n) f = elim (add_route_choice f) [
    | implemented ↦ some (true, 1)
    | rejected ↦ some (false, 1)
    | again g ↦ elim (instantiations n g) [ none ↦ none | some (ok, k) ↦ some (ok, k + 1) ]
  ]

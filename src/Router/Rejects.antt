-- ===== src/Router/Rejects.antt =====
-- Which calls of `AddRoute` throw.
use just_queue_it.Base.{ℕ, Bytes, codes, ◌≡◌, refl, none, some, List, ◌∷◌, ◌++◌, All}
use just_queue_it.Core.{Method}
use just_queue_it.Pattern.Token.{Token, lit, render, IsPlain}
use just_queue_it.Pattern.Malformed.{IsUnmatched, compile-malformed}
use just_queue_it.Router.{Handler, Routes, invalid_argument, regex_error, emplace, add_route_impl}

module _ {S : Type 0} where
  -- A path that begins with a slash and is a plain path with, behind it, a closing parenthesis and
  -- any bytes, or an opening parenthesis or bracket and only ordinary bytes, is refused, whatever
  -- the table: with a handler `AddRouteImpl` throws a `std::regex_error`, and without one an
  -- `std::invalid_argument`.
  pub add_route_impl-malformed :
      (ts : List Token) (c : ℕ) (s : Bytes) (method : Method) (handler : Handler S)
      (routes : Routes S)
      → All IsPlain ts
      → IsUnmatched c s
      → (add_route_impl (b'/' ∷ (render ts ++ c ∷ s)) method (some handler) routes ≡ regex_error)
        × (add_route_impl (b'/' ∷ (render ts ++ c ∷ s)) method none routes
            ≡ invalid_argument (codes "Handler cannot be null"))
  unfolding add_route_impl
  add_route_impl-malformed ts c s method handler routes plain unmatched =
      let slash : IsPlain (lit b'/') = (refl, refl) in
      (rw (compile-malformed (lit b'/' ∷ ts) c s (slash, plain) unmatched, emplace), refl)

-- ===== src/Core/Wrapped.antt =====
-- `NotDefaultConstructible<T>` of src/libraries/rest/core/rest_core.hpp: a value of `T` that has to be
-- given, with the comparisons of `T`.
use std.Equiv.{◌≃◌, iso_to_equiv}
use std.Univalence.{ua, ua-β}
use std.Path.{PathP, transport}
use just_queue_it.Base.{Bool, ◌≡◌, refl}

pub record NotDefaultConstructible (T : Type 0) : Type 0 where
  pub value : T

module _ {T : Type 0} where
  -- `get`, and the conversion to `const T &`.
  abbrev pub get : NotDefaultConstructible T → T
  get w = w.value

  -- The constructors from a value.
  abbrev pub wrapped : T → NotDefaultConstructible T
  wrapped v = record { value = v }

  -- `operator==(const T&)`
  abbrev pub equals_value : (T → T → Bool) → NotDefaultConstructible T → T → Bool
  equals_value eq w v = eq w.value v

  -- `operator<=>(const T&)`
  abbrev pub compare_value : {C : Type 0} → (T → T → C) → NotDefaultConstructible T → T → C
  compare_value cmp w v = cmp w.value v

  -- The defaulted `operator<=>`.
  abbrev pub compare_wrapped :
      {C : Type 0} → (T → T → C) → NotDefaultConstructible T → NotDefaultConstructible T → C
  compare_wrapped cmp v w = cmp v.value w.value

  unwrapping : NotDefaultConstructible T ≃ T
  unwrapping =
      iso_to_equiv (record { fun = get; inv = wrapped; rinv = λ v. refl; linv = λ w. refl })

  -- The wrapper of a type is equal to the type, by `get`, and its three comparisons are those of the
  -- type over this equality: what is said of values can be said of wrapped values.
  pub wrapped-path :
      {C : Type 0} (eq : T → T → Bool) (cmp : T → T → C)
      → (p : NotDefaultConstructible T ≡ T) × ((w : NotDefaultConstructible T)
          → transport p w ≡ get w)
        × PathP (λ i. p i → T → Bool) (equals_value eq) eq
        × PathP (λ i. p i → T → C) (compare_value cmp) cmp
        × PathP (λ i. p i → p i → C) (compare_wrapped cmp) cmp
  unfolding unwrapping
  wrapped-path eq cmp = (
    ua unwrapping,
    λ w. ua-β unwrapping w,
    λ i w v. eq (vproj i w unwrapping) v,
    λ i w v. cmp (vproj i w unwrapping) v,
    λ i v w. cmp (vproj i v unwrapping) (vproj i w unwrapping),
  )

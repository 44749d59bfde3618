-- ===== src/Endpoint/Keeps.antt =====
-- What a typed handler may do to the state: what its callback does, or nothing.
use just_queue_it.Base.{Bytes, ◌≡◌, refl, ◌⊎◌, inl, inr}
use just_queue_it.Base.Exec.{Exec, Outcome, returned, thrown, and_then, pure}
use just_queue_it.Core.{Request}
use just_queue_it.Core.Codes.{ok}
use just_queue_it.Query.{Params}
use just_queue_it.Router.Keeps.{Keeps}
use just_queue_it.Endpoint.{SerializableResponse, wrap, with_ok, finish, serialize}

pub Outcome-cases :
    {A : Type 0} (o : Outcome A)
    → ((what : Bytes) × (o ≡ thrown what)) ⊎ ((a : A) × (o ≡ returned a))
Outcome-cases (thrown what) = inl (what, refl)
Outcome-cases (returned a) = inr (a, refl)

module _ {S R : Type 0} (write : R → Bytes) (req : Request) where
  finish-state : (res : SerializableResponse R) (s : S) → (finish write req res s).1 ≡ s
  unfolding finish
  finish-state res s = elim (Outcome-cases (serialize write res.body req.accept_content_type)) [
    | inl (what, e) ↦ rw (e, finish) refl
    | inr (body_str, e) ↦ rw (e, finish) refl
  ]

  finished-state :
      (o : Outcome (SerializableResponse R) × S) → (and_then (finish write req) o).1 ≡ o.1
  finished-state (returned res, s) = finish-state res s
  finished-state (thrown what, s) = refl

ok-state :
    {S R : Type 0} (o : Outcome R × S)
    → (and_then {B = SerializableResponse R}
        (λ value. pure (record { status_code = ok; body = value }))
        o).1
      ≡ o.1
ok-state (returned value, s) = refl
ok-state (thrown what, s) = refl

module _ {S A R : Type 0} (L : S → S → Type 0) (unchanged : (s : S) → L s s) where
  pub wrap-Keeps :
      (decode : Request → Outcome A) (write : R → Bytes)
      (handler : A → Params → Exec S (SerializableResponse R)) (req : Request) (params : Params)
      → ((a : A) → Keeps L (handler a params))
      → Keeps L (wrap decode write handler req params)
  unfolding wrap
  wrap-Keeps decode write handler req params k s = elim (Outcome-cases (decode req)) [
    | inl (what, e) ↦ rw (e, wrap) (unchanged s)
    | inr (a, e) ↦ rw (e, wrap, finished-state write req (handler a params s)) (k a s)
  ]

  pub with_ok-Keeps :
      (handler : A → Params → Exec S R) (a : A) (params : Params)
      → Keeps L (handler a params)
      → Keeps L (with_ok handler a params)
  unfolding with_ok
  with_ok-Keeps handler a params k s = rw (ok-state (handler a params s)) (k s)

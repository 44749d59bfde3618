-- ===== src/Base/Exec.antt =====
-- Code that reads and writes shared state and may throw. What was written before a throw stays
-- written, so the state comes back beside the exception too.
use just_queue_it.Base.Text.{Bytes}

-- A value, or a `std::exception` with its `what()`.
pub data Outcome {ℓ} (A : Type ℓ) : Type ℓ where
  returned : A → Outcome A
  thrown : Bytes → Outcome A

abbrev pub Exec {ℓ} : Type ℓ → Type ℓ → Type ℓ
Exec S A = S → Outcome A × S

module _ {ℓ} {S A : Type ℓ} where
  abbrev pub pure : A → Exec S A
  pure a s = (returned a, s)

  abbrev pub throw : Bytes → Exec S A
  throw what s = (thrown what, s)

  abbrev pub lift : Outcome A → Exec S A
  lift r s = (r, s)

module _ {ℓ} {S A B : Type ℓ} where
  abbrev pub and_then : (A → Exec S B) → Outcome A × S → Outcome B × S
  and_then f (returned a, s) = f a s
  and_then f (thrown what, s) = (thrown what, s)

  infixl 5 ◌>>=◌
  abbrev pub ◌>>=◌ : Exec S A → (A → Exec S B) → Exec S B
  ◌>>=◌ m f s = and_then f (m s)

module _ {ℓ} {S A : Type ℓ} where
  abbrev pub handled : (Bytes → Exec S A) → Outcome A × S → Outcome A × S
  handled f (returned a, s) = (returned a, s)
  handled f (thrown what, s) = f what s

  -- `try { m } catch (const std::exception& e) { f(e.what()) }`
  abbrev pub try_catch : Exec S A → (Bytes → Exec S A) → Exec S A
  try_catch m f s = handled f (m s)

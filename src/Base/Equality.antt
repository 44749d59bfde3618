-- ===== src/Base/Equality.antt =====
-- Boolean equality as an interface, with its instances for numbers and strings.
use just_queue_it.Base.Text.{Bytes, bytes_eq, bytes_eq_iff}
use mathlib.Core.Path.{◌≡◌}
use mathlib.Core.Logic.{◌↔◌}
use mathlib.Core.Bool.{Bool, true}

pub record Eq {ℓ} (A : Type ℓ) : Type ℓ where
  pub beq : A → A → Bool
  pub beq_iff : (a b : A) → (beq a b ≡ true) ↔ (a ≡ b)

instance abbrev pub bytes_equality : Eq Bytes
bytes_equality = record { beq = bytes_eq; beq_iff = bytes_eq_iff }

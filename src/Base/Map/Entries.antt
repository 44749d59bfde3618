-- ===== src/Base/Map/Entries.antt =====
-- The entries of a map: each key once, and `lookup` finds them.
use mathlib.Core.List.{Memᴰ}
use mathlib.Core.Path.{◌≡◌, refl, sym, ap}
use mathlib.Core.Logic.{inl, inr}
use mathlib.Core.Bool.{false}
use mathlib.Core.List.{[], ◌∷◌}
use mathlib.Core.Option.{none, some}
use native.Mathlib.Omega.{arith}
use just_queue_it.Base.Bools.{Bool-cases}
use just_queue_it.Base.Lists.{All}
use just_queue_it.Base.Equality.{Eq}
use just_queue_it.Base.Map.{Map, lookup, insert, lookup-insert}

module _ {K V : Type 0} ⦃e : Eq K⦄ where
  -- No two entries have the same key.
  abbrev pub IsDistinct : Map K V → Type 0
  IsDistinct [] = Unit
  IsDistinct ((k, v) ∷ m) = (lookup k m ≡ none) × IsDistinct m

  pub IsDistinct-insert : (k : K) (v : V) (m : Map K V) → IsDistinct m → IsDistinct (insert k v m)
  IsDistinct-insert k v [] d = (refl, tt)
  IsDistinct-insert k v ((j, w) ∷ m) d = elim (Bool-cases (e.beq j k)) [
    | inl same ↦ rw same d
    | inr other ↦ rw other (absent k v j m other d.0, IsDistinct-insert k v m d.1)
  ]
    where
      absent :
          (k : K) (v : V) (j : K) (m : Map K V)
          → e.beq j k ≡ false
          → lookup j m ≡ none
          → lookup j (insert k v m) ≡ none
      absent k v j m other h =
          rw (lookup-insert k j v m) (ground (arith, e.beq_iff j k, e.beq_iff k j))

  pub mem-lookup : (k : K) (v : V) (m : Map K V) → lookup k m ≡ some v → Memᴰ (k, v) m
  mem-lookup k v [] h = absurd (ground arith)
  mem-lookup k v ((j, w) ∷ m) h = elim (Bool-cases (e.beq j k)) [
    | inl same ↦ let here : (k, v) ≡ (j, w) = ground (arith, e.beq_iff j k) in Memᴰ.head here
    | inr other ↦ Memᴰ.tail (mem-lookup k v m (ground arith))
  ]

  pub lookup-mem :
      (k : K) (v : V) (m : Map K V) → IsDistinct m → Memᴰ (k, v) m → lookup k m ≡ some v
  lookup-mem k v [] d x = elim x [ ]
  lookup-mem k v ((j, w) ∷ m) d (Memᴰ.head h) =
      let key : k ≡ j = ap (λ (p : K × V). p.0) h in
      let value : v ≡ w = ap (λ (p : K × V). p.1) h in ground (arith, e.beq_iff j k)
  lookup-mem k v ((j, w) ∷ m) d (Memᴰ.tail x) =
      let later = lookup-mem k v m d.1 x in ground (arith, e.beq_iff j k)

module _ {K V : Type 0} ⦃e : Eq K⦄ (P : K × V → Type 0) where
  pub All-insert : (k : K) (v : V) (m : Map K V) → P (k, v) → All P m → All P (insert k v m)
  All-insert k v [] p a = (p, tt)
  All-insert k v ((j, w) ∷ m) p a = elim (Bool-cases (e.beq j k)) [
    | inl same ↦ let key : k ≡ j = sym ((e.beq_iff j k).0 same) in rw same (rw key at p, a.1)
    | inr other ↦ rw other (a.0, All-insert k v m p a.1)
  ]

  pub All-mem : (m : Map K V) (x : K × V) → All P m → Memᴰ x m → P x
  All-mem [] x a h = elim h [ ]
  All-mem (y ∷ m) x a (Memᴰ.head h) = rw h a.0
  All-mem (y ∷ m) x a (Memᴰ.tail h) = All-mem m x a.1 h

-- ===== src/Storage/LowerBound.antt =====
-- `std::ranges::lower_bound` finds, in a list whose ids increase, the first id not below the index.
use just_queue_it.Base.{
  ℕ, zero, suc, ◌+◌, ◌-◌, ◌/◌, ◌≤◌, ◌<◌, ◌≡◌, some, List, [], ◌∷◌, ltb, if◌then◌else◌, inl, inr,
  Option-cases, length, get_elem?, All, arith,
}
use just_queue_it.Task.{Task}
use just_queue_it.Storage.{id_below, bound_loop, lower_bound}

-- The ids increase strictly.
abbrev pub IsSorted : List Task → Type 0
IsSorted [] = Unit
IsSorted (t ∷ ts) = All (λ u. t.id < u.id) ts × IsSorted ts

-- How many tasks at the front have an id below `index`.
abbrev pub rank : List Task → ℕ → ℕ
rank [] index = 0
rank (t ∷ ts) index = if ltb t.id index then suc (rank ts index) else 0

rank-le-length : (ts : List Task) (index : ℕ) → rank ts index ≤ length ts
rank-le-length [] index = omega arith
rank-le-length (t ∷ ts) index = ground (arith, rank-le-length ts index)

All-get_elem? :
    (k : ℕ) (ts : List Task) (i : ℕ) (u : Task)
    → All (λ v. k < v.id) ts
    → get_elem? ts i ≡ some u
    → k < u.id
All-get_elem? k [] i u h e = cc
All-get_elem? k (t ∷ ts) zero u h e = ground arith
All-get_elem? k (t ∷ ts) (suc i) u h e = All-get_elem? k ts i u h.1 e

-- In a sorted list the test of a round says on which side of the rank its position lies.
id_below-rank :
    (ts : List Task) (index i : ℕ)
    → IsSorted ts
    → i < length ts
    → id_below index (get_elem? ts i) ≡ ltb i (rank ts index)
id_below-rank [] index i s h = absurd (omega arith)
id_below-rank (t ∷ ts) index zero s h = ground arith
id_below-rank (t ∷ ts) index (suc i) (a, s) h = elim (Option-cases (get_elem? ts i)) [
  | inl e ↦ ground (arith, id_below-rank ts index i s)
  | inr (u, e) ↦ ground (arith, id_below-rank ts index i s, All-get_elem? t.id ts i u a e)
]

bound_loop-rank :
    (fuel : ℕ) (ts : List Task) (index first len : ℕ)
    → IsSorted ts
    → len ≤ fuel
    → first + len ≤ length ts
    → first ≤ rank ts index
    → rank ts index ≤ first + len
    → bound_loop fuel ts index first len ≡ rank ts index
unfolding bound_loop
bound_loop-rank zero ts index first len s f l a b = omega arith
bound_loop-rank (suc fuel) ts index first len s f l a b = ground (
  arith,
  id_below-rank ts index (first + len / 2) s,
  bound_loop-rank fuel ts index (first + len / 2 + 1) (len - len / 2 - 1) s,
  bound_loop-rank fuel ts index first (len / 2) s,
)

-- In a list that is sorted by id `lower_bound` ends, with the length of the list as fuel, at the
-- rank of the index: the number of tasks with a smaller id.
pub lower_bound-rank :
    (ts : List Task) (index : ℕ) → IsSorted ts → lower_bound ts index ≡ rank ts index
unfolding lower_bound
lower_bound-rank ts index s =
    bound_loop-rank (length ts) ts index 0 (length ts) s (omega arith) (omega arith) (omega arith)
      (omega (arith, rank-le-length ts index))

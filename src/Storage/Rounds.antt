-- ===== src/Storage/Rounds.antt =====
-- How long the search of `lower_bound` takes, and where it ends, in a list in any order.
use just_queue_it.Base.{
  ℕ, zero, suc, ◌+◌, ◌-◌, ◌/◌, ◌*◌, ◌^◌, ◌≤◌, ◌<◌, ◌≡◌, refl, List, length, get_elem?, true, false,
  ◌==◌, Bool-cases, inl, inr, arith,
}
use just_queue_it.Task.{Task}
use just_queue_it.Storage.{id_below, bound_loop, lower_bound}

pow_suc : (k : ℕ) → 2 ^ suc k ≡ 2 * 2 ^ k
pow_suc k = omega arith

bound_loop_bounds :
    (f : ℕ) (ts : List Task) (index first len : ℕ)
    → (first ≤ bound_loop f ts index first len) × (bound_loop f ts index first len ≤ first + len)
unfolding bound_loop
bound_loop_bounds zero ts index first len = omega arith
bound_loop_bounds (suc f) ts index first len = ground (
  arith,
  bound_loop_bounds f ts index (first + len / 2 + 1) (len - len / 2 - 1),
  bound_loop_bounds f ts index first (len / 2),
)

-- The search itself, with no fuel: in `n` rounds it goes from a range to a position. It is over where
-- the range is empty, and not before.
pub data Searches (ts : List Task) (index : ℕ) : ℕ → ℕ → ℕ → ℕ → Type 0 where
  over : {first : ℕ} → Searches ts index 0 first 0 first
  upper_part :
      {n first len r : ℕ}
      → 1 ≤ len
      → id_below index (get_elem? ts (first + len / 2)) ≡ true
      → Searches ts index n (first + len / 2 + 1) (len - len / 2 - 1) r
      → Searches ts index (suc n) first len r
  lower_part :
      {n first len r : ℕ}
      → 1 ≤ len
      → id_below index (get_elem? ts (first + len / 2)) ≡ false
      → Searches ts index n first (len / 2) r
      → Searches ts index (suc n) first len r

abbrev SearchesWithin : ℕ → ℕ → List Task → ℕ → ℕ → ℕ → Type 0
SearchesWithin f k ts index first len =
    (n : ℕ) × (n ≤ k) × Searches ts index n first len (bound_loop f ts index first len)

bound_loop-empty :
    (f : ℕ) (ts : List Task) (index first : ℕ) → bound_loop f ts index first 0 ≡ first
unfolding bound_loop
bound_loop-empty zero ts index first = refl
bound_loop-empty (suc f) ts index first = refl

-- Each round halves the range.
bound_loop-Searches :
    (k f : ℕ) (ts : List Task) (index first len : ℕ)
    → len < 2 ^ k
    → len ≤ f
    → SearchesWithin f k ts index first len
unfolding bound_loop
bound_loop-Searches k f ts index first zero a b =
    (0, omega arith, rw (bound_loop-empty f ts index first) over)
bound_loop-Searches zero f ts index first (suc l) a b = absurd (omega arith)
bound_loop-Searches (suc k) zero ts index first (suc l) a b = absurd (omega arith)
bound_loop-Searches (suc k) (suc f) ts index first (suc l) a b =
    let halved : suc l < 2 * 2 ^ k = omega (arith, pow_suc k) in
    let some_left : (suc l == 0) ≡ false = ground arith in
    elim (Bool-cases (id_below index (get_elem? ts (first + suc l / 2)))) [
      | inl below ↦
          let (n, few, rest) =
            bound_loop-Searches k f ts index (first + suc l / 2 + 1) (suc l - suc l / 2 - 1)
              (omega arith) (omega arith) in
          (suc n, omega arith, rw (some_left, below) (upper_part (omega arith) below rest))
      | inr above ↦
          let (n, few, rest) =
            bound_loop-Searches k f ts index first (suc l / 2) (omega arith) (omega arith) in
          (suc n, omega arith, rw (some_left, above) (lower_part (omega arith) above rest))
    ]

-- In a list of fewer than `2 ^ k` tasks, sorted or not, the search from the whole range is over after
-- at most `k` rounds, each of which looks at one task and leaves one half of the range; it is over at
-- the position that `lower_bound` returns, which is not past the end.
pub lower_bound-Searches :
    (k : ℕ) (ts : List Task) (index : ℕ)
    → length ts < 2 ^ k
    → (n : ℕ) × (n ≤ k)
      × Searches ts index n 0 (length ts) (lower_bound ts index)
      × (lower_bound ts index ≤ length ts)
unfolding lower_bound
lower_bound-Searches k ts index h =
    let (n, few, over_there) =
      bound_loop-Searches k (length ts) ts index 0 (length ts) h (omega arith) in
    (n, few, over_there, omega (arith, bound_loop_bounds (length ts) ts index 0 (length ts)))

-- ===== src/Storage/Threads/Counts.antt =====
-- How many threads hold the lock, and in which way.
use just_queue_it.Base.{ℕ, zero, suc, ◌+◌, ◌≡◌, List, [], ◌∷◌, ◌++◌, Bool, true, false, arith}
use just_queue_it.Storage.Threads.{Pc, idle, waiting, entered, leaving, is_shared, idle_threads}

abbrev pub one_if : Bool → ℕ
one_if true = 1
one_if false = 0

abbrev one_unless : Bool → ℕ
one_unless true = 0
one_unless false = 1

abbrev pub exclusive : Pc → ℕ
exclusive idle = 0
exclusive (waiting c) = 0
exclusive (entered c) = one_unless (is_shared c)
exclusive (leaving c r) = one_unless (is_shared c)
exclusive _ = 1

abbrev pub shared : Pc → ℕ
shared (entered c) = one_if (is_shared c)
shared (leaving c r) = one_if (is_shared c)
shared _ = 0

abbrev pub total : (Pc → ℕ) → List Pc → ℕ
total w [] = 0
total w (p ∷ ps) = w p + total w ps

pub total-append : (w : Pc → ℕ) (xs ys : List Pc) → total w (xs ++ ys) ≡ total w xs + total w ys
total-append w [] ys = omega arith
total-append w (x ∷ xs) ys = omega (arith, total-append w xs ys)

pub total-idle_threads : (w : Pc → ℕ) (n : ℕ) → w idle ≡ 0 → total w (idle_threads n) ≡ 0
total-idle_threads w zero h = omega arith
total-idle_threads w (suc n) h = omega (arith, total-idle_threads w n h)

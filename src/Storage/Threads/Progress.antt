-- ===== src/Storage/Threads/Progress.antt =====
-- The threads do not wait for ever: as long as one is in a call, one can move, and the calls that
-- have begun are over after so many moves.
use just_queue_it.Base.{
  ℕ, zero, suc, ◌+◌, ◌≡◌, ◌≢◌, ◌≤◌, ◌<◌, refl, ap, ◌⊎◌, inl, inr, none, some, List, [], ◌∷◌, ◌++◌,
  false, Option-cases, arith,
}
use just_queue_it.Storage.{InMemoryStorage, create_task}
use just_queue_it.Storage.Spec.{Call, list}
use just_queue_it.Storage.Threads.{
  SharedMutex, Pc, idle, waiting, entered, numbered, stored, located_get, located_delete, leaving,
  Advance, advance, System, after, Move, move, Reach, later,
}
use just_queue_it.Storage.Threads.Counts.{exclusive, shared, total, total-append}
use just_queue_it.Storage.Threads.Invariant.{Inv}
use just_queue_it.Storage.Threads.Local.{Holds, back-append}
use just_queue_it.Storage.Threads.Linear.{Reach-Inv, holds, counted}

-- The steps that a thread has to make until its call has returned, at most.
abbrev pub work : Pc → ℕ
work idle = 0
work (waiting c) = 5
work (entered c) = 4
work (numbered payload id) = 3
work (stored payload) = 2
work (located_get index itr) = 2
work (located_delete index itr) = 2
work (leaving c r) = 1

advance-work :
    (m : InMemoryStorage) (l : SharedMutex) (p : Pc) (a : Advance)
    → advance m l p ≡ some a
    → work a.pc < work p
unfolding advance
advance-work m l (waiting list) a e = ground arith
advance-work m l (waiting c) a e = ground arith
advance-work m l (entered list) a e = ground arith
advance-work m l (entered c) a e = ground arith
advance-work m l idle a e = cc
advance-work m l p a e = ground arith

abbrev CanAdvance : InMemoryStorage → SharedMutex → Pc → Type 0
CanAdvance m l p = advance m l p ≢ none

-- A thread that holds the lock can move.
holder_advances :
    (b m : InMemoryStorage) (l : SharedMutex) (p : Pc)
    → Holds b m l p
    → 0 < exclusive p + shared p
    → CanAdvance m l p
unfolding advance create_task
holder_advances b m l idle h e = absurd (omega arith)
holder_advances b m l (waiting c) h e = absurd (ground arith)
holder_advances b m l (stored payload) h e =
    ground (arith, back-append b.tasks (record { id = b.next_id; payload = payload }))
holder_advances b m l p h e = ground arith

-- A thread that waits can move if the lock is free.
waiter_advances :
    (m : InMemoryStorage) (l : SharedMutex) (c : Call)
    → l.writer ≡ false
    → l.readers ≡ 0
    → CanAdvance m l (waiting c)
unfolding advance
waiter_advances m l list free none_read = ground arith
waiter_advances m l c free none_read = ground arith

Zero-cases : (n : ℕ) → (n ≡ 0) ⊎ (0 < n)
Zero-cases zero = inl refl
Zero-cases (suc n) = inr (omega arith)

-- Of a list of threads with some weight one has some.
find_weight :
    (w : Pc → ℕ) (ps : List Pc)
    → total w ps ≢ 0
    → (xs : List Pc) × (p : Pc) × (ys : List Pc) × (ps ≡ xs ++ p ∷ ys) × (0 < w p)
find_weight w [] h = absurd (h refl)
find_weight w (p ∷ ps) h = elim (Zero-cases (w p)) [
  | inl e ↦
      let (xs, q, ys, same, pos) = find_weight w ps (λ z. h (omega arith)) in
      (p ∷ xs, q, ys, ap (λ l. p ∷ l) same, pos)
  | inr pos ↦ ([], p, ps, refl, pos)
]

-- A thread in a call that does not hold the lock waits for it.
outside_waits :
    (m : InMemoryStorage) (l : SharedMutex) (p : Pc)
    → exclusive p + shared p ≡ 0
    → 0 < work p
    → l.writer ≡ false
    → l.readers ≡ 0
    → CanAdvance m l p
outside_waits m l idle e h free none_read = absurd (omega arith)
outside_waits m l (waiting c) e h free none_read = waiter_advances m l c free none_read
outside_waits m l (entered list) e h free none_read = absurd (omega arith)
outside_waits m l (entered c) e h free none_read = absurd (omega arith)
outside_waits m l (leaving list r) e h free none_read = absurd (omega arith)
outside_waits m l (leaving c r) e h free none_read = absurd (omega arith)
outside_waits m l p e h free none_read = absurd (omega arith)

make-Move :
    (s : System) (xs ys : List Pc) (p : Pc)
    → s.threads ≡ xs ++ p ∷ ys
    → CanAdvance s.mem s.lock p
    → (t : System) × Move s t
make-Move s xs ys p e can = elim (Option-cases (advance s.mem s.lock p)) [
  | inl stuck ↦ absurd (can stuck)
  | inr (a, moved) ↦ (
    after s xs ys a,
    record {
      before = xs;
      behind = ys;
      place = p;
      advanced = a;
      chosen = e;
      moved = moved;
      reached = refl;
    },
  )
]

weight : Pc → ℕ
weight p = exclusive p + shared p

total-weight : (ps : List Pc) → total weight ps ≡ total exclusive ps + total shared ps
unfolding weight
total-weight [] = omega arith
total-weight (p ∷ ps) = omega (arith, total-weight ps)

-- No deadlock: if a thread is in a call, some thread can move.
Inv-moves :
    (m₀ : InMemoryStorage) (s : System)
    → Inv m₀ s
    → (total work s.threads ≡ 0) ⊎ ((t : System) × Move s t)
unfolding weight
Inv-moves m₀ s inv = elim (Zero-cases (total work s.threads)) [
  | inl over ↦ inl over
  | inr busy ↦ elim (Zero-cases (total weight s.threads)) [
    | inl nobody ↦
        let (xs, p, ys, e, some_work) = find_weight work s.threads (λ z. omega arith) in
        let free : s.lock.writer ≡ false = ground (arith, inv.writers, total-weight s.threads) in
        let none_read : s.lock.readers ≡ 0 = omega (arith, inv.readers, total-weight s.threads) in
        let outside : exclusive p + shared p ≡ 0 =
          omega (arith, counted m₀ s inv xs ys p e weight) in
        inr (make-Move s xs ys p e (outside_waits s.mem s.lock p outside some_work free none_read))
    | inr held ↦
        let (xs, p, ys, e, holds_it) = find_weight weight s.threads (λ z. omega arith) in
        inr (
          make-Move s xs ys p e
            (holder_advances inv.base s.mem s.lock p (holds m₀ s inv xs ys p e) holds_it))
  ]
]

-- A number of moves, with no call begun between them.
pub data Moves : ℕ → System → System → Type 0 where
  none_made : {s : System} → Moves 0 s s
  one_made : {k : ℕ} {s t u : System} → Move s t → Moves k t u → Moves (suc k) s u

Move-work : (s t : System) → Move s t → total work t.threads < total work s.threads
Move-work s t v =
    let less = advance-work s.mem s.lock v.place v.advanced v.moved in
    let now : total work t.threads ≡ total work (v.before ++ v.advanced.pc ∷ v.behind) =
      ap (λ (x : System). total work x.threads) v.reached in
    let past : total work s.threads ≡ total work (v.before ++ v.place ∷ v.behind) =
      ap (total work) v.chosen in
    omega (
      arith,
      total-append work v.before (v.advanced.pc ∷ v.behind),
      total-append work v.before (v.place ∷ v.behind),
    )

Moves-work : {k : ℕ} {s t : System} → Moves k s t → k + total work t.threads ≤ total work s.threads
Moves-work none_made = omega arith
Moves-work {s = s} (one_made {t = t} v vs) = omega (arith, Move-work s t v, Moves-work vs)

Reach-Moves :
    {n k : ℕ} {m : InMemoryStorage} {s t : System} → Reach n m s → Moves k s t → Reach n m t
Reach-Moves r none_made = r
Reach-Moves r (one_made v vs) = Reach-Moves (later r (move v)) vs

-- From every state that the threads reach, in whatever order they then move and while no new call
-- is begun, their moves use up the steps that `work` counts for their places, one or more with each
-- move, so that there are finitely many; and after any of these moves either none of these steps is
-- left, which is when every call has returned, or some thread can move.
pub threads_finish :
    (n k : ℕ) (m : InMemoryStorage) (s t : System)
    → Reach n m s
    → Moves k s t
    → (k + total work t.threads ≤ total work s.threads)
      × ((total work t.threads ≡ 0) ⊎ ((u : System) × Move t u))
threads_finish n k m s t r vs = (Moves-work vs, Inv-moves m t (Reach-Inv (Reach-Moves r vs)))

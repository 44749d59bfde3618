-- ===== src/Storage/Threads/Linear.antt =====
-- The steps of the threads keep the invariant: what the calls return is what they return one after
-- another, in the order in which they leave the lock.
use just_queue_it.Base.{
  ℕ, zero, suc, ◌+◌, ◌≡◌, ◌≤◌, ◌<◌, refl, sym, ap, ◌∙◌, ◌⊎◌, inl, inr, some, List, [], ◌∷◌, ◌++◌,
  map, Bool, true, Bool-cases, All, All-append, arith, length,
}
use just_queue_it.Storage.{InMemoryStorage, size_max, in_memory}
use just_queue_it.Storage.Validity.{IsValid}
use just_queue_it.Storage.Spec.{Call, Reply, call, run, abstract_storage}
use just_queue_it.Storage.Refinement.{view, in_memory-refines}
use just_queue_it.Storage.Threads.{
  Pc, idle, waiting, Entry, Advance, advance, System, after, Step, begin, move, idle_threads, start,
  Reach, here, later,
}
use just_queue_it.Storage.Threads.Counts.{
  one_if, exclusive, shared, total, total-append, total-idle_threads,
}
use just_queue_it.Storage.Threads.Invariant.{Fresh, calls, replies, Inv}
use just_queue_it.Storage.Threads.Local.{Fresh-outside, Local, Holds, advance-Local}

run-append :
    (cs ds : List Call) (s : InMemoryStorage)
    → run in_memory (cs ++ ds) s
      ≡ (let (rs, t) = run in_memory cs s in let (qs, u) = run in_memory ds t in (rs ++ qs, u))
run-append [] ds s = refl
run-append (c ∷ cs) ds s =
    ap (λ (x : List Reply × InMemoryStorage). ((call in_memory c s).0 ∷ x.0, x.1))
      (run-append cs ds (call in_memory c s).1)

map-append {ℓ κ} :
    {A : Type ℓ} {B : Type κ} (f : A → B) (xs ys : List A) → map f (xs ++ ys) ≡ map f xs ++ map f ys
map-append f [] ys = refl
map-append f (x ∷ xs) ys = ap (λ l. f x ∷ l) (map-append f xs ys)

explained-append :
    (log logged : List Entry) (m b b' : InMemoryStorage)
    → run in_memory (calls log) m ≡ (replies log, b)
    → run in_memory (calls logged) b ≡ (replies logged, b')
    → run in_memory (calls (log ++ logged)) m ≡ (replies (log ++ logged), b')
explained-append log logged m b b' e f = rw (
  map-append (λ (x : Entry). x.call) log logged,
  map-append (λ (x : Entry). x.reply) log logged,
  run-append (calls log) (calls logged) m,
  e,
  f,
)

module _ (P : Pc → Type 0) where
  All-split : (xs ys : List Pc) (p : Pc) → All P (xs ++ p ∷ ys) → All P xs × P p × All P ys
  All-split [] ys p a = (tt, a.0, a.1)
  All-split (x ∷ xs) ys p a = let (l, h, r) = All-split xs ys p a.1 in ((a.0, l), h, r)

All-outside :
    (b m : InMemoryStorage) (ps : List Pc)
    → total exclusive ps ≡ 0
    → total shared ps ≡ 0
    → All (Fresh b m) ps
All-outside b m [] e h = tt
All-outside b m (p ∷ ps) e h = (
  Fresh-outside b m p (omega arith) (omega arith),
  All-outside b m ps (omega arith) (omega arith),
)

All-idle : (b m : InMemoryStorage) (n : ℕ) → All (Fresh b m) (idle_threads n)
All-idle b m zero = tt
All-idle b m (suc n) = (tt, All-idle b m n)

start-Inv : (n : ℕ) (m : InMemoryStorage) → Inv m (start n m)
start-Inv n m = record {
  base = m;
  explained = refl;
  writers = total-idle_threads exclusive n refl;
  readers = total-idle_threads shared n refl;
  apart = λ e. refl;
  quiet = λ e. refl;
  fresh = All-idle m m n;
}

one_if_bound : (x : Bool) → one_if x ≤ 1
one_if_bound x = ground arith

module _ (m₀ : InMemoryStorage) (s : System) (inv : Inv m₀ s) (xs ys : List Pc) where
  pub counted :
      (p : Pc)
      → s.threads ≡ xs ++ p ∷ ys
      → (w : Pc → ℕ) → total w s.threads ≡ total w xs + (w p + total w ys)
  counted p e w = ap (total w) e ∙ total-append w xs (p ∷ ys)

  begin-Inv :
      (c : Call)
      → s.threads ≡ xs ++ idle ∷ ys
      → Inv m₀ (record s { threads = xs ++ waiting c ∷ ys })
  begin-Inv c e =
      let (before, _, behind) = All-split (Fresh inv.base s.mem) xs ys idle (rw e at inv.fresh) in
      record {
        base = inv.base;
        explained = inv.explained;
        writers = omega (
          arith,
          counted idle e exclusive,
          total-append exclusive xs (waiting c ∷ ys),
          inv.writers,
        );
        readers =
            omega
              (arith, counted idle e shared, total-append shared xs (waiting c ∷ ys), inv.readers);
        apart = inv.apart;
        quiet = inv.quiet;
        fresh = All-append (Fresh inv.base s.mem) xs (waiting c ∷ ys) before (tt, behind);
      }

  pub holds : (p : Pc) → s.threads ≡ xs ++ p ∷ ys → Holds inv.base s.mem s.lock p
  holds p e = record {
    here = (All-split (Fresh inv.base s.mem) xs ys p (rw e at inv.fresh)).1;
    writer = omega (arith, counted p e exclusive, inv.writers);
    reader = omega (arith, counted p e shared, inv.readers);
    apart = inv.apart;
    quiet = inv.quiet;
  }

  -- The places of the threads but one: the members and the storage behind the log are as before, or
  -- that one holds the lock alone.
  others-Fresh :
      (p : Pc) (a : Advance) (l : Local inv.base s.mem s.lock p a)
      → s.threads ≡ xs ++ p ∷ ys
      → All (Fresh l.base a.mem) xs × All (Fresh l.base a.mem) ys
  others-Fresh p a l e = elim l.unchanged [
    | inl (same_base, same_mem) ↦
        let (before, _, behind) = All-split (Fresh inv.base s.mem) xs ys p (rw e at inv.fresh) in
        rw (same_base, same_mem) (before, behind)
    | inr alone ↦
        let held : s.lock.writer ≡ true =
          ground (arith, counted p e exclusive, inv.writers, one_if_bound s.lock.writer) in
        let no_readers = inv.apart held in
        let one : one_if s.lock.writer ≤ 1 = one_if_bound s.lock.writer in
        (
          All-outside l.base a.mem xs (omega (arith, counted p e exclusive, inv.writers))
              (omega (arith, counted p e shared, inv.readers)),
          All-outside l.base a.mem ys (omega (arith, counted p e exclusive, inv.writers))
              (omega (arith, counted p e shared, inv.readers)),
        )
  ]

  move-Inv :
      (p : Pc) (a : Advance)
      → s.threads ≡ xs ++ p ∷ ys
      → advance s.mem s.lock p ≡ some a
      → Inv m₀ (after s xs ys a)
  move-Inv p a e moved =
      let l = advance-Local inv.base s.mem s.lock p a (holds p e) moved in
      let (before, behind) = others-Fresh p a l e in
      record {
        base = l.base;
        explained = explained-append s.log a.logged m₀ inv.base l.base inv.explained l.explained;
        writers = omega (
          arith,
          counted p e exclusive,
          total-append exclusive xs (a.pc ∷ ys),
          inv.writers,
          l.writers,
        );
        readers =
            omega (
              arith,
              counted p e shared,
              total-append shared xs (a.pc ∷ ys),
              inv.readers,
              l.readers,
            );
        apart = l.apart;
        quiet = l.quiet;
        fresh = All-append (Fresh l.base a.mem) xs (a.pc ∷ ys) before (l.fresh, behind);
      }

Step-Inv : {m : InMemoryStorage} {s t : System} → Inv m s → Step s t → Inv m t
Step-Inv {m} {s} inv (begin xs ys c e same) = rw same (begin-Inv m s inv xs ys c e)
Step-Inv {m} {s} inv (move v) =
    rw v.reached (move-Inv m s inv v.before v.behind v.place v.advanced v.chosen v.moved)

pub Reach-Inv : {n : ℕ} {m : InMemoryStorage} {s : System} → Reach n m s → Inv m s
Reach-Inv {n} {m} here = start-Inv n m
Reach-Inv (later r step) = Step-Inv (Reach-Inv r) step

length-calls : (log : List Entry) → length (calls log) ≡ length log
length-calls [] = refl
length-calls (e ∷ log) = ap suc (length-calls log)

-- Any number of threads call the methods of a storage that is valid at the start, their steps
-- interleaved in any way, while the ids fit in `size_t`. The replies of the calls that have
-- returned are those of the abstract storage to the same calls one after another, in the order in
-- which they left the lock; and either a thread holds the lock alone, or the members are valid and
-- stand for the state of the abstract storage after these calls.
pub threads-refine :
    (n : ℕ) (m : InMemoryStorage) (s : System)
    → IsValid m
    → m.next_id + length s.log < size_max
    → Reach n m s
    → (replies s.log ≡ (run abstract_storage (calls s.log) (view m)).0)
      × ((s.lock.writer ≡ true)
          ⊎ (IsValid s.mem × (view s.mem ≡ (run abstract_storage (calls s.log) (view m)).1)))
threads-refine n m s v fits r =
    let inv = Reach-Inv r in
    let (same_replies, same_state, valid) =
      in_memory-refines (calls s.log) m v (omega (arith, length-calls s.log)) in
    let replied : (run in_memory (calls s.log) m).0 ≡ replies s.log =
      ap (λ (x : List Reply × InMemoryStorage). x.0) inv.explained in
    let ended : (run in_memory (calls s.log) m).1 ≡ inv.base =
      ap (λ (x : List Reply × InMemoryStorage). x.1) inv.explained in
    (
      sym replied ∙ same_replies,
      elim (Bool-cases s.lock.writer) [
        | inl held ↦ inl held
        | inr free ↦
            let at_end : s.mem ≡ (run in_memory (calls s.log) m).1 = inv.quiet free ∙ sym ended in
            inr (rw at_end (valid, same_state))
      ],
    )

-- In every state that the threads reach at most one of them holds the lock alone, and if one does,
-- none holds it shared.
pub mutual_exclusion :
    (n : ℕ) (m : InMemoryStorage) (s : System)
    → Reach n m s
    → (total exclusive s.threads ≤ 1)
      × ((total exclusive s.threads ≡ 0) ⊎ (total shared s.threads ≡ 0))
mutual_exclusion n m s r =
    let inv = Reach-Inv r in
    (
      omega (arith, inv.writers, one_if_bound s.lock.writer),
      elim (Bool-cases s.lock.writer) [
        | inl held ↦ inr (inv.readers ∙ inv.apart held)
        | inr free ↦ inl (inv.writers ∙ ap one_if free)
      ],
    )

-- ===== src/Storage/Threads/Local.antt =====
-- What one step of one thread does to what the invariant says.
use just_queue_it.Base.{
  ℕ, ◌+◌, ◌≡◌, ◌≤◌, refl, ◌⊎◌, inl, inr, some, List, [], ◌∷◌, ◌++◌, true, false, arith,
}
use just_queue_it.Task.{Task, TaskPayload}
use just_queue_it.Storage.{
  InMemoryStorage, in_memory, create_task, get_task, delete_task, get_tasks,
}
use just_queue_it.Storage.Spec.{Call, create, get, delete, list, Reply, run}
use just_queue_it.Storage.Threads.{
  SharedMutex, Pc, idle, waiting, entered, numbered, stored, located_get, located_delete, leaving,
  Advance, is_shared, release, back, enter, advance,
}
use just_queue_it.Storage.Threads.Counts.{one_if, exclusive, shared}
use just_queue_it.Storage.Threads.Invariant.{Fresh, calls, replies}

-- A thread that does not hold the lock says nothing of the members.
pub Fresh-outside : (b m : InMemoryStorage) (p : Pc) → exclusive p ≡ 0 → shared p ≡ 0 → Fresh b m p
Fresh-outside b m idle e h = tt
Fresh-outside b m (waiting c) e h = tt
Fresh-outside b m (entered (create payload)) e h = absurd (omega arith)
Fresh-outside b m (entered (get index)) e h = absurd (omega arith)
Fresh-outside b m (entered (delete index)) e h = absurd (omega arith)
Fresh-outside b m (entered list) e h = absurd (omega arith)
Fresh-outside b m (leaving (create payload) r) e h = absurd (omega arith)
Fresh-outside b m (leaving (get index) r) e h = absurd (omega arith)
Fresh-outside b m (leaving (delete index) r) e h = absurd (omega arith)
Fresh-outside b m (leaving list r) e h = absurd (omega arith)
Fresh-outside b m _ e h = absurd (omega arith)

-- What one step of a thread does, from the members `m` and the lock `l`.
pub record Local (b m : InMemoryStorage) (l : SharedMutex) (p : Pc) (a : Advance) : Type 0 where
  pub base : InMemoryStorage
  pub explained : run in_memory (calls a.logged) b ≡ (replies a.logged, base)
  pub fresh : Fresh base a.mem a.pc
  pub writers : exclusive a.pc + one_if l.writer ≡ exclusive p + one_if a.lock.writer
  pub readers : shared a.pc + l.readers ≡ shared p + a.lock.readers
  pub apart : a.lock.writer ≡ true → a.lock.readers ≡ 0
  pub quiet : a.lock.writer ≡ false → a.mem ≡ base
  pub unchanged : ((base ≡ b) × (a.mem ≡ m)) ⊎ (exclusive p ≡ 1)

-- What the invariant says to one thread.
pub record Holds (b m : InMemoryStorage) (l : SharedMutex) (p : Pc) : Type 0 where
  pub here : Fresh b m p
  pub writer : exclusive p ≤ one_if l.writer
  pub reader : shared p ≤ l.readers
  pub apart : l.writer ≡ true → l.readers ≡ 0
  pub quiet : l.writer ≡ false → m ≡ b

pub back-append : (ts : List Task) (t : Task) → back (ts ++ t ∷ []) ≡ some t
back-append [] t = refl
back-append (u ∷ []) t = refl
back-append (u ∷ v ∷ ts) t = back-append (v ∷ ts) t

module _ (b m : InMemoryStorage) (l : SharedMutex) where
  waiting-Local :
      (c : Call) (a : Advance)
      → Holds b m l (waiting c)
      → advance m l (waiting c) ≡ some a
      → Local b m l (waiting c) a
  unfolding advance
  waiting-Local list a h e = record {
    base = b;
    explained = ground arith;
    fresh = ground (arith, h.quiet);
    writers = ground arith;
    readers = ground arith;
    apart = ground arith;
    quiet = ground (arith, h.quiet);
    unchanged = ground arith;
  }
  waiting-Local c a h e = record {
    base = b;
    explained = ground arith;
    fresh = ground (arith, h.quiet);
    writers = ground arith;
    readers = ground arith;
    apart = ground arith;
    quiet = ground (arith, h.quiet);
    unchanged = ground arith;
  }

  entered-Local : (c : Call) → Holds b m l (entered c) → Local b m l (entered c) (enter m l c)
  unfolding enter get_tasks
  entered-Local (create payload) h = record {
    base = b;
    explained = refl;
    fresh = ground arith;
    writers = omega arith;
    readers = omega arith;
    apart = h.apart;
    quiet = λ free. absurd (ground arith);
    unchanged = inr refl;
  }
  entered-Local (get index) h = record {
    base = b;
    explained = refl;
    fresh = ground arith;
    writers = omega arith;
    readers = omega arith;
    apart = h.apart;
    quiet = h.quiet;
    unchanged = inl (refl, refl);
  }
  entered-Local (delete index) h = record {
    base = b;
    explained = refl;
    fresh = ground arith;
    writers = omega arith;
    readers = omega arith;
    apart = h.apart;
    quiet = h.quiet;
    unchanged = inl (refl, refl);
  }
  entered-Local list h = record {
    base = b;
    explained = refl;
    fresh = ground arith;
    writers = omega arith;
    readers = omega arith;
    apart = h.apart;
    quiet = h.quiet;
    unchanged = inl (refl, refl);
  }

  numbered-Local :
      (payload : TaskPayload) (id : ℕ) (a : Advance)
      → Holds b m l (numbered payload id)
      → advance m l (numbered payload id) ≡ some a
      → Local b m l (numbered payload id) a
  unfolding advance create_task
  numbered-Local payload id a h e = record {
    base = b;
    explained = ground arith;
    fresh = ground arith;
    writers = ground arith;
    readers = ground arith;
    apart = ground (arith, h.apart);
    quiet = λ free. absurd (ground arith);
    unchanged = inr refl;
  }

  stored-Local :
      (payload : TaskPayload) (a : Advance)
      → Holds b m l (stored payload)
      → advance m l (stored payload) ≡ some a
      → Local b m l (stored payload) a
  unfolding advance create_task
  stored-Local payload a h e = record {
    base = b;
    explained = ground arith;
    fresh = ground (arith, back-append b.tasks (record { id = b.next_id; payload = payload }));
    writers = ground arith;
    readers = ground arith;
    apart = ground (arith, h.apart);
    quiet = λ free. absurd (ground arith);
    unchanged = inr refl;
  }

  located_get-Local :
      (index itr : ℕ) (a : Advance)
      → Holds b m l (located_get index itr)
      → advance m l (located_get index itr) ≡ some a
      → Local b m l (located_get index itr) a
  unfolding advance get_task
  located_get-Local index itr a h e = record {
    base = b;
    explained = ground arith;
    fresh = ground arith;
    writers = ground arith;
    readers = ground arith;
    apart = ground (arith, h.apart);
    quiet = ground (arith, h.quiet);
    unchanged = inr refl;
  }

  located_delete-Local :
      (index itr : ℕ) (a : Advance)
      → Holds b m l (located_delete index itr)
      → advance m l (located_delete index itr) ≡ some a
      → Local b m l (located_delete index itr) a
  unfolding advance delete_task
  located_delete-Local index itr a h e = record {
    base = b;
    explained = ground arith;
    fresh = ground arith;
    writers = ground arith;
    readers = ground arith;
    apart = ground (arith, h.apart);
    quiet = λ free. absurd (ground arith);
    unchanged = inr refl;
  }

  leaving-Local :
      (c : Call) (r : Reply)
      → Holds b m l (leaving c r)
      → Local b m l (leaving c r) (record {
        mem = m;
        lock = release l (is_shared c);
        pc = idle;
        logged = record { call = c; reply = r } ∷ [];
      })
  leaving-Local (create payload) r h = record {
    base = (create_task payload b).1;
    explained = ground arith;
    fresh = tt;
    writers = ground arith;
    readers = omega arith;
    apart = ground arith;
    quiet = λ free. h.here.0;
    unchanged = inr refl;
  }
  leaving-Local (get index) r h = record {
    base = b;
    explained = ground arith;
    fresh = tt;
    writers = ground arith;
    readers = omega arith;
    apart = ground arith;
    quiet = λ free. h.here.0;
    unchanged = inr refl;
  }
  leaving-Local (delete index) r h = record {
    base = delete_task index b;
    explained = ground arith;
    fresh = tt;
    writers = ground arith;
    readers = omega arith;
    apart = ground arith;
    quiet = λ free. h.here.0;
    unchanged = inr refl;
  }
  leaving-Local list r h = record {
    base = b;
    explained = ground arith;
    fresh = tt;
    writers = omega arith;
    readers = omega arith;
    apart = ground (arith, h.apart);
    quiet = h.quiet;
    unchanged = inl (refl, refl);
  }

  -- Every step of a thread.
  pub advance-Local :
      (p : Pc) (a : Advance) → Holds b m l p → advance m l p ≡ some a → Local b m l p a
  unfolding advance
  advance-Local idle a h e = cc
  advance-Local (waiting c) a h e = waiting-Local c a h e
  advance-Local (entered c) a h e =
      let same : enter m l c ≡ a = cc in rw (← same) (entered-Local c h)
  advance-Local (numbered payload id) a h e = numbered-Local payload id a h e
  advance-Local (stored payload) a h e = stored-Local payload a h e
  advance-Local (located_get index itr) a h e = located_get-Local index itr a h e
  advance-Local (located_delete index itr) a h e = located_delete-Local index itr a h e
  advance-Local (leaving c r) a h e =
      let same : record {
        mem = m;
        lock = release l (is_shared c);
        pc = idle;
        logged = record { call = c; reply = r } ∷ [];
      }
          ≡ a =
        cc in
      rw (← same) (leaving-Local c r h)

-- ===== src/Storage/Threads/Invariant.antt =====
-- What holds between the steps of the threads: the lock is held as its two members say, the calls
-- that have returned are a sequential run, and a thread that holds the lock alone is on its way
-- from the storage after that run to the storage after its own call.
use just_queue_it.Base.{◌+◌, ◌%◌, ◌≡◌, List, map, true, false, All}
use just_queue_it.Storage.{
  InMemoryStorage, size_max, in_memory, lower_bound, create_task, get_task, delete_task, get_tasks,
}
use just_queue_it.Storage.Spec.{
  Call, create, get, delete, list, Reply, created, found, deleted, tasks, run,
}
use just_queue_it.Storage.Threads.{
  Pc, entered, numbered, stored, located_get, located_delete, leaving, Entry, System,
}
use just_queue_it.Storage.Threads.Counts.{one_if, exclusive, shared, total}

-- What a place says of the members `m`, where `b` is the storage after the calls that returned.
abbrev pub Fresh : InMemoryStorage → InMemoryStorage → Pc → Type 0
Fresh b m (entered c) = m ≡ b
Fresh b m (numbered payload id) =
    (id ≡ b.next_id) × (m ≡ record b { next_id = (b.next_id + 1) % size_max })
Fresh b m (stored payload) = m ≡ (create_task payload b).1
Fresh b m (located_get index itr) = (m ≡ b) × (itr ≡ lower_bound b.tasks index)
Fresh b m (located_delete index itr) = (m ≡ b) × (itr ≡ lower_bound b.tasks index)
Fresh b m (leaving (create payload) r) =
    (m ≡ (create_task payload b).1) × (r ≡ created (create_task payload b).0)
Fresh b m (leaving (get index) r) = (m ≡ b) × (r ≡ found (get_task index b))
Fresh b m (leaving (delete index) r) = (m ≡ delete_task index b) × (r ≡ deleted)
Fresh b m (leaving list r) = r ≡ tasks (get_tasks b)
Fresh b m _ = Unit

abbrev pub calls : List Entry → List Call
calls log = map (λ e. e.call) log

abbrev pub replies : List Entry → List Reply
replies log = map (λ e. e.reply) log

pub record Inv (m₀ : InMemoryStorage) (s : System) : Type 0 where
  pub base : InMemoryStorage
  pub explained : run in_memory (calls s.log) m₀ ≡ (replies s.log, base)
  pub writers : total exclusive s.threads ≡ one_if s.lock.writer
  pub readers : total shared s.threads ≡ s.lock.readers
  pub apart : s.lock.writer ≡ true → s.lock.readers ≡ 0
  pub quiet : s.lock.writer ≡ false → s.mem ≡ base
  pub fresh : All (Fresh base s.mem) s.threads

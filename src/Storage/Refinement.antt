-- ===== src/Storage/Refinement.antt =====
-- `InMemoryStorage` implements the abstract storage: every sequence of calls gets the same replies.
use mathlib.Core.Path.{fun_ext}
use just_queue_it.Base.{
  ℕ, zero, suc, ◌+◌, ◌≤◌, ◌<◌, ◌≡◌, refl, sym, ap, ◌∙◌, Option, none, some, List, [], ◌∷◌, ◌==◌,
  length, inl, inr, Bool-cases, ==_iff, All, arith,
}
use just_queue_it.Task.{Task, TaskPayload}
use just_queue_it.Storage.{
  InMemoryStorage, empty, size_max, in_memory, create_task, delete_task, get_task, get_tasks,
}
use just_queue_it.Storage.LowerBound.{IsSorted}
use just_queue_it.Storage.Validity.{IsValid, create_task-IsValid, delete_task-IsValid}
use just_queue_it.Storage.Lookup.{
  find_task, find_task_above, get_task-find_task, get_task-create_task, get_task-delete_task,
}
use just_queue_it.Storage.Spec.{
  Abstract, task_at, collect, abstract_storage, nothing_stored, Call, create, get, delete, list,
  found, tasks, call, run,
}

abbrev payload_of : Option Task → Option TaskPayload
payload_of none = none
payload_of (some t) = some t.payload

-- The function from ids to payloads that the storage stands for.
pub view : InMemoryStorage → Abstract
view s = record { live = λ i. payload_of (get_task i s); next = s.next_id }

collect-congr :
    (f g : ℕ → Option TaskPayload) (k n : ℕ)
    → ((i : ℕ) → k ≤ i → f i ≡ g i)
    → collect f k n ≡ collect g k n
collect-congr f g k zero h = refl
collect-congr f g k (suc n) h =
    rw (h k (omega arith), collect-congr f g (k + 1) n (λ i le. h i (omega arith)))

All-shift :
    (j k : ℕ) (ts : List Task) → All (λ u. j < u.id) ts → k ≤ suc j → All (λ u. k < suc u.id) ts
All-shift j k [] a h = tt
All-shift j k (t ∷ ts) a h = (omega arith, All-shift j k ts a.1 h)

All-end : (m n : ℕ) (ts : List Task) → All (λ t. t.id < m) ts → m ≡ n → All (λ t. t.id < n) ts
All-end m n ts a e = rw (← e) a

-- A sorted list is what the enumeration of its ids gives.
collect-find_task :
    (k n : ℕ) (ts : List Task)
    → IsSorted ts
    → All (λ t. t.id < k + n) ts
    → All (λ t. k < suc t.id) ts
    → collect (λ i. payload_of (find_task i ts)) k n ≡ ts
collect-find_task k zero [] s b a = refl
collect-find_task k zero (t ∷ ts) s b a = absurd (omega arith)
collect-find_task k (suc n) [] s b a = collect-find_task (k + 1) n [] tt tt tt
collect-find_task k (suc n) (t ∷ ts) s b a = elim (Bool-cases (t.id == k)) [
  | inl same ↦
      let at_k : t.id ≡ k = (==_iff t.id k).0 same in
      let later : collect (λ i. payload_of (find_task i (t ∷ ts))) (k + 1) n ≡ ts =
        collect-congr _ (λ i. payload_of (find_task i ts)) (k + 1) n (λ i le. ground arith)
        ∙ collect-find_task (k + 1) n ts s.1 (All-end (k + suc n) (k + 1 + n) ts b.1 (omega arith))
            (All-shift t.id (k + 1) ts s.0 (omega arith)) in
      ground (arith, later)
  | inr other ↦
      let above : k < t.id = ground arith in
      let absent : find_task k ts ≡ none = find_task_above t.id ts k s.0 (omega arith) in
      let later : collect (λ i. payload_of (find_task i (t ∷ ts))) (k + 1) n ≡ t ∷ ts =
        collect-find_task (k + 1) n (t ∷ ts) s
          (All-end (k + suc n) (k + 1 + n) (t ∷ ts) b (omega arith))
          (omega arith, All-shift t.id (k + 1) ts s.0 (omega arith)) in
      ground (arith, later, absent)
]

All-from_zero : (ts : List Task) → All (λ t. 0 < suc t.id) ts
All-from_zero [] = tt
All-from_zero (t ∷ ts) = (omega arith, All-from_zero ts)

task_at-payload_of :
    (index : ℕ) (ts : List Task)
    → task_at index (payload_of (find_task index ts)) ≡ find_task index ts
task_at-payload_of index [] = refl
task_at-payload_of index (t ∷ ts) = ground (arith, task_at-payload_of index ts)

get_task-view :
    (index : ℕ) (s : InMemoryStorage)
    → IsValid s
    → task_at index ((view s).live index) ≡ get_task index s
unfolding view
get_task-view index s v = rw (get_task-find_task index s v) (task_at-payload_of index s.tasks)

get_tasks-view :
    (s : InMemoryStorage) → IsValid s → collect (view s).live 0 (view s).next ≡ get_tasks s
unfolding view get_tasks
get_tasks-view s v =
    collect-congr _ (λ i. payload_of (find_task i s.tasks)) 0 s.next_id
      (λ i le. ap payload_of (get_task-find_task i s v))
    ∙ collect-find_task 0 s.next_id s.tasks v.sorted
        (All-end s.next_id (0 + s.next_id) s.tasks v.below (omega arith)) (All-from_zero s.tasks)

abstract_eq : {a b : Abstract} → ((i : ℕ) → a.live i ≡ b.live i) → a.next ≡ b.next → a ≡ b
abstract_eq h e = λ i. record { live = fun_ext h i; next = e i }

view-create_task :
    (payload : TaskPayload) (s : InMemoryStorage)
    → IsValid s
    → s.next_id + 1 < size_max
    → view (create_task payload s).1 ≡ (abstract_storage.create_task payload (view s)).1
unfolding view
view-create_task payload s v h =
    abstract_eq (λ i. rw (get_task-create_task payload i s v h) (ground arith))
      (unfold create_task in omega arith)

view-delete_task :
    (index : ℕ) (s : InMemoryStorage)
    → IsValid s
    → view (delete_task index s) ≡ abstract_storage.delete_task index (view s)
unfolding view
view-delete_task index s v =
    abstract_eq (λ i. rw (get_task-delete_task index i s v) (ground arith))
      (unfold delete_task in ground arith)

pub view-empty : view empty ≡ nothing_stored
unfolding view get_task
view-empty = refl

-- One call: the reply, the abstract state after it, and the invariant.
pub call-refines :
    (c : Call) (s : InMemoryStorage)
    → IsValid s
    → s.next_id + 1 < size_max
    → ((call in_memory c s).0 ≡ (call abstract_storage c (view s)).0)
      × (view (call in_memory c s).1 ≡ (call abstract_storage c (view s)).1)
      × IsValid (call in_memory c s).1
      × ((call in_memory c s).1.next_id ≤ s.next_id + 1)
call-refines (create payload) s v h = (
  unfold create_task view in refl,
  view-create_task payload s v h,
  create_task-IsValid payload s v h,
  unfold create_task in omega arith,
)
call-refines (get index) s v h = (ap found (sym (get_task-view index s v)), refl, v, omega arith)
call-refines (delete index) s v h = (
  refl,
  view-delete_task index s v,
  delete_task-IsValid index s v,
  unfold delete_task in ground arith,
)
call-refines list s v h = (ap tasks (sym (get_tasks-view s v)), refl, v, omega arith)

run-refines :
    (cs : List Call) (s : InMemoryStorage) (a : Abstract)
    → IsValid s
    → view s ≡ a
    → s.next_id + length cs < size_max
    → ((run in_memory cs s).0 ≡ (run abstract_storage cs a).0)
      × (view (run in_memory cs s).1 ≡ (run abstract_storage cs a).1)
      × IsValid (run in_memory cs s).1
run-refines [] s a v e h = (refl, e, v)
run-refines (c ∷ cs) s a v e h =
    let (reply, state, valid, next) = call-refines c s v (omega arith) in
    let (replies, final, kept) =
      run-refines cs (call in_memory c s).1 (call abstract_storage c a).1 valid (rw (← e) state)
        (omega arith) in
    (rw (reply, e, replies), final, kept)

-- From a valid storage, and while the ids fit in `size_t`, any sequence of calls gets the replies
-- of the abstract storage, ends in the state that stands for its state, and in a valid one.
pub in_memory-refines :
    (cs : List Call) (s : InMemoryStorage)
    → IsValid s
    → s.next_id + length cs < size_max
    → ((run in_memory cs s).0 ≡ (run abstract_storage cs (view s)).0)
      × (view (run in_memory cs s).1 ≡ (run abstract_storage cs (view s)).1)
      × IsValid (run in_memory cs s).1
in_memory-refines cs s v h = run-refines cs s (view s) v refl h

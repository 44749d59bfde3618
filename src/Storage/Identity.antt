-- ===== src/Storage/Identity.antt =====
-- The ids that `CreateTask` hands out: consecutive, so none is handed out twice, whatever is
-- deleted in between.
use just_queue_it.Base.{ℕ, zero, suc, ◌+◌, ◌<◌, ◌≡◌, refl, List, [], ◌∷◌, arith}
use just_queue_it.Storage.{InMemoryStorage, size_max, in_memory, create_task, delete_task}
use just_queue_it.Storage.Spec.{
  Call, create, get, delete, list, Reply, created, found, deleted, tasks, run,
}

-- The ids in the replies of the calls of `CreateTask`.
abbrev pub created_ids : List Reply → List ℕ
created_ids [] = []
created_ids (created t ∷ rs) = t.id ∷ created_ids rs
created_ids (found t ∷ rs) = created_ids rs
created_ids (deleted ∷ rs) = created_ids rs
created_ids (tasks ts ∷ rs) = created_ids rs

abbrev creations : List Call → ℕ
creations [] = 0
creations (create payload ∷ cs) = suc (creations cs)
creations (get index ∷ cs) = creations cs
creations (delete index ∷ cs) = creations cs
creations (list ∷ cs) = creations cs

abbrev pub count_from : ℕ → ℕ → List ℕ
count_from k zero = []
count_from k (suc n) = k ∷ count_from (k + 1) n

next_id-delete_task : (index : ℕ) (s : InMemoryStorage) → (delete_task index s).next_id ≡ s.next_id
unfolding delete_task
next_id-delete_task index s = ground arith

-- While the ids fit in `size_t`, the ids handed out by a sequence of calls are the ones from the
-- next id on, one for each creation and in order.
pub created_ids-run :
    (cs : List Call) (s : InMemoryStorage)
    → s.next_id + creations cs < size_max
    → created_ids (run in_memory cs s).0 ≡ count_from s.next_id (creations cs)
created_ids-run [] s h = refl
created_ids-run (create payload ∷ cs) s h =
    let s' = (create_task payload s).1 in
    let next : s'.next_id ≡ s.next_id + 1 = unfold create_task in omega arith in
    let later : created_ids (run in_memory cs s').0 ≡ count_from (s.next_id + 1) (creations cs) =
      rw (created_ids-run cs s' (omega arith), next) in
    rw later (unfold create_task in refl)
created_ids-run (get index ∷ cs) s h = created_ids-run cs s h
created_ids-run (delete index ∷ cs) s h =
    rw (created_ids-run cs (delete_task index s) (rw next_id-delete_task h), next_id-delete_task)
created_ids-run (list ∷ cs) s h = created_ids-run cs s h

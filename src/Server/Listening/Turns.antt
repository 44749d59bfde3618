-- ===== src/Server/Listening/Turns.antt =====
-- Which session a turn changes.
use just_queue_it.Base.{
  ℕ, zero, suc, Bytes, false, if◌then◌else◌, ◌≡◌, ◌≢◌, refl, ap, some, List, [], ◌∷◌, get_elem?,
}
use just_queue_it.Base.Exec.{Outcome}
use just_queue_it.Core.Content.{ContentType}
use just_queue_it.Router.{RouteInfo, Routes}
use just_queue_it.Server.{HttpResponse}
use just_queue_it.Server.Listening.{
  Connection, Serving, Event, turn, resume_at, handle_event, handle,
}

module _ {S : Type 0} (enumerators : List (Bytes × ContentType))
    (iterate : Routes S → List (Bytes × RouteInfo S))
    (prepare_payload : HttpResponse → Outcome HttpResponse) (router : Routes S) where
  pub handle-running :
      (e : Event) (v : Serving S)
      → v.stopped ≡ false
      → handle enumerators iterate prepare_payload router e v
        ≡ handle_event enumerators iterate prepare_payload router e v
  unfolding handle
  handle-running e v runs =
      ap (λ b. if b then v else handle_event enumerators iterate prepare_payload router e v) runs

  pub resume_at_self :
      (i : ℕ) (cs : List Connection) (c : Connection) (s : S)
      → get_elem? cs i ≡ some c
      → (get_elem? (resume_at enumerators iterate prepare_payload router i cs s).0 i
          ≡ some (turn enumerators iterate prepare_payload router c s).0)
        × ((resume_at enumerators iterate prepare_payload router i cs s).2
            ≡ (turn enumerators iterate prepare_payload router c s).1)
  unfolding resume_at
  resume_at_self i [] c s e = cc
  resume_at_self zero (d ∷ cs) c s e = let same : d ≡ c = cc in rw same (refl, refl)
  resume_at_self (suc i) (d ∷ cs) c s e = resume_at_self i cs c s e

  pub resume_at_other :
      (i j : ℕ) (cs : List Connection) (s : S)
      → i ≢ j
      → get_elem? (resume_at enumerators iterate prepare_payload router i cs s).0 j ≡ get_elem? cs j
  unfolding resume_at
  resume_at_other i j [] s ne = refl
  resume_at_other zero zero (d ∷ cs) s ne = absurd (ne refl)
  resume_at_other zero (suc j) (d ∷ cs) s ne = refl
  resume_at_other (suc i) zero (d ∷ cs) s ne = refl
  resume_at_other (suc i) (suc j) (d ∷ cs) s ne = resume_at_other i j cs s (λ e. ne (ap suc e))

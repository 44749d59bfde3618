-- ===== src/Server/Listening/Sequence/Stands.antt =====
-- What a turn of any session makes of the responses for one position.
use native.Mathlib.Decide.{ℕ_discrete}
use just_queue_it.Base.{
  ℕ, zero, suc, Bytes, ◌≡◌, ◌≢◌, ◌⊎◌, inl, inr, refl, sym, ap, ◌∙◌, Option, none, some, List, [],
  ◌∷◌, ◌++◌, append_assoc, append-nil, get_elem?, arith,
}
use just_queue_it.Base.Exec.{Outcome, returned, thrown}
use just_queue_it.Core.Content.{ContentType}
use just_queue_it.Router.{RouteInfo, Routes}
use just_queue_it.Server.{HttpRequest, HttpResponse}
use just_queue_it.Server.Session.{Round, answer}
use just_queue_it.Server.Listening.{
  Phase, waiting, writing, over, Connection, connected, turn, resume_at,
}
use just_queue_it.Server.Listening.Turns.{resume_at_self, resume_at_other}
use just_queue_it.Server.Listening.Others.{get_elem?-append}
use just_queue_it.Server.Listening.Sequence.{
  Asked, Replied, to_answer, one_reply, for_session, Owes, Explained, in_sequence,
}
use just_queue_it.Server.Listening.Sequence.Turn.{in_order, turned}

pub for_session-append :
    (i : ℕ) (rs ts : List Replied) → for_session i (rs ++ ts) ≡ for_session i rs ++ for_session i ts
for_session-append i [] ts = refl
for_session-append i (r ∷ rs) ts = ground (arith, for_session-append i rs ts)

-- A position has no session and no responses, or a session with its responses.
abbrev pub Stands : ℕ → List HttpResponse → List Connection → Type 0
Stands i past cs =
    ((get_elem? cs i ≡ none) × (past ≡ []))
    ⊎ ((c : Connection) × (get_elem? cs i ≡ some c) × Explained past c)

-- A session more at the end.
pub Stands-append :
    (i : ℕ) (past : List HttpResponse) (cs : List Connection) (rounds : List Round)
    → Stands i past cs
    → Stands i past (cs ++ connected rounds ∷ [])
Stands-append i past cs rounds (inr (c, found, e)) =
    inr (c, get_elem?-append cs (connected rounds ∷ []) i c found, e)
Stands-append zero past [] rounds (inl (absent, e)) = inr (connected rounds, refl, ([], e, refl))
Stands-append (suc i) past [] rounds (inl (absent, e)) = inl (refl, e)
Stands-append zero past (c ∷ cs) rounds (inl (absent, e)) = cc
Stands-append (suc i) past (c ∷ cs) rounds (inl (absent, e)) =
    Stands-append i past cs rounds (inl (absent, e))

module _ {S : Type 0} (enumerators : List (Bytes × ContentType))
    (iterate : Routes S → List (Bytes × RouteInfo S))
    (prepare_payload : HttpResponse → Outcome HttpResponse) (router : Routes S) where
  pub in_sequence-append :
      (as' bs : List Asked) (s : S)
      → (mid : S) × ((in_sequence enumerators iterate prepare_payload router as' s).1 ≡ mid)
        × ((in_sequence enumerators iterate prepare_payload router (as' ++ bs) s).0
            ≡ (in_sequence enumerators iterate prepare_payload router as' s).0
              ++ (in_sequence enumerators iterate prepare_payload router bs mid).0)
        × ((in_sequence enumerators iterate prepare_payload router (as' ++ bs) s).1
            ≡ (in_sequence enumerators iterate prepare_payload router bs mid).1)
  unfolding in_sequence
  in_sequence-append [] bs s = (s, refl, refl, refl)
  in_sequence-append (a ∷ as') bs s =
      let (outcome, t) = answer enumerators iterate prepare_payload router a.req s in
      let (mid, ends, replies, state) = in_sequence-append as' bs t in
      (
        mid,
        ends,
        ap (λ x. one_reply a outcome ++ x) replies ∙ sym (append_assoc (one_reply a outcome) _ _),
        state,
      )

  pub resume_at-none :
      (i : ℕ) (cs : List Connection) (s : S)
      → get_elem? cs i ≡ none
      → resume_at enumerators iterate prepare_payload router i cs s ≡ (cs, [], s)
  unfolding resume_at
  resume_at-none i [] s e = refl
  resume_at-none zero (c ∷ cs) s e = cc
  resume_at-none (suc i) (c ∷ cs) s e = rw (resume_at-none i cs s e)

  asked_by-other :
      (i j : ℕ) (o : Option HttpRequest) (s : S)
      → i ≢ j
      → for_session i (in_order enumerators iterate prepare_payload router j o s).0 ≡ []
  unfolding in_sequence
  asked_by-other i j none s ne = refl
  asked_by-other i j (some req) s ne =
      one (answer enumerators iterate prepare_payload router req s).0
    where
      one :
          (outcome : Outcome HttpResponse)
          → for_session i (one_reply (record { session = j; req = req }) outcome ++ []) ≡ []
      one (thrown what) = refl
      one (returned res) = ground arith

  -- The state after a turn is that after the request which it answers.
  pub turn-state :
      (j : ℕ) (d : Connection) (s : S)
      → (turn enumerators iterate prepare_payload router d s).1
        ≡ (in_order enumerators iterate prepare_payload router j (to_answer d.phase d.rounds) s).1
  turn-state j d s =
      let (rest, owes) = owed d.phase in
      (turned enumerators iterate prepare_payload router j (d.sent ++ rest) d.sent d.phase d.rounds
        s (rest, refl, owes)).1
    where
      owed : (phase : Phase) → (rest : List HttpResponse) × Owes phase rest
      owed waiting = ([], refl)
      owed (writing res write_error shutdown_error) = (res ∷ [], refl)
      owed (over e) = ([], omega arith)

  module _ (i j : ℕ) (past : List HttpResponse) (cs : List Connection) (d : Connection) (s : S)
      (found : get_elem? cs j ≡ some d) where
    abbrev pub asked_now : List Replied × S
    asked_now = in_order enumerators iterate prepare_payload router j (to_answer d.phase d.rounds) s

    abbrev pub after_turn : List Connection
    after_turn = (resume_at enumerators iterate prepare_payload router j cs s).0

    turn-Stands_self :
        i ≡ j → Explained past d → Stands i (past ++ for_session i asked_now.0) after_turn
    turn-Stands_self same e =
        let (there, _) = resume_at_self enumerators iterate prepare_payload router j cs d s found in
        rw same (
          inr (
            (turn enumerators iterate prepare_payload router d s).0,
            there,
            (turned enumerators iterate prepare_payload router j past d.sent d.phase d.rounds s
                e).0,
          ))

    turn-Stands_other :
        i ≢ j → Stands i past cs → Stands i (past ++ for_session i asked_now.0) after_turn
    turn-Stands_other ne h =
        let quiet : past ++ for_session i asked_now.0 ≡ past =
          ap (λ x. past ++ x) (asked_by-other i j (to_answer d.phase d.rounds) s ne)
          ∙ append-nil past in
        let stays =
          resume_at_other enumerators iterate prepare_payload router j i cs s (λ e. ne (sym e)) in
        elim h [
          | inl (absent, none_yet) ↦ inl (stays ∙ absent, quiet ∙ none_yet)
          | inr (c, here, (rest, e, owes)) ↦ inr (c, stays ∙ here, (rest, quiet ∙ e, owes))
        ]

    pub turn-Stands : Stands i past cs → Stands i (past ++ for_session i asked_now.0) after_turn
    turn-Stands h = elim (ℕ_discrete i j) [
      | no ne ↦ turn-Stands_other ne h
      | yes same ↦ elim h [
        | inl (absent, _) ↦
            let none_there : get_elem? cs j ≡ none = ap (get_elem? cs) (sym same) ∙ absent in cc
        | inr (c, here, e) ↦
            let is_d : c ≡ d = cc (ap (get_elem? cs) same) in turn-Stands_self same (rw is_d at e)
      ]
    ]

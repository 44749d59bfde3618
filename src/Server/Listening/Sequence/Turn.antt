-- ===== src/Server/Listening/Sequence/Turn.antt =====
-- What one turn of a session adds to the responses for it.
use just_queue_it.Base.{
  ℕ, Bytes, Bool, true, false, if◌then◌else◌, ◌≡◌, refl, ap, ◌∙◌, Option, none, some, List, [], ◌∷◌,
  ◌++◌, append-nil, ◌==◌, arith,
}
use just_queue_it.Base.Exec.{Outcome, returned, thrown}
use just_queue_it.Core.Content.{ContentType}
use just_queue_it.Router.{RouteInfo, Routes}
use just_queue_it.Server.{HttpRequest, HttpResponse}
use just_queue_it.Server.Session.{Failure, Received, request, failed_read, Round, answer}
use just_queue_it.Server.Listening.{
  Phase, waiting, writing, over, Connection, after_answer, received, turn,
}
use just_queue_it.Server.Listening.Sequence.{
  Replied, request_of, to_answer, asked_by, one_reply, for_session, Owes, Explained, in_sequence,
}

nothing_owed :
    (keep_alive : Bool) (shutdown_error : Option Failure)
    → Owes (if keep_alive then waiting else over shutdown_error) []
nothing_owed true shutdown_error = refl
nothing_owed false shutdown_error = omega arith

module _ (i : ℕ) where
  self : (i == i) ≡ true
  self = ground arith

  for_session_self :
      (res : HttpResponse) → for_session i (record { session = i; res = res } ∷ []) ≡ res ∷ []
  for_session_self res = rw self

  -- The outcome of an answer in a session that has nothing left to send.
  after_answer-Explained :
      (past sent : List HttpResponse) (rounds : List Round) (req : HttpRequest)
      (outcome : Outcome HttpResponse) (write_error shutdown_error : Option Failure)
      → past ≡ sent
      → Explained
          (past ++ for_session i (one_reply (record { session = i; req = req }) outcome ++ []))
          (record {
            rounds = rounds;
            phase = after_answer req.keep_alive write_error shutdown_error outcome;
            sent = sent;
          })
  after_answer-Explained past sent rounds req (thrown what) write_error shutdown_error same =
      ([], ap (λ x. x ++ []) same, omega arith)
  after_answer-Explained past sent rounds req (returned res) write_error shutdown_error same =
      let reply = record res { keep_alive = req.keep_alive } in
      (
        reply ∷ [],
        ap (λ x. x ++ for_session i (record { session = i; res = reply } ∷ [])) same
            ∙ ap (λ x. sent ++ x) (for_session_self reply),
        refl,
      )

module _ {S : Type 0} (enumerators : List (Bytes × ContentType))
    (iterate : Routes S → List (Bytes × RouteInfo S))
    (prepare_payload : HttpResponse → Outcome HttpResponse) (router : Routes S) (i : ℕ) where
  -- The responses and the state that answering a request in sequence leads to.
  abbrev pub in_order : Option HttpRequest → S → List Replied × S
  in_order o s = in_sequence enumerators iterate prepare_payload router (asked_by i o) s

  abbrev pub Turned : List HttpResponse → Connection × S → Option HttpRequest → S → Type 0
  Turned past (c, t) o s =
      Explained (past ++ for_session i (in_order o s).0) c × (t ≡ (in_order o s).1)

  received-Turned :
      (past sent : List HttpResponse) (rounds : List Round) (read : Received)
      (write_error shutdown_error : Option Failure) (s : S)
      → past ≡ sent
      → Turned past
          (let (phase, t) =
              received enumerators iterate prepare_payload router read write_error shutdown_error
                s in
            (record { rounds = rounds; phase = phase; sent = sent }, t))
          (request_of read)
          s
  unfolding received in_sequence
  received-Turned past sent rounds (failed_read e) write_error shutdown_error s same =
      (([], ap (λ x. x ++ []) same, omega arith), refl)
  received-Turned past sent rounds (request req) write_error shutdown_error s same = (
    after_answer-Explained i past sent rounds req
        (answer enumerators iterate prepare_payload router req s).0 write_error shutdown_error same,
    refl,
  )

  pub turned :
      (past sent : List HttpResponse) (phase : Phase) (rounds : List Round) (s : S)
      → Explained past (record { rounds = rounds; phase = phase; sent = sent })
      → Turned past
          (turn enumerators iterate prepare_payload router
            (record { rounds = rounds; phase = phase; sent = sent })
            s)
          (to_answer phase rounds)
          s
  unfolding turn in_sequence
  turned past sent waiting [] s (rest, e, owes) = ((rest, append-nil past ∙ e, owes), refl)
  turned past sent waiting (round ∷ rounds) s (rest, e, owes) =
      received-Turned past sent rounds round.read round.write_error round.shutdown_error s
        (e ∙ ap (λ x. sent ++ x) owes ∙ append-nil sent)
  turned past sent (writing res (some w) shutdown_error) rounds s (rest, e, owes) =
      ((rest, append-nil past ∙ e, rw owes (omega arith)), refl)
  turned past sent (writing res none shutdown_error) rounds s (rest, e, owes) =
      let all_sent : past ++ [] ≡ (sent ++ res ∷ []) ++ [] =
        ap (λ x. x ++ []) (e ∙ ap (λ x. sent ++ x) owes) in
      (([], all_sent, nothing_owed res.keep_alive shutdown_error), refl)
  turned past sent (over e) rounds s (rest, same, owes) =
      ((rest, append-nil past ∙ same, owes), refl)

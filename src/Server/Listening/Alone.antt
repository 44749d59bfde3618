-- ===== src/Server/Listening/Alone.antt =====
-- Turns of one session with none of another between them.
use just_queue_it.Base.{
  ℕ, Bytes, Bool, true, false, ◌≡◌, ◌≢◌, refl, sym, ◌∙◌, Option, none, some, List, [], ◌∷◌, ◌++◌,
  append_assoc, append-nil, get_elem?,
}
use just_queue_it.Base.Exec.{Outcome, returned, thrown}
use just_queue_it.Core.Content.{ContentType}
use just_queue_it.Router.{RouteInfo, Routes}
use just_queue_it.Server.{HttpResponse}
use just_queue_it.Server.Session.{
  Failure, exception, Received, request, failed_read, Round, Ending, reading, closed, failed, Trace,
  step, answer, answered, written, do_session,
}
use just_queue_it.Server.Listening.{
  Phase, waiting, writing, over, Connection, Serving, Event, resume, after_answer, received, turn,
  handle_event, handle, serve_events,
}
use just_queue_it.Server.Listening.Turns.{handle-running, resume_at_self, resume_at_other}

-- How a session stands, in the words of a trace.
abbrev pub ending_of : Phase → Ending
ending_of waiting = reading
ending_of (writing res write_error shutdown_error) = reading
ending_of (over none) = closed
ending_of (over (some e)) = failed e

-- Two turns of a session for each round.
abbrev pub resumes : ℕ → List Round → List Event
resumes i [] = []
resumes i (round ∷ rounds) = resume i ∷ resume i ∷ resumes i rounds

module _ {S : Type 0} (enumerators : List (Bytes × ContentType))
    (iterate : Routes S → List (Bytes × RouteInfo S))
    (prepare_payload : HttpResponse → Outcome HttpResponse) (router : Routes S) where
  next_turn : Connection × S → Connection × S
  unfolding turn
  next_turn (c, s) = turn enumerators iterate prepare_payload router c s

  -- Two turns for each round.
  turns : List Round → Connection × S → Connection × S
  unfolding next_turn
  turns [] p = p
  turns (round ∷ rounds) p = turns rounds (next_turn (next_turn p))

  abbrev Agrees : Connection × S → List HttpResponse → Trace S → Type 0
  Agrees (c, s) sent t = (ending_of c.phase ≡ t.ending) × (c.sent ≡ sent ++ t.sent) × (s ≡ t.state)

  turns-over :
      (rounds rest : List Round) (e : Option Failure) (sent : List HttpResponse) (s : S)
      → turns rounds (record { rounds = rest; phase = over e; sent = sent }, s)
        ≡ (record { rounds = rest; phase = over e; sent = sent }, s)
  unfolding turns
  turns-over [] rest e sent s = refl
  turns-over (r ∷ rounds) rest e sent s = turns-over rounds rest e sent s

  over-Agrees :
      (rounds rest : List Round) (e : Option Failure) (before sent more : List HttpResponse) (s : S)
      → before ≡ sent ++ more
      → Agrees
          (turns rounds (record { rounds = rest; phase = over e; sent = before }, s))
          sent
          (record { ending = ending_of (over e); sent = more; state = s })
  over-Agrees rounds rest e before sent more s same =
      rw (turns-over rounds rest e before s) (refl, same, refl)

  module _ (rounds : List Round)
      (ih : (sent : List HttpResponse) (s : S)
        → Agrees
            (turns rounds (record { rounds = rounds; phase = waiting; sent = sent }, s))
            sent
            (do_session enumerators iterate prepare_payload router rounds s)) where
    abbrev later : S → Trace S
    later = do_session enumerators iterate prepare_payload router rounds

    abbrev from : Phase → List HttpResponse → S → Connection × S
    from phase sent s = (record { rounds = rounds; phase = phase; sent = sent }, s)

    from_written :
        (write_error shutdown_error : Option Failure) (keep_alive : Bool) (res : HttpResponse)
        (sent : List HttpResponse) (t : S)
        → Agrees
            (turns rounds (
              next_turn (
                from
                  (writing (record res { keep_alive = keep_alive }) write_error shutdown_error)
                  sent
                  t)))
            sent
            (written write_error shutdown_error (record res { keep_alive = keep_alive }) later t)
    unfolding next_turn turn
    from_written (some e) shutdown_error keep_alive res sent t =
        over-Agrees rounds rounds (some e) sent sent [] t (sym (append-nil sent))
    from_written none none false res sent t =
        let last = record res { keep_alive = false } in
        over-Agrees rounds rounds none (sent ++ last ∷ []) sent (last ∷ []) t refl
    from_written none (some e) false res sent t =
        let last = record res { keep_alive = false } in
        over-Agrees rounds rounds (some e) (sent ++ last ∷ []) sent (last ∷ []) t refl
    from_written none shutdown_error true res sent t =
        let next = record res { keep_alive = true } in
        let (ends, sends, leaves) = ih (sent ++ next ∷ []) t in
        (ends, sends ∙ append_assoc sent (next ∷ []) (later t).sent, leaves)

    from_answered :
        (outcome : Outcome HttpResponse) (keep_alive : Bool)
        (write_error shutdown_error : Option Failure) (sent : List HttpResponse) (t : S)
        → Agrees
            (turns rounds (
              next_turn (from (after_answer keep_alive write_error shutdown_error outcome) sent t)))
            sent
            (answered keep_alive write_error shutdown_error later (outcome, t))
    unfolding next_turn turn
    from_answered (thrown what) keep_alive write_error shutdown_error sent t =
        over-Agrees rounds rounds (some (exception what)) sent sent [] t (sym (append-nil sent))
    from_answered (returned res) keep_alive write_error shutdown_error sent t =
        from_written write_error shutdown_error keep_alive res sent t

    from_read :
        (read : Received) (write_error shutdown_error : Option Failure) (sent : List HttpResponse)
        (s : S)
        → Agrees
            (turns rounds (
              next_turn (
                let (phase, t) =
                  received enumerators iterate prepare_payload router read write_error
                    shutdown_error s in
                from phase sent t)))
            sent
            (step enumerators iterate prepare_payload router read write_error shutdown_error later
              s)
    unfolding next_turn turn received step
    from_read (failed_read e) write_error shutdown_error sent s =
        over-Agrees rounds rounds (some e) sent sent [] s (sym (append-nil sent))
    from_read (request req) write_error shutdown_error sent s =
        let (outcome, t) = answer enumerators iterate prepare_payload router req s in
        from_answered outcome req.keep_alive write_error shutdown_error sent t

  -- Two turns for each round make of a session what `DoSession` does.
  turns-do_session :
      (rounds : List Round) (sent : List HttpResponse) (s : S)
      → Agrees
          (turns rounds (record { rounds = rounds; phase = waiting; sent = sent }, s))
          sent
          (do_session enumerators iterate prepare_payload router rounds s)
  unfolding do_session turns next_turn turn
  turns-do_session [] sent s = (refl, sym (append-nil sent), refl)
  turns-do_session (round ∷ rounds) sent s =
      from_read rounds (turns-do_session rounds) round.read round.write_error round.shutdown_error
        sent s

  module _ (i : ℕ) where
    -- After the events the session at the position stands as in the pair, and no other has changed.
    record Stands (v w : Serving S) (p : Connection × S) : Type 0 where
      runs : w.stopped ≡ false
      itself : get_elem? w.connections i ≡ some p.0
      state : w.state ≡ p.1
      others : (j : ℕ) → i ≢ j → get_elem? w.connections j ≡ get_elem? v.connections j

    Stands-trans :
        (u v w : Serving S) (p q : Connection × S) → Stands u v p → Stands v w q → Stands u w q
    Stands-trans u v w p q a b = record {
      runs = b.runs;
      itself = b.itself;
      state = b.state;
      others = λ j ne. b.others j ne ∙ a.others j ne;
    }

    handle-resume :
        (v : Serving S) (c : Connection) (s : S)
        → v.stopped ≡ false
        → get_elem? v.connections i ≡ some c
        → v.state ≡ s
        → Stands v
            (handle enumerators iterate prepare_payload router (resume i) v)
            (next_turn (c, s))
    unfolding handle_event next_turn
    handle-resume v c s runs found state =
        let (itself, leaves) =
          resume_at_self enumerators iterate prepare_payload router i v.connections c v.state
            found in
        rw (handle-running enumerators iterate prepare_payload router (resume i) v runs, ← state)
          (record {
            runs = runs;
            itself = itself;
            state = leaves;
            others = λ j ne.
                resume_at_other enumerators iterate prepare_payload router i j v.connections v.state
                  ne;
          })

    serve_events-turns :
        (rounds : List Round) (v : Serving S) (c : Connection) (s : S)
        → v.stopped ≡ false
        → get_elem? v.connections i ≡ some c
        → v.state ≡ s
        → Stands v
            (serve_events enumerators iterate prepare_payload router (resumes i rounds) v)
            (turns rounds (c, s))
    unfolding serve_events turns
    serve_events-turns [] v c s runs found state = record {
      runs = runs;
      itself = found;
      state = state;
      others = λ j ne. refl;
    }
    serve_events-turns (round ∷ rounds) v c s runs found state =
        let v1 = handle enumerators iterate prepare_payload router (resume i) v in
        let v2 = handle enumerators iterate prepare_payload router (resume i) v1 in
        let p1 = next_turn (c, s) in
        let p2 = next_turn p1 in
        let w = serve_events enumerators iterate prepare_payload router (resumes i rounds) v2 in
        let a = handle-resume v c s runs found state in
        let b = handle-resume v1 p1.0 p1.1 a.runs a.itself a.state in
        let rest = serve_events-turns rounds v2 p2.0 p2.1 b.runs b.itself b.state in
        let last = turns rounds p2 in
        Stands-trans v v1 w p1 last a (Stands-trans v1 v2 w p2 last b rest)

    -- A session that waits for its first request or a later one has two turns for each round that the
    -- network has in store for it, with no event between them, while the context is not stopped: then
    -- it stands where `DoSession` on these rounds leaves it, has sent what `DoSession` sends behind
    -- what it had sent before, and has left the state that `DoSession` leaves; and no other session
    -- has changed.
    pub serve_events-do_session :
        (v : Serving S) (rounds : List Round) (sent : List HttpResponse) (j : ℕ)
        → v.stopped ≡ false
        → get_elem? v.connections i
          ≡ some (record { rounds = rounds; phase = waiting; sent = sent })
        → i ≢ j
        → (c : Connection) × (get_elem?
              (serve_events enumerators iterate prepare_payload router
                (resumes i rounds)
                v).connections
              i
            ≡ some c)
          × (ending_of c.phase
              ≡ (do_session enumerators iterate prepare_payload router rounds v.state).ending)
          × (c.sent
              ≡ sent ++ (do_session enumerators iterate prepare_payload router rounds v.state).sent)
          × ((serve_events enumerators iterate prepare_payload router (resumes i rounds) v).state
              ≡ (do_session enumerators iterate prepare_payload router rounds v.state).state)
          × (get_elem?
                (serve_events enumerators iterate prepare_payload router
                  (resumes i rounds)
                  v).connections
                j
              ≡ get_elem? v.connections j)
    serve_events-do_session v rounds sent j runs found ne =
        let c : Connection = record { rounds = rounds; phase = waiting; sent = sent } in
        let p = turns rounds (c, v.state) in
        let stands = serve_events-turns rounds v c v.state runs found refl in
        let (ends, sends, leaves) = turns-do_session rounds sent v.state in
        (p.0, stands.itself, ends, sends, stands.state ∙ leaves, stands.others j ne)

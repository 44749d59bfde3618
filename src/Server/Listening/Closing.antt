-- ===== src/Server/Listening/Closing.antt =====
-- A session that comes to its end while the server goes on.
use just_queue_it.Base.{
  ℕ, suc, Bytes, true, false, ◌≡◌, refl, ap, ◌∙◌, none, some, List, [], ◌∷◌, ◌++◌, map, inl, inr,
  get_elem?, All, arith,
}
use just_queue_it.Base.Exec.{Outcome, returned}
use just_queue_it.Core.Content.{ContentType}
use just_queue_it.Router.{RouteInfo, Routes}
use just_queue_it.Server.{HttpRequest, HttpResponse}
use just_queue_it.Server.Session.{Round, closed, Trace, answer}
use just_queue_it.Server.Session.Traces.{good, Answers, session_closes}
use just_queue_it.Server.Listening.{
  Phase, waiting, writing, over, Connection, Serving, Event, serve_events,
}
use just_queue_it.Server.Listening.Alone.{ending_of, resumes, serve_events-do_session}
use just_queue_it.Server.Listening.Others.{Later, serve_events-Later}

closed_over : (phase : Phase) → ending_of phase ≡ closed → phase ≡ over none
closed_over waiting e = cc
closed_over (writing res write_error shutdown_error) e = cc
closed_over (over none) e = refl
closed_over (over (some w)) e = cc

over_stays : (c d : Connection) → c.phase ≡ over none → Later c d → d ≡ c
over_stays c d ended (inl same) = same
over_stays c d ended (inr (open_, more, sends)) = absurd (open_ none ended)

module _ {S : Type 0} (enumerators : List (Bytes × ContentType))
    (iterate : Routes S → List (Bytes × RouteInfo S))
    (prepare_payload : HttpResponse → Outcome HttpResponse) (router : Routes S) where
  -- The server has not stopped. One of its sessions waits, and has sent some responses before; the
  -- network has requests in store for it that keep the connection, one behind them that does not, and
  -- other rounds, and no read, write or shutdown of these requests fails. Each request has an answer
  -- in the state that the one before leaves. If the session has two turns for each round, with no
  -- other event between them, then the state is that behind the last answer; and whatever events the
  -- server takes up afterwards, the session is over without an exception, and has sent, behind what
  -- it had sent, the answers in order, each with the `keep_alive` of its request, and nothing more.
  pub serve_events-closed :
      (v : Serving S) (i : ℕ) (reqs : List HttpRequest) (last : HttpRequest) (rounds : List Round)
      (before sent : List HttpResponse) (res : HttpResponse) (t u : S) (es : List Event)
      → v.stopped ≡ false
      → get_elem? v.connections i
        ≡ some (record {
          rounds = map good reqs ++ good last ∷ rounds;
          phase = waiting;
          sent = before;
        })
      → All (λ r. r.keep_alive ≡ true) reqs
      → Answers enumerators iterate prepare_payload router reqs v.state sent t
      → answer enumerators iterate prepare_payload router last t ≡ (returned res, u)
      → last.keep_alive ≡ false
      → ((serve_events enumerators iterate prepare_payload router
            (resumes i (map good reqs ++ good last ∷ rounds))
            v).state
          ≡ u)
        × ((c : Connection) × (get_elem?
                (serve_events enumerators iterate prepare_payload router es (
                  serve_events enumerators iterate prepare_payload router
                    (resumes i (map good reqs ++ good last ∷ rounds))
                    v)).connections
                i
              ≡ some c)
            × (c.phase ≡ over none)
            × (c.sent ≡ before ++ (sent ++ record res { keep_alive = false } ∷ [])))
  serve_events-closed v i reqs last rounds before sent res t u es runs found keep answers answered
        closes =
      let all_rounds = map good reqs ++ good last ∷ rounds in
      let (c, there, ends, sends, leaves, _) =
        serve_events-do_session enumerators iterate prepare_payload router i v all_rounds before
          (suc i) runs found (λ e. omega arith) in
      let trace =
        session_closes enumerators iterate prepare_payload router reqs last rounds v.state t u sent
          res keep answers answered closes in
      let ended = closed_over c.phase (ends ∙ ap (λ (x : Trace S). x.ending) trace) in
      let w = serve_events enumerators iterate prepare_payload router (resumes i all_rounds) v in
      let (d, stays, later) =
        serve_events-Later enumerators iterate prepare_payload router es i c w there in
      let same = over_stays c d ended later in
      (
        leaves ∙ ap (λ (x : Trace S). x.state) trace,
        (
          c,
          stays ∙ ap some same,
          ended,
          sends ∙ ap (λ (x : Trace S). before ++ x.sent) trace ∙ rw closes,
        ),
      )

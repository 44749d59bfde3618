-- ===== src/Server/Listening/Sequence/Sessions.antt =====
-- Sessions that take turns get the answers of one sequence of requests.
use just_queue_it.Base.{
  ℕ, Bytes, Bool, true, false, ◌≡◌, inl, inr, refl, sym, ap, ◌∙◌, Option, none, some, List, [], ◌∷◌,
  ◌++◌, append_assoc, append-nil, get_elem?, if◌then◌else◌,
}
use just_queue_it.Base.Exec.{Outcome}
use just_queue_it.Core.Content.{ContentType}
use just_queue_it.Router.{RouteInfo, Routes}
use just_queue_it.Server.{HttpResponse}
use just_queue_it.Server.Session.{log_error}
use just_queue_it.Server.Listening.{
  Connection, Serving, Event, accept, accept_failure, resume, stop, connected, launched,
  handle_event, handle, serve_events,
}
use just_queue_it.Server.Listening.Turns.{resume_at_self}
use just_queue_it.Server.Listening.Sequence.{
  Asked, Replied, asked_at, asked_running, asked_event, for_session, Explained, history,
  in_sequence,
}
use just_queue_it.Server.Listening.Sequence.Stands.{
  for_session-append, Stands, Stands-append, in_sequence-append, resume_at-none, turn-state,
  turn-Stands,
}

module _ {S : Type 0} (enumerators : List (Bytes × ContentType))
    (iterate : Routes S → List (Bytes × RouteInfo S))
    (prepare_payload : HttpResponse → Outcome HttpResponse) (router : Routes S) where
  -- What the requests that are asked lead to.
  abbrev answered_now : List Asked → Serving S → List Replied × S
  answered_now asks v = in_sequence enumerators iterate prepare_payload router asks v.state

  module _ (i : ℕ) (past : List HttpResponse) where
    -- The server has gone on by the answers to some requests.
    abbrev Goes : List Asked → Serving S → Serving S → Type 0
    Goes asks v w =
        Stands i (past ++ for_session i (answered_now asks v).0) w.connections
        × (w.state ≡ (answered_now asks v).1)

    quiet : (cs : List Connection) → Stands i past cs → Stands i (past ++ []) cs
    quiet cs h = rw append-nil h

    if-Goes :
        (b : Bool) (v w x : Serving S) → Goes [] v w → Goes [] v x → Goes [] v (if b then w else x)
    if-Goes true v w x g h = g
    if-Goes false v w x g h = h

    resume-Goes :
        (j : ℕ) (v : Serving S) (o : Option Connection)
        → get_elem? v.connections j ≡ o
        → Stands i past v.connections
        → Goes
            (asked_at j o)
            v
            (handle_event enumerators iterate prepare_payload router (resume j) v)
    unfolding handle_event in_sequence
    resume-Goes j v none absent h =
        rw
          (resume_at-none enumerators iterate prepare_payload router j v.connections v.state absent)
          (quiet v.connections h, refl)
    resume-Goes j v (some d) found h = (
      turn-Stands enumerators iterate prepare_payload router i j past v.connections d v.state found
          h,
      (resume_at_self enumerators iterate prepare_payload router j v.connections d v.state found).1
          ∙ turn-state enumerators iterate prepare_payload router j d v.state,
    )

    handle_event-Goes :
        (e : Event) (v : Serving S)
        → Stands i past v.connections
        → Goes (asked_running e v) v (handle_event enumerators iterate prepare_payload router e v)
    unfolding handle_event in_sequence
    handle_event-Goes (accept rounds) v h =
        if-Goes v.listening v (record v { connections = v.connections ++ connected rounds ∷ [] }) v
          (quiet _ (Stands-append i past v.connections rounds h), refl)
          (quiet v.connections h, refl)
    handle_event-Goes (accept_failure e) v h =
        if-Goes v.listening v
          (record v { listening = false; logged = v.logged ++ log_error (some e) }) v
          (quiet v.connections h, refl) (quiet v.connections h, refl)
    handle_event-Goes (resume j) v h = resume-Goes j v (get_elem? v.connections j) refl h
    handle_event-Goes stop v h = (quiet v.connections h, refl)

    stopped_or_not :
        (b : Bool) (e : Event) (v w : Serving S)
        → Stands i past v.connections
        → Goes (asked_running e v) v w
        → Goes (if b then [] else asked_running e v) v (if b then v else w)
    unfolding in_sequence
    stopped_or_not true e v w h g = (quiet v.connections h, refl)
    stopped_or_not false e v w h g = g

    handle-Goes :
        (e : Event) (v : Serving S)
        → Stands i past v.connections
        → Goes (asked_event e v) v (handle enumerators iterate prepare_payload router e v)
    unfolding handle
    handle-Goes e v h =
        stopped_or_not v.stopped e v (handle_event enumerators iterate prepare_payload router e v) h
          (handle_event-Goes e v h)

  serve_events-Goes :
      (i : ℕ) (es : List Event) (past : List HttpResponse) (v : Serving S)
      → Stands i past v.connections
      → Goes i past
          (history enumerators iterate prepare_payload router es v)
          v
          (serve_events enumerators iterate prepare_payload router es v)
  unfolding serve_events history in_sequence
  serve_events-Goes i [] past v h = (quiet i past v.connections h, refl)
  serve_events-Goes i (e ∷ es) past v h =
      let asks = asked_event e v in
      let w = handle enumerators iterate prepare_payload router e v in
      let later = history enumerators iterate prepare_payload router es w in
      let now = (answered_now asks v).0 in
      let (standing, state) = handle-Goes i past e v h in
      let (last, last_state) = serve_events-Goes i es (past ++ for_session i now) w standing in
      let (mid, ends, replies, final) =
        in_sequence-append enumerators iterate prepare_payload router asks later v.state in
      let from : S → List Replied × S =
        in_sequence enumerators iterate prepare_payload router later in
      let same : past ++ for_session i (answered_now (asks ++ later) v).0
          ≡ (past ++ for_session i now) ++ for_session i (from w.state).0 =
        ap (λ x. past ++ for_session i x) replies
        ∙ ap (λ x. past ++ x) (for_session-append i now (from mid).0)
        ∙ sym (append_assoc past (for_session i now) (for_session i (from mid).0))
        ∙ ap (λ u. (past ++ for_session i now) ++ for_session i (from u).0) (sym (state ∙ ends)) in
      (rw same last, last_state ∙ ap (λ u. (from u).1) (state ∙ ends) ∙ sym final)

  -- What the clients see of sessions that take turns in any order, with connections that are
  -- accepted, failures and a stop between them, is what one server gives that answers the same
  -- requests one after another, in the order in which they have been answered: the state is the
  -- same, and the responses for a session are, in order, those that it has sent and, behind them, the
  -- one that it is writing, none if it waits, and at most one if it is over.
  pub sessions-in_sequence :
      (es : List Event) (s : S) (i : ℕ) (c : Connection)
      → get_elem?
          (serve_events enumerators iterate prepare_payload router es (launched s)).connections
          i
        ≡ some c
      → ((serve_events enumerators iterate prepare_payload router es (launched s)).state
          ≡ (in_sequence enumerators iterate prepare_payload router
              (history enumerators iterate prepare_payload router es (launched s))
              s).1)
        × Explained
            (for_session i
              (in_sequence enumerators iterate prepare_payload router
                (history enumerators iterate prepare_payload router es (launched s))
                s).0)
            c
  sessions-in_sequence es s i c found =
      let (stands, state) = serve_events-Goes i es [] (launched s) (inl (refl, refl)) in
      (
        state,
        elim stands [
          | inl (absent, _) ↦ cc
          | inr (d, there, e) ↦ let same : d ≡ c = cc in rw same at e
        ],
      )

-- ===== src/Server/Listening/State.antt =====
-- What an event may do to the state that the sessions share.
use just_queue_it.Base.{
  ℕ, zero, suc, Bytes, Bool, true, false, ◌≡◌, refl, List, [], ◌∷◌, inl, inr, if◌then◌else◌,
}
use just_queue_it.Base.Exec.{Outcome, returned, thrown, and_then}
use just_queue_it.Core.{Request, Response}
use just_queue_it.Core.Content.{ContentType, ListsAll}
use just_queue_it.Router.{RouteInfo, Routes, route}
use just_queue_it.Router.Keeps.{Keeps}
use just_queue_it.Server.{HttpRequest, HttpResponse, create_response, prepare_response}
use just_queue_it.Server.Prepare.{IsRouted, prepare_response-cases}
use just_queue_it.Server.Session.{Received, request, failed_read, Round, answer}
use just_queue_it.Server.Listening.{
  Phase, waiting, writing, over, Connection, Serving, Event, accept, accept_failure, resume, stop,
  turn, received, resume_at, handle_event, handle,
}

module _ {S : Type 0} (enumerators : List (Bytes × ContentType))
    (iterate : Routes S → List (Bytes × RouteInfo S))
    (prepare_payload : HttpResponse → Outcome HttpResponse) (router : Routes S) (R : S → S → Type 0)
    (unchanged : (s : S) → R s s) where
  -- The request that the router is given.
  abbrev routed_request : (req : HttpRequest) → IsRouted enumerators iterate router req → Request
  routed_request req r = record {
    method = r.method;
    path = req.target;
    body = req.body;
    content_type = r.content_type;
    accept_content_type = r.accept;
  }

  created-state :
      (o : Outcome Response × S)
      → (and_then (λ r t. (create_response prepare_payload r, t)) o).1 ≡ o.1
  created-state (returned r, t) = refl
  created-state (thrown what, t) = refl

  -- What the routed requests keep, the answers keep.
  pub answer-Keeps :
      ListsAll enumerators
      → ((req : Request) → Keeps R (route iterate router req))
      → (req : HttpRequest) → Keeps R (answer enumerators iterate prepare_payload router req)
  unfolding answer
  answer-Keeps all k req s =
      rw (created-state (prepare_response enumerators iterate router req s))
        (elim (prepare_response-cases enumerators iterate router req all) [
          | inl r ↦ rw r.routed (k (routed_request req r) s)
          | inr (inl (_, e)) ↦ rw e (unchanged s)
          | inr (inr (inl (_, e))) ↦ rw e (unchanged s)
          | inr (inr (inr (_, e))) ↦ rw e (unchanged s)
        ])

  module _
      (k : (req : HttpRequest)
        → Keeps R (answer enumerators iterate prepare_payload router req)) where
    turn-Keeps :
        (phase : Phase) (rounds : List Round) (sent : List HttpResponse) (s : S)
        → R s
            (turn enumerators iterate prepare_payload router
              (record { rounds = rounds; phase = phase; sent = sent })
              s).1
    unfolding turn
    turn-Keeps waiting [] sent s = unchanged s
    turn-Keeps waiting (round ∷ rest) sent s = received_keeps round.read
      where
        received_keeps :
            (read : Received)
            → R s
                (received enumerators iterate prepare_payload router read round.write_error
                  round.shutdown_error s).1
        received_keeps (failed_read e) = unchanged s
        received_keeps (request req) = k req s
    turn-Keeps (writing res write_error shutdown_error) rounds sent s = unchanged s
    turn-Keeps (over e) rounds sent s = unchanged s

    resume_at-Keeps :
        (i : ℕ) (cs : List Connection) (s : S)
        → R s (resume_at enumerators iterate prepare_payload router i cs s).2
    unfolding resume_at
    resume_at-Keeps i [] s = unchanged s
    resume_at-Keeps zero (c ∷ cs) s = turn-Keeps c.phase c.rounds c.sent s
    resume_at-Keeps (suc i) (c ∷ cs) s = resume_at-Keeps i cs s

    if-Keeps :
        (b : Bool) (s : S) (v w : Serving S)
        → R s v.state
        → R s w.state
        → R s (if b then v else w).state
    if-Keeps true s v w x y = x
    if-Keeps false s v w x y = y

    handle_event-Keeps :
        (e : Event) (v : Serving S)
        → R v.state (handle_event enumerators iterate prepare_payload router e v).state
    unfolding handle_event
    handle_event-Keeps (accept rounds) v =
        if-Keeps v.listening v.state _ v (unchanged v.state) (unchanged v.state)
    handle_event-Keeps (accept_failure e) v =
        if-Keeps v.listening v.state _ v (unchanged v.state) (unchanged v.state)
    handle_event-Keeps (resume i) v = resume_at-Keeps i v.connections v.state
    handle_event-Keeps stop v = unchanged v.state

    -- An event does to the state what an answer does, or nothing.
    pub handle-Keeps :
        (e : Event) (v : Serving S)
        → R v.state (handle enumerators iterate prepare_payload router e v).state
    unfolding handle
    handle-Keeps e v = if-Keeps v.stopped v.state v _ (unchanged v.state) (handle_event-Keeps e v)

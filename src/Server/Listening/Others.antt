-- ===== src/Server/Listening/Others.antt =====
-- What becomes of a session while the server takes up anything else.
use native.Mathlib.Decide.{ℕ_discrete}
use just_queue_it.Base.{
  ℕ, zero, suc, Bytes, Bool, true, false, ◌≡◌, ◌≢◌, ◌⊎◌, inl, inr, refl, sym, ap, ◌∙◌, Option, none,
  some, List, [], ◌∷◌, ◌++◌, append_assoc, append-nil, get_elem?, if◌then◌else◌,
}
use just_queue_it.Base.Exec.{Outcome}
use just_queue_it.Core.Content.{ContentType}
use just_queue_it.Router.{RouteInfo, Routes}
use just_queue_it.Server.{HttpResponse}
use just_queue_it.Server.Session.{Failure, Round, log_error}
use just_queue_it.Server.Listening.{
  Phase, waiting, writing, over, Connection, Serving, Event, accept, accept_failure, resume, stop,
  connected, turn, resume_at, handle_event, handle, serve_events,
}
use just_queue_it.Server.Listening.Turns.{resume_at_self, resume_at_other}

abbrev pub IsOpen : Phase → Type 0
IsOpen phase = (e : Option Failure) → phase ≢ over e

-- A session is as before, or it was not over and has sent something more, if anything.
abbrev pub Later : Connection → Connection → Type 0
Later c c' = (c' ≡ c) ⊎ (IsOpen c.phase × (more : List HttpResponse) × (c'.sent ≡ c.sent ++ more))

abbrev Found : Connection → List Connection → ℕ → Type 0
Found c cs i = (c' : Connection) × (get_elem? cs i ≡ some c') × Later c c'

Later-trans : (a b c : Connection) → Later a b → Later b c → Later a c
Later-trans a b c (inl e) (inl f) = inl (f ∙ e)
Later-trans a b c (inl e) (inr g) = rw (← e) (inr g)
Later-trans a b c (inr (open_, more, e)) (inl f) =
    inr (open_, more, ap (λ (x : Connection). x.sent) f ∙ e)
Later-trans a b c (inr (open_, more, e)) (inr (_, rest, f)) =
    inr (open_, more ++ rest, f ∙ ap (λ x. x ++ rest) e ∙ append_assoc a.sent more rest)

pub get_elem?-append :
    (cs ds : List Connection) (i : ℕ) (c : Connection)
    → get_elem? cs i ≡ some c
    → get_elem? (cs ++ ds) i ≡ some c
get_elem?-append [] ds i c e = cc
get_elem?-append (d ∷ cs) ds zero c e = e
get_elem?-append (d ∷ cs) ds (suc i) c e = get_elem?-append cs ds i c e

module _ {S : Type 0} (enumerators : List (Bytes × ContentType))
    (iterate : Routes S → List (Bytes × RouteInfo S))
    (prepare_payload : HttpResponse → Outcome HttpResponse) (router : Routes S) where
  turn-Later :
      (phase : Phase) (rounds : List Round) (sent : List HttpResponse) (s : S)
      → Later
          (record { rounds = rounds; phase = phase; sent = sent })
          (turn enumerators iterate prepare_payload router
            (record { rounds = rounds; phase = phase; sent = sent })
            s).0
  unfolding turn
  turn-Later waiting [] sent s = inl refl
  turn-Later waiting (round ∷ rest) sent s = inr (λ e. λ p. cc, [], sym (append-nil sent))
  turn-Later (writing res none shutdown_error) rounds sent s = inr (λ e. λ p. cc, res ∷ [], refl)
  turn-Later (writing res (some w) shutdown_error) rounds sent s =
      inr (λ e. λ p. cc, [], sym (append-nil sent))
  turn-Later (over e) rounds sent s = inl refl

  module _ (i : ℕ) (c : Connection) where
    if-Found :
        (b : Bool) (v w : Serving S)
        → Found c v.connections i
        → Found c w.connections i
        → Found c (if b then v else w).connections i
    if-Found true v w x y = x
    if-Found false v w x y = y

    resume_at-Later :
        (j : ℕ) (cs : List Connection) (s : S)
        → get_elem? cs i ≡ some c
        → Found c (resume_at enumerators iterate prepare_payload router j cs s).0 i
    resume_at-Later j cs s found = elim (ℕ_discrete j i) [
      | yes same ↦
          let (turned, _) =
            resume_at_self enumerators iterate prepare_payload router j cs c s
              (ap (get_elem? cs) same ∙ found) in
          let c' = (turn enumerators iterate prepare_payload router c s).0 in
          (
            c',
            ap (get_elem? (resume_at enumerators iterate prepare_payload router j cs s).0)
                  (sym same)
                ∙ turned,
            turn-Later c.phase c.rounds c.sent s,
          )
      | no other ↦ (
        c,
        resume_at_other enumerators iterate prepare_payload router j i cs s other ∙ found,
        inl refl,
      )
    ]

    handle_event-Later :
        (e : Event) (v : Serving S)
        → get_elem? v.connections i ≡ some c
        → Found c (handle_event enumerators iterate prepare_payload router e v).connections i
    unfolding handle_event
    handle_event-Later (accept rounds) v found =
        if-Found v.listening (record v { connections = v.connections ++ connected rounds ∷ [] }) v
          (c, get_elem?-append v.connections (connected rounds ∷ []) i c found, inl refl)
          (c, found, inl refl)
    handle_event-Later (accept_failure e) v found =
        if-Found v.listening
          (record v { listening = false; logged = v.logged ++ log_error (some e) }) v
          (c, found, inl refl) (c, found, inl refl)
    handle_event-Later (resume j) v found = resume_at-Later j v.connections v.state found
    handle_event-Later stop v found = (c, found, inl refl)

    handle-Later :
        (e : Event) (v : Serving S)
        → get_elem? v.connections i ≡ some c
        → Found c (handle enumerators iterate prepare_payload router e v).connections i
    unfolding handle
    handle-Later e v found =
        if-Found v.stopped v (handle_event enumerators iterate prepare_payload router e v)
          (c, found, inl refl) (handle_event-Later e v found)

  -- Whatever the server takes up next, accepted connections, failures, turns of any sessions and a
  -- stop, a session stays in its place, and either it is as it was, or it was not over, and what it
  -- has sent is what it had sent with something behind it, if anything. So a session that is over
  -- sends nothing more, and no session unsends a response.
  pub serve_events-Later :
      (es : List Event) (i : ℕ) (c : Connection) (v : Serving S)
      → get_elem? v.connections i ≡ some c
      → (c' : Connection) × (get_elem?
            (serve_events enumerators iterate prepare_payload router es v).connections
            i
          ≡ some c')
        × Later c c'
  unfolding serve_events
  serve_events-Later [] i c v found = (c, found, inl refl)
  serve_events-Later (e ∷ es) i c v found =
      let (d, there, later) = handle-Later i c e v found in
      let (c', last, more) =
        serve_events-Later es i d (handle enumerators iterate prepare_payload router e v) there in
      (c', last, Later-trans c d c' later more)

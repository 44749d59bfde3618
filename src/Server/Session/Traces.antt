-- ===== src/Server/Session/Traces.antt =====
-- What a connection sends, and when it ends.
use just_queue_it.Base.{
  Bytes, Bool, true, false, ◌≡◌, refl, ap, ◌∙◌, none, List, [], ◌∷◌, ◌++◌, map, All,
}
use just_queue_it.Base.Exec.{Outcome, returned, thrown}
use just_queue_it.Core.Content.{ContentType}
use just_queue_it.Router.{RouteInfo, Routes}
use just_queue_it.Server.{HttpRequest, HttpResponse}
use just_queue_it.Server.Session.{
  exception, request, Round, closed, failed, Trace, answer, answered, then_sent, do_session,
}

-- A round in which the network delivers a request and nothing fails.
abbrev pub good : HttpRequest → Round
good req = record { read = request req; write_error = none; shutdown_error = none }

module _ {S : Type 0} (continue : S → Trace S) (res : HttpResponse) (t : S) where
  answered_kept :
      (keep_alive : Bool)
      → keep_alive ≡ true
      → answered keep_alive none none continue (returned res, t)
        ≡ then_sent (record res { keep_alive = keep_alive }) (continue t)
  answered_kept true e = refl
  answered_kept false e = cc

  answered_closed :
      (keep_alive : Bool)
      → keep_alive ≡ false
      → answered keep_alive none none continue (returned res, t)
        ≡ record { ending = closed; sent = record res { keep_alive = keep_alive } ∷ []; state = t }
  answered_closed true e = cc
  answered_closed false e = refl

module _ {S : Type 0} (enumerators : List (Bytes × ContentType))
    (iterate : Routes S → List (Bytes × RouteInfo S))
    (prepare_payload : HttpResponse → Outcome HttpResponse) (router : Routes S) where
  -- The requests are answered one after another, each in the state that the one before has left,
  -- and each answer keeps the connection as its request asks.
  pub data Answers : List HttpRequest → S → List HttpResponse → S → Type 0 where
    none_left : {s : S} → Answers [] s [] s
    one_more :
        {req : HttpRequest} {res : HttpResponse} {reqs : List HttpRequest}
        {sent : List HttpResponse} {s t u : S}
        → answer enumerators iterate prepare_payload router req s ≡ (returned res, t)
        → Answers reqs t sent u
        → Answers (req ∷ reqs) s (record res { keep_alive = req.keep_alive } ∷ sent) u

  -- Requests that keep the connection are all answered, and then the session goes on with the rounds
  -- that follow.
  session-append :
      (reqs : List HttpRequest) (rounds : List Round) (s t : S) (sent : List HttpResponse)
      → All (λ r. r.keep_alive ≡ true) reqs
      → Answers reqs s sent t
      → do_session enumerators iterate prepare_payload router (map good reqs ++ rounds) s ≡ (
          let rest = do_session enumerators iterate prepare_payload router rounds t in
          record rest { sent = sent ++ rest.sent })
  unfolding do_session
  session-append [] rounds s t sent keep none_left = refl
  session-append (req ∷ reqs) rounds s t sent keep (one_more {res = res} {t = u} e a) =
      let continue =
        do_session enumerators iterate prepare_payload router (map good reqs ++ rounds) in
      ap (answered req.keep_alive none none continue) e
      ∙ answered_kept continue res u req.keep_alive keep.0
      ∙ ap (then_sent (record res { keep_alive = req.keep_alive }))
          (session-append reqs rounds u t _ keep.1 a)

  -- Requests that keep the connection, and one behind them that does not, have answers, and no read,
  -- write or shutdown fails: all the answers are sent in order, the connection is closed, and nothing
  -- that comes behind them is read.
  pub session_closes :
      (reqs : List HttpRequest) (last : HttpRequest) (rounds : List Round) (s t u : S)
      (sent : List HttpResponse) (res : HttpResponse)
      → All (λ r. r.keep_alive ≡ true) reqs
      → Answers reqs s sent t
      → answer enumerators iterate prepare_payload router last t ≡ (returned res, u)
      → last.keep_alive ≡ false
      → do_session enumerators iterate prepare_payload router
          (map good reqs ++ good last ∷ rounds)
          s
        ≡ record {
          ending = closed;
          sent = sent ++ record res { keep_alive = last.keep_alive } ∷ [];
          state = u;
        }
  unfolding do_session
  session_closes reqs last rounds s t u sent res keep a e closes =
      let continue = do_session enumerators iterate prepare_payload router rounds in
      session-append reqs (good last ∷ rounds) s t sent keep a
      ∙ ap (λ (rest : Trace S). record rest { sent = sent ++ rest.sent })
          (ap (answered last.keep_alive none none continue) e
            ∙ answered_closed continue res u last.keep_alive closes)

  -- Requests that keep the connection have answers, and making the answer to the one behind them
  -- throws: the answers are sent in order and the session ends with the exception; the last request
  -- gets no response, and nothing that comes behind it is read.
  pub session_fails :
      (reqs : List HttpRequest) (last : HttpRequest) (rounds : List Round) (s t u : S)
      (sent : List HttpResponse) (what : Bytes)
      → All (λ r. r.keep_alive ≡ true) reqs
      → Answers reqs s sent t
      → answer enumerators iterate prepare_payload router last t ≡ (thrown what, u)
      → do_session enumerators iterate prepare_payload router
          (map good reqs ++ good last ∷ rounds)
          s
        ≡ record { ending = failed (exception what); sent = sent ++ []; state = u }
  unfolding do_session
  session_fails reqs last rounds s t u sent what keep a e =
      let continue = do_session enumerators iterate prepare_payload router rounds in
      session-append reqs (good last ∷ rounds) s t sent keep a
      ∙ ap (λ (rest : Trace S). record rest { sent = sent ++ rest.sent })
          (ap (answered last.keep_alive none none continue) e)

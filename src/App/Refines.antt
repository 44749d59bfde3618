-- ===== src/App/Refines.antt =====
-- The running program, with its table of routes, its wrappers, its sessions and its sorted vector,
-- against the description of Spec over the abstract storage.
use just_queue_it.Base.{
  ◌+◌, ◌<◌, ◌≤◌, Bytes, codes, bytes_eq_iff, ◌≡◌, refl, sym, ap, ◌∙◌, Option, none, some, List, [],
  ◌∷◌, length, inl, inr, Option-cases, arith,
}
use just_queue_it.Base.Exec.{Exec, Outcome, and_then}
use just_queue_it.Core.{Method, Request, Response}
use just_queue_it.Core.Content.{
  ContentType, ListsAll, content_type_name, parse_content_type, parse_content_type_iff,
  parse_content_type_sound,
}
use just_queue_it.Storage.{InMemoryStorage, size_max, in_memory}
use just_queue_it.Storage.Validity.{IsValid}
use just_queue_it.Storage.Spec.{Abstract, abstract_storage}
use just_queue_it.Storage.Refinement.{view, call-refines}
use just_queue_it.Router.{RouteInfo, Routes}
use just_queue_it.Router.Choice.{IsIteration}
use just_queue_it.Server.{
  HttpRequest, HttpResponse, parse_method, prepare_response, create_response,
}
use just_queue_it.Server.Session.{answer}
use just_queue_it.Server.Listening.Sequence.{Asked, in_sequence}
use just_queue_it.Backend.{Json}
use just_queue_it.Backend.Table.{table}
use just_queue_it.Backend.Journey.{tasks_manager}
use just_queue_it.Backend.Service.{service-table}
use just_queue_it.Backend.Spec.{
  Wanted, calls, refused, wanted, perform, replied, reply_status, reply_body,
}
use just_queue_it.Backend.Handled.{answers}
use just_queue_it.Backend.Meets.{service-perform}
use just_queue_it.App.Spec.{named_type, perform_known, perform_request, perform_all}

named_type_sound :
    (text : Bytes) (t : ContentType) → named_type text ≡ some t → content_type_name t ≡ text
unfolding content_type_name
named_type_sound text t e =
    ground
      (arith, bytes_eq_iff text (codes "text/plain"), bytes_eq_iff text (codes "application/json"))

named_type-content_type_name : (t : ContentType) → named_type (content_type_name t) ≡ some t
unfolding content_type_name
named_type-content_type_name ContentType.text_plain = refl
named_type-content_type_name ContentType.application_json = refl

module _ (enumerators : List (Bytes × ContentType)) (all : ListsAll enumerators) where
  parse-named_type : (text : Bytes) → parse_content_type enumerators text ≡ named_type text
  parse-named_type text = elim (Option-cases (parse_content_type enumerators text)) [
    | inl absent ↦ elim (Option-cases (named_type text)) [
      | inl unnamed ↦ absent ∙ sym unnamed
      | inr (t, named) ↦
          let found =
            (parse_content_type_iff enumerators text t all).1 (named_type_sound text t named) in
          cc
    ]
    | inr (t, found) ↦
        let name = parse_content_type_sound enumerators text t found in
        found ∙ sym (ap named_type (sym name) ∙ named_type-content_type_name t)
  ]

module _ (json : Json) where
  -- A response of the storage and one of the abstract storage, after one request.
  abbrev Follows : InMemoryStorage → Response × InMemoryStorage → Response × Abstract → Type 0
  Follows s (response, t) (expected, b) =
      (response ≡ expected) × (view t ≡ b) × IsValid t × (t.next_id ≤ s.next_id + 1)

  stays :
      (response : Response) (s : InMemoryStorage)
      → IsValid s
      → Follows s (response, s) (response, view s)
  stays response s v = (refl, refl, v, omega arith)

  perform-Follows :
      (accept : ContentType) (w : Wanted) (s : InMemoryStorage)
      → IsValid s
      → s.next_id + 1 < size_max
      → Follows s
          (perform json in_memory accept w s)
          (perform json abstract_storage accept w (view s))
  perform-Follows accept (refused status what) s v h = stays _ s v
  perform-Follows accept (calls c) s v h =
      let (reply, state, valid, next) = call-refines c s v h in
      (ap (λ r. replied accept (reply_status r) (reply_body json r)) reply, state, valid, next)

  known-Follows :
      (req : HttpRequest) (method : Option Method) (content accept : Option ContentType)
      (s : InMemoryStorage)
      → IsValid s
      → s.next_id + 1 < size_max
      → Follows s
          (perform_known json in_memory req method content accept s)
          (perform_known json abstract_storage req method content accept (view s))
  known-Follows req none content accept s v h = stays _ s v
  known-Follows req (some method) none accept s v h = stays _ s v
  known-Follows req (some method) (some content) none s v h = stays _ s v
  known-Follows req (some method) (some content) (some accept) s v h =
      perform-Follows accept (wanted json _) s v h

  request-Follows :
      (req : HttpRequest) (s : InMemoryStorage) (a : Abstract)
      → IsValid s
      → view s ≡ a
      → s.next_id + 1 < size_max
      → Follows s
          (perform_request json in_memory req s)
          (perform_request json abstract_storage req a)
  unfolding perform_request
  request-Follows req s a v e h = rw (← e) (
      known-Follows req (parse_method req.method) (named_type req.content_type)
        (named_type req.accept) s v h)

  module _ (enumerators : List (Bytes × ContentType))
      (iterate : Routes InMemoryStorage → List (Bytes × RouteInfo InMemoryStorage))
      (prepare_payload : HttpResponse → Outcome HttpResponse) (it : IsIteration iterate)
      (all : ListsAll enumerators) where
    known-performed :
        (req : HttpRequest) (s : InMemoryStorage) (method : Option Method)
        (content accept : Option ContentType)
        → parse_method req.method ≡ method
        → named_type req.content_type ≡ content
        → named_type req.accept ≡ accept
        → prepare_response enumerators iterate (table json tasks_manager) req s
          ≡ answers (perform_known json in_memory req method content accept s)
    unfolding prepare_response
    known-performed req s none content accept is_m is_c is_a = rw is_m
    known-performed req s (some method) none accept is_m is_c is_a =
        rw (is_m, parse-named_type enumerators all req.content_type, is_c)
    known-performed req s (some method) (some content) none is_m is_c is_a = rw (
      is_m,
      parse-named_type enumerators all req.content_type,
      is_c,
      parse-named_type enumerators all req.accept,
      is_a,
    )
    known-performed req s (some method) (some content) (some accept) is_m is_c is_a =
        let routed : Request = record {
          method = method;
          path = req.target;
          body = req.body;
          content_type = content;
          accept_content_type = accept;
        } in
        rw
          (
            is_m,
            parse-named_type enumerators all req.content_type,
            is_c,
            parse-named_type enumerators all req.accept,
            is_a,
          )
          (ap (λ (m : Exec InMemoryStorage Response). m s)
              (sym (service-table json tasks_manager it routed))
            ∙ service-perform json tasks_manager it routed s)

    answer-performed :
        (req : HttpRequest) (s : InMemoryStorage)
        → answer enumerators iterate prepare_payload (table json tasks_manager) req s ≡ (
          create_response prepare_payload (perform_request json in_memory req s).0,
          (perform_request json in_memory req s).1,
        )
    unfolding answer perform_request
    answer-performed req s = ap (and_then (λ r t. (create_response prepare_payload r, t))) (
        known-performed req s (parse_method req.method) (named_type req.content_type)
          (named_type req.accept) refl refl refl)

    -- Requests that are answered in a row, by the program and over the abstract storage.
    pub in_sequence-refines :
        (asks : List Asked) (s : InMemoryStorage) (a : Abstract)
        → IsValid s
        → view s ≡ a
        → s.next_id + length asks < size_max
        → ((in_sequence enumerators iterate prepare_payload (table json tasks_manager) asks s).0
            ≡ (perform_all json abstract_storage prepare_payload asks a).0)
          × (view
                (in_sequence enumerators iterate prepare_payload
                  (table json tasks_manager)
                  asks
                  s).1
              ≡ (perform_all json abstract_storage prepare_payload asks a).1)
    unfolding in_sequence perform_all
    in_sequence-refines [] s a v e h = (refl, e)
    in_sequence-refines (q ∷ asks) s a v e h =
        let (response, state, valid, next) = request-Follows q.req s a v e (omega arith) in
        let (replies, last) =
          in_sequence-refines asks (perform_request json in_memory q.req s).1
            (perform_request json abstract_storage q.req a).1 valid state (omega arith) in
        rw (answer-performed q.req s, replies, response) (refl, last)

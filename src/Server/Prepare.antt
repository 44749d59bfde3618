-- ===== src/Server/Prepare.antt =====
-- Which requests reach the router, and which are refused before it.
use just_queue_it.Base.{
  Bytes, codes, ◌≡◌, some, List, ◌⊎◌, inl, inr, Option-cases, ◌≢◌, none, String,
}
use just_queue_it.Base.Exec.{pure}
use just_queue_it.Core.{Method}
use just_queue_it.Core.Codes.{Status, method_not_allowed, bad_request}
use just_queue_it.Core.Content.{
  ContentType, ListsAll, content_type_name, parse_content_type, parse_content_type_iff,
  parse_content_type_sound,
}
use just_queue_it.Router.{RouteInfo, Routes, respond, route}
use just_queue_it.Server.{HttpRequest, parse_method, prepare_response}

-- No content type has this name.
abbrev pub NoName : Bytes → Type 0
NoName text = (t : ContentType) → content_type_name t ≢ text

no_content_type :
    (enumerators : List (Bytes × ContentType)) (text : Bytes)
    → ListsAll enumerators
    → parse_content_type enumerators text ≡ none
    → NoName text
no_content_type enumerators text all e t named =
    let parsed = (parse_content_type_iff enumerators text t all).1 named in cc

module _ {S : Type 0} (enumerators : List (Bytes × ContentType))
    (iterate : Routes S → List (Bytes × RouteInfo S)) (router : Routes S) where
  -- If the array of reflect-cpp names every content type, a request with a known method and with the
  -- exact names of content types in its two fields is routed, with all that it holds.
  pub prepare_response-route :
      (req : HttpRequest) (method : Method) (content accept : ContentType)
      → ListsAll enumerators
      → parse_method req.method ≡ some method
      → content_type_name content ≡ req.content_type
      → content_type_name accept ≡ req.accept
      → prepare_response enumerators iterate router req
        ≡ route iterate router (record {
          method = method;
          path = req.target;
          body = req.body;
          content_type = content;
          accept_content_type = accept;
        })
  unfolding prepare_response
  prepare_response-route req method content accept all known_method content_name accept_name =
      let content_parsed =
        (parse_content_type_iff enumerators req.content_type content all).1 content_name in
      let accept_parsed =
        (parse_content_type_iff enumerators req.accept accept all).1 accept_name in
      rw (known_method, content_parsed, accept_parsed)

  -- What the router gets of a request that is accepted.
  pub record IsRouted (req : HttpRequest) : Type 0 where
    pub method : Method
    pub content_type : ContentType
    pub accept : ContentType
    pub known_method : parse_method req.method ≡ some method
    pub content_name : content_type_name content_type ≡ req.content_type
    pub accept_name : content_type_name accept ≡ req.accept
    pub routed :
        prepare_response enumerators iterate router req
        ≡ route iterate router (record {
          method = method;
          path = req.target;
          body = req.body;
          content_type = content_type;
          accept_content_type = accept;
        })

  -- The request is answered with a status and a message, and the state stays.
  abbrev pub IsRefused : HttpRequest → Status → String → Type 0
  IsRefused req status what =
      prepare_response enumerators iterate router req ≡ pure (respond status (codes what))

  -- If the array of reflect-cpp names every content type, a request is routed, with its target and
  -- body, a method that the server knows and the content types whose names are in its fields; or
  -- its method is not known and it is answered with 405; or the type of its body, or the accepted
  -- type, is no name of a content type and it is answered with 400, each with its own message and
  -- with the state unchanged.
  pub prepare_response-cases :
      (req : HttpRequest)
      → ListsAll enumerators
      → IsRouted req
        ⊎ (((parse_method req.method ≡ none)
              × IsRefused req method_not_allowed "Unsupported or unknown method")
            ⊎ ((NoName req.content_type
                  × IsRefused req bad_request "Unsupported or unknown content type")
                ⊎ (NoName req.accept
                    × IsRefused req bad_request "Unsupported or unknown accept content type")))
  unfolding prepare_response
  prepare_response-cases req all = elim (Option-cases (parse_method req.method)) [
    | inl no_method ↦ inr (inl (no_method, rw no_method))
    | inr (m, is_m) ↦ elim (Option-cases (parse_content_type enumerators req.content_type)) [
      | inl no_content ↦ inr (
          inr (
            inl
              (no_content_type enumerators req.content_type all no_content, rw (is_m, no_content))))
      | inr (c, is_c) ↦ elim (Option-cases (parse_content_type enumerators req.accept)) [
        | inl no_accept ↦ inr (
            inr (
              inr
                (no_content_type enumerators req.accept all no_accept, rw (is_m, is_c, no_accept))))
        | inr (a, is_a) ↦ inl (record {
          method = m;
          content_type = c;
          accept = a;
          known_method = is_m;
          content_name = parse_content_type_sound enumerators req.content_type c is_c;
          accept_name = parse_content_type_sound enumerators req.accept a is_a;
          routed = rw (is_m, is_c, is_a);
        })
      ]
    ]
  ]

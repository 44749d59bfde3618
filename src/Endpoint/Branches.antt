-- ===== src/Endpoint/Branches.antt =====
-- What a typed handler answers, on each way through its wrapper.
use just_queue_it.Base.{Bytes, codes, ◌≡◌}
use just_queue_it.Base.Exec.{Exec, Outcome, returned, thrown}
use just_queue_it.Core.{Request}
use just_queue_it.Core.Content.{text_plain, application_json}
use just_queue_it.Query.{Params}
use just_queue_it.Endpoint.{SerializableResponse, refuse, wrap, finish, serialize}

module _ {S A R : Type 0} (decode : Request → Outcome A) (write : R → Bytes)
    (handler : A → Params → Exec S (SerializableResponse R)) (req : Request) (params : Params)
    (s : S) where
  -- If the body cannot be read, the answer is 400 with the message of the exception, and the
  -- handler is not called: the state stays.
  pub wrap-thrown :
      (what : Bytes)
      → decode req ≡ thrown what
      → wrap decode write handler req params s ≡ (returned (refuse what), s)
  unfolding wrap
  wrap-thrown what e = rw (e, wrap)

  -- If the body is read, the handler returns and JSON is accepted, the answer has the status of the
  -- handler and its result as JSON.
  pub wrap-json :
      (a : A) (res : SerializableResponse R) (t : S)
      → decode req ≡ returned a
      → handler a params s ≡ (returned res, t)
      → req.accept_content_type ≡ application_json
      → wrap decode write handler req params s ≡ (
        returned (record {
          status_code = res.status_code;
          body = write res.body;
          content_type = application_json;
        }),
        t,
      )
  unfolding wrap finish serialize
  wrap-json a res t d h e = rw (d, wrap, h, e)

  -- If the body is read, the handler returns and plain text is accepted, the answer is 400; but
  -- the handler has run, and what it did to the state stays.
  pub wrap-text_plain :
      (a : A) (res : SerializableResponse R) (t : S)
      → decode req ≡ returned a
      → handler a params s ≡ (returned res, t)
      → req.accept_content_type ≡ text_plain
      → wrap decode write handler req params s
        ≡ (returned (refuse (codes "Unsupported accept content type")), t)
  unfolding wrap finish serialize
  wrap-text_plain a res t d h e = rw (d, wrap, h, e)

  -- If the handler throws, so does the wrapper.
  pub wrap_throws :
      (a : A) (what : Bytes) (t : S)
      → decode req ≡ returned a
      → handler a params s ≡ (thrown what, t)
      → wrap decode write handler req params s ≡ (thrown what, t)
  unfolding wrap
  wrap_throws a what t d h = rw (d, wrap, h)

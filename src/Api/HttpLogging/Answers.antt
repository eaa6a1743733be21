-- ===== src/Api/HttpLogging/Answers.antt =====
-- src/pet/api/middleware/http_logging.py: what it answers and what it leaves behind.
use fukawa.Prelude.{
  ℕ, String, Bool, true, false, ◌≡◌, refl, ap, ◌∙◌, ◌⊎◌, inl, inr, Option, none, some, [], ◌∷◌,
  count, arith, Bool-cases, Option-cases, if◌then◌else◌,
}
use fukawa.Prelude.Text.{is_blank}
use fukawa.Prelude.Text.Uuid.{canonical, hex, is_id_text, hex-HasIds, canonical-HasIds}
use fukawa.Prelude.Dict.{insert}
use fukawa.Prelude.Result.{Result, ok, err}
use fukawa.Api.Handlers.{Request, JsonResponse, unhandled_error_handler}
use fukawa.Api.HttpLogging.{
  UuidModule, HttpState, or_drawn, drawn, clear_contextvars, is_skipped, log, log_unless_skipped,
  bound, Raised, exception, base_exception, Next, parse_request_id, unhandled, answered, identified,
  started, logging_middleware,
}

-- A text of the characters of a UUID, in one of its two lengths.
pub record IsRequestId (id : String) : Type 0 where
  pub characters : is_id_text id ≡ true
  pub size : (count id ≡ 32) ⊎ (count id ≡ 36)

hex-IsRequestId : (n : ℕ) → IsRequestId (hex n)
hex-IsRequestId n = record { characters = (hex-HasIds n).0; size = inl (hex-HasIds n).1 }

canonical-IsRequestId : (n : ℕ) → IsRequestId (canonical n)
canonical-IsRequestId n = record {
  characters = (canonical-HasIds n).0;
  size = inr (canonical-HasIds n).1;
}

pub not_blank : (id : String) → IsRequestId id → is_blank id ≡ false
not_blank String.[] h = elim h.size [
  | inl e ↦ absurd (omega (arith, e))
  | inr e ↦ absurd (omega (arith, e))
]
not_blank (String.◌∷◌ c s) h = refl

either-IsRequestId :
    (b : Bool) (p q : String × HttpState)
    → IsRequestId p.0
    → IsRequestId q.0
    → IsRequestId (if b then p else q).0
either-IsRequestId true p q h k = h
either-IsRequestId false p q h k = k

log_unless_skipped-context :
    (r : Request) (name : String) (status_code : Option ℕ) (s : HttpState)
    → (log_unless_skipped r name status_code s).context ≡ s.context
log_unless_skipped-context r name status_code s = elim (Bool-cases (is_skipped r.path)) [
  | inl e ↦ ap (λ (b : Bool). (if b then s else log name status_code s).context) e
  | inr e ↦ ap (λ (b : Bool). (if b then s else log name status_code s).context) e
]

module _ (u : UuidModule) where
  or_drawn-IsRequestId : (o : Option ℕ) (s : HttpState) → IsRequestId (or_drawn u o s).0
  or_drawn-IsRequestId none s = hex-IsRequestId (u.uuid4 s.uuids)
  or_drawn-IsRequestId (some n) s = canonical-IsRequestId n

  parse_request_id-IsRequestId :
      (raw : Option String) (s : HttpState) → IsRequestId (parse_request_id u raw s).0
  unfolding parse_request_id
  parse_request_id-IsRequestId none s = hex-IsRequestId (u.uuid4 s.uuids)
  parse_request_id-IsRequestId (some raw) s =
      either-IsRequestId (is_blank raw) (drawn u s) (or_drawn u (u.parse raw) s)
        (hex-IsRequestId (u.uuid4 s.uuids)) (or_drawn-IsRequestId (u.parse raw) s)

  parse_request_id-context :
      (raw : Option String) (s : HttpState) → (parse_request_id u raw s).1.context ≡ s.context
  unfolding parse_request_id
  parse_request_id-context none s = refl
  parse_request_id-context (some raw) s = elim (Bool-cases (is_blank raw)) [
    | inl e ↦ ground (arith, e)
    | inr e ↦ elim (Option-cases (u.parse raw)) [
      | inl p ↦ ground (arith, e, p)
      | inr (n, p) ↦ ground (arith, e, p)
    ]
  ]

  -- what the log events of a request are bound to
  pub started-context :
      (http_method : String) (r : Request) (s : HttpState)
      → (started u http_method r s).1.context
        ≡ ("request_id", (started u http_method r s).0)
          ∷ ("http_method", http_method)
          ∷ ("http_path", r.path)
          ∷ []
  started-context http_method r s =
      let (id, t) = parse_request_id u r.header_request_id (clear_contextvars s) in
      log_unless_skipped-context r "http_request_started" none (bound u id http_method r t)
      ∙ ap
          (λ c.
            insert "http_path" r.path (insert "http_method" http_method (insert "request_id" id c)))
          (parse_request_id-context r.header_request_id (clear_contextvars s))

  unhandled-eq-handler :
      (id : String) (r : Request)
      → is_blank id ≡ false
      → unhandled u id (identified id r)
        ≡ record (unhandled_error_handler (identified id r)) { headers = ("X-Request-ID", id) ∷ [] }
  unfolding unhandled unhandled_error_handler
  unhandled-eq-handler id r h = ground (arith, h)

  module _ (id : String) (r : Request) where
    answered_ok :
        (p : Result Raised JsonResponse × HttpState) (response : JsonResponse)
        → p.0 ≡ ok response
        → (answered u id r p).0
          ≡ ok (record response { headers = insert "X-Request-ID" id response.headers })
    unfolding answered
    answered_ok p response h = ground (arith, h)

    answered_exception :
        (p : Result Raised JsonResponse × HttpState) (m : String)
        → p.0 ≡ err (exception m)
        → (answered u id r p).0 ≡ ok (unhandled u id r)
    unfolding answered
    answered_exception p m h = ground (arith, h)

    answered_base_exception :
        (p : Result Raised JsonResponse × HttpState) (m : String)
        → p.0 ≡ err (base_exception m)
        → (answered u id r p).0 ≡ err (base_exception m)
    unfolding answered
    answered_base_exception p m h = ground (arith, h)

    answered_clears :
        (p : Result Raised JsonResponse × HttpState) → (answered u id r p).1.context ≡ []
    unfolding answered
    answered_clears (ok response, s) = refl
    answered_clears (err (exception m), s) = refl
    answered_clears (err (base_exception m), s) = refl

  module _ (http_method : String) (call_next : Next) (r : Request) (s : HttpState) where
    abbrev id : String
    id = (started u http_method r s).0

    abbrev inner : Result Raised JsonResponse × HttpState
    inner = call_next (identified id r) (started u http_method r s).1

    -- The identifier that a request is given has the form of a UUID, whatever the client sent. Unless
    -- what is behind the middleware raises a BaseException that is no Exception, the request is answered
    -- with that identifier in the header X-Request-ID; that of a response is kept otherwise, and an
    -- exception is answered as the handler of unhandled errors answers it. The context variables are
    -- cleared in every case.
    pub logging_middleware_answers :
        IsRequestId id
        × ((response : JsonResponse)
            → inner.0 ≡ ok response
            → (logging_middleware u http_method call_next r s).0
              ≡ ok (record response { headers = insert "X-Request-ID" id response.headers }))
        × ((m : String)
            → inner.0 ≡ err (exception m)
            → (logging_middleware u http_method call_next r s).0
              ≡ ok (record (unhandled_error_handler (identified id r)) {
                headers = ("X-Request-ID", id) ∷ [];
              }))
        × ((m : String)
            → inner.0 ≡ err (base_exception m)
            → (logging_middleware u http_method call_next r s).0 ≡ err (base_exception m))
        × ((logging_middleware u http_method call_next r s).1.context ≡ [])
    unfolding logging_middleware
    logging_middleware_answers =
        let form : IsRequestId id =
          parse_request_id-IsRequestId r.header_request_id (clear_contextvars s) in
        (
          form,
          λ response h. answered_ok id (identified id r) inner response h,
          λ m h.
              answered_exception id (identified id r) inner m h
              ∙ ap ok (unhandled-eq-handler id r (not_blank id form)),
          λ m h. answered_base_exception id (identified id r) inner m h,
          answered_clears id (identified id r) inner,
        )

  -- A client that sends a UUID in its canonical form gets the same text back as the identifier of its
  -- request, if UUID reads what `str` writes for it, and nothing is drawn.
  parse_request_id-canonical :
      (n : ℕ) (s : HttpState)
      → u.parse (canonical n) ≡ some n
      → parse_request_id u (some (canonical n)) s ≡ (canonical n, s)
  unfolding parse_request_id
  parse_request_id-canonical n s law =
      ground (arith, law, not_blank (canonical n) (canonical-IsRequestId n))

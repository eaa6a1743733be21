-- ===== src/Api/HttpLogging/Correlation.antt =====
-- src/pet/api/middleware/http_logging.py over src/pet/api/exception_handlers.py: the identifier that a
-- client is told in the body of an error is the one in the header of its response.
use fukawa.Prelude.{String, false, ◌≡◌, refl, ap, ◌∙◌, subst, inl, inr, some, [], ◌∷◌, arith}
use fukawa.Prelude.Text.{is_blank}
use fukawa.Prelude.Dict.{lookup, insert, lookup-insert}
use fukawa.Prelude.Result.{Result, ok, err, Result-cases}
use fukawa.Api.Handlers.{Request, text, JsonResponse, request_id_of, unhandled_error_handler}
use fukawa.Api.HttpLogging.{
  UuidModule, HttpState, Raised, exception, base_exception, Next, identified, started,
  logging_middleware,
}
use fukawa.Api.HttpLogging.Answers.{logging_middleware_answers, not_blank, started-context}
use fukawa.Api.Failures.{
  Failure, app_error, http_exception, request_validation_error, authentication_error,
  authorization_error, unhandled_error, handled,
}

identified-request_id :
    (id : String) (r : Request) → is_blank id ≡ false → request_id_of (identified id r) ≡ some id
unfolding request_id_of
identified-request_id id r h = ground (arith, h)

-- An endpoint behind the handlers of FastAPI.
abbrev pub rendered :
    Request → Result Failure JsonResponse × HttpState → Result Raised JsonResponse × HttpState
rendered r (ok response, s) = (ok response, s)
rendered r (err f, s) = (handled r f, s)

abbrev pub rendering : (Request → HttpState → Result Failure JsonResponse × HttpState) → Next
rendering endpoint r s = rendered r (endpoint r s)

-- The body of the response carries the identifier.
abbrev Names : String → Result Raised JsonResponse → Type 0
Names id (ok response) = lookup "request_id" response.payload ≡ some (text id)
Names id (err (exception m)) = Unit
Names id (err (base_exception m)) = ⊥

handled-Names :
    (id : String) (r : Request) (f : Failure)
    → is_blank id ≡ false
    → Names id (handled (identified id r) f)
unfolding handled
handled-Names id r (app_error e) h = ground (arith, identified-request_id id r h)
handled-Names id r (http_exception e) h = ground (arith, identified-request_id id r h)
handled-Names id r (request_validation_error es) h = ground (arith, identified-request_id id r h)
handled-Names id r (authentication_error e) h = ground (arith, identified-request_id id r h)
handled-Names id r (authorization_error e) h = ground (arith, identified-request_id id r h)
handled-Names id r (unhandled_error m) h = tt

unhandled-Names :
    (id : String) (r : Request)
    → is_blank id ≡ false
    → Names id (ok (unhandled_error_handler (identified id r)))
unfolding unhandled_error_handler
unhandled-Names id r h = ground (arith, identified-request_id id r h)

module _ (u : UuidModule) (http_method : String)
    (endpoint : Request → HttpState → Result Failure JsonResponse × HttpState) (r : Request)
    (s : HttpState) where
  abbrev id : String
  id = (started u http_method r s).0

  abbrev asked : Result Failure JsonResponse × HttpState
  asked = endpoint (identified id r) (started u http_method r s).1

  abbrev answer : Result Raised JsonResponse
  answer = (logging_middleware u http_method (rendering endpoint) r s).0

  -- Whatever an endpoint raises, the client gets a response: the identifier of the request stands in its
  -- header X-Request-ID and in the body, and it is the one that is bound to the log events.
  pub failure_names_request :
      (f : Failure)
      → asked.0 ≡ err f
      → (response : JsonResponse) × (answer ≡ ok response)
        × (lookup "X-Request-ID" response.headers ≡ some id)
        × (lookup "request_id" response.payload ≡ some (text id))
        × (lookup "request_id" (started u http_method r s).1.context ≡ some id)
  failure_names_request f h =
      let (form, kept, caught, _, _) =
        logging_middleware_answers u http_method (rendering endpoint) r s in
      let shown : (rendering endpoint (identified id r) (started u http_method r s).1).0
          ≡ handled (identified id r) f =
        ap (λ q. (rendered (identified id r) (q, asked.1)).0) h in
      let bound = ap (lookup "request_id") (started-context u http_method r s) in
      elim (Result-cases (handled (identified id r) f)) [
        | inl (response, e) ↦ (
          record response { headers = insert "X-Request-ID" id response.headers },
          kept response (shown ∙ e),
          lookup-insert "X-Request-ID" "X-Request-ID" id response.headers,
          subst (Names id) e (handled-Names id r f (not_blank id form)),
          bound,
        )
        | inr (exception m, e) ↦ (
          record (unhandled_error_handler (identified id r)) {
            headers = ("X-Request-ID", id) ∷ [];
          },
          caught m (shown ∙ e),
          refl,
          unhandled-Names id r (not_blank id form),
          bound,
        )
        | inr (base_exception m, e) ↦
            absurd (subst (Names id) e (handled-Names id r f (not_blank id form)))
      ]

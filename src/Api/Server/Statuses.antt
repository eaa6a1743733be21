-- ===== src/Api/Server/Statuses.antt =====
-- The responses to POST /orgs/.
use fukawa.Prelude.{
  ℕ, String, Bool, true, ◌&&◌, ◌≡◌, refl, sym, ap, ◌∙◌, subst, ◌⊎◌, inl, inr, Option, some, List,
  [], ◌∷◌, any, leb,
}
use fukawa.Prelude.Dict.{lookup, insert, lookup-insert}
use fukawa.Prelude.Result.{Result, ok, err, Result-cases, ok≢err}
use fukawa.Domain.Name.{Unicode}
use fukawa.Domain.Models.{PublicId}
use fukawa.App.Errors.{AppErrorCode}
use fukawa.App.Executor.Stored.{Transactional}
use fukawa.Infra.Jwks.{Provider, World}
use fukawa.Infra.Verifier.{Jwt, KeycloakVerifier}
use fukawa.Infra.Session.{SessionApi}
use fukawa.Api.Handlers.{
  Request, JsonResponse, get_http_status_for_error, problem, app_error_handler,
  validation_error_handler, on_authn, on_authz, unhandled_error_handler, http_error_handler,
}
use fukawa.Api.Failures.{
  Failure, app_error, http_exception, request_validation_error, authentication_error,
  authorization_error, unhandled_error, handled,
}
use fukawa.Api.HttpLogging.{
  UuidModule, HttpState, Raised, exception, base_exception, identified, started,
}
use fukawa.Api.HttpLogging.Answers.{logging_middleware_answers}
use fukawa.Api.HttpLogging.Correlation.{rendered, rendering}
use fukawa.Api.Routers.{Answer, ApiState}
use fukawa.Api.Routers.Created.{failure_keeps, created_stored, failure-IsRaised, IsRaised}
use fukawa.Api.Server.{
  created_response, responding, post_orgs, received, RequestBody, parsed, not_json, unreadable,
}

-- the statuses that POST /orgs/ answers with
abbrev pub statuses : List ℕ
statuses = 201 ∷ 400 ∷ 401 ∷ 403 ∷ 404 ∷ 409 ∷ 422 ∷ 500 ∷ 503 ∷ []

abbrev pub is_status : ℕ → Bool
is_status n = any (λ m. leb m n && leb n m) statuses

get_http_status_for_error-is_status :
    (c : AppErrorCode) → is_status (get_http_status_for_error c) ≡ true
unfolding get_http_status_for_error
get_http_status_for_error-is_status AppErrorCode.conflict = refl
get_http_status_for_error-is_status AppErrorCode.organization_name_taken = refl
get_http_status_for_error-is_status AppErrorCode.not_found = refl
get_http_status_for_error-is_status AppErrorCode.validation = refl
get_http_status_for_error-is_status AppErrorCode.service_unavailable = refl
get_http_status_for_error-is_status AppErrorCode.internal_error = refl

-- What a handler answers has one of the statuses, or is left to the middleware.
abbrev HasStatus : Result Raised JsonResponse → Type 0
HasStatus (ok response) = is_status response.status_code ≡ true
HasStatus (err (exception m)) = Unit
HasStatus (err (base_exception m)) = ⊥

-- An HTTPException has one of the statuses.
abbrev HasHttpStatus : Failure → Type 0
HasHttpStatus (http_exception e) = is_status e.status_code ≡ true
HasHttpStatus (app_error e) = Unit
HasHttpStatus (request_validation_error es) = Unit
HasHttpStatus (authentication_error e) = Unit
HasHttpStatus (authorization_error e) = Unit
HasHttpStatus (unhandled_error m) = Unit

abbrev FailsWell : Result Failure (Answer PublicId) → Type 0
FailsWell (ok a) = Unit
FailsWell (err f) = HasHttpStatus f

raised-HasHttpStatus : (f : Failure) → IsRaised f → HasHttpStatus f
raised-HasHttpStatus (http_exception e) h = absurd h
raised-HasHttpStatus (app_error e) h = tt
raised-HasHttpStatus (request_validation_error es) h = tt
raised-HasHttpStatus (authentication_error e) h = tt
raised-HasHttpStatus (authorization_error e) h = tt
raised-HasHttpStatus (unhandled_error m) h = tt

handled-HasStatus : (r : Request) (f : Failure) → HasHttpStatus f → HasStatus (handled r f)
unfolding handled http_error_handler app_error_handler validation_error_handler on_authn on_authz
    problem
handled-HasStatus r (http_exception e) h = h
handled-HasStatus r (app_error e) h = get_http_status_for_error-is_status e.code
handled-HasStatus r (request_validation_error es) h = refl
handled-HasStatus r (authentication_error e) h = refl
handled-HasStatus r (authorization_error e) h = refl
handled-HasStatus r (unhandled_error m) h = tt

unhandled-status :
    (id : String) (r : Request)
    → is_status (unhandled_error_handler (identified id r)).status_code ≡ true
unfolding unhandled_error_handler problem
unhandled-status id r = refl

-- What the reading of the body and the endpoint make of a request, together.
module _ (jwt : Jwt) (w : World) (wait : Provider → Provider) (v : KeycloakVerifier)
    (api : SessionApi) (uuid_gen : ℕ → ℕ) (u : Unicode) {Db : Type 0} (committed : api.Session → Db)
    (tx : Transactional api committed) (uow_id : String) (credentials : Option String)
    (s : ApiState api) where
  abbrev of_body : RequestBody → Result Failure (Answer PublicId) × ApiState api
  of_body body = received jwt w wait v api uuid_gen u uow_id credentials body s

  received-status :
      (body : RequestBody) (a : Answer PublicId) → (of_body body).0 ≡ ok a → a.status_code ≡ 201
  unfolding received
  received-status (parsed body) a e =
      (created_stored jwt w wait v api uuid_gen u committed tx uow_id credentials body s a e).0
  received-status (not_json errors) a e = absurd (ok≢err (sym e))
  received-status unreadable a e = absurd (ok≢err (sym e))

  received-keeps :
      (body : RequestBody) (f : Failure)
      → (of_body body).0 ≡ err f
      → committed (of_body body).1.work.session ≡ committed s.work.session
  unfolding received
  received-keeps (parsed body) f e =
      failure_keeps jwt w wait v api uuid_gen u committed tx uow_id credentials body s f e
  received-keeps (not_json errors) f e = refl
  received-keeps unreadable f e = refl

  received-HasHttpStatus :
      (body : RequestBody) (f : Failure) → (of_body body).0 ≡ err f → HasHttpStatus f
  unfolding received
  received-HasHttpStatus (parsed body) f e =
      raised-HasHttpStatus f
        (failure-IsRaised jwt w wait v api uuid_gen u committed tx uow_id credentials body s f e)
  received-HasHttpStatus (not_json errors) f e = subst FailsWell e tt
  received-HasHttpStatus unreadable f e = subst FailsWell e refl

module _ (jwt : Jwt) (w : World) (wait : Provider → Provider) (v : KeycloakVerifier)
    (api : SessionApi) (uuid_gen : ℕ → ℕ) (u : Unicode) (uuids : UuidModule) {Db : Type 0}
    (committed : api.Session → Db) (tx : Transactional api committed) (uow_id : String)
    (credentials : Option String) (body : RequestBody) (r : Request) (h : HttpState)
    (s : ApiState api) where
  abbrev outcome : Result Failure (Answer PublicId) × ApiState api
  outcome = received jwt w wait v api uuid_gen u uow_id credentials body s

  abbrev answer : Result Raised JsonResponse × ApiState api
  answer = post_orgs jwt w wait v api uuid_gen u uuids uow_id credentials body r h s

  abbrev id : String
  id = (started uuids "POST" r h).0

  abbrev with_id : JsonResponse → JsonResponse
  with_id response = record response { headers = insert "X-Request-ID" id response.headers }

  -- Whatever body a client sends to POST /orgs/, be it JSON, no JSON or bytes that cannot be read, it gets a
  -- response: with the identifier of the request in its header, and with the status 201, 400, 401, 403,
  -- 404, 409, 422, 500 or 503. Unless the status is 201, nothing has been stored. The session is
  -- transactional and its `close` does not raise.
  pub post_orgs_answers :
      (response : JsonResponse) × (answer.0 ≡ ok response)
      × (lookup "X-Request-ID" response.headers ≡ some id)
      × (is_status response.status_code ≡ true)
      × ((response.status_code ≡ 201)
          ⊎ (committed answer.1.work.session ≡ committed s.work.session))
  unfolding post_orgs
  post_orgs_answers =
      let (_, kept, caught, _, _) =
        logging_middleware_answers uuids "POST" (rendering (λ q k. (responding outcome.0, k))) r
          h in
      elim (Result-cases outcome.0) [
        | inl (a, e) ↦
            let created =
              received-status jwt w wait v api uuid_gen u committed tx uow_id credentials s body a
                e in
            (
              with_id (created_response a),
              kept (created_response a) (
                  ap
                    (λ o.
                      (rendered (identified id r) (responding o, (started uuids "POST" r h).1)).0)
                    e),
              lookup-insert "X-Request-ID" "X-Request-ID" id [],
              ap is_status created,
              inl created,
            )
        | inr (f, e) ↦
            let same =
              received-keeps jwt w wait v api uuid_gen u committed tx uow_id credentials s body f
                e in
            let raised =
              received-HasHttpStatus jwt w wait v api uuid_gen u committed tx uow_id credentials s
                body f e in
            let shown =
              ap (λ o. (rendered (identified id r) (responding o, (started uuids "POST" r h).1)).0)
                e in
            elim (Result-cases (handled (identified id r) f)) [
              | inl (response, q) ↦ (
                with_id response,
                kept response (shown ∙ q),
                lookup-insert "X-Request-ID" "X-Request-ID" id response.headers,
                subst HasStatus q (handled-HasStatus (identified id r) f raised),
                inr same,
              )
              | inr (exception m, q) ↦ (
                record (unhandled_error_handler (identified id r)) {
                  headers = ("X-Request-ID", id) ∷ [];
                },
                caught m (shown ∙ q),
                refl,
                unhandled-status id r,
                inr same,
              )
              | inr (base_exception m, q) ↦
                  absurd (subst HasStatus q (handled-HasStatus (identified id r) f raised))
            ]
      ]

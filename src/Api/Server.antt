-- ===== src/Api/Server.antt =====
-- A request to POST /orgs/ through the middleware of src/pet/api/middleware/http_logging.py, the handlers
-- and the endpoint.
pub mod Statuses
use fukawa.Prelude.{ℕ, String, Option, List, [], ◌∷◌}
use fukawa.Prelude.Text.Uuid.{canonical}
use fukawa.Prelude.Result.{Result, ok, err}
use fukawa.Json.{Json}
use fukawa.Domain.Name.{Unicode}
use fukawa.Domain.Models.{PublicId}
use fukawa.Infra.Jwks.{Provider, World}
use fukawa.Infra.Verifier.{Jwt, KeycloakVerifier}
use fukawa.Infra.Session.{SessionApi}
use fukawa.Api.Handlers.{Request, text, JsonResponse, HttpException}
use fukawa.Api.Failures.{Failure, http_exception, request_validation_error}
use fukawa.Api.HttpLogging.{UuidModule, HttpState, Raised, logging_middleware}
use fukawa.Api.HttpLogging.Correlation.{rendering}
use fukawa.Api.Routers.{Answer, ApiState, create_organization}

-- What FastAPI reads of a request's body, before the endpoint: a value; a missing body or one that is no JSON, which is a
-- RequestValidationError; or bytes that cannot be read at all, say because they are no text.
pub data RequestBody : Type 0 where
  parsed : Json → RequestBody
  not_json : (errors : List (Option String)) → RequestBody
  unreadable : RequestBody

-- the HTTPException that FastAPI raises for the last
abbrev pub parsing_error : HttpException
parsing_error = record {
  status_code = 400;
  detail = "There was an error parsing the body";
  headers = [];
}

-- the response with the model PublicId
abbrev pub created_response : Answer PublicId → JsonResponse
created_response a = record {
  payload = ("public_id", text (canonical a.content)) ∷ [];
  status_code = a.status_code;
  media_type = "application/json";
  headers = [];
}

abbrev pub responding : Result Failure (Answer PublicId) → Result Failure JsonResponse
responding (ok a) = ok (created_response a)
responding (err f) = err f

module _ (jwt : Jwt) (w : World) (wait : Provider → Provider) (v : KeycloakVerifier)
    (api : SessionApi) (uuid_gen : ℕ → ℕ) (u : Unicode) where
  -- the endpoint, behind the reading of the body
  unfoldable pub received :
      (uow_id : String)
      → (credentials : Option String) → RequestBody
      → ApiState api
      → Result Failure (Answer PublicId) × ApiState api
  received uow_id credentials (parsed body) s =
      create_organization jwt w wait v api uuid_gen u uow_id credentials body s
  received uow_id credentials (not_json errors) s = (err (request_validation_error errors), s)
  received uow_id credentials unreadable s = (err (http_exception parsing_error), s)

module _ (jwt : Jwt) (w : World) (wait : Provider → Provider) (v : KeycloakVerifier)
    (api : SessionApi) (uuid_gen : ℕ → ℕ) (u : Unicode) (uuids : UuidModule) where
  -- the response, and the state of the application afterwards
  unfoldable pub post_orgs :
      (uow_id : String)
      → (credentials : Option String) → RequestBody
      → Request
      → HttpState
      → ApiState api
      → Result Raised JsonResponse × ApiState api
  post_orgs uow_id credentials body r h s =
      let (outcome, t) = received jwt w wait v api uuid_gen u uow_id credentials body s in
      ((logging_middleware uuids "POST" (rendering (λ q k. (responding outcome, k))) r h).0, t)

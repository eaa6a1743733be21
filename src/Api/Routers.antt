-- ===== src/Api/Routers.antt =====
-- src/pet/api/routers and health.py: the endpoints, and what FastAPI does with what they raise. The
-- dependencies of a route run before its body is validated, and get_current_principal runs once.
pub mod Created
pub mod LoggedIn
pub mod Directory
pub mod Owners
pub mod Trusted
use fukawa.Prelude.{ℕ, String, Bool, Option, none, some, List, [], ◌∷◌, if◌then◌else◌}
use fukawa.Prelude.Result.{Result, ok, err}
use fukawa.Json.{Json, Fields, null, boolean, number, str, arr, obj, get}
use fukawa.Domain.Name.{Unicode, ValidationError, validate_org_name}
use fukawa.Domain.Principal.{Principal}
use fukawa.Domain.Models.{PublicId, User}
use fukawa.App.Auth.{AuthenticationError, AuthorizationError}
use fukawa.App.Executor.{run}
use fukawa.App.Usecases.{create_organization_cmd, provision_user_from_claims}
use fukawa.Infra.Jwks.{Provider, World}
use fukawa.Infra.Verifier.{Jwt, KeycloakVerifier}
use fukawa.Infra.Session.{SessionApi, SessionError, driver, foreign, Exc}
use fukawa.Infra.Uow.{State}
use fukawa.Api.Handlers.{HttpException}
use fukawa.Api.Failures.{
  Failure, http_exception, request_validation_error, authentication_error, authorization_error,
  unhandled_error, failure_of,
}
use fukawa.Api.Access.{AccessState, get_current_principal, required_scopes}

-- What an endpoint returns, with the status of its response.
pub record Answer (A : Type 0) : Type 0 where
  pub status_code : ℕ
  pub content : A

pub record CreateOrgDtoIn : Type 0 where
  pub name : String

module _ (u : Unicode) where
  abbrev validated_name :
      Result ValidationError String → Result (List (Option String)) CreateOrgDtoIn
  validated_name (ok value) = ok (record { name = value })
  validated_name (err e) = err (some e.message ∷ [])

  abbrev strict_name : Option Json → Result (List (Option String)) CreateOrgDtoIn
  strict_name (some (str value)) = validated_name (validate_org_name u value)
  strict_name _ = err (none ∷ [])

  -- CreateOrgDtoIn on a decoded body: the errors, each by its `ctx.error`
  unfoldable pub create_org_dto_in : Json → Result (List (Option String)) CreateOrgDtoIn
  create_org_dto_in (obj fields) = strict_name (get "name" fields)
  create_org_dto_in _ = err (none ∷ [])

-- The state of the verifier and of the request, and that of the unit of work and the session.
pub record ApiState (api : SessionApi) : Type 0 where
  pub access : AccessState
  pub work : State api

pub record MeOut : Type 0 where
  pub public_id : PublicId
  pub email : String
  pub username : String
  pub first_name : Option String
  pub last_name : Option String
  pub last_login_at : ℕ

abbrev pub me_out : User → MeOut
me_out provision = record {
  public_id = provision.public_id;
  email = provision.email;
  username = provision.username;
  first_name = provision.first_name;
  last_name = provision.last_name;
  last_login_at = provision.last_login_at;
}

module _ (jwt : Jwt) (w : World) (wait : Provider → Provider) (v : KeycloakVerifier)
    (api : SessionApi) (uuid_gen : ℕ → ℕ) (u : Unicode) where
  abbrev pub created :
      AccessState
      → Result Exc PublicId × State api
      → Result Failure (Answer PublicId) × ApiState api
  created access (ok public_id, work) = (
    ok (record { status_code = 201; content = public_id }),
    record { access = access; work = work },
  )
  created access (err e, work) = (err (failure_of e), record { access = access; work = work })

  -- the body of create_organization, on the validated body of the request
  abbrev pub with_dto :
      (uow_id : String)
      → Principal
      → ApiState api
      → Result (List (Option String)) CreateOrgDtoIn
      → Result Failure (Answer PublicId) × ApiState api
  with_dto uow_id principal s (err es) = (err (request_validation_error es), s)
  with_dto uow_id principal s (ok org) = created s.access (
      run api uow_id
        (create_organization_cmd api uuid_gen u (record { name = org.name; principal = principal }))
        s.work)

  abbrev pub with_scopes :
      (uow_id : String)
      → (body : Json) → Principal
      → ApiState api
      → Result AuthorizationError Principal
      → Result Failure (Answer PublicId) × ApiState api
  with_scopes uow_id body principal s (err e) = (err (authorization_error e), s)
  with_scopes uow_id body principal s (ok _) =
      with_dto uow_id principal s (create_org_dto_in u body)

  abbrev pub with_principal :
      (uow_id : String)
      → (body : Json) → State api
      → Result AuthenticationError Principal × AccessState
      → Result Failure (Answer PublicId) × ApiState api
  with_principal uow_id body work (err e, access) =
      (err (authentication_error e), record { access = access; work = work })
  with_principal uow_id body work (ok principal, access) =
      with_scopes uow_id body principal (record { access = access; work = work })
        (required_scopes ("organizations:write" ∷ []) principal)

  -- create_organization, POST /orgs/
  unfoldable pub create_organization :
      (uow_id : String)
      → (credentials : Option String) → (body : Json) → ApiState api
      → Result Failure (Answer PublicId) × ApiState api
  create_organization uow_id credentials body s =
      with_principal uow_id body s.work (get_current_principal jwt w wait v credentials s.access)

  abbrev pub provisioned :
      AccessState
      → Result Exc (User × Bool) × State api
      → Result Failure (Answer MeOut) × ApiState api
  provisioned access (ok (provision, is_created), work) = (
    ok (record { status_code = if is_created then 201 else 200; content = me_out provision }),
    record { access = access; work = work },
  )
  provisioned access (err e, work) = (err (failure_of e), record { access = access; work = work })

  abbrev pub with_user :
      (uow_id : String)
      → (now : ℕ) → State api
      → Result AuthenticationError Principal × AccessState
      → Result Failure (Answer MeOut) × ApiState api
  with_user uow_id now work (err e, access) =
      (err (authentication_error e), record { access = access; work = work })
  with_user uow_id now work (ok principal, access) =
      provisioned access
        (run api uow_id (provision_user_from_claims api uuid_gen now principal) work)

  -- login, POST /users/me
  unfoldable pub login :
      (uow_id : String)
      → (now : ℕ) → (credentials : Option String) → ApiState api
      → Result Failure (Answer MeOut) × ApiState api
  login uow_id now credentials s =
      with_user uow_id now s.work (get_current_principal jwt w wait v credentials s.access)

-- healthz
abbrev pub healthz : Answer String
healthz = record { status_code = 200; content = "ok" }

-- readyz; `probe` is what connecting and `SELECT 1` come to
unfoldable pub readyz : (probe : Result SessionError (Unit {0})) → Result Failure (Answer String)
readyz (ok _) = ok (record { status_code = 200; content = "ok" })
readyz (err (driver e)) =
    err
      (http_exception (record { status_code = 503; detail = "Service is not ready"; headers = [] }))
readyz (err (foreign m)) = err (unhandled_error m)

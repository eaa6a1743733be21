-- ===== src/Api/Access.antt =====
-- src/pet/api/auth.py: the dependencies that authenticate a request and check scopes and roles.
pub mod Grants
pub mod Sets
use fukawa.Prelude.{
  String, Bool, not, Option, none, some, List, [], ◌∷◌, contains, is_empty, keep, unique, ◌+++◌,
  if◌then◌else◌,
}
use fukawa.Prelude.Text.Order.{sorted, joined}
use fukawa.Prelude.Dict.{lookup}
use fukawa.Prelude.Result.{Result, ok, err}
use fukawa.Domain.Principal.{Principal, or_no_roles}
use fukawa.App.Auth.{
  AuthenticationError, AuthorizationError, missing_token, invalid_token, insufficient_permissions,
}
use fukawa.Infra.Jwks.{Provider, World}
use fukawa.Infra.Verifier.{Jwt, KeycloakVerifier, VerifyError, authn, escaped, verify}

-- The state of the application and of the request, as far as the dependency changes it.
pub record AccessState : Type 0 where
  pub provider : Provider
  pub principal : Option Principal

-- the `except` clauses of get_current_principal
abbrev pub access_error : VerifyError → AuthenticationError
access_error (authn e) = e
access_error (escaped _) = invalid_token "Token verification failed"

module _ (jwt : Jwt) (w : World) (wait : Provider → Provider) (v : KeycloakVerifier) where
  abbrev verified :
      AccessState
      → Result VerifyError Principal × Provider
      → Result AuthenticationError Principal × AccessState
  verified s (ok principal, p) = (ok principal, record { provider = p; principal = some principal })
  verified s (err e, p) = (err (access_error e), record s { provider = p })

  -- get_current_principal; `credentials` are those of the header, if it has a bearer token
  unfoldable pub get_current_principal :
      (credentials : Option String)
      → AccessState
      → Result AuthenticationError Principal × AccessState
  get_current_principal none s = (err missing_token, s)
  get_current_principal (some raw_token) s = verified s (verify jwt w wait v raw_token s.provider)

abbrev pub without_all : List String → List String → List String
without_all required granted = keep (λ a. not (contains granted a)) required

-- sorted(frozenset(names) - granted)
unfoldable pub missing : List String → List String → List String
unfolding sorted
missing names granted = sorted (without_all (unique names) granted)

abbrev pub refuse_or : String → List String → Principal → Result AuthorizationError Principal
refuse_or kind [] principal = ok principal
refuse_or kind (m ∷ ms) principal =
    err (insufficient_permissions ("Missing required " +++ (kind +++ (" " +++ joined (m ∷ ms)))))

unfoldable pub required_scopes : List String → Principal → Result AuthorizationError Principal
unfolding missing
required_scopes scopes principal = refuse_or "scope(s)" (missing scopes principal.scopes) principal

unfoldable pub required_realm_roles : List String → Principal → Result AuthorizationError Principal
unfolding missing
required_realm_roles roles principal =
    refuse_or "realm role(s)" (missing roles principal.realm_roles) principal

unfoldable pub required_client_roles :
    String → List String → Principal → Result AuthorizationError Principal
unfolding missing
required_client_roles client_id roles principal =
    refuse_or "client role(s)"
      (missing roles (or_no_roles (lookup client_id principal.client_roles))) principal

-- ===== src/Tests/Tokens.antt =====
-- The verifier of src/pet/infra/auth/keycloak_verifier.py on a token of one client.
use fukawa.Prelude.{String, ◌≡◌, refl, Option, none, some, List, [], ◌∷◌, ◌==◌, if◌then◌else◌}
use fukawa.Prelude.Result.{ok}
use fukawa.Json.{str, arr, obj, nil, cons, Fields, end, field, dict}
use fukawa.Domain.Principal.{Principal}
use fukawa.Infra.Jwks.{get_signing_key}
use fukawa.Infra.Jwks.Outcome.{tick}
use fukawa.Infra.Jwks.Parsing.{IsEntry}
use fukawa.Infra.Jwks.Promises.{IsRecent}
use fukawa.Infra.Verifier.{
  Jwt, KeycloakVerifier, create_verifier, verify, find_key, validate_audience, build_principal,
  extract_scopes, extract_client_roles, extract_realm_roles,
}
use fukawa.Infra.Verifier.Soundness.{IsVerified}
use fukawa.Infra.Verifier.Trust.{verify-IsRecent}
use fukawa.Infra.Verifier.Roles.{build_principal-ComesFrom, ComesFrom}
use fukawa.Tests.Keys.{
  world, after_start, world-IsMonotonic, after_start-IsValid, after_start-HasFetched,
  alone-OthersOnly,
}

abbrev header : Fields
header = field "kid" (str "k1") (field "alg" (str "RS256") end)

abbrev unsigned_header : Fields
unsigned_header = field "kid" (str "k1") (field "alg" (str "none") end)

abbrev pub claims : Fields
claims = field "sub" (str "u1") (
    field "iss" (str "https://id.example") (
      field "preferred_username" (str "ada") (
        field "email" (str "ada@id.example") (
          field "aud" (arr (cons (str "pet") nil)) (
            field "resource_access"
              (obj (field "pet" (obj (field "roles" (arr (cons (str "editor") nil)) end)) end))
              end)))))

abbrev pub read_header : String → Option Fields
read_header token = if token == "unsigned" then some unsigned_header else some header

abbrev pub jwt : Jwt
jwt = record { get_unverified_header = read_header; decode = λ args. ok claims }

abbrev pet_only : List String
pet_only = "pet" ∷ []

abbrev pub verifier : KeycloakVerifier
verifier = record {
  issuer = "https://id.example";
  audiences = pet_only;
  allowed_algorithms = "RS256" ∷ [];
  leeway = 30;
}

verifier_created : create_verifier "https://id.example" pet_only ("RS256" ∷ []) 30 ≡ ok verifier
unfolding create_verifier
verifier_created = refl

abbrev pub ada : Principal
ada = record {
  subject = "u1";
  issuer = "https://id.example";
  username = "ada";
  email = "ada@id.example";
  first_name = none;
  last_name = none;
  scopes = [];
  realm_roles = [];
  client_roles = ("pet", "editor" ∷ []) ∷ [];
  raw_claims = dict claims;
}

ada_built : build_principal claims ≡ ok ada
unfolding build_principal extract_scopes extract_client_roles extract_realm_roles
ada_built = refl

ada_verified : verify jwt world (λ s. s) verifier "token" after_start ≡ (ok ada, tick after_start)
unfolding verify find_key get_signing_key validate_audience build_principal extract_scopes
    extract_client_roles extract_realm_roles
ada_verified = refl

verify-IsRecent_example :
    (e : IsVerified jwt world (λ s. s) verifier "token" after_start ada (tick after_start))
    × IsEntry after_start.policy (e.kid, e.key)
    × IsRecent world e.kid e.key after_start (tick after_start)
verify-IsRecent_example =
    verify-IsRecent jwt world (λ s. s) verifier "token" after_start ada (tick after_start)
      world-IsMonotonic after_start-IsValid after_start-HasFetched alone-OthersOnly ada_verified

build_principal-ComesFrom_example : ComesFrom claims ada
build_principal-ComesFrom_example = build_principal-ComesFrom claims ada refl ada_built

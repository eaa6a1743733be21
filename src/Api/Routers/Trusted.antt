-- ===== src/Api/Routers/Trusted.antt =====
-- POST /orgs/ of src/pet/api/routers/organizations.py over the verifier and the keys that it trusts.
use fukawa.Prelude.{String, true, ◌≡◌, Option, some, ℕ}
use fukawa.Prelude.Result.{ok}
use fukawa.Json.{Json}
use fukawa.Domain.Name.{Unicode}
use fukawa.Domain.Principal.{Principal, has_scope}
use fukawa.Domain.Models.{PublicId}
use fukawa.App.Executor.Stored.{Transactional}
use fukawa.Infra.Jwks.{Provider, World}
use fukawa.Infra.Jwks.Parsing.{IsEntry}
use fukawa.Infra.Jwks.Refresh.{IsMonotonic, IsValid}
use fukawa.Infra.Jwks.Fetched.{HasFetched}
use fukawa.Infra.Jwks.Promises.{OthersOnly, IsRecent}
use fukawa.Infra.Verifier.{Jwt, KeycloakVerifier, verify}
use fukawa.Infra.Verifier.Soundness.{IsVerified}
use fukawa.Infra.Verifier.Trust.{verify-IsRecent}
use fukawa.Infra.Session.{SessionApi}
use fukawa.Api.Access.Grants.{get_current_principal_iff}
use fukawa.Api.Routers.{Answer, ApiState, create_organization}
use fukawa.Api.Routers.Created.{created_stored}

-- A request to create an organization that is answered brought a bearer token that the verifier accepted
-- as that of a principal with the scope organizations:write, with a key that the provider admits and that
-- stands in the key set that the provider holds after the verification, the last that was fetched and
-- accepted, which is no older than the limits allow. The session is transactional and its `close` does not
-- raise, the clock does not go back, other tasks only call the provider's operations, and before the request
-- the provider is valid, and its cache, if it was ever filled, holds the last key set that was fetched and
-- accepted.
pub created_trusted :
    (jwt : Jwt) (w : World) (wait : Provider → Provider) (v : KeycloakVerifier) (api : SessionApi)
    (uuid_gen : ℕ → ℕ) (u : Unicode) {Db : Type 0} (committed : api.Session → Db) (uow_id : String)
    (credentials : Option String) (body : Json) (s : ApiState api) (a : Answer PublicId)
    → Transactional api committed
    → IsMonotonic w.clock
    → IsValid w s.access.provider
    → HasFetched w s.access.provider
    → OthersOnly w wait
    → (create_organization jwt w wait v api uuid_gen u uow_id credentials body s).0 ≡ ok a
    → (raw_token : String) × (p : Principal) × (after : Provider) × (credentials ≡ some raw_token)
      × (has_scope p "organizations:write" ≡ true)
      × (e : IsVerified jwt w wait v raw_token s.access.provider p after) × IsEntry
          s.access.provider.policy
          (e.kid, e.key)
      × IsRecent w e.kid e.key s.access.provider after
created_trusted jwt w wait v api uuid_gen u committed uow_id credentials body s a tx mono valid
      filled others h =
    let (_, _, (p, _, _, _, seen, scope, _, _, _, _, _, _)) =
      created_stored jwt w wait v api uuid_gen u committed tx uow_id credentials body s a h in
    let (raw, brought, verified) =
      (get_current_principal_iff jwt w wait v credentials s.access p).0.0 seen in
    let after : Provider = (verify jwt w wait v raw s.access.provider).1 in
    let (e, entry, recent) =
      verify-IsRecent jwt w wait v raw s.access.provider p after mono valid filled others
        (λ i. (verified i, after)) in
    (raw, p, after, brought, scope, e, entry, recent)

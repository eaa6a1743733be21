-- ===== src/Api/Routers/Owners.antt =====
-- POST /orgs/ of src/pet/api/routers/organizations.py: no organization without an owner.
use fukawa.Prelude.{
  ℕ, Bool, true, false, ◌&&◌, ◌≡◌, sym, List, ◌++◌, any, any-append, leb, arith, subst, inl, inr,
  Bool-cases, false≢true,
}
use fukawa.Domain.Name.{Unicode}
use fukawa.Domain.Models.{PublicId, owner, admin, member}
use fukawa.Infra.Jwks.{Provider, World}
use fukawa.Infra.Verifier.{Jwt, KeycloakVerifier}
use fukawa.Infra.Session.{SessionApi}
use fukawa.Api.Routers.{ApiState}
use fukawa.Api.Routers.Directory.{
  Write, organization, membership, Outcome, Added, start_empty, refused, created, CreateRequest,
  IsStoring, serve, serve_refines,
}

abbrev same_id : PublicId → PublicId → Bool
same_id a b = leb a b && leb b a

abbrev pub is_organization : PublicId → Write → Bool
is_organization id (organization o) = same_id o.public_id id
is_organization id (membership _ _ _ _) = false

abbrev pub is_owner : PublicId → Write → Bool
is_owner id (organization _) = false
is_owner id (membership _ _ org_public_id owner) = same_id org_public_id id
is_owner id (membership _ _ _ admin) = false
is_owner id (membership _ _ _ member) = false

-- Every organization has a membership as its owner.
abbrev pub HasOwners : List Write → Type 0
HasOwners ws = (id : PublicId) → any (is_organization id) ws ≡ true → any (is_owner id) ws ≡ true

Added-HasOwners : {os : List Outcome} {ws : List Write} → Added os ws → HasOwners ws
Added-HasOwners start_empty id h = absurd (false≢true h)
Added-HasOwners (refused f rest) id h = Added-HasOwners rest id h
Added-HasOwners (created a name public_id user_public_id rest) id h =
    elim (Bool-cases (same_id a.content id)) [
      | inl e ↦ ground (arith, e)
      | inr e ↦ ground (arith, e, Added-HasOwners rest id)
    ]

append-HasOwners : (xs ys : List Write) → HasOwners xs → HasOwners ys → HasOwners (xs ++ ys)
append-HasOwners xs ys h k id there =
    ground
      (arith, any-append (is_organization id) xs ys, any-append (is_owner id) xs ys, h id, k id)

-- Requests to create an organization keep it that every organization that is stored has an owner,
-- whichever of them are answered. The session stores what was written when a commit goes through.
pub serve-HasOwners :
    (api : SessionApi) (pending committed : api.Session → List Write) (jwt : Jwt) (w : World)
    (wait : Provider → Provider) (v : KeycloakVerifier) (uuid_gen : ℕ → ℕ) (u : Unicode)
    → IsStoring api pending committed
    → (qs : List CreateRequest) (s : ApiState api) → HasOwners (committed s.work.session)
    → HasOwners
        (committed (serve api pending committed jwt w wait v uuid_gen u qs s).1.work.session)
serve-HasOwners api pending committed jwt w wait v uuid_gen u store qs s h =
    let (ws, adds, end) = serve_refines api pending committed jwt w wait v uuid_gen u store qs s in
    subst HasOwners (sym end)
      (append-HasOwners (committed s.work.session) ws h (Added-HasOwners adds))

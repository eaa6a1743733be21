-- ===== src/App/Usecases.antt =====
-- src/pet/app/usecases: creating an organization and provisioning the user of a token. Logging is
-- left out.
pub mod Frame
pub mod Organizations
pub mod Stored
pub mod Provisioning
use fukawa.Prelude.{ℕ, suc, String, Bool, Option, none, some}
use fukawa.Prelude.Result.{Result, ok, err}
use fukawa.Domain.Name
use fukawa.Domain.Name.{Unicode, Name, ValidationError}
use fukawa.Domain.Principal.{Principal}
use fukawa.Domain.Models.{PublicId, Organization, Membership, owner, User, UserArgs, create_user}
use fukawa.App.Errors.{not_found}
use fukawa.Infra.Session.{SessionApi, Exc, validation, app}
use fukawa.Infra.Uow.{State, Action, pure, raise, require_repo, ◌>>=◌ as bind}
use fukawa.Infra.Repos.{create_organization, create_membership, get_by_auth_identity, upsert}

pub record CreateOrganizationCmdIn : Type 0 where
  pub name : String
  pub principal : Principal

-- `uuid_gen i` is the UUID of draw i.
module _ (api : SessionApi) (uuid_gen : ℕ → ℕ) where
  infixl 5 ◌>>=◌ ◌>>◌
  abbrev ◌>>=◌ : {A B : Type 0} → Action api A → (A → Action api B) → Action api B
  m >>= f = bind api m f

  abbrev ◌>>◌ : {A B : Type 0} → Action api A → Action api B → Action api B
  m >> k = m >>= λ _. k

  abbrev pub draw : Action api PublicId
  draw s = (ok (uuid_gen s.uuids), record s { uuids = suc s.uuids })

  abbrev found : Option User → Action api User
  found none = raise api (app (not_found (some "User not found") none))
  found (some user) = pure api user

  abbrev or_validation : {A : Type 0} → Result ValidationError A → Action api A
  or_validation (ok a) = pure api a
  or_validation (err e) = raise api (validation e)

  -- create_organization_cmd
  unfoldable pub create_organization_cmd : Unicode → CreateOrganizationCmdIn → Action api PublicId
  unfolding not_found get_by_auth_identity create_organization create_membership
  create_organization_cmd u cmd = do
    org_public_id ← draw
    require_repo api (λ uow. uow.has_users) "users"
    maybe_user ← get_by_auth_identity api cmd.principal.issuer cmd.principal.subject
    user ← found maybe_user
    name ← or_validation (Name.create u cmd.name)
    membership_public_id ← draw
    require_repo api (λ uow. uow.has_orgs) "orgs"
    create_organization api (record { public_id = org_public_id; name = name })
    require_repo api (λ uow. uow.has_memberships) "memberships"
    create_membership api (record {
      public_id = membership_public_id;
      org_public_id = org_public_id;
      user_public_id = user.public_id;
      role = owner;
    })
    pure api org_public_id

  -- the arguments that provision_user_from_claims passes to User.create
  abbrev pub user_of_claims : PublicId → ℕ → Principal → User
  unfolding create_user
  user_of_claims public_id now principal = create_user (record {
    public_id = public_id;
    email = principal.email;
    auth_issuer = principal.issuer;
    auth_subject = principal.subject;
    username = principal.username;
    last_login_at = now;
    created_at = now;
    updated_at = some now;
    first_name = principal.first_name;
    last_name = principal.last_name;
  })

  -- provision_user_from_claims; `now` is what datetime.now(UTC) returns
  unfoldable pub provision_user_from_claims : (now : ℕ) → Principal → Action api (User × Bool)
  unfolding create_user upsert
  provision_user_from_claims now principal = do
    public_id ← draw
    require_repo api (λ uow. uow.has_users) "users"
    upsert api (user_of_claims public_id now principal)

-- ===== src/Domain/Models.antt =====
-- src/pet/domain/models.py. A `PublicId` is the number of its UUID, a time counts the ticks since a
-- fixed moment in UTC.
use fukawa.Prelude.{ℕ, String, Option, Bool, or_else, leb, ◌&&◌}
use fukawa.Domain.Name.{Name}

abbrev pub PublicId : Type 0
PublicId = ℕ

pub data MemberRole : Type 0 where
  owner admin member : MemberRole

pub record Organization : Type 0 where
  pub public_id : PublicId
  pub name : Name

-- `name` has compare=False, so that only the identifiers are compared
unfoldable pub same_organization : Organization → Organization → Bool
same_organization a b = leb a.public_id b.public_id && leb b.public_id a.public_id

pub record Membership : Type 0 where
  pub public_id : PublicId
  pub org_public_id : PublicId
  pub user_public_id : PublicId
  pub role : MemberRole

pub record User : Type 0 where
  pub public_id : PublicId
  pub email : String
  pub username : String
  pub first_name : Option String
  pub last_name : Option String
  pub auth_issuer : String
  pub auth_subject : String
  pub last_login_at : ℕ
  pub created_at : ℕ
  pub updated_at : ℕ

-- The arguments of User.create, where `updated_at` may be left out.
pub record UserArgs : Type 0 where
  pub public_id : PublicId
  pub email : String
  pub auth_issuer : String
  pub auth_subject : String
  pub username : String
  pub last_login_at : ℕ
  pub created_at : ℕ
  pub updated_at : Option ℕ
  pub first_name : Option String
  pub last_name : Option String

unfoldable pub create_user : UserArgs → User
create_user a = record {
  public_id = a.public_id;
  email = a.email;
  username = a.username;
  first_name = a.first_name;
  last_name = a.last_name;
  auth_issuer = a.auth_issuer;
  auth_subject = a.auth_subject;
  last_login_at = a.last_login_at;
  created_at = a.created_at;
  updated_at = or_else a.updated_at a.created_at;
}

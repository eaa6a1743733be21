-- ===== src/Tests/Provisioning.antt =====
-- Two logins of one user, by src/pet/app/usecases/users.py, over a table of at most one user.
use fukawa.Prelude.{
  ℕ, String, Bool, true, false, ◌&&◌, ◌≡◌, refl, Option, none, some, [], ◌∷◌, ◌==◌, eq_iff, arith,
  if◌then◌else◌, Bool-cases, inl, inr,
}
use fukawa.Prelude.Result.{Result, ok, err}
use fukawa.Domain.Principal.{Principal}
use fukawa.Domain.Models.{create_user}
use fukawa.Infra.Session.{
  SessionApi, SessionError, foreign, Stmt, insert_membership, select_user, upsert_user, Reply, done,
  users, upserted, UserRow, UserSet,
}
use fukawa.Infra.Uow.{State}
use fukawa.Infra.Repos.{to_domain, upsert}
use fukawa.App.Usecases.{provision_user_from_claims}
use fukawa.App.Usecases.Provisioning.{IsUpserting, updated, provisioned_again}

abbrev is_of : UserRow → String → String → Bool
is_of r issuer subject = r.auth_issuer == issuer && r.auth_subject == subject

abbrev pub find : Option UserRow → String → String → Option UserRow
find none issuer subject = none
find (some r) issuer subject = if is_of r issuer subject then some r else none

-- a second user finds no place
abbrev put : UserRow → UserSet → Option UserRow → Result SessionError Reply × Option UserRow
put values c none = (ok (upserted ((values, true) ∷ [])), some values)
put values c (some r) =
    if is_of r values.auth_issuer values.auth_subject
    then (ok (upserted ((updated c r, false) ∷ [])), some (updated c r))
    else (err (foreign "the table is full"), some r)

abbrev pub answer : Stmt → Option UserRow → Result SessionError Reply × Option UserRow
answer (upsert_user values _ c) d = put values c d
answer (select_user issuer subject) d = (ok (users []), d)
answer (insert_membership _ _ _ _) d = (ok done, d)

abbrev table : SessionApi
table = record {
  Session = Option UserRow;
  begin = λ d. d;
  make_repos = λ d. none;
  add = λ o d. d;
  execute = answer;
  commit = λ d. (ok tt, d);
  rollback = λ d. (ok tt, d);
  flush = λ d. (ok tt, d);
  refresh = λ names d. (ok tt, d);
  close = λ d. (ok tt, d);
}

pub table-unknown :
    (d : Option UserRow) (values : UserRow) (c : UserSet) (reply : Reply)
    → find d values.auth_issuer values.auth_subject ≡ none
    → (put values c d).0 ≡ ok reply
    → (reply ≡ upserted ((values, true) ∷ []))
      × (find (put values c d).1 values.auth_issuer values.auth_subject ≡ some values)
table-unknown none values c reply new h = ground (
  arith,
  eq_iff values.auth_issuer values.auth_issuer,
  eq_iff values.auth_subject values.auth_subject,
)
table-unknown (some r) values c reply new h =
    elim (Bool-cases (is_of r values.auth_issuer values.auth_subject)) [
      | inl same ↦ absurd (ground arith)
      | inr other ↦ absurd (ground arith)
    ]

pub table-known :
    (d : Option UserRow) (values : UserRow) (c : UserSet) (reply : Reply) (old : UserRow)
    → find d values.auth_issuer values.auth_subject ≡ some old
    → (put values c d).0 ≡ ok reply
    → (reply ≡ upserted ((updated c old, false) ∷ []))
      × (find (put values c d).1 values.auth_issuer values.auth_subject ≡ some (updated c old))
table-known none values c reply old known h = absurd (ground arith)
table-known (some r) values c reply old known h =
    elim (Bool-cases (is_of r values.auth_issuer values.auth_subject)) [
      | inl same ↦ ground arith
      | inr other ↦ absurd (ground arith)
    ]

table-IsUpserting : IsUpserting table find
table-IsUpserting = record { unknown = table-unknown; known = table-known }

abbrev login : String → Principal
login email = record {
  subject = "u1";
  issuer = "https://id.example";
  username = "ada";
  email = email;
  first_name = none;
  last_name = none;
  scopes = [];
  realm_roles = [];
  client_roles = [];
  raw_claims = [];
}

abbrev row : ℕ → String → ℕ → UserRow
row id email now = record {
  public_id = id;
  email = email;
  username = "ada";
  first_name = none;
  last_name = none;
  auth_issuer = "https://id.example";
  auth_subject = "u1";
  last_login_at = now;
  created_at = 5;
  updated_at = now;
}

abbrev state : ℕ → Option UserRow → State table
state uuids d = record {
  uow = record {
    has_session = true;
    has_orgs = true;
    has_users = true;
    has_memberships = true;
    rolled_back = false;
    uow_id = some "1";
  };
  session = d;
  uuids = uuids;
}

first_login :
    provision_user_from_claims table (λ i. i) 5 (login "old@id.example") (state 70 none) ≡ (
      ok (to_domain (row 70 "old@id.example" 5), true),
      state 71 (some (row 70 "old@id.example" 5)),
    )
unfolding provision_user_from_claims create_user upsert
first_login = refl

second_login :
    provision_user_from_claims table
      (λ i. i)
      9
      (login "new@id.example")
      (state 80 (some (row 70 "old@id.example" 5)))
    ≡ (
      ok (to_domain (row 70 "new@id.example" 9), false),
      state 81 (some (row 70 "new@id.example" 9)),
    )
unfolding provision_user_from_claims create_user upsert
second_login = refl

provisioned_again_example :
    (false ≡ false)
    × ((to_domain (row 70 "new@id.example" 9)).public_id
        ≡ (to_domain (row 70 "old@id.example" 5)).public_id)
    × ((to_domain (row 70 "new@id.example" 9)).created_at
        ≡ (to_domain (row 70 "old@id.example" 5)).created_at)
    × ((to_domain (row 70 "new@id.example" 9)).auth_subject
        ≡ (to_domain (row 70 "old@id.example" 5)).auth_subject)
    × ((to_domain (row 70 "new@id.example" 9)).email ≡ "new@id.example")
    × ((to_domain (row 70 "new@id.example" 9)).username ≡ "ada")
    × ((to_domain (row 70 "new@id.example" 9)).first_name ≡ none)
    × ((to_domain (row 70 "new@id.example" 9)).last_name ≡ none)
    × ((to_domain (row 70 "new@id.example" 9)).last_login_at ≡ 9)
provisioned_again_example =
    provisioned_again table find (λ i. i) table-IsUpserting 5 9 (login "old@id.example")
      (login "new@id.example") (state 70 none) (state 71 (some (row 70 "old@id.example" 5)))
      (state 80 (some (row 70 "old@id.example" 5))) (state 81 (some (row 70 "new@id.example" 9)))
      (to_domain (row 70 "old@id.example" 5)) (to_domain (row 70 "new@id.example" 9)) true false
      refl refl first_login refl second_login

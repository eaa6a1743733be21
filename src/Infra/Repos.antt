-- ===== src/Infra/Repos.antt =====
-- src/pet/infra/sqla/db/repos.py: the repositories, as the statements that they hand to the session.
use fukawa.Prelude.{String, Bool, Option, none, some, [], ◌∷◌}
use fukawa.Prelude.Result.{ok}
use fukawa.Domain.Models.{Organization, Membership, User}
use fukawa.Infra.Persistence.{determine_exc}
use fukawa.Infra.Session.{
  SessionApi, foreign, persistence, uncaught, Stmt, insert_membership, select_user, upsert_user,
  Reply, done, users, upserted, UserRow,
}
use fukawa.Infra.Uow.{Action, pure, raise, try_session, ◌>>=◌}

-- _to_domain
abbrev pub to_domain : UserRow → User
to_domain r = record {
  public_id = r.public_id;
  email = r.email;
  username = r.username;
  first_name = r.first_name;
  last_name = r.last_name;
  auth_issuer = r.auth_issuer;
  auth_subject = r.auth_subject;
  last_login_at = r.last_login_at;
  created_at = r.created_at;
  updated_at = r.updated_at;
}

-- the values of the insert of `upsert`
abbrev pub to_row : User → UserRow
to_row u = record {
  public_id = u.public_id;
  email = u.email;
  username = u.username;
  first_name = u.first_name;
  last_name = u.last_name;
  auth_issuer = u.auth_issuer;
  auth_subject = u.auth_subject;
  last_login_at = u.last_login_at;
  created_at = u.created_at;
  updated_at = u.updated_at;
}

abbrev pub upsert_stmt : User → Stmt
upsert_stmt u = upsert_user (to_row u) "uq_users_auth_subject_auth_issuer" (record {
  username = u.username;
  email = u.email;
  first_name = u.first_name;
  last_name = u.last_name;
  last_login_at = u.last_login_at;
  updated_at = u.updated_at;
})

module _ (api : SessionApi) where
  -- session.execute, with errors of the database translated
  abbrev pub execute : Stmt → Action api Reply
  execute stmt = try_session api (api.execute stmt) (λ e. raise api (persistence (determine_exc e)))

  -- a result that has not the shape that is asked for raises outside the `try`
  abbrev wrong_shape : {A : Type 0} → String → Action api A
  wrong_shape m = raise api (uncaught (foreign m))

  -- result.scalar_one_or_none(), as a User
  abbrev pub one_or_none : Reply → Action api (Option User)
  one_or_none (users []) = pure api none
  one_or_none (users (r ∷ [])) = pure api (some (to_domain r))
  one_or_none (users (r ∷ q ∷ rest)) = wrong_shape "MultipleResultsFound"
  one_or_none done = wrong_shape "ResourceClosedError"
  one_or_none (upserted _) = wrong_shape "MultipleResultsFound"

  -- result.one(), as a User and the column `inserted`
  abbrev pub exactly_one : Reply → Action api (User × Bool)
  exactly_one (upserted ((r, inserted) ∷ [])) = pure api (to_domain r, inserted)
  exactly_one (upserted []) = wrong_shape "NoResultFound"
  exactly_one (upserted (r ∷ q ∷ rest)) = wrong_shape "MultipleResultsFound"
  exactly_one done = wrong_shape "ResourceClosedError"
  exactly_one (users _) = wrong_shape "NoResultFound"

  abbrev discard : Reply → Action api (Unit {0})
  discard reply = pure api tt

  -- SQLAlchemyOrganizationsRepo.create: no statement is executed yet
  unfoldable pub create_organization : Organization → Action api (Unit {0})
  create_organization org s = (
    ok tt,
    record s {
      session = api.add (record { public_id = org.public_id; name = org.name.value }) s.session;
    },
  )

  -- SQLAlchemyMembershipsRepo.create
  unfoldable pub create_membership : Membership → Action api (Unit {0})
  create_membership m =
      ◌>>=◌ api (execute (insert_membership m.public_id m.user_public_id m.org_public_id m.role))
        discard

  -- SQLAlchemyUsersRepo.get_by_auth_identity
  unfoldable pub get_by_auth_identity : (issuer subject : String) → Action api (Option User)
  get_by_auth_identity issuer subject = ◌>>=◌ api (execute (select_user issuer subject)) one_or_none

  -- SQLAlchemyUsersRepo.upsert
  unfoldable pub upsert : User → Action api (User × Bool)
  upsert user = ◌>>=◌ api (execute (upsert_stmt user)) exactly_one

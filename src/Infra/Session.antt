-- ===== src/Infra/Session.antt =====
-- SQLAlchemy's AsyncSession, which src/pet/infra/sqla uses and does not implement: the statements that
-- the repositories build, the answers that they read, and the operations of a session.
use fukawa.Prelude.{ℕ, String, Bool, Option, List}
use fukawa.Prelude.Result.{Result}
use fukawa.Domain.Name.{ValidationError}
use fukawa.Domain.Models.{PublicId, MemberRole}
use fukawa.App.Errors.{AppError}
use fukawa.Infra.Persistence.{DriverError, PersistenceError}

-- A row of the table `users`, as the ORM class carries it, without its numeric key.
pub record UserRow : Type 0 where
  pub public_id : PublicId
  pub email : String
  pub username : String
  pub first_name : Option String
  pub last_name : Option String
  pub auth_issuer : String
  pub auth_subject : String
  pub last_login_at : ℕ
  pub created_at : ℕ
  pub updated_at : ℕ

-- the ORM object of a new organization
pub record OrgRow : Type 0 where
  pub public_id : PublicId
  pub name : String

-- The columns that `on_conflict_do_update` sets.
pub record UserSet : Type 0 where
  pub username : String
  pub email : String
  pub first_name : Option String
  pub last_name : Option String
  pub last_login_at : ℕ
  pub updated_at : ℕ

-- The statements of the repositories. The two identifiers in `insert_membership` stand in scalar
-- subqueries that look up the numeric keys.
pub data Stmt : Type 0 where
  insert_membership :
      (public_id : PublicId) (user_public_id org_public_id : PublicId) (user_role : MemberRole)
      → Stmt
  select_user : (auth_issuer auth_subject : String) → Stmt
  upsert_user : (values : UserRow) (constraint : String) (set_ : UserSet) → Stmt

-- The result of a statement: the rows, and for an upsert whether each was inserted.
pub data Reply : Type 0 where
  done : Reply
  users : List UserRow → Reply
  upserted : List (UserRow × Bool) → Reply

-- What an operation of a session raises: a member of DB_OPERATION_ERRORS, or anything else.
pub data SessionError : Type 0 where
  driver : DriverError → SessionError
  foreign : String → SessionError

-- Exceptions that pass through the unit of work and the executor.
pub data Exc : Type 0 where
  persistence : PersistenceError → Exc
  validation : ValidationError → Exc
  app : AppError → Exc
  uow_not_initialized : (name : String) → Exc
  uncaught : SessionError → Exc

-- A session and the database behind it are one state.
pub record SessionApi : Type 1 where
  pub Session : Type 0
  -- session_factory()
  pub begin : Session → Session
  -- the repository factories: `some m` where one of them raises
  pub make_repos : Session → Option String
  pub add : OrgRow → Session → Session
  pub execute : Stmt → Session → Result SessionError Reply × Session
  pub commit : Session → Result SessionError (Unit {0}) × Session
  pub rollback : Session → Result SessionError (Unit {0}) × Session
  pub flush : Session → Result SessionError (Unit {0}) × Session
  pub refresh : List String → Session → Result SessionError (Unit {0}) × Session
  pub close : Session → Result SessionError (Unit {0}) × Session

-- ===== src/Infra/Persistence.antt =====
-- src/pet/infra/sqla/db/exc.py: from an error of the database driver to an error of the application.
use fukawa.Prelude.{
  ℕ, String, Bool, true, false, not, ◌&&◌, Option, none, some, List, [], ◌∷◌, ◌++◌, ◌==◌, ◌+++◌,
  or_else, if◌then◌else◌,
}
use fukawa.Prelude.Text.{is_blank}
use fukawa.Prelude.Dict.{Dict, lookup}
use fukawa.App.Errors.{
  AppError, Extra, flag, optional, other, conflict, organization_name_taken, service_unavailable,
  unprocessable_entity, internal_error,
}

-- The value of an attribute that the driver sets: a text, or something else.
pub data Attr : Type 0 where
  str : String → Attr
  opaque : (truthy : Bool) → Attr

-- An object of the driver, by the attributes that the code reads; `none` is a missing one or None.
pub record PgAttrs : Type 0 where
  pub sqlstate : Option Attr
  pub pgcode : Option Attr
  pub constraint_name : Option Attr
  pub table_name : Option Attr
  pub column_name : Option Attr

pub record PgObject : Type 0 where
  pub attrs : PgAttrs
  pub diag : Option PgAttrs

-- `err.orig` with its `__cause__` and `__context__`
pub record Orig : Type 0 where
  pub object : PgObject
  pub cause : Option PgObject
  pub context : Option PgObject

-- The classes that `determine_exc` tells apart: `dbapi_error` is any other DBAPIError,
-- `sqlalchemy_error` any other SQLAlchemyError.
pub data ErrorClass : Type 0 where
  integrity_error operational_error interface_error timeout_error : ErrorClass
  disconnection_error invalidate_pool_error dbapi_error sqlalchemy_error os_error : ErrorClass

-- DBDriverError: a member of DB_OPERATION_ERRORS; `text` is str(e)
pub record DriverError : Type 0 where
  pub error_class : ErrorClass
  pub orig : Option Orig
  pub connection_invalidated : Bool
  pub text : String

pub data PersistenceErrorKind : Type 0 where
  unique fk not_null check operational unknown other_integrity transient : PersistenceErrorKind

pub record PersistenceError : Type 0 where
  pub kind : PersistenceErrorKind
  pub title : String
  pub status_code : ℕ
  pub sqlstate : Option Attr
  pub constraint_name : Option String
  pub table_name : Option String
  pub column_name : Option String
  pub retryable : Bool
  pub cause : Option DriverError
  pub detail : Option String

abbrev present : Option PgAttrs → List PgAttrs
present none = []
present (some a) = a ∷ []

abbrev present_object : Option PgObject → List PgAttrs
present_object none = []
present_object (some o) = o.attrs ∷ present o.diag

-- _pg_error_candidates
unfoldable pub pg_error_candidates : Option Orig → List PgAttrs
pg_error_candidates none = []
pg_error_candidates (some orig) =
    present_object (some orig.object) ++ (present_object orig.cause ++ present_object orig.context)

-- the loop of _read_pg_str_attr
unfoldable pub first_text : (PgAttrs → Option Attr) → List PgAttrs → Option String
first_text attr [] = none
first_text attr (c ∷ rest) = elim (attr c) [
  | some (str value) ↦ some value
  | _ ↦ first_text attr rest
]

unfoldable pub read_pg_str_attr : DriverError → (PgAttrs → Option Attr) → Option String
unfolding pg_error_candidates first_text
read_pg_str_attr err attr = first_text attr (pg_error_candidates err.orig)

abbrev pub is_truthy : Option Attr → Bool
is_truthy none = false
is_truthy (some (str s)) = not (is_blank s)
is_truthy (some (opaque t)) = t

abbrev sqlstate_of : Option Orig → Option Attr
sqlstate_of none = none
sqlstate_of (some orig) =
    let a = orig.object.attrs in if is_truthy a.sqlstate then a.sqlstate else a.pgcode

-- pg_sqlstate_from_integrity and pg_sqlstate_from_dbapi, which have one body
unfoldable pub pg_sqlstate : DriverError → Option Attr
pg_sqlstate err = sqlstate_of err.orig

abbrev kind_map : Dict PersistenceErrorKind
kind_map =
    ("23505", PersistenceErrorKind.unique)
    ∷ ("23503", PersistenceErrorKind.fk)
    ∷ ("23502", PersistenceErrorKind.not_null)
    ∷ ("23514", PersistenceErrorKind.check)
    ∷ []

unfoldable pub integrity_kind : Option Attr → PersistenceErrorKind
integrity_kind (some (str sqlstate)) =
    or_else (lookup sqlstate kind_map) PersistenceErrorKind.unknown
integrity_kind _ = PersistenceErrorKind.unknown

-- A PersistenceError with the defaults of the dataclass.
abbrev persistence_error :
    PersistenceErrorKind → String → Option Attr → Bool → DriverError → PersistenceError
persistence_error kind title sqlstate retryable e = record {
  kind = kind;
  title = title;
  status_code = 503;
  sqlstate = sqlstate;
  constraint_name = none;
  table_name = none;
  column_name = none;
  retryable = retryable;
  cause = some e;
  detail = none;
}

-- the two tests that follow the named SQLAlchemy classes
abbrev determine_other : DriverError → (is_dbapi is_os : Bool) → PersistenceError
determine_other e is_dbapi is_os =
    if is_dbapi && e.connection_invalidated
    then persistence_error PersistenceErrorKind.transient "db_connection_invalidated"
        (sqlstate_of e.orig) true e
    else if is_os
    then persistence_error PersistenceErrorKind.operational "db_unavailable" none true e
    else persistence_error PersistenceErrorKind.unknown "db_error" none false e

abbrev determine_transient : DriverError → PersistenceError
determine_transient e =
    persistence_error PersistenceErrorKind.transient "db_transient" (sqlstate_of e.orig) true e

abbrev determine_as : ErrorClass → DriverError → PersistenceError
unfolding read_pg_str_attr pg_sqlstate integrity_kind
determine_as integrity_error e = record {
  kind = integrity_kind (pg_sqlstate e);
  title = "db_integrity";
  status_code = 503;
  sqlstate = pg_sqlstate e;
  constraint_name = read_pg_str_attr e (λ a. a.constraint_name);
  table_name = read_pg_str_attr e (λ a. a.table_name);
  column_name = read_pg_str_attr e (λ a. a.column_name);
  retryable = false;
  cause = some e;
  detail = none;
}
determine_as operational_error e =
    persistence_error PersistenceErrorKind.operational "db_unavailable" (sqlstate_of e.orig) true e
determine_as interface_error e = determine_transient e
determine_as timeout_error e = determine_transient e
determine_as disconnection_error e = determine_transient e
determine_as invalidate_pool_error e = determine_transient e
determine_as dbapi_error e = determine_other e true false
determine_as sqlalchemy_error e = determine_other e false false
determine_as os_error e = determine_other e false true

unfoldable pub determine_exc : DriverError → PersistenceError
unfolding read_pg_str_attr pg_sqlstate integrity_kind
determine_exc e = determine_as e.error_class e

abbrev attr_extra : Option Attr → Extra
attr_extra none = optional none
attr_extra (some (str s)) = optional (some s)
attr_extra (some (opaque t)) = other t

abbrev cause_text : Option DriverError → Option String
cause_text none = none
cause_text (some e) = some e.text

abbrev extra_of : PersistenceError → Dict Extra
extra_of error =
    ("retryable", flag error.retryable)
    ∷ ("cause", optional (cause_text error.cause))
    ∷ ("constraint_name", optional error.constraint_name)
    ∷ ("table_name", optional error.table_name)
    ∷ ("column_name", optional error.column_name)
    ∷ []

-- {**extra, "sqlstate": error.sqlstate}
abbrev extra_with_sqlstate : PersistenceError → Dict Extra
extra_with_sqlstate error = extra_of error ++ ("sqlstate", attr_extra error.sqlstate) ∷ []

-- `error.column_name or "field"`
abbrev field_name : Option String → String
field_name none = "field"
field_name (some c) = if is_blank c then "field" else c

abbrev is_name : Option String → String → Bool
is_name none name = false
is_name (some c) name = c == name

abbrev translate_as : PersistenceErrorKind → PersistenceError → AppError
unfolding conflict organization_name_taken service_unavailable unprocessable_entity internal_error
translate_as PersistenceErrorKind.unique error =
    if is_name error.constraint_name "uq_organizations_name_canonical"
    then organization_name_taken none (extra_of error)
    else conflict (some "Resource already exists") (extra_of error)
translate_as PersistenceErrorKind.fk error =
    unprocessable_entity (some "Referenced resource does not exist") (extra_of error)
translate_as PersistenceErrorKind.check error =
    unprocessable_entity (some "Stored value violates validation rules") (extra_of error)
translate_as PersistenceErrorKind.not_null error =
    unprocessable_entity
      (some ("Field \"" +++ (field_name error.column_name +++ "\" cannot be null")))
      (extra_of error)
translate_as PersistenceErrorKind.operational error =
    service_unavailable (some "Temporary service outage") (extra_with_sqlstate error)
translate_as PersistenceErrorKind.transient error =
    service_unavailable (some "Temporary service outage") (extra_with_sqlstate error)
translate_as PersistenceErrorKind.unknown error =
    internal_error (some "Unexpected error") (extra_with_sqlstate error)
translate_as PersistenceErrorKind.other_integrity error =
    internal_error (some "Unexpected error") (extra_with_sqlstate error)

unfoldable pub translate_db_error : PersistenceError → AppError
unfolding conflict organization_name_taken service_unavailable unprocessable_entity internal_error
translate_db_error error = translate_as error.kind error

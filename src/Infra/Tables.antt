-- ===== src/Infra/Tables.antt =====
-- The constructs of SQLAlchemy that src/pet/infra/sqla/db/models.py and the migrations under alembic/
-- describe tables with. A default is the SQL text that it is rendered to: `func.now()` and
-- `sa.text("now()")` are both `now()`.
pub mod Models
pub mod Naming
pub mod Catalog
pub mod Migration
pub mod Replay
pub mod ByName
pub mod Frame
pub mod Upgrade
pub mod Uses
use fukawa.Prelude.{ℕ, String, Bool, List, [], ◌∷◌, ◌++◌, map}

pub data SqlType : Type 0 where
  big_integer : SqlType
  text : SqlType
  uuid : SqlType
  date_time_tz : SqlType
  varchar : ℕ → SqlType
  enum : (name : String) (labels : List String) → SqlType

pub data Default : Type 0 where
  no_default : Default
  identity : (start : ℕ) → Default
  computed : String → Default
  server_default : String → Default

pub record Column : Type 0 where
  pub name : String
  pub sql_type : SqlType
  pub default : Default
  pub nullable : Bool

pub data OnDelete : Type 0 where
  cascade : OnDelete
  set_null : OnDelete

pub data Rule : Type 0 where
  primary_key : (columns : List String) → Rule
  unique_key : (columns : List String) → Rule
  check : (condition : String) → Rule
  foreign_key : (column referred_table referred_column : String) → OnDelete → Rule

pub record Constraint : Type 0 where
  pub name : String
  pub rule : Rule

pub record Table : Type 0 where
  pub name : String
  pub columns : List Column
  pub constraints : List Constraint

pub record Index : Type 0 where
  pub name : String
  pub table : String
  pub columns : List String
  pub unique : Bool

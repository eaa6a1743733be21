-- ===== src/Infra/Tables/Catalog.antt =====
-- What alembic/versions/ relies on in the database: the catalog that data definition statements change,
-- as PostgreSQL documents them.
use fukawa.Prelude.{
  String, Bool, false, not, ◌&&◌, ◌||◌, ◌≡◌, Option, none, some, List, [], ◌∷◌, ◌++◌, map, any, all,
  keep, contains, has_duplicates, if◌then◌else◌, ◌==◌,
}
use mathlib.Core.Option
use fukawa.Infra.Tables.{
  big_integer, text, uuid, date_time_tz, varchar, enum, Column, primary_key, unique_key, check,
  foreign_key, Constraint, Table, Index,
}

-- The newest entry comes first.
pub record Catalog : Type 0 where
  pub tables : List Table
  pub indexes : List Index
  pub enums : List (String × List String)

-- the calls of `op`
pub data Operation : Type 0 where
  create_table : Table → Operation
  create_index : Index → Operation
  drop_index : (name table_name : String) → Operation
  drop_table : (name : String) → Operation

-- the names that the keys of a table give to the indexes under them
abbrev key_names : List Constraint → List String
key_names [] = []
key_names (c ∷ cs) =
    let rest = key_names cs in
    elim c.rule [
      | primary_key _ ↦ c.name ∷ rest
      | unique_key _ ↦ c.name ∷ rest
      | check _ ↦ rest
      | foreign_key _ _ _ _ ↦ rest
    ]

abbrev pub enums_of : List Column → List (String × List String)
enums_of [] = []
enums_of (c ∷ cs) =
    let rest = enums_of cs in
    elim c.sql_type [
      | enum name labels ↦ (name, labels) ∷ rest
      | big_integer ↦ rest
      | text ↦ rest
      | uuid ↦ rest
      | date_time_tz ↦ rest
      | varchar _ ↦ rest
    ]

-- the tables that foreign keys refer to
abbrev pub referred : List Constraint → List String
referred [] = []
referred (c ∷ cs) =
    let rest = referred cs in
    elim c.rule [
      | foreign_key _ table _ _ ↦ table ∷ rest
      | primary_key _ ↦ rest
      | unique_key _ ↦ rest
      | check _ ↦ rest
    ]

abbrev pub enum_names : List Column → List String
enum_names cs = map (λ (e : String × List String). e.0) (enums_of cs)

abbrev pub relation_names : Table → List String
relation_names t = t.name ∷ key_names t.constraints

-- Tables and indexes share one space of names.
abbrev pub has_relation : Catalog → String → Bool
has_relation c n =
    any (λ t. contains (relation_names t) n) c.tables || any (λ (i : Index). i.name == n) c.indexes

abbrev pub has_enum : Catalog → String → Bool
has_enum c n = any (λ e. e.0 == n) c.enums

abbrev pub has_table : List Table → String → Bool
has_table ts n = any (λ (t : Table). t.name == n) ts

abbrev pub refers_to : (name : String) → Table → Bool
refers_to name t = contains (referred t.constraints) name

abbrev pub without_table : (name : String) → List Table → List Table
without_table name ts = keep (λ (t : Table). not (t.name == name)) ts

-- the statements that go through
abbrev pub is_possible : Operation → Catalog → Bool
is_possible (create_table t) c =
    all (λ n. not (has_relation c n)) (relation_names t)
    && (all (λ n. not (has_enum c n)) (enum_names t.columns)
        && (not (has_duplicates (relation_names t))
            && all (has_table (t ∷ c.tables)) (referred t.constraints)))
is_possible (create_index i) c = not (has_relation c i.name) && has_table c.tables i.table
is_possible (drop_index name _) c = any (λ (i : Index). i.name == name) c.indexes
is_possible (drop_table name) c =
    has_table c.tables name && not (any (refers_to name) (without_table name c.tables))

-- What they leave: the types of the enum columns are created with their table, and stay when it is
-- dropped. The indexes of a table are dropped with it.
abbrev pub after : Operation → Catalog → Catalog
after (create_table t) c = record c { tables = t ∷ c.tables; enums = enums_of t.columns ++ c.enums }
after (create_index i) c = record c { indexes = i ∷ c.indexes }
after (drop_index name _) c = record c {
  indexes = keep (λ (i : Index). not (i.name == name)) c.indexes;
}
after (drop_table name) c = record c {
  tables = without_table name c.tables;
  indexes = keep (λ (i : Index). not (i.table == name)) c.indexes;
}

abbrev pub applied : Operation → Catalog → Option Catalog
applied op c = if is_possible op c then some (after op c) else none

-- A catalog whose foreign keys and indexes are those of its tables.
pub record IsClosed (c : Catalog) : Type 0 where
  pub references :
      (name : String) → has_table c.tables name ≡ false → any (refers_to name) c.tables ≡ false
  pub indexes :
      (name : String)
      → has_table c.tables name ≡ false
      → any (λ (i : Index). i.table == name) c.indexes ≡ false

-- A database under a migration: `none` is a statement that raises.
pub record Database : Type 1 where
  pub Schema : Type 0
  pub catalog : Schema → Catalog
  pub execute : Operation → Schema → Option Schema

-- What is documented of it: a statement goes through where it is possible, and changes the catalog so.
pub record IsDocumented (db : Database) : Type 0 where
  pub executes :
      (op : Operation) (s : db.Schema)
      → Option.map db.catalog (db.execute op s) ≡ applied op (db.catalog s)

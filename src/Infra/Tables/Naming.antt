-- ===== src/Infra/Tables/Naming.antt =====
-- src/pet/infra/sqla/db/base.py: the tables, constraints and indexes that the metadata describes by the
-- mapped classes, with the names that the convention gives them.
use fukawa.Prelude.{
  String, Option, none, some, List, [], ◌∷◌, ◌++◌, map, ◌+++◌, if◌then◌else◌, false,
}
use fukawa.Infra.Tables.{primary_key, unique_key, check, foreign_key, Constraint, Table, Index}
use fukawa.Infra.Tables.Models.{
  Reference, MappedColumn, TableArg, unique_arg, check_arg, index_arg, Model,
}

-- NAMING_CONVENTION: the names of the constraints that have none, and of the checks
abbrev pub pk_name : (table : String) → String
pk_name table = "pk_" +++ table

abbrev pub uq_name : (table column : String) → String
uq_name table column = "uq_" +++ (table +++ ("_" +++ column))

abbrev pub ck_name : (table constraint : String) → String
ck_name table constraint = "ck_" +++ (table +++ ("_" +++ constraint))

abbrev pub fk_name : (table column referred : String) → String
fk_name table column referred = "fk_" +++ (table +++ ("_" +++ (column +++ ("_" +++ referred))))

abbrev primary_keys : List MappedColumn → List String
primary_keys [] = []
primary_keys (c ∷ cs) =
    let rest = primary_keys cs in if c.is_primary_key then c.column.name ∷ rest else rest

module _ (table : String) where
  abbrev uniques : List MappedColumn → List Constraint
  uniques [] = []
  uniques (c ∷ cs) =
      let rest = uniques cs in
      if c.is_unique
      then record { name = uq_name table c.column.name; rule = unique_key (c.column.name ∷ []) }
        ∷ rest
      else rest

  abbrev referring_to : (column : String) → Option Reference → List Constraint
  referring_to column none = []
  referring_to column (some r) =
      record {
        name = fk_name table column r.table;
        rule = foreign_key column r.table r.column r.on_delete;
      }
      ∷ []

  abbrev references : List MappedColumn → List Constraint
  references [] = []
  references (c ∷ cs) = referring_to c.column.name c.reference ++ references cs

  abbrev arg_constraints : List TableArg → List Constraint
  arg_constraints [] = []
  arg_constraints (unique_arg columns name ∷ args) =
      record { name = name; rule = unique_key columns } ∷ arg_constraints args
  arg_constraints (check_arg condition name ∷ args) =
      record { name = ck_name table name; rule = check condition } ∷ arg_constraints args
  arg_constraints (index_arg _ _ ∷ args) = arg_constraints args

  abbrev arg_indexes : List TableArg → List Index
  arg_indexes [] = []
  arg_indexes (index_arg name column ∷ args) =
      record { name = name; table = table; columns = column ∷ []; unique = false }
      ∷ arg_indexes args
  arg_indexes (unique_arg _ _ ∷ args) = arg_indexes args
  arg_indexes (check_arg _ _ ∷ args) = arg_indexes args

-- what Base.metadata holds of a mapped class
abbrev pub table_of : Model → Table
table_of m = record {
  name = m.tablename;
  columns = map (λ (c : MappedColumn). c.column) m.columns;
  constraints =
      record { name = pk_name m.tablename; rule = primary_key (primary_keys m.columns) }
      ∷ (uniques m.tablename m.columns
          ++ (references m.tablename m.columns ++ arg_constraints m.tablename m.table_args));
}

abbrev pub indexes_of : Model → List Index
indexes_of m = arg_indexes m.tablename m.table_args

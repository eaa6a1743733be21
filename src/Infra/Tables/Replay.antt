-- ===== src/Infra/Tables/Replay.antt =====
-- A sequence of data definition statements on a database, and on its catalog alone.
use fukawa.Prelude.{
  String, Bool, not, ◌&&◌, ◌≡◌, refl, Option, none, some, List, [], ◌∷◌, arith, all, Option-cases,
  inl, inr,
}
use mathlib.Core.Option
use fukawa.Infra.Tables.Catalog.{
  Catalog, Operation, create_table, create_index, drop_index, drop_table, Database, IsDocumented,
  applied, has_relation, has_enum, enum_names, relation_names,
}

-- the statements of a migration, until one raises
unfoldable pub replay : (db : Database) → List Operation → db.Schema → Option db.Schema
replay db [] s = some s
replay db (op ∷ ops) s = elim (db.execute op s) [ none ↦ none | some t ↦ replay db ops t ]

-- the same statements, on the catalog alone
unfoldable pub applied_all : List Operation → Catalog → Option Catalog
applied_all [] c = some c
applied_all (op ∷ ops) c = elim (applied op c) [ none ↦ none | some d ↦ applied_all ops d ]

-- Any sequence of statements changes the catalog of a documented database as it changes the catalog
-- alone, and raises on the one exactly when it raises on the other.
pub replay_refines :
    (db : Database) (ops : List Operation) (s : db.Schema)
    → IsDocumented db
    → Option.map db.catalog (replay db ops s) ≡ applied_all ops (db.catalog s)
unfolding replay applied_all
replay_refines db [] s doc = refl
replay_refines db (op ∷ ops) s doc =
    let law : Option.map db.catalog (db.execute op s) ≡ applied op (db.catalog s) =
      doc.executes op s in
    elim (Option-cases (db.execute op s)) [
      | inl e ↦ ground (arith, law, e)
      | inr (t, e) ↦ ground (arith, law, e, replay_refines db ops t doc)
    ]

-- the names of relations and of types that a statement speaks of
abbrev pub relations_of : Operation → List String
relations_of (create_table t) = relation_names t
relations_of (create_index i) = i.name ∷ []
relations_of (drop_index name _) = name ∷ []
relations_of (drop_table name) = name ∷ []

abbrev pub types_of : Operation → List String
types_of (create_table t) = enum_names t.columns
types_of (create_index _) = []
types_of (drop_index _ _) = []
types_of (drop_table _) = []

-- The names that the statement speaks of are free in the catalog.
abbrev pub is_apart : Catalog → Operation → Bool
is_apart c op =
    all (λ n. not (has_relation c n)) (relations_of op)
    && all (λ n. not (has_enum c n)) (types_of op)

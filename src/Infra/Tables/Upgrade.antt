-- ===== src/Infra/Tables/Upgrade.antt =====
-- alembic/versions/03f03ad6f039_init.py and src/pet/infra/sqla/db/models.py: what the first migration
-- makes of a database, against the metadata of the mapped classes.
use fukawa.Prelude.{
  String, true, ◌≡◌, refl, ◌∙◌, none, some, List, [], ◌∷◌, ◌++◌, arith, all, Option-cases, inl, inr,
  all-append_left,
}
use mathlib.Core.List.{Perm, reverse}
use fukawa.Infra.Tables.{Constraint, Table, Index}
use fukawa.Infra.Tables.Models.{
  Model, sorted_tables, organization_model, user_model, membership_model, project_model, task_model,
}
use fukawa.Infra.Tables.Naming.{table_of, indexes_of}
use fukawa.Infra.Tables.Catalog.{Catalog, Operation, Database, IsDocumented, IsClosed, enums_of}
use fukawa.Infra.Tables.Migration.{
  organizations_table, users_table, memberships_table, projects_table, tasks_table, plain_index,
  upgrade, downgrade,
}
use fukawa.Infra.Tables.ByName.{sort_by_name, perm-sort_by_name}
use fukawa.Infra.Tables.Replay.{replay, replay_refines, applied_all, is_apart}
use fukawa.Infra.Tables.Frame.{beside, applied_all-beside, applied_all-none, applied_all-append}

-- A table of the catalog is the one that the metadata describes, its constraints in any order.
pub record IsTableOf (m : Model) (t : Table) : Type 0 where
  pub name : t.name ≡ m.tablename
  pub columns : t.columns ≡ (table_of m).columns
  pub constraints : Perm t.constraints (table_of m).constraints

abbrev pub AreTablesOf : List Model → List Table → Type 0
AreTablesOf [] [] = Unit
AreTablesOf (m ∷ ms) (t ∷ ts) = IsTableOf m t × AreTablesOf ms ts
AreTablesOf [] (_ ∷ _) = ⊥
AreTablesOf (_ ∷ _) [] = ⊥

abbrev all_indexes : List Model → List Index
all_indexes [] = []
all_indexes (m ∷ ms) = indexes_of m ++ all_indexes ms

abbrev all_enums : List Model → List (String × List String)
all_enums [] = []
all_enums (m ∷ ms) = enums_of (table_of m).columns ++ all_enums ms

-- A catalog that holds the tables of the metadata, made in its order, its indexes and its types, and
-- nothing else.
pub record IsMetadata (c : Catalog) : Type 0 where
  pub tables : AreTablesOf sorted_tables (reverse c.tables)
  pub indexes : Perm c.indexes (all_indexes sorted_tables)
  pub enums : Perm c.enums (all_enums sorted_tables)

-- A catalog in which the names are free that the migration takes.
pub record HasRoom (c : Catalog) : Type 0 where
  pub apart : all (is_apart c) (upgrade ++ downgrade) ≡ true
  pub closed : IsClosed c

abbrev empty : Catalog
empty = record { tables = []; indexes = []; enums = [] }

-- the types of the migration
abbrev pub new_enums : List (String × List String)
new_enums =
    ("task_status", "todo" ∷ "doing" ∷ "done" ∷ [])
    ∷ ("org_role", "owner" ∷ "admin" ∷ "member" ∷ [])
    ∷ []

abbrev made : Catalog
made = record {
  tables =
      tasks_table ∷ projects_table ∷ memberships_table ∷ users_table ∷ organizations_table ∷ [];
  indexes =
      plain_index "ix_tasks_status" "tasks" "status"
      ∷ plain_index "ix_tasks_project_id" "tasks" "project_id"
      ∷ plain_index "ix_tasks_assignee_user_id" "tasks" "assignee_user_id"
      ∷ plain_index "ix_memberships_org_id" "memberships" "org_id"
      ∷ [];
  enums = new_enums;
}

upgrade_on_empty : applied_all upgrade empty ≡ some made
unfolding upgrade applied_all
upgrade_on_empty = refl

abbrev dropped : Catalog
dropped = record empty { enums = new_enums }

downgrade_on_empty : applied_all (upgrade ++ downgrade) empty ≡ some dropped
unfolding upgrade downgrade applied_all
downgrade_on_empty = refl

is_table_of :
    (m : Model) (t : Table)
    → t.name ≡ m.tablename
    → t.columns ≡ (table_of m).columns
    → sort_by_name (λ (c : Constraint). c.name) t.constraints
      ≡ sort_by_name (λ (c : Constraint). c.name) (table_of m).constraints
    → IsTableOf m t
is_table_of m t n c k = record {
  name = n;
  columns = c;
  constraints = perm-sort_by_name (λ (c : Constraint). c.name) k;
}

made-IsMetadata : IsMetadata made
unfolding sorted_tables sort_by_name
made-IsMetadata = record {
  tables = (
    is_table_of organization_model organizations_table refl refl refl,
    (
      is_table_of user_model users_table refl refl refl,
      (
        is_table_of membership_model memberships_table refl refl refl,
        (
          is_table_of project_model projects_table refl refl refl,
          (is_table_of task_model tasks_table refl refl refl, tt),
        ),
      ),
    ),
  );
  indexes = perm-sort_by_name (λ (i : Index). i.name) refl;
  enums = perm-sort_by_name (λ (e : String × List String). e.0) refl;
}

module _ (db : Database) (s : db.Schema) (doc : IsDocumented db)
    (room : HasRoom (db.catalog s)) where
  replayed :
      (ops : List Operation) (c : Catalog)
      → applied_all ops (db.catalog s) ≡ some c
      → (t : db.Schema) × (replay db ops s ≡ some t) × (db.catalog t ≡ c)
  replayed ops c h = elim (Option-cases (replay db ops s)) [
    | inl e ↦ absurd (ground (arith, replay_refines db ops s doc))
    | inr (t, e) ↦ (t, e, ground (arith, replay_refines db ops s doc))
  ]

  -- On a documented database whose catalog has room for it, `upgrade` goes through and adds the
  -- tables, the indexes and the types that the metadata of the mapped classes describes, up to the
  -- order of constraints, indexes and types, and nothing else.
  pub upgrade-IsMetadata :
      (t : db.Schema) × (new : Catalog) × (replay db upgrade s ≡ some t)
      × (db.catalog t ≡ beside new (db.catalog s))
      × IsMetadata new
  upgrade-IsMetadata =
      let run : applied_all upgrade (db.catalog s) ≡ some (beside made (db.catalog s)) =
        applied_all-beside upgrade empty made (db.catalog s) room.closed
          (all-append_left (is_apart (db.catalog s)) upgrade downgrade room.apart)
          upgrade_on_empty in
      let (t, goes, is) = replayed upgrade _ run in (t, made, goes, is, made-IsMetadata)

  gone_again :
      applied_all (upgrade ++ downgrade) (db.catalog s) ≡ some (beside dropped (db.catalog s))
  gone_again =
      applied_all-beside (upgrade ++ downgrade) empty dropped (db.catalog s) room.closed room.apart
        downgrade_on_empty

  -- On such a database `downgrade` goes through after `upgrade` and brings the tables and the indexes
  -- back to what they were; of the migration the two types of its enumerations stay.
  pub upgrade-downgrade :
      (t : db.Schema) × (replay db (upgrade ++ downgrade) s ≡ some t)
      × (db.catalog t ≡ record (db.catalog s) { enums = new_enums ++ (db.catalog s).enums })
  upgrade-downgrade = replayed (upgrade ++ downgrade) _ gone_again

  -- On such a database a second `upgrade`, after `upgrade` and `downgrade`, raises.
  pub upgrade_again : replay db ((upgrade ++ downgrade) ++ upgrade) s ≡ none
  unfolding upgrade
  upgrade_again =
      let end : applied_all ((upgrade ++ downgrade) ++ upgrade) (db.catalog s) ≡ none =
        applied_all-append (upgrade ++ downgrade) upgrade _ _ gone_again
        ∙ applied_all-none upgrade (beside dropped (db.catalog s)) "org_role" refl refl in
      elim (Option-cases (replay db ((upgrade ++ downgrade) ++ upgrade) s)) [
        | inl e ↦ e
        | inr (t, e) ↦
            absurd
              (ground (arith, end, replay_refines db ((upgrade ++ downgrade) ++ upgrade) s doc))
      ]

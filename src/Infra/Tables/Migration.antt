-- ===== src/Infra/Tables/Migration.antt =====
-- alembic/versions/03f03ad6f039_init.py: the first migration, as the calls of `op` that it makes.
use fukawa.Prelude.{String, Bool, true, false, List, [], ◌∷◌}
use fukawa.Infra.Tables.{
  SqlType, big_integer, text, uuid, date_time_tz, varchar, enum, Default, no_default, identity,
  computed, server_default, Column, cascade, set_null, Rule, primary_key, unique_key, check,
  foreign_key, Constraint, Table, Index,
}
use fukawa.Infra.Tables.Catalog.{Operation, create_table, create_index, drop_index, drop_table}

-- `revision`
abbrev pub revision : String
revision = "03f03ad6f039"

abbrev column : (name : String) → SqlType → Default → (nullable : Bool) → Column
column name sql_type default nullable = record {
  name = name;
  sql_type = sql_type;
  default = default;
  nullable = nullable;
}

abbrev named : (name : String) → Rule → Constraint
named name rule = record { name = name; rule = rule }

-- the four columns that each table ends with
abbrev last_columns : List Column
last_columns =
    column "id" big_integer (identity 1) false
    ∷ column "public_id" uuid no_default false
    ∷ column "created_at" date_time_tz (server_default "now()") false
    ∷ column "updated_at" date_time_tz (server_default "now()") false
    ∷ []

-- an index on one column that is not unique
abbrev pub plain_index : (name table column : String) → Index
plain_index name table column = record {
  name = name;
  table = table;
  columns = column ∷ [];
  unique = false;
}

abbrev pub organizations_table : Table
organizations_table = record {
  name = "organizations";
  columns =
      column "name" (varchar 64) no_default false
      ∷ column "name_canonical" text
          (computed "normalize(casefold(normalize(name, NFC) COLLATE \"pg_unicode_fast\"), NFC)")
          false
      ∷ last_columns;
  constraints =
      named "ck_organizations_name_min_len" (check "char_length(name) >= 3")
      ∷ named "ck_organizations_name_casefold_max_len" (
          check
            "char_length(normalize(casefold(normalize(name, NFC) COLLATE \"pg_unicode_fast\"), NFC)) <= 64")
      ∷ named "ck_organizations_name_trimmed" (check "name = btrim(name)")
      ∷ named "ck_organizations_name_nfc_normalized" (check "name IS NFC NORMALIZED")
      ∷ named "pk_organizations" (primary_key ("id" ∷ []))
      ∷ named "uq_organizations_name_canonical" (unique_key ("name_canonical" ∷ []))
      ∷ named "uq_organizations_public_id" (unique_key ("public_id" ∷ []))
      ∷ [];
}

abbrev pub users_table : Table
users_table = record {
  name = "users";
  columns =
      column "username" text no_default false
      ∷ column "first_name" (varchar 128) no_default true
      ∷ column "last_name" (varchar 128) no_default true
      ∷ column "email" text no_default false
      ∷ column "auth_issuer" text no_default false
      ∷ column "auth_subject" text no_default false
      ∷ column "last_login_at" date_time_tz no_default false
      ∷ last_columns;
  constraints =
      named "pk_users" (primary_key ("id" ∷ []))
      ∷ named "uq_users_auth_subject_auth_issuer" (unique_key ("auth_subject" ∷ "auth_issuer" ∷ []))
      ∷ named "uq_users_public_id" (unique_key ("public_id" ∷ []))
      ∷ [];
}

abbrev pub memberships_table : Table
memberships_table = record {
  name = "memberships";
  columns =
      column "user_id" big_integer no_default false
      ∷ column "org_id" big_integer no_default false
      ∷ column "user_role" (enum "org_role" ("owner" ∷ "admin" ∷ "member" ∷ []))
          (server_default "'member'") false
      ∷ last_columns;
  constraints =
      named "fk_memberships_org_id_organizations"
        (foreign_key "org_id" "organizations" "id" cascade)
      ∷ named "fk_memberships_user_id_users" (foreign_key "user_id" "users" "id" cascade)
      ∷ named "pk_memberships" (primary_key ("id" ∷ []))
      ∷ named "uq_memberships_public_id" (unique_key ("public_id" ∷ []))
      ∷ named "uq_memberships_org_user" (unique_key ("user_id" ∷ "org_id" ∷ []))
      ∷ [];
}

abbrev pub projects_table : Table
projects_table = record {
  name = "projects";
  columns =
      column "name" (varchar 320) no_default false
      ∷ column "org_id" big_integer no_default false
      ∷ last_columns;
  constraints =
      named "fk_projects_org_id_organizations" (foreign_key "org_id" "organizations" "id" cascade)
      ∷ named "pk_projects" (primary_key ("id" ∷ []))
      ∷ named "uq_projects_org_name" (unique_key ("org_id" ∷ "name" ∷ []))
      ∷ named "uq_projects_public_id" (unique_key ("public_id" ∷ []))
      ∷ [];
}

abbrev pub tasks_table : Table
tasks_table = record {
  name = "tasks";
  columns =
      column "name" (varchar 320) no_default false
      ∷ column "project_id" big_integer no_default false
      ∷ column "assignee_user_id" big_integer no_default true
      ∷ column "status" (enum "task_status" ("todo" ∷ "doing" ∷ "done" ∷ []))
          (server_default "'todo'") false
      ∷ last_columns;
  constraints =
      named "fk_tasks_assignee_user_id_users" (foreign_key "assignee_user_id" "users" "id" set_null)
      ∷ named "fk_tasks_project_id_projects" (foreign_key "project_id" "projects" "id" cascade)
      ∷ named "pk_tasks" (primary_key ("id" ∷ []))
      ∷ named "uq_tasks_public_id" (unique_key ("public_id" ∷ []))
      ∷ [];
}

unfoldable pub upgrade : List Operation
upgrade =
    create_table organizations_table
    ∷ create_table users_table
    ∷ create_table memberships_table
    ∷ create_index (plain_index "ix_memberships_org_id" "memberships" "org_id")
    ∷ create_table projects_table
    ∷ create_table tasks_table
    ∷ create_index (plain_index "ix_tasks_assignee_user_id" "tasks" "assignee_user_id")
    ∷ create_index (plain_index "ix_tasks_project_id" "tasks" "project_id")
    ∷ create_index (plain_index "ix_tasks_status" "tasks" "status")
    ∷ []

unfoldable pub downgrade : List Operation
downgrade =
    drop_index "ix_tasks_status" "tasks"
    ∷ drop_index "ix_tasks_project_id" "tasks"
    ∷ drop_index "ix_tasks_assignee_user_id" "tasks"
    ∷ drop_table "tasks"
    ∷ drop_table "projects"
    ∷ drop_index "ix_memberships_org_id" "memberships"
    ∷ drop_table "memberships"
    ∷ drop_table "users"
    ∷ drop_table "organizations"
    ∷ []

-- ===== src/Infra/Tables/Models.antt =====
-- src/pet/infra/sqla/db/models.py: the mapped classes. Relationships of the ORM are left out.
use fukawa.Prelude.{String, Bool, true, false, Option, none, some, List, [], ◌∷◌, ◌++◌, ◌+++◌}
use fukawa.Prelude.Text.Decimal.{decimal}
use fukawa.Domain.Name.{org_name_min_len, org_name_max_len}
use fukawa.Infra.Tables.{
  SqlType, big_integer, text, uuid, date_time_tz, varchar, enum, Default, no_default, identity,
  computed, server_default, Column, OnDelete, cascade, set_null,
}

-- sa.ForeignKey(f"{table}.{column}", ondelete=on_delete)
pub record Reference : Type 0 where
  pub table : String
  pub column : String
  pub on_delete : OnDelete

-- mapped_column
pub record MappedColumn : Type 0 where
  pub column : Column
  pub is_primary_key : Bool
  pub is_unique : Bool
  pub reference : Option Reference

-- an entry of `__table_args__`
pub data TableArg : Type 0 where
  unique_arg : (columns : List String) (name : String) → TableArg
  check_arg : (condition name : String) → TableArg
  index_arg : (name column : String) → TableArg

pub record Model : Type 0 where
  pub tablename : String
  pub columns : List MappedColumn
  pub table_args : List TableArg

abbrev plain : (name : String) → SqlType → Default → (nullable : Bool) → MappedColumn
plain name sql_type default nullable = record {
  column = record { name = name; sql_type = sql_type; default = default; nullable = nullable };
  is_primary_key = false;
  is_unique = false;
  reference = none;
}

-- a column of type BigInteger that refers to the column `id` of a table
abbrev referring : (name table : String) → OnDelete → (nullable : Bool) → MappedColumn
referring name table on_delete nullable = record (plain name big_integer no_default nullable) {
  reference = some (record { table = table; column = "id"; on_delete = on_delete });
}

-- IdMixin
abbrev pub id_mixin : List MappedColumn
id_mixin =
    record (plain "id" big_integer (identity 1) false) { is_primary_key = true }
    ∷ record (plain "public_id" uuid no_default false) { is_unique = true }
    ∷ []

-- TimestampMixin
abbrev pub timestamp_mixin : List MappedColumn
timestamp_mixin =
    plain "created_at" date_time_tz (server_default "now()") false
    ∷ plain "updated_at" date_time_tz (server_default "now()") false
    ∷ []

-- A class's own columns come before those of its mixins.
abbrev mapped : (tablename : String) → List MappedColumn → List TableArg → Model
mapped tablename own table_args = record {
  tablename = tablename;
  columns = own ++ (id_mixin ++ timestamp_mixin);
  table_args = table_args;
}

-- ORG_NAME_CANONICAL_SQL
abbrev pub org_name_canonical_sql : String
org_name_canonical_sql =
    "normalize(casefold(normalize(name, NFC) COLLATE \"pg_unicode_fast\"), NFC)"

-- OrgRole
abbrev pub org_role : SqlType
org_role = enum "org_role" ("owner" ∷ "admin" ∷ "member" ∷ [])

-- TaskStatus
abbrev pub task_status : SqlType
task_status = enum "task_status" ("todo" ∷ "doing" ∷ "done" ∷ [])

-- User
abbrev pub user_model : Model
user_model =
    mapped "users"
      (plain "username" text no_default false
        ∷ plain "first_name" (varchar 128) no_default true
        ∷ plain "last_name" (varchar 128) no_default true
        ∷ plain "email" text no_default false
        ∷ plain "auth_issuer" text no_default false
        ∷ plain "auth_subject" text no_default false
        ∷ plain "last_login_at" date_time_tz no_default false
        ∷ [])
      (unique_arg ("auth_subject" ∷ "auth_issuer" ∷ []) "uq_users_auth_subject_auth_issuer" ∷ [])

-- Organization
unfoldable pub organization_model : Model
unfolding decimal
organization_model =
    mapped "organizations"
      (plain "name" (varchar org_name_max_len) no_default false
        ∷ plain "name_canonical" text (computed org_name_canonical_sql) false
        ∷ [])
      (unique_arg ("name_canonical" ∷ []) "uq_organizations_name_canonical"
        ∷ check_arg "name = btrim(name)" "name_trimmed"
        ∷ check_arg "name IS NFC NORMALIZED" "name_nfc_normalized"
        ∷ check_arg ("char_length(name) >= " +++ decimal org_name_min_len) "name_min_len"
        ∷ check_arg
            ("char_length(" +++ (org_name_canonical_sql +++ (") <= " +++ decimal org_name_max_len)))
            "name_casefold_max_len"
        ∷ [])

-- Membership
abbrev pub membership_model : Model
membership_model =
    mapped "memberships"
      (referring "user_id" "users" cascade false
        ∷ referring "org_id" "organizations" cascade false
        ∷ plain "user_role" org_role (server_default "'member'") false
        ∷ [])
      (unique_arg ("user_id" ∷ "org_id" ∷ []) "uq_memberships_org_user"
        ∷ index_arg "ix_memberships_org_id" "org_id"
        ∷ [])

-- Project
abbrev pub project_model : Model
project_model =
    mapped "projects"
      (plain "name" (varchar 320) no_default false
        ∷ referring "org_id" "organizations" cascade false
        ∷ [])
      (unique_arg ("org_id" ∷ "name" ∷ []) "uq_projects_org_name" ∷ [])

-- Task
abbrev pub task_model : Model
task_model =
    mapped "tasks"
      (plain "name" (varchar 320) no_default false
        ∷ referring "project_id" "projects" cascade false
        ∷ referring "assignee_user_id" "users" set_null true
        ∷ plain "status" task_status (server_default "'todo'") false
        ∷ [])
      (index_arg "ix_tasks_project_id" "project_id"
        ∷ index_arg "ix_tasks_assignee_user_id" "assignee_user_id"
        ∷ index_arg "ix_tasks_status" "status"
        ∷ [])

-- Base.metadata.sorted_tables: a table comes after those that it refers to
unfoldable pub sorted_tables : List Model
unfolding organization_model
sorted_tables = organization_model ∷ user_model ∷ membership_model ∷ project_model ∷ task_model ∷ []

-- ===== src/Tests/Migrations.antt =====
-- The first migration on a database that holds nothing but Alembic's own table.
use fukawa.Prelude.{String, Option, ◌↔◌, false, ◌≡◌, refl, Option, none, some, [], ◌∷◌, ◌++◌}
use mathlib.Core.Option
use fukawa.Infra.Tables.Catalog.{Catalog, Database, IsDocumented, applied}
use fukawa.Infra.Tables.Migration.{upgrade, downgrade}
use fukawa.App.Errors.{AppErrorCode}
use fukawa.Infra.Persistence.{PersistenceError, PersistenceErrorKind, str, translate_db_error}
use fukawa.Infra.Tables.Models.{organization_model}
use fukawa.Infra.Tables.Naming.{table_of}
use fukawa.Alembic.Online.{alembic_version}
use fukawa.Infra.Tables.Uses.{unique_columns, name_taken_iff}
use fukawa.Infra.Tables.Replay.{replay}
use fukawa.Infra.Tables.Frame.{beside}
use fukawa.Infra.Tables.Upgrade.{
  HasRoom, IsMetadata, new_enums, upgrade-IsMetadata, upgrade-downgrade, upgrade_again,
}

abbrev pub fresh : Catalog
fresh = record { tables = alembic_version ∷ []; indexes = []; enums = [] }

-- a database that is its catalog
abbrev postgres : Database
postgres = record { Schema = Catalog; catalog = λ c. c; execute = applied }

same_map : (o : Option Catalog) → Option.map (λ c. c) o ≡ o
same_map none = refl
same_map (some c) = refl

postgres-IsDocumented : IsDocumented postgres
postgres-IsDocumented = record { executes = λ op s. same_map (applied op s) }

pub fresh-HasRoom : HasRoom fresh
unfolding upgrade downgrade
fresh-HasRoom = record {
  apart = refl;
  closed = record { references = λ n h. refl; indexes = λ n h. refl };
}

upgrade-IsMetadata_example :
    (t : Catalog) × (new : Catalog) × (replay postgres upgrade fresh ≡ some t)
    × (t ≡ beside new fresh)
    × IsMetadata new
upgrade-IsMetadata_example = upgrade-IsMetadata postgres fresh postgres-IsDocumented fresh-HasRoom

upgrade-downgrade_example :
    (t : Catalog) × (replay postgres (upgrade ++ downgrade) fresh ≡ some t)
    × (t ≡ record fresh { enums = new_enums })
upgrade-downgrade_example = upgrade-downgrade postgres fresh postgres-IsDocumented fresh-HasRoom

upgrade_again_example : replay postgres ((upgrade ++ downgrade) ++ upgrade) fresh ≡ none
upgrade_again_example = upgrade_again postgres fresh postgres-IsDocumented fresh-HasRoom

abbrev taken : PersistenceError
taken = record {
  kind = PersistenceErrorKind.unique;
  title = "db_integrity";
  status_code = 503;
  sqlstate = some (str "23505");
  constraint_name = some "uq_organizations_name_canonical";
  table_name = some "organizations";
  column_name = none;
  retryable = false;
  cause = none;
  detail = none;
}

name_taken_iff_example :
    ((translate_db_error taken).code ≡ AppErrorCode.organization_name_taken) ↔ (
      (PersistenceErrorKind.unique ≡ PersistenceErrorKind.unique)
      × ((n : String) × (◌≡◌ {A = Option String} (some "uq_organizations_name_canonical") (some n))
          × (unique_columns n (table_of organization_model).constraints
              ≡ some ("name_canonical" ∷ []))))
name_taken_iff_example = name_taken_iff taken

-- ===== src/Tests/Deployment.antt =====
-- The settings and the run of the migrations for one environment.
use fukawa.Prelude.{
  sym, some-eq, ◌++◌, String, ◌≡◌, refl, ap, ◌↔◌, Option, none, some, [], ◌∷◌, if◌then◌else◌, ◌==◌,
  arith,
}
use mathlib.Core.Option
use fukawa.Prelude.Result.{Result, ok, err}
use fukawa.Infra.Jwks.{ℤ, pos}
use fukawa.Infra.Tables.Catalog.{Catalog, Database, IsDocumented, applied}
use fukawa.Infra.Tables.Migration.{revision, upgrade}
use fukawa.Infra.Tables.Replay.{replay}
use fukawa.Infra.Tables.Frame.{beside}
use fukawa.Infra.Tables.Upgrade.{IsMetadata}
use fukawa.Startup.{KeycloakSettings, Auth, build_auth, closed}
use fukawa.Startup.Settings.{
  DatabaseFields, Outside, KeycloakFields, keycloak_settings, DatabaseSettings, database_settings,
  db_dsn,
}
use fukawa.Startup.Configured.{IsStartable, builds_iff}
use fukawa.Alembic.{Environ, Context, get_database_url, run_async_migrations, not_configured}
use fukawa.Alembic.Online.{IsAlembic, version_table, migrated}
use fukawa.Alembic.Urls.{has_no_blank, SameVariables, urls_agree}
use fukawa.Tests.Keys.{world}
use fukawa.Tests.Migrations.{fresh, fresh-HasRoom}

abbrev fields : KeycloakFields
fields = record {
  hostname = some "https://id.example";
  issuer_url = some "https://id.example";
  jwks_uri = some "https://id.example/certs";
  client_id = some "pet";
  audience = none;
  allowed_algorithms = none;
  jwks_cache_ttl_seconds = some (pos 60);
  leeway_seconds = none;
  http_timeout_seconds = none;
}

abbrev validated : KeycloakSettings
validated = record {
  issuer_url = "https://id.example";
  jwks_uri = "https://id.example/certs";
  client_id = "pet";
  audience = [];
  allowed_algorithms = "RS256" ∷ [];
  jwks_cache_ttl_seconds = pos 60;
  leeway_seconds = 30;
  http_timeout_seconds = pos 5;
  default_max_stale = pos 300;
  default_min_forced_refresh_interval = pos 5;
}

fields-validate : keycloak_settings 1 fields ≡ ok validated
unfolding keycloak_settings
fields-validate = refl

builds_iff_example :
    ((auth : Auth) × (build_auth world validated ≡ ok auth)) ↔ IsStartable world fields
builds_iff_example = builds_iff world 1 fields validated (omega arith) fields-validate

abbrev environ : Environ
environ k =
    if k == "DB__DRIVER"
    then some "postgresql+asyncpg"
    else if k == "DB__HOST"
    then some "localhost"
    else if k == "DB__NAME"
    then some "pet"
    else if k == "DB__USER"
    then some "admin"
    else if k == "DB__PORT"
    then some "5432"
    else if k == "DB__PASSWORD"
    then some ""
    else none

abbrev five_digits : String → Option ℤ
five_digits s = if s == "5432" then some (pos 5432) else none

abbrev reading : Outside
reading = record {
  read_whole = five_digits;
  int = five_digits;
  render_as_string = λ driver user password host port name hidden. driver;
}

abbrev trusting : DatabaseSettings
trusting = record {
  driver = "postgresql+asyncpg";
  host = "localhost";
  name = "pet";
  user = "admin";
  port = pos 5432;
  password = "";
}

abbrev database_fields : DatabaseFields
database_fields = record {
  driver = some "postgresql+asyncpg";
  host = some "localhost";
  name = some "pet";
  user = some "admin";
  port = some "5432";
  password = some "";
}

environ-SameVariables : SameVariables environ database_fields
environ-SameVariables = record {
  driver = refl;
  host = refl;
  name = refl;
  user = refl;
  port = refl;
  password = refl;
}

trusting-read : database_settings reading database_fields ≡ ok trusting
unfolding database_settings
trusting-read = refl

-- The settings are read, and the script refuses to run.
urls_agree_example :
    get_database_url reading (some "") environ
    ≡ (if has_no_blank trusting then ok (db_dsn reading trusting) else err not_configured)
urls_agree_example =
    urls_agree reading environ database_fields trusting environ-SameVariables refl
      (λ t e. ap five_digits (some-eq (sym e))) trusting-read

-- a database that is its catalog and the revision that it records
abbrev recording : Database
recording = record {
  Schema = Catalog × Option String;
  catalog = λ s. s.0;
  execute = λ op s. Option.map (λ c. (c, s.1)) (applied op s.0);
}

recorded :
    (o : Option Catalog) (r : Option String)
    → Option.map (λ (s : Catalog × Option String). s.0) (Option.map (λ c. (c, r)) o) ≡ o
recorded none r = refl
recorded (some c) r = refl

recording-IsDocumented : IsDocumented recording
recording-IsDocumented = record { executes = λ op s. recorded (applied op s.0) s.1 }

abbrev stamped : Option (Catalog × Option String) → Result String (Catalog × Option String)
stamped none = err "migration failed"
stamped (some s) = ok (s.0, some revision)

abbrev migrate : Catalog × Option String → Result String (Catalog × Option String)
migrate (c, none) = stamped (replay recording (version_table c ++ upgrade) (c, none))
migrate (c, some r) = ok (c, some r)

abbrev committed :
    Result String (Catalog × Option String)
    → Catalog × Option String
    → Result String (Unit {0}) × (Catalog × Option String)
committed (ok t) s = (ok tt, t)
committed (err e) s = (err e, s)

abbrev alembic : Context (Catalog × Option String)
alembic = record { connect = λ url. none; run_migrations = migrate; end_transaction = committed }

migrates_first :
    (s t : Catalog × Option String)
    → s.1 ≡ none
    → replay recording (version_table s.0 ++ upgrade) s ≡ some t
    → (u : Catalog × Option String) × (migrate s ≡ ok u) × (u.0 ≡ t.0) × (u.1 ≡ some revision)
migrates_first (c, none) t first goes = ((t.0, some revision), ap stamped goes, refl, refl)
migrates_first (c, some r) t first goes = absurd (ground arith)

stays : (s : Catalog × Option String) → s.1 ≡ some revision → migrate s ≡ ok s
stays (c, none) there = absurd (ground arith)
stays (c, some r) there = refl

alembic-IsAlembic : IsAlembic recording (λ s. s.1) alembic
alembic-IsAlembic = record {
  upgrades = migrates_first;
  up_to_date = stays;
  commits = λ s t. refl;
  rolls_back = λ s e. refl;
}

-- a database without any table
abbrev nothing : Catalog
nothing = record { tables = []; indexes = []; enums = [] }

nothing_prepared : replay recording (version_table nothing) (nothing, none) ≡ some (fresh, none)
unfolding replay
nothing_prepared = refl

url_is_set : get_database_url reading (some "postgresql://pet") environ ≡ ok "postgresql://pet"
unfolding get_database_url
url_is_set = refl

migrated_example :
    (t : Catalog × Option String) × (run_async_migrations alembic reading
        (some "postgresql://pet")
        environ
        (nothing, none)
      ≡ (ok tt, record { schema = t; engine = closed }))
    × ((new : Catalog) × (t.0 ≡ beside new fresh) × IsMetadata new)
    × (run_async_migrations alembic reading (some "postgresql://pet") environ t
        ≡ (ok tt, record { schema = t; engine = closed }))
migrated_example =
    migrated recording (λ s. s.1) alembic alembic-IsAlembic reading (some "postgresql://pet")
      environ "postgresql://pet" (nothing, none) (fresh, none) recording-IsDocumented
      nothing_prepared fresh-HasRoom refl url_is_set refl

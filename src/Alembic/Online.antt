-- ===== src/Alembic/Online.antt =====
-- alembic/env.py with the first migration: what a run does to a database.
use fukawa.Prelude.{
  inl, inr, Option-cases, String, false, ◌≡◌, ap, ◌∙◌, some-eq, List, [], ◌∷◌, ◌++◌, if◌then◌else◌,
  Option, none, some, arith,
}
use fukawa.Prelude.Result.{Result-cases, ok, err}
use fukawa.Startup.{closed}
use fukawa.Startup.Settings.{Outside}
use fukawa.Infra.Tables.{varchar, no_default, primary_key, Table}
use fukawa.Infra.Tables.Catalog.{
  Catalog, Operation, create_table, has_table, Database, IsDocumented,
}
use fukawa.Infra.Tables.Migration.{revision, upgrade}
use fukawa.Infra.Tables.Replay.{replay}
use fukawa.Infra.Tables.Frame.{beside}
use fukawa.Infra.Tables.Upgrade.{HasRoom, IsMetadata, upgrade-IsMetadata}
use fukawa.Alembic.{
  Environ, EnvError, get_database_url, Context, do_run_migrations, run_async_migrations,
}

-- Alembic's own table
abbrev pub alembic_version : Table
alembic_version = record {
  name = "alembic_version";
  columns =
      record { name = "version_num"; sql_type = varchar 32; default = no_default; nullable = false }
      ∷ [];
  constraints =
      record { name = "alembic_version_pkc"; rule = primary_key ("version_num" ∷ []) } ∷ [];
}

-- the statement that creates it where it is missing
abbrev pub version_table : Catalog → List Operation
version_table c =
    if has_table c.tables "alembic_version" then [] else create_table alembic_version ∷ []

-- What is documented of Alembic on a database with transactional statements of data definition, where
-- `current` is the revision that a database records in Alembic's table: on a database that records none that table is
-- created where it is missing, and the migrations run and the last of them is recorded; the transaction
-- keeps all of that or, when one raises, nothing.
pub record IsAlembic (db : Database) (current : db.Schema → Option String)
    (context : Context db.Schema) : Type 0 where
  pub upgrades :
      (s t : db.Schema)
      → current s ≡ none
      → replay db (version_table (db.catalog s) ++ upgrade) s ≡ some t
      → (u : db.Schema) × (context.run_migrations s ≡ ok u)
        × (db.catalog u ≡ db.catalog t)
        × (current u ≡ some revision)
  pub up_to_date : (s : db.Schema) → current s ≡ some revision → context.run_migrations s ≡ ok s
  pub commits : (s t : db.Schema) → context.end_transaction (ok t) s ≡ (ok tt, t)
  pub rolls_back : (s : db.Schema) (e : String) → context.end_transaction (err e) s ≡ (err e, s)

replay-append :
    (db : Database) (xs ys : List Operation) (s p t : db.Schema)
    → replay db xs s ≡ some p
    → replay db ys p ≡ some t
    → replay db (xs ++ ys) s ≡ some t
unfolding replay
replay-append db [] ys s p t h k = ap (replay db ys) (some-eq h) ∙ k
replay-append db (op ∷ xs) ys s p t h k = elim (Option-cases (db.execute op s)) [
  | inl e ↦ absurd (ground (arith, e))
  | inr (q, e) ↦ ground (arith, e, replay-append db xs ys q p t)
]

module _ (db : Database) (current : db.Schema → Option String) (context : Context db.Schema)
    (law : IsAlembic db current context) where
  -- A run that raises nothing has committed what the migrations made.
  run-committed :
      (out : Outside) (main_option : Option String) (env : Environ) (url : String) (s t : db.Schema)
      → get_database_url out main_option env ≡ ok url
      → context.connect url ≡ none
      → context.run_migrations s ≡ ok t
      → run_async_migrations context out main_option env s
        ≡ (ok tt, record { schema = t; engine = closed })
  unfolding run_async_migrations do_run_migrations
  run-committed out main_option env url s t has_url reached goes = ground (arith, law.commits s t)

  -- Take a database that is reached under the URL and records no revision, and the schema that is there once
  -- Alembic has created its own table where it was missing. If that has room for the migration, a run goes through and
  -- disposes of its engine. To that schema it adds what the metadata of the mapped classes describes and
  -- nothing else, and a second run goes through and changes nothing.
  pub migrated :
      (out : Outside) (main_option : Option String) (env : Environ) (url : String) (s p : db.Schema)
      → IsDocumented db
      → replay db (version_table (db.catalog s)) s ≡ some p
      → HasRoom (db.catalog p)
      → current s ≡ none
      → get_database_url out main_option env ≡ ok url
      → context.connect url ≡ none
      → (t : db.Schema) × (run_async_migrations context out main_option env s
          ≡ (ok tt, record { schema = t; engine = closed }))
        × ((new : Catalog) × (db.catalog t ≡ beside new (db.catalog p)) × IsMetadata new)
        × (run_async_migrations context out main_option env t
            ≡ (ok tt, record { schema = t; engine = closed }))
  migrated out main_option env url s p doc prepared room first has_url reached =
      let (t, new, goes, is, metadata) = upgrade-IsMetadata db p doc room in
      let (u, ran, kept, recorded) =
        law.upgrades s t first
          (replay-append db (version_table (db.catalog s)) upgrade s p t prepared goes) in
      (
        u,
        run-committed out main_option env url s u has_url reached ran,
        (new, kept ∙ is, metadata),
        run-committed out main_option env url u u has_url reached (law.up_to_date u recorded),
      )

  -- A run that raises, for want of a URL, of a connection or of a migration that goes through, leaves the
  -- database as it was.
  failed_run_keeps :
      (out : Outside) (main_option : Option String) (env : Environ) (s : db.Schema) (e : EnvError)
      → (run_async_migrations context out main_option env s).0 ≡ err e
      → (run_async_migrations context out main_option env s).1.schema ≡ s
  unfolding run_async_migrations do_run_migrations
  failed_run_keeps out main_option env s e h =
      elim (Result-cases (get_database_url out main_option env)) [
        | inr (x, no_url) ↦ ground arith
        | inl (url, has_url) ↦ elim (Option-cases (context.connect url)) [
          | inr (m, unreached) ↦ ground arith
          | inl reached ↦ elim (Result-cases (context.run_migrations s)) [
            | inl (t, goes) ↦ absurd (ground (arith, law.commits s t))
            | inr (m, fails) ↦ ground (arith, law.rolls_back s m)
          ]
        ]
      ]

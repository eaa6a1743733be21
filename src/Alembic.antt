-- ===== src/Alembic.antt =====
-- alembic/env.py: which database the migrations run on, and how they run.
pub mod Online
pub mod Urls
use fukawa.Prelude.{String, Bool, true, false, Option, none, some, if◌then◌else◌}
use fukawa.Prelude.Text.{is_blank}
use fukawa.Prelude.Result.{Result, ok, err, ◌>>=◌}
use fukawa.Infra.Jwks.{ℤ}
use fukawa.Startup.{Status, unopened, opened, closed}
use fukawa.Startup.Settings.{Outside}

-- The RuntimeError of get_database_url, the ValueError of `int(port)`, and what comes from the database.
pub data EnvError : Type 0 where
  not_configured : EnvError
  bad_port : EnvError
  raised : String → EnvError

-- `os.getenv`
abbrev pub Environ : Type 0
Environ = String → Option String

-- A variable that is set, and not to the empty text.
abbrev pub non_empty : Option String → Result EnvError String
non_empty none = err not_configured
non_empty (some s) = if is_blank s then err not_configured else ok s

module _ (out : Outside) where
  abbrev port_number : String → Result EnvError ℤ
  port_number s = elim (out.int s) [ none ↦ err bad_port | some n ↦ ok n ]

  abbrev url_of_environ : Environ → Result EnvError String
  url_of_environ env = do
    driver ← non_empty (env "DB__DRIVER")
    user ← non_empty (env "DB__USER")
    password ← non_empty (env "DB__PASSWORD")
    host ← non_empty (env "DB__HOST")
    port ← non_empty (env "DB__PORT")
    name ← non_empty (env "DB__NAME")
    number ← port_number port
    ok (out.render_as_string driver user password host number name false)

  -- get_database_url, with the option sqlalchemy.url of the .ini file
  unfoldable pub get_database_url : Option String → Environ → Result EnvError String
  get_database_url none env = url_of_environ env
  get_database_url (some url) env = if is_blank url then url_of_environ env else ok url

-- What env.py calls: the connection, Alembic's `context.run_migrations()` within an open transaction, and
-- the end of `context.begin_transaction()`. A run raises, or leaves another schema behind.
pub record Context (Schema : Type 0) : Type 0 where
  pub connect : String → Option String
  pub run_migrations : Schema → Result String Schema
  pub end_transaction : Result String Schema → Schema → Result String (Unit {0}) × Schema

-- The database, and the engine that the script creates.
pub record Run (Schema : Type 0) : Type 0 where
  pub schema : Schema
  pub engine : Status

module _ {Schema : Type 0} (context : Context Schema) where
  -- what stands behind `async with connectable.connect()`: the engine is disposed of when it has not raised
  abbrev pub then_dispose :
      Result String (Unit {0}) × Schema → Result EnvError (Unit {0}) × Run Schema
  then_dispose (ok _, t) = (ok tt, record { schema = t; engine = closed })
  then_dispose (err e, t) = (err (raised e), record { schema = t; engine = opened })

  -- do_run_migrations
  unfoldable pub do_run_migrations : Schema → Result String (Unit {0}) × Schema
  do_run_migrations s = context.end_transaction (context.run_migrations s) s

  abbrev pub connected : Option String → Schema → Result EnvError (Unit {0}) × Run Schema
  unfolding do_run_migrations
  connected (some e) s = (err (raised e), record { schema = s; engine = opened })
  connected none s = then_dispose (do_run_migrations s)

  abbrev pub with_url : Result EnvError String → Schema → Result EnvError (Unit {0}) × Run Schema
  with_url (err e) s = (err e, record { schema = s; engine = unopened })
  with_url (ok url) s = connected (context.connect url) s

  -- run_async_migrations
  unfoldable pub run_async_migrations :
      Outside → Option String → Environ → Schema → Result EnvError (Unit {0}) × Run Schema
  unfolding get_database_url
  run_async_migrations out main_option env s = with_url (get_database_url out main_option env) s

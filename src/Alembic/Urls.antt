-- ===== src/Alembic/Urls.antt =====
-- alembic/env.py and src/pet/config/settings.py: the two readers of the variables DB__….
use fukawa.Prelude.{
  subst, String, Bool, false, not, ◌&&◌, ◌≡◌, refl, sym, ◌∙◌, none, some, arith, if◌then◌else◌,
}
use fukawa.Prelude.Text.{is_blank}
use fukawa.Prelude.Result.{ok, err, ok-eq, bind_ok}
use fukawa.Infra.Jwks.{ℤ}
use fukawa.Startup.Settings.{
  Outside, DatabaseFields, DatabaseSettings, database_settings, db_dsn, required, required-ok,
  port_of,
}
use fukawa.Alembic.{Environ, not_configured, get_database_url}

-- The texts of the settings that Alembic's script tests for being empty.
abbrev pub has_no_blank : DatabaseSettings → Bool
has_no_blank d =
    not (is_blank d.driver)
    && not (is_blank d.user)
    && not (is_blank d.password)
    && not (is_blank d.host)
    && not (is_blank d.name)

port_filled :
    (out : Outside) (t : String) (n : ℤ)
    → out.int "" ≡ none
    → out.int t ≡ some n
    → is_blank t ≡ false
port_filled out String.[] n no_int h = absurd (ground arith)
port_filled out (String.◌∷◌ c t) n no_int h = refl

-- pydantic-settings finds the variables under the names that the script asks for, in upper case.
pub record SameVariables (env : Environ) (f : DatabaseFields) : Type 0 where
  pub driver : f.driver ≡ env "DB__DRIVER"
  pub host : f.host ≡ env "DB__HOST"
  pub name : f.name ≡ env "DB__NAME"
  pub user : f.user ≡ env "DB__USER"
  pub port : f.port ≡ env "DB__PORT"
  pub password : f.password ≡ env "DB__PASSWORD"

-- The fields that the settings have been read from.
record IsRead (f : DatabaseFields) (d : DatabaseSettings) : Type 0 where
  driver : f.driver ≡ some d.driver
  host : f.host ≡ some d.host
  name : f.name ≡ some d.name
  user : f.user ≡ some d.user
  port_text : String
  port : f.port ≡ some port_text
  password : f.password ≡ some d.password

database_settings-IsRead :
    (out : Outside) (f : DatabaseFields) (d : DatabaseSettings)
    → database_settings out f ≡ ok d
    → IsRead f d
unfolding database_settings
database_settings-IsRead out f d h =
    let (driver, is_driver, h1) = bind_ok (required f.driver) _ d h in
    let (host, is_host, h2) = bind_ok (required f.host) _ d h1 in
    let (name, is_name, h3) = bind_ok (required f.name) _ d h2 in
    let (user, is_user, h4) = bind_ok (required f.user) _ d h3 in
    let (port, is_port, h5) = bind_ok (required f.port) _ d h4 in
    let (number, is_number, h6) = bind_ok (port_of out port) _ d h5 in
    let (password, is_password, h7) = bind_ok (required f.password) _ d h6 in
    subst (IsRead f) (ok-eq h7) (record {
      driver = required-ok _ _ is_driver;
      host = required-ok _ _ is_host;
      name = required-ok _ _ is_name;
      user = required-ok _ _ is_user;
      port_text = port;
      port = required-ok _ _ is_port;
      password = required-ok _ _ is_password;
    })

-- Where alembic.ini leaves the URL empty, and the settings are validated from the variables that the script
-- reads, the script takes the URL of the settings, unless a text among them is empty: then it raises, and
-- the settings do not. Python's `int` reads the port as the number that pydantic has read, and reads no number
-- from the empty text.
pub urls_agree :
    (out : Outside) (env : Environ) (f : DatabaseFields) (d : DatabaseSettings)
    → SameVariables env f
    → out.int "" ≡ none
    → ((t : String) → f.port ≡ some t → out.int t ≡ some d.port)
    → database_settings out f ≡ ok d
    → get_database_url out (some "") env
      ≡ (if has_no_blank d then ok (db_dsn out d) else err not_configured)
unfolding get_database_url db_dsn
urls_agree out env f d same no_int same_port read =
    let r : IsRead f d = database_settings-IsRead out f d read in
    let number : out.int r.port_text ≡ some d.port = same_port r.port_text r.port in
    ground (
      arith,
      sym same.driver ∙ r.driver,
      sym same.host ∙ r.host,
      sym same.name ∙ r.name,
      sym same.user ∙ r.user,
      sym same.port ∙ r.port,
      sym same.password ∙ r.password,
      number,
      port_filled out r.port_text d.port no_int number,
    )

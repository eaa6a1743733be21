-- ===== src/Startup/Settings.antt =====
-- src/pet/config/settings.py: the settings of the database and of Keycloak, from the environment. The values
-- that pydantic has read stand for themselves, and so do the texts that SQLAlchemy's URL is written as.
use fukawa.Prelude.{ℕ, String, Bool, true, false, Option, none, some, List, [], ◌∷◌}
use Prim.Native.Nat.{◌*◌}
use fukawa.Prelude.Result.{Result, ok, err, ◌>>=◌}
use fukawa.Prelude.{◌≡◌, arith}
use fukawa.Infra.Jwks.{ℤ, pos, negsuc}
use fukawa.Startup.{KeycloakSettings}

-- pydantic's ValidationError
pub data SettingsError : Type 0 where
  validation_error : SettingsError

-- A field without a default.
abbrev pub required : Option String → Result SettingsError String
required none = err validation_error
required (some s) = ok s

pub required-ok : (o : Option String) (s : String) → required o ≡ ok s → o ≡ some s
required-ok none s h = cc
required-ok (some t) s h = ground arith

-- A field with one.
abbrev pub or_default {ℓ} : {A : Type ℓ} → A → Option A → A
or_default a none = a
or_default a (some b) = b

-- Field(ge=0)
abbrev pub at_least_0 : ℤ → Result SettingsError ℕ
at_least_0 (pos n) = ok n
at_least_0 (negsuc _) = err validation_error

-- The fields of KeycloakSettings that the environment gives, each as a value of its type: the time of the
-- cache and the leeway in seconds, the timeout of HTTP in ticks.
pub record KeycloakFields : Type 0 where
  pub hostname : Option String
  pub issuer_url : Option String
  pub jwks_uri : Option String
  pub client_id : Option String
  pub audience : Option (List String)
  pub allowed_algorithms : Option (List String)
  pub jwks_cache_ttl_seconds : Option ℤ
  pub leeway_seconds : Option ℤ
  pub http_timeout_seconds : Option ℤ

-- KeycloakSettings, with as many ticks to a second; the provider's own defaults are 300 and 5 seconds.
unfoldable pub keycloak_settings :
    (second : ℕ) → KeycloakFields → Result SettingsError KeycloakSettings
keycloak_settings second f = do
  hostname ← required f.hostname
  issuer_url ← required f.issuer_url
  jwks_uri ← required f.jwks_uri
  client_id ← required f.client_id
  ttl ← at_least_0 (or_default (pos 300) f.jwks_cache_ttl_seconds)
  leeway ← at_least_0 (or_default (pos 30) f.leeway_seconds)
  timeout ← at_least_0 (or_default (pos (5 * second)) f.http_timeout_seconds)
  ok (record {
    issuer_url = issuer_url;
    jwks_uri = jwks_uri;
    client_id = client_id;
    audience = or_default [] f.audience;
    allowed_algorithms = or_default ("RS256" ∷ []) f.allowed_algorithms;
    jwks_cache_ttl_seconds = pos (ttl * second);
    leeway_seconds = leeway;
    http_timeout_seconds = pos timeout;
    default_max_stale = pos (300 * second);
    default_min_forced_refresh_interval = pos (5 * second);
  })

-- The fields of DatabaseSettings that pydantic-settings finds in the environment, where the case of a
-- variable's name does not matter, and in the file .env.
pub record DatabaseFields : Type 0 where
  pub driver : Option String
  pub host : Option String
  pub name : Option String
  pub user : Option String
  pub port : Option String
  pub password : Option String

pub record DatabaseSettings : Type 0 where
  pub driver : String
  pub host : String
  pub name : String
  pub user : String
  pub port : ℤ
  pub password : String

-- How pydantic reads a text as a whole number, how Python's `int` does, and SQLAlchemy's text of a URL.
pub record Outside : Type 0 where
  pub read_whole : String → Option ℤ
  pub int : String → Option ℤ
  pub render_as_string :
      (drivername username password host : String) (port : ℤ) (database : String)
      → (hide_password : Bool) → String

module _ (out : Outside) where
  abbrev pub port_of : String → Result SettingsError ℤ
  port_of s = elim (out.read_whole s) [ none ↦ err validation_error | some n ↦ ok n ]

  -- DatabaseSettings, validated
  unfoldable pub database_settings : DatabaseFields → Result SettingsError DatabaseSettings
  database_settings f = do
    driver ← required f.driver
    host ← required f.host
    name ← required f.name
    user ← required f.user
    port_text ← required f.port
    port ← port_of port_text
    password ← required f.password
    ok (record {
      driver = driver;
      host = host;
      name = name;
      user = user;
      port = port;
      password = password;
    })

  -- Settings.db_url and how it is written
  abbrev rendered : Bool → DatabaseSettings → String
  rendered hide_password db =
      out.render_as_string db.driver db.user db.password db.host db.port db.name hide_password

  unfoldable pub db_dsn : DatabaseSettings → String
  db_dsn = rendered false

  unfoldable pub safe_db_dsn : DatabaseSettings → String
  safe_db_dsn = rendered true

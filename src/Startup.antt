-- ===== src/Startup.antt =====
-- src/pet/main.py and di/auth.py: the lifespan of the application and the two resources that it owns.
-- Logging is left out, and creating the engine and the session factory do not raise.
pub mod Resources
pub mod Ready
pub mod Settings
pub mod Accepted
pub mod Configured
use fukawa.Prelude.{
  ℕ, String, Bool, true, false, Option, none, some, List, [], ◌∷◌, ◌++◌, unique, if◌then◌else◌,
}
use fukawa.Prelude.Result.{Result, ok, err}
use fukawa.Infra.Jwks
use fukawa.Infra.Jwks.{Args, Provider, World, ℤ, JwksProviderError, default_policy}
use fukawa.Infra.Verifier.{KeycloakVerifier, create_verifier}

pub data Status : Type 0 where
  unopened opened closed : Status

-- The engine and the HTTP client, as they are, and the variable `http_client` of the lifespan.
pub record Owned : Type 0 where
  pub engine : Status
  pub client : Status
  pub client_known : Bool

-- KeycloakSettings; the last three are the provider's defaults, which the program does not set
pub record KeycloakSettings : Type 0 where
  pub issuer_url : String
  pub jwks_uri : String
  pub client_id : String
  pub audience : List String
  pub allowed_algorithms : List String
  pub jwks_cache_ttl_seconds : ℤ
  pub leeway_seconds : ℕ
  pub http_timeout_seconds : ℤ
  pub default_max_stale : ℤ
  pub default_min_forced_refresh_interval : ℤ

-- What raises, from outside: the query of the database, and the closing of either resource.
pub record Outside : Type 0 where
  pub check_db_connection : Option String
  pub dispose : Option String
  pub aclose : Option String

-- What the start may raise.
pub data StartupError : Type 0 where
  database : String → StartupError
  bad_value : String → StartupError
  jwks : JwksProviderError → StartupError
  closing : String → StartupError

abbrev pub Auth : Type 0
Auth = Provider × KeycloakVerifier

abbrev pub jwks_args : KeycloakSettings → Args
jwks_args s = record {
  jwks_uri = s.jwks_uri;
  http_timeout = s.http_timeout_seconds;
  policy = default_policy;
  cache_ttl = s.jwks_cache_ttl_seconds;
  max_stale = s.default_max_stale;
  min_forced_refresh_interval = s.default_min_forced_refresh_interval;
}

abbrev with_verifier : Provider → Result String KeycloakVerifier → Result StartupError Auth
with_verifier p (ok v) = ok (p, v)
with_verifier p (err m) = err (bad_value m)

module _ (w : World) (settings : KeycloakSettings) where
  abbrev after_start : Result JwksProviderError (Unit {0}) × Provider → Result StartupError Auth
  after_start (err e, p) = err (jwks e)
  after_start (ok _, p) = with_verifier p (
      create_verifier settings.issuer_url (unique (settings.audience ++ settings.client_id ∷ []))
        settings.allowed_algorithms settings.leeway_seconds)

  abbrev started : Result String Provider → Result StartupError Auth
  started (err m) = err (bad_value m)
  started (ok p) = after_start (Jwks.start w p)

  -- build_auth_components, behind the opening of the HTTP client
  unfoldable pub build_auth : Result StartupError Auth
  build_auth = started (Jwks.create (jwks_args settings))

  module _ (out : Outside) where
    abbrev disposed : Owned → Owned
    disposed o = record o { engine = closed }

    abbrev client_closed : Owned → Owned
    client_closed o = record o { client = closed }

    abbrev raised_or : Option String → StartupError → StartupError
    raised_or none e = e
    raised_or (some m) e = closing m

    -- `await engine.dispose()` and the `raise` behind it
    abbrev dispose_and_raise : StartupError → Owned → Result StartupError Auth × Owned
    dispose_and_raise e o = (err (raised_or out.dispose e), disposed o)

    abbrev close_and_raise : Option String → StartupError → Owned → Result StartupError Auth × Owned
    close_and_raise none e o = dispose_and_raise e o
    close_and_raise (some m) e o = (err (closing m), o)

    -- the `except` of the start
    abbrev clean_up : Bool → StartupError → Owned → Result StartupError Auth × Owned
    clean_up true e o = close_and_raise out.aclose e (client_closed o)
    clean_up false e o = dispose_and_raise e o

    abbrev finish_start : Result StartupError Auth → Owned → Result StartupError Auth × Owned
    finish_start (ok auth) o = (ok auth, record o { client_known = true })
    finish_start (err e) o = clean_up o.client_known e o

    abbrev check_db : Option String → Owned → Result StartupError Auth × Owned
    check_db (some m) o = clean_up o.client_known (database m) o
    check_db none o = finish_start build_auth (record o { client = opened })

    -- the lifespan up to its `yield`
    unfoldable pub startup : Result StartupError Auth × Owned
    unfolding build_auth
    startup =
        check_db out.check_db_connection
          (record { engine = opened; client = unopened; client_known = false })

    -- the lifespan behind its `yield`: what either call raises is only logged
    unfoldable pub shutdown : Owned → Owned
    shutdown o = client_closed (disposed o)

-- ===== src/Tests/Boot.antt =====
-- The lifespan of src/pet/main.py, once with a reachable identity provider and once without.
use fukawa.Prelude.{ℕ, ◌≡◌, refl, ◌↔◌, true, false, none, some, [], ◌∷◌, contains}
use fukawa.Prelude.Result.{ok, err}
use fukawa.Infra.Jwks
use fukawa.Infra.Jwks.{
  World, pos, jwks_provider_unavailable, request_error, parse_jwks, is_usable_signing_key,
}
use fukawa.Infra.Jwks.Refresh.{IsValid}
use fukawa.Infra.Jwks.Created.{IsConfigured}
use fukawa.Infra.Verifier.{create_verifier}
use fukawa.Startup.{KeycloakSettings, Outside, opened, closed, jwks, jwks_args, build_auth, startup}
use fukawa.Startup.Resources.{startup_failure}
use fukawa.Startup.Ready.{startup_ready}
use fukawa.Tests.Keys.{world, world-IsMonotonic, after_start}
use fukawa.Tests.Tokens.{verifier}

abbrev settings : KeycloakSettings
settings = record {
  issuer_url = "https://id.example";
  jwks_uri = "https://id.example/certs";
  client_id = "pet";
  audience = [];
  allowed_algorithms = "RS256" ∷ [];
  jwks_cache_ttl_seconds = pos 60;
  leeway_seconds = 30;
  http_timeout_seconds = pos 5;
  default_max_stale = pos 30;
  default_min_forced_refresh_interval = pos 1;
}

abbrev calm : Outside
calm = record { check_db_connection = none; dispose = none; aclose = none }

abbrev dark : World
dark = record (world) { respond = λ i. request_error }

start_succeeds : (startup world settings calm).0 ≡ ok (after_start, verifier)
unfolding startup build_auth Jwks.create Jwks.start parse_jwks is_usable_signing_key create_verifier
start_succeeds = refl

start_fails :
    (startup dark settings calm).0 ≡ err (jwks (jwks_provider_unavailable "jwks_fetch failed"))
unfolding startup build_auth Jwks.create Jwks.start
start_fails = refl

startup_failure_example :
    ((startup dark settings calm).1.engine ≡ closed)
    × (((startup dark settings calm).1.client ≡ opened) ↔ (calm.check_db_connection ≡ none))
startup_failure_example =
    startup_failure dark settings calm (jwks (jwks_provider_unavailable "jwks_fetch failed"))
      start_fails

startup_ready_example :
    IsConfigured (jwks_args settings) after_start
    × IsValid world after_start
    × ((t : ℕ) × (after_start.fetched_at ≡ some t))
    × (contains verifier.audiences "pet" ≡ true)
    × (contains verifier.allowed_algorithms "none" ≡ false)
startup_ready_example =
    startup_ready world settings calm after_start verifier world-IsMonotonic start_succeeds

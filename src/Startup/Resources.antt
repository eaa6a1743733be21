-- ===== src/Startup/Resources.antt =====
-- Which resources the lifespan leaves open.
use fukawa.Prelude.{◌≡◌, ◌↔◌, none, true, arith, Option-cases, inl, inr}
use fukawa.Prelude.Result.{ok, err, Result-cases}
use fukawa.Infra.Jwks.{World}
use fukawa.Startup.{
  opened, closed, KeycloakSettings, Outside, StartupError, Auth, build_auth, startup, shutdown,
}

module _ (w : World) (settings : KeycloakSettings) (out : Outside) where
  -- A start that fails disposes of the engine. It leaves the HTTP client open exactly if the database
  -- could be reached, that is if the failure is one of the authentication components, because the
  -- client is not yet known to the lifespan then.
  pub startup_failure :
      (e : StartupError)
      → (startup w settings out).0 ≡ err e
      → ((startup w settings out).1.engine ≡ closed)
        × (((startup w settings out).1.client ≡ opened) ↔ (out.check_db_connection ≡ none))
  unfolding startup
  startup_failure e h = elim (Option-cases out.check_db_connection) [
    | inr (m, down) ↦ ground arith
    | inl up ↦ elim (Result-cases (build_auth w settings)) [
      | inl (auth, built) ↦ absurd (ground arith)
      | inr (x, broken) ↦ ground arith
    ]
  ]

  -- A start that succeeds has built both components, and whatever closing raises, the shutdown closes
  -- the engine and the client.
  pub startup-shutdown :
      (auth : Auth)
      → (startup w settings out).0 ≡ ok auth
      → (build_auth w settings ≡ ok auth)
        × ((startup w settings out).1
            ≡ record { engine = opened; client = opened; client_known = true })
        × (shutdown w settings out (startup w settings out).1
            ≡ record { engine = closed; client = closed; client_known = true })
  unfolding startup shutdown
  startup-shutdown auth h = elim (Option-cases out.check_db_connection) [
    | inr (m, down) ↦ absurd (ground arith)
    | inl up ↦ elim (Result-cases (build_auth w settings)) [
      | inl (built_auth, built) ↦ ground arith
      | inr (x, broken) ↦ absurd (ground arith)
    ]
  ]

-- ===== src/Startup/Ready.antt =====
-- What a successful start has built.
use fukawa.Prelude.{
  ℕ, String, ◌≡◌, sym, ap, ◌∙◌, false, true, List, [], ◌∷◌, ◌++◌, some, unique, contains,
  contains-unique, contains-append, eq_iff, arith, inl, inr,
}
use fukawa.Prelude.Result.{Result, ok, Result-cases}
use fukawa.Infra.Jwks
use fukawa.Infra.Jwks.{Provider, World, JwksProviderError}
use fukawa.Infra.Jwks.Refresh.{IsMonotonic, IsValid, refresh-outcome}
use fukawa.Infra.Jwks.Invariant.{here, next, started}
use fukawa.Infra.Jwks.Created.{IsConfigured, created_stays-IsValid}
use fukawa.Infra.Verifier.{KeycloakVerifier, create_verifier}
use fukawa.Infra.Verifier.Trust.{created-refuses_none}
use fukawa.Startup.{KeycloakSettings, Outside, jwks_args, build_auth, startup}
use fukawa.Startup.Resources.{startup-shutdown}

-- The two components, as their constructors and the first fetch have made them.
pub record IsBuilt (w : World) (settings : KeycloakSettings) (p : Provider) (v : KeycloakVerifier)
    : Type 0 where
  pub new : Provider
  pub created : Jwks.create (jwks_args settings) ≡ ok new
  pub fetched : Jwks.start w new ≡ (ok tt, p)
  pub verifier :
      create_verifier settings.issuer_url
        (unique (settings.audience ++ settings.client_id ∷ []))
        settings.allowed_algorithms
        settings.leeway_seconds
      ≡ ok v

pub build_auth-IsBuilt :
    (w : World) (settings : KeycloakSettings) (p : Provider) (v : KeycloakVerifier)
    → build_auth w settings ≡ ok (p, v)
    → IsBuilt w settings p v
unfolding build_auth
build_auth-IsBuilt w settings p v h = elim (Result-cases (Jwks.create (jwks_args settings))) [
  | inr (m, e) ↦ absurd (ground arith)
  | inl (s, made) ↦ elim (Result-cases (Jwks.start w s).0) [
    | inr (x, e) ↦ absurd (ground arith)
    | inl (_, ran) ↦
        elim (Result-cases (
          create_verifier settings.issuer_url
            (unique (settings.audience ++ settings.client_id ∷ [])) settings.allowed_algorithms
            settings.leeway_seconds)) [
              | inr (m, e) ↦ absurd (ground arith)
              | inl (u, built) ↦ record {
                new = s;
                created = made;
                fetched = ground arith;
                verifier = ground arith;
              }
            ]
  ]
]

started-fetched :
    (w : World) (s p : Provider)
    → Jwks.start w s ≡ (ok tt, p)
    → p.fetched_at ≡ some (w.clock s.readings)
unfolding Jwks.start
started-fetched w s p h = elim (refresh-outcome w s) [
  | inl (m, bad, e) ↦ cc
  | inr (d, keyed, e) ↦
      ap (λ (r : Result JwksProviderError (Unit {0}) × Provider). r.1.fetched_at) (sym h ∙ e)
]

created-audiences :
    (issuer client_id : String) (audience algorithms : List String) (leeway : ℕ)
    (v : KeycloakVerifier)
    → create_verifier issuer (unique (audience ++ client_id ∷ [])) algorithms leeway ≡ ok v
    → contains v.audiences client_id ≡ true
unfolding create_verifier
created-audiences issuer client_id audience algorithms leeway v made = ground (
  arith,
  contains-unique (unique (audience ++ client_id ∷ [])) client_id,
  contains-unique (audience ++ client_id ∷ []) client_id,
  contains-append audience (client_id ∷ []) client_id,
  eq_iff client_id client_id,
)

-- A start that succeeds has a provider with the configured limits, both of them positive, that has
-- fetched its keys and holds only usable ones under their own kids, and a verifier that accepts the
-- client itself as an audience and does not allow the algorithm "none", if the clock does not go back.
pub startup_ready :
    (w : World) (settings : KeycloakSettings) (out : Outside) (p : Provider) (v : KeycloakVerifier)
    → IsMonotonic w.clock
    → (startup w settings out).0 ≡ ok (p, v)
    → IsConfigured (jwks_args settings) p
      × IsValid w p
      × ((t : ℕ) × (p.fetched_at ≡ some t))
      × (contains v.audiences settings.client_id ≡ true)
      × (contains v.allowed_algorithms "none" ≡ false)
startup_ready w settings out p v mono h =
    let b : IsBuilt w settings p v =
      build_auth-IsBuilt w settings p v (startup-shutdown w settings out (p, v) h).0 in
    let (configured, valid) = created_stays-IsValid w (jwks_args settings) b.new p mono b.created (
      next here (
        started
          (sym (ap (λ (r : Result JwksProviderError (Unit {0}) × Provider). r.1) b.fetched)))) in
    (
      configured,
      valid,
      (w.clock b.new.readings, started-fetched w b.new p b.fetched),
      created-audiences settings.issuer_url settings.client_id settings.audience
          settings.allowed_algorithms settings.leeway_seconds v b.verifier,
      created-refuses_none v settings.issuer_url
          (unique (settings.audience ++ settings.client_id ∷ [])) settings.allowed_algorithms
          settings.leeway_seconds b.verifier,
    )

-- ===== src/Startup/Configured.antt =====
-- src/pet/config/settings.py with the constructors that src/pet/di/auth.py calls.
use Prim.Native.Nat.{◌*◌, zero, suc}
use fukawa.Prelude.{
  subst, ◌≢◌, [], ◌∷◌, none, Option, false≢true, some-eq, ℕ, String, false, ◌≤◌, ◌≡◌, ◌↔◌, refl,
  sym, ap, ◌∙◌, arith, some, contains,
}
use fukawa.Prelude.Text.{is_blank}
use fukawa.Prelude.Result.{ok, bind_ok, ok-eq}
use fukawa.Infra.Jwks.{World, is_non_positive, is_negative, ℤ, pos, negsuc}
use fukawa.Startup.{KeycloakSettings, Auth, jwks_args, build_auth}
use fukawa.Startup.Settings.{
  KeycloakFields, or_default, keycloak_settings, required, required-ok, at_least_0,
}
use fukawa.Startup.Ready.{IsBuilt, build_auth-IsBuilt}
use fukawa.Startup.Accepted.{
  Serves, start-Serves, start-of, IsSound, create-IsSound, create-IsNew, create-of, verifier_made,
  verifier_algorithms,
}

-- What the constructors ask beyond the validation, and a first fetch that goes through.
pub record IsStartable (w : World) (f : KeycloakFields) : Type 0 where
  pub uri : f.jwks_uri ≢ some ""
  pub ttl : f.jwks_cache_ttl_seconds ≢ some (pos 0)
  pub timeout : f.http_timeout_seconds ≢ some (pos 0)
  pub algorithms : contains (or_default ("RS256" ∷ []) f.allowed_algorithms) "none" ≡ false
  pub serves : Serves w

-- The settings that fields have been validated to.
record IsValidated (second : ℕ) (f : KeycloakFields) (s : KeycloakSettings) : Type 0 where
  uri : f.jwks_uri ≡ some s.jwks_uri
  ttl_seconds : ℕ
  ttl_read : or_default (pos 300) f.jwks_cache_ttl_seconds ≡ pos ttl_seconds
  ttl : s.jwks_cache_ttl_seconds ≡ pos (ttl_seconds * second)
  timeout_ticks : ℕ
  timeout_read : or_default (pos (5 * second)) f.http_timeout_seconds ≡ pos timeout_ticks
  timeout : s.http_timeout_seconds ≡ pos timeout_ticks
  stale : s.default_max_stale ≡ pos (300 * second)
  interval : s.default_min_forced_refresh_interval ≡ pos (5 * second)
  algorithms : s.allowed_algorithms ≡ or_default ("RS256" ∷ []) f.allowed_algorithms

at_least_0-ok : (n : ℤ) (m : ℕ) → at_least_0 n ≡ ok m → n ≡ pos m
at_least_0-ok (pos n) m h = ground arith
at_least_0-ok (negsuc n) m h = absurd (ground arith)

keycloak_settings-IsValidated :
    (second : ℕ) (f : KeycloakFields) (settings : KeycloakSettings)
    → keycloak_settings second f ≡ ok settings
    → IsValidated second f settings
unfolding keycloak_settings
keycloak_settings-IsValidated second f settings valid =
    let (hostname, h0, v0) = bind_ok (required f.hostname) _ settings valid in
    let (issuer, h1, v1) = bind_ok (required f.issuer_url) _ settings v0 in
    let (uri, h2, v2) = bind_ok (required f.jwks_uri) _ settings v1 in
    let (client, h3, v3) = bind_ok (required f.client_id) _ settings v2 in
    let (ttl, h4, v4) =
      bind_ok (at_least_0 (or_default (pos 300) f.jwks_cache_ttl_seconds)) _ settings v3 in
    let (leeway, h5, v5) =
      bind_ok (at_least_0 (or_default (pos 30) f.leeway_seconds)) _ settings v4 in
    let (timeout, h6, v6) =
      bind_ok (at_least_0 (or_default (pos (5 * second)) f.http_timeout_seconds)) _ settings v5 in
    subst (IsValidated second f) (ok-eq v6) (record {
      uri = required-ok f.jwks_uri uri h2;
      ttl_seconds = ttl;
      ttl_read = at_least_0-ok _ ttl h4;
      ttl = refl;
      timeout_ticks = timeout;
      timeout_read = at_least_0-ok _ timeout h6;
      timeout = refl;
      stale = refl;
      interval = refl;
      algorithms = refl;
    })

filled : (s : String) → s ≢ "" → is_blank s ≡ false
filled String.[] h = absurd (h refl)
filled (String.◌∷◌ c s) h = refl

-- the two zeros that the validation lets through
non_zero_iff :
    (d : ℕ) (o : Option ℤ) (n : ℕ)
    → 1 ≤ d
    → or_default (pos d) o ≡ pos n
    → (o ≢ some (pos 0)) ↔ (1 ≤ n)
non_zero_iff d none n h e = (λ k. ground arith, λ k z. ground arith)
non_zero_iff d (some z) zero h e = (λ k. absurd (k (ap some e)), λ k x. ground arith)
non_zero_iff d (some z) (suc n) h e = (λ k. omega arith, λ k x. ground arith)

product_positive : (m n : ℕ) → 1 ≤ n → (1 ≤ m * n) ↔ (1 ≤ m)
product_positive zero n h = (λ k. omega arith, λ k. omega arith)
product_positive (suc m) n h = (λ k. omega arith, λ k. omega arith)

positive_iff : (z : ℤ) (n : ℕ) → z ≡ pos n → (is_non_positive z ≡ false) ↔ (1 ≤ n)
positive_iff z n e = (λ h. ground arith, λ h. ground arith)

-- Validated settings start the two authentication components exactly if the URI of the keys is not empty,
-- neither the life of the cache nor the timeout is given as 0, the algorithm "none" is not allowed, and the first answer
-- of the identity provider is an acceptable set of keys.
pub builds_iff :
    (w : World) (second : ℕ) (f : KeycloakFields) (settings : KeycloakSettings)
    → 1 ≤ second
    → keycloak_settings second f ≡ ok settings
    → ((auth : Auth) × (build_auth w settings ≡ ok auth)) ↔ IsStartable w f
unfolding build_auth
builds_iff w second f settings tick valid =
    let is : IsValidated second f settings =
      keycloak_settings-IsValidated second f settings valid in
    let ttl = non_zero_iff 300 f.jwks_cache_ttl_seconds is.ttl_seconds (omega arith) is.ttl_read in
    let timeout =
      non_zero_iff (5 * second) f.http_timeout_seconds is.timeout_ticks (omega arith)
        is.timeout_read in
    (
      λ ((p, v), built).
          let b : IsBuilt w settings p v = build_auth-IsBuilt w settings p v built in
          let sound : IsSound (jwks_args settings) = create-IsSound _ b.new b.created in
          record {
            uri = λ e. false≢true (sym sound.uri ∙ ap is_blank (some-eq (sym is.uri ∙ e)));
            ttl = ttl.1 (
                (product_positive is.ttl_seconds second tick).0
                  ((positive_iff _ _ is.ttl).0 sound.ttl));
            timeout = timeout.1 ((positive_iff _ _ is.timeout).0 sound.timeout);
            algorithms =
                subst (λ xs. contains xs "none" ≡ false) is.algorithms
                  (verifier_algorithms _ _ _ _ v b.verifier);
            serves = start-Serves w b.new p (create-IsNew _ b.new refl b.created) b.fetched;
          },
      λ s.
          let (new, made) = create-of (jwks_args settings) (record {
            uri = filled settings.jwks_uri (λ e. s.uri (is.uri ∙ ap some e));
            ttl =
                (positive_iff _ _ is.ttl).1
                  ((product_positive is.ttl_seconds second tick).1 (ttl.0 s.ttl));
            stale = ap is_negative is.stale;
            interval = (positive_iff _ _ is.interval).1 (omega arith);
            timeout = (positive_iff _ _ is.timeout).1 (timeout.0 s.timeout);
          }) in
          let (p, ran) = start-of w new (create-IsNew _ new refl made) s.serves in
          let (v, checked) =
            verifier_made settings.issuer_url settings.client_id settings.audience
              settings.allowed_algorithms settings.leeway_seconds
              (subst (λ xs. contains xs "none" ≡ false) (sym is.algorithms) s.algorithms) in
          ((p, v), ground (arith, made, ran, checked)),
    )

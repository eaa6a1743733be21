-- ===== src/Infra/Jwks/Outage.antt =====
-- An outage of the identity provider.
use fukawa.Prelude.{ℕ, suc, ◌+◌, ◌-◌, ◌≤◌, String, ◌≡◌, ap, ◌∙◌, some, arith, none, inl, inr}
use fukawa.Prelude.Dict.{lookup}
use fukawa.Prelude.Result.{ok, err}
use fukawa.Infra.Jwks.Keys.{PyJwk, JwksProviderError, jwks_provider_unavailable}
use fukawa.Infra.Jwks.Cache.{
  Provider, World, get_unlocked, get_signing_key, refresh, refresh_and_find,
}
use fukawa.Infra.Jwks.Refresh.{failed, refresh-outcome}
use fukawa.Infra.Jwks.Outcome.{tick, locked_stale}
use fukawa.Infra.Jwks.Promises.{entered, unlocked_busy}

module _ (w : World) where
  refresh_failed :
      (s : Provider) (e : JwksProviderError)
      → (refresh w s).0 ≡ err e
      → refresh w s ≡ (err e, failed w s)
  refresh_failed s e h = elim (refresh-outcome w s) [
    | inl (m, bad, q) ↦ cc
    | inr (d, keyed, q) ↦ cc
  ]

  find_in_outage :
      (kid : String) (s : Provider) (key : PyJwk) (t : ℕ) (m : String)
      → refresh w s ≡ (err (jwks_provider_unavailable m), failed w s)
      → s.fetched_at ≡ some t
      → w.clock s.readings - t ≤ s.max_stale + s.cache_ttl
      → refresh_and_find w kid (some key) s ≡ (ok key, tick (tick (failed w s)))
  unfolding refresh_and_find
  find_in_outage kid s key t m down once young = ground arith

  -- During an outage, that is when the fetch fails or what it brings is refused, a key that the test
  -- before the lock did not find fresh and whose cache, once the lock is held, is
  -- past the TTL is still served, after that one failed fetch and with the cache as it was, as long as
  -- the next reading of the clock finds the cache no older than the TTL and the allowed staleness
  -- together.
  pub outage_serves_stale :
      (wait : Provider → Provider) (kid : String) (s : Provider) (key : PyJwk) (t : ℕ) (m : String)
      → let u : Provider = entered w wait kid s in
        (get_unlocked w (lookup kid s.keys_by_kid) s).0 ≡ ok none
        → lookup kid u.keys_by_kid ≡ some key
        → u.fetched_at ≡ some t
        → u.cache_ttl ≤ w.clock u.readings - t
        → w.clock (suc u.readings) - t ≤ u.max_stale + u.cache_ttl
        → (refresh w (tick u)).0 ≡ err (jwks_provider_unavailable m)
        → get_signing_key w wait kid s ≡ (ok key, tick (tick (failed w (tick u))))
  outage_serves_stale wait kid s key t m busy there once old young down =
      let u : Provider = entered w wait kid s in
      unlocked_busy w wait kid s busy
      ∙ locked_stale w kid u t once (ground arith)
      ∙ ap (λ k. refresh_and_find w kid k (tick u)) there
      ∙ find_in_outage kid (tick u) key t m
          (refresh_failed (tick u) (jwks_provider_unavailable m) down) once young

-- ===== src/Infra/Jwks/Lookup.antt =====
-- What stands behind a key that a call on the provider returns.
use fukawa.Prelude.{
  ℕ, suc, ◌+◌, ◌-◌, ◌≤◌, ◌<◌, String, ◌≡◌, refl, Option, none, some, arith, ◌⊎◌, inl, inr,
  Option-cases, Bool-cases, leb,
}
use native.Mathlib.Nat.{le_refl}
use fukawa.Prelude.Dict.{lookup}
use fukawa.Prelude.Result.{ok}
use fukawa.Infra.Jwks.Keys.{PyJwk}
use fukawa.Infra.Jwks.Cache.{Provider, World, get_locked, get_unlocked, get_signing_key}
use fukawa.Infra.Jwks.Outcome.{
  tick, after_forced, Found, brought, missing, fallback, refused, Locked, hit, limited, forced,
  stale, first,
}
use fukawa.Infra.Jwks.Frame.{Outcome}

module _ (w : World) where
  -- What a key that is returned has behind it: it is in the cache under the kid, and some reading
  -- of the clock during the call found the cache no older than the limit.
  pub record Backed (kid : String) (key : PyJwk) (first_reading : ℕ) (s : Provider) : Type 0 where
    pub cached : lookup kid s.keys_by_kid ≡ some key
    pub reading : ℕ
    pub fetch_time : ℕ
    pub since : first_reading ≤ reading
    pub until : reading < s.readings
    pub fetched : s.fetched_at ≡ some fetch_time
    pub young : w.clock reading - fetch_time ≤ s.max_stale + s.cache_ttl

  Found-Backed :
      (kid : String) (key : Option PyJwk) (s : Provider) (r : Outcome w)
      → Found w kid key s r
      → (k : PyJwk) → r.0 ≡ ok k
      → ((x : PyJwk) → key ≡ some x → lookup kid s.keys_by_kid ≡ some x)
      → Backed kid k s.readings r.1
  Found-Backed kid key s r (brought d k' keyed there e) k h known = rw e record {
    cached = cc (there, h, e);
    reading = s.readings;
    fetch_time = w.clock s.readings;
    since = le_refl _;
    until = le_refl _;
    fetched = refl;
    young = omega arith;
  }
  Found-Backed kid key s r (missing d keyed absent e) k h known = cc
  Found-Backed kid key s r (fallback bad k' t had once young e) k h known = rw e record {
    cached = cc (known k' had, h, e);
    reading = s.readings;
    fetch_time = t;
    since = le_refl _;
    until = omega arith;
    fetched = once;
    young = young;
  }
  Found-Backed kid key s r (refused bad m e) k h known = cc

  pub Locked-Backed :
      (kid : String) (s : Provider) (r : Outcome w)
      → Locked w kid s r
      → (k : PyJwk) → r.0 ≡ ok k
      → Backed kid k s.readings r.1
  Locked-Backed kid s r (hit key t there once fresh e) k h = rw e record {
    cached = cc (there, h, e);
    reading = s.readings;
    fetch_time = t;
    since = le_refl _;
    until = le_refl _;
    fetched = once;
    young = omega arith;
  }
  Locked-Backed kid s r (limited t absent once fresh early e) k h = cc
  Locked-Backed kid s r (forced t absent once fresh late f) k h =
      earlier (Found-Backed kid none (after_forced w s) r f k h (λ x e. cc))
    where
      earlier : Backed kid k (suc (suc s.readings)) r.1 → Backed kid k s.readings r.1
      earlier b = ground arith
  Locked-Backed kid s r (stale t once old f) k h =
      earlier (Found-Backed kid (lookup kid s.keys_by_kid) (tick s) r f k h (λ x e. e))
    where
      earlier : Backed kid k (suc s.readings) r.1 → Backed kid k s.readings r.1
      earlier b = ground arith
  Locked-Backed kid s r (first never f) k h =
      Found-Backed kid (lookup kid s.keys_by_kid) s r f k h (λ x e. e)

  -- The test before the lock answers, or the section under the lock does.
  pub signing_key_cases :
      (wait : Provider → Provider) (kid : String) (s : Provider)
      → ((key : PyJwk) × (t : ℕ) × (lookup kid s.keys_by_kid ≡ some key)
          × (s.fetched_at ≡ some t)
          × (w.clock s.readings - t < s.cache_ttl)
          × (get_signing_key w wait kid s ≡ (ok key, tick s)))
        ⊎ (get_signing_key w wait kid s
            ≡ get_locked w kid (wait (get_unlocked w (lookup kid s.keys_by_kid) s).1))
  unfolding get_signing_key
  signing_key_cases wait kid s = elim (Option-cases (lookup kid s.keys_by_kid)) [
    | inl absent ↦ inr (ground arith)
    | inr (key, there) ↦ elim (Option-cases s.fetched_at) [
      | inl never ↦ inr (ground arith)
      | inr (t, once) ↦ elim (Bool-cases (leb s.cache_ttl (w.clock s.readings - t))) [
        | inl old ↦ inr (ground arith)
        | inr fresh ↦ inl (key, t, there, once, ground arith, ground arith)
      ]
    ]
  ]

-- ===== src/Infra/Jwks/Outcome.antt =====
-- What one call under the lock can come to, as a relation.
use fukawa.Prelude.{
  ℕ, suc, ◌+◌, ◌-◌, ◌≤◌, ◌<◌, String, ◌≡◌, refl, true, false, Option, none, some, arith, ◌⊎◌, inl,
  inr, ltb, leb, Option-cases, Bool-cases, ◌+++◌,
}
use fukawa.Prelude.Dict.{Dict, lookup}
use fukawa.Prelude.Result.{Result, ok, err}
use fukawa.Infra.Jwks.Keys.{
  PyJwk, JwksProviderError, jwks_provider_unavailable, signing_key_not_found,
}
use fukawa.Infra.Jwks.Cache.{
  Provider, World, refresh, refresh_and_find, get_locked, get_unlocked, is_stale, is_stale_usable,
}
use fukawa.Infra.Jwks.Refresh.{IsBrought, IsRefused, failed, refreshed, refresh-outcome}

-- One reading of the clock later.
abbrev pub tick : Provider → Provider
tick s = record s { readings = suc s.readings }

-- The age of the cache is read, which takes a reading only if there was a fetch.
abbrev pub age_of : Option ℕ → Provider → Provider
age_of none s = s
age_of (some _) s = tick s

abbrev pub age_read : Provider → Provider
age_read s = age_of s.fetched_at s

module _ (w : World) where
  -- The refresh of `get_signing_key` and what follows it, from the provider `s`, where the kid had
  -- the key `key` before.
  pub data Found (kid : String) (key : Option PyJwk) (s : Provider)
      (r : Result JwksProviderError PyJwk × Provider) : Type 0 where
    brought :
        (d : Dict PyJwk) (k : PyJwk)
        → IsBrought w s d
        → lookup kid d ≡ some k
        → r ≡ (ok k, refreshed w d s)
        → Found kid key s r
    missing :
        (d : Dict PyJwk)
        → IsBrought w s d
        → lookup kid d ≡ none
        → r ≡ (err (signing_key_not_found ("Unknown kid " +++ kid)), refreshed w d s)
        → Found kid key s r
    fallback :
        IsRefused w s
        → (k : PyJwk) (t : ℕ) → key ≡ some k
        → s.fetched_at ≡ some t
        → w.clock s.readings - t ≤ s.max_stale + s.cache_ttl
        → r ≡ (ok k, tick (tick (failed w s)))
        → Found kid key s r
    refused :
        IsRefused w s
        → (m : String) → r ≡ (err (jwks_provider_unavailable m), age_read (failed w s))
        → Found kid key s r

  Found-refreshed :
      (kid : String) (key : Option PyJwk) (s : Provider) (d : Dict PyJwk)
      → IsBrought w s d
      → refresh w s ≡ (ok tt, refreshed w d s)
      → Found kid key s (refresh_and_find w kid key s)
  unfolding refresh_and_find
  Found-refreshed kid key s d got e = elim (Option-cases (lookup kid d)) [
    | inl absent ↦ missing d got absent (ground arith)
    | inr (k, there) ↦ brought d k got there (ground arith)
  ]

  Found-failed :
      (kid : String) (key : Option PyJwk) (s : Provider) (m : String)
      → IsRefused w s
      → refresh w s ≡ (err (jwks_provider_unavailable m), failed w s)
      → (at : Option ℕ) → s.fetched_at ≡ at
      → Found kid key s (refresh_and_find w kid key s)
  unfolding refresh_and_find is_stale_usable
  Found-failed kid none s m bad e none never = refused bad m (ground arith)
  Found-failed kid none s m bad e (some t) once = refused bad m (ground arith)
  Found-failed kid (some k) s m bad e none never = refused bad m (ground arith)
  Found-failed kid (some k) s m bad e (some t) once =
      elim (Bool-cases (leb (w.clock s.readings - t) (s.max_stale + s.cache_ttl))) [
        | inl usable ↦ fallback bad k t refl once (ground arith) (ground arith)
        | inr old ↦ refused bad m (ground arith)
      ]

  pub refresh_and_find-Found :
      (kid : String) (key : Option PyJwk) (s : Provider)
      → Found kid key s (refresh_and_find w kid key s)
  refresh_and_find-Found kid key s = elim (refresh-outcome w s) [
    | inl (m, bad, e) ↦ Found-failed kid key s m bad e s.fetched_at refl
    | inr (d, got, e) ↦ Found-refreshed kid key s d got e
  ]

  -- the provider once a forced refresh is let through
  abbrev pub after_forced : Provider → Provider
  after_forced s = record s {
    readings = suc (suc s.readings);
    last_forced_refresh_at = w.clock (suc s.readings);
  }

  -- A whole call under the lock.
  pub data Locked (kid : String) (s : Provider) (r : Result JwksProviderError PyJwk × Provider)
      : Type 0 where
    hit :
        (key : PyJwk) (t : ℕ)
        → lookup kid s.keys_by_kid ≡ some key
        → s.fetched_at ≡ some t
        → w.clock s.readings - t < s.cache_ttl
        → r ≡ (ok key, tick s)
        → Locked kid s r
    limited :
        (t : ℕ)
        → lookup kid s.keys_by_kid ≡ none
        → s.fetched_at ≡ some t
        → w.clock s.readings - t < s.cache_ttl
        → w.clock (suc s.readings) - s.last_forced_refresh_at < s.min_forced_refresh_interval
        → r ≡ (err (signing_key_not_found "Unknown signing key"), tick (tick s))
        → Locked kid s r
    forced :
        (t : ℕ)
        → lookup kid s.keys_by_kid ≡ none
        → s.fetched_at ≡ some t
        → w.clock s.readings - t < s.cache_ttl
        → s.min_forced_refresh_interval ≤ w.clock (suc s.readings) - s.last_forced_refresh_at
        → Found kid none (after_forced s) r
        → Locked kid s r
    stale :
        (t : ℕ)
        → s.fetched_at ≡ some t
        → s.cache_ttl ≤ w.clock s.readings - t
        → Found kid (lookup kid s.keys_by_kid) (tick s) r
        → Locked kid s r
    first : s.fetched_at ≡ none → Found kid (lookup kid s.keys_by_kid) s r → Locked kid s r

  module _ (kid : String) (s : Provider) (t : ℕ) (once : s.fetched_at ≡ some t) where
    pub locked_hit :
        (key : PyJwk)
        → lookup kid s.keys_by_kid ≡ some key
        → leb s.cache_ttl (w.clock s.readings - t) ≡ false
        → get_locked w kid s ≡ (ok key, tick s)
    unfolding get_locked
    locked_hit key there fresh = ground arith

    locked_limited :
        lookup kid s.keys_by_kid ≡ none
        → leb s.cache_ttl (w.clock s.readings - t) ≡ false
        → ltb (w.clock (suc s.readings) - s.last_forced_refresh_at) s.min_forced_refresh_interval
          ≡ true
        → get_locked w kid s ≡ (err (signing_key_not_found "Unknown signing key"), tick (tick s))
    unfolding get_locked
    locked_limited absent fresh early = ground arith

    locked_forced :
        lookup kid s.keys_by_kid ≡ none
        → leb s.cache_ttl (w.clock s.readings - t) ≡ false
        → ltb (w.clock (suc s.readings) - s.last_forced_refresh_at) s.min_forced_refresh_interval
          ≡ false
        → get_locked w kid s ≡ refresh_and_find w kid none (after_forced s)
    unfolding get_locked
    locked_forced absent fresh late = ground arith

    pub locked_stale :
        leb s.cache_ttl (w.clock s.readings - t) ≡ true
        → get_locked w kid s ≡ refresh_and_find w kid (lookup kid s.keys_by_kid) (tick s)
    unfolding get_locked
    locked_stale old = elim (Option-cases (lookup kid s.keys_by_kid)) [
      | inl absent ↦ ground arith
      | inr (key, there) ↦ ground arith
    ]

  locked_first :
      (kid : String) (s : Provider)
      → s.fetched_at ≡ none
      → get_locked w kid s ≡ refresh_and_find w kid (lookup kid s.keys_by_kid) s
  unfolding get_locked
  locked_first kid s never = elim (Option-cases (lookup kid s.keys_by_kid)) [
    | inl absent ↦ ground arith
    | inr (key, there) ↦ ground arith
  ]

  Locked-fetched :
      (kid : String) (s : Provider) (t : ℕ)
      → s.fetched_at ≡ some t
      → Locked kid s (get_locked w kid s)
  Locked-fetched kid s t once = elim (Bool-cases (leb s.cache_ttl (w.clock s.readings - t))) [
    | inl old ↦ stale t once (ground arith) (
        rw (locked_stale kid s t once old)
          (refresh_and_find-Found kid (lookup kid s.keys_by_kid) (tick s)))
    | inr fresh ↦ elim (Option-cases (lookup kid s.keys_by_kid)) [
      | inr (key, there) ↦
          hit key t there once (ground arith) (locked_hit kid s t once key there fresh)
      | inl absent ↦
          elim (Bool-cases (
            ltb (w.clock (suc s.readings) - s.last_forced_refresh_at)
              s.min_forced_refresh_interval)) [
                | inl early ↦
                    limited t absent once (ground arith) (ground arith)
                      (locked_limited kid s t once absent fresh early)
                | inr late ↦ forced t absent once (ground arith) (ground arith) (
                    rw (locked_forced kid s t once absent fresh late)
                      (refresh_and_find-Found kid none (after_forced s)))
              ]
    ]
  ]

  pub get_locked-Locked : (kid : String) (s : Provider) → Locked kid s (get_locked w kid s)
  get_locked-Locked kid s = elim (Option-cases s.fetched_at) [
    | inl never ↦
        first never
          (rw (locked_first kid s never) (refresh_and_find-Found kid (lookup kid s.keys_by_kid) s))
    | inr (t, once) ↦ Locked-fetched kid s t once
  ]

  -- The test before the lock takes at most one reading.
  pub unlocked_reads :
      (found : Option PyJwk) (s : Provider) (at : Option ℕ)
      → s.fetched_at ≡ at
      → ((get_unlocked w found s).1 ≡ s) ⊎ ((get_unlocked w found s).1 ≡ tick s)
  unfolding is_stale
  unlocked_reads none s at e = inl refl
  unlocked_reads (some k) s none e = inl (ground arith)
  unlocked_reads (some k) s (some t) e = inr (ground arith)

-- ===== src/Infra/Jwks/Promises.antt =====
-- What `get_signing_key` promises to its caller.
use fukawa.Prelude.{
  ℕ, suc, ◌+◌, ◌-◌, ◌≤◌, ◌<◌, String, ◌≡◌, refl, sym, ap, subst, ◌∙◌, Option, none, some, arith,
  inl, inr, ◌+++◌,
}
use native.Mathlib.Nat.{le_trans, le_refl}
use fukawa.Prelude.Dict.{Dict, lookup}
use fukawa.Prelude.Result.{Result, ok, err}
use fukawa.Infra.Jwks.Keys.{
  PyJwk, JwksProviderError, jwks_provider_unavailable, signing_key_not_found,
}
use fukawa.Infra.Jwks.Cache.{Provider, World, get_locked, get_unlocked, get_signing_key, start}
use fukawa.Infra.Jwks.Parsing.{IsEntry, lookup-IsEntry}
use fukawa.Infra.Jwks.Refresh.{IsMonotonic, IsValid, failed, refresh-outcome}
use fukawa.Infra.Jwks.Outcome.{
  tick, age_of, after_forced, Found, brought, missing, fallback, refused, Locked, hit, limited,
  forced, stale, first, get_locked-Locked, locked_hit,
}
use fukawa.Infra.Jwks.Invariant.{unlocked, locked, Reach, here, next, Extends, Reach-IsValid}
use fukawa.Infra.Jwks.Frame.{Outcome, get_locked-Extends, unlocked-Extends, Reach-Extends}
use fukawa.Infra.Jwks.Fetched.{IsFetched, HasFetched, Reach-HasFetched, tick-HasFetched}
use fukawa.Infra.Jwks.Lookup.{Backed, Locked-Backed, signing_key_cases}

module _ (w : World) where
  -- What the other tasks do to the provider while a task waits for the lock.
  abbrev pub OthersOnly : (Provider → Provider) → Type 0
  OthersOnly wait = (s : Provider) → Reach w s (wait s)

  -- The key stands under the kid in the key set that the call leaves behind; the reading of the clock that the
  -- limit on age is held against, and the fetch of that set, to which it is held.
  pub record IsRecent (kid : String) (key : PyJwk) (s s' : Provider) : Type 0 where
    pub cached : lookup kid s'.keys_by_kid ≡ some key
    pub reading : ℕ
    pub fetch_time : ℕ
    pub since : s.readings ≤ reading
    pub until : reading < s'.readings
    pub fetched : s'.fetched_at ≡ some fetch_time
    pub young : w.clock reading - fetch_time ≤ s.max_stale + s.cache_ttl
    pub origin : IsFetched w s' fetch_time

  -- a provider as it is just before the section under the lock
  abbrev pub entered : (Provider → Provider) → String → Provider → Provider
  entered wait kid s = wait (get_unlocked w (lookup kid s.keys_by_kid) s).1

  entered-Extends :
      (wait : Provider → Provider) (kid : String) (s : Provider)
      → OthersOnly wait
      → Extends s (entered wait kid s)
  entered-Extends wait kid s others =
      let u : Provider = (get_unlocked w (lookup kid s.keys_by_kid) s).1 in
      let a : Extends s u = unlocked-Extends w (lookup kid s.keys_by_kid) s in
      let b : Extends u (wait u) = Reach-Extends w (others u) in ground arith

  entered-IsValid :
      (wait : Provider → Provider) (kid : String) (s : Provider)
      → IsMonotonic w.clock
      → IsValid w s
      → OthersOnly wait
      → IsValid w (entered wait kid s)
  entered-IsValid wait kid s mono v others =
      let u : Provider = (get_unlocked w (lookup kid s.keys_by_kid) s).1 in
      Reach-IsValid w mono (Reach-IsValid w mono v (next here (unlocked kid refl))) (others u)

  entered-HasFetched :
      (wait : Provider → Provider) (kid : String) (s : Provider)
      → HasFetched w s
      → OthersOnly wait
      → HasFetched w (entered wait kid s)
  entered-HasFetched wait kid s filled others =
      Reach-HasFetched w (Reach-HasFetched w filled (next here (unlocked kid refl)))
        (others (get_unlocked w (lookup kid s.keys_by_kid) s).1)

  trusted_locked :
      (kid : String) (s u : Provider) (key : PyJwk)
      → IsMonotonic w.clock
      → IsValid w u
      → HasFetched w u
      → Extends s u
      → (get_locked w kid u).0 ≡ ok key
      → IsEntry s.policy (kid, key) × IsRecent kid key s (get_locked w kid u).1
  trusted_locked kid s u key mono v filled x h =
      let r : Outcome w = get_locked w kid u in
      let b : Backed w kid key u.readings r.1 =
        Locked-Backed w kid u r (get_locked-Locked w kid u) key h in
      let y : Extends u r.1 = get_locked-Extends w kid u in
      let v' : IsValid w r.1 = Reach-IsValid w mono v (next here (locked kid refl)) in
      let e : IsEntry r.1.policy (kid, key) =
        lookup-IsEntry r.1.policy r.1.keys_by_kid kid key v'.keyed b.cached in
      (
        subst (λ p. IsEntry p (kid, key)) (y.policy ∙ x.policy) e,
        record {
          cached = b.cached;
          reading = b.reading;
          fetch_time = b.fetch_time;
          since = le_trans x.readings b.since;
          until = b.until;
          fetched = b.fetched;
          young = omega (arith, b.young, x.max_stale, x.cache_ttl, y.max_stale, y.cache_ttl);
          origin = Reach-HasFetched w filled (next here (locked kid refl)) b.fetch_time b.fetched;
        },
      )

  -- Under a clock that does not go back, a key that `get_signing_key` returns is usable, has the
  -- kid that was asked for, and stands under it in the key set that the provider holds after the call.
  -- That set is the last that was fetched and accepted, and some reading of the clock during the call
  -- found it no older than the TTL and the allowed staleness together, whatever other tasks do to the
  -- provider while this one waits for the lock. Before the call the provider is valid, and its cache, if it was
  -- ever filled, holds the last key set that was fetched and accepted.
  pub get_signing_key_trusted :
      (wait : Provider → Provider) (kid : String) (s : Provider) (key : PyJwk)
      → IsMonotonic w.clock
      → IsValid w s
      → HasFetched w s
      → OthersOnly wait
      → (get_signing_key w wait kid s).0 ≡ ok key
      → IsEntry s.policy (kid, key) × IsRecent kid key s (get_signing_key w wait kid s).1
  get_signing_key_trusted wait kid s key mono v filled others h =
      elim (signing_key_cases w wait kid s) [
        | inl (k, t, there, once, fresh, e) ↦
            let found : ok k ≡ ok key = sym (ap (λ (r : Outcome w). r.0) e) ∙ h in
            rw e (
              lookup-IsEntry s.policy s.keys_by_kid kid key v.keyed (cc (there, found)),
              record {
                cached = cc (there, found);
                reading = s.readings;
                fetch_time = t;
                since = le_refl _;
                until = le_refl _;
                fetched = once;
                young = omega arith;
                origin = tick-HasFetched w s filled t once;
              },
            )
        | inr e ↦
            let here_found : (get_locked w kid (entered wait kid s)).0 ≡ ok key =
              sym (ap (λ (r : Outcome w). r.0) e) ∙ h in
            rw e (
              trusted_locked kid s (entered wait kid s) key mono
                (entered-IsValid wait kid s mono v others)
                (entered-HasFetched wait kid s filled others) (entered-Extends wait kid s others)
                here_found)
      ]

  pub unlocked_busy :
      (wait : Provider → Provider) (kid : String) (s : Provider)
      → (get_unlocked w (lookup kid s.keys_by_kid) s).0 ≡ ok none
      → get_signing_key w wait kid s ≡ get_locked w kid (entered wait kid s)
  unfolding get_signing_key
  unlocked_busy wait kid s busy = ground arith

  -- A task that finds its kid missing or stale, and finds after its wait for the lock that another
  -- task has made it fresh, returns that key and makes no fetch.
  waiter_reuses_refresh :
      (wait : Provider → Provider) (kid : String) (s : Provider) (key : PyJwk) (t : ℕ)
      → (get_unlocked w (lookup kid s.keys_by_kid) s).0 ≡ ok none
      → lookup kid (entered wait kid s).keys_by_kid ≡ some key
      → (entered wait kid s).fetched_at ≡ some t
      → w.clock (entered wait kid s).readings - t < (entered wait kid s).cache_ttl
      → get_signing_key w wait kid s ≡ (ok key, tick (entered wait kid s))
  waiter_reuses_refresh wait kid s key t busy there once fresh =
      unlocked_busy wait kid s busy
      ∙ locked_hit w kid (entered wait kid s) t once key there (ground arith)

  -- After a start that succeeds, each key of the fetched set is served until the TTL has passed,
  -- with no further fetch and without the lock.
  start_serves_keys :
      (wait : Provider → Provider) (kid : String) (s s' : Provider) (key : PyJwk)
      → start w s ≡ (ok tt, s')
      → lookup kid s'.keys_by_kid ≡ some key
      → w.clock s'.readings - w.clock s.readings < s'.cache_ttl
      → get_signing_key w wait kid s' ≡ (ok key, tick s')
  unfolding get_signing_key start
  start_serves_keys wait kid s s' key began there fresh = elim (refresh-outcome w s) [
    | inl (m, bad, e) ↦ cc
    | inr (d, keyed, e) ↦
        let at : s'.fetched_at ≡ some (w.clock s.readings) =
          ap (λ (r : Result JwksProviderError (Unit {0}) × Provider). r.1.fetched_at)
            (sym began ∙ e) in
        ground arith
  ]

  -- What a call that raises `e` has done, from a cache with the keys `keys`, fetched at `at`, after
  -- `n` fetches.
  pub data Failure (kid : String) (keys : Dict PyJwk) (at : Option ℕ) (n : ℕ) (s' : Provider)
      (e : JwksProviderError) : Type 0 where
    outage :
        (m : String)
        → e ≡ jwks_provider_unavailable m
        → s'.keys_by_kid ≡ keys
        → s'.fetched_at ≡ at
        → s'.fetches ≡ suc n
        → Failure kid keys at n s' e
    throttled :
        (m : String)
        → e ≡ signing_key_not_found m
        → s'.keys_by_kid ≡ keys
        → lookup kid s'.keys_by_kid ≡ none
        → s'.fetched_at ≡ at
        → s'.fetches ≡ n
        → Failure kid keys at n s' e
    unknown :
        (m : String)
        → e ≡ signing_key_not_found m
        → lookup kid s'.keys_by_kid ≡ none
        → s'.fetches ≡ suc n
        → Failure kid keys at n s' e

  abbrev pub FailureFrom : String → Provider → Provider → JwksProviderError → Type 0
  FailureFrom kid u = Failure kid u.keys_by_kid u.fetched_at u.fetches

  aged_cache :
      (at : Option ℕ) (s : Provider)
      → ((age_of at s).keys_by_kid ≡ s.keys_by_kid)
        × ((age_of at s).fetched_at ≡ s.fetched_at)
        × ((age_of at s).fetches ≡ s.fetches)
  aged_cache none s = (refl, refl, refl)
  aged_cache (some _) s = (refl, refl, refl)

  Found-Failure :
      (kid : String) (key : Option PyJwk) (s : Provider) (r : Outcome w) (e : JwksProviderError)
      → Found w kid key s r
      → r.0 ≡ err e
      → FailureFrom kid s r.1 e
  Found-Failure kid key s r e (brought d k keyed there q) h = cc
  Found-Failure kid key s r e (missing d keyed absent q) h =
      rw q (unknown ("Unknown kid " +++ kid) (cc (q, h)) absent refl)
  Found-Failure kid key s r e (fallback bad k t had once young q) h = cc
  Found-Failure kid key s r e (refused bad m q) h =
      let a = aged_cache s.fetched_at (failed w s) in rw q (outage m (cc (q, h)) a.0 a.1 a.2)

  Locked-Failure :
      (kid : String) (s : Provider) (r : Outcome w) (e : JwksProviderError)
      → Locked w kid s r
      → r.0 ≡ err e
      → FailureFrom kid s r.1 e
  Locked-Failure kid s r e (hit key t there once fresh q) h = cc
  Locked-Failure kid s r e (limited t absent once fresh early q) h =
      rw q (throttled "Unknown signing key" (cc (q, h)) refl absent refl refl)
  Locked-Failure kid s r e (forced t absent once fresh late f) h =
      Found-Failure kid none (after_forced w s) r e f h
  Locked-Failure kid s r e (stale t once old f) h =
      Found-Failure kid (lookup kid s.keys_by_kid) (tick s) r e f h
  Locked-Failure kid s r e (first never f) h =
      Found-Failure kid (lookup kid s.keys_by_kid) s r e f h

  -- A call that raises entered the lock, and from there: an outage leaves the cached keys and the
  -- time of their fetch as they were, after one failed fetch; an unknown kid is refused either with
  -- no fetch, and the cache as it was, or after one fetch whose keys lack it.
  pub get_signing_key_failure :
      (wait : Provider → Provider) (kid : String) (s : Provider) (e : JwksProviderError)
      → (get_signing_key w wait kid s).0 ≡ err e
      → FailureFrom kid (entered wait kid s) (get_signing_key w wait kid s).1 e
  get_signing_key_failure wait kid s e h = elim (signing_key_cases w wait kid s) [
    | inl (k, t, there, once, fresh, q) ↦ cc
    | inr q ↦
        let u : Provider = entered wait kid s in
        let raised : (get_locked w kid u).0 ≡ err e = sym (ap (λ (r : Outcome w). r.0) q) ∙ h in
        rw q (Locked-Failure kid u (get_locked w kid u) e (get_locked-Locked w kid u) raised)
  ]

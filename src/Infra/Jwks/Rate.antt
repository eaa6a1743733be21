-- ===== src/Infra/Jwks/Rate.antt =====
-- The rate limit on refreshes that an unknown kid forces.
use fukawa.Prelude.{suc, ◌+◌, ◌-◌, ◌≤◌, String, ◌≡◌, refl, false, none, arith}
use fukawa.Prelude.Dict.{lookup}
use fukawa.Prelude.Result.{ok}
use fukawa.Infra.Jwks.Cache.{Provider, World, get_locked, is_stale}
use fukawa.Infra.Jwks.Refresh.{IsMonotonic, IsValid}
use fukawa.Infra.Jwks.Outcome.{
  after_forced, Locked, hit, limited, forced, stale, first, get_locked-Locked,
}
use fukawa.Infra.Jwks.Invariant.{locked, Reach, here, next, Reach-IsValid}
use fukawa.Infra.Jwks.Frame.{Outcome, Found-last, get_locked-Extends, Reach-Extends, Reach-last}

module _ (w : World) where
  -- A call under the lock that fetches for a kid that a fresh cache lacks.
  abbrev pub IsForcedFetch : String → Provider → Type 0
  IsForcedFetch kid s =
      (lookup kid s.keys_by_kid ≡ none)
      × ((is_stale w s).0 ≡ ok false)
      × ((get_locked w kid s).1.fetches ≡ suc s.fetches)

  -- Such a call has passed the rate limit, and has recorded its reading of the clock.
  record Passed (s : Provider) (r : Outcome w) : Type 0 where
    passed : s.min_forced_refresh_interval ≤ w.clock (suc s.readings) - s.last_forced_refresh_at
    recorded : r.1.last_forced_refresh_at ≡ w.clock (suc s.readings)

  forced-Passed :
      (kid : String) (s : Provider) (r : Outcome w)
      → Locked w kid s r
      → lookup kid s.keys_by_kid ≡ none
      → (is_stale w s).0 ≡ ok false
      → r.1.fetches ≡ suc s.fetches
      → Passed s r
  unfolding is_stale
  forced-Passed kid s r (hit key t there once fresh e) absent not_stale grew = cc
  forced-Passed kid s r (limited t _ once fresh early e) absent not_stale grew =
      absurd (ground arith)
  forced-Passed kid s r (forced t _ once fresh late f) absent not_stale grew = record {
    passed = late;
    recorded = Found-last w kid none (after_forced w s) r f;
  }
  forced-Passed kid s r (stale t once old f) absent not_stale grew = absurd (ground arith)
  forced-Passed kid s r (first never f) absent not_stale grew = absurd (ground arith)

  Passed-of : (kid : String) (s : Provider) → IsForcedFetch kid s → Passed s (get_locked w kid s)
  Passed-of kid s h =
      forced-Passed kid s (get_locked w kid s) (get_locked-Locked w kid s) h.0 h.1 h.2

  -- Between two fetches that unknown kids force on a fresh cache lies at least the configured
  -- interval, whatever kids they are for and whatever calls other tasks make in between, if the
  -- clock does not go back. Both times are the readings that the rate limit takes.
  pub forced_fetches_spaced :
      (kid kid' : String) {s t : Provider}
      → IsMonotonic w.clock
      → IsValid w s
      → IsForcedFetch kid s
      → Reach w (get_locked w kid s).1 t
      → IsForcedFetch kid' t
      → w.clock (suc s.readings) + s.min_forced_refresh_interval ≤ w.clock (suc t.readings)
  forced_fetches_spaced kid kid' {s} {t} mono v a reach b =
      let first_pass = Passed-of kid s a in
      let second_pass = Passed-of kid' t b in
      let u : Provider = (get_locked w kid s).1 in
      let vu : IsValid w u = Reach-IsValid w mono v (next here (locked kid refl)) in
      let vt : IsValid w t = Reach-IsValid w mono vu reach in
      let grows : u.last_forced_refresh_at ≤ t.last_forced_refresh_at =
        Reach-last w mono vu reach in
      let c1 : u.min_forced_refresh_interval ≡ s.min_forced_refresh_interval =
        (get_locked-Extends w kid s).interval in
      let c2 : t.min_forced_refresh_interval ≡ u.min_forced_refresh_interval =
        (Reach-Extends w reach).interval in
      omega (
        arith,
        first_pass.recorded,
        second_pass.passed,
        vt.forced_past,
        mono t.readings,
        grows,
        c1,
        c2,
      )

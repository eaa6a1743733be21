-- ===== src/Infra/Jwks/Frame.antt =====
-- What no call on the provider changes, and what only grows.
use fukawa.Prelude.{ℕ, ◌≤◌, String, ◌≡◌, refl, Option, none, some, arith, inl, inr}
use native.Mathlib.Nat.{le_trans, le_refl}
use fukawa.Prelude.Dict.{lookup}
use fukawa.Prelude.Result.{Result}
use fukawa.Infra.Jwks.Keys.{PyJwk, JwksProviderError}
use fukawa.Infra.Jwks.Cache.{Provider, World, get_locked, get_unlocked, start}
use fukawa.Infra.Jwks.Refresh.{IsMonotonic, IsValid, failed, refresh-outcome}
use fukawa.Infra.Jwks.Outcome.{
  tick, age_of, age_read, after_forced, Found, brought, missing, fallback, refused, Locked, hit,
  limited, forced, stale, first, get_locked-Locked, unlocked_reads,
}
use fukawa.Infra.Jwks.Invariant.{
  Step, started, unlocked, locked, Reach, here, next, Extends, Reach-IsValid,
}

age_of-last :
    (at : Option ℕ) (s : Provider) → (age_of at s).last_forced_refresh_at ≡ s.last_forced_refresh_at
age_of-last none s = refl
age_of-last (some _) s = refl

module _ (w : World) where
  abbrev pub Outcome : Type 0
  Outcome = Result JwksProviderError PyJwk × Provider

  -- What a refresh changes is the keys, the time of the fetch and the counts.
  pub Found-last :
      (kid : String) (key : Option PyJwk) (s : Provider) (r : Outcome)
      → Found w kid key s r
      → r.1.last_forced_refresh_at ≡ s.last_forced_refresh_at
  Found-last kid key s r (brought d k keyed there e) = rw e
  Found-last kid key s r (missing d keyed absent e) = rw e
  Found-last kid key s r (fallback bad k t had once young e) = rw e
  Found-last kid key s r (refused bad m e) = rw e (age_of-last s.fetched_at (failed w s))

  same : (s : Provider) → Extends s s
  same s = ground arith

  trans : (s t u : Provider) → Extends s t → Extends t u → Extends s u
  trans s t u a b = ground arith

  age_of-Extends : (at : Option ℕ) (s : Provider) → Extends s (age_of at s)
  age_of-Extends none s = same s
  age_of-Extends (some _) s = ground arith

  Found-Extends :
      (kid : String) (key : Option PyJwk) (s : Provider) (r : Outcome)
      → Found w kid key s r
      → Extends s r.1
  Found-Extends kid key s r (brought d k keyed there e) = rw e (ground arith)
  Found-Extends kid key s r (missing d keyed absent e) = rw e (ground arith)
  Found-Extends kid key s r (fallback bad k t had once young e) = rw e (ground arith)
  Found-Extends kid key s r (refused bad m e) = rw e (
      trans s (failed w s) (age_read (failed w s)) (ground arith)
        (age_of-Extends s.fetched_at (failed w s)))

  Locked-Extends : (kid : String) (s : Provider) (r : Outcome) → Locked w kid s r → Extends s r.1
  Locked-Extends kid s r (hit key t there once fresh e) = rw e (ground arith)
  Locked-Extends kid s r (limited t absent once fresh early e) = rw e (ground arith)
  Locked-Extends kid s r (forced t absent once fresh late f) =
      trans s (after_forced w s) r.1 (ground arith) (Found-Extends kid none (after_forced w s) r f)
  Locked-Extends kid s r (stale t once old f) =
      trans s (tick s) r.1 (ground arith)
        (Found-Extends kid (lookup kid s.keys_by_kid) (tick s) r f)
  Locked-Extends kid s r (first never f) = Found-Extends kid (lookup kid s.keys_by_kid) s r f

  pub get_locked-Extends : (kid : String) (s : Provider) → Extends s (get_locked w kid s).1
  get_locked-Extends kid s = Locked-Extends kid s (get_locked w kid s) (get_locked-Locked w kid s)

  pub unlocked-Extends :
      (found : Option PyJwk) (s : Provider) → Extends s (get_unlocked w found s).1
  unlocked-Extends found s = elim (unlocked_reads w found s s.fetched_at refl) [
    | inl e ↦ rw e (same s)
    | inr e ↦ rw e (ground arith)
  ]

  start-Extends : (s : Provider) → Extends s (start w s).1
  unfolding start
  start-Extends s = elim (refresh-outcome w s) [
    | inl (m, bad, e) ↦ rw e (ground arith)
    | inr (d, keyed, e) ↦ rw e (ground arith)
  ]

  Step-Extends : {s t : Provider} → Step w s t → Extends s t
  Step-Extends {s} (started e) = rw e (start-Extends s)
  Step-Extends {s} (unlocked kid e) = rw e (unlocked-Extends (lookup kid s.keys_by_kid) s)
  Step-Extends {s} (locked kid e) = rw e (get_locked-Extends kid s)

  -- No sequence of calls changes the key policy, the limits on age or the refresh interval, and the
  -- counts of clock readings and of fetches never fall.
  pub Reach-Extends : {s t : Provider} → Reach w s t → Extends s t
  Reach-Extends {s} here = same s
  Reach-Extends {s} {t = u} (next {t} r st) = trans s t u (Reach-Extends r) (Step-Extends st)

  module _ (mono : IsMonotonic w.clock) where
    Locked-last :
        (kid : String) (s : Provider) (r : Outcome)
        → IsValid w s
        → Locked w kid s r
        → s.last_forced_refresh_at ≤ r.1.last_forced_refresh_at
    Locked-last kid s r v (hit key t there once fresh e) = rw e (le_refl _)
    Locked-last kid s r v (limited t absent once fresh early e) = rw e (le_refl _)
    Locked-last kid s r v (forced t absent once fresh late f) =
        rw (Found-last kid none (after_forced w s) r f) (le_trans v.forced_past (mono s.readings))
    Locked-last kid s r v (stale t once old f) =
        rw (Found-last kid (lookup kid s.keys_by_kid) (tick s) r f) (le_refl _)
    Locked-last kid s r v (first never f) =
        rw (Found-last kid (lookup kid s.keys_by_kid) s r f) (le_refl _)

    Step-last :
        {s t : Provider}
        → IsValid w s
        → Step w s t
        → s.last_forced_refresh_at ≤ t.last_forced_refresh_at
    unfolding start
    Step-last {s} v (started e) = elim (refresh-outcome w s) [
      | inl (m, bad, q) ↦ rw (e, q) (le_refl _)
      | inr (d, keyed, q) ↦ rw (e, q) (le_refl _)
    ]
    Step-last {s} v (unlocked kid e) =
        elim (unlocked_reads w (lookup kid s.keys_by_kid) s s.fetched_at refl) [
          | inl q ↦ rw (e, q) (le_refl _)
          | inr q ↦ rw (e, q) (le_refl _)
        ]
    Step-last {s} v (locked kid e) =
        rw e (Locked-last kid s (get_locked w kid s) v (get_locked-Locked w kid s))

    pub Reach-last :
        {s t : Provider}
        → IsValid w s
        → Reach w s t
        → s.last_forced_refresh_at ≤ t.last_forced_refresh_at
    Reach-last v here = le_refl _
    Reach-last v (next r st) = le_trans (Reach-last v r) (Step-last (Reach-IsValid w mono v r) st)

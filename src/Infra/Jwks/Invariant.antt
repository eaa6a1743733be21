-- ===== src/Infra/Jwks/Invariant.antt =====
-- The calls that tasks make on one provider, in any order, and what they keep.
use fukawa.Prelude.{ℕ, suc, ◌≤◌, String, ◌≡◌, refl, ap, Option, none, some, arith, inl, inr}
use native.Mathlib.Nat.{le_trans}
use fukawa.Prelude.Dict.{Dict, lookup}
use fukawa.Prelude.Result.{Result}
use fukawa.Infra.Jwks.Keys.{PyJwk, JwksProviderError}
use fukawa.Infra.Jwks.Cache.{Provider, World, get_locked, get_unlocked, start}
use fukawa.Infra.Jwks.Parsing.{IsKeyed}
use fukawa.Infra.Jwks.Refresh.{IsMonotonic, IsValid, failed, refreshed, refresh-outcome}
use fukawa.Infra.Jwks.Outcome.{
  tick, age_of, after_forced, Found, brought, missing, fallback, refused, Locked, hit, limited,
  forced, stale, first, get_locked-Locked, unlocked_reads,
}

-- One call of a task: a start, the test before the lock, or the section under the lock, which no
-- other section interleaves.
pub data Step (w : World) (s t : Provider) : Type 0 where
  started : t ≡ (start w s).1 → Step w s t
  unlocked : (kid : String) → t ≡ (get_unlocked w (lookup kid s.keys_by_kid) s).1 → Step w s t
  locked : (kid : String) → t ≡ (get_locked w kid s).1 → Step w s t

pub data Reach (w : World) (s : Provider) : Provider → Type 0 where
  here : Reach w s s
  next : {t u : Provider} → Reach w s t → Step w t u → Reach w s u

-- What no call changes, and what only grows.
pub record Extends (s t : Provider) : Type 0 where
  pub policy : t.policy ≡ s.policy
  pub cache_ttl : t.cache_ttl ≡ s.cache_ttl
  pub max_stale : t.max_stale ≡ s.max_stale
  pub interval : t.min_forced_refresh_interval ≡ s.min_forced_refresh_interval
  pub readings : s.readings ≤ t.readings
  pub fetches : s.fetches ≤ t.fetches

module _ (w : World) (mono : IsMonotonic w.clock) where
  IsValid-tick : (s : Provider) → IsValid w s → IsValid w (tick s)
  IsValid-tick s v = record {
    keyed = v.keyed;
    fetched_past = λ t e. le_trans (v.fetched_past t e) (mono s.readings);
    forced_past = le_trans v.forced_past (mono s.readings);
    unfetched = v.unfetched;
  }

  IsValid-failed : (s : Provider) → IsValid w s → IsValid w (failed w s)
  IsValid-failed s v = record {
    keyed = v.keyed;
    fetched_past = v.fetched_past;
    forced_past = v.forced_past;
    unfetched = v.unfetched;
  }

  IsValid-refreshed :
      (s : Provider) (d : Dict PyJwk)
      → IsValid w s
      → IsKeyed s.policy d
      → IsValid w (refreshed w d s)
  IsValid-refreshed s d v keyed = record {
    keyed = keyed;
    fetched_past = λ t e. omega (arith, mono s.readings, ap at e);
    forced_past = le_trans v.forced_past (mono s.readings);
    unfetched = λ e. cc;
  }
    where
      at : Option ℕ → ℕ
      at none = 0
      at (some t) = t

  IsValid-forced : (s : Provider) → IsValid w s → IsValid w (after_forced w s)
  IsValid-forced s v = record {
    keyed = v.keyed;
    fetched_past =
        λ t e. le_trans (le_trans (v.fetched_past t e) (mono s.readings)) (mono (suc s.readings));
    forced_past = mono (suc s.readings);
    unfetched = v.unfetched;
  }

  IsValid-age_of : (at : Option ℕ) (s : Provider) → IsValid w s → IsValid w (age_of at s)
  IsValid-age_of none s v = v
  IsValid-age_of (some _) s v = IsValid-tick s v

  Found-IsValid :
      (kid : String) (key : Option PyJwk) (s : Provider)
      (r : Result JwksProviderError PyJwk × Provider)
      → IsValid w s
      → Found w kid key s r
      → IsValid w r.1
  Found-IsValid kid key s r v (brought d k got there e) = rw e (IsValid-refreshed s d v got.keyed)
  Found-IsValid kid key s r v (missing d got absent e) = rw e (IsValid-refreshed s d v got.keyed)
  Found-IsValid kid key s r v (fallback bad k t had once young e) =
      rw e (IsValid-tick (tick (failed w s)) (IsValid-tick (failed w s) (IsValid-failed s v)))
  Found-IsValid kid key s r v (refused bad m e) =
      rw e (IsValid-age_of s.fetched_at (failed w s) (IsValid-failed s v))

  Locked-IsValid :
      (kid : String) (s : Provider) (r : Result JwksProviderError PyJwk × Provider)
      → IsValid w s
      → Locked w kid s r
      → IsValid w r.1
  Locked-IsValid kid s r v (hit key t there once fresh e) = rw e (IsValid-tick s v)
  Locked-IsValid kid s r v (limited t absent once fresh early e) =
      rw e (IsValid-tick (tick s) (IsValid-tick s v))
  Locked-IsValid kid s r v (forced t absent once fresh late f) =
      Found-IsValid kid none (after_forced w s) r (IsValid-forced s v) f
  Locked-IsValid kid s r v (stale t once old f) =
      Found-IsValid kid (lookup kid s.keys_by_kid) (tick s) r (IsValid-tick s v) f
  Locked-IsValid kid s r v (first never f) = Found-IsValid kid (lookup kid s.keys_by_kid) s r v f

  start-IsValid : (s : Provider) → IsValid w s → IsValid w (start w s).1
  unfolding start
  start-IsValid s v = elim (refresh-outcome w s) [
    | inl (m, bad, e) ↦ rw e (IsValid-failed s v)
    | inr (d, got, e) ↦ rw e (IsValid-refreshed s d v got.keyed)
  ]

  unlocked-IsValid :
      (found : Option PyJwk) (s : Provider) → IsValid w s → IsValid w (get_unlocked w found s).1
  unlocked-IsValid found s v = elim (unlocked_reads w found s s.fetched_at refl) [
    | inl e ↦ rw e v
    | inr e ↦ rw e (IsValid-tick s v)
  ]

  Step-IsValid : {s t : Provider} → Step w s t → IsValid w s → IsValid w t
  Step-IsValid {s} (started e) v = rw e (start-IsValid s v)
  Step-IsValid {s} (unlocked kid e) v = rw e (unlocked-IsValid (lookup kid s.keys_by_kid) s v)
  Step-IsValid {s} (locked kid e) v =
      rw e (Locked-IsValid kid s (get_locked w kid s) v (get_locked-Locked w kid s))

  -- Under a clock that does not go back, any sequence of calls of any tasks keeps the invariant:
  -- every cached key is usable and stands under its own kid, no recorded time is in the future, and
  -- a provider that never fetched holds no key.
  pub Reach-IsValid : {s t : Provider} → IsValid w s → Reach w s t → IsValid w t
  Reach-IsValid v here = v
  Reach-IsValid v (next r st) = Step-IsValid st (Reach-IsValid v r)

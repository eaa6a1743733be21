-- ===== src/Infra/Jwks/Fetched.antt =====
-- Where the keys of the cache come from.
use fukawa.Prelude.{
  ℕ, suc, ◌≤◌, ◌<◌, String, ◌≡◌, ◌≢◌, subst, ◌⊎◌, refl, sym, ap, ◌∙◌, Option, none, some, some-eq,
  arith, inl, inr, Bool-cases, ltb,
}
use native.Mathlib.Nat.{le_refl}
use fukawa.Prelude.Dict.{Dict, lookup}
use fukawa.Prelude.Result.{ok}
use fukawa.Json.{Json}
use fukawa.Infra.Jwks.Keys.{PyJwk, parse_jwks}
use fukawa.Infra.Jwks.Cache.{Provider, World, payload, get_locked, get_unlocked, start}
use fukawa.Infra.Jwks.Refresh.{IsBrought, IsRefused, failed, refreshed, refresh-outcome}
use fukawa.Infra.Jwks.Outcome.{
  tick, age_of, after_forced, Found, brought, missing, fallback, refused, Locked, hit, limited,
  forced, stale, first, get_locked-Locked, unlocked_reads,
}
use fukawa.Infra.Jwks.Invariant.{Step, started, unlocked, locked, Reach, here, next}
use fukawa.Infra.Jwks.Frame.{Outcome}

lt_or_last : (m n : ℕ) → m < suc n → (m < n) ⊎ (m ≡ n)
lt_or_last m n h = elim (Bool-cases (ltb m n)) [
  | inl e ↦ inl (ground (arith, e))
  | inr e ↦ inr (ground (arith, e))
]

module _ (w : World) where
  -- All keys of the cache are those of one answer of the identity provider, the last of those fetched that the
  -- parsing accepts, and t is a reading of the clock.
  pub record IsFetched (s : Provider) (t : ℕ) : Type 0 where
    pub number : ℕ
    pub done : number < s.fetches
    pub body : Json
    pub answer : w.respond number ≡ payload body
    pub parsed : parse_jwks w.from_dict s.policy body ≡ ok s.keys_by_kid
    pub latest :
        (m : ℕ) (j : Json) (d : Dict PyJwk)
        → number < m
        → m < s.fetches
        → w.respond m ≡ payload j
        → parse_jwks w.from_dict s.policy j ≢ ok d
    pub reading : ℕ
    pub read : reading < s.readings
    pub at : t ≡ w.clock reading

  -- A cache that was filled at all holds the keys of the last acceptable answer.
  abbrev pub HasFetched : Provider → Type 0
  HasFetched s = (t : ℕ) → s.fetched_at ≡ some t → IsFetched s t

  -- The same cache, after some more readings and no fetch.
  record HasSameCache (s t : Provider) : Type 0 where
    keys : t.keys_by_kid ≡ s.keys_by_kid
    fetched : t.fetched_at ≡ s.fetched_at
    policy : t.policy ≡ s.policy
    readings : s.readings ≤ t.readings
    fetches : t.fetches ≡ s.fetches

  keep : (s t : Provider) → HasSameCache s t → HasFetched s → HasFetched t
  keep s t c f n e =
      let b : IsFetched s n = f n (sym c.fetched ∙ e) in
      record {
        number = b.number;
        done = omega (arith, b.done, c.fetches);
        body = b.body;
        answer = b.answer;
        parsed =
            ap (λ p. parse_jwks w.from_dict p b.body) c.policy
            ∙ b.parsed
            ∙ ap (λ (d : Dict PyJwk). ok d) (sym c.keys);
        latest = λ m j d after before there.
            subst (λ p. parse_jwks w.from_dict p j ≢ ok d) (sym c.policy)
              (b.latest m j d after (omega (arith, before, c.fetches)) there);
        reading = b.reading;
        read = omega (arith, b.read, c.readings);
        at = b.at;
      }

  pub tick-HasFetched : (s : Provider) → HasFetched s → HasFetched (tick s)
  tick-HasFetched s = keep s (tick s) (ground arith)

  keep_failed : (s : Provider) → IsRefused w s → HasFetched s → HasFetched (failed w s)
  keep_failed s bad f n e =
      let b : IsFetched s n = f n e in
      record {
        number = b.number;
        done = omega (arith, b.done);
        body = b.body;
        answer = b.answer;
        parsed = b.parsed;
        latest = λ m j d after before there. elim (lt_or_last m s.fetches before) [
          | inl earlier ↦ b.latest m j d after earlier there
          | inr last ↦ bad j d (ap w.respond (sym last) ∙ there)
        ];
        reading = b.reading;
        read = b.read;
        at = b.at;
      }

  keep_age : (at : Option ℕ) (s : Provider) → HasFetched s → HasFetched (age_of at s)
  keep_age none s f = f
  keep_age (some _) s f = tick-HasFetched s f

  refreshed-HasFetched :
      (s : Provider) (d : Dict PyJwk) → IsBrought w s d → HasFetched (refreshed w d s)
  refreshed-HasFetched s d got t e = record {
    number = s.fetches;
    done = le_refl _;
    body = got.body;
    answer = got.answer;
    parsed = got.parsed;
    latest = λ m j d' after before there. absurd (omega arith);
    reading = s.readings;
    read = le_refl _;
    at = sym (some-eq e);
  }

  Found-HasFetched :
      (kid : String) (key : Option PyJwk) (s : Provider) (r : Outcome w)
      → HasFetched s
      → Found w kid key s r
      → HasFetched r.1
  Found-HasFetched kid key s r f (brought d k got there e) = rw e (refreshed-HasFetched s d got)
  Found-HasFetched kid key s r f (missing d got absent e) = rw e (refreshed-HasFetched s d got)
  Found-HasFetched kid key s r f (fallback bad k t had once young e) =
      rw e
        (tick-HasFetched (tick (failed w s)) (tick-HasFetched (failed w s) (keep_failed s bad f)))
  Found-HasFetched kid key s r f (refused bad m e) =
      rw e (keep_age s.fetched_at (failed w s) (keep_failed s bad f))

  Locked-HasFetched :
      (kid : String) (s : Provider) (r : Outcome w)
      → HasFetched s
      → Locked w kid s r
      → HasFetched r.1
  Locked-HasFetched kid s r f (hit key t there once fresh e) = rw e (tick-HasFetched s f)
  Locked-HasFetched kid s r f (limited t absent once fresh early e) =
      rw e (tick-HasFetched (tick s) (tick-HasFetched s f))
  Locked-HasFetched kid s r f (forced t absent once fresh late x) =
      Found-HasFetched kid none (after_forced w s) r (keep s (after_forced w s) (ground arith) f) x
  Locked-HasFetched kid s r f (stale t once old x) =
      Found-HasFetched kid (lookup kid s.keys_by_kid) (tick s) r (tick-HasFetched s f) x
  Locked-HasFetched kid s r f (first never x) =
      Found-HasFetched kid (lookup kid s.keys_by_kid) s r f x

  start-HasFetched : (s : Provider) → HasFetched s → HasFetched (start w s).1
  unfolding start
  start-HasFetched s f = elim (refresh-outcome w s) [
    | inl (m, bad, e) ↦ rw e (keep_failed s bad f)
    | inr (d, got, e) ↦ rw e (refreshed-HasFetched s d got)
  ]

  unlocked-HasFetched :
      (found : Option PyJwk) (s : Provider) → HasFetched s → HasFetched (get_unlocked w found s).1
  unlocked-HasFetched found s f = elim (unlocked_reads w found s s.fetched_at refl) [
    | inl e ↦ rw e f
    | inr e ↦ rw e (tick-HasFetched s f)
  ]

  Step-HasFetched : {s t : Provider} → Step w s t → HasFetched s → HasFetched t
  Step-HasFetched {s} (started e) f = rw e (start-HasFetched s f)
  Step-HasFetched {s} (unlocked kid e) f = rw e (unlocked-HasFetched (lookup kid s.keys_by_kid) s f)
  Step-HasFetched {s} (locked kid e) f =
      rw e (Locked-HasFetched kid s (get_locked w kid s) f (get_locked-Locked w kid s))

  -- Whatever calls any tasks make, the cache stays as one fetch has filled it.
  pub Reach-HasFetched : {s t : Provider} → HasFetched s → Reach w s t → HasFetched t
  Reach-HasFetched f here = f
  Reach-HasFetched f (next r st) = Step-HasFetched st (Reach-HasFetched f r)

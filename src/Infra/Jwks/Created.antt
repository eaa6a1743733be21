-- ===== src/Infra/Jwks/Created.antt =====
-- Providers that the constructor has made, after any calls.
use fukawa.Prelude.{◌≤◌, ◌≡◌, sym, ap, ◌∙◌, arith}
use fukawa.Prelude.Result.{ok}
use fukawa.Infra.Jwks.Cache.{pos, Args, Provider, World, create}
use fukawa.Infra.Jwks.Refresh.{IsMonotonic, IsValid}
use fukawa.Infra.Jwks.Invariant.{Reach, Reach-IsValid, Extends}
use fukawa.Infra.Jwks.Frame.{Reach-Extends}

-- A provider whose limits are those of the arguments, and make sense.
pub record IsConfigured (a : Args) (s : Provider) : Type 0 where
  pub policy : s.policy ≡ a.policy
  pub cache_ttl : a.cache_ttl ≡ pos s.cache_ttl
  pub max_stale : a.max_stale ≡ pos s.max_stale
  pub interval : a.min_forced_refresh_interval ≡ pos s.min_forced_refresh_interval
  pub ttl_positive : 1 ≤ s.cache_ttl
  pub interval_positive : 1 ≤ s.min_forced_refresh_interval

create-IsConfigured : (a : Args) (s : Provider) → create a ≡ ok s → IsConfigured a s
unfolding create
create-IsConfigured a s h = ground arith

create-IsValid : (w : World) (a : Args) (s : Provider) → create a ≡ ok s → IsValid w s
unfolding create
create-IsValid w a s h = ground arith

-- A provider that its constructor let through has, after any calls of any tasks, the limits that it
-- was made with, a positive TTL and a positive refresh interval, and only usable keys under their
-- own kids, if the clock does not go back.
pub created_stays-IsValid :
    (w : World) (a : Args) (s t : Provider)
    → IsMonotonic w.clock
    → create a ≡ ok s
    → Reach w s t
    → IsConfigured a t × IsValid w t
created_stays-IsValid w a s t mono made reach =
    let c : IsConfigured a s = create-IsConfigured a s made in
    let x : Extends s t = Reach-Extends w reach in
    (
      record {
        policy = x.policy ∙ c.policy;
        cache_ttl = c.cache_ttl ∙ ap pos (sym x.cache_ttl);
        max_stale = c.max_stale ∙ ap pos (sym x.max_stale);
        interval = c.interval ∙ ap pos (sym x.interval);
        ttl_positive = omega (arith, x.cache_ttl, c.ttl_positive);
        interval_positive = omega (arith, x.interval, c.interval_positive);
      },
      Reach-IsValid w mono (create-IsValid w a s made) reach,
    )

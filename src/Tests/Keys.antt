-- ===== src/Tests/Keys.antt =====
-- The signing keys of src/pet/infra/auth/jwks.py: a provider that fetches the same key set every time.
use fukawa.Prelude.{◌+◌, ◌≤◌, ◌≡◌, refl, sym, ap, subst, Option, none, some, List, [], ◌∷◌, arith}
use fukawa.Prelude.Dict.{lookup}
use fukawa.Prelude.Result.{ok, err}
use fukawa.Json.{Fields, end, obj}
use fukawa.Infra.Jwks.{
  PyJwk, signing_key_not_found, jwks_provider_unavailable, refresh, default_policy, Provider, Args,
  pos, World, payload, request_error, create, start, is_stale, get_locked, get_unlocked,
  get_signing_key, parse_jwks, is_usable_signing_key, refresh_and_find,
}
use fukawa.Infra.Jwks.Parsing.{parse_jwks-eq-specified, specified, signing_keys, IsEntry}
use fukawa.Infra.Jwks.Refresh.{IsMonotonic, IsValid, failed}
use fukawa.Infra.Jwks.Outcome.{tick}
use fukawa.Infra.Jwks.Invariant.{Reach, here, next, started, locked, Reach-IsValid}
use fukawa.Infra.Jwks.Outage.{outage_serves_stale}
use fukawa.Infra.Jwks.Fetched.{HasFetched, Reach-HasFetched}
use fukawa.Infra.Jwks.Promises.{
  get_signing_key_trusted, IsRecent, OthersOnly, FailureFrom, entered, get_signing_key_failure,
}
use fukawa.Infra.Jwks.Rate.{IsForcedFetch, forced_fetches_spaced}

abbrev pub rsa_key : PyJwk
rsa_key = record {
  key_id = some "k1";
  key_type = some "RSA";
  public_key_use = some "sig";
  algorithm_name = some "RS256";
  key = 7;
}

abbrev one_key_set : Fields → Option (List PyJwk)
one_key_set fs = some (rsa_key ∷ [])

-- A clock that moves by one tick at each reading; every fetch brings the key set.
abbrev pub world : World
world = record { clock = λ i. 10 + i; respond = λ i. payload (obj end); from_dict = one_key_set }

pub world-IsMonotonic : IsMonotonic world.clock
world-IsMonotonic i = omega arith

abbrev pub new_provider : Provider
new_provider = record {
  jwks_uri = "https://id.example/certs";
  policy = default_policy;
  cache_ttl = 60;
  max_stale = 30;
  min_forced_refresh_interval = 1;
  keys_by_kid = [];
  last_forced_refresh_at = 0;
  fetched_at = none;
  readings = 0;
  fetches = 0;
}

abbrev pub after_start : Provider
after_start = record (new_provider) {
  keys_by_kid = ("k1", rsa_key) ∷ [];
  fetched_at = some 10;
  readings = 1;
  fetches = 1;
}

start_runs : start world new_provider ≡ (ok tt, after_start)
unfolding start parse_jwks is_usable_signing_key
start_runs = refl

abbrev after_unknown : Provider
after_unknown = record (after_start) {
  last_forced_refresh_at = 12;
  fetched_at = some 13;
  readings = 4;
  fetches = 2;
}

unknown_runs : (get_locked world "x" after_start).1 ≡ after_unknown
unfolding get_locked parse_jwks is_usable_signing_key refresh_and_find
unknown_runs = refl

abbrev args : Args
args = record {
  jwks_uri = "https://id.example/certs";
  http_timeout = pos 5;
  policy = default_policy;
  cache_ttl = pos 60;
  max_stale = pos 30;
  min_forced_refresh_interval = pos 1;
}

create_runs : create args ≡ ok new_provider
unfolding create
create_runs = refl

Reach-start : Reach world new_provider after_start
Reach-start = next here (started (ap (λ r. r.1) (sym start_runs)))

Reach-unknown : Reach world new_provider after_unknown
Reach-unknown = next Reach-start (locked "x" (sym unknown_runs))

new_provider-IsValid : IsValid world new_provider
new_provider-IsValid = record {
  keyed = tt;
  fetched_past = λ t h. absurd (ground arith);
  forced_past = omega arith;
  unfetched = λ h. refl;
}

pub after_start-IsValid : IsValid world after_start
after_start-IsValid = Reach-IsValid world world-IsMonotonic new_provider-IsValid Reach-start

new_provider-HasFetched : HasFetched world new_provider
new_provider-HasFetched t e = absurd (ground arith)

pub after_start-HasFetched : HasFetched world after_start
after_start-HasFetched = Reach-HasFetched world new_provider-HasFetched Reach-start

pub alone-OthersOnly : OthersOnly world (λ s. s)
alone-OthersOnly s = here

forced_x : IsForcedFetch world "x" after_start
unfolding get_locked parse_jwks is_usable_signing_key refresh_and_find is_stale
forced_x = (refl, refl, refl)

forced_y : IsForcedFetch world "y" after_unknown
unfolding get_locked parse_jwks is_usable_signing_key refresh_and_find is_stale
forced_y = (refl, refl, refl)

known_runs : get_signing_key world (λ s. s) "k1" after_start ≡ (ok rsa_key, tick after_start)
unfolding get_signing_key
known_runs = refl

unknown_refused :
    (get_signing_key world (λ s. s) "x" after_start).0 ≡ err (signing_key_not_found "Unknown kid x")
unfolding get_signing_key get_locked parse_jwks is_usable_signing_key refresh_and_find
unknown_refused = refl

missing_before_lock :
    (get_unlocked world (lookup "k1" new_provider.keys_by_kid) new_provider).0 ≡ ok none
unfolding is_stale
missing_before_lock = refl

get_signing_key_trusted_example :
    IsEntry default_policy ("k1", rsa_key)
    × IsRecent world "k1" rsa_key after_start (get_signing_key world (λ s. s) "k1" after_start).1
get_signing_key_trusted_example =
    get_signing_key_trusted world (λ s. s) "k1" after_start rsa_key world-IsMonotonic
      after_start-IsValid after_start-HasFetched alone-OthersOnly (ap (λ r. r.0) known_runs)

forced_fetches_spaced_example : 12 + 1 ≤ 15
forced_fetches_spaced_example =
    forced_fetches_spaced world "x" "y" world-IsMonotonic after_start-IsValid forced_x
      (subst (λ t. Reach world (get_locked world "x" after_start).1 t) unknown_runs here) forced_y

Reach-IsValid_example : IsValid world after_unknown
Reach-IsValid_example = Reach-IsValid world world-IsMonotonic new_provider-IsValid Reach-unknown

get_signing_key_failure_example :
    FailureFrom world "x"
      (entered world (λ s. s) "x" after_start)
      (get_signing_key world (λ s. s) "x" after_start).1
      (signing_key_not_found "Unknown kid x")
get_signing_key_failure_example =
    get_signing_key_failure world (λ s. s) "x" after_start (signing_key_not_found "Unknown kid x")
      unknown_refused

-- The same clock, but no HTTP call goes through; its first reading is 80.
abbrev dark_world : World
dark_world = record { clock = λ i. 80 + i; respond = λ i. request_error; from_dict = one_key_set }

missing_in_the_dark :
    (get_unlocked dark_world (lookup "k1" new_provider.keys_by_kid) new_provider).0 ≡ ok none
unfolding is_stale
missing_in_the_dark = refl

dark_refresh :
    (refresh dark_world (tick after_start)).0 ≡ err (jwks_provider_unavailable "jwks_fetch failed")
unfolding refresh
dark_refresh = refl

outage_serves_stale_example :
    get_signing_key dark_world (λ s. after_start) "k1" new_provider
    ≡ (ok rsa_key, tick (tick (failed dark_world (tick after_start))))
outage_serves_stale_example =
    outage_serves_stale dark_world (λ s. after_start) "k1" new_provider rsa_key 10
      "jwks_fetch failed" missing_in_the_dark refl refl (omega arith) (omega arith) dark_refresh

parse_runs : parse_jwks one_key_set default_policy (obj end) ≡ ok (("k1", rsa_key) ∷ [])
unfolding parse_jwks is_usable_signing_key
parse_runs = refl

parse_jwks-eq-specified_example :
    parse_jwks one_key_set default_policy (obj end)
    ≡ specified (signing_keys default_policy (rsa_key ∷ []))
parse_jwks-eq-specified_example =
    parse_jwks-eq-specified one_key_set default_policy end (rsa_key ∷ []) refl

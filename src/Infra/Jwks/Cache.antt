-- ===== src/Infra/Jwks/Cache.antt =====
-- `JWKSProvider`: the constructor, the cache and its refresh. Times are whole ticks of the
-- monotonic clock. Readings of the clock and answers of the HTTP client come from outside, in the
-- order in which the provider asks for them.
use fukawa.Prelude.{
  ℕ, suc, ◌+◌, ◌-◌, String, Bool, true, false, not, ◌&&◌, Option, none, some, List, [], ltb, leb,
  is_some, ◌+++◌, if◌then◌else◌,
}
use fukawa.Prelude.Text.{is_blank}
use fukawa.Prelude.Dict.{Dict, lookup}
use fukawa.Prelude.Result.{Result, ok, err}
use fukawa.Json.{Json, Fields}
use fukawa.Infra.Jwks.Keys.{
  PyJwk, KeyPolicy, JwksProviderError, jwks_provider_unavailable, signing_key_not_found, parse_jwks,
}

-- What comes of `http_client.get`, `raise_for_status` and `response.json()`.
pub data Response : Type 0 where
  http_status_error : ℕ → Response
  request_error : Response
  invalid_json : Response
  payload : Json → Response

-- A number of ticks that a caller passes, perhaps negative: `negsuc n` is -(n + 1).
pub data ℤ : Type 0 where
  pos : ℕ → ℤ
  negsuc : ℕ → ℤ

abbrev pub is_negative : ℤ → Bool
is_negative (pos _) = false
is_negative (negsuc _) = true

-- x <= 0
abbrev pub is_non_positive : ℤ → Bool
is_non_positive (pos n) = leb n 0
is_non_positive (negsuc _) = true

abbrev pub to_ticks : ℤ → ℕ
to_ticks (pos n) = n
to_ticks (negsuc _) = 0

pub record Args : Type 0 where
  pub jwks_uri : String
  pub http_timeout : ℤ
  pub policy : KeyPolicy
  pub cache_ttl : ℤ
  pub max_stale : ℤ
  pub min_forced_refresh_interval : ℤ

-- The provider's fields, and how many clock readings and HTTP calls it has made so far.
pub record Provider : Type 0 where
  pub jwks_uri : String
  pub policy : KeyPolicy
  pub cache_ttl : ℕ
  pub max_stale : ℕ
  pub min_forced_refresh_interval : ℕ
  pub keys_by_kid : Dict PyJwk
  pub last_forced_refresh_at : ℕ
  pub fetched_at : Option ℕ
  pub readings : ℕ
  pub fetches : ℕ

-- JWKSProvider.__init__; the message is that of the ValueError
unfoldable pub create : Args → Result String Provider
create a =
    if is_blank a.jwks_uri
    then err "jwks_uri must not be empty"
    else if is_non_positive a.cache_ttl
    then err "cache_ttl_seconds must be positive"
    else if is_negative a.max_stale
    then err "max_stale_seconds must be non-negative"
    else if is_non_positive a.min_forced_refresh_interval
    then err "min_forced_refresh_interval_seconds must be positive"
    else if is_non_positive a.http_timeout
    then err "http_timeout_seconds must be positive"
    else ok (record {
      jwks_uri = a.jwks_uri;
      policy = a.policy;
      cache_ttl = to_ticks a.cache_ttl;
      max_stale = to_ticks a.max_stale;
      min_forced_refresh_interval = to_ticks a.min_forced_refresh_interval;
      keys_by_kid = [];
      last_forced_refresh_at = 0;
      fetched_at = none;
      readings = 0;
      fetches = 0;
    })

-- A method: the exception or the result, and the provider that it leaves behind.
abbrev pub Method : Type 0 → Type 0
Method A = Provider → Result JwksProviderError A × Provider

abbrev pure : {A : Type 0} → A → Method A
pure a s = (ok a, s)

abbrev raise : {A : Type 0} → JwksProviderError → Method A
raise e s = (err e, s)

infixl 5 ◌>>=◌ ◌>>◌
abbrev ◌>>=◌ : {A B : Type 0} → Method A → (A → Method B) → Method B
◌>>=◌ m f s = let (r, s') = m s in elim r [ ok a ↦ f a s' | err e ↦ (err e, s') ]

abbrev ◌>>◌ : {A B : Type 0} → Method A → Method B → Method B
m >> k = m >>= λ _. k

-- `clock i` is reading `i` of time.monotonic(), `respond i` the outcome of HTTP call `i`.
pub record World : Type 0 where
  pub clock : ℕ → ℕ
  pub respond : ℕ → Response
  pub from_dict : Fields → Option (List PyJwk)

module _ (w : World) where
  open w use {clock, respond, from_dict}

  unfoldable pub monotonic : Method ℕ
  monotonic s = (ok (clock s.readings), record s { readings = suc s.readings })

  unfoldable pub age_since : Option ℕ → Method (Option ℕ)
  unfolding monotonic
  age_since none = pure none
  age_since (some at) = do now ← monotonic; pure (some (now - at))

  -- the clock never goes back, so that the difference of the readings is not negative
  unfoldable pub cache_age_seconds : Method (Option ℕ)
  unfolding age_since
  cache_age_seconds s = age_since s.fetched_at s

  abbrev stale_at : Provider → Option ℕ → Bool
  stale_at s none = true
  stale_at s (some cache_age) = leb s.cache_ttl cache_age

  abbrev stale_usable_at : Provider → Option ℕ → Bool
  stale_usable_at s none = false
  stale_usable_at s (some cache_age) = leb cache_age (s.max_stale + s.cache_ttl)

  unfoldable pub is_stale : Method Bool
  unfolding cache_age_seconds
  is_stale s = (do cache_age ← cache_age_seconds; pure (stale_at s cache_age)) s

  unfoldable pub is_stale_usable : Method Bool
  unfolding cache_age_seconds
  is_stale_usable s = (do cache_age ← cache_age_seconds; pure (stale_usable_at s cache_age)) s

  abbrev record_forced : ℕ → Method (Unit {0})
  record_forced now s =
      if ltb (now - s.last_forced_refresh_at) s.min_forced_refresh_interval
      then (err (signing_key_not_found "Unknown signing key"), s)
      else (ok tt, record s { last_forced_refresh_at = now })

  unfoldable pub enforce_forced_refresh_rate_limit : Method (Unit {0})
  unfolding monotonic
  enforce_forced_refresh_rate_limit = do now ← monotonic; record_forced now

  abbrev pub read_json : Response → Result JwksProviderError Json
  read_json (http_status_error _) = err (jwks_provider_unavailable "jwks_fetch failed")
  read_json request_error = err (jwks_provider_unavailable "jwks_fetch failed")
  read_json invalid_json = err (jwks_provider_unavailable "jwks_fetch returned invalid JSON")
  read_json (payload j) = ok j

  unfoldable pub get_json : Method Json
  get_json s = (read_json (respond s.fetches), record s { fetches = suc s.fetches })

  -- `parse_jwks` stays shut here
  unfoldable pub parsed : Json → Method (Dict PyJwk)
  parsed j s = (parse_jwks from_dict s.policy j, s)

  abbrev store_keys : Dict PyJwk → Method (Unit {0})
  store_keys keys s = (ok tt, record s { keys_by_kid = keys })

  abbrev store_fetched_at : ℕ → Method (Unit {0})
  store_fetched_at now s = (ok tt, record s { fetched_at = some now })

  unfoldable pub refresh : Method (Unit {0})
  unfolding get_json parsed monotonic
  refresh = do
    j ← get_json
    keys_by_kid ← parsed j
    store_keys keys_by_kid
    now ← monotonic
    store_fetched_at now

  -- JWKSProvider.start
  unfoldable pub start : Method (Unit {0})
  unfolding refresh
  start = refresh

  abbrev lookup_key : String → Method (Option PyJwk)
  lookup_key kid s = (ok (lookup kid s.keys_by_kid), s)

  -- the `except JwksProviderUnavailable` around the refresh; the warning reads the clock once more
  unfoldable pub serve_stale : Option PyJwk → JwksProviderError → Method PyJwk
  unfolding is_stale_usable cache_age_seconds
  serve_stale none e = do usable ← is_stale_usable; raise e
  serve_stale (some key) e = do
    usable ← is_stale_usable
    if usable then (do age ← cache_age_seconds; pure key) else raise e

  -- `SigningKeyNotFound` is not caught
  unfoldable pub on_refresh_error : Option PyJwk → JwksProviderError → Method PyJwk
  unfolding serve_stale
  on_refresh_error key (signing_key_not_found m) = raise (signing_key_not_found m)
  on_refresh_error key (jwks_provider_unavailable m) = serve_stale key (jwks_provider_unavailable m)

  unfoldable pub or_unknown : String → Option PyJwk → Method PyJwk
  or_unknown kid none = raise (signing_key_not_found ("Unknown kid " +++ kid))
  or_unknown kid (some key) = pure key

  -- the `try` around the refresh, and what follows it
  unfoldable pub refresh_and_find : String → Option PyJwk → Method PyJwk
  unfolding refresh on_refresh_error or_unknown
  refresh_and_find kid key s =
      let (r, s') = refresh s in
      elim r [
        | ok _ ↦ or_unknown kid (lookup kid s'.keys_by_kid) s'
        | err e ↦ on_refresh_error key e s'
      ]

  abbrev rate_limit_if : Bool → Method (Unit {0})
  rate_limit_if true = enforce_forced_refresh_rate_limit
  rate_limit_if false = pure tt

  abbrev cached_key : Option PyJwk → Bool → Method PyJwk → Method PyJwk
  cached_key none stale rest = rest
  cached_key (some key) stale rest = if not stale then pure key else rest

  -- the body of `async with self._lock`
  unfoldable pub get_locked : String → Method PyJwk
  unfolding is_stale enforce_forced_refresh_rate_limit
  get_locked kid = do
    key ← lookup_key kid
    stale ← is_stale
    cached_key key stale
        (do rate_limit_if (not (is_some key) && not stale); refresh_and_find kid key)

  -- the test before the lock: a key that is found fresh is returned with no lock
  abbrev pub get_unlocked : Option PyJwk → Method (Option PyJwk)
  unfolding is_stale
  get_unlocked none = pure none
  get_unlocked (some key) = do stale ← is_stale; pure (if not stale then some key else none)

  abbrev or_locked : (Provider → Provider) → String → Option PyJwk → Method PyJwk
  or_locked wait kid (some key) s = (ok key, s)
  or_locked wait kid none s = get_locked kid (wait s)

  -- JWKSProvider.get_signing_key; `wait` is what the other tasks do to the provider while this one
  -- waits for the lock
  unfoldable pub get_signing_key : (Provider → Provider) → String → Method PyJwk
  unfolding is_stale
  get_signing_key wait kid s =
      (do found ← get_unlocked (lookup kid s.keys_by_kid); or_locked wait kid found) s

-- ===== src/Infra/Jwks/Refresh.antt =====
-- What a refresh leaves behind, and the invariant of the provider.
use fukawa.Prelude.{
  ℕ, suc, ◌≤◌, String, ◌≡◌, ◌≢◌, sym, ap, ◌∙◌, refl, Option, none, some, List, [], ◌∷◌, arith, ◌⊎◌,
  inl, inr, Option-cases,
}
use fukawa.Prelude.Dict.{Dict}
use fukawa.Prelude.Result.{Result, ok, err, Result-cases, ok-eq, ok≢err}
use fukawa.Json.{Json, Fields, obj}
use fukawa.Infra.Jwks.Keys.{
  PyJwk, KeyPolicy, JwksProviderError, jwks_provider_unavailable, parse_jwks, collect, accept,
}
use fukawa.Infra.Jwks.Cache.{
  Provider, World, Response, http_status_error, request_error, invalid_json, payload, read_json,
  refresh,
}
use fukawa.Infra.Jwks.Parsing.{IsKeyed, parse_jwks-IsKeyed}

abbrev pub IsUnavailable : JwksProviderError → Type 0
IsUnavailable e = (m : String) × (e ≡ jwks_provider_unavailable m)

accept-IsUnavailable :
    (c : Dict PyJwk × List String) (e : JwksProviderError) → accept c ≡ err e → IsUnavailable e
accept-IsUnavailable ([], []) e h = ("JWKS contains no usable signing keys", cc)
accept-IsUnavailable (k ∷ ks, []) e h = cc
accept-IsUnavailable (d, x ∷ xs) e h = ("JWKS contains duplicate kid values", cc)

parse_jwks-IsUnavailable :
    (from_dict : Fields → Option (List PyJwk)) (p : KeyPolicy) (j : Json) (e : JwksProviderError)
    → parse_jwks from_dict p j ≡ err e
    → IsUnavailable e
unfolding parse_jwks
parse_jwks-IsUnavailable from_dict p (obj fs) e h = elim (Option-cases (from_dict fs)) [
  | inl unread ↦ ("JWKS parse failed", cc (unread, h))
  | inr (ks, read) ↦ accept-IsUnavailable (collect p ks ([], [])) e (rw read at h)
]
parse_jwks-IsUnavailable from_dict p j e h = ("JWKS payload has unexpected shape", cc)

pub read_json-payload : (w : World) (r : Response) (j : Json) → read_json w r ≡ ok j → r ≡ payload j
read_json-payload w (http_status_error n) j h = absurd (ground arith)
read_json-payload w request_error j h = absurd (ground arith)
read_json-payload w invalid_json j h = absurd (ground arith)
read_json-payload w (payload i) j h = ground arith

-- The clock does not go back from one reading to the next.
abbrev pub IsMonotonic : (ℕ → ℕ) → Type 0
IsMonotonic clock = (i : ℕ) → clock i ≤ clock (suc i)

-- The keys are usable and stand under their kids; the recorded times are not in the future.
pub record IsValid (w : World) (s : Provider) : Type 0 where
  pub keyed : IsKeyed s.policy s.keys_by_kid
  pub fetched_past : (t : ℕ) → s.fetched_at ≡ some t → t ≤ w.clock s.readings
  pub forced_past : s.last_forced_refresh_at ≤ w.clock s.readings
  pub unfetched : s.fetched_at ≡ none → s.keys_by_kid ≡ []

module _ (w : World) where
  -- the provider after a fetch that failed
  abbrev pub failed : Provider → Provider
  failed s = record s { fetches = suc s.fetches }

  -- the provider after a fetch that brought the keys `d`
  abbrev pub refreshed : Dict PyJwk → Provider → Provider
  refreshed d s = record s {
    keys_by_kid = d;
    fetched_at = some (w.clock s.readings);
    readings = suc s.readings;
    fetches = suc s.fetches;
  }

  -- The next fetch brings the keys `d`, which the parsing has accepted.
  pub record IsBrought (s : Provider) (d : Dict PyJwk) : Type 0 where
    pub keyed : IsKeyed s.policy d
    pub body : Json
    pub answer : w.respond s.fetches ≡ payload body
    pub parsed : parse_jwks w.from_dict s.policy body ≡ ok d

  -- The next fetch brings nothing that the parsing accepts.
  abbrev pub IsRefused : Provider → Type 0
  IsRefused s =
      (j : Json) (d : Dict PyJwk)
      → w.respond s.fetches ≡ payload j
      → parse_jwks w.from_dict s.policy j ≢ ok d

  abbrev pub RefreshOutcome : Provider → Result JwksProviderError (Unit {0}) × Provider → Type 0
  RefreshOutcome s r =
      ((m : String) × IsRefused s × (r ≡ (err (jwks_provider_unavailable m), failed s)))
      ⊎ ((d : Dict PyJwk) × IsBrought s d × (r ≡ (ok tt, refreshed d s)))

  read_json-IsUnavailable :
      (r : Response) (e : JwksProviderError) → read_json w r ≡ err e → IsUnavailable e
  read_json-IsUnavailable (http_status_error _) e h = ("jwks_fetch failed", cc)
  read_json-IsUnavailable request_error e h = ("jwks_fetch failed", cc)
  read_json-IsUnavailable invalid_json e h = ("jwks_fetch returned invalid JSON", cc)
  read_json-IsUnavailable (payload j) e h = cc

  refresh_parsed :
      (s : Provider) (j : Json)
      → read_json w (w.respond s.fetches) ≡ ok j
      → (r : Result JwksProviderError (Dict PyJwk)) → parse_jwks w.from_dict s.policy j ≡ r
      → RefreshOutcome s (refresh w s)
  unfolding refresh
  refresh_parsed s j read (ok d) e = inr (
    d,
    record {
      keyed = parse_jwks-IsKeyed w.from_dict s.policy j d e;
      body = j;
      answer = read_json-payload w (w.respond s.fetches) j read;
      parsed = e;
    },
    ground arith,
  )
  refresh_parsed s j read (err x) e =
      let (m, named) = parse_jwks-IsUnavailable w.from_dict s.policy j x e in
      inl (
        m,
        λ i d there accepted.
            let same : i ≡ j = ok-eq (sym (ap (read_json w) there) ∙ read) in
            ok≢err (sym accepted ∙ ap (parse_jwks w.from_dict s.policy) same ∙ e),
        ground arith,
      )

  -- A refresh fails and changes nothing but the count of calls, or it replaces all keys at once.
  pub refresh-outcome : (s : Provider) → RefreshOutcome s (refresh w s)
  unfolding refresh
  refresh-outcome s = elim (Result-cases (read_json w (w.respond s.fetches))) [
    | inl (j, read) ↦ refresh_parsed s j read (parse_jwks w.from_dict s.policy j) refl
    | inr (e, read) ↦
        let (m, named) = read_json-IsUnavailable (w.respond s.fetches) e read in
        inl (m, λ i d there accepted. ok≢err (sym (ap (read_json w) there) ∙ read), ground arith)
  ]

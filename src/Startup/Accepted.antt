-- ===== src/Startup/Accepted.antt =====
-- What the constructors and the first fetch of src/pet/di/auth.py let through.
use fukawa.Prelude.{
  [], ◌∷◌, ℕ, String, false, ◌≡◌, sym, ap, ◌∙◌, List, arith, contains, unique, ◌++◌,
  contains-unique, contains-append, eq_iff, inl, inr,
}
use fukawa.Prelude.Text.{is_blank}
use fukawa.Prelude.Dict.{Dict}
use fukawa.Prelude.Result.{ok, Result-cases}
use fukawa.Json.{Json}
use fukawa.Infra.Jwks
use fukawa.Infra.Jwks.Refresh.{read_json-payload}
use fukawa.Infra.Jwks.{
  World, Provider, Args, is_non_positive, is_negative, PyJwk, ℤ, pos, payload, Response, KeyPolicy,
  http_status_error, request_error, invalid_json, negsuc, parse_jwks, default_policy, read_json,
  refresh,
}
use fukawa.Infra.Verifier.{KeycloakVerifier, create_verifier}

-- The first answer of the identity provider is a set of keys that the provider accepts.
pub record Serves (w : World) : Type 0 where
  pub body : Json
  pub answer : w.respond 0 ≡ payload body
  pub keys : Dict PyJwk
  pub parsed : parse_jwks w.from_dict default_policy body ≡ ok keys

-- a provider that has fetched nothing yet
pub record IsNew (s : Provider) : Type 0 where
  pub policy : s.policy ≡ default_policy
  pub fetches : s.fetches ≡ 0

pub start-Serves : (w : World) (s p : Provider) → IsNew s → Jwks.start w s ≡ (ok tt, p) → Serves w
unfolding Jwks.start refresh
start-Serves w s p new h = elim (Result-cases (read_json w (w.respond s.fetches))) [
  | inr (e, read) ↦ absurd (ground arith)
  | inl (j, read) ↦ elim (Result-cases (parse_jwks w.from_dict s.policy j)) [
    | inr (e, parsed) ↦ absurd (ground arith)
    | inl (keys, parsed) ↦ record {
      body = j;
      answer = ap w.respond (sym new.fetches) ∙ read_json-payload w (w.respond s.fetches) j read;
      keys = keys;
      parsed = ap (λ (q : KeyPolicy). parse_jwks w.from_dict q j) (sym new.policy) ∙ parsed;
    }
  ]
]

pub start-of :
    (w : World) (s : Provider) → IsNew s → Serves w → (p : Provider) × (Jwks.start w s ≡ (ok tt, p))
unfolding Jwks.start refresh
start-of w s new serves =
    let read : read_json w (w.respond s.fetches) ≡ ok serves.body =
      ap (λ i. read_json w (w.respond i)) new.fetches ∙ ap (read_json w) serves.answer in
    let parsed : parse_jwks w.from_dict s.policy serves.body ≡ ok serves.keys =
      ap (λ (q : KeyPolicy). parse_jwks w.from_dict q serves.body) new.policy ∙ serves.parsed in
    ((Jwks.start w s).1, ground (arith, read, parsed))

-- what the constructor of the provider looks at
pub record IsSound (a : Args) : Type 0 where
  pub uri : is_blank a.jwks_uri ≡ false
  pub ttl : is_non_positive a.cache_ttl ≡ false
  pub stale : is_negative a.max_stale ≡ false
  pub interval : is_non_positive a.min_forced_refresh_interval ≡ false
  pub timeout : is_non_positive a.http_timeout ≡ false

pub create-IsSound : (a : Args) (s : Provider) → Jwks.create a ≡ ok s → IsSound a
unfolding Jwks.create
create-IsSound a s h = record {
  uri = ground arith;
  ttl = ground arith;
  stale = ground arith;
  interval = ground arith;
  timeout = ground arith;
}

pub create-IsNew :
    (a : Args) (s : Provider) → a.policy ≡ default_policy → Jwks.create a ≡ ok s → IsNew s
unfolding Jwks.create
create-IsNew a s h made = record { policy = ground arith; fetches = ground arith }

pub create-of : (a : Args) → IsSound a → (s : Provider) × (Jwks.create a ≡ ok s)
unfolding Jwks.create
create-of a sound = elim (Result-cases (Jwks.create a)) [
  | inl (s, made) ↦ (s, made)
  | inr (m, refused) ↦
      absurd (ground (arith, sound.uri, sound.ttl, sound.stale, sound.interval, sound.timeout))
]

pub verifier_made :
    (issuer client_id : String) (audience algorithms : List String) (leeway : ℕ)
    → contains algorithms "none" ≡ false
    → (v : KeycloakVerifier) × (create_verifier issuer
          (unique (audience ++ client_id ∷ []))
          algorithms
          leeway
        ≡ ok v)
unfolding create_verifier
verifier_made issuer client_id audience algorithms leeway h =
    elim (Result-cases
      (create_verifier issuer (unique (audience ++ client_id ∷ [])) algorithms leeway)) [
        | inl (v, made) ↦ (v, made)
        | inr (m, refused) ↦ absurd (
            ground (
              arith,
              contains-unique (audience ++ client_id ∷ []) client_id,
              contains-append audience (client_id ∷ []) client_id,
              eq_iff client_id client_id,
            ))
      ]

pub verifier_algorithms :
    (issuer : String) (audiences algorithms : List String) (leeway : ℕ) (v : KeycloakVerifier)
    → create_verifier issuer audiences algorithms leeway ≡ ok v
    → contains algorithms "none" ≡ false
unfolding create_verifier
verifier_algorithms issuer audiences algorithms leeway v made = ground arith

-- ===== src/Infra/Jwks/Keys.antt =====
-- The parsing of a JWKS payload: `_parse_jwks` and `_is_usable_signing_key`.
use fukawa.Prelude.{
  ℕ, String, Bool, true, false, not, ◌&&◌, Option, none, some, List, [], ◌∷◌, is_empty, contains,
  if◌then◌else◌,
}
use fukawa.Prelude.Text.{is_blank}
use fukawa.Prelude.Dict.{Dict, insert, has_key}
use fukawa.Prelude.Result.{Result, ok, err}
use fukawa.Json.{Json, Fields, obj}

-- jwt.PyJWK, by the attributes that the provider reads. `algorithm_name` is a property that may
-- raise PyJWTError, which is `none`. `key` names the key material.
pub record PyJwk : Type 0 where
  pub key_id : Option String
  pub key_type : Option String
  pub public_key_use : Option String
  pub algorithm_name : Option String
  pub key : ℕ

-- The arguments of the constructor that filter keys; an empty set filters nothing.
pub record KeyPolicy : Type 0 where
  pub allowed_key_types : List String
  pub allowed_public_key_uses : List String
  pub allowed_algorithms : List String

abbrev pub default_policy : KeyPolicy
default_policy = record {
  allowed_key_types = "RSA" ∷ [];
  allowed_public_key_uses = "sig" ∷ [];
  allowed_algorithms = "RS256" ∷ [];
}

-- infra/auth/exc.py: JwksProviderError and its two subclasses, with their messages
pub data JwksProviderError : Type 0 where
  jwks_provider_unavailable : String → JwksProviderError
  signing_key_not_found : String → JwksProviderError

-- `value in allowed`, where the value may be `None`
abbrev pub allows : List String → Option String → Bool
allows allowed none = false
allows allowed (some v) = contains allowed v

-- `public_key_use is not None and allowed and public_key_use not in allowed`
abbrev bad_use : List String → Option String → Bool
bad_use allowed none = false
bad_use allowed (some v) = not (is_empty allowed) && not (contains allowed v)

unfoldable pub is_usable_signing_key : KeyPolicy → PyJwk → Bool
is_usable_signing_key p k =
    if not (is_empty p.allowed_key_types) && not (allows p.allowed_key_types k.key_type)
    then false
    else if bad_use p.allowed_public_key_uses k.public_key_use
    then false
    else if not (is_empty p.allowed_algorithms)
    then allows p.allowed_algorithms k.algorithm_name
    else true

-- One round of the loop of `_parse_jwks`, on `keys_by_kid` and `duplicate_kids`.
abbrev pub Collected : Type 0
Collected = Dict PyJwk × List String

abbrev admit : KeyPolicy → PyJwk → String → Collected → Collected
admit p key kid (keys_by_kid, duplicate_kids) =
    if is_blank kid
    then (keys_by_kid, duplicate_kids)
    else if not (is_usable_signing_key p key)
    then (keys_by_kid, duplicate_kids)
    else if has_key kid keys_by_kid
    then (keys_by_kid, kid ∷ duplicate_kids)
    else (insert kid key keys_by_kid, duplicate_kids)

unfoldable pub collect_key : KeyPolicy → PyJwk → Collected → Collected
collect_key p key c = elim key.key_id [ none ↦ c | some kid ↦ admit p key kid c ]

unfoldable pub collect : KeyPolicy → List PyJwk → Collected → Collected
unfolding collect_key
collect p [] c = c
collect p (key ∷ keys) c = collect p keys (collect_key p key c)

-- The tests after the loop.
abbrev pub accept : Collected → Result JwksProviderError (Dict PyJwk)
accept (keys_by_kid, duplicate_kids) =
    if not (is_empty duplicate_kids)
    then err (jwks_provider_unavailable "JWKS contains duplicate kid values")
    else if is_empty keys_by_kid
    then err (jwks_provider_unavailable "JWKS contains no usable signing keys")
    else ok keys_by_kid

-- `from_dict` is PyJWKSet.from_dict: `none` where it raises one of the four exceptions that the
-- code catches.
module _ (from_dict : Fields → Option (List PyJwk)) (p : KeyPolicy) where
  abbrev parse_keys : Option (List PyJwk) → Result JwksProviderError (Dict PyJwk)
  unfolding collect
  parse_keys none = err (jwks_provider_unavailable "JWKS parse failed")
  parse_keys (some keys) = accept (collect p keys ([], []))

  unfoldable pub parse_jwks : Json → Result JwksProviderError (Dict PyJwk)
  unfolding collect
  parse_jwks (obj fields) = parse_keys (from_dict fields)
  parse_jwks _ = err (jwks_provider_unavailable "JWKS payload has unexpected shape")

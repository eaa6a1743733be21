-- ===== src/Infra/Verifier/Verify.antt =====
-- `KeycloakVerifier`: the constructor and `verify`.
use fukawa.Prelude.{
  ℕ, String, Option, none, some, List, [], ◌∷◌, is_empty, contains, unique, if◌then◌else◌,
}
use fukawa.Prelude.Text.{is_blank}
use fukawa.Prelude.Result.{Result, ok, err}
use fukawa.Json.{Fields, get, as_str}
use fukawa.App.Auth.{AuthenticationError, invalid_token, token_verification_unavailable}
use fukawa.Domain.Principal.{Principal}
use fukawa.Infra.Jwks.{
  PyJwk, Provider, World, JwksProviderError, jwks_provider_unavailable, signing_key_not_found,
  get_signing_key,
}
use fukawa.Infra.Verifier.Claims.{Checked, validate_audience, build_principal}

-- The exceptions of jwt.decode that `verify` catches one by one; `other_invalid_token` is any other
-- InvalidTokenError, `not_caught` an exception of another class.
pub data DecodeError : Type 0 where
  expired_signature immature_signature invalid_issuer invalid_signature : DecodeError
  missing_required_claim invalid_algorithm other_invalid_token : DecodeError
  not_caught : String → DecodeError

-- What `verify` passes to jwt.decode; the options also turn the check of `aud` off.
pub record DecodeArgs : Type 0 where
  pub token : String
  pub key : ℕ
  pub algorithms : List String
  pub issuer : String
  pub leeway : ℕ
  pub require : List String

-- PyJWT: `none` is a PyJWTError of get_unverified_header.
pub record Jwt : Type 0 where
  pub get_unverified_header : String → Option Fields
  pub decode : DecodeArgs → Result DecodeError Fields

pub record KeycloakVerifier : Type 0 where
  pub issuer : String
  pub audiences : List String
  pub allowed_algorithms : List String
  pub leeway : ℕ

-- _REQUIRED_CLAIMS
abbrev pub required_claims : List String
required_claims = "sub" ∷ "iss" ∷ "iat" ∷ "exp" ∷ []

-- KeycloakVerifier.__init__, on lists; the message is that of the ValueError
unfoldable pub create_verifier :
    String → List String → List String → ℕ → Result String KeycloakVerifier
create_verifier issuer audiences allowed_algorithms leeway =
    if is_empty audiences
    then err "audiences must not be empty"
    else if contains allowed_algorithms "none"
    then err "Algorithm 'none' is not permitted"
    else ok (record {
      issuer = issuer;
      audiences = unique audiences;
      allowed_algorithms = unique allowed_algorithms;
      leeway = leeway;
    })

-- What `verify` raises: an AuthenticationError, or what it does not catch.
pub data VerifyError : Type 0 where
  authn : AuthenticationError → VerifyError
  escaped : String → VerifyError

-- The verifier's state is that of its JWKS provider.
abbrev pub Action : Type 0 → Type 0
Action A = Provider → Result VerifyError A × Provider

infixl 5 ◌>>=◌ ◌>>◌
abbrev pub ◌>>=◌ : {A B : Type 0} → Action A → (A → Action B) → Action B
◌>>=◌ m f s = let (r, s') = m s in elim r [ ok a ↦ f a s' | err e ↦ (err e, s') ]

abbrev ◌>>◌ : {A B : Type 0} → Action A → Action B → Action B
m >> k = m >>= λ _. k

abbrev pub or_authn : {A : Type 0} → Checked A → Result VerifyError A
or_authn (ok a) = ok a
or_authn (err e) = err (authn e)

abbrev pub lift : {A : Type 0} → Checked A → Action A
lift r s = (or_authn r, s)

abbrev pub or_invalid : {A : Type 0} → String → Option A → Checked A
or_invalid m none = err (invalid_token m)
or_invalid m (some a) = ok a

abbrev pub check_token : String → Checked (Unit {0})
check_token raw_token = if is_blank raw_token then err (invalid_token "Empty Token") else ok tt

abbrev pub check_algorithm : KeycloakVerifier → Option String → Checked (Unit {0})
check_algorithm v none = err (invalid_token "Disallowed token algorithm")
check_algorithm v (some alg) =
    if contains v.allowed_algorithms alg
    then ok tt
    else err (invalid_token "Disallowed token algorithm")

-- the `except` clauses around the lookup of the key
abbrev pub key_error : JwksProviderError → AuthenticationError
key_error (signing_key_not_found _) = invalid_token "Token signed by an unknown key"
key_error (jwks_provider_unavailable _) = token_verification_unavailable "JWKS lookup failed"

-- the `except` clauses around jwt.decode
abbrev pub decode_error : DecodeError → VerifyError
decode_error expired_signature = authn (invalid_token "Token has expired")
decode_error immature_signature = authn (invalid_token "Token is not yet valid")
decode_error invalid_issuer = authn (invalid_token "Invalid token issuer")
decode_error invalid_signature = authn (invalid_token "Invalid token signature")
decode_error missing_required_claim = authn (invalid_token "Token is missing required claims")
decode_error invalid_algorithm = authn (invalid_token "Disallowed token algorithm")
decode_error other_invalid_token = authn (invalid_token "Invalid token")
decode_error (not_caught m) = escaped m

module _ (jwt : Jwt) (w : World) (wait : Provider → Provider) (v : KeycloakVerifier) where
  abbrev pub decode_args : String → PyJwk → DecodeArgs
  decode_args raw_token key = record {
    token = raw_token;
    key = key.key;
    algorithms = v.allowed_algorithms;
    issuer = v.issuer;
    leeway = v.leeway;
    require = required_claims;
  }

  abbrev pub or_key_error :
      Result JwksProviderError PyJwk × Provider → Result VerifyError PyJwk × Provider
  or_key_error (ok key, s) = (ok key, s)
  or_key_error (err e, s) = (err (authn (key_error e)), s)

  -- `get_signing_key` stays shut here
  unfoldable pub find_key : String → Action PyJwk
  find_key kid s = or_key_error (get_signing_key w wait kid s)

  abbrev pub decoded : Result DecodeError Fields → Result VerifyError Fields
  decoded (ok claims) = ok claims
  decoded (err e) = err (decode_error e)

  abbrev pub decode : String → PyJwk → Action Fields
  decode raw_token key s = (decoded (jwt.decode (decode_args raw_token key)), s)

  -- KeycloakVerifier.verify
  unfoldable pub verify : String → Action Principal
  verify raw_token = do
    lift (check_token raw_token)
    header ← lift (or_invalid "Malformed token header" (jwt.get_unverified_header raw_token))
    kid ← lift (or_invalid "Token header is missing 'kid'" (as_str (get "kid" header)))
    lift (check_algorithm v (as_str (get "alg" header)))
    signing_key ← find_key kid
    claims ← decode raw_token signing_key
    lift (validate_audience v.audiences claims)
    lift (build_principal claims)

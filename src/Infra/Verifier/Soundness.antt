-- ===== src/Infra/Verifier/Soundness.antt =====
-- What a verified token has passed.
use fukawa.Prelude.{
  String, ◌≡◌, refl, true, false, some, arith, contains, inl, inr, Bool-cases, Option-cases,
}
use fukawa.Prelude.Text.{is_blank}
use fukawa.Prelude.Result.{Result, ok, err, Result-cases}
use fukawa.Json.{Fields, get, as_str}
use fukawa.Domain.Principal.{Principal}
use fukawa.Infra.Jwks.{PyJwk, Provider, World, JwksProviderError, get_signing_key}
use fukawa.Infra.Verifier.Claims.{validate_audience, build_principal}
use fukawa.Infra.Verifier.Verify.{
  Jwt, DecodeError, KeycloakVerifier, VerifyError, decode_args, find_key, verify,
}

abbrev Outcome : Type 0 → Type 0
Outcome A = Result VerifyError A × Provider

module _ (jwt : Jwt) (w : World) (wait : Provider → Provider) (v : KeycloakVerifier) where
  -- The evidence for a principal `p`: the header of the token, the key that its kid names, the
  -- claims that were decoded with that key.
  pub record IsVerified (raw_token : String) (s : Provider) (p : Principal) (s' : Provider)
      : Type 0 where
    pub not_empty : is_blank raw_token ≡ false
    pub header : Fields
    pub header_read : jwt.get_unverified_header raw_token ≡ some header
    pub kid : String
    pub kid_read : as_str (get "kid" header) ≡ some kid
    pub alg : String
    pub alg_read : as_str (get "alg" header) ≡ some alg
    pub alg_allowed : contains v.allowed_algorithms alg ≡ true
    pub key : PyJwk
    pub key_found : get_signing_key w wait kid s ≡ (ok key, s')
    pub claims : Fields
    pub claims_decoded : jwt.decode (decode_args jwt w wait v raw_token key) ≡ ok claims
    pub audience_valid : validate_audience v.audiences claims ≡ ok tt
    pub principal_built : build_principal claims ≡ ok p

  -- The last steps of `verify`, once the key is found.
  key_found_lem :
      (raw_token kid alg : String) (header : Fields) (s : Provider) (p : Principal) (s' : Provider)
      → is_blank raw_token ≡ false
      → jwt.get_unverified_header raw_token ≡ some header
      → as_str (get "kid" header) ≡ some kid
      → as_str (get "alg" header) ≡ some alg
      → contains v.allowed_algorithms alg ≡ true
      → (key : PyJwk) (t : Provider) → get_signing_key w wait kid s ≡ (ok key, t)
      → (d : Result DecodeError Fields) → jwt.decode (decode_args jwt w wait v raw_token key) ≡ d
      → verify jwt w wait v raw_token s ≡ (ok p, s')
      → IsVerified raw_token s p s'
  unfolding verify find_key
  key_found_lem raw_token kid alg header s p s' full hr kr ar al key t found (err e) de h =
      absurd (ground arith)
  key_found_lem raw_token kid alg header s p s' full hr kr ar al key t found (ok claims) de h =
      elim (Result-cases (validate_audience v.audiences claims)) [
        | inr (e, refused) ↦ absurd (ground arith)
        | inl (_, valid) ↦ elim (Result-cases (build_principal claims)) [
          | inr (e, refused) ↦ absurd (ground arith)
          | inl (q, built) ↦ record {
            not_empty = full;
            header = header;
            header_read = hr;
            kid = kid;
            kid_read = kr;
            alg = alg;
            alg_read = ar;
            alg_allowed = al;
            key = key;
            key_found = ground arith;
            claims = claims;
            claims_decoded = de;
            audience_valid = valid;
            principal_built = ground arith;
          }
        ]
      ]

  key_lem :
      (raw_token kid alg : String) (header : Fields) (s : Provider) (p : Principal) (s' : Provider)
      → is_blank raw_token ≡ false
      → jwt.get_unverified_header raw_token ≡ some header
      → as_str (get "kid" header) ≡ some kid
      → as_str (get "alg" header) ≡ some alg
      → contains v.allowed_algorithms alg ≡ true
      → (r : Result JwksProviderError PyJwk × Provider) → get_signing_key w wait kid s ≡ r
      → verify jwt w wait v raw_token s ≡ (ok p, s')
      → IsVerified raw_token s p s'
  unfolding verify find_key
  key_lem raw_token kid alg header s p s' full hr kr ar al (err e, t) found h =
      absurd (ground arith)
  key_lem raw_token kid alg header s p s' full hr kr ar al (ok key, t) found h =
      key_found_lem raw_token kid alg header s p s' full hr kr ar al key t found
        (jwt.decode (decode_args jwt w wait v raw_token key)) refl h

  -- A token whose verification returns a principal has passed every check: it is not empty, its
  -- header names a kid and an allowed algorithm, the key set holds a key for the kid, the token
  -- decodes with that key, the audience is valid, and the principal is built from the claims.
  pub verify-IsVerified :
      (raw_token : String) (s : Provider) (p : Principal) (s' : Provider)
      → verify jwt w wait v raw_token s ≡ (ok p, s')
      → IsVerified raw_token s p s'
  unfolding verify
  verify-IsVerified raw_token s p s' h = elim (Bool-cases (is_blank raw_token)) [
    | inl blank ↦ absurd (ground arith)
    | inr full ↦ elim (Option-cases (jwt.get_unverified_header raw_token)) [
      | inl malformed ↦ absurd (ground arith)
      | inr (header, hr) ↦ elim (Option-cases (as_str (get "kid" header))) [
        | inl no_kid ↦ absurd (ground arith)
        | inr (kid, kr) ↦ elim (Option-cases (as_str (get "alg" header))) [
          | inl no_alg ↦ absurd (ground arith)
          | inr (alg, ar) ↦ elim (Bool-cases (contains v.allowed_algorithms alg)) [
            | inr refused ↦ absurd (ground arith)
            | inl al ↦
                key_lem raw_token kid alg header s p s' full hr kr ar al
                  (get_signing_key w wait kid s) refl h
          ]
        ]
      ]
    ]
  ]

-- ===== src/Infra/Verifier/Trust.antt =====
-- What a caller may conclude from a verified token, and from a refused one.
use fukawa.Prelude.{
  ℕ, String, ◌≡◌, refl, sym, ap, ◌∙◌, ◌≢◌, ◌↔◌, true, false, Option, none, some, List, [], ◌∷◌,
  arith, any, is_empty, some-eq, contains, contains-unique, eq_iff, false≢true, ◌⊎◌, inl, inr,
  Bool-cases,
}
use fukawa.Prelude.Text.{is_blank}
use fukawa.Prelude.Result.{Result, ok}
use fukawa.Json.{Json, str, Fields, get, as_str}
use fukawa.Domain.Principal.{Principal}
use fukawa.Infra.Jwks.{PyJwk, Provider, World, JwksProviderError}
use fukawa.Infra.Jwks.Parsing.{IsEntry}
use fukawa.Infra.Jwks.Refresh.{IsMonotonic, IsValid}
use fukawa.Infra.Jwks.Fetched.{HasFetched}
use fukawa.Infra.Jwks.Promises.{OthersOnly, IsRecent, get_signing_key_trusted}
use fukawa.Infra.Verifier.Claims.{validate_audience, audience_candidates, coerce_str_list}
use fukawa.Infra.Verifier.Verify.{Jwt, KeycloakVerifier, create_verifier, VerifyError, verify}
use fukawa.Infra.Verifier.Soundness.{IsVerified, verify-IsVerified}

pub created-refuses_none :
    (v : KeycloakVerifier) (issuer : String) (audiences algorithms : List String) (leeway : ℕ)
    → create_verifier issuer audiences algorithms leeway ≡ ok v
    → contains v.allowed_algorithms "none" ≡ false
unfolding create_verifier
created-refuses_none v issuer audiences algorithms leeway made =
    ground (arith, contains-unique algorithms "none")

module _ (jwt : Jwt) (w : World) (wait : Provider → Provider) (v : KeycloakVerifier) where
  abbrev Verified : String → Provider → Principal → Provider → Type 0
  Verified = IsVerified jwt w wait v

  -- Under a clock that does not go back, the key with which a verified token was decoded is usable,
  -- has the kid of the token's header, and stands under it in the key set that the provider holds
  -- after the verification. That set is the last that was fetched and accepted, and a reading of the
  -- clock during the verification found it no older than the TTL and the allowed staleness together.
  -- Before, the provider is valid, and its cache, if it was ever filled, holds the last key set that was
  -- fetched and accepted; other tasks only call its operations.
  pub verify-IsRecent :
      (raw_token : String) (s : Provider) (p : Principal) (s' : Provider)
      → IsMonotonic w.clock
      → IsValid w s
      → HasFetched w s
      → OthersOnly w wait
      → verify jwt w wait v raw_token s ≡ (ok p, s')
      → (e : Verified raw_token s p s') × IsEntry s.policy (e.kid, e.key)
        × IsRecent w e.kid e.key s s'
  verify-IsRecent raw_token s p s' mono valid filled others h =
      let e : Verified raw_token s p s' = verify-IsVerified jwt w wait v raw_token s p s' h in
      let trusted =
        get_signing_key_trusted w wait e.kid s e.key mono valid filled others
          (ap (λ (r : Result JwksProviderError PyJwk × Provider). r.0) e.key_found) in
      (
        e,
        trusted.0,
        rw (ap (λ (r : Result JwksProviderError PyJwk × Provider). r.1) e.key_found) at trusted.1,
      )

  -- A verifier that its constructor has let through accepts no token whose header names the
  -- algorithm "none".
  none_never_verified :
      (issuer : String) (audiences algorithms : List String) (leeway : ℕ)
      → create_verifier issuer audiences algorithms leeway ≡ ok v
      → (raw_token : String) (s : Provider) (header : Fields)
      → jwt.get_unverified_header raw_token ≡ some header
      → as_str (get "alg" header) ≡ some "none"
      → (p : Principal) → (verify jwt w wait v raw_token s).0 ≢ ok p
  none_never_verified issuer audiences algorithms leeway made raw_token s header hr ar p h =
      let s' : Provider = (verify jwt w wait v raw_token s).1 in
      let e : Verified raw_token s p s' =
        verify-IsVerified jwt w wait v raw_token s p s'
          (ap (λ (r : Result VerifyError Principal). (r, s')) h) in
      let same_header : e.header ≡ header = some-eq (sym e.header_read ∙ hr) in
      let is_none : e.alg ≡ "none" =
        some-eq (sym e.alg_read ∙ ap (λ fs. as_str (get "alg" fs)) same_header ∙ ar) in
      false≢true (
        sym (created-refuses_none v issuer audiences algorithms leeway made)
        ∙ ap (contains v.allowed_algorithms) (sym is_none)
        ∙ e.alg_allowed)

-- A text that the claims offer as an audience: a member of `aud`, or `azp` if it is not empty.
abbrev pub IsOffered : Fields → String → Type 0
IsOffered claims a =
    (contains (coerce_str_list (get "aud" claims)) a ≡ true)
    ⊎ ((get "azp" claims ≡ some (str a)) × (is_blank a ≡ false))

candidates_iff :
    (claims : Fields) (a : String)
    → (contains (audience_candidates claims) a ≡ true) ↔ IsOffered claims a
candidates_iff claims a = azp_iff (get "azp" claims) refl
  where
    azp_iff :
        (o : Option Json)
        → get "azp" claims ≡ o
        → (contains (audience_candidates claims) a ≡ true) ↔ IsOffered claims a
    azp_iff none e = ground arith
    azp_iff (some (str azp)) e = ground (arith, eq_iff azp a)
    azp_iff (some _) e = ground arith

any-contains-ok :
    (xs ys : List String)
    → any (contains xs) ys ≡ true
    → (a : String) × (contains ys a ≡ true) × (contains xs a ≡ true)
any-contains-ok xs [] h = cc
any-contains-ok xs (y ∷ ys) h = elim (Bool-cases (contains xs y)) [
  | inl there ↦ (y, ground (arith, eq_iff y y), there)
  | inr absent ↦
      let (a, in_ys, in_xs) = any-contains-ok xs ys (rw absent at h) in (a, ground arith, in_xs)
]

any-contains-of :
    (xs ys : List String) (a : String)
    → contains ys a ≡ true
    → contains xs a ≡ true
    → any (contains xs) ys ≡ true
any-contains-of xs [] a h k = cc
any-contains-of xs (y ∷ ys) a h k = ground (arith, any-contains-of xs ys a, eq_iff y a)

-- An audience check passes exactly if no audience is configured or the claims offer one of those
-- that are.
validate_audience_iff :
    (audiences : List String) (claims : Fields)
    → (validate_audience audiences claims ≡ ok tt) ↔ (
        (is_empty audiences ≡ true)
        ⊎ ((a : String) × (contains audiences a ≡ true) × IsOffered claims a))
unfolding validate_audience
validate_audience_iff [] claims = (λ h. inl refl, λ h. refl)
validate_audience_iff (b ∷ bs) claims =
    let c : List String = audience_candidates claims in
    (
      λ h.
          let (a, in_bs, in_c) = any-contains-ok c (b ∷ bs) (ground arith) in
          inr (a, in_bs, (candidates_iff claims a).0 in_c),
      λ h. elim h [
        | inl e ↦ cc
        | inr (a, in_bs, offered) ↦
            let found = any-contains-of c (b ∷ bs) a in_bs ((candidates_iff claims a).1 offered) in
            ground arith
      ],
    )

-- ===== src/Api/Access/Grants.antt =====
-- What the dependencies of src/pet/api/auth.py let through.
use fukawa.Prelude.{
  ◌≢◌, All, subst, String, ◌≡◌, refl, ap, ◌∙◌, ◌↔◌, Bool, true, false, not, ◌&&◌, List, [], ◌∷◌,
  contains, unique, contains-unique, arith, eq_iff, Bool-cases, inl, inr, Option, some, none,
}
use fukawa.Prelude.Text.Order.{contains-sorted}
use fukawa.Prelude.Result.{Result, ok, err, Result-cases}
use fukawa.Json.{Fields, str, get}
use fukawa.Prelude.Text.Order.{joined}
use fukawa.Prelude.Text.Split.{IsWord}
use fukawa.Infra.Verifier.{build_principal}
use fukawa.Infra.Verifier.Roles.{build_principal-scopes, extract_scopes-joined}
use fukawa.Domain.Principal.{Principal, has_scope, has_realm_role, has_client_role}
use fukawa.App.Auth.{AuthenticationError}
use fukawa.Infra.Jwks.{Provider, World}
use fukawa.Infra.Verifier.{Jwt, KeycloakVerifier, verify}
use fukawa.Api.Access.{
  AccessState, get_current_principal, without_all, missing, refuse_or, required_scopes,
  required_realm_roles, required_client_roles,
}

pub contains-without_all :
    (xs granted : List String) (a : String)
    → contains (without_all xs granted) a ≡ (contains xs a && not (contains granted a))
contains-without_all [] granted a = refl
contains-without_all (x ∷ xs) granted a =
    ground (arith, contains-without_all xs granted a, eq_iff x a)

-- The missing names are exactly the required ones that are not granted.
contains-missing :
    (names granted : List String) (a : String)
    → contains (missing names granted) a ≡ (contains names a && not (contains granted a))
unfolding missing
contains-missing names granted a =
    contains-sorted (without_all (unique names) granted) a
    ∙ contains-without_all (unique names) granted a
    ∙ ap (λ (b : Bool). b && not (contains granted a)) (contains-unique names a)

-- every required name is granted
abbrev pub Covers : (String → Bool) → List String → Type 0
Covers is_granted names = (a : String) → contains names a ≡ true → is_granted a ≡ true

empty-of : (xs : List String) → ((a : String) → contains xs a ≡ false) → xs ≡ []
empty-of [] h = refl
empty-of (x ∷ xs) h = absurd (ground (arith, h x, eq_iff x x))

missing_iff :
    (names granted : List String) → (missing names granted ≡ []) ↔ Covers (contains granted) names
missing_iff names granted = (
  λ h a there. ground (arith, contains-missing names granted a, ap (λ xs. contains xs a) h),
  λ covers. empty-of (missing names granted) (λ a. elim (Bool-cases (contains names a)) [
    | inl there ↦ ground (arith, contains-missing names granted a, covers a there)
    | inr absent ↦ ground (arith, contains-missing names granted a)
  ]),
)

refuse_iff :
    (kind : String) (ms : List String) (p : Principal) → (refuse_or kind ms p ≡ ok p) ↔ (ms ≡ [])
refuse_iff kind [] p = (λ h. refl, λ h. refl)
refuse_iff kind (m ∷ ms) p = (λ h. cc, λ h. cc)

check_iff :
    (kind : String) (names granted : List String) (p : Principal)
    → (refuse_or kind (missing names granted) p ≡ ok p) ↔ Covers (contains granted) names
check_iff kind names granted p =
    let a = refuse_iff kind (missing names granted) p in
    let b = missing_iff names granted in (λ h. b.0 (a.0 h), λ h. a.1 (b.1 h))

-- A principal passes a check of scopes, of realm roles or of the roles of a client exactly if it has
-- each of the required ones.
pub required_iff :
    (names : List String) (client_id : String) (p : Principal)
    → ((required_scopes names p ≡ ok p) ↔ Covers (has_scope p) names)
      × ((required_realm_roles names p ≡ ok p) ↔ Covers (has_realm_role p) names)
      × ((required_client_roles client_id names p ≡ ok p)
          ↔ Covers (has_client_role p client_id) names)
unfolding required_scopes required_realm_roles required_client_roles has_scope has_realm_role
    has_client_role
required_iff names client_id p = (check_iff _ _ _ p, check_iff _ _ _ p, check_iff _ _ _ p)

-- The request's state holds the principal that was returned, or what it held before.
abbrev pub Recorded : Option Principal → Result AuthenticationError Principal × AccessState → Type 0
Recorded before (ok q, s) = s.principal ≡ some q
Recorded before (err e, s) = s.principal ≡ before

module _ (jwt : Jwt) (w : World) (wait : Provider → Provider) (v : KeycloakVerifier) where
  -- The request is authenticated as p exactly if it brings a bearer token that the verifier accepts
  -- as p's, and then p is what the request's state holds; a request that is refused leaves that state
  -- as it was.
  pub get_current_principal_iff :
      (credentials : Option String) (s : AccessState) (p : Principal)
      → (((get_current_principal jwt w wait v credentials s).0 ≡ ok p) ↔ (
          (raw_token : String) × (credentials ≡ some raw_token)
          × ((verify jwt w wait v raw_token s.provider).0 ≡ ok p)))
        × Recorded s.principal (get_current_principal jwt w wait v credentials s)
  unfolding get_current_principal
  get_current_principal_iff none s p = ((λ h. cc, λ h. absurd (ground (arith, h.1))), refl)
  get_current_principal_iff (some raw) s p =
      elim (Result-cases (verify jwt w wait v raw s.provider).0) [
        | inl (q, e) ↦
            ((λ h. (raw, refl, ground arith), λ (t, same, h). ground arith), ground arith)
        | inr (x, e) ↦
            ((λ h. absurd (ground arith), λ (t, same, h). absurd (ground arith)), ground arith)
      ]

-- A token whose claim `scope` joins some scopes by spaces makes a principal that passes a check of scopes
-- exactly if each of the required ones is among them. There is at least one, and none of them is empty or
-- has white space in it.
pub scope_claim_iff :
    (claims : Fields) (p : Principal) (ws names : List String)
    → build_principal claims ≡ ok p
    → get "scope" claims ≡ some (str (joined ws))
    → All IsWord ws
    → ws ≢ []
    → (required_scopes names p ≡ ok p) ↔ Covers (contains ws) names
unfolding required_scopes has_scope
scope_claim_iff claims p ws names built claimed words some_word =
    let is : p.scopes ≡ ws =
      build_principal-scopes claims p built
      ∙ extract_scopes-joined claims ws claimed words some_word in
    subst
      (λ xs. (refuse_or "scope(s)" (missing names p.scopes) p ≡ ok p) ↔ Covers (contains xs) names)
      is (check_iff "scope(s)" names p.scopes p)

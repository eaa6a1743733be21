-- ===== src/Infra/Verifier/Roles.antt =====
-- The roles and scopes of a principal against the claims that they come from.
use fukawa.Prelude.{
  Bool, not, All, ◌≢◌, ◌+++◌, ◌∷◌, String, ◌≡◌, refl, ap, subst, ◌∙◌, false, Option, none, some,
  List, [], arith, contains, has_duplicates, eq_iff, ◌==◌, inl, inr, Bool-cases, if◌then◌else◌,
}
use fukawa.Prelude.Text.{is_blank}
use fukawa.Prelude.Dict.{Dict, lookup, keys, lookup-insert, lookup-absent}
use fukawa.Prelude.Result.{ok, Result-cases}
use fukawa.Json.{Json, str, arr, obj, Fields, end, field, dict, get, texts}
use fukawa.Domain.Principal.{Principal, or_no_roles, has_client_role, has_realm_role}
use fukawa.Infra.Verifier.Claims.{
  build_principal, extract_client_roles, extract_realm_roles, extract_scopes, collect_clients,
  add_client, require_str_claim, optional_str_claim, scopes_from, text_list,
}
use text.Mathlib.TextLemmas.{cons-append}
use fukawa.Prelude.Text.{split}
use fukawa.Prelude.Text.Order.{joined}
use fukawa.Prelude.Text.Split.{IsWord, split-joined}

-- The texts of a list, or none of a value that is no list.
abbrev pub list_texts : Option Json → Option (List String)
list_texts (some (arr vs)) = some (texts vs)
list_texts _ = none

-- The roles in the body of one client.
abbrev pub body_roles : Option Json → Option (List String)
body_roles (some (obj body)) = list_texts (get "roles" body)
body_roles _ = none

abbrev either {ℓ} : {A : Type ℓ} → Option A → Option A → Option A
either none d = d
either (some a) d = some a

add_client-lookup :
    (client c : String) (body : Json) (out : Dict (List String))
    → lookup c (add_client client body out)
      ≡ (if client == c then either (body_roles (some body)) (lookup c out) else lookup c out)
add_client-lookup client c (obj body) out = from (get "roles" body) refl
  where
    from :
        (o : Option Json)
        → get "roles" body ≡ o
        → lookup c (add_client client (obj body) out) ≡ (
            if client == c
            then either (list_texts (get "roles" body)) (lookup c out)
            else lookup c out)
    from (some (arr roles)) e = ground (arith, lookup-insert client c (texts roles) out)
    from none e = ground arith
    from (some _) e = ground arith
add_client-lookup client c _ out = ground arith

collect_clients-lookup :
    (fs : Fields) (out : Dict (List String)) (c : String)
    → has_duplicates (keys (dict fs)) ≡ false
    → lookup c (collect_clients fs out) ≡ either (body_roles (get c fs)) (lookup c out)
unfolding collect_clients
collect_clients-lookup end out c h = refl
collect_clients-lookup (field client body rest) out c h =
    let ih = collect_clients-lookup rest (add_client client body out) c (ground arith) in
    let own = add_client-lookup client c body out in
    elim (Bool-cases (client == c)) [
      | inl same ↦
          let gone : get c rest ≡ none = lookup-absent c (dict rest) (
            subst (λ k. contains (keys (dict rest)) k ≡ false) ((eq_iff client c).0 same)
              (ground arith)) in
          ih ∙ rw (gone, own, same)
      | inr other ↦ ih ∙ rw (own, other)
    ]

-- The roles that the claims grant for a client, found by looking names up.
abbrev pub granted_client_roles : Option Json → String → List String
granted_client_roles (some (obj access)) client = or_no_roles (body_roles (get client access))
granted_client_roles _ client = []

-- No name occurs twice in `resource_access`, as in every dict that JSON decodes to.
abbrev pub HasDistinctClients : Option Json → Type 0
HasDistinctClients (some (obj access)) = has_duplicates (keys (dict access)) ≡ false
HasDistinctClients _ = Unit

either-none {ℓ} : {A : Type ℓ} (o : Option A) → either o none ≡ o
either-none none = refl
either-none (some a) = refl

client_roles_lem :
    (claims : Fields) (client : String)
    → HasDistinctClients (get "resource_access" claims)
    → or_no_roles (lookup client (extract_client_roles claims))
      ≡ granted_client_roles (get "resource_access" claims) client
unfolding extract_client_roles
client_roles_lem claims client = from (get "resource_access" claims) refl
  where
    from :
        (o : Option Json)
        → get "resource_access" claims ≡ o
        → HasDistinctClients o
        → or_no_roles (lookup client (extract_client_roles claims)) ≡ granted_client_roles o client
    from (some (obj access)) e h = rw e (
        ap or_no_roles (
          collect_clients-lookup access [] client h ∙ either-none (body_roles (get client access))))
    from none e h = rw e
    from (some _) e h = rw e

-- The realm roles that the claims grant.
abbrev pub granted_realm_roles : Option Json → List String
granted_realm_roles (some (obj access)) = or_no_roles (list_texts (get "roles" access))
granted_realm_roles _ = []

-- Where each field of a principal comes from.
pub record ComesFrom (claims : Fields) (p : Principal) : Type 0 where
  pub subject : get "sub" claims ≡ some (str p.subject)
  pub issuer : get "iss" claims ≡ some (str p.issuer)
  pub username : get "preferred_username" claims ≡ some (str p.username)
  pub email : get "email" claims ≡ some (str p.email)
  pub names_not_empty :
      (is_blank p.subject ≡ false)
      × (is_blank p.issuer ≡ false)
      × (is_blank p.username ≡ false)
      × (is_blank p.email ≡ false)
  pub realm_role :
      (role : String)
      → has_realm_role p role ≡ contains (granted_realm_roles (get "realm_access" claims)) role
  pub client_role :
      (client role : String)
      → has_client_role p client role
        ≡ contains (granted_client_roles (get "resource_access" claims) client) role

require_str-ok :
    (claims : Fields) (name : String) {value : String}
    → require_str_claim claims name ≡ ok value
    → (get name claims ≡ some (str value)) × (is_blank value ≡ false)
unfolding require_str_claim
require_str-ok claims name {value} = from (get name claims) refl
  where
    from :
        (o : Option Json)
        → get name claims ≡ o
        → require_str_claim claims name ≡ ok value
        → (get name claims ≡ some (str value)) × (is_blank value ≡ false)
    from (some (str s)) e h = ground arith
    from none e h = absurd (ground arith)
    from (some _) e h = absurd (ground arith)

-- The four required claims of a principal that was built.
record Required (claims : Fields) (p : Principal) : Type 0 where
  subject : require_str_claim claims "sub" ≡ ok p.subject
  issuer : require_str_claim claims "iss" ≡ ok p.issuer
  username : require_str_claim claims "preferred_username" ≡ ok p.username
  email : require_str_claim claims "email" ≡ ok p.email
  realm_roles : p.realm_roles ≡ extract_realm_roles claims
  client_roles : p.client_roles ≡ extract_client_roles claims
  scopes : p.scopes ≡ extract_scopes claims

build_principal-Required :
    (claims : Fields) (p : Principal) → build_principal claims ≡ ok p → Required claims p
unfolding build_principal
build_principal-Required claims p h = elim (Result-cases (require_str_claim claims "sub")) [
  | inr (e, a) ↦ absurd (ground arith)
  | inl (s, a) ↦ elim (Result-cases (require_str_claim claims "iss")) [
    | inr (e, b) ↦ absurd (ground arith)
    | inl (i, b) ↦ elim (Result-cases (require_str_claim claims "preferred_username")) [
      | inr (e, c) ↦ absurd (ground arith)
      | inl (u, c) ↦ elim (Result-cases (require_str_claim claims "email")) [
        | inr (e, d) ↦ absurd (ground arith)
        | inl (m, d) ↦ elim (Result-cases (optional_str_claim claims "given_name")) [
          | inr (e, g) ↦ absurd (ground arith)
          | inl (first, g) ↦ elim (Result-cases (optional_str_claim claims "family_name")) [
            | inr (e, l) ↦ absurd (ground arith)
            | inl (last, l) ↦ ground arith
          ]
        ]
      ]
    ]
  ]
]

realm_roles_lem :
    (claims : Fields) → extract_realm_roles claims ≡ granted_realm_roles (get "realm_access" claims)
unfolding extract_realm_roles
realm_roles_lem claims = from (get "realm_access" claims) refl
  where
    from_roles :
        (access : Fields) (o : Option Json)
        → get "roles" access ≡ o
        → get "realm_access" claims ≡ some (obj access)
        → extract_realm_roles claims ≡ or_no_roles (list_texts o)
    from_roles access (some (arr vs)) r e = rw (e, r)
    from_roles access none r e = rw (e, r)
    from_roles access (some _) r e = rw (e, r)

    from :
        (o : Option Json)
        → get "realm_access" claims ≡ o
        → extract_realm_roles claims ≡ granted_realm_roles o
    from (some (obj access)) e = from_roles access (get "roles" access) refl e
    from none e = rw e
    from (some _) e = rw e

-- A principal has as subject, issuer, user name and email the four required claims, none of them
-- empty; it has exactly the realm roles and, if no client is listed twice, exactly the client roles
-- that the claims grant.
pub build_principal-ComesFrom :
    (claims : Fields) (p : Principal)
    → HasDistinctClients (get "resource_access" claims)
    → build_principal claims ≡ ok p
    → ComesFrom claims p
unfolding has_realm_role has_client_role
build_principal-ComesFrom claims p distinct h =
    let q : Required claims p = build_principal-Required claims p h in
    let a = require_str-ok claims "sub" q.subject in
    let b = require_str-ok claims "iss" q.issuer in
    let c = require_str-ok claims "preferred_username" q.username in
    let d = require_str-ok claims "email" q.email in
    record {
      subject = a.0;
      issuer = b.0;
      username = c.0;
      email = d.0;
      names_not_empty = (a.1, b.1, c.1, d.1);
      realm_role =
          λ role. ap (λ roles. contains roles role) (q.realm_roles ∙ realm_roles_lem claims);
      client_role = λ client role.
          ap (λ roles. contains roles role)
            (ap (λ (d : Dict (List String)). or_no_roles (lookup client d)) q.client_roles
              ∙ client_roles_lem claims client distinct);
    }

pub build_principal-scopes :
    (claims : Fields) (p : Principal)
    → build_principal claims ≡ ok p
    → p.scopes ≡ extract_scopes claims
build_principal-scopes claims p h = (build_principal-Required claims p h).scopes

joined-not_blank : (ws : List String) → All IsWord ws → ws ≢ [] → is_blank (joined ws) ≡ false
joined-not_blank [] h some_word = absurd (some_word refl)
joined-not_blank (w ∷ []) h some_word = h.0.0
joined-not_blank (String.[] ∷ v ∷ rest) h some_word = absurd (ground arith)
joined-not_blank (String.◌∷◌ c w ∷ v ∷ rest) h some_word =
    ap is_blank (cons-append c w (" " +++ joined (v ∷ rest)))

-- Scopes that the claim joins by spaces are read as they are.
pub extract_scopes-joined :
    (claims : Fields) (ws : List String)
    → get "scope" claims ≡ some (str (joined ws))
    → All IsWord ws
    → ws ≢ []
    → extract_scopes claims ≡ ws
unfolding extract_scopes
extract_scopes-joined claims ws claimed words some_word =
    ap (λ o. scopes_from o (get "scp" claims)) claimed
    ∙ ap (λ (b : Bool). if not b then split (joined ws) else text_list (get "scp" claims))
        (joined-not_blank ws words some_word)
    ∙ split-joined ws words

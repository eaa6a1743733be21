-- ===== src/Infra/Verifier/Claims.antt =====
-- What the verifier reads of decoded claims.
use fukawa.Prelude.{
  String, not, Option, none, some, List, [], ◌∷◌, any, contains, ◌+++◌, if◌then◌else◌,
}
use fukawa.Prelude.Text.{is_blank, split}
use fukawa.Prelude.Dict.{Dict, insert}
use fukawa.Prelude.Result.{Result, ok, err, ◌>>=◌}
use fukawa.Json.{Json, null, str, arr, obj, Fields, end, field, dict, get, texts}
use fukawa.App.Auth.{AuthenticationError, invalid_token}
use fukawa.Domain.Principal.{Principal}

abbrev pub Checked : Type 0 → Type 0
Checked A = Result AuthenticationError A

-- _coerce_str_list
unfoldable pub coerce_str_list : Option Json → List String
coerce_str_list (some (str s)) = s ∷ []
coerce_str_list (some (arr vs)) = texts vs
coerce_str_list _ = []

-- `frozenset(s for s in value if isinstance(s, str))` if the value is a list
abbrev pub text_list : Option Json → List String
text_list (some (arr vs)) = texts vs
text_list _ = []

abbrev pub scopes_from : Option Json → Option Json → List String
scopes_from (some (str raw)) scp = if not (is_blank raw) then split raw else text_list scp
scopes_from _ scp = text_list scp

-- _extract_scopes
unfoldable pub extract_scopes : Fields → List String
unfolding split
extract_scopes claims = scopes_from (get "scope" claims) (get "scp" claims)

abbrev roles_of : Option Json → List String
roles_of (some (obj access)) = text_list (get "roles" access)
roles_of _ = []

-- _extract_realm_roles
unfoldable pub extract_realm_roles : Fields → List String
extract_realm_roles claims = roles_of (get "realm_access" claims)

-- one round of the loop of _extract_client_roles: `out` with the roles of a client
abbrev pub add_client : String → Json → Dict (List String) → Dict (List String)
add_client client (obj body) out = elim (get "roles" body) [
  | some (arr roles) ↦ insert client (texts roles) out
  | _ ↦ out
]
add_client client _ out = out

unfoldable pub collect_clients : Fields → Dict (List String) → Dict (List String)
collect_clients end out = out
collect_clients (field client body rest) out = collect_clients rest (add_client client body out)

abbrev clients_from : Option Json → Dict (List String)
unfolding collect_clients
clients_from (some (obj access)) = collect_clients access []
clients_from _ = []

-- _extract_client_roles
unfoldable pub extract_client_roles : Fields → Dict (List String)
unfolding collect_clients
extract_client_roles claims = clients_from (get "resource_access" claims)

abbrev require_str : String → Option Json → Checked String
require_str name (some (str value)) =
    if is_blank value
    then err (invalid_token ("Token missing required claim: '" +++ (name +++ "'")))
    else ok value
require_str name _ = err (invalid_token ("Token missing required claim: '" +++ (name +++ "'")))

-- _require_str_claim
unfoldable pub require_str_claim : Fields → String → Checked String
require_str_claim claims name = require_str name (get name claims)

abbrev optional_str : String → Option Json → Checked (Option String)
optional_str name none = ok none
optional_str name (some null) = ok none
optional_str name (some (str value)) = ok (some value)
optional_str name _ = err (invalid_token ("Token claim '" +++ (name +++ "' must be a string")))

-- _optional_str_claim
unfoldable pub optional_str_claim : Fields → String → Checked (Option String)
optional_str_claim claims name = optional_str name (get name claims)

-- _build_principal
unfoldable pub build_principal : Fields → Checked Principal
unfolding require_str_claim optional_str_claim
build_principal claims = do
  subject ← require_str_claim claims "sub"
  issuer ← require_str_claim claims "iss"
  username ← require_str_claim claims "preferred_username"
  email ← require_str_claim claims "email"
  first_name ← optional_str_claim claims "given_name"
  last_name ← optional_str_claim claims "family_name"
  ok (record {
    subject = subject;
    issuer = issuer;
    username = username;
    email = email;
    first_name = first_name;
    last_name = last_name;
    scopes = extract_scopes claims;
    realm_roles = extract_realm_roles claims;
    client_roles = extract_client_roles claims;
    raw_claims = dict claims;
  })

-- `azp` is a candidate too, if it is a text that is not empty
abbrev with_azp : Option Json → List String → List String
with_azp (some (str azp)) candidates = if is_blank azp then candidates else azp ∷ candidates
with_azp _ candidates = candidates

abbrev pub audience_candidates : Fields → List String
audience_candidates claims = with_azp (get "azp" claims) (coerce_str_list (get "aud" claims))

-- _validate_audience, for the verifier's audiences
unfoldable pub validate_audience : List String → Fields → Checked (Unit {0})
unfolding coerce_str_list
validate_audience [] claims = ok tt
validate_audience (a ∷ audiences) claims =
    if any (contains (audience_candidates claims)) (a ∷ audiences)
    then ok tt
    else err (invalid_token "Invalid token audience")

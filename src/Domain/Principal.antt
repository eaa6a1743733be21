-- ===== src/Domain/Principal.antt =====
-- src/pet/domain/auth.py. A frozenset of texts is a list that only `in` reads.
use fukawa.Prelude.{String, Option, none, some, List, [], Bool, contains}
use fukawa.Prelude.Dict.{Dict, lookup}
use fukawa.Json.{Json}

pub record Principal : Type 0 where
  pub subject : String
  pub issuer : String
  pub username : String
  pub email : String
  pub first_name : Option String
  pub last_name : Option String
  pub scopes : List String
  pub realm_roles : List String
  pub client_roles : Dict (List String)
  pub raw_claims : Dict Json

abbrev pub or_no_roles : Option (List String) → List String
or_no_roles none = []
or_no_roles (some roles) = roles

unfoldable pub has_scope : Principal → String → Bool
has_scope p scope = contains p.scopes scope

unfoldable pub has_realm_role : Principal → String → Bool
has_realm_role p role = contains p.realm_roles role

unfoldable pub has_client_role : Principal → String → String → Bool
has_client_role p client_id role = contains (or_no_roles (lookup client_id p.client_roles)) role

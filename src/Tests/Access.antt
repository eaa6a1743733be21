-- ===== src/Tests/Access.antt =====
-- The dependencies of src/pet/api/auth.py for one principal.
use fukawa.Prelude.{refl, arith, String, ◌≡◌, ◌↔◌, none, List, [], ◌∷◌}
use fukawa.Prelude.Result.{ok}
use fukawa.Domain.Principal.{has_scope, has_realm_role, has_client_role}
use fukawa.Api.Access.{AccessState, required_scopes, required_realm_roles, required_client_roles}
use fukawa.Api.Access.Grants.{Covers, required_iff}
use fukawa.Api.Access.Sets.{SameSet, refused, refusal_of_set}
use mathlib.Core.Quot
use fukawa.Domain.Principal.{Principal}
use fukawa.Tests.Keys.{after_start}
use fukawa.Tests.Tokens.{ada}

abbrev roles : List String
roles = "editor" ∷ []

abbrev fresh : AccessState
fresh = record { provider = after_start; principal = none }

required_iff_example :
    ((required_scopes roles ada ≡ ok ada) ↔ Covers (has_scope ada) roles)
    × ((required_realm_roles roles ada ≡ ok ada) ↔ Covers (has_realm_role ada) roles)
    × ((required_client_roles "pet" roles ada ≡ ok ada) ↔ Covers (has_client_role ada "pet") roles)
required_iff_example = required_iff roles "pet" ada

abbrev wanted : List String
wanted = "editor" ∷ "owner" ∷ []

-- the same names in another order, one of them twice
abbrev wanted_again : List String
wanted_again = "owner" ∷ "editor" ∷ "owner" ∷ []

abbrev scoped : Principal
scoped = record ada { scopes = "owner" ∷ "reader" ∷ [] }

abbrev scoped_again : Principal
scoped_again = record ada { scopes = "reader" ∷ "owner" ∷ [] }

wanted-SameSet : SameSet wanted wanted_again
wanted-SameSet = Quot.sound (λ a. ground arith)

scoped-SameSet : SameSet scoped.scopes scoped_again.scopes
scoped-SameSet = Quot.sound (λ a. ground arith)

refusal_of_set_example :
    (refused (required_scopes wanted scoped) ≡ refused (required_scopes wanted_again scoped_again))
    × (refused (required_realm_roles wanted scoped)
        ≡ refused (required_realm_roles wanted_again scoped_again))
    × (refused (required_client_roles "pet" wanted scoped)
        ≡ refused (required_client_roles "pet" wanted_again scoped_again))
refusal_of_set_example =
    refusal_of_set wanted wanted_again "pet" scoped scoped_again wanted-SameSet scoped-SameSet refl
      refl

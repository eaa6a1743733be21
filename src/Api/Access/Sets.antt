-- ===== src/Api/Access/Sets.antt =====
-- The frozensets of src/pet/api/auth.py: what a check says depends on the sets alone, not on the lists that
-- stand for them.
use fukawa.Prelude.{
  String, Bool, not, ◌&&◌, ◌≡◌, refl, sym, ap, ◌∙◌, List, [], ◌∷◌, contains, unique,
  contains-unique, arith, has_duplicates, false, Option, some, none,
}
use fukawa.Prelude.Text.Sorted.{SameTexts, sorted_set-eq, has_duplicates-unique}
use fukawa.Prelude.Result.{Result, ok, err}
use text.Mathlib.TextEquality.{IsScalar-prop}
use mathlib.Core.Quot
use mathlib.Core.Quot.{Quot}
use fukawa.Prelude.Dict.{lookup}
use fukawa.Domain.Principal.{Principal, or_no_roles}
use fukawa.App.Auth.{AuthorizationError}
use fukawa.Api.Access.{
  without_all, missing, required_scopes, required_realm_roles, required_client_roles, refuse_or,
}
use fukawa.Api.Access.Grants.{contains-without_all}

-- the error of a check that refuses
abbrev pub refused : Result AuthorizationError Principal → Option AuthorizationError
refused (ok p) = none
refused (err e) = some e

-- A frozenset of texts: lists with the same members stand for the same set.
abbrev pub TextSet : Type 0
TextSet = Quot SameTexts

abbrev pub of_list : List String → TextSet
of_list = Quot.mk

has_duplicates-keep :
    (xs granted : List String)
    → has_duplicates xs ≡ false
    → has_duplicates (without_all xs granted) ≡ false
has_duplicates-keep [] granted h = refl
has_duplicates-keep (x ∷ xs) granted h =
    ground (arith, contains-without_all xs granted x, has_duplicates-keep xs granted)

missing-eq :
    (names names' granted granted' : List String)
    → SameTexts names names'
    → SameTexts granted granted'
    → missing names granted ≡ missing names' granted'
unfolding missing
missing-eq names names' granted granted' h k =
    sorted_set-eq (without_all (unique names) granted) (without_all (unique names') granted')
      (has_duplicates-keep (unique names) granted (has_duplicates-unique names))
      (has_duplicates-keep (unique names') granted' (has_duplicates-unique names'))
      (λ a.
        contains-without_all (unique names) granted a
        ∙ ap (λ (b : Bool). b && not (contains granted a))
            (contains-unique names a ∙ h a ∙ sym (contains-unique names' a))
        ∙ ap (λ (b : Bool). contains (unique names') a && not b) (k a)
        ∙ sym (contains-without_all (unique names') granted' a))

names_set : IsSet (List String)
names_set = hlevel IsScalar-prop

-- sorted(required - granted), for a list of required names and a set of granted ones
missing_from : List String → TextSet → List String
missing_from names =
    Quot.lift names_set (missing names) (λ g g' k. missing-eq names names g g' (λ a. refl) k)

missing_from-eq :
    (names names' : List String)
    → SameTexts names names'
    → (granted : TextSet) → missing_from names granted ≡ missing_from names' granted
unfolding missing_from
missing_from-eq names names' h =
    Quot.ind (λ g. names_set _ _) (λ g. missing-eq names names' g g h (λ a. refl))

-- sorted(required - granted), on sets
missing_of : TextSet → TextSet → List String
missing_of =
    Quot.lift (hlevel names_set) missing_from
      (λ names names' h i granted. missing_from-eq names names' h granted i)

-- the same set of texts
abbrev pub SameSet : List String → List String → Type 0
SameSet xs ys = of_list xs ≡ of_list ys

missing-set :
    (names names' granted granted' : List String)
    → SameSet names names'
    → SameSet granted granted'
    → missing names granted ≡ missing names' granted'
unfolding missing_of missing_from
missing-set names names' granted granted' h k i = missing_of (h i) (k i)

refused-same :
    (kind : String) (ms ms' : List String) (p q : Principal)
    → ms ≡ ms'
    → refused (refuse_or kind ms p) ≡ refused (refuse_or kind ms' q)
refused-same kind [] [] p q h = refl
refused-same kind [] (x ∷ xs) p q h = absurd (ground arith)
refused-same kind (x ∷ xs) [] p q h = absurd (ground arith)
refused-same kind (x ∷ xs) (y ∷ ys) p q h = ap (λ ms. refused (refuse_or kind ms p)) h

-- Two checks for the same set of scopes, of principals that hold the same set of scopes, both pass or are both refused
-- with the same message, in whatever order and however often a list names them; and so for realm roles
-- and for the roles of a client.
pub refusal_of_set :
    (names names' : List String) (client_id : String) (p q : Principal)
    → SameSet names names'
    → SameSet p.scopes q.scopes
    → SameSet p.realm_roles q.realm_roles
    → SameSet
        (or_no_roles (lookup client_id p.client_roles))
        (or_no_roles (lookup client_id q.client_roles))
    → (refused (required_scopes names p) ≡ refused (required_scopes names' q))
      × (refused (required_realm_roles names p) ≡ refused (required_realm_roles names' q))
      × (refused (required_client_roles client_id names p)
          ≡ refused (required_client_roles client_id names' q))
unfolding required_scopes required_realm_roles required_client_roles
refusal_of_set names names' client_id p q h scopes realm client = (
  refused-same _ _ _ p q (missing-set names names' _ _ h scopes),
  refused-same _ _ _ p q (missing-set names names' _ _ h realm),
  refused-same _ _ _ p q (missing-set names names' _ _ h client),
)

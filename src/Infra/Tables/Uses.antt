-- ===== src/Infra/Tables/Uses.antt =====
-- The constraint that src/pet/infra/sqla/db/exc.py names, against the tables that
-- src/pet/infra/sqla/db/models.py describes.
use fukawa.Prelude.{
  String, Bool, false, ◌≡◌, refl, sym, ap, ◌∙◌, ◌↔◌, ◌≢◌, All, Option, none, some, List, [], ◌∷◌,
  arith, ◌==◌, eq_iff, if◌then◌else◌, inl, inr, Bool-cases, Option-cases, false≢true,
}
use fukawa.App.Errors.{AppErrorCode}
use fukawa.Infra.Persistence.{PersistenceError, PersistenceErrorKind, translate_db_error}
use fukawa.Infra.Tables.{Rule, primary_key, unique_key, check, foreign_key, Constraint}
use fukawa.Infra.Tables.Models.{organization_model}
use fukawa.Infra.Tables.Naming.{table_of}

abbrev columns_of : Rule → Option (List String)
columns_of (unique_key columns) = some columns
columns_of (primary_key _) = none
columns_of (check _) = none
columns_of (foreign_key _ _ _ _) = none

-- the columns of the unique constraint of a name
abbrev pub unique_columns : (name : String) → List Constraint → Option (List String)
unique_columns name [] = none
unique_columns name (c ∷ cs) =
    let rest = unique_columns name cs in if c.name == name then columns_of c.rule else rest

taken_unique :
    (k : PersistenceErrorKind) (e : PersistenceError)
    → e.kind ≡ k
    → (translate_db_error e).code ≡ AppErrorCode.organization_name_taken
    → (k ≡ PersistenceErrorKind.unique)
      × (e.constraint_name ≡ some "uq_organizations_name_canonical")
unfolding translate_db_error
taken_unique PersistenceErrorKind.unique e k h = elim (Option-cases e.constraint_name) [
  | inl q ↦ absurd (ground (arith, q))
  | inr (n, q) ↦ elim (Bool-cases (n == "uq_organizations_name_canonical")) [
    | inl same ↦ (refl, q ∙ ap some ((eq_iff n "uq_organizations_name_canonical").0 same))
    | inr other ↦ absurd (ground (arith, q, other))
  ]
]
taken_unique PersistenceErrorKind.fk e k h = absurd (ground arith)
taken_unique PersistenceErrorKind.not_null e k h = absurd (ground arith)
taken_unique PersistenceErrorKind.check e k h = absurd (ground arith)
taken_unique PersistenceErrorKind.operational e k h = absurd (ground arith)
taken_unique PersistenceErrorKind.transient e k h = absurd (ground arith)
taken_unique PersistenceErrorKind.unknown e k h = absurd (ground arith)
taken_unique PersistenceErrorKind.other_integrity e k h = absurd (ground arith)

-- Of some constraints, only one of a given name is unique on the given columns.
abbrev IsOnly : (name : String) (columns : List String) → Constraint → Type 0
IsOnly name columns c = columns_of c.rule ≡ some columns → c.name ≡ name

only_name :
    (name : String) (columns : List String) (n : String) (cs : List Constraint)
    → All (IsOnly name columns) cs
    → unique_columns n cs ≡ some columns
    → n ≡ name
only_name name columns n [] only h = absurd (ground arith)
only_name name columns n (c ∷ cs) only h = elim (Bool-cases (c.name == n)) [
  | inl e ↦ sym ((eq_iff c.name n).0 e) ∙ only.0 (ground (arith, e))
  | inr e ↦ only_name name columns n cs only.1 (ground (arith, e))
]

other_columns : {a b : String} → (a == b) ≡ false → some (a ∷ []) ≢ some (b ∷ [])
other_columns {a} {b} e h = false≢true (sym e ∙ ap (λ o. starts_with o) h ∙ (eq_iff b b).1 refl)
  where
    starts_with : Option (List String) → Bool
    starts_with (some (x ∷ _)) = x == b
    starts_with _ = false

canonical-IsOnly :
    All
      (IsOnly "uq_organizations_name_canonical" ("name_canonical" ∷ []))
      (table_of organization_model).constraints
unfolding organization_model
canonical-IsOnly = (
  λ h. absurd (ground arith),
  (
    λ h. absurd (other_columns refl h),
    (
      λ h. refl,
      (
        λ h. absurd (ground arith),
        (
          λ h. absurd (ground arith),
          (λ h. absurd (ground arith), (λ h. absurd (ground arith), tt)),
        ),
      ),
    ),
  ),
)

taken_back :
    (e : PersistenceError)
    → e.kind ≡ PersistenceErrorKind.unique
    → e.constraint_name ≡ some "uq_organizations_name_canonical"
    → (translate_db_error e).code ≡ AppErrorCode.organization_name_taken
unfolding translate_db_error
taken_back e k h = ground (arith, k, h)

canonical_columns :
    unique_columns "uq_organizations_name_canonical" (table_of organization_model).constraints
    ≡ some ("name_canonical" ∷ [])
unfolding organization_model
canonical_columns = refl

-- An error of the database tells a client that the name of an organization is taken exactly if it is the
-- violation of a unique constraint that the table organizations has on the canonical name alone.
pub name_taken_iff :
    (e : PersistenceError)
    → ((translate_db_error e).code ≡ AppErrorCode.organization_name_taken) ↔ (
        (e.kind ≡ PersistenceErrorKind.unique)
        × ((n : String) × (e.constraint_name ≡ some n)
            × (unique_columns n (table_of organization_model).constraints
                ≡ some ("name_canonical" ∷ []))))
name_taken_iff e = (
  λ h.
      let (k, c) = taken_unique e.kind e refl h in
      (k, ("uq_organizations_name_canonical", c, canonical_columns)),
  λ (k, (n, c, columns)). taken_back e k (
      c
      ∙ ap some (
          only_name "uq_organizations_name_canonical" ("name_canonical" ∷ []) n
            (table_of organization_model).constraints canonical-IsOnly columns)),
)

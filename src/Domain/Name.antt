-- ===== src/Domain/Name.antt =====
-- src/pet/domain/value_objects.py and exc.py: organization names. The length of a text is its count of
-- code points.
use fukawa.Prelude.{ℕ, String, count, Option, none, ltb, if◌then◌else◌}
use fukawa.Prelude.Text.{is_blank, strip}
use fukawa.Prelude.Result.{Result, ok, err, ◌>>=◌}

-- domain/exc.py: ValidationError; its subclass NameValidationError adds nothing
pub record ValidationError : Type 0 where
  pub message : String
  pub cause : Option String

-- ORG_NAME_MIN_LEN, ORG_NAME_MAX_LEN
abbrev pub org_name_min_len : ℕ
org_name_min_len = 3

abbrev pub org_name_max_len : ℕ
org_name_max_len = 64

abbrev pub name_error : String → ValidationError
name_error m = record { message = m; cause = none }

-- The Unicode tables of the runtime: `unicodedata.normalize("NFC", ·)` and `str.casefold`.
pub record Unicode : Type 0 where
  pub nfc : String → String
  pub casefold : String → String

-- the dataclass `Name`: `__post_init__` validates, and keeps the normalized value
pub record Name : Type 0 where
  pub value : String

module _ (u : Unicode) where
  abbrev pub normalize_org_name : String → String
  normalize_org_name value = u.nfc (strip value)

  abbrev pub canonicalize_org_name : String → String
  canonicalize_org_name value = u.nfc (u.casefold value)

  unfoldable pub validate_org_name : String → Result ValidationError String
  validate_org_name value =
      let normalized_value = normalize_org_name value in
      let canonical_value = canonicalize_org_name normalized_value in
      if is_blank normalized_value
      then err (name_error "Name cannot be empty")
      else if ltb (count normalized_value) org_name_min_len
      then err (name_error "Name is too short")
      else if ltb org_name_max_len (count normalized_value)
      then err (name_error "Name is too long")
      else if ltb org_name_max_len (count canonical_value)
      then err (name_error "Name is too long")
      else ok normalized_value

  -- Name.create
  unfoldable pub create : String → Result ValidationError Name
  unfolding validate_org_name
  create value = do validated ← validate_org_name value; ok (record { value = validated })

-- ===== src/Infra/Schema/Names.antt =====
-- The names that the program accepts against the constraints of the table.
use Prim.Native.Char.{Char}
use fukawa.Prelude.{String, count, ◌≡◌, refl, sym, ap, ◌∙◌, ◌≤◌, ◌↔◌, true, false, arith}
use fukawa.Prelude.Text.{is_blank, is_space, strip}
use fukawa.Prelude.Text.Strip.{strip_idem, strip_fewer}
use fukawa.Prelude.Result.{ok}
use fukawa.Domain.Name.{Unicode, validate_org_name, normalize_org_name, canonicalize_org_name}
use fukawa.Infra.Schema.{Postgres, is_blank_char, btrim, name_canonical, IsStorable, has_nul}

-- What is documented of NFC: a normalized text is unchanged by it, and it turns no text that has
-- white space at neither end into one that has.
pub record NfcLaws (u : Unicode) : Type 0 where
  pub idem : (s : String) → u.nfc (u.nfc s) ≡ u.nfc s
  pub keeps_strip : (s : String) → strip s ≡ s → strip (u.nfc s) ≡ u.nfc s

-- The database and the runtime follow the same Unicode tables.
pub record SameTables (u : Unicode) (pg : Postgres) : Type 0 where
  pub nfc : (s : String) → pg.normalize_nfc s ≡ u.nfc s
  pub casefold : (s : String) → pg.casefold s ≡ u.casefold s

-- An accepted name, described by its bounds.
pub record IsAccepted (u : Unicode) (value name : String) : Type 0 where
  pub normalized : name ≡ normalize_org_name u value
  pub long_enough : 3 ≤ count name
  pub short_enough : count name ≤ 64
  pub canonical_short : count (canonicalize_org_name u name) ≤ 64

blank-count : (s : String) → is_blank s ≡ true → count s ≡ 0
blank-count String.[] h = refl
blank-count (String.◌∷◌ c s) h = cc

blank_is_space : (c : Char) → is_blank_char c ≡ true → is_space c ≡ true
unfolding is_space
blank_is_space c h = ground arith

module _ (u : Unicode) where
  -- A name is accepted, as its trimmed NFC form, exactly if that form has 3 to 64 characters and
  -- its case-folded NFC form at most 64.
  pub validate_org_name_iff :
      (value name : String) → (validate_org_name u value ≡ ok name) ↔ IsAccepted u value name
  unfolding validate_org_name
  validate_org_name_iff value name =
      (λ h. ground arith, λ a. ground (arith, blank-count (normalize_org_name u value)))

  normalized_stable :
      NfcLaws u
      → (value : String)
      → normalize_org_name u (normalize_org_name u value) ≡ normalize_org_name u value
  normalized_stable laws value =
      ap u.nfc (laws.keeps_strip (strip value) (strip_idem value)) ∙ laws.idem (strip value)

  -- A name that was accepted is accepted again, and comes back unchanged: the request model and the
  -- value object `Name` validate the same text one after the other, if NFC is as documented.
  validate_org_name_idem :
      NfcLaws u
      → (value name : String) → validate_org_name u value ≡ ok name
      → validate_org_name u name ≡ ok name
  validate_org_name_idem laws value name h =
      let a : IsAccepted u value name = (validate_org_name_iff value name).0 h in
      (validate_org_name_iff name name).1 record {
        normalized =
            a.normalized
            ∙ sym (normalized_stable laws value)
            ∙ ap (normalize_org_name u) (sym a.normalized);
        long_enough = a.long_enough;
        short_enough = a.short_enough;
        canonical_short = a.canonical_short;
      }

  -- An accepted name meets the column type and all four check constraints of the table exactly if it
  -- does not contain U+0000, if NFC is as documented and the database follows the same Unicode tables
  -- as the runtime.
  pub accepted_name-IsStorable :
      (pg : Postgres)
      → NfcLaws u
      → SameTables u pg
      → (value name : String) → validate_org_name u value ≡ ok name
      → IsStorable pg name ↔ (has_nul name ≡ false)
  unfolding btrim
  accepted_name-IsStorable pg laws tables value name h =
      let a : IsAccepted u value name = (validate_org_name_iff value name).0 h in
      let stable : u.nfc name ≡ name =
        ap u.nfc a.normalized ∙ laws.idem (strip value) ∙ sym a.normalized in
      let pg_stable : pg.normalize_nfc name ≡ name = tables.nfc name ∙ stable in
      let trimmed : strip name ≡ name =
        ap strip a.normalized
        ∙ laws.keeps_strip (strip value) (strip_idem value)
        ∙ sym a.normalized in
      let same_canonical : name_canonical pg name ≡ canonicalize_org_name u name =
        ap (λ t. pg.normalize_nfc (pg.casefold t)) pg_stable
        ∙ ap pg.normalize_nfc (tables.casefold name)
        ∙ tables.nfc (u.casefold name) in
      (
        λ storable. storable.no_nul,
        λ clean. record {
          no_nul = clean;
          max_len = a.short_enough;
          name_trimmed = sym (strip_fewer is_blank_char blank_is_space name trimmed);
          name_nfc_normalized = pg_stable;
          name_min_len = a.long_enough;
          name_casefold_max_len = omega (arith, ap count same_canonical, a.canonical_short);
        },
      )

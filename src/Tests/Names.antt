-- ===== src/Tests/Names.antt =====
-- Organization names, of src/pet/domain/value_objects.py, in plain ASCII.
use fukawa.Prelude.{◌≡◌, refl, ◌↔◌, false}
use fukawa.Prelude.Result.{ok}
use fukawa.Prelude.Text.{strip}
use fukawa.Domain.Name.{Unicode, validate_org_name}
use fukawa.Infra.Schema.{Postgres, IsStorable, has_nul}
use fukawa.Infra.Schema.Names.{
  NfcLaws, SameTables, IsAccepted, validate_org_name_iff, accepted_name-IsStorable,
}

abbrev ascii : Unicode
ascii = record { nfc = λ s. s; casefold = λ s. s }

abbrev ascii_database : Postgres
ascii_database = record { normalize_nfc = λ s. s; casefold = λ s. s }

ascii-NfcLaws : NfcLaws ascii
ascii-NfcLaws = record { idem = λ s. refl; keeps_strip = λ s h. h }

ascii-SameTables : SameTables ascii ascii_database
ascii-SameTables = record { nfc = λ s. refl; casefold = λ s. refl }

accepted_acme : validate_org_name ascii "  Acme Inc " ≡ ok "Acme Inc"
unfolding validate_org_name strip
accepted_acme = refl

validate_org_name_iff_example :
    (validate_org_name ascii "  Acme Inc " ≡ ok "Acme Inc")
    ↔ IsAccepted ascii "  Acme Inc " "Acme Inc"
validate_org_name_iff_example = validate_org_name_iff ascii "  Acme Inc " "Acme Inc"

accepted_name-IsStorable_example :
    IsStorable ascii_database "Acme Inc" ↔ (has_nul "Acme Inc" ≡ false)
accepted_name-IsStorable_example =
    accepted_name-IsStorable ascii ascii_database ascii-NfcLaws ascii-SameTables "  Acme Inc "
      "Acme Inc" accepted_acme

-- ===== src/Infra/Schema.antt =====
-- src/pet/infra/sqla/db/models.py: what the table `organizations` requires of a name.
pub mod Names
use Prim.Native.Char.{Char, code}
use fukawa.Prelude.{ℕ, String, count, ◌≡◌, ◌≤◌, Bool, false, leb, ◌&&◌, ◌||◌}
use fukawa.Prelude.Text.{lstrip_by, rstrip_by}
use fukawa.Domain.Name.{org_name_min_len, org_name_max_len}

-- PostgreSQL's `normalize(·, NFC)` and `casefold(· COLLATE "pg_unicode_fast")`.
pub record Postgres : Type 0 where
  pub normalize_nfc : String → String
  pub casefold : String → String

-- the one character that `btrim(text)` trims
abbrev pub is_blank_char : Char → Bool
is_blank_char c = leb 32 (code c) && leb (code c) 32

-- The text contains the character U+0000.
abbrev pub has_nul : String → Bool
has_nul String.[] = false
has_nul (String.◌∷◌ c s) = leb (code c) 0 || has_nul s

-- btrim(name)
unfoldable pub btrim : String → String
btrim name = rstrip_by is_blank_char (lstrip_by is_blank_char name)

module _ (pg : Postgres) where
  -- ORG_NAME_CANONICAL_SQL, the computed column `name_canonical`
  abbrev pub name_canonical : String → String
  name_canonical name = pg.normalize_nfc (pg.casefold (pg.normalize_nfc name))

  -- The column type String(ORG_NAME_MAX_LEN), a text of PostgreSQL, which holds no U+0000, and the four
  -- check constraints.
  pub record IsStorable (name : String) : Type 0 where
    pub no_nul : has_nul name ≡ false
    pub max_len : count name ≤ org_name_max_len
    pub name_trimmed : name ≡ btrim name
    pub name_nfc_normalized : pg.normalize_nfc name ≡ name
    pub name_min_len : org_name_min_len ≤ count name
    pub name_casefold_max_len : count (name_canonical name) ≤ org_name_max_len

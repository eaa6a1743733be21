-- ===== src/Prelude/Text.antt =====
-- Python's `str` methods that the program calls, over the code points of a text.
pub mod Strip
pub mod Order
pub mod Split
pub mod Sorted
pub mod Decimal
pub mod Uuid
use Prim.Native.Nat.{ℕ}
use Prim.Native.Char.{Char, code}
use Prim.Native.String.{String, [], ◌∷◌}
use mathlib.Core.Bool.{Bool, true, false, ◌&&◌, ◌||◌}
use mathlib.Core.List.{List}
use fukawa.Prelude.Tests.{leb, if◌then◌else◌}

abbrev is_code : ℕ → ℕ → Bool
is_code n c = leb n c && leb c n

abbrev in_codes : ℕ → ℕ → ℕ → Bool
in_codes lo hi c = leb lo c && leb c hi

-- str.isspace on one character: the code points that Python's `strip` and `split` remove
unfoldable pub is_space : Char → Bool
is_space ch =
    let c = code ch in
    in_codes 9 13 c
    || in_codes 28 32 c
    || is_code 0x85 c
    || is_code 0xa0 c
    || is_code 0x1680 c
    || in_codes 0x2000 0x200a c
    || in_codes 0x2028 0x2029 c
    || is_code 0x202f c
    || is_code 0x205f c
    || is_code 0x3000 c

-- not s
abbrev pub is_blank : String → Bool
is_blank [] = true
is_blank (_ ∷ _) = false

module _ (drop : Char → Bool) where
  pub lstrip_by : String → String
  lstrip_by [] = []
  lstrip_by (c ∷ s) = let rest = lstrip_by s in if drop c then rest else c ∷ s

  pub rstrip_by : String → String
  rstrip_by [] = []
  rstrip_by (c ∷ s) = let rest = rstrip_by s in if is_blank rest && drop c then [] else c ∷ rest

-- s.strip()
unfoldable pub strip : String → String
unfolding lstrip_by rstrip_by is_space
strip s = rstrip_by is_space (lstrip_by is_space s)

-- a word in front of the words already split off, unless it is empty
abbrev pub push_word : String → List String → List String
push_word [] ws = ws
push_word (c ∷ w) ws = List.◌∷◌ (c ∷ w) ws

-- the word that the text begins with, and the words behind it
unfoldable pub split_words : String → String × List String
split_words [] = ([], List.[])
split_words (c ∷ s) =
    let (w, ws) = split_words s in if is_space c then ([], push_word w ws) else (c ∷ w, ws)

-- s.split()
unfoldable pub split : String → List String
unfolding split_words is_space
split s = let (w, ws) = split_words s in push_word w ws

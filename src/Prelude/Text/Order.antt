-- ===== src/Prelude/Text/Order.antt =====
-- Python's order on `str`, by code points, and `sorted` on texts.
use Prim.Native.Char.{code}
use Prim.Native.String.{String}
use fukawa.Prelude.{
  ◌≡◌, refl, Bool, true, false, ◌||◌, List, [], ◌∷◌, ltb, contains, arith, ◌==◌, if◌then◌else◌,
  ◌+++◌,
}

-- a <= b
unfoldable pub text_leb : String → String → Bool
text_leb String.[] b = true
text_leb (String.◌∷◌ c s) String.[] = false
text_leb (String.◌∷◌ c s) (String.◌∷◌ d t) =
    let rest = text_leb s t in
    if ltb (code c) (code d) then true else if ltb (code d) (code c) then false else rest

unfoldable pub insert_sorted : String → List String → List String
unfolding text_leb
insert_sorted a [] = a ∷ []
insert_sorted a (x ∷ xs) =
    let rest = insert_sorted a xs in if text_leb a x then a ∷ x ∷ xs else x ∷ rest

-- sorted(xs)
unfoldable pub sorted : List String → List String
unfolding insert_sorted
sorted [] = []
sorted (x ∷ xs) = insert_sorted x (sorted xs)

-- " ".join(words)
abbrev pub joined : List String → String
joined [] = ""
joined (w ∷ []) = w
joined (w ∷ v ∷ rest) = w +++ (" " +++ joined (v ∷ rest))

contains-insert_sorted :
    (a : String) (xs : List String) (b : String)
    → contains (insert_sorted a xs) b ≡ (a == b || contains xs b)
unfolding insert_sorted
contains-insert_sorted a [] b = refl
contains-insert_sorted a (x ∷ xs) b = ground (arith, contains-insert_sorted a xs b)

-- Sorting changes no membership.
pub contains-sorted : (xs : List String) (b : String) → contains (sorted xs) b ≡ contains xs b
unfolding sorted
contains-sorted [] b = refl
contains-sorted (x ∷ xs) b =
    ground (arith, contains-insert_sorted x (sorted xs) b, contains-sorted xs b)

-- ===== src/Prelude/Lists.antt =====
-- Membership tests and lengths over the native numbers.
use Prim.Native.Nat.{ℕ, suc}
use Prim.Native.String.{String}
use mathlib.Core.Path.{◌≡◌, refl}
use mathlib.Core.Bool.{Bool, true, false, not, ◌&&◌, ◌||◌}
use mathlib.Core.List.{List, [], ◌∷◌, ◌++◌}
use native.Mathlib.Omega.{arith}
use text.Mathlib.Text.{◌==◌}
use text.Mathlib.TextEquality.{eq_iff}
use fukawa.Prelude.Tests.{if◌then◌else◌}

module _ {ℓ} {A : Type ℓ} where
  abbrev pub length : List A → ℕ
  length [] = 0
  length (x ∷ xs) = suc (length xs)

  -- `not xs`
  abbrev pub is_empty : List A → Bool
  is_empty [] = true
  is_empty (_ ∷ _) = false

  abbrev pub all : (A → Bool) → List A → Bool
  all p [] = true
  all p (x ∷ xs) = p x && all p xs

  abbrev pub any : (A → Bool) → List A → Bool
  any p [] = false
  any p (x ∷ xs) = p x || any p xs

  -- the comprehension `[x for x in xs if p(x)]`
  abbrev pub keep : (A → Bool) → List A → List A
  keep p [] = []
  keep p (x ∷ xs) = let rest = keep p xs in if p x then x ∷ rest else rest

module _ {ℓ κ} {A : Type ℓ} (P : A → Type κ) where
  abbrev pub All : List A → Type κ
  All [] = Unit
  All (x ∷ xs) = P x × All xs

-- `x in xs` on a collection of texts
abbrev pub contains : List String → String → Bool
contains [] a = false
contains (x ∷ xs) a = x == a || contains xs a

-- xs without a
abbrev pub without : String → List String → List String
without a [] = []
without a (x ∷ xs) = let rest = without a xs in if x == a then rest else x ∷ rest

-- tuple(dict.fromkeys(xs)): the first occurrence of each text stays
abbrev pub unique : List String → List String
unique [] = []
unique (x ∷ xs) = x ∷ without x (unique xs)

abbrev pub has_duplicates : List String → Bool
has_duplicates [] = false
has_duplicates (x ∷ xs) = contains xs x || has_duplicates xs

pub contains-append :
    (xs ys : List String) (a : String) → contains (xs ++ ys) a ≡ (contains xs a || contains ys a)
contains-append [] ys a = refl
contains-append (x ∷ xs) ys a = ground (arith, contains-append xs ys a)

pub contains-without :
    (a b : String) (xs : List String)
    → contains (without a xs) b ≡ (if a == b then false else contains xs b)
contains-without a b [] = ground arith
contains-without a b (x ∷ xs) =
    ground (arith, contains-without a b xs, eq_iff x a, eq_iff x b, eq_iff a b)

-- Removing repetitions changes no membership.
pub contains-unique : (xs : List String) (a : String) → contains (unique xs) a ≡ contains xs a
contains-unique [] a = refl
contains-unique (x ∷ xs) a =
    ground (arith, contains-without x a (unique xs), contains-unique xs a, eq_iff x a)

module _ {ℓ} {A : Type ℓ} (p : A → Bool) where
  pub all-append_left : (xs ys : List A) → all p (xs ++ ys) ≡ true → all p xs ≡ true
  all-append_left [] ys h = refl
  all-append_left (x ∷ xs) ys h = ground (arith, all-append_left xs ys)

  pub any-append : (xs ys : List A) → any p (xs ++ ys) ≡ (any p xs || any p ys)
  any-append [] ys = refl
  any-append (x ∷ xs) ys = ground (arith, any-append xs ys)

  -- Where no element passes the test, keeping the others keeps all.
  pub keep-any : (xs : List A) → any p xs ≡ false → keep (λ x. not (p x)) xs ≡ xs
  keep-any [] h = refl
  keep-any (x ∷ xs) h = ground (arith, keep-any xs)

  pub keep-append_any :
      (xs ys zs : List A)
      → keep (λ x. not (p x)) xs ≡ zs
      → any p ys ≡ false
      → keep (λ x. not (p x)) (xs ++ ys) ≡ zs ++ ys
  keep-append_any [] ys zs h k = ground (arith, keep-any ys k)
  keep-append_any (x ∷ xs) ys zs h k =
      ground (arith, keep-append_any xs ys (keep (λ x. not (p x)) xs) refl k)

-- ===== src/Prelude/Text/Sorted.antt =====
-- The order on texts is total, and a sorted list without repetitions is determined by its members.
use Prim.Native.String.{String}
use text.Mathlib.TextEquality.{Char-path}
use fukawa.Prelude.{
  subst, true, false, ◌||◌, ◌≡◌, refl, sym, ap, ◌∙◌, List, [], ◌∷◌, contains, unique,
  has_duplicates, without, contains-without, arith, inl, inr, Bool-cases, eq_iff, ◌==◌, false≢true,
}
use fukawa.Prelude.Text.Order.{text_leb, insert_sorted, sorted, contains-sorted}

text_leb_refl : (a : String) → text_leb a a ≡ true
unfolding text_leb
text_leb_refl String.[] = refl
text_leb_refl (String.◌∷◌ c a) = ground (arith, text_leb_refl a)

text_leb_total : (a b : String) → text_leb a b ≡ false → text_leb b a ≡ true
unfolding text_leb
text_leb_total String.[] b h = absurd (false≢true (sym h))
text_leb_total (String.◌∷◌ c a) String.[] h = refl
text_leb_total (String.◌∷◌ c a) (String.◌∷◌ d b) h = ground (arith, text_leb_total a b)

text_leb_antisymm : (a b : String) → text_leb a b ≡ true → text_leb b a ≡ true → a ≡ b
unfolding text_leb
text_leb_antisymm String.[] String.[] h k = refl
text_leb_antisymm String.[] (String.◌∷◌ d b) h k = absurd (false≢true k)
text_leb_antisymm (String.◌∷◌ c a) String.[] h k = absurd (false≢true h)
text_leb_antisymm (String.◌∷◌ c a) (String.◌∷◌ d b) h k =
    let same : c ≡ d = Char-path c d (ground arith) in
    let rest : a ≡ b = text_leb_antisymm a b (ground arith) (ground arith) in
    (λ i. String.◌∷◌ (same i) (rest i))

text_leb_trans : (a b c : String) → text_leb a b ≡ true → text_leb b c ≡ true → text_leb a c ≡ true
unfolding text_leb
text_leb_trans String.[] b c h k = refl
text_leb_trans (String.◌∷◌ x a) String.[] c h k = absurd (false≢true h)
text_leb_trans (String.◌∷◌ x a) (String.◌∷◌ y b) String.[] h k = absurd (false≢true k)
text_leb_trans (String.◌∷◌ x a) (String.◌∷◌ y b) (String.◌∷◌ z c) h k =
    ground (arith, text_leb_trans a b c)

-- No member comes before a.
Below : String → List String → Type 0
Below a xs = (b : String) → contains xs b ≡ true → text_leb a b ≡ true

-- Each member comes before those behind it, and does not occur among them.
abbrev IsStrict : List String → Type 0
IsStrict [] = Unit
IsStrict (x ∷ xs) = (contains xs x ≡ false) × Below x xs × IsStrict xs

contains-insert :
    (a : String) (xs : List String) (b : String)
    → contains (insert_sorted a xs) b ≡ (a == b || contains xs b)
unfolding insert_sorted
contains-insert a [] b = refl
contains-insert a (x ∷ xs) b = ground (arith, contains-insert a xs b)

insert_empty : (a : String) → insert_sorted a [] ≡ a ∷ []
unfolding insert_sorted
insert_empty a = refl

insert_first :
    (a x : String) (xs : List String) → text_leb a x ≡ true → insert_sorted a (x ∷ xs) ≡ a ∷ x ∷ xs
unfolding insert_sorted
insert_first a x xs h = ground (arith, h)

insert_later :
    (a x : String) (xs : List String)
    → text_leb a x ≡ false
    → insert_sorted a (x ∷ xs) ≡ x ∷ insert_sorted a xs
unfolding insert_sorted
insert_later a x xs h = ground (arith, h)

insert_sorted-IsStrict :
    (a : String) (xs : List String)
    → contains xs a ≡ false
    → IsStrict xs
    → IsStrict (insert_sorted a xs)
unfolding Below
insert_sorted-IsStrict a [] new h =
    subst IsStrict (sym (insert_empty a)) (refl, λ b there. absurd (false≢true there), tt)
insert_sorted-IsStrict a (x ∷ xs) new (lone, below, rest) = elim (Bool-cases (text_leb a x)) [
  | inl first ↦ subst IsStrict (sym (insert_first a x xs first)) (
    new,
    λ b there. elim (Bool-cases (x == b)) [
      | inl e ↦ subst (λ y. text_leb a y ≡ true) ((eq_iff x b).0 e) first
      | inr e ↦ text_leb_trans a x b first (below b (ground (arith, e)))
    ],
    (lone, below, rest),
  )
  | inr later ↦ subst IsStrict (sym (insert_later a x xs later)) (
    ground (arith, contains-insert a xs x, eq_iff a x, eq_iff x a),
    λ b there. elim (Bool-cases (a == b)) [
      | inl e ↦ subst (λ y. text_leb x y ≡ true) ((eq_iff a b).0 e) (text_leb_total a x later)
      | inr e ↦ below b (ground (arith, e, contains-insert a xs b))
    ],
    insert_sorted-IsStrict a xs (ground arith) rest,
  )
]

sorted-IsStrict : (xs : List String) → has_duplicates xs ≡ false → IsStrict (sorted xs)
unfolding sorted
sorted-IsStrict [] h = tt
sorted-IsStrict (x ∷ xs) h =
    insert_sorted-IsStrict x (sorted xs) (ground (arith, contains-sorted xs x))
      (sorted-IsStrict xs (ground arith))

abbrev pub SameTexts : List String → List String → Type 0
SameTexts xs ys = (a : String) → contains xs a ≡ contains ys a

heads :
    (x y : String) (xs ys : List String)
    → IsStrict (x ∷ xs)
    → SameTexts (x ∷ xs) (y ∷ ys)
    → text_leb x y ≡ true
unfolding Below
heads x y xs ys (_, below, _) same = elim (Bool-cases (x == y)) [
  | inl e ↦ subst (λ z. text_leb x z ≡ true) ((eq_iff x y).0 e) (text_leb_refl x)
  | inr e ↦ below y (ground (arith, same y, e, eq_iff y y))
]

IsStrict-eq : (xs ys : List String) → IsStrict xs → IsStrict ys → SameTexts xs ys → xs ≡ ys
IsStrict-eq [] [] h k same = refl
IsStrict-eq [] (y ∷ ys) h k same = absurd (ground (arith, same y, eq_iff y y))
IsStrict-eq (x ∷ xs) [] h k same = absurd (ground (arith, same x, eq_iff x x))
IsStrict-eq (x ∷ xs) (y ∷ ys) h k same =
    let first : x ≡ y =
      text_leb_antisymm x y (heads x y xs ys h same) (heads y x ys xs k (λ a. sym (same a))) in
    let rest : xs ≡ ys = IsStrict-eq xs ys h.2 k.2 (λ a. elim (Bool-cases (x == a)) [
      | inl e ↦
          let there : x ≡ a = (eq_iff x a).0 e in
          ap (contains xs) (sym there) ∙ h.0 ∙ sym k.0 ∙ ap (contains ys) (sym first ∙ there)
      | inr e ↦ ground (arith, e, same a, subst (λ z. (z == a) ≡ false) first e)
    ]) in
    λ i. first i ∷ rest i

has_duplicates-without :
    (a : String) (xs : List String)
    → has_duplicates xs ≡ false
    → has_duplicates (without a xs) ≡ false
has_duplicates-without a [] h = refl
has_duplicates-without a (x ∷ xs) h =
    ground (arith, contains-without a x xs, has_duplicates-without a xs)

pub has_duplicates-unique : (xs : List String) → has_duplicates (unique xs) ≡ false
has_duplicates-unique [] = refl
has_duplicates-unique (x ∷ xs) = ground (
  arith,
  contains-without x x (unique xs),
  eq_iff x x,
  has_duplicates-without x (unique xs),
  has_duplicates-unique xs,
)

-- Sorting the members of a set gives one list, whichever list stands for the set.
pub sorted_set-eq :
    (xs ys : List String)
    → has_duplicates xs ≡ false
    → has_duplicates ys ≡ false
    → SameTexts xs ys
    → sorted xs ≡ sorted ys
sorted_set-eq xs ys h k same =
    IsStrict-eq (sorted xs) (sorted ys) (sorted-IsStrict xs h) (sorted-IsStrict ys k)
      (λ a. contains-sorted xs a ∙ same a ∙ sym (contains-sorted ys a))

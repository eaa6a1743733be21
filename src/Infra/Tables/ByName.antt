-- ===== src/Infra/Tables/ByName.antt =====
-- Tables and catalogs up to the order of their constraints and indexes, which a database forgets.
use fukawa.Prelude.{String, ◌≡◌, List, [], ◌∷◌, if◌then◌else◌, Bool-cases, inl, inr, arith, subst}
use fukawa.Prelude.Text.Order.{text_leb}
use mathlib.Core.List.{Perm}
use mathlib.Core.List.Perm

module _ {ℓ} {A : Type ℓ} (name : A → String) where
  unfoldable pub insert_by_name : A → List A → List A
  unfolding text_leb
  insert_by_name a [] = a ∷ []
  insert_by_name a (x ∷ xs) =
      let rest = insert_by_name a xs in if text_leb (name a) (name x) then a ∷ x ∷ xs else x ∷ rest

  unfoldable pub sort_by_name : List A → List A
  unfolding insert_by_name
  sort_by_name [] = []
  sort_by_name (x ∷ xs) = insert_by_name x (sort_by_name xs)

  insert_by_name-perm : (a : A) (xs : List A) → Perm (a ∷ xs) (insert_by_name a xs)
  unfolding insert_by_name
  insert_by_name-perm a [] = Perm.refl _
  insert_by_name-perm a (x ∷ xs) = elim (Bool-cases (text_leb (name a) (name x))) [
    | inl e ↦ subst (Perm (a ∷ x ∷ xs)) (ground (arith, e)) (Perm.refl _)
    | inr e ↦
        subst (Perm (a ∷ x ∷ xs)) (ground (arith, e))
          (Perm.trans (Perm.swap _ _ _) (Perm.cons x (insert_by_name-perm a xs)))
  ]

  sort_by_name-perm : (xs : List A) → Perm xs (sort_by_name xs)
  unfolding sort_by_name
  sort_by_name-perm [] = Perm.refl _
  sort_by_name-perm (x ∷ xs) =
      Perm.trans (Perm.cons x (sort_by_name-perm xs)) (insert_by_name-perm x (sort_by_name xs))

  -- Lists that agree once they are sorted are permutations of each other.
  pub perm-sort_by_name : {xs ys : List A} → sort_by_name xs ≡ sort_by_name ys → Perm xs ys
  perm-sort_by_name {xs} {ys} h =
      Perm.trans (subst (Perm xs) h (sort_by_name-perm xs)) (Perm.symm (sort_by_name-perm ys))

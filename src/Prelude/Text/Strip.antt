-- ===== src/Prelude/Text/Strip.antt =====
-- Trimming: what is trimmed stays, also under a trim that removes fewer characters.
use Prim.Native.Char.{Char}
use Prim.Native.String.{String, [], ◌∷◌}
use text.Mathlib.TextLemmas.{tail-eq_of_cons-eq}
use mathlib.Core.Path.{◌≡◌, refl, subst}
use mathlib.Core.Bool.{Bool, true, false, ◌&&◌}
use mathlib.Core.Logic.{inl, inr}
use native.Mathlib.Omega.{arith}
use fukawa.Prelude.Tests.{Bool-cases}
use fukawa.Prelude.Text.{is_blank, is_space, lstrip_by, rstrip_by, strip}

-- No character that `drop` takes stands at the front.
abbrev NoLead : (Char → Bool) → String → Type 0
NoLead drop [] = Unit
NoLead drop (c ∷ s) = drop c ≡ false

-- No character that `drop` takes stands at the front or at the end.
record IsTrimmed (drop : Char → Bool) (s : String) : Type 0 where
  front : NoLead drop s
  back : rstrip_by drop s ≡ s

module _ (drop : Char → Bool) where
  lstrip_front : (s : String) → NoLead drop (lstrip_by drop s)
  unfolding lstrip_by
  lstrip_front [] = tt
  lstrip_front (c ∷ s) = elim (Bool-cases (drop c)) [
    | inl dropped ↦ rw dropped (lstrip_front s)
    | inr kept ↦ rw kept kept
  ]

  lstrip_trimmed : (s : String) → NoLead drop s → lstrip_by drop s ≡ s
  unfolding lstrip_by
  lstrip_trimmed [] h = refl
  lstrip_trimmed (c ∷ s) h = rw h

  rstrip_front : (s : String) → NoLead drop s → NoLead drop (rstrip_by drop s)
  unfolding rstrip_by
  rstrip_front [] h = tt
  rstrip_front (c ∷ s) h = elim (Bool-cases (is_blank (rstrip_by drop s))) [
    | inl blank ↦ rw (h, blank) h
    | inr more ↦ rw (h, more) h
  ]

  rstrip_idem : (s : String) → rstrip_by drop (rstrip_by drop s) ≡ rstrip_by drop s
  unfolding rstrip_by
  rstrip_idem [] = refl
  rstrip_idem (c ∷ s) = elim (Bool-cases (is_blank (rstrip_by drop s) && drop c)) [
    | inl dropped ↦ rw dropped
    | inr kept ↦ rw kept (rw (rstrip_idem s, kept))
  ]

  trim-IsTrimmed : (s : String) → IsTrimmed drop (rstrip_by drop (lstrip_by drop s))
  trim-IsTrimmed s = record {
    front = rstrip_front (lstrip_by drop s) (lstrip_front s);
    back = rstrip_idem (lstrip_by drop s);
  }

  trim_trimmed : (s : String) → IsTrimmed drop s → rstrip_by drop (lstrip_by drop s) ≡ s
  trim_trimmed s h = rw (lstrip_trimmed s h.front) h.back

module _ (drop fewer : Char → Bool) (sub : (c : Char) → fewer c ≡ true → drop c ≡ true) where
  kept_by_fewer : (c : Char) → drop c ≡ false → fewer c ≡ false
  kept_by_fewer c h = elim (Bool-cases (fewer c)) [ inl e ↦ cc (sub c e, h) | inr e ↦ e ]

  front_fewer : (s : String) → NoLead drop s → NoLead fewer s
  front_fewer [] h = tt
  front_fewer (c ∷ s) h = kept_by_fewer c h

  back_fewer : (s : String) → rstrip_by drop s ≡ s → rstrip_by fewer s ≡ s
  unfolding rstrip_by
  back_fewer [] h = refl
  back_fewer (c ∷ s) h = elim (Bool-cases (is_blank (rstrip_by drop s) && drop c)) [
    | inl dropped ↦ cc (rw dropped at h)
    | inr kept ↦
        let rest : rstrip_by drop s ≡ s = tail-eq_of_cons-eq (rw kept at h) in
        let kept' : (is_blank s && drop c) ≡ false = rw rest at kept in
        rw (back_fewer s rest) (ground (arith, sub c))
  ]

  IsTrimmed-fewer : (s : String) → IsTrimmed drop s → IsTrimmed fewer s
  IsTrimmed-fewer s h = record { front = front_fewer s h.front; back = back_fewer s h.back }

-- A text that `strip` leaves alone.
pub strip_idem : (s : String) → strip (strip s) ≡ strip s
unfolding strip
strip_idem s = trim_trimmed is_space (strip s) (trim-IsTrimmed is_space s)

-- What `strip` leaves alone is left alone by a trim of fewer characters.
pub strip_fewer :
    (fewer : Char → Bool)
    → ((c : Char) → fewer c ≡ true → is_space c ≡ true)
    → (s : String) → strip s ≡ s
    → rstrip_by fewer (lstrip_by fewer s) ≡ s
unfolding strip
strip_fewer fewer sub s h = trim_trimmed fewer s (
    IsTrimmed-fewer is_space fewer sub s (subst (IsTrimmed is_space) h (trim-IsTrimmed is_space s)))

-- ===== src/Prelude/Text/Split.antt =====
-- Splitting a text into words, against joining words by spaces.
use Prim.Native.Char.{Char}
use Prim.Native.String.{String}
use text.Mathlib.TextLemmas.{cons-append, nil-append}
use fukawa.Prelude.{
  Bool, true, false, not, ◌&&◌, ◌≡◌, refl, ap, ◌∙◌, List, [], ◌∷◌, ◌+++◌, All, arith,
}
use fukawa.Prelude.Text.{is_space, is_blank, push_word, split_words, split}
use fukawa.Prelude.Text.Order.{joined}

abbrev space : Char
space = " "

-- a text without white space
abbrev pub has_no_space : String → Bool
has_no_space String.[] = true
has_no_space (String.◌∷◌ c s) = not (is_space c) && has_no_space s

-- A word: not empty, and without white space.
abbrev pub IsWord : String → Type 0
IsWord w = (is_blank w ≡ false) × (has_no_space w ≡ true)

split_words-word : (w : String) → has_no_space w ≡ true → split_words w ≡ (w, [])
unfolding split_words
split_words-word String.[] h = refl
split_words-word (String.◌∷◌ c w) h = ground (arith, split_words-word w)

split_words-space :
    (w t : String) → has_no_space w ≡ true → split_words (w +++ (" " +++ t)) ≡ (w, split t)
unfolding split_words split
split_words-space String.[] t h =
    ap split_words (nil-append (" " +++ t))
    ∙ ap split_words (cons-append space "" t ∙ ap (String.◌∷◌ space) (nil-append t))
split_words-space (String.◌∷◌ c w) t h =
    ap split_words (cons-append c w (" " +++ t)) ∙ ground (arith, split_words-space w t)

push_word-cons : (w : String) (ws : List String) → is_blank w ≡ false → push_word w ws ≡ w ∷ ws
push_word-cons String.[] ws h = absurd (ground arith)
push_word-cons (String.◌∷◌ c w) ws h = refl

-- Words that are joined by spaces are split into the same words.
pub split-joined : (ws : List String) → All IsWord ws → split (joined ws) ≡ ws
unfolding split
split-joined [] h = refl
split-joined (w ∷ []) h =
    ap (λ o. push_word o.0 o.1) (split_words-word w h.0.1) ∙ push_word-cons w [] h.0.0
split-joined (w ∷ v ∷ rest) h =
    ap (λ o. push_word o.0 o.1) (split_words-space w (joined (v ∷ rest)) h.0.1)
    ∙ push_word-cons w (split (joined (v ∷ rest))) h.0.0
    ∙ ap (λ ws. w ∷ ws) (split-joined (v ∷ rest) h.1)

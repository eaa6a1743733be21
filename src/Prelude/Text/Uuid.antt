-- ===== src/Prelude/Text/Uuid.antt =====
-- Python's `str` on a UUID and its `hex`, for a UUID that is a number below 2 ^ 128.
use Prim.Native.Nat.{ℕ, zero, suc, ◌+◌, ◌/◌, ◌%◌, ◌^◌}
use Prim.Native.Char.{Char, code}
use Prim.Native.String.{String, count}
use text.Mathlib.TextLemmas.{cons-append, nil-append, length-append, length-cons}
use fukawa.Prelude.{Bool, true, ◌&&◌, ◌||◌, ◌≡◌, refl, leb, ◌+++◌, arith, ap, ◌∙◌}

-- the digit at a place of a text of digits
abbrev digit_at : String → ℕ → String
digit_at String.[] n = "0"
digit_at (String.◌∷◌ c cs) zero = String.◌∷◌ c ""
digit_at (String.◌∷◌ c cs) (suc n) = digit_at cs n

-- the last k hexadecimal digits of n
abbrev hex_text : (k n : ℕ) → String
hex_text zero n = ""
hex_text (suc k) n = hex_text k (n / 16) +++ digit_at "0123456789abcdef" (n % 16)

-- uuid.hex
unfoldable pub hex : ℕ → String
hex n = hex_text 32 n

-- str(uuid)
unfoldable pub canonical : ℕ → String
canonical n =
    hex_text 8 (n / 16 ^ 24)
    +++ ("-"
        +++ (hex_text 4 (n / 16 ^ 20)
            +++ ("-"
                +++ (hex_text 4 (n / 16 ^ 16)
                    +++ ("-" +++ (hex_text 4 (n / 16 ^ 12) +++ ("-" +++ hex_text 12 n)))))))

-- a digit, a letter from a to f, or a dash
abbrev is_id_char : Char → Bool
is_id_char c =
    let n = code c in (leb 48 n && leb n 57) || ((leb 97 n && leb n 102) || (leb 45 n && leb n 45))

unfoldable pub is_id_text : String → Bool
is_id_text String.[] = true
is_id_text (String.◌∷◌ c s) = is_id_char c && is_id_text s

is_id_text-append :
    (s t : String) → is_id_text s ≡ true → is_id_text t ≡ true → is_id_text (s +++ t) ≡ true
unfolding is_id_text
is_id_text-append String.[] t h k = ap is_id_text (nil-append t) ∙ k
is_id_text-append (String.◌∷◌ c s) t h k =
    ap is_id_text (cons-append c s t) ∙ ground (arith, is_id_text-append s t)

-- A text of k characters that stand in identifiers.
abbrev pub HasIds : ℕ → String → Type 0
HasIds k s = (is_id_text s ≡ true) × (count s ≡ k)

then_ids : (j k : ℕ) (s t : String) → HasIds j s → HasIds k t → HasIds (j + k) (s +++ t)
then_ids j k s t (h, m) (l, n) =
    (is_id_text-append s t h l, length-append s t ∙ ground (arith, m, n))

digit_at-HasIds : (cs : String) (n : ℕ) → is_id_text cs ≡ true → HasIds 1 (digit_at cs n)
unfolding is_id_text
digit_at-HasIds String.[] n h = (refl, refl)
digit_at-HasIds (String.◌∷◌ c cs) zero h = (ground arith, length-cons c "")
digit_at-HasIds (String.◌∷◌ c cs) (suc n) h = digit_at-HasIds cs n (ground arith)

hex_text-HasIds : (k n : ℕ) → HasIds k (hex_text k n)
unfolding is_id_text
hex_text-HasIds zero n = (refl, refl)
hex_text-HasIds (suc k) n =
    let d : String = digit_at "0123456789abcdef" (n % 16) in
    let (ids, size) =
      then_ids k 1 (hex_text k (n / 16)) d (hex_text-HasIds k (n / 16))
        (digit_at-HasIds "0123456789abcdef" (n % 16) refl) in
    (ids, size ∙ ground arith)

pub hex-HasIds : (n : ℕ) → HasIds 32 (hex n)
unfolding hex
hex-HasIds n = hex_text-HasIds 32 n

dash-HasIds : HasIds 1 "-"
unfolding is_id_text
dash-HasIds = (refl, refl)

pub canonical-HasIds : (n : ℕ) → HasIds 36 (canonical n)
unfolding canonical
canonical-HasIds n = then_ids 8 28 _ _ (hex_text-HasIds 8 (n / 16 ^ 24)) (
    then_ids 1 27 _ _ dash-HasIds (
      then_ids 4 23 _ _ (hex_text-HasIds 4 (n / 16 ^ 20)) (
        then_ids 1 22 _ _ dash-HasIds (
          then_ids 4 18 _ _ (hex_text-HasIds 4 (n / 16 ^ 16)) (
            then_ids 1 17 _ _ dash-HasIds (
              then_ids 4 13 _ _ (hex_text-HasIds 4 (n / 16 ^ 12))
                (then_ids 1 12 _ _ dash-HasIds (hex_text-HasIds 12 n))))))))

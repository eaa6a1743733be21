-- ===== src/Api/Handlers/Quoting.antt =====
-- The quoted strings of the WWW-Authenticate header, read back by the rule of RFC 9110.
use Prim.Native.Char.{Char, code}
use text.Mathlib.TextEquality.{Char-path}
use text.Mathlib.TextLemmas.{cons-append, nil-append}
use fukawa.Prelude.{
  ℕ, String, Bool, true, false, ◌≡◌, refl, ap, ◌∙◌, Option, none, some, ◌+++◌, arith, inl, inr,
  Bool-cases, if◌then◌else◌,
}
use fukawa.Prelude.Text.{is_blank}
use fukawa.App.Auth.{AuthError, description}
use fukawa.Api.Handlers.Problem.{
  Request, replace_char, escape_quoted, header_start, www_authenticate_header, is_char,
}

abbrev push : Char → Option (String × String) → Option (String × String)
push c none = none
push c (some (s, rest)) = some (String.◌∷◌ c s, rest)

-- Reads the content of a quoted string behind its opening quote: a backslash makes the next
-- character literal, a quote ends it. The result is the content and what follows the end.
unfoldable pub read_quoted : (escaped : Bool) → String → Option (String × String)
read_quoted escaped String.[] = none
read_quoted true (String.◌∷◌ c s) = push c (read_quoted false s)
read_quoted false (String.◌∷◌ c s) =
    let literal = read_quoted true s in
    let plain = push c (read_quoted false s) in
    if is_char 92 c then literal else if is_char b'"' c then some (String.[], s) else plain

abbrev pub quote : Char
quote = "\""

abbrev backslash : Char
backslash = "\\"

two-append :
    (c d : Char) (s : String)
    → String.◌∷◌ c (String.◌∷◌ d String.[]) +++ s ≡ String.◌∷◌ c (String.◌∷◌ d s)
two-append c d s =
    cons-append c (String.◌∷◌ d String.[]) s
    ∙ ap (String.◌∷◌ c) (cons-append d String.[] s ∙ ap (String.◌∷◌ d) (nil-append s))

is_char-eq : (n : ℕ) (c d : Char) → code d ≡ n → is_char n c ≡ true → c ≡ d
is_char-eq n c d k h = Char-path c d (ground arith)

escape-nil : escape_quoted String.[] ≡ String.[]
unfolding escape_quoted
escape-nil = refl

-- `_escape_quoted` by one character of its argument.
escape-backslash :
    (s : String)
    → escape_quoted (String.◌∷◌ backslash s)
      ≡ String.◌∷◌ backslash (String.◌∷◌ backslash (escape_quoted s))
unfolding escape_quoted
escape-backslash s = rw (two-append backslash backslash (replace_char 92 "\\\\" s))

escape-quote :
    (s : String)
    → escape_quoted (String.◌∷◌ quote s) ≡ String.◌∷◌ backslash (String.◌∷◌ quote (escape_quoted s))
unfolding escape_quoted
escape-quote s = two-append backslash quote (escape_quoted s)

escape-plain :
    (c : Char) (s : String)
    → is_char 92 c ≡ false
    → is_char b'"' c ≡ false
    → escape_quoted (String.◌∷◌ c s) ≡ String.◌∷◌ c (escape_quoted s)
unfolding escape_quoted
escape-plain c s n m = rw n (rw m)

-- What `_escape_quoted` writes between quotes reads back as the value, and the reading ends at the
-- closing quote, whatever follows it.
read_quoted-escape :
    (v rest : String)
    → read_quoted false (escape_quoted v +++ String.◌∷◌ quote rest) ≡ some (v, rest)
unfolding read_quoted
read_quoted-escape String.[] rest = rw (escape-nil, nil-append)
read_quoted-escape (String.◌∷◌ c v) rest = elim (Bool-cases (is_char 92 c)) [
  | inl e ↦ rw (is_char-eq 92 c backslash refl e) (
      rw
        (
          escape-backslash v,
          cons-append backslash (String.◌∷◌ backslash (escape_quoted v)) (String.◌∷◌ quote rest),
          cons-append backslash (escape_quoted v) (String.◌∷◌ quote rest),
        )
        (ap (push backslash) (read_quoted-escape v rest)))
  | inr n ↦ elim (Bool-cases (is_char b'"' c)) [
    | inl e ↦ rw (is_char-eq b'"' c quote refl e) (
        rw
          (
            escape-quote v,
            cons-append backslash (String.◌∷◌ quote (escape_quoted v)) (String.◌∷◌ quote rest),
            cons-append quote (escape_quoted v) (String.◌∷◌ quote rest),
          )
          (ap (push quote) (read_quoted-escape v rest)))
    | inr m ↦
        rw (escape-plain c v n m, cons-append c (escape_quoted v) (String.◌∷◌ quote rest), n, m)
          (ap (push c) (read_quoted-escape v rest))
  ]
]

-- The header of an error with a description ends in a parameter `error_description`, whose quoted
-- string reads back as exactly that description, and behind which nothing follows.
pub www_authenticate_reads_back :
    (e : AuthError) (r : Request)
    → is_blank (description e) ≡ false
    → (tail : String) × (www_authenticate_header e r
        ≡ header_start e r +++ (", error_description=\"" +++ tail))
      × (read_quoted false tail ≡ some (description e, ""))
unfolding www_authenticate_header
www_authenticate_reads_back e r h =
    (escape_quoted (description e) +++ "\"", rw h, read_quoted-escape (description e) "")

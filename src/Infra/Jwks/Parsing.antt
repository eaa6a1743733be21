-- ===== src/Infra/Jwks/Parsing.antt =====
-- `_parse_jwks` against a description without its loop.
use fukawa.Prelude.{
  String, ◌≡◌, refl, sym, ap, ◌∙◌, Bool, true, false, ◌||◌, Option, none, some, List, [], ◌∷◌, ◌++◌,
  is_empty, contains, has_duplicates, any, All, arith, eq_iff, Bool-cases, Option-cases, ◌⊎◌, inl,
  inr, contains-append, if◌then◌else◌,
}
use mathlib.Core.List.{append_assoc, append-nil}
use fukawa.Prelude.Text.{is_blank}
use fukawa.Prelude.Dict.{Dict, lookup, insert, has_key, keys, has_key-contains}
use fukawa.Prelude.Result.{Result, ok, err}
use fukawa.Json.{Json, Fields, obj}
use fukawa.Infra.Jwks.Keys.{
  PyJwk, KeyPolicy, JwksProviderError, jwks_provider_unavailable, is_usable_signing_key, Collected,
  collect_key, collect, accept, parse_jwks,
}

-- The kid under which a key is kept, if it is kept.
abbrev kept_kid : KeyPolicy → PyJwk → Option String → Option String
kept_kid p key none = none
kept_kid p key (some kid) =
    if is_blank kid then none else if is_usable_signing_key p key then some kid else none

abbrev entry : Option String → PyJwk → Dict PyJwk → Dict PyJwk
entry none key d = d
entry (some kid) key d = (kid, key) ∷ d

-- The usable keys of a key set with their kids, in the order of the set.
unfoldable pub signing_keys : KeyPolicy → List PyJwk → Dict PyJwk
signing_keys p [] = []
signing_keys p (key ∷ ks) = entry (kept_kid p key key.key_id) key (signing_keys p ks)

module _ {ℓ} {V : Type ℓ} where
  -- Whether adding `e` to `d`, entry by entry, meets a key that is already there.
  clashes : Dict V → Dict V → Bool
  clashes d [] = false
  clashes d ((k, v) ∷ e) = has_key k d || clashes (d ++ (k, v) ∷ []) e

  insert_new :
      (k : String) (v : V) (d : Dict V) → has_key k d ≡ false → insert k v d ≡ d ++ (k, v) ∷ []
  insert_new k v [] h = refl
  insert_new k v ((j, w) ∷ d) h = ground (arith, insert_new k v d)

  keys-append : (d e : Dict V) → keys (d ++ e) ≡ keys d ++ keys e
  keys-append [] e = refl
  keys-append ((k, v) ∷ d) e = ap (λ (t : List String). k ∷ t) (keys-append d e)

any-contains-cons :
    (xs ys : List String) (a : String)
    → any (contains (xs ++ a ∷ [])) ys ≡ (any (contains xs) ys || contains ys a)
any-contains-cons xs [] a = refl
any-contains-cons xs (y ∷ ys) a =
    ground (arith, any-contains-cons xs ys a, contains-append xs (a ∷ []) y, eq_iff a y, eq_iff y a)

any-contains-nil : (ys : List String) → any (contains []) ys ≡ false
any-contains-nil [] = refl
any-contains-nil (y ∷ ys) = any-contains-nil ys

clashes-eq {ℓ} :
    {V : Type ℓ} (d e : Dict V)
    → clashes d e ≡ (any (contains (keys d)) (keys e) || has_duplicates (keys e))
unfolding clashes
clashes-eq d [] = refl
clashes-eq d ((k, v) ∷ e) = ground (
  arith,
  has_key-contains k d,
  clashes-eq (d ++ (k, v) ∷ []) e,
  keys-append d ((k, v) ∷ []),
  any-contains-cons (keys d) (keys e) k,
)

-- A recorded duplicate stays recorded.
collect-keeps_duplicates :
    (p : KeyPolicy) (ks : List PyJwk) (c : Collected)
    → is_empty c.1 ≡ false
    → is_empty (collect p ks c).1 ≡ false
unfolding collect
collect-keeps_duplicates p [] c h = h
collect-keeps_duplicates p (key ∷ ks) c h =
    collect-keeps_duplicates p ks (collect_key p key c) (ground arith)

-- What one round does while no duplicate is recorded.
abbrev added : Option String → PyJwk → Dict PyJwk → Collected
added none key d = (d, [])
added (some kid) key d = if has_key kid d then (d, kid ∷ []) else (d ++ (kid, key) ∷ [], [])

collect_key-eq :
    (p : KeyPolicy) (key : PyJwk) (d : Dict PyJwk)
    → collect_key p key (d, []) ≡ added (kept_kid p key key.key_id) key d
unfolding collect_key
collect_key-eq p key d = elim (Option-cases key.key_id) [
  | inl e ↦ rw e refl
  | inr (kid, e) ↦ rw e (ground (arith, insert_new kid key d))
]

-- The loop from a dictionary `d` with no duplicate recorded.
abbrev Collects : KeyPolicy → List PyJwk → Dict PyJwk → Type 0
Collects p ks d =
    ((clashes d (signing_keys p ks) ≡ false)
      × (collect p ks (d, []) ≡ (d ++ signing_keys p ks, [])))
    ⊎ ((clashes d (signing_keys p ks) ≡ true) × (is_empty (collect p ks (d, [])).1 ≡ false))

collect-cons :
    (p : KeyPolicy) (key : PyJwk) (ks : List PyJwk) (d : Dict PyJwk)
    → collect p (key ∷ ks) (d, []) ≡ collect p ks (added (kept_kid p key key.key_id) key d)
unfolding collect
collect-cons p key ks d = ap (collect p ks) (collect_key-eq p key d)

collect_entry :
    (p : KeyPolicy) (key : PyJwk) (ks : List PyJwk) (d : Dict PyJwk) (kept : Option String)
    → kept ≡ kept_kid p key key.key_id
    → ((e : Dict PyJwk) → Collects p ks e)
    → Collects p (key ∷ ks) d
unfolding signing_keys clashes
collect_entry p key ks d none e ih = rw (collect-cons p key ks d, ← e) (ih d)
collect_entry p key ks d (some kid) e ih = elim (Bool-cases (has_key kid d)) [
  | inl old ↦
      rw (collect-cons p key ks d, ← e, old)
        (inr (refl, collect-keeps_duplicates p ks (d, kid ∷ []) refl))
  | inr new ↦
      rw (collect-cons p key ks d, ← e, new, ← append_assoc d ((kid, key) ∷ []) (signing_keys p ks))
        (ih (d ++ (kid, key) ∷ []))
]

collect-Collects : (p : KeyPolicy) (ks : List PyJwk) (d : Dict PyJwk) → Collects p ks d
unfolding collect signing_keys clashes
collect-Collects p [] d = inl (refl, rw append-nil)
collect-Collects p (key ∷ ks) d =
    collect_entry p key ks d (kept_kid p key key.key_id) refl (collect-Collects p ks)

-- What `_parse_jwks` is meant to return for the keys of a key set.
abbrev pub specified : Dict PyJwk → Result JwksProviderError (Dict PyJwk)
specified found =
    if has_duplicates (keys found)
    then err (jwks_provider_unavailable "JWKS contains duplicate kid values")
    else if is_empty found
    then err (jwks_provider_unavailable "JWKS contains no usable signing keys")
    else ok found

accept-collect :
    (p : KeyPolicy) (ks : List PyJwk)
    → accept (collect p ks ([], [])) ≡ specified (signing_keys p ks)
accept-collect p ks = elim (collect-Collects p ks []) [
  | inl (fresh, e) ↦ rw e (
      ground
        (arith, clashes-eq [] (signing_keys p ks), any-contains-nil (keys (signing_keys p ks))))
  | inr (old, e) ↦
      ground (arith, clashes-eq [] (signing_keys p ks), any-contains-nil (keys (signing_keys p ks)))
]

-- A payload that is a JSON object with keys ks is accepted exactly if, among the usable keys of ks
-- with a kid, no kid occurs twice and there is at least one; the result is then those keys under
-- their kids, in the order of ks. Otherwise the error names the reason.
pub parse_jwks-eq-specified :
    (from_dict : Fields → Option (List PyJwk)) (p : KeyPolicy) (fs : Fields) (ks : List PyJwk)
    → from_dict fs ≡ some ks
    → parse_jwks from_dict p (obj fs) ≡ specified (signing_keys p ks)
unfolding parse_jwks
parse_jwks-eq-specified from_dict p fs ks e = rw e (accept-collect p ks)

-- A dictionary whose every entry is a usable key under its own kid, which is not empty.
abbrev pub IsEntry : KeyPolicy → String × PyJwk → Type 0
IsEntry p (kid, key) =
    (key.key_id ≡ some kid) × (is_blank kid ≡ false) × (is_usable_signing_key p key ≡ true)

abbrev pub IsKeyed : KeyPolicy → Dict PyJwk → Type 0
IsKeyed p = All (IsEntry p)

signing_keys-IsKeyed : (p : KeyPolicy) (ks : List PyJwk) → IsKeyed p (signing_keys p ks)
unfolding signing_keys
signing_keys-IsKeyed p [] = tt
signing_keys-IsKeyed p (key ∷ ks) = ground (arith, signing_keys-IsKeyed p ks)

specified-IsKeyed :
    (p : KeyPolicy) (found d : Dict PyJwk) → IsKeyed p found → specified found ≡ ok d → IsKeyed p d
specified-IsKeyed p found d k h = ground arith

-- Every key of an accepted key set is usable, and stands under its own non-empty kid.
pub parse_jwks-IsKeyed :
    (from_dict : Fields → Option (List PyJwk)) (p : KeyPolicy) (j : Json) (d : Dict PyJwk)
    → parse_jwks from_dict p j ≡ ok d
    → IsKeyed p d
unfolding parse_jwks
parse_jwks-IsKeyed from_dict p (obj fs) d h = elim (Option-cases (from_dict fs)) [
  | inl none_read ↦ cc (none_read, h)
  | inr (ks, e) ↦
      specified-IsKeyed p (signing_keys p ks) d (signing_keys-IsKeyed p ks)
        (sym (parse_jwks-eq-specified from_dict p fs ks e) ∙ h)
]
parse_jwks-IsKeyed from_dict p j d h = cc

pub lookup-IsEntry :
    (p : KeyPolicy) (d : Dict PyJwk) (kid : String) (key : PyJwk)
    → IsKeyed p d
    → lookup kid d ≡ some key
    → IsEntry p (kid, key)
lookup-IsEntry p [] kid key k h = cc
lookup-IsEntry p ((j, v) ∷ d) kid key k h =
    ground (arith, lookup-IsEntry p d kid key k.1, eq_iff j kid)

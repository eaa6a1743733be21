-- ===== src/Config/Hidden.antt =====
-- What is left of a log event after the processors.
use fukawa.Prelude.{
  String, ◌≡◌, ◌↔◌, refl, sym, ap, subst, ◌∙◌, Bool, true, false, Option, none, some, List, [], ◌∷◌,
  ◌++◌, arith, ◌==◌, eq_iff, Bool-cases, Option-cases, inl, inr, if◌then◌else◌,
}
use fukawa.Prelude.Dict.{Dict, lookup}
use fukawa.Config.Events.{
  Key, text_key, other_key, Value, dict, list, tuple, text, opaque, Entries, end, entry, Values,
  nil, cons, CaseMaps, redacted, is_sensitive, redact_nested, redact_entries, redact_values, redact,
  field_of, add_last, set_default, add_static_fields, processed, fragments_with, Processor,
  Structlog, through,
}

module _ (m : CaseMaps) (fragments : List String) where
  -- At every depth, the value of a sensitive key is the replacement.
  abbrev mutual
    pub IsHidden : Value → Type 0
    IsHidden (dict es) = HasHidden es
    IsHidden (list vs) = AllHidden vs
    IsHidden (tuple vs) = AllHidden vs
    IsHidden (text s) = Unit
    IsHidden (opaque s) = Unit

    pub HasHidden : Entries → Type 0
    HasHidden end = Unit
    HasHidden (entry k v es) =
        (is_sensitive m fragments k ≡ true → v ≡ redacted) × IsHidden v × HasHidden es

    pub AllHidden : Values → Type 0
    AllHidden nil = Unit
    AllHidden (cons v vs) = IsHidden v × AllHidden vs

  -- the value under a key
  hide-IsHidden :
      (k : Key) (v : Value)
      → IsHidden v
      → let u = if is_sensitive m fragments k then redacted else v in
        (is_sensitive m fragments k ≡ true → u ≡ redacted) × IsHidden u
  hide-IsHidden k v h = elim (Bool-cases (is_sensitive m fragments k)) [
    | inl yes_it ↦ rw yes_it ((λ e. refl), tt)
    | inr no_it ↦ rw no_it ((λ e. absurd (ground arith)), h)
  ]

  mutual
    unfolding redact_nested redact_entries redact_values

    nested-IsHidden : (v : Value) → IsHidden (redact_nested m fragments v)
    nested-IsHidden (dict es) = entries-HasHidden es
    nested-IsHidden (list vs) = values-AllHidden vs
    nested-IsHidden (tuple vs) = values-AllHidden vs
    nested-IsHidden (text s) = tt
    nested-IsHidden (opaque s) = tt

    entries-HasHidden : (es : Entries) → HasHidden (redact_entries m fragments es)
    entries-HasHidden end = tt
    entries-HasHidden (entry k v es) =
        let (a, b) = hide-IsHidden k (redact_nested m fragments v) (nested-IsHidden v) in
        (a, b, entries-HasHidden es)

    values-AllHidden : (vs : Values) → AllHidden (redact_values m fragments vs)
    values-AllHidden nil = tt
    values-AllHidden (cons v vs) = (nested-IsHidden v, values-AllHidden vs)

  keep_hidden :
      (k : Key) (v u : Value)
      → (is_sensitive m fragments k ≡ true → v ≡ redacted)
      → u ≡ v
      → (if is_sensitive m fragments k then redacted else u) ≡ v
  keep_hidden k v u hidden same = elim (Bool-cases (is_sensitive m fragments k)) [
    | inl yes_it ↦ rw yes_it (sym (hidden yes_it))
    | inr no_it ↦ rw no_it same
  ]

  mutual
    unfolding redact_nested redact_entries redact_values

    nested_fixed : (v : Value) → IsHidden v → redact_nested m fragments v ≡ v
    nested_fixed (dict es) h = ap dict (entries_fixed es h)
    nested_fixed (list vs) h = ap list (values_fixed vs h)
    nested_fixed (tuple vs) h = ap tuple (values_fixed vs h)
    nested_fixed (text s) h = refl
    nested_fixed (opaque s) h = refl

    entries_fixed : (es : Entries) → HasHidden es → redact_entries m fragments es ≡ es
    entries_fixed end h = refl
    entries_fixed (entry k v es) h =
        ap (λ u. entry k u (redact_entries m fragments es))
          (keep_hidden k v (redact_nested m fragments v) h.0 (nested_fixed v h.1))
        ∙ ap (entry k v) (entries_fixed es h.2)

    values_fixed : (vs : Values) → AllHidden vs → redact_values m fragments vs ≡ vs
    values_fixed nil h = refl
    values_fixed (cons v vs) h =
        ap (λ u. cons u (redact_values m fragments vs)) (nested_fixed v h.0)
        ∙ ap (cons v) (values_fixed vs h.1)

  redact-HasHidden : (es : Entries) → HasHidden (redact m fragments es)
  unfolding redact
  redact-HasHidden es = entries-HasHidden es

  -- The redaction changes an event exactly if some sensitive key, at any depth, has a value other than
  -- the replacement; so a second redaction changes nothing.
  redact_fixed_iff :
      (es : Entries)
      → ((redact m fragments es ≡ es) ↔ HasHidden es)
        × (redact m fragments (redact m fragments es) ≡ redact m fragments es)
  unfolding redact
  redact_fixed_iff es = (
    (λ same. subst HasHidden same (entries-HasHidden es), entries_fixed es),
    entries_fixed (redact_entries m fragments es) (entries-HasHidden es),
  )

-- A redaction that is the last of some processors hides what all of them have put into the event.
through-redact :
    (m : CaseMaps) (fragments : List String) (ps : List Processor) (es : Entries)
    → HasHidden m fragments (through (ps ++ redact m fragments ∷ []) es)
through-redact m fragments [] es = redact-HasHidden m fragments es
through-redact m fragments (p ∷ ps) es = through-redact m fragments ps (p es)

abbrev foreign_processors : Structlog → List Processor
foreign_processors lib =
    lib.merge_contextvars ∷ lib.add_logger_name ∷ lib.add_log_level
    ∷ lib.positional_arguments_formatter ∷ lib.time_stamper ∷ lib.stack_info_renderer ∷ []

-- Whatever the static fields, the event, the additional fragments and the other processors are, in the
-- event that the shared processors hand on the value of each sensitive key is the replacement, in nested dicts,
-- lists and tuples too.
pub processed-HasHidden :
    (lib : Structlog) (m : CaseMaps) (extra : List String) (static_fields : Dict Value)
    (es : Entries)
    → HasHidden m (fragments_with m extra) (processed lib m extra static_fields es)
unfolding processed
processed-HasHidden lib m extra [] es =
    through-redact m (fragments_with m extra) (foreign_processors lib) es
processed-HasHidden lib m extra (f ∷ fs) es =
    through-redact m (fragments_with m extra)
      (foreign_processors lib ++ add_static_fields (f ∷ fs) ∷ []) es

-- the first of two fields that is there
abbrev pub or_field : Option Value → Option Value → Option Value
or_field none o = o
or_field (some v) o = some v

or_field-none : (o : Option Value) → o ≡ or_field o none
or_field-none none = refl
or_field-none (some v) = refl

or_field-if :
    (o : Option Value) (b : Bool) (v : Value) (rest : Option Value)
    → or_field (or_field o (if b then some v else none)) rest
      ≡ or_field o (if b then some v else rest)
or_field-if (some u) b v rest = refl
or_field-if none true v rest = refl
or_field-if none false v rest = refl

field_of-add_last :
    (name key : String) (v : Value) (es : Entries)
    → field_of name (add_last (text_key key) v es)
      ≡ or_field (field_of name es) (if key == name then some v else none)
field_of-add_last name key v end = refl
field_of-add_last name key v (entry (text_key j) u es) =
    ground (arith, field_of-add_last name key v es)
field_of-add_last name key v (entry (other_key j) u es) =
    ground (arith, field_of-add_last name key v es)

field_of-set_default :
    (name key : String) (v : Value) (es : Entries)
    → field_of name (set_default key v es)
      ≡ or_field (field_of name es) (if key == name then some v else none)
unfolding set_default
field_of-set_default name key v es = elim (Option-cases (field_of key es)) [
  | inl absent ↦ ground (arith, field_of-add_last name key v es)
  | inr (u, there) ↦ elim (Bool-cases (key == name)) [
    | inl same ↦ ground (arith, eq_iff key name)
    | inr other ↦ elim (Option-cases (field_of name es)) [
      | inl n ↦ ground arith
      | inr (x, n) ↦ ground arith
    ]
  ]
]

-- A static field is added exactly where the event has none of that name: the event's own fields keep
-- their values, and of two static fields with one name the first counts.
field_of-add_static_fields :
    (name : String) (fields : Dict Value) (es : Entries)
    → field_of name (add_static_fields fields es) ≡ or_field (field_of name es) (lookup name fields)
unfolding add_static_fields
field_of-add_static_fields name [] es = or_field-none (field_of name es)
field_of-add_static_fields name ((key, v) ∷ fields) es =
    field_of-add_static_fields name fields (set_default key v es)
    ∙ ap (λ o. or_field o (lookup name fields)) (field_of-set_default name key v es)
    ∙ or_field-if (field_of name es) (key == name) v (lookup name fields)

-- ===== src/Infra/Tables/Frame.antt =====
-- Statements on a catalog that holds more than they speak of.
use fukawa.Prelude.{
  String, Bool, true, false, not, ◌&&◌, ◌||◌, ◌≡◌, refl, ap, ◌∙◌, none, some, List, [], ◌∷◌, ◌++◌,
  arith, any, all, contains, ◌==◌, eq_iff, false≢true, Bool-cases, inl, inr, any-append,
  keep-append_any, some-eq, some-eq,
}
use fukawa.Infra.Tables.{Table, Index}
use fukawa.Infra.Tables.Catalog.{
  Catalog, Operation, create_table, create_index, drop_index, drop_table, is_possible, after,
  has_relation, has_enum, has_table, refers_to, referred, without_table, relation_names, enum_names,
  enums_of, IsClosed,
}
use fukawa.Infra.Tables.Replay.{applied_all, is_apart, types_of}

-- the catalog that holds what both hold
abbrev pub beside : Catalog → Catalog → Catalog
beside d c = record {
  tables = d.tables ++ c.tables;
  indexes = d.indexes ++ c.indexes;
  enums = d.enums ++ c.enums;
}

and-true : {a b : Bool} → a ≡ true → b ≡ true → (a && b) ≡ true
and-true h k = ground arith

any-tables :
    (ts : List Table) (n : String)
    → any (λ t. contains (relation_names t) n) ts ≡ false
    → has_table ts n ≡ false
any-tables [] n h = refl
any-tables (t ∷ ts) n h = ground (arith, any-tables ts n)

append_assoc {ℓ} : {A : Type ℓ} (xs ys zs : List A) → xs ++ (ys ++ zs) ≡ (xs ++ ys) ++ zs
append_assoc [] ys zs = refl
append_assoc (x ∷ xs) ys zs = ap (λ rest. x ∷ rest) (append_assoc xs ys zs)

all-has_table :
    (ts us : List Table) (ns : List String)
    → all (has_table ts) ns ≡ true
    → all (has_table (ts ++ us)) ns ≡ true
all-has_table ts us [] h = refl
all-has_table ts us (n ∷ ns) h =
    ground (arith, any-append (λ (t : Table). t.name == n) ts us, all-has_table ts us ns)

module _ (d c : Catalog) where
  has_relation-beside :
      (n : String) → has_relation (beside d c) n ≡ (has_relation d n || has_relation c n)
  has_relation-beside n = ground (
    arith,
    any-append (λ t. contains (relation_names t) n) d.tables c.tables,
    any-append (λ (i : Index). i.name == n) d.indexes c.indexes,
  )

  all-has_relation :
      (ns : List String)
      → all (λ n. not (has_relation d n)) ns ≡ true
      → all (λ n. not (has_relation c n)) ns ≡ true
      → all (λ n. not (has_relation (beside d c) n)) ns ≡ true
  all-has_relation [] h k = refl
  all-has_relation (n ∷ ns) h k = ground (arith, has_relation-beside n, all-has_relation ns)

  all-has_enum :
      (ns : List String)
      → all (λ n. not (has_enum d n)) ns ≡ true
      → all (λ n. not (has_enum c n)) ns ≡ true
      → all (λ n. not (has_enum (beside d c) n)) ns ≡ true
  all-has_enum [] h k = refl
  all-has_enum (n ∷ ns) h k =
      ground (
        arith,
        any-append (λ (e : String × List String). e.0 == n) d.enums c.enums,
        all-has_enum ns,
      )

  no_table : (n : String) → not (has_relation c n) ≡ true → has_table c.tables n ≡ false
  no_table n h = any-tables c.tables n (ground arith)

  is_possible-beside :
      (op : Operation)
      → IsClosed c
      → is_apart c op ≡ true
      → is_possible op d ≡ true
      → is_possible op (beside d c) ≡ true
  is_possible-beside (create_table t) closed apart can =
      and-true (all-has_relation (relation_names t) (ground arith) (ground arith)) (
        and-true (all-has_enum (enum_names t.columns) (ground arith) (ground arith)) (
          and-true (ground arith)
            (all-has_table (t ∷ d.tables) c.tables (referred t.constraints) (ground arith))))
  is_possible-beside (create_index i) closed apart can = ground (
    arith,
    has_relation-beside i.name,
    any-append (λ (t : Table). t.name == i.table) d.tables c.tables,
  )
  is_possible-beside (drop_index n _) closed apart can =
      ground (arith, any-append (λ (i : Index). i.name == n) d.indexes c.indexes)
  is_possible-beside (drop_table n) closed apart can =
      let free : has_table c.tables n ≡ false = no_table n (ground arith) in
      let gone : without_table n (d.tables ++ c.tables) ≡ without_table n d.tables ++ c.tables =
        keep-append_any (λ (t : Table). t.name == n) d.tables c.tables _ refl free in
      let lone : any (refers_to n) (without_table n d.tables ++ c.tables) ≡ false = ground (
        arith,
        any-append (refers_to n) (without_table n d.tables) c.tables,
        closed.references n free,
      ) in
      and-true (ground (arith, any-append (λ (t : Table). t.name == n) d.tables c.tables))
        (ap not (ap (any (refers_to n)) gone ∙ lone))

  after-beside :
      (op : Operation)
      → IsClosed c
      → is_apart c op ≡ true
      → after op (beside d c) ≡ beside (after op d) c
  after-beside (create_table t) closed apart =
      ap
        (λ es. record {
          tables = t ∷ (d.tables ++ c.tables);
          indexes = d.indexes ++ c.indexes;
          enums = es;
        })
        (append_assoc (enums_of t.columns) d.enums c.enums)
  after-beside (create_index i) closed apart = refl
  after-beside (drop_index n _) closed apart =
      ap (λ is. record (beside d c) { indexes = is })
        (keep-append_any (λ (i : Index). i.name == n) d.indexes c.indexes _ refl (ground arith))
  after-beside (drop_table n) closed apart =
      let free : has_table c.tables n ≡ false = no_table n (ground arith) in
      let gone : without_table n (d.tables ++ c.tables) ≡ without_table n d.tables ++ c.tables =
        keep-append_any (λ (t : Table). t.name == n) d.tables c.tables _ refl free in
      let left =
        keep-append_any (λ (i : Index). i.table == n) d.indexes c.indexes _ refl
          (closed.indexes n free) in
      (λ i. record { tables = gone i; indexes = left i; enums = d.enums ++ c.enums })

-- Statements that go through on a catalog go through as well where the catalog holds more, if the
-- names that they speak of are free in what it holds besides and that is closed: they make of the
-- one part what they make of it alone, and leave the other as it is.
pub applied_all-beside :
    (ops : List Operation) (d e c : Catalog)
    → IsClosed c
    → all (is_apart c) ops ≡ true
    → applied_all ops d ≡ some e
    → applied_all ops (beside d c) ≡ some (beside e c)
unfolding applied_all
applied_all-beside [] d e c closed apart h = ap (λ x. some (beside x c)) (some-eq h)
applied_all-beside (op ∷ ops) d e c closed apart h = elim (Bool-cases (is_possible op d)) [
  | inr stuck ↦ absurd (ground arith)
  | inl goes ↦
      let first = is_possible-beside d c op closed (ground arith) goes in
      ground (arith, after-beside d c op closed, applied_all-beside ops (after op d) e c closed)
]

-- A type stays, whatever the statements.
has_enum-after :
    (op : Operation) (c : Catalog) (n : String)
    → has_enum c n ≡ true
    → has_enum (after op c) n ≡ true
has_enum-after (create_table t) c n h =
    ground (arith, any-append (λ (e : String × List String). e.0 == n) (enums_of t.columns) c.enums)
has_enum-after (create_index _) c n h = h
has_enum-after (drop_index _ _) c n h = h
has_enum-after (drop_table _) c n h = h

all-taken :
    (c : Catalog) (ns : List String) (n : String)
    → has_enum c n ≡ true
    → contains ns n ≡ true
    → all (λ m. not (has_enum c m)) ns ≡ false
all-taken c [] n h k = absurd (false≢true k)
all-taken c (m ∷ ns) n h k = elim (Bool-cases (m == n)) [
  | inl e ↦
      let same : m ≡ n = (eq_iff m n).0 e in
      let there : has_enum c m ≡ true = ap (has_enum c) same ∙ h in ground (arith, there)
  | inr e ↦ ground (arith, all-taken c ns n h)
]

stuck_on_type :
    (op : Operation) (c : Catalog) (n : String)
    → has_enum c n ≡ true
    → contains (types_of op) n ≡ true
    → is_possible op c ≡ false
stuck_on_type (create_index _) c n h k = absurd (false≢true k)
stuck_on_type (drop_index _ _) c n h k = absurd (false≢true k)
stuck_on_type (drop_table _) c n h k = absurd (false≢true k)
stuck_on_type (create_table t) c n h k = ground (arith, all-taken c (enum_names t.columns) n h)

-- Statements that create a type that the catalog has raise.
pub applied_all-none :
    (ops : List Operation) (c : Catalog) (n : String)
    → has_enum c n ≡ true
    → any (λ op. contains (types_of op) n) ops ≡ true
    → applied_all ops c ≡ none
unfolding applied_all
applied_all-none [] c n h k = absurd (false≢true k)
applied_all-none (op ∷ ops) c n h k = elim (Bool-cases (is_possible op c)) [
  | inr e ↦ ground (arith, e)
  | inl e ↦ elim (Bool-cases (contains (types_of op) n)) [
    | inl t ↦ absurd (ground (arith, stuck_on_type op c n h t))
    | inr t ↦ ground (arith, e, applied_all-none ops (after op c) n (has_enum-after op c n h))
  ]
]

pub applied_all-append :
    (ops more : List Operation) (c d : Catalog)
    → applied_all ops c ≡ some d
    → applied_all (ops ++ more) c ≡ applied_all more d
unfolding applied_all
applied_all-append [] more c d h = ap (applied_all more) (some-eq h)
applied_all-append (op ∷ ops) more c d h = elim (Bool-cases (is_possible op c)) [
  | inr e ↦ absurd (ground arith)
  | inl e ↦ ground (arith, applied_all-append ops more (after op c) d)
]

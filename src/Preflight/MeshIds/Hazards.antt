-- ===== src/Preflight/MeshIds/Hazards.antt =====
-- Which columns `MeshIDAllocationFindings` of internal/engine/preflight_mesh.go reports.
use Prim.Native.String.{String}
use replicare.Base.{
  ◌≡◌, ◌≢◌, refl, Bool, true, false, ◌&&◌, ◌||◌, Option, none, some, List, [], ◌∷◌, ◌++◌, map,
  Bytes, bytes_eq, contains, contains-append, is_nodup, ◌==◌, ==_cases, arith, codes, Bool-cases,
  Option-cases, inl, inr,
}
use replicare.Engine.{TableRef, Table, Column, Key}
use replicare.Preflight.Cyclic.{column_by_name}
use replicare.Preflight.Findings.{Finding, block}
use replicare.Preflight.Report.{finding}
use replicare.Preflight.MeshIds.{
  Role, note_primary, note_unique, note_primaries, note_uniques, note_keys, primary_columns,
  roles_of, is_allocated, if_int, check_column, check_roles, classify_int_type,
  mesh_findings_for_table, int_name, first_field, before_paren,
}
use replicare.Preflight.TypeNames.{to_lower, trim_space, fields_from}

abbrev pub subjects : List Finding → List Bytes
subjects fs = map (λ f. f.subject) fs

abbrev role_columns : List Role → List Bytes
role_columns rs = map (λ r. r.column) rs

abbrev is_int : Option (Bool × Bool) → Bool
is_int none = false
is_int (some (i, narrow)) = i

-- The names of the integer types of PostgreSQL and MySQL, and the serial ones.
abbrev integer_types : List String
integer_types =
    "tinyint" ∷ "smallint" ∷ "mediumint" ∷ "integer" ∷ "int" ∷ "bigint" ∷ "int2" ∷ "int4" ∷ "int8"
    ∷ "smallserial" ∷ "serial" ∷ "bigserial" ∷ "serial2" ∷ "serial4" ∷ "serial8" ∷ []

abbrev is_integer_word : Option Bytes → Bool
is_integer_word none = false
is_integer_word (some w) = contains (trim_space w) (map codes integer_types)

-- The first word of a type, in lower case and without what is in parentheses.
abbrev pub is_integer : Bytes → Bool
is_integer data_type =
    is_integer_word
      (first_field (fields_from [] (before_paren (to_lower (trim_space data_type)) ++ (32 ∷ []))))

abbrev counted : Option Column → Bool
counted none = false
counted (some c) = (c.identity || c.default_sequence) && is_integer c.data_type

-- The column exists, the database allocates its values, and they are integers.
abbrev pub is_counter : List Column → Bytes → Bool
is_counter cols n = counted (column_by_name n cols)

abbrev columns_in : List Key → List Bytes
columns_in [] = []
columns_in (k ∷ ks) = k.columns ++ columns_in ks

-- The columns of the primary key and of the unique keys.
abbrev pub key_columns : Table → List Bytes
key_columns t = primary_columns t.primary_key ++ columns_in t.unique_keys

-- Every column has one role.
module _ (x c : Bytes) where
  primary-roles :
      (rs : List Role)
      → contains x (role_columns (note_primary c rs)) ≡ (x == c || contains x (role_columns rs))
  unfolding note_primary
  primary-roles [] = refl
  primary-roles (r ∷ rs) = ground (
    arith,
    primary-roles rs,
    bytes_eq.beq_iff r.column c,
    bytes_eq.beq_iff x c,
    bytes_eq.beq_iff x r.column,
  )

  unique-roles :
      (k : Bytes) (rs : List Role)
      → contains x (role_columns (note_unique k c rs)) ≡ (x == c || contains x (role_columns rs))
  unfolding note_unique
  unique-roles k [] = refl
  unique-roles k (r ∷ rs) = ground (
    arith,
    unique-roles k rs,
    bytes_eq.beq_iff r.column c,
    bytes_eq.beq_iff x c,
    bytes_eq.beq_iff x r.column,
  )

abbrev AreApart : List Role → Type 0
AreApart rs = is_nodup (role_columns rs) ≡ true

primary-apart : (c : Bytes) (rs : List Role) → AreApart rs → AreApart (note_primary c rs)
unfolding note_primary
primary-apart c [] h = refl
primary-apart c (r ∷ rs) h =
    ground (arith, primary-roles r.column c rs, primary-apart c rs, bytes_eq.beq_iff r.column c)

unique-apart : (k c : Bytes) (rs : List Role) → AreApart rs → AreApart (note_unique k c rs)
unfolding note_unique
unique-apart k c [] h = refl
unique-apart k c (r ∷ rs) h =
    ground (arith, unique-roles r.column c k rs, unique-apart k c rs, bytes_eq.beq_iff r.column c)

int_name-integer : (w : Bytes) → (int_name w).0 ≡ contains w (map codes integer_types)
unfolding int_name
int_name-integer w = ground arith

word_is_integer :
    (o : Option Bytes)
    → is_int (elim o [ none ↦ none | some word ↦ some (int_name (trim_space word)) ])
      ≡ is_integer_word o
word_is_integer none = refl
word_is_integer (some w) = int_name-integer (trim_space w)

is_int-is_integer : (t : Bytes) → is_int (classify_int_type t) ≡ is_integer t
unfolding classify_int_type
is_int-is_integer t =
    word_is_integer
      (first_field (fields_from [] (before_paren (to_lower (trim_space t)) ++ (32 ∷ []))))

-- One round of notes: what is in the roles, and that each column has one.
abbrev Noted : List Bytes → List Role → List Role → Type 0
Noted cs rs rs' =
    ((x : Bytes) → contains x (role_columns rs') ≡ (contains x cs || contains x (role_columns rs)))
    × (AreApart rs → AreApart rs')

primaries-Noted : (cs : List Bytes) (rs : List Role) → Noted cs rs (note_primaries cs rs)
unfolding note_primaries
primaries-Noted [] rs = ((λ x. refl), λ h. h)
primaries-Noted (c ∷ cs) rs =
    let (m, a) = primaries-Noted cs (note_primary c rs) in
    ((λ x. ground (arith, m x, primary-roles x c rs)), λ h. a (primary-apart c rs h))

uniques-Noted : (k : Bytes) (cs : List Bytes) (rs : List Role) → Noted cs rs (note_uniques k cs rs)
unfolding note_uniques
uniques-Noted k [] rs = ((λ x. refl), λ h. h)
uniques-Noted k (c ∷ cs) rs =
    let (m, a) = uniques-Noted k cs (note_unique k c rs) in
    ((λ x. ground (arith, m x, unique-roles x c k rs)), λ h. a (unique-apart k c rs h))

keys-Noted : (ks : List Key) (rs : List Role) → Noted (columns_in ks) rs (note_keys ks rs)
unfolding note_keys
keys-Noted [] rs = ((λ x. refl), λ h. h)
keys-Noted (k ∷ ks) rs =
    let (n, b) = uniques-Noted k.name k.columns rs in
    let (m, a) = keys-Noted ks (note_uniques k.name k.columns rs) in
    ((λ x. ground (arith, m x, n x, contains-append x k.columns (columns_in ks))), λ h. a (b h))

roles_of-key_columns :
    (t : Table)
    → ((x : Bytes) → contains x (role_columns (roles_of t)) ≡ contains x (key_columns t))
      × AreApart (roles_of t)
unfolding roles_of
roles_of-key_columns t =
    let cs = primary_columns t.primary_key in
    let (n, b) = primaries-Noted cs [] in
    let (m, a) = keys-Noted t.unique_keys (note_primaries cs []) in
    ((λ x. ground (arith, m x, n x, contains-append x cs (columns_in t.unique_keys))), a (b refl))

-- Every column has a type name.
abbrev pub AreTyped : List Column → Type 0
AreTyped cols =
    (n : Bytes) (c : Column) → column_by_name n cols ≡ some c → classify_int_type c.data_type ≢ none

-- The findings are for the roles' columns that are counters, one for each.
abbrev Reports : List Column → List Role → Option (List Finding) → Type 0
Reports cols rs o =
    (fs : List Finding) × (o ≡ some fs)
    × ((x : Bytes) → contains x (subjects fs) ≡ (contains x (role_columns rs) && is_counter cols x))
    × (is_nodup (subjects fs) ≡ true)

module _ (t : TableRef) (cols : List Column) (typed : AreTyped cols) (r : Role) (rs : List Role)
    (fresh : contains r.column (role_columns rs) ≡ false) where
  -- The column is no counter.
  passes :
      (o : Option (List Finding))
      → is_counter cols r.column ≡ false
      → Reports cols rs o
      → Reports cols (r ∷ rs) o
  passes o n (fs, e, m, a) = (
    fs,
    e,
    (λ x. elim (==_cases x r.column) [
      | inl (h, q) ↦ let n' : is_counter cols x ≡ false = rw q n in rw (h, m x, n') (ground arith)
      | inr (h, _) ↦ rw h (m x)
    ]),
    a,
  )

  -- The column is a counter.
  reports :
      (o : Option (List Finding))
      → is_counter cols r.column ≡ true
      → Reports cols rs o
      → Reports cols (r ∷ rs) (if_int t r.column (some (true, false)) o)
  reports o n (fs, e, m, a) = (
    finding block t (codes "mesh-id-alloc") r.column ∷ fs,
    rw e refl,
    (λ x. elim (==_cases x r.column) [
      | inl (h, q) ↦ let n' : is_counter cols x ≡ true = rw q n in rw (h, n') refl
      | inr (h, _) ↦ rw h (m x)
    ]),
    ground (arith, m r.column),
  )

  by_type :
      (c : Column) (o : Option (List Finding))
      → column_by_name r.column cols ≡ some c
      → Reports cols rs o
      → Reports cols (r ∷ rs) (check_column t r.column (some c) o)
  by_type c o e h = elim (Bool-cases (is_allocated c)) [
    | inr n ↦ rw n (passes o (rw (e, n) refl) h)
    | inl a ↦ elim (Option-cases (classify_int_type c.data_type)) [
      | inl n ↦ absurd (typed r.column c e n)
      | inr ((false, w), k) ↦
          rw (a, k) (passes o (rw (e, a, ← is_int-is_integer c.data_type, k) refl) h)
      | inr ((true, w), k) ↦
          rw (a, k) (reports o (rw (e, a, ← is_int-is_integer c.data_type, k) refl) h)
    ]
  ]

  by_column :
      (o : Option (List Finding)) (found : Option Column)
      → column_by_name r.column cols ≡ found
      → Reports cols rs o
      → Reports cols (r ∷ rs) (check_column t r.column found o)
  by_column o none e h = passes o (rw e refl) h
  by_column o (some c) e h = by_type c o e h

check_roles-Reports :
    (t : TableRef) (cols : List Column)
    → AreTyped cols
    → (rs : List Role) → AreApart rs
    → Reports cols rs (check_roles t cols rs)
unfolding check_roles
check_roles-Reports t cols typed [] h = ([], refl, (λ x. refl), refl)
check_roles-Reports t cols typed (r ∷ rs) h =
    by_column t cols typed r rs (ground arith) (check_roles t cols rs)
      (column_by_name r.column cols) refl (check_roles-Reports t cols typed rs (ground arith))

pub mesh_findings_exact :
    (t : Table)
    → AreTyped t.columns
    → (fs : List Finding) × (mesh_findings_for_table t ≡ some fs)
      × ((x : Bytes)
          → contains x (subjects fs) ≡ (contains x (key_columns t) && is_counter t.columns x))
      × (is_nodup (subjects fs) ≡ true)
unfolding mesh_findings_for_table
mesh_findings_exact t typed =
    let (roles, apart) = roles_of-key_columns t in
    let (fs, e, m, a) = check_roles-Reports t.ref t.columns typed (roles_of t) apart in
    (fs, e, (λ x. ground (arith, m x, roles x)), a)

-- ===== src/Preflight/MeshIds.antt =====
-- internal/engine/preflight_mesh.go: `MeshIDAllocationFindings`, the keys that several members of a
-- mesh would allocate from the same counter. `none` is a panic, on a column without a type.
pub mod Hazards
use replicare.Base.{
  ℕ, Bool, true, false, not, ◌&&◌, ◌||◌, Option, none, some, List, [], ◌∷◌, ◌++◌, Bytes, bytes_eq,
  codes, nat_beq, contains, ◌==◌, if◌then◌else◌,
}
use replicare.Engine.{TableRef, Table, Column, Key}
use replicare.Preflight.TypeNames.{to_lower, trim_space, fields_from, one_of}
use replicare.Preflight.Cyclic.{column_by_name}
use replicare.Preflight.Findings.{block, Finding}
use replicare.Preflight.Report.{finding}

unfoldable pub before_paren : Bytes → Bytes
before_paren [] = []
before_paren (c ∷ cs) = let rest = before_paren cs in if nat_beq c b'(' then [] else c ∷ rest

abbrev pub first_field : List Bytes → Option Bytes
first_field [] = none
first_field (f ∷ _) = some f

-- Whether a type name is that of an integer, and of a narrow one.
unfoldable pub int_name : Bytes → Bool × Bool
int_name base =
    if one_of ("bigint" ∷ "int8" ∷ "bigserial" ∷ "serial8" ∷ []) base
    then (true, false)
    else if one_of
        ("integer" ∷ "int" ∷ "int4" ∷ "serial" ∷ "serial4" ∷ "smallint" ∷ "int2" ∷ "smallserial"
          ∷ "serial2" ∷ "mediumint" ∷ "tinyint" ∷ [])
        base
    then (true, true)
    else (false, false)

unfoldable pub classify_int_type : Bytes → Option (Bool × Bool)
unfolding before_paren fields_from trim_space to_lower int_name
classify_int_type data_type =
    let base = before_paren (to_lower (trim_space data_type)) in
    elim (first_field (fields_from [] (base ++ (32 ∷ [])))) [
      | none ↦ none
      | some word ↦ some (int_name (trim_space word))
    ]

-- The role of a column in the keys: in the primary key, and the first unique key that it is in.
pub record Role : Type 0 where
  pub column : Bytes
  pub in_primary : Bool
  pub unique_key : Bytes

abbrev name_key : Bytes → Role → Role
name_key k r = elim r.unique_key [ [] ↦ record r { unique_key = k } | _ ↦ r ]

-- `roles` and `order`, in the order of the first sight.
unfoldable pub note_primary : Bytes → List Role → List Role
note_primary c [] = record { column = c; in_primary = true; unique_key = [] } ∷ []
note_primary c (r ∷ rs) =
    let rest = note_primary c rs in
    if r.column == c then record r { in_primary = true } ∷ rs else r ∷ rest

unfoldable pub note_unique : Bytes → Bytes → List Role → List Role
note_unique k c [] = record { column = c; in_primary = false; unique_key = k } ∷ []
note_unique k c (r ∷ rs) =
    let rest = note_unique k c rs in if r.column == c then name_key k r ∷ rs else r ∷ rest

unfoldable pub note_primaries : List Bytes → List Role → List Role
unfolding note_primary
note_primaries [] rs = rs
note_primaries (c ∷ cs) rs = note_primaries cs (note_primary c rs)

unfoldable pub note_uniques : Bytes → List Bytes → List Role → List Role
unfolding note_unique
note_uniques k [] rs = rs
note_uniques k (c ∷ cs) rs = note_uniques k cs (note_unique k c rs)

unfoldable pub note_keys : List Key → List Role → List Role
unfolding note_uniques
note_keys [] rs = rs
note_keys (k ∷ ks) rs = note_keys ks (note_uniques k.name k.columns rs)

abbrev pub primary_columns : Option Key → List Bytes
primary_columns none = []
primary_columns (some k) = k.columns

unfoldable pub roles_of : Table → List Role
unfolding note_primaries note_keys
roles_of t = note_keys t.unique_keys (note_primaries (primary_columns t.primary_key) [])

abbrev pub is_allocated : Column → Bool
is_allocated c = c.identity || c.default_sequence

abbrev pub if_int :
    TableRef → Bytes → Option (Bool × Bool) → Option (List Finding) → Option (List Finding)
if_int t name none rest = none
if_int t name (some (false, narrow)) rest = rest
if_int t name (some (true, narrow)) none = none
if_int t name (some (true, narrow)) (some fs) =
    some (finding block t (codes "mesh-id-alloc") name ∷ fs)

abbrev pub check_column :
    TableRef → Bytes → Option Column → Option (List Finding) → Option (List Finding)
check_column t name none rest = rest
check_column t name (some c) rest =
    let found = if_int t name (classify_int_type c.data_type) rest in
    if is_allocated c then found else rest

unfoldable pub check_roles : TableRef → List Column → List Role → Option (List Finding)
unfolding classify_int_type column_by_name
check_roles t cols [] = some []
check_roles t cols (r ∷ rs) =
    check_column t r.column (column_by_name r.column cols) (check_roles t cols rs)

unfoldable pub mesh_findings_for_table : Table → Option (List Finding)
unfolding check_roles roles_of
mesh_findings_for_table t = check_roles t.ref t.columns (roles_of t)

abbrev pub both : Option (List Finding) → Option (List Finding) → Option (List Finding)
both none b = none
both (some a) none = none
both (some a) (some b) = some (a ++ b)

unfoldable pub mesh_id_allocation_findings : List Table → Option (List Finding)
unfolding mesh_findings_for_table
mesh_id_allocation_findings [] = some []
mesh_id_allocation_findings (t ∷ ts) =
    both (mesh_findings_for_table t) (mesh_id_allocation_findings ts)

-- ===== src/Samples/Preflight.antt =====
-- Checks of a small schema, and the theorems on them applied to it.
use replicare.Base.{
  ◌≡◌, refl, ◌↔◌, ◌+◌, Bool-cases, inl, inr, ◌==◌, true, false, ◌&&◌, ◌||◌, none, some, List, [],
  ◌∷◌, Bytes, bytes_eq, codes, contains, is_nodup, length, ltb, any, arith, sort_by, insert_sorted,
  Listed,
}
use replicare.Engine.{table_ref_eq, Table, Column}
use replicare.Graph.Partition.{components}
use replicare.Graph.Partition.Exact.{IsPartition, components-IsPartition}
use replicare.Preflight.TypeNames.{
  parse_type, to_lower, trim_space, drop_spaces, scan, match_here, find_mods, remove_mods,
  fields_from, join_fields, atoi, numbers, family, int_width, precision_scale,
}
use replicare.Preflight.Compat.{
  widen, incompatible, permits, classify_types, classify_parsed, classify_same_family,
  classify_numeric, classify_cross_family,
}
use replicare.Preflight.Compat.Values.{fraction, lossy, Holds}
use replicare.Preflight.Compat.Sound.{classify_types_sound}
use replicare.Preflight.Cyclic.{
  CyclicFkStrategy, classify_cyclic_fks, any_blocked_cyclic_fk, table_by_ref, cyclic_among,
  on_cycle, reachable, search_from, parents_of, arrows, classify_one, any_child_col_nullable,
  column_by_name,
}
use replicare.Preflight.Cyclic.Chains.{IsCyclic}
use replicare.Preflight.Cyclic.Exact.{classify_cyclic_fks_exact}
use replicare.Preflight.Tables.{table_blocks, compare_table}
use replicare.Preflight.Tables.Blocked.{must_block, compare_table-blocks}
use replicare.Preflight.Findings.{
  Finding, blocked, counts, number_of, counts_exact, warn, info, block,
}
use replicare.Preflight.Report.{build_preflight, replicable_tables, finding}
use replicare.Preflight.Report.Blocked.{build_preflight-blocked}
use replicare.Preflight.MeshIds.{mesh_findings_for_table, classify_int_type, before_paren, int_name}
use replicare.Preflight.MeshIds.Hazards.{
  subjects, key_columns, is_counter, AreTyped, mesh_findings_exact,
}
use replicare.Samples.Graph.{named, refers, shop}

parsed_time :
    parse_type (codes " Timestamp( 3 ) without  time zone")
    ≡ record { base = codes "timestamp without time zone"; mods = 3 ∷ [] }
unfolding parse_type to_lower trim_space drop_spaces find_mods match_here scan numbers atoi
    remove_mods fields_from join_fields
parsed_time = refl

parsed_numeric :
    parse_type (codes "numeric(10,2)") ≡ record { base = codes "numeric"; mods = 10 ∷ 2 ∷ [] }
unfolding parse_type to_lower trim_space drop_spaces find_mods match_here scan numbers atoi
    remove_mods fields_from join_fields
parsed_numeric = refl

int_to_bigint : classify_types (codes "integer") (codes "bigint") ≡ widen
unfolding classify_types classify_parsed parse_type to_lower trim_space drop_spaces find_mods
    match_here scan numbers atoi remove_mods fields_from join_fields family classify_same_family
    int_width
int_to_bigint = refl

uuid_to_date : classify_types (codes "uuid") (codes "date") ≡ incompatible
unfolding classify_types classify_parsed parse_type to_lower trim_space drop_spaces find_mods
    match_here scan numbers atoi remove_mods fields_from join_fields family classify_cross_family
uuid_to_date = refl

wider_numeric : permits (classify_types (codes "numeric(10,2)") (codes "numeric(12,4)")) ≡ true
unfolding permits classify_types classify_parsed parse_type to_lower trim_space drop_spaces
    find_mods match_here scan numbers atoi remove_mods fields_from join_fields family
    classify_same_family classify_numeric precision_scale
wider_numeric = refl

not_lossy : lossy (parse_type (codes "numeric(10,2)")) (parse_type (codes "numeric(12,4)")) ≡ false
unfolding parse_type to_lower trim_space drop_spaces find_mods match_here scan numbers atoi
    remove_mods fields_from join_fields family precision_scale
not_lossy = refl

Holds-digits : Holds (parse_type (codes "numeric(10,2)")) (fraction 8 2)
unfolding parse_type to_lower trim_space drop_spaces find_mods match_here scan numbers atoi
    remove_mods fields_from join_fields family
Holds-digits = omega arith

classify_types_sound_example : Holds (parse_type (codes "numeric(12,4)")) (fraction 8 2)
classify_types_sound_example =
    classify_types_sound (codes "numeric(10,2)") (codes "numeric(12,4)") wider_numeric not_lossy
      (fraction 8 2) Holds-digits

abbrev column : Bytes → Bytes → Column
column n t = record {
  name = n;
  data_type = t;
  nullable = false;
  generated = false;
  identity = true;
  default_sequence = false;
}

abbrev users : Bytes → Table
users t = record {
  ref = named (codes "users");
  columns = column (codes "id") t ∷ [];
  primary_key = some (record { name = codes "pk"; columns = codes "id" ∷ []; is_primary = true });
  unique_keys = [];
  foreign_keys = refers (codes "users") (codes "users") ∷ [];
}

compare_table-blocks_example :
    table_blocks (compare_table (users (codes "integer")) (some (users (codes "uuid"))))
    ≡ must_block (users (codes "integer")) (some (users (codes "uuid")))
compare_table-blocks_example =
    compare_table-blocks (users (codes "integer")) (some (users (codes "uuid")))

build_preflight-blocked_example :
    blocked
      (build_preflight (users (codes "integer") ∷ []) (some (users (codes "bigint") ∷ []))).findings
    ≡ (any_blocked_cyclic_fk
          (classify_cyclic_fks (replicable_tables (users (codes "integer") ∷ [])))
        || any
            (λ t. must_block t (table_by_ref t.ref (users (codes "bigint") ∷ [])))
            (replicable_tables (users (codes "integer") ∷ [])))
build_preflight-blocked_example =
    build_preflight-blocked (users (codes "integer") ∷ []) (some (users (codes "bigint") ∷ []))

abbrev two_findings : List Finding
two_findings =
    finding block (named (codes "users")) (codes "type") (codes "id")
    ∷ finding info (named (codes "users")) (codes "cyclic-fk") (codes "fk")
    ∷ []

counts_exact_example :
    ((counts two_findings).infos ≡ number_of info two_findings)
    × ((counts two_findings).warns ≡ number_of warn two_findings)
    × ((counts two_findings).blocks ≡ number_of block two_findings)
    × ((counts two_findings).infos + (counts two_findings).warns + (counts two_findings).blocks
        ≡ length two_findings)
    × (blocked two_findings ≡ ltb 0 (counts two_findings).blocks)
counts_exact_example = counts_exact two_findings

self_reference_blocks :
    classify_cyclic_fks (users (codes "integer") ∷ [])
    ≡ record {
      fk = refers (codes "users") (codes "users");
      strategy = CyclicFkStrategy.blocked;
      nullable = false;
    }
      ∷ []
unfolding classify_cyclic_fks cyclic_among on_cycle reachable search_from parents_of arrows
    classify_one any_child_col_nullable table_by_ref column_by_name sort_by insert_sorted
self_reference_blocks = refl

classify_cyclic_fks_exact_example :
    Listed
      (record {
        fk = refers (codes "users") (codes "users");
        strategy = CyclicFkStrategy.blocked;
        nullable = false;
      })
      (classify_cyclic_fks (users (codes "integer") ∷ []))
    ↔ IsCyclic (users (codes "integer") ∷ []) (record {
      fk = refers (codes "users") (codes "users");
      strategy = CyclicFkStrategy.blocked;
      nullable = false;
    })
classify_cyclic_fks_exact_example =
    classify_cyclic_fks_exact (users (codes "integer") ∷ []) (record {
      fk = refers (codes "users") (codes "users");
      strategy = CyclicFkStrategy.blocked;
      nullable = false;
    })

bigint_is_typed : ¬ (classify_int_type (codes "bigint") ≡ none)
unfolding classify_int_type before_paren fields_from trim_space drop_spaces to_lower int_name
bigint_is_typed h = cc

only_id :
    (n : Bytes) (c : Column)
    → column_by_name n (users (codes "bigint")).columns ≡ some c
    → column (codes "id") (codes "bigint") ≡ c
unfolding column_by_name
only_id n c e = elim (Bool-cases (codes "id" == n)) [
  | inl h ↦ cc (rw h at e)
  | inr h ↦ cc (rw h at e)
]

typed : AreTyped (users (codes "bigint")).columns
typed n c e h = bigint_is_typed (rw (← only_id n c e) at h)

mesh_findings_exact_example :
    (fs : List Finding) × (mesh_findings_for_table (users (codes "bigint")) ≡ some fs)
    × ((x : Bytes)
        → contains x (subjects fs) ≡ (
            contains x (key_columns (users (codes "bigint")))
            && is_counter (users (codes "bigint")).columns x))
    × (is_nodup (subjects fs) ≡ true)
mesh_findings_exact_example = mesh_findings_exact (users (codes "bigint")) typed

components-IsPartition_example : IsPartition shop (components shop)
components-IsPartition_example = components-IsPartition shop

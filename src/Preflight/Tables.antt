-- ===== src/Preflight/Tables.antt =====
-- internal/engine/postgres/typecompat.go: `compareTable`, one table's columns at the source and at
-- the target.
pub mod Blocked
use replicare.Base.{
  ℕ, Bool, true, false, not, ◌&&◌, ◌||◌, Option, none, some, List, [], ◌∷◌, Bytes, bytes_eq,
  bytes_lt, length, ltb, contains, any, ◌==◌, if◌then◌else◌, sort_by,
}
use replicare.Engine.{TableRef, Table, Column}
use replicare.Preflight.Cyclic.{column_by_name}
use replicare.Preflight.Compat.{CompatLevel, blocks, classify_types}

pub record ColumnCompat : Type 0 where
  pub column : Bytes
  pub source_type : Bytes
  pub target_type : Bytes
  pub level : CompatLevel

pub record TableCompat : Type 0 where
  pub table : TableRef
  pub target_exists : Bool
  pub columns : List ColumnCompat
  pub missing_in_target : List Bytes
  pub extra_not_null : List Bytes

-- `TableCompat.Blocks`.
unfoldable pub table_blocks : TableCompat → Bool
unfolding blocks
table_blocks tc =
    not tc.target_exists
    || (ltb 0 (length tc.missing_in_target) || any (λ c. blocks c.level) tc.columns)

-- The loop over the source's columns: the pairs, and the columns that the target lacks.
abbrev pub Matched : Type 0
Matched = List ColumnCompat × List Bytes

abbrev pub with_column : Column → Option Column → Matched → Matched
with_column sc none (pairs, missing) = (pairs, sc.name ∷ missing)
with_column sc (some tc) (pairs, missing) = (
  record {
    column = sc.name;
    source_type = sc.data_type;
    target_type = tc.data_type;
    level = classify_types sc.data_type tc.data_type;
  }
      ∷ pairs,
  missing,
)

unfoldable pub match_columns : List Column → List Column → Matched
unfolding column_by_name
match_columns [] target = ([], [])
match_columns (sc ∷ scs) target =
    let rest = match_columns scs target in
    if sc.generated then rest else with_column sc (column_by_name sc.name target) rest

unfoldable pub source_names : List Column → List Bytes
source_names [] = []
source_names (c ∷ cs) = let rest = source_names cs in if c.generated then rest else c.name ∷ rest

-- Columns of the target that must have a value and get none.
unfoldable pub extra_columns : List Bytes → List Column → List Bytes
extra_columns names [] = []
extra_columns names (c ∷ cs) =
    let rest = extra_columns names cs in
    if not (contains c.name names) && (not c.nullable && not c.generated)
    then c.name ∷ rest
    else rest

abbrev pub column_before : ColumnCompat → ColumnCompat → Bool
column_before a b = bytes_lt a.column b.column

unfoldable pub compare_table : Table → Option Table → TableCompat
unfolding match_columns source_names extra_columns sort_by
compare_table src none = record {
  table = src.ref;
  target_exists = false;
  columns = [];
  missing_in_target = [];
  extra_not_null = [];
}
compare_table src (some tgt) =
    let (pairs, missing) = match_columns src.columns tgt.columns in
    record {
      table = src.ref;
      target_exists = true;
      columns = sort_by column_before pairs;
      missing_in_target = sort_by bytes_lt missing;
      extra_not_null = sort_by bytes_lt (extra_columns (source_names src.columns) tgt.columns);
    }

-- ===== src/Preflight/Tables/Blocked.antt =====
-- Which tables block the start: `TableCompat.Blocks` after `compareTable` of
-- internal/engine/postgres/typecompat.go.
use replicare.Base.{
  ◌≡◌, refl, Bool, true, not, ◌&&◌, ◌||◌, Option, none, some, List, [], ◌∷◌, Bytes, bytes_eq,
  bytes_lt, length, ltb, any, any-sort_by, arith, Bool-cases, Option-cases, inl, inr,
}
use replicare.Engine.{Table, Column}
use replicare.Preflight.Cyclic.{column_by_name}
use replicare.Preflight.Compat.{blocks, classify_types}
use replicare.Preflight.Tables.{table_blocks, match_columns, column_before, compare_table}

abbrev cannot_store : Column → Option Column → Bool
cannot_store sc none = true
cannot_store sc (some tc) = blocks (classify_types sc.data_type tc.data_type)

-- A column that is transported and that the target lacks or cannot store.
abbrev pub is_blocking : List Column → Column → Bool
is_blocking target sc = not sc.generated && cannot_store sc (column_by_name sc.name target)

abbrev pub must_block : Table → Option Table → Bool
must_block src none = true
must_block src (some tgt) = any (is_blocking tgt.columns) src.columns

is_some_name : Bytes → Bool
is_some_name n = true

nonempty-any : (xs : List Bytes) → ltb 0 (length xs) ≡ any is_some_name xs
unfolding is_some_name
nonempty-any [] = ground arith
nonempty-any (x ∷ xs) = ground arith

match_columns-any :
    (scs target : List Column)
    → (any is_some_name (match_columns scs target).1
        || any (λ c. blocks c.level) (match_columns scs target).0)
      ≡ any (is_blocking target) scs
unfolding match_columns is_some_name
match_columns-any [] target = refl
match_columns-any (sc ∷ scs) target = elim (Bool-cases sc.generated) [
  | inl g ↦ rw g (match_columns-any scs target)
  | inr g ↦ elim (Option-cases (column_by_name sc.name target)) [
    | inl n ↦ rw (g, n) refl
    | inr (tc, e) ↦ rw (g, e) (ground (arith, match_columns-any scs target))
  ]
]

-- A table blocks the start exactly if the target has no such table, or lacks a column that is
-- transported, or has it with a type that is incompatible.
pub compare_table-blocks :
    (src : Table) (tgt : Option Table) → table_blocks (compare_table src tgt) ≡ must_block src tgt
unfolding compare_table table_blocks
compare_table-blocks src none = refl
compare_table-blocks src (some tgt) =
    rw (nonempty-any, any-sort_by bytes_lt, any-sort_by column_before)
      (match_columns-any src.columns tgt.columns)

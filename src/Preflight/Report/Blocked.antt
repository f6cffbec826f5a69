-- ===== src/Preflight/Report/Blocked.antt =====
-- When a sync may start: `Preflight.Blocked` of internal/engine/postgres/preflight.go.
use replicare.Base.{
  ◌≡◌, refl, ◌∙◌, true, false, ◌||◌, Option, none, some, List, [], ◌∷◌, map, Bytes, codes, length,
  ltb, any, any-append, any-sort_by, arith, Bool-cases, inl, inr,
}
use replicare.Engine.{TableRef, Table, Component}
use replicare.Graph.{dangling_edges, detect_giant}
use replicare.Graph.Partition.{components}
use replicare.Preflight.Findings.{warn, block, Finding, finding_before, is_block, blocked}
use replicare.Preflight.Compat.{CompatLevel, blocks}
use replicare.Preflight.Tables.{ColumnCompat, TableCompat, table_blocks, compare_table}
use replicare.Preflight.Tables.Blocked.{must_block, compare_table-blocks}
use replicare.Preflight.Cyclic.{
  CyclicFk, is_blocked, classify_cyclic_fks, any_blocked_cyclic_fk, table_by_ref,
}
use replicare.Preflight.Report.{
  finding, skip_finding, giant_findings, dangling_finding, cyclic_finding, column_findings,
  columns_findings, compat_findings, tables_of, table_preflights, all_compat_findings,
  replicable_tables, skipped_tables, build_preflight,
}

module _ {A : Type 0} (f : A → Finding) where
  never : ((x : A) → is_block (f x) ≡ false) → (xs : List A) → any is_block (map f xs) ≡ false
  never h [] = refl
  never h (x ∷ xs) = ground (arith, h x, never h xs)

  always :
      ((x : A) → is_block (f x) ≡ true)
      → (xs : List A) → any is_block (map f xs) ≡ ltb 0 (length xs)
  always h [] = ground arith
  always h (x ∷ xs) = ground (arith, h x)

no_giant : (o : Option Component) → any is_block (giant_findings o) ≡ false
no_giant none = refl
no_giant (some c) = refl

cyclic-any : (cs : List CyclicFk) → any is_block (map cyclic_finding cs) ≡ any is_blocked cs
unfolding cyclic_finding
cyclic-any [] = refl
cyclic-any (c ∷ cs) = elim (Bool-cases (is_blocked c)) [
  | inl h ↦ rw h refl
  | inr h ↦ rw h (cyclic-any cs)
]

column-any :
    (t : TableRef) (l : CompatLevel) (n : Bytes) → any is_block (column_findings t l n) ≡ blocks l
unfolding blocks
column-any t CompatLevel.incompatible n = refl
column-any t CompatLevel.risky n = refl
column-any t CompatLevel.widen n = refl
column-any t CompatLevel.identical n = refl

columns-any :
    (t : TableRef) (cs : List ColumnCompat)
    → any is_block (columns_findings t cs) ≡ any (λ c. blocks c.level) cs
unfolding columns_findings
columns-any t [] = refl
columns-any t (c ∷ cs) =
    any-append is_block (column_findings t c.level c.column) (columns_findings t cs)
    ∙ ground (arith, column-any t c.level c.column, columns-any t cs)

compat-any : (t : TableRef) (c : TableCompat) → any is_block (compat_findings t c) ≡ table_blocks c
unfolding compat_findings table_blocks
compat-any t c = elim (Bool-cases c.target_exists) [
  | inr n ↦ rw n refl
  | inl e ↦
      rw (e, any-append, any-append)
        (ground (
          arith,
          always (finding block t (codes "missing-column")) (λ n. refl) c.missing_in_target,
          never (finding warn t (codes "extra-not-null")) (λ n. refl) c.extra_not_null,
          columns-any t c.columns,
        ))
]

tables-any :
    (target ts : List Table)
    → any is_block (all_compat_findings (table_preflights target ts))
      ≡ any (λ t. must_block t (table_by_ref t.ref target)) ts
unfolding all_compat_findings table_preflights
tables-any target [] = refl
tables-any target (t ∷ ts) =
    let c = compare_table t (table_by_ref t.ref target) in
    any-append is_block (compat_findings t.ref c) (all_compat_findings (table_preflights target ts))
    ∙ ground (
      arith,
      compat-any t.ref c,
      compare_table-blocks t (table_by_ref t.ref target),
      tables-any target ts,
    )

pub build_preflight-blocked :
    (source : List Table) (target : Option (List Table))
    → blocked (build_preflight source target).findings ≡ (
        any_blocked_cyclic_fk (classify_cyclic_fks (replicable_tables source))
        || any
            (λ t. must_block t (table_by_ref t.ref (tables_of target)))
            (replicable_tables source))
unfolding build_preflight blocked any_blocked_cyclic_fk
build_preflight-blocked source target =
    let rep = replicable_tables source in
    let cyc = classify_cyclic_fks rep in
    rw (any-sort_by finding_before, any-append, any-append, any-append, any-append)
      (ground (
        arith,
        never skip_finding (λ s. refl) (skipped_tables source),
        no_giant (detect_giant (components rep) (length rep)),
        never dangling_finding (λ s. refl) (dangling_edges rep),
        cyclic-any cyc,
        tables-any (tables_of target) rep,
      ))

-- ===== src/Preflight/Report.antt =====
-- internal/engine/postgres/preflight.go: `buildPreflight` and what it projects to the report. The
-- partition into components is that of internal/fkgraph/fkgraph.go, of which fkcomponents.go has a
-- copy; the findings ask only for the number of tables of a component.
pub mod Blocked
use replicare.Base.{
  ℕ, Bool, true, false, ◌&&◌, Option, none, some, List, [], ◌∷◌, ◌++◌, map, Bytes, bytes_eq, codes,
  length, any, if◌then◌else◌, sort_by,
}
use replicare.Engine.{TableRef, Table, Key, ForeignKey, Component, has_usable_key}
use replicare.Graph.{dangling_edges, detect_giant}
use replicare.Graph.Partition.{components}
use replicare.Preflight.Findings.{
  Severity, info, warn, block, Finding, SkippedTable, finding_before,
}
use replicare.Preflight.Compat.{CompatLevel}
use replicare.Preflight.Tables.{ColumnCompat, TableCompat, compare_table}
use replicare.Preflight.Cyclic.{
  CyclicFk, CyclicFkStrategy, is_blocked, classify_cyclic_fks, table_by_ref,
}

pub record TablePreflight : Type 0 where
  pub table : TableRef
  pub identity : Option Key
  pub compat : TableCompat

pub record Preflight : Type 0 where
  pub replicable : List TablePreflight
  pub skipped : List SkippedTable
  pub giant : Option Component
  pub dangling : List ForeignKey
  pub cyclic_fks : List CyclicFk
  pub findings : List Finding

abbrev pub finding : Severity → TableRef → Bytes → Bytes → Finding
finding s t c n = record { severity = s; table = t; category = c; subject = n }

unfoldable pub replicable_tables : List Table → List Table
unfolding has_usable_key
replicable_tables [] = []
replicable_tables (t ∷ ts) =
    let rest = replicable_tables ts in if has_usable_key t then t ∷ rest else rest

unfoldable pub skipped_tables : List Table → List SkippedTable
unfolding has_usable_key
skipped_tables [] = []
skipped_tables (t ∷ ts) =
    let rest = skipped_tables ts in
    if has_usable_key t
    then rest
    else record { table = t.ref; reason = codes "no primary key or usable unique key" } ∷ rest

abbrev pub skip_finding : SkippedTable → Finding
skip_finding s = finding warn s.table (codes "no-key") []

abbrev pub giant_findings : Option Component → List Finding
giant_findings none = []
giant_findings (some c) =
    finding warn (record { schema = []; name = [] }) (codes "giant-component") [] ∷ []

abbrev pub dangling_finding : ForeignKey → Finding
dangling_finding fk = finding warn fk.child (codes "dangling-fk") fk.name

unfoldable pub cyclic_finding : CyclicFk → Finding
unfolding is_blocked
cyclic_finding c =
    finding (if is_blocked c then block else info) c.fk.child (codes "cyclic-fk") c.fk.name

abbrev pub column_findings : TableRef → CompatLevel → Bytes → List Finding
column_findings t CompatLevel.incompatible n = finding block t (codes "type") n ∷ []
column_findings t CompatLevel.risky n = finding warn t (codes "type") n ∷ []
column_findings t _ n = []

unfoldable pub columns_findings : TableRef → List ColumnCompat → List Finding
columns_findings t [] = []
columns_findings t (c ∷ cs) = column_findings t c.level c.column ++ columns_findings t cs

-- `addCompatFindings`.
unfoldable pub compat_findings : TableRef → TableCompat → List Finding
unfolding columns_findings
compat_findings t c =
    if c.target_exists
    then map (finding block t (codes "missing-column")) c.missing_in_target
      ++ (columns_findings t c.columns
          ++ map (finding warn t (codes "extra-not-null")) c.extra_not_null)
    else finding block t (codes "missing-table") [] ∷ []

-- `replicationKey`: the primary key, else the first unique key.
abbrev first_key : List Key → Option Key
first_key [] = none
first_key (k ∷ _) = some k

unfoldable pub replication_key : Table → Option Key
replication_key t = elim t.primary_key [ some k ↦ some k | none ↦ first_key t.unique_keys ]

abbrev pub tables_of : Option (List Table) → List Table
tables_of none = []
tables_of (some ts) = ts

unfoldable pub table_preflights : List Table → List Table → List TablePreflight
unfolding compare_table table_by_ref replication_key
table_preflights target [] = []
table_preflights target (t ∷ ts) =
    record {
      table = t.ref;
      identity = replication_key t;
      compat = compare_table t (table_by_ref t.ref target);
    }
    ∷ table_preflights target ts

unfoldable pub all_compat_findings : List TablePreflight → List Finding
unfolding compat_findings
all_compat_findings [] = []
all_compat_findings (p ∷ ps) = compat_findings p.table p.compat ++ all_compat_findings ps

unfoldable pub build_preflight : List Table → Option (List Table) → Preflight
unfolding replicable_tables skipped_tables components detect_giant dangling_edges cyclic_finding
    classify_cyclic_fks table_preflights all_compat_findings sort_by finding_before
build_preflight source target =
    let replicable = replicable_tables source in
    let skipped = skipped_tables source in
    let giant = detect_giant (components replicable) (length replicable) in
    let dangling = dangling_edges replicable in
    let cyclic = classify_cyclic_fks replicable in
    let tables = table_preflights (tables_of target) replicable in
    record {
      replicable = tables;
      skipped = skipped;
      giant = giant;
      dangling = dangling;
      cyclic_fks = cyclic;
      findings = sort_by finding_before (
          map skip_finding skipped
          ++ (giant_findings giant
              ++ (map dangling_finding dangling
                  ++ (map cyclic_finding cyclic ++ all_compat_findings tables))));
    }

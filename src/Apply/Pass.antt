-- ===== src/Apply/Pass.antt =====
-- internal/apply/apply.go and component.go: one table's transactions, gathering the dirty work, and
-- the drain of an acyclic component.
use replicare.Base.{
  ℕ, ◌+◌, true, false, Option, none, some, List, [], ◌∷◌, Bytes, ◌==◌, length, if◌then◌else◌,
}
use replicare.Engine.{
  TableRef, table_ref_eq, Table, Column, KeyValues, TargetId, DirtyKey, Error, other,
  is_transient_constraint, Result, ok, err,
}
use replicare.Postgres.World.{
  World, Rows, Exec, ◌>>=◌, ◌>>◌, lift, attempt, read_dirty, introspect, reread, confirm,
  begin_apply, stage_upsert, delete_absent, commit_apply, rollback,
}
use replicare.Apply.Coalesce.{coalesce}

-- `transportColumns`: the columns in source order, generated ones left out.
unfoldable pub transported : List Column → List Bytes
transported [] = []
transported (c ∷ cs) = let rest = transported cs in if c.generated then rest else c.name ∷ rest

unfoldable pub columns_of : TableRef → List Table → Result (List Bytes)
unfolding transported
columns_of ref [] = err (other 2)
columns_of ref (t ∷ ts) = if t.ref == ref then ok (transported t.columns) else columns_of ref ts

unfoldable pub transport_columns : TableRef → Exec (List Bytes)
unfolding columns_of ◌>>=◌ lift
transport_columns ref = do tables ← introspect; lift (columns_of ref tables)

-- A failed re-read is reported before the failure that it causes at the other end of the pipe.
unfoldable pub both_ends : Result Rows → Result (Unit {0}) → Result (Unit {0})
both_ends (err e) staged = err e
both_ends (ok rows) staged = staged

unfoldable pub pipe_stage_upsert : TableRef → List KeyValues → Exec (Unit {0})
unfolding ◌>>=◌ lift attempt both_ends
pipe_stage_upsert ref keys = do
  rows ← attempt (reread ref keys)
  staged ← attempt (stage_upsert ref rows)
  lift (both_ends rows staged)

-- The deferred rollback runs unless the commit succeeded; its own error is dropped.
unfoldable pub unless_committed : Result (Unit {0}) → Exec (Unit {0})
unfolding ◌>>=◌ lift attempt
unless_committed (ok _) = lift (ok tt)
unless_committed (err e) = do attempt rollback; lift (err e)

unfoldable pub in_transaction : Exec (Unit {0}) → Exec (Unit {0})
unfolding ◌>>=◌ attempt unless_committed
in_transaction body = do begin_apply; done ← attempt (do body; commit_apply); unless_committed done

pub record TableWork : Type 0 where
  pub ref : TableRef
  pub distinct : List KeyValues
  pub ids : List ℕ
  pub cols : List Bytes

unfoldable pub per_table_upsert : TableWork → Exec (Unit {0})
unfolding in_transaction pipe_stage_upsert
per_table_upsert w = in_transaction (pipe_stage_upsert w.ref w.distinct)

unfoldable pub per_table_delete : TableWork → Exec (Unit {0})
unfolding in_transaction pipe_stage_upsert ◌>>=◌
per_table_delete w =
    in_transaction (do pipe_stage_upsert w.ref w.distinct; delete_absent w.ref w.distinct)

abbrev pub Gathered : Type 0
Gathered = List TableWork × ℕ

-- One table's part of the loop; a table with an empty queue is dropped.
unfoldable pub gather_table : TableRef → List DirtyKey → Exec Gathered → Exec Gathered
unfolding ◌>>=◌ lift transport_columns coalesce
gather_table ref [] rest = rest
gather_table ref (d ∷ ds) rest = do
  cols ← transport_columns ref
  more ← rest
  let (distinct, ids) = coalesce (d ∷ ds)
  lift (
      ok (
        record { ref = ref; distinct = distinct; ids = ids; cols = cols } ∷ more.0,
        length (d ∷ ds) + more.1,
      ))

unfoldable pub gather_work : List TableRef → TargetId → ℕ → Exec Gathered
unfolding ◌>>=◌ lift gather_table
gather_work [] target batch = lift (ok ([], 0))
gather_work (ref ∷ refs) target batch = do
  dirty ← read_dirty ref target batch
  gather_table ref dirty (gather_work refs target batch)

-- What a drain returns: the deltas it consumed, and an error beside them.
pub record Outcome : Type 0 where
  pub consumed : ℕ
  pub failure : Option Error

abbrev pub Drained : Type 0
Drained = World → Outcome × World

unfoldable pub halt : ℕ → Option Error → Drained
halt total e w = (record { consumed = total; failure = e }, w)

-- A transient failure leaves the table for the next pass; any other one halts.
unfoldable pub or_skip : Result (Unit {0}) → Drained → (Error → Drained) → ℕ → Drained
unfolding halt
or_skip (ok _) next skip total w = next w
or_skip (err e) next skip total w = elim (is_transient_constraint e) [
  | true ↦ skip e w
  | false ↦ halt total (some e) w
]

-- Phase 1, parents before children: what landed, in reverse, is handed to phase 2.
unfoldable pub upsert_phase :
    List TableWork
    → List TableWork
    → Option Error
    → (List TableWork → Option Error → Drained)
    → Drained
unfolding or_skip per_table_upsert
upsert_phase [] landed transient next w = next landed transient w
upsert_phase (t ∷ ts) landed transient next w =
    let (r, w') = per_table_upsert t w in
    or_skip r (upsert_phase ts (t ∷ landed) transient next)
      (λ e. upsert_phase ts landed (some e) next) 0 w'

-- A table is confirmed once both its phases are committed.
unfoldable pub or_halt : Result (Unit {0}) → Drained → ℕ → Drained
unfolding halt
or_halt (ok _) next total w = next w
or_halt (err e) next total w = halt total (some e) w

unfoldable pub confirm_table : TargetId → TableWork → Drained → ℕ → Drained
unfolding or_halt
confirm_table target t next total w =
    let (r, w') = confirm t.ref target t.ids w in or_halt r next total w'

-- Phase 2, children before parents.
unfoldable pub delete_phase : TargetId → List TableWork → ℕ → Option Error → Drained
unfolding or_skip confirm_table per_table_delete
delete_phase target [] total transient w = halt total transient w
delete_phase target (t ∷ ts) total transient w =
    let (r, w') = per_table_delete t w in
    or_skip r
      (confirm_table target t (delete_phase target ts (total + length t.ids) transient) total)
      (λ e. delete_phase target ts total (some e)) total w'

unfoldable pub drain_acyclic_seq : List TableWork → TargetId → Drained
unfolding upsert_phase delete_phase
drain_acyclic_seq work target =
    upsert_phase work [] none (λ landed transient. delete_phase target landed 0 transient)

abbrev pub drain_gathered : Result Gathered → TargetId → Drained
drain_gathered (err e) target w = halt 0 (some e) w
drain_gathered (ok ([], total)) target w = halt 0 none w
drain_gathered (ok (t ∷ ts, total)) target w = drain_acyclic_seq (t ∷ ts) target w

unfoldable pub drain_acyclic : List TableRef → TargetId → ℕ → Drained
unfolding drain_acyclic_seq gather_work halt
drain_acyclic tables target batch w =
    let (r, w') = gather_work tables target batch w in drain_gathered r target w'

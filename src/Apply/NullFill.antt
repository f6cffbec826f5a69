-- ===== src/Apply/NullFill.antt =====
-- internal/apply/component.go: the drain of a component whose foreign keys close a cycle, table by
-- table, with the cyclic columns NULL until every row is there (`drainCyclicNullFill` on one
-- connection), over the calls of internal/engine/postgres/apply_tx.go for such a transaction.
-- `CyclicColumns` is what the target's server does with a row: an INSERT ... ON CONFLICT that leaves
-- columns out, and an UPDATE that sets them. `StageUpsert` in a transaction that began with cyclic
-- columns is the call `stage_omitting`.
pub mod Claims
pub mod Standing
pub mod Outside
pub mod Own
pub mod Staged
pub mod Finish
pub mod Steps
pub mod Phases
pub mod Apart
pub mod Batch
pub mod Around
pub mod Turns
pub mod Whole
pub mod Gather
pub mod Safety
use replicare.Base.{
  ℕ, ◌+◌, ◌≡◌, Bool, true, false, ◌&&◌, Option, none, some, List, [], ◌∷◌, Bytes, contains, update,
  length, if◌then◌else◌,
}
use replicare.Engine.{TableRef, table_ref_eq, KeyValues, TargetId, Error, other, Result, ok, err}
use replicare.Postgres.World.{
  World, Rows, Tx, Exec, ◌>>=◌, ◌>>◌, lift, attempt, call, find, reread, confirm, delete_absent,
}
use replicare.Apply.Pass.{
  both_ends, in_transaction, TableWork, Gathered, gather_work, Drained, halt, or_skip, or_halt,
}

pub record CyclicColumns : Type 0 where
  -- The nullable cyclic columns of a table.
  pub cols : TableRef → List Bytes
  -- A staged row upserted without them over the row that is there.
  pub omitting : TableRef → Bytes → Option Bytes → Bytes
  -- The stored row with them set from the staged row.
  pub filled_from : TableRef → Bytes → Bytes → Bytes

-- Nothing is omitted where there are no such columns, and filling gives the staged row.
pub record AreColumns (n : CyclicColumns) : Type 0 where
  pub whole : (t : TableRef) (r : Bytes) (o : Option Bytes) → n.cols t ≡ [] → n.omitting t r o ≡ r
  pub restored :
      (t : TableRef) (r : Bytes) (o : Option Bytes) → n.filled_from t r (n.omitting t r o) ≡ r

abbrev pub is_empty : List Bytes → Bool
is_empty [] = true
is_empty (_ ∷ _) = false

abbrev pub when : Bool → Exec (Unit {0}) → Exec (Unit {0})
when true op = op
when false op = lift (ok tt)

-- A table with what it has completed.
pub record Marked : Type 0 where
  pub work : TableWork
  pub upserted : Bool
  pub deleted : Bool
  pub filled : Bool

abbrev pub Next : Type 0
Next = List Marked → Option Error → Drained

abbrev pub marked : TableWork → Bool → Marked
marked t b = record { work = t; upserted = b; deleted = false; filled = false }

abbrev pub reverse_marked : List Marked → List Marked → List Marked
reverse_marked [] acc = acc
reverse_marked (m ∷ ms) acc = reverse_marked ms (m ∷ acc)

module _ (n : CyclicColumns) where
  abbrev pub omit_into : TableRef → Option Bytes → Option Bytes → Option Bytes
  omit_into t none d = d
  omit_into t (some r) d = some (n.omitting t r d)

  abbrev pub stage_omitting_in : TableRef → Rows → Option Tx → Exec (Unit {0})
  stage_omitting_in t rows none w = (err (other 0), w)
  stage_omitting_in t rows (some x) w = (
    ok tt,
    record w {
      tx = some (record {
        view = update x.view t (λ k. omit_into t (find k rows) (x.view t k));
        staged = update x.staged t (some rows);
      });
    },
  )

  abbrev pub stage_omitting_on : TableRef → Result Rows → Exec (Unit {0})
  stage_omitting_on t (err e) w = (err e, w)
  stage_omitting_on t (ok rows) w = stage_omitting_in t rows w.tx w

  unfoldable pub stage_omitting : TableRef → Result Rows → Exec (Unit {0})
  unfolding call
  stage_omitting t stream = call (stage_omitting_on t stream)

  abbrev pub fill_row : TableRef → Option Bytes → Option Bytes → Option Bytes
  fill_row t none d = d
  fill_row t (some r) none = none
  fill_row t (some r) (some v) = some (n.filled_from t r v)

  -- Every staged table that has cyclic columns.
  abbrev pub fill_table :
      TableRef → Option Rows → (KeyValues → Option Bytes) → KeyValues → Option Bytes
  fill_table t none table k = table k
  fill_table t (some rows) table k =
      if is_empty (n.cols t) then table k else fill_row t (find k rows) (table k)

  abbrev pub fill_in : Option Tx → Exec (Unit {0})
  fill_in none w = (err (other 0), w)
  fill_in (some x) w = (
    ok tt,
    record w { tx = some (record x { view = λ t. fill_table t (x.staged t) (x.view t) }) },
  )

  abbrev pub fill_on : Exec (Unit {0})
  fill_on w = fill_in w.tx w

  unfoldable pub fill_cyclic : Exec (Unit {0})
  unfolding call
  fill_cyclic = call fill_on

  unfoldable pub pipe_stage_omitting : TableRef → List KeyValues → Exec (Unit {0})
  unfolding ◌>>=◌ lift attempt both_ends stage_omitting
  pipe_stage_omitting ref keys = do
    rows ← attempt (reread ref keys)
    staged ← attempt (stage_omitting ref rows)
    lift (both_ends rows staged)

  -- One phase of one table, `del` and `fill` saying which.
  unfoldable pub per_table_apply_cyclic : TableWork → Bool → Bool → Exec (Unit {0})
  unfolding in_transaction pipe_stage_omitting fill_cyclic ◌>>=◌ lift
  per_table_apply_cyclic w del fill = in_transaction (do
    pipe_stage_omitting w.ref w.distinct
    when fill fill_cyclic
    when del (delete_absent w.ref w.distinct))

  -- Phase 1, parents before children. Each phase hands on the tables in reverse.
  unfoldable pub null_phase : List TableWork → List Marked → Option Error → Next → Drained
  unfolding or_skip per_table_apply_cyclic
  null_phase [] acc transient next w = next acc transient w
  null_phase (t ∷ ts) acc transient next w =
      let (r, w') = per_table_apply_cyclic t false false w in
      or_skip r (null_phase ts (marked t true ∷ acc) transient next)
        (λ e. null_phase ts (marked t false ∷ acc) (some e) next) 0 w'

  -- Phase 2, children before parents.
  unfoldable pub absent_phase : List Marked → List Marked → Option Error → Next → Drained
  unfolding or_skip per_table_apply_cyclic
  absent_phase [] acc transient next w = next acc transient w
  absent_phase (m ∷ ms) acc transient next w =
      let skipped = absent_phase ms (m ∷ acc) transient next in
      let (r, w') = per_table_apply_cyclic m.work true false w in
      let run =
        or_skip r (absent_phase ms (record m { deleted = true } ∷ acc) transient next)
          (λ e. absent_phase ms (m ∷ acc) (some e) next) 0 w' in
      if m.upserted then run else skipped w

  -- Phase 3, parents before children.
  unfoldable pub fill_phase : List Marked → List Marked → Option Error → Next → Drained
  unfolding or_skip per_table_apply_cyclic
  fill_phase [] acc transient next w = next acc transient w
  fill_phase (m ∷ ms) acc transient next w =
      let nothing = fill_phase ms (record m { filled = true } ∷ acc) transient next in
      let skipped = fill_phase ms (m ∷ acc) transient next in
      let (r, w') = per_table_apply_cyclic m.work false true w in
      let run =
        or_skip r (fill_phase ms (record m { filled = true } ∷ acc) transient next)
          (λ e. fill_phase ms (m ∷ acc) (some e) next) 0 w' in
      if is_empty (n.cols m.work.ref)
      then nothing w
      else if m.upserted && m.deleted
      then run
      else skipped w

  -- The tables that completed every phase are confirmed.
  unfoldable pub confirm_phase : TargetId → List Marked → ℕ → Option Error → Drained
  unfolding or_halt halt
  confirm_phase target [] total transient w = halt total transient w
  confirm_phase target (m ∷ ms) total transient w =
      let skipped = confirm_phase target ms total transient in
      let (r, w') = confirm m.work.ref target m.work.ids w in
      let run =
        or_halt r (confirm_phase target ms (total + length m.work.ids) transient) total w' in
      if m.upserted && (m.deleted && m.filled) then run else skipped w

  unfoldable pub drain_cyclic_null_fill_seq : List TableWork → TargetId → Drained
  unfolding null_phase absent_phase fill_phase confirm_phase
  drain_cyclic_null_fill_seq work target = null_phase work [] none λ upserted e.
      absent_phase upserted [] e λ deleted e'.
        fill_phase deleted [] e' λ done e''. confirm_phase target (reverse_marked done []) 0 e''

  abbrev pub null_fill_gathered : Result Gathered → TargetId → Drained
  null_fill_gathered (err e) target w = halt 0 (some e) w
  null_fill_gathered (ok ([], total)) target w = halt 0 none w
  null_fill_gathered (ok (t ∷ ts, total)) target w = drain_cyclic_null_fill_seq (t ∷ ts) target w

  unfoldable pub drain_cyclic_null_fill : List TableRef → TargetId → ℕ → Drained
  unfolding gather_work halt drain_cyclic_null_fill_seq
  drain_cyclic_null_fill tables target batch w =
      let (r, w') = gather_work tables target batch w in null_fill_gathered r target w'

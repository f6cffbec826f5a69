-- ===== src/Apply/Component.antt =====
-- internal/apply/component.go, `DrainComponent`: the choice between the drain of an acyclic component,
-- the NULL-then-fill drain, and one transaction over all tables with deferred constraints, on one
-- connection.
pub mod Apart
pub mod Atomic
pub mod Idle
pub mod Safety
use replicare.Base.{
  ℕ, Bool, true, false, not, ◌||◌, none, some, List, [], ◌∷◌, Bytes, if◌then◌else◌,
}
use replicare.Engine.{TableRef, TargetId, Result, ok, err}
use replicare.Postgres.World.{World, Exec, ◌>>=◌, ◌>>◌, lift, call, confirm, delete_absent}
use replicare.Apply.Pass.{
  in_transaction, TableWork, Gathered, gather_work, Drained, halt, or_halt, drain_acyclic,
}
use replicare.Apply.NullFill.{CyclicColumns, is_empty, pipe_stage_omitting, drain_cyclic_null_fill}

abbrev pub has_cyclic : CyclicColumns → List TableRef → Bool
has_cyclic n [] = false
has_cyclic n (t ∷ ts) = not (is_empty (n.cols t)) || has_cyclic n ts

-- `CyclicCols` of the sink, of which the drain asks whether it is empty. The columns are those that the
-- target's schema gives, for any schema; Preflight.Cyclic models their computation.
abbrev pub cyclic_on : CyclicColumns → List TableRef → Exec Bool
cyclic_on n tables w = (ok (has_cyclic n tables), w)

unfoldable pub cyclic_cols : CyclicColumns → List TableRef → Exec Bool
unfolding call
cyclic_cols n tables = call (cyclic_on n tables)

-- Parents before children.
unfoldable pub stage_all : CyclicColumns → List TableWork → Exec (Unit {0})
unfolding ◌>>=◌ lift pipe_stage_omitting
stage_all n [] = lift (ok tt)
stage_all n (w ∷ ws) = pipe_stage_omitting n w.ref w.distinct >> stage_all n ws

-- Children before parents.
unfoldable pub delete_all : List TableWork → Exec (Unit {0})
unfolding ◌>>=◌ lift
delete_all [] = lift (ok tt)
delete_all (w ∷ ws) = delete_all ws >> delete_absent w.ref w.distinct

-- An error here counts every delta of the pass.
unfoldable pub confirm_all : TargetId → List TableWork → ℕ → Drained
unfolding or_halt halt
confirm_all target [] total w = halt total none w
confirm_all target (t ∷ ts) total w =
    let (r, w') = confirm t.ref target t.ids w in or_halt r (confirm_all target ts total) total w'

unfoldable pub drain_atomic_work : CyclicColumns → List TableWork → ℕ → TargetId → Drained
unfolding in_transaction stage_all delete_all ◌>>=◌ or_halt confirm_all
drain_atomic_work n work total target w =
    let (r, w') = in_transaction (stage_all n work >> delete_all work) w in
    or_halt r (confirm_all target work total) 0 w'

abbrev pub atomic_gathered : CyclicColumns → Result Gathered → TargetId → Drained
atomic_gathered n (err e) target w = halt 0 (some e) w
atomic_gathered n (ok ([], total)) target w = halt 0 none w
atomic_gathered n (ok (t ∷ ts, total)) target w = drain_atomic_work n (t ∷ ts) total target w

unfoldable pub drain_atomic : CyclicColumns → List TableRef → TargetId → ℕ → Drained
unfolding gather_work drain_atomic_work halt
drain_atomic n tables target batch w =
    let (r, w') = gather_work tables target batch w in atomic_gathered n r target w'

abbrev pub drain_cyclic : CyclicColumns → Result Bool → List TableRef → TargetId → ℕ → Drained
drain_cyclic n (err e) tables target batch w = halt 0 (some e) w
drain_cyclic n (ok true) tables target batch w = drain_cyclic_null_fill n tables target batch w
drain_cyclic n (ok false) tables target batch w = drain_atomic n tables target batch w

unfoldable pub drain_component : CyclicColumns → Bool → List TableRef → TargetId → ℕ → Drained
unfolding drain_acyclic drain_cyclic_null_fill drain_atomic cyclic_cols halt
drain_component n false tables target batch w = drain_acyclic tables target batch w
drain_component n true tables target batch w =
    let (r, w') = cyclic_cols n tables w in drain_cyclic n r tables target batch w'

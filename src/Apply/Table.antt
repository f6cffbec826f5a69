-- ===== src/Apply/Table.antt =====
-- internal/apply/apply.go: the drain of one table, and of its whole backlog; internal/engine/postgres
-- apply.go, `ApplyPass`.
use replicare.Base.{ℕ, zero, suc, ◌+◌, List, [], ◌∷◌, length}
use replicare.Engine.{TableRef, KeyValues, TargetId, DirtyKey, Result, ok}
use replicare.Postgres.World.{
  Rows, Exec, ◌>>=◌, ◌>>◌, lift, attempt, read_dirty, reread, confirm, stage_upsert, delete_absent,
}
use replicare.Apply.Coalesce.{coalesce}
use replicare.Apply.Pass.{transport_columns, both_ends, in_transaction}

-- The keys are never none here, since an empty read ends the round (`drain_read`), so that the early
-- return of `ApplyPass` on no keys is left out.
-- `Drain` and `Sink.ApplyPass`: one table in one transaction, with `ApplyPass` reading the pipe.
unfoldable pub apply_pass : TableRef → List KeyValues → Result Rows → Exec (Unit {0})
unfolding in_transaction ◌>>=◌
apply_pass ref keys rows = in_transaction (do stage_upsert ref rows; delete_absent ref keys)

unfoldable pub pipe_apply : TableRef → List KeyValues → Exec (Unit {0})
unfolding ◌>>=◌ attempt lift both_ends apply_pass
pipe_apply ref keys = do
  rows ← attempt (reread ref keys)
  applied ← attempt (apply_pass ref keys rows)
  lift (both_ends rows applied)

unfoldable pub drain_read : TableRef → TargetId → List DirtyKey → Exec ℕ
unfolding ◌>>=◌ lift transport_columns coalesce pipe_apply
drain_read ref target [] = lift (ok 0)
drain_read ref target (d ∷ ds) = do
  let (distinct, ids) = coalesce (d ∷ ds)
  transport_columns ref
  pipe_apply ref distinct
  confirm ref target ids
  lift (ok (length (d ∷ ds)))

unfoldable pub drain : TableRef → TargetId → ℕ → Exec ℕ
unfolding ◌>>=◌ drain_read
drain ref target max_batch = do dirty ← read_dirty ref target max_batch; drain_read ref target dirty

-- The end of a round: the next one, unless this one consumed nothing.
unfoldable pub next_round : Exec ℕ → ℕ → Exec ℕ
unfolding ◌>>=◌ lift
next_round rest zero = lift (ok 0)
next_round rest (suc n) = do m ← rest; lift (ok (suc n + m))

-- `DrainAll`: `fuel` bounds the rounds, which end by themselves when a round consumes nothing.
unfoldable pub drain_all : ℕ → TableRef → TargetId → ℕ → Exec ℕ
unfolding ◌>>=◌ lift drain next_round
drain_all zero ref target batch = lift (ok 0)
drain_all (suc fuel) ref target batch = do
  n ← drain ref target batch
  next_round (drain_all fuel ref target batch) n

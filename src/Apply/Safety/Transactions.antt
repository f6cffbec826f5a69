-- ===== src/Apply/Safety/Transactions.antt =====
-- One table's transactions: what has landed when they succeed, and what they leave when they fail.
use replicare.Base.{◌≡◌, List}
use replicare.Engine.{TableRef, TargetId, Result, ok, err}
use replicare.Postgres.Capture.{Captured}
use replicare.Postgres.World.{
  World, Rows, Exec, ◌>>=◌, lift, attempt, reread, stage_upsert, begin_apply, commit_apply,
  rollback,
}
use replicare.Postgres.World.Spec.{
  OnOk, Spec, lift-Spec, attempt-Spec, bind-Spec, Spec-frame, Spec-weaken,
}
use replicare.Postgres.World.Synced.{Claim, IsHeld}
use replicare.Postgres.World.Calls.{Any, AllHeld, Frame}
use replicare.Postgres.World.Calls.Lifecycle.{begin-Spec, commit-Spec, rollback-Spec}
use replicare.Postgres.World.Calls.Staging.{
  IsRead, IsUpserted, IsWritten, IsLanded, reread-Spec, stage-Spec, stage_failed-Spec, delete-Spec,
  land-Spec,
}
use replicare.Apply.Pass.{
  both_ends, pipe_stage_upsert, unless_committed, in_transaction, TableWork, per_table_upsert,
  per_table_delete,
}

module _ (target : TargetId) (cs : List Claim) where
  abbrev F : World → Type 0
  F = Frame target cs

  unless_committed-Spec :
      (R : World → Type 0) (r : Result (Unit {0}))
      → Spec F (OnOk (λ _. R) r) (unless_committed r) (λ _. R)
  unfolding unless_committed
  unless_committed-Spec R (ok a) = lift-Spec (ok tt) λ w p. p
  unless_committed-Spec R (err e) =
      bind-Spec (attempt rollback) (λ _. lift (err e))
        (attempt-Spec rollback (rollback-Spec target cs)) λ r. lift-Spec (err e) λ w p. tt

  -- A transaction whose body leads from `P` to `Q`, from which the commit leads to `R`.
  pub in_transaction-Spec :
      (P Q R : World → Type 0) (body : Exec (Unit {0}))
      → Spec F P begin_apply (λ _. P)
      → Spec F P body (λ _. Q)
      → Spec F Q commit_apply (λ _. R)
      → Spec F P (in_transaction body) (λ _. R)
  unfolding in_transaction
  in_transaction-Spec P Q R body sa sb sc = bind-Spec begin_apply _ sa λ _.
      bind-Spec _ unless_committed (attempt-Spec _ (bind-Spec body _ sb (λ _. sc)))
        (unless_committed-Spec R)

-- A claim of the frame.
module _ (target : TargetId) (cs : List Claim) (c : Claim)
    (pick : (src : TableRef → Captured) → AllHeld cs src → IsHeld c src) where
  abbrev IsStagedSomehow : World → Type 0
  IsStagedSomehow w = (rows : Rows) × IsUpserted target c rows w

  both_ends_post :
      (rows : Rows) (s : Result (Unit {0})) (w : World)
      → OnOk (λ _. IsUpserted target c rows) s w
      → OnOk (λ _. IsStagedSomehow) (both_ends (ok rows) s) w
  unfolding both_ends
  both_ends_post rows (ok a) w p = (rows, p)
  both_ends_post rows (err e) w p = tt

  stage-IsRead-Spec :
      (r : Result Rows)
      → Spec
          (Frame target cs)
          (OnOk (IsRead target c) r)
          (attempt (stage_upsert c.table r) >>= λ s. lift (both_ends r s))
          (λ _. IsStagedSomehow)
  stage-IsRead-Spec (ok rows) =
      bind-Spec (attempt (stage_upsert c.table (ok rows))) _
        (attempt-Spec _ (stage-Spec target cs c rows))
        λ s. lift-Spec (both_ends (ok rows) s) λ w p. both_ends_post rows s w p
  stage-IsRead-Spec (err e) =
      bind-Spec (attempt (stage_upsert c.table (err e))) _
        (attempt-Spec _ (stage_failed-Spec target cs c (λ _. Any) e))
        λ s. lift-Spec (both_ends (err e) s) λ w p. unfold both_ends in tt

  stage-IsStaged :
      Spec (Frame target cs) Any (pipe_stage_upsert c.table c.keys) (λ _. IsStagedSomehow)
  unfolding pipe_stage_upsert
  stage-IsStaged =
      bind-Spec (attempt (reread c.table c.keys)) _
        (attempt-Spec _ (Spec-frame _ (λ w h. (h.0, pick w.src h.1)) (reread-Spec target cs c)))
        stage-IsRead-Spec

  forget :
      {A : Type 0} {P : World → Type 0} {Q : A → World → Type 0} (m : Exec A)
      → Spec (Frame target cs) P m Q
      → Spec (Frame target cs) P m (λ _ w. Unit)
  forget m s =
      Spec-weaken m s (λ w p. p)
        λ r w q. elim r as (λ r. OnOk (λ _ w. Unit) r w) [ ok a ↦ tt | err e ↦ tt ]

  pub upsert-Spec :
      (t : TableWork)
      → t.ref ≡ c.table
      → t.distinct ≡ c.keys
      → Spec (Frame target cs) Any (per_table_upsert t) (λ _ w. Unit)
  unfolding per_table_upsert
  upsert-Spec t e f =
      rw (e, f)
        (in_transaction-Spec target cs Any Any Any (pipe_stage_upsert c.table c.keys)
          (begin-Spec target cs) (forget _ stage-IsStaged) (commit-Spec target cs))

  -- Both phases of the table's transaction done, its rows are as good as the source's even
  -- without the claim.
  pub delete-Lands :
      (t : TableWork)
      → t.ref ≡ c.table
      → t.distinct ≡ c.keys
      → Spec (Frame target cs) Any (per_table_delete t) (λ _. IsLanded target c)
  unfolding per_table_delete
  delete-Lands t e f =
      rw (e, f)
        (in_transaction-Spec target cs Any (IsWritten target c) (IsLanded target c) _
          (begin-Spec target cs)
          (bind-Spec (pipe_stage_upsert c.table c.keys) _ stage-IsStaged
            (λ _. record { at = λ w h (rows, p). (delete-Spec target cs c rows).at w h p }))
          (land-Spec target cs c))

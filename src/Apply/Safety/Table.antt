-- ===== src/Apply/Safety/Table.antt =====
-- The drain of one table keeps the invariant of replication.
use replicare.Base.{ℕ, zero, suc, List, [], ◌∷◌}
use replicare.Engine.{TableRef, TargetId, DirtyKey, Result, ok, err}
use replicare.Postgres.World.{
  World, Rows, Exec, lift, attempt, reread, stage_upsert, delete_absent, read_dirty, confirm,
}
use replicare.Postgres.World.Spec.{
  OnOk, OnOk-any, Spec, lift-Spec, attempt-Spec, bind-Spec, Spec-frame, Spec-weaken,
}
use replicare.Postgres.World.Synced.{IsSynced, Claim, IsHeld}
use replicare.Postgres.World.Calls.{Any, Frame}
use replicare.Postgres.World.Calls.Lifecycle.{begin-Spec}
use replicare.Postgres.World.Calls.Staging.{
  IsRead, IsWritten, IsLanded, begin-IsRead-Spec, reread-Spec, stage-Spec, stage_failed-Spec,
  delete-Spec, land-Spec,
}
use replicare.Postgres.World.Calls.Consume.{AreValid, Claimable, read-Spec, confirm-Spec}
use replicare.Apply.Coalesce.{coalesce, coalesce-covers}
use replicare.Apply.Pass.{both_ends, transport_columns}
use replicare.Apply.Table.{apply_pass, pipe_apply, drain_read, drain, drain_all, next_round}
use replicare.Apply.Safety.Transactions.{in_transaction-Spec}
use replicare.Apply.Safety.Drain.{absorb, transport_columns-Spec}

module _ (target : TargetId) (c : Claim) where
  abbrev Held : World → Type 0
  Held = Frame target (c ∷ [])

  both_ends-Lands :
      (r : Result Rows) (s : Result (Unit {0})) (w : World)
      → OnOk (λ _. IsLanded target c) s w
      → OnOk (λ _. IsLanded target c) (both_ends r s) w
  unfolding both_ends
  both_ends-Lands (ok rows) s w p = p
  both_ends-Lands (err e) s w p = tt

  apply_pass-Lands :
      (r : Result Rows)
      → Spec Held (OnOk (IsRead target c) r) (apply_pass c.table c.keys r) (λ _. IsLanded target c)
  unfolding apply_pass
  apply_pass-Lands (ok rows) =
      in_transaction-Spec target (c ∷ []) (IsRead target c rows) (IsWritten target c)
        (IsLanded target c) _ (begin-IsRead-Spec target (c ∷ []) c rows)
        (bind-Spec (stage_upsert c.table (ok rows)) _ (stage-Spec target (c ∷ []) c rows)
          (λ _. delete-Spec target (c ∷ []) c rows))
        (land-Spec target (c ∷ []) c)
  apply_pass-Lands (err e) =
      in_transaction-Spec target (c ∷ []) Any (IsWritten target c) (IsLanded target c) _
        (begin-Spec target (c ∷ []))
        (bind-Spec (stage_upsert c.table (err e)) (λ _. delete_absent c.table c.keys)
          (stage_failed-Spec target (c ∷ []) c (λ _ _. ⊥) e)
          (λ _. record { at = λ w h p. absurd p }))
        (land-Spec target (c ∷ []) c)

  pipe_apply-Lands : Spec Held Any (pipe_apply c.table c.keys) (λ _. IsLanded target c)
  unfolding pipe_apply
  pipe_apply-Lands =
      bind-Spec (attempt (reread c.table c.keys)) _
        (attempt-Spec _ (Spec-frame _ (λ w h. (h.0, h.1.0)) (reread-Spec target (c ∷ []) c)))
        λ r.
          bind-Spec (attempt (apply_pass c.table c.keys r)) (λ s. lift (both_ends r s))
            (attempt-Spec _ (apply_pass-Lands r))
            λ s. lift-Spec (both_ends r s) λ w p. both_ends-Lands r s w p

module _ (target : TargetId) (ref : TableRef) where
  abbrev claim_read : DirtyKey → List DirtyKey → Claim
  claim_read d ds = record {
    table = ref;
    ids = (coalesce (d ∷ ds)).1;
    keys = (coalesce (d ∷ ds)).0;
  }

  read-Held :
      (d : DirtyKey) (ds : List DirtyKey) (w : World)
      → ((n : ℕ) × AreValid n (d ∷ ds)) × Claimable ref (d ∷ ds) w
      → IsHeld (claim_read d ds) w.src
  read-Held d ds w ((n, v), claim) =
      unfold coalesce in
      claim (coalesce (d ∷ ds)).0 (coalesce-covers n (d ∷ ds) (d ∷ ds) v v (λ k m. m))

  drain_read-Spec :
      (dirty : List DirtyKey)
      → Spec
          (Frame target [])
          (λ w. ((n : ℕ) × AreValid n dirty) × Claimable ref dirty w)
          (drain_read ref target dirty)
          (λ _ w. Unit)
  unfolding drain_read
  drain_read-Spec [] = lift-Spec (ok 0) λ w p. tt
  drain_read-Spec (d ∷ ds) =
      let c = claim_read d ds in
      Spec-weaken _
        (absorb target [] c (λ _. Any) _
          (bind-Spec (transport_columns ref) _ (transport_columns-Spec target (c ∷ []) ref) λ _.
            bind-Spec (pipe_apply c.table c.keys) _ (pipe_apply-Lands target c) λ _.
              bind-Spec (confirm ref target c.ids) _ (confirm-Spec target (c ∷ []) c)
                λ _. lift-Spec _ (λ w p. tt)))
        (read-Held d ds) (λ r w q. OnOk-any r w)

  pub drain-Spec : (batch : ℕ) → Spec (Frame target []) Any (drain ref target batch) (λ _ w. Unit)
  unfolding drain
  drain-Spec batch =
      bind-Spec (read_dirty ref target batch) _ (read-Spec target [] ref batch) drain_read-Spec

  next_round-Spec :
      (rest : Exec ℕ)
      → Spec (Frame target []) Any rest (λ _ w. Unit)
      → (n : ℕ) → Spec (Frame target []) Any (next_round rest n) (λ _ w. Unit)
  unfolding next_round
  next_round-Spec rest s zero = lift-Spec (ok 0) λ w p. tt
  next_round-Spec rest s (suc n) = bind-Spec rest _ s λ m. lift-Spec _ λ w p. tt

  drain_all-Spec :
      (fuel batch : ℕ) → Spec (Frame target []) Any (drain_all fuel ref target batch) (λ _ w. Unit)
  unfolding drain_all
  drain_all-Spec zero batch = lift-Spec (ok 0) λ w p. tt
  drain_all-Spec (suc fuel) batch =
      bind-Spec (drain ref target batch) _ (drain-Spec batch)
        (next_round-Spec (drain_all fuel ref target batch) (drain_all-Spec fuel batch))

-- Draining one table's backlog, in any number of rounds, under any interleaved transactions and
-- faults, keeps every row of the target either equal to the source's or pending for the target.
pub drain_all-keeps :
    (fuel : ℕ) (ref : TableRef) (target : TargetId) (batch : ℕ) (w : World)
    → IsSynced target w
    → IsSynced target (drain_all fuel ref target batch w).1
drain_all-keeps fuel ref target batch w h =
    ((drain_all-Spec target ref fuel batch).at w (h, tt) tt).0.0

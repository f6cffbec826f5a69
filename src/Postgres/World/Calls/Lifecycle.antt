-- ===== src/Postgres/World/Calls/Lifecycle.antt =====
-- BEGIN, COMMIT and ROLLBACK of the target's transaction.
use replicare.Base.{◌≡◌, refl, Option, none, some, List}
use replicare.Engine.{TableRef, table_ref_eq, TargetId}
use replicare.Engine.Keys.{key_eq}
use replicare.Postgres.World.{
  World, Tx, commit_in, commit_on, begin_on, rollback_on, begin_apply, commit_apply, rollback, call,
}
use replicare.Postgres.World.Spec.{OnOk, OnOk-any, Spec, call-Spec}
use replicare.Postgres.World.Synced.{IsSynced, Agrees, Claim}
use replicare.Postgres.World.Calls.Facts.{Any, Any-stable, Frame, Frame-stable}

module _ (target : TargetId) (cs : List Claim) where
  pub IsSynced-tx :
      (w : World) (x : Tx)
      → IsSynced target w
      → ((t : TableRef) → Agrees target (x.view t) (w.src t))
      → IsSynced target (record w { tx = some x })
  IsSynced-tx w x h v = record {
    sound = h.sound;
    copied = h.copied;
    viewed = λ y e t k. let q : y.view t k ≡ x.view t k = cc in rw q (v t k);
  }

  pub begin-Spec : Spec (Frame target cs) Any begin_apply (λ _ w. Unit)
  unfolding begin_apply
  begin-Spec =
      call-Spec begin_on (Frame-stable target cs) Any-stable
        λ w h p. ((IsSynced-tx w _ h.0 h.0.copied, h.1), tt)

  rollback_keeps : (w : World) → Frame target cs w → Frame target cs (record w { tx = none })
  rollback_keeps w h = (record { sound = h.0.sound; copied = h.0.copied; viewed = λ x e. cc }, h.1)

  pub rollback-Spec : Spec (Frame target cs) Any rollback (λ _ w. Unit)
  unfolding rollback
  rollback-Spec = record {
    at = λ w h p.
        let s =
          call-Spec {P = Any} {Q = λ _ w. Unit} rollback_on (Frame-stable target cs) Any-stable
            (λ w h p. (rollback_keeps w h, tt)) in
        (rollback_keeps (call rollback_on w).1 (s.at w h p).0, OnOk-any _ _);
  }

  commit_keeps :
      (o : Option Tx) (w : World)
      → w.tx ≡ o
      → Frame target cs w
      → Frame target cs (commit_in o w).1 × OnOk (λ _ w. Unit) (commit_in o w).0 (commit_in o w).1
  commit_keeps none w e h = (h, tt)
  commit_keeps (some x) w e h =
      ((record { sound = h.0.sound; copied = h.0.viewed x e; viewed = λ y p. cc }, h.1), tt)

  pub commit-Spec : Spec (Frame target cs) Any commit_apply (λ _ w. Unit)
  unfolding commit_apply
  commit-Spec =
      call-Spec commit_on (Frame-stable target cs) Any-stable λ w h p. commit_keeps w.tx w refl h

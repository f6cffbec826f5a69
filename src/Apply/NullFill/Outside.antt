-- ===== src/Apply/NullFill/Outside.antt =====
-- A table outside the component: its rows and its deltas are left alone by every phase.
use replicare.Base.{ℕ, ◌≢◌, Bool, true, false, Option, List, [], ◌∷◌, Bytes, All}
use replicare.Engine.{TableRef, KeyValues, TargetId, DirtyKey, Result, ok, err}
use replicare.Postgres.Capture.{Captured, Action, act}
use replicare.Postgres.World.{
  World, Exec, lift, attempt, introspect, read_dirty, reread, begin_apply, rollback, delete_absent,
}
use replicare.Postgres.World.Spec.{
  OnOk, OnOk-any, Spec, lift-Spec, attempt-Spec, bind-Spec, Spec-weaken,
}
use replicare.Postgres.World.Calls.{Any}
use replicare.Apply.Pass.{
  both_ends, unless_committed, in_transaction, columns_of, transport_columns, TableWork, Gathered,
  gather_table, gather_work,
}
use replicare.Apply.NullFill.{
  CyclicColumns, stage_omitting, fill_cyclic, pipe_stage_omitting, when, per_table_apply_cyclic,
}
use replicare.Apply.NullFill.Standing.{
  Standing, begin_stands, commit_stands, rollback_stands, reread_stands, read_stands, schema_stands,
  fill_stands, stage_stands, delete_stands,
}

module _ (n : CyclicColumns) (R : Captured → (KeyValues → Option Bytes) → Type 0) (t : TableRef)
    (steady : (a : Action) (v : Captured) (d : KeyValues → Option Bytes)
      → R v d
      → R (act a v) d) where
  abbrev pub F : World → Type 0
  F = Standing R t

  pub lift_stands : {A : Type 0} (r : Result A) → Spec F Any (lift r) (λ _. Any)
  lift_stands r = lift-Spec r λ w p. OnOk-any r w

  unless_committed_stands :
      (r : Result (Unit {0})) → Spec F (OnOk (λ _. Any) r) (unless_committed r) (λ _. Any)
  unfolding unless_committed
  unless_committed_stands (ok a) = lift-Spec (ok tt) λ w p. tt
  unless_committed_stands (err e) =
      bind-Spec (attempt rollback) (λ _. lift (err e))
        (attempt-Spec rollback (rollback_stands R t steady)) λ r. lift-Spec (err e) λ w p. tt

  pub in_transaction_stands :
      (body : Exec (Unit {0}))
      → Spec F Any body (λ _. Any)
      → Spec F Any (in_transaction body) (λ _. Any)
  unfolding in_transaction
  in_transaction_stands body sb = bind-Spec begin_apply _ (begin_stands R t steady) λ _.
      bind-Spec _ unless_committed
        (attempt-Spec _ (bind-Spec body _ sb (λ _. commit_stands R t steady)))
        unless_committed_stands

  loosen :
      {A : Type 0} (P : World → Type 0) (m : Exec A)
      → Spec F Any m (λ _. Any)
      → Spec F P m (λ _. Any)
  loosen P m s = Spec-weaken m s (λ w p. tt) (λ r w q. q)

  module _ (u : TableRef) (ne : t ≢ u) where
    pub pipe_stands : (keys : List KeyValues) → Spec F Any (pipe_stage_omitting n u keys) (λ _. Any)
    unfolding pipe_stage_omitting
    pipe_stands keys =
        bind-Spec (attempt (reread u keys)) _ (attempt-Spec _ (reread_stands R t steady u keys))
          λ rows.
            bind-Spec (attempt (stage_omitting n u rows)) _
              (attempt-Spec _ (loosen _ _ (stage_stands R t steady u ne n rows)))
              λ staged. loosen _ _ (lift_stands (both_ends rows staged))

    fills : (b : Bool) → Spec F Any (when b (fill_cyclic n)) (λ _. Any)
    fills true = fill_stands R t steady n
    fills false = lift_stands (ok tt)

    deletes :
        (b : Bool) (keys : List KeyValues) → Spec F Any (when b (delete_absent u keys)) (λ _. Any)
    deletes true keys = delete_stands R t steady u ne keys
    deletes false keys = lift_stands (ok tt)

  pub table_stands :
      (w : TableWork) (del fill : Bool)
      → t ≢ w.ref
      → Spec F Any (per_table_apply_cyclic n w del fill) (λ _. Any)
  unfolding per_table_apply_cyclic
  table_stands w del fill ne = in_transaction_stands _ (
      bind-Spec (pipe_stage_omitting n w.ref w.distinct) _ (pipe_stands w.ref ne w.distinct) λ _.
        bind-Spec (when fill (fill_cyclic n)) _ (fills w.ref ne fill)
          λ _. deletes w.ref ne del w.distinct)

  abbrev pub IsOutside : TableWork → Type 0
  IsOutside w = t ≢ w.ref

  pub columns_stands : (u : TableRef) → Spec F Any (transport_columns u) (λ _. Any)
  unfolding transport_columns
  columns_stands u =
      bind-Spec introspect _ (schema_stands R t steady) λ tables. lift_stands (columns_of u tables)

  abbrev pub IsWork : Gathered → World → Type 0
  IsWork g w = All IsOutside g.0

  pub gather_table_stands :
      (u : TableRef) (dirty : List DirtyKey) (rest : Exec Gathered)
      → t ≢ u
      → Spec F Any rest IsWork
      → Spec F Any (gather_table u dirty rest) IsWork
  unfolding gather_table
  gather_table_stands u [] rest ne s = s
  gather_table_stands u (d ∷ ds) rest ne s =
      bind-Spec (transport_columns u) _ (columns_stands u)
        λ cols. bind-Spec rest _ s λ more. lift-Spec _ λ w p. (ne, p)

  pub gather_stands :
      (tables : List TableRef) (target : TargetId) (batch : ℕ)
      → All (λ u. t ≢ u) tables
      → Spec F Any (gather_work tables target batch) IsWork
  unfolding gather_work
  gather_stands [] target batch os = lift-Spec (ok ([], 0)) λ w p. tt
  gather_stands (u ∷ us) target batch os =
      bind-Spec (read_dirty u target batch) _ (read_stands R t steady u target batch)
        λ dirty. gather_table_stands u dirty _ os.0 (gather_stands us target batch os.1)

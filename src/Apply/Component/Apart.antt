-- ===== src/Apply/Component/Apart.antt =====
-- Calls for another table, in a transaction that holds work of table `t`.
use replicare.Base.{
  ℕ, ◌≡◌, ◌≢◌, refl, inl, inr, Option, none, some, List, [], ◌∷◌, update, ==_cases, All,
}
use replicare.Engine.{TargetId, TableRef, table_ref_eq, KeyValues, Result, ok, err}
use replicare.Postgres.Capture.{Captured, Action, act}
use replicare.Postgres.World.{
  confirm, World, Tx, Rows, Exec, ◌>>◌, lift, attempt, call, reread_on, reread, delete_in,
  delete_staged, delete_on, delete_absent,
}
use replicare.Postgres.World.Spec.{
  Spec, IsStable, OnOk-any, call-Spec, lift-Spec, attempt-Spec, bind-Spec, Spec-weaken,
}
use replicare.Postgres.World.Calls.{Any, Any-stable}
use replicare.Apply.Pass.{both_ends, TableWork, in_transaction, halt}
use replicare.Apply.NullFill.{
  CyclicColumns, stage_omitting, stage_omitting_in, stage_omitting_on, pipe_stage_omitting,
}
use replicare.Apply.NullFill.Own.{Copy, Fact, IsSteady, On, On-stable}
use replicare.Apply.Component.{stage_all, delete_all, confirm_all, drain_atomic_work}
use replicare.Apply.NullFill.Standing.{Standing, delete_stands, confirm_stands}
use replicare.Apply.NullFill.Outside.{pipe_stands, in_transaction_stands}
use replicare.Apply.Safety.Drain.{or_halt-keeps}

-- A fact of the transaction's view of `t` alone.
abbrev pub IsLocal : TableRef → Fact → Type 0
IsLocal t P =
    (v : Captured) (d : Copy) (x y : Tx)
    → y.view t ≡ x.view t
    → y.staged t ≡ x.staged t
    → P v d (some x)
    → P v d (some y)

module _ (n : CyclicColumns) (t : TableRef) (P : Fact) (steady : IsSteady P)
    (local : IsLocal t P) where
  abbrev H : World → Type 0
  H = On t P

  H-stable : IsStable H
  H-stable = On-stable t P steady

  holds_on :
      {A : Type 0} (op : Exec A)
      → ((w : World) → H w → H (op w).1)
      → Spec H Any (call op) (λ _. Any)
  holds_on op step = call-Spec op H-stable Any-stable λ w h p. (step w h, OnOk-any _ _)

  lift_holds : {A : Type 0} (Q : World → Type 0) (r : Result A) → Spec H Q (lift r) (λ _. Any)
  lift_holds Q r = lift-Spec r λ w p. OnOk-any r w

  loosely :
      {A : Type 0} (Q : World → Type 0) (m : Exec A)
      → Spec H Any m (λ _. Any)
      → Spec H Q m (λ _. Any)
  loosely Q m s = Spec-weaken m s (λ w p. tt) (λ r w q. q)

  module _ (u : TableRef) (ne : t ≢ u) where
    elsewhere : {V : Type 0} (f : TableRef → V) (c : V) → update f u c t ≡ f t
    elsewhere f c = elim (==_cases t u) [ inl (_, e) ↦ absurd (ne e) | inr (b, _) ↦ rw b refl ]

    beside :
        (w : World) (x y : Tx)
        → w.tx ≡ some x
        → H w
        → y.view t ≡ x.view t
        → y.staged t ≡ x.staged t
        → H (record w { tx = some y })
    beside w x y e h v s = local (w.src t) (w.dst t) x y v s (rw e at h)

    stage_in_holds :
        (rows : Rows) (o : Option Tx) (w : World)
        → w.tx ≡ o
        → H w
        → H (stage_omitting_in n u rows o w).1
    stage_in_holds rows none w e h = h
    stage_in_holds rows (some x) w e h =
        beside w x _ e h (elsewhere x.view _) (elsewhere x.staged _)

    stage_on_holds : (r : Result Rows) (w : World) → H w → H (stage_omitting_on n u r w).1
    stage_on_holds (err e) w h = h
    stage_on_holds (ok rows) w h = stage_in_holds rows w.tx w refl h

    stage_holds : (r : Result Rows) → Spec H Any (stage_omitting n u r) (λ _. Any)
    unfolding stage_omitting
    stage_holds r = holds_on (stage_omitting_on n u r) (stage_on_holds r)

    reread_holds : (keys : List KeyValues) → Spec H Any (reread u keys) (λ _. Any)
    unfolding reread
    reread_holds keys = holds_on (reread_on u keys) λ w h. h

    pub pipe_holds : (keys : List KeyValues) → Spec H Any (pipe_stage_omitting n u keys) (λ _. Any)
    unfolding pipe_stage_omitting
    pipe_holds keys =
        bind-Spec (attempt (reread u keys)) _ (attempt-Spec _ (reread_holds keys)) λ rows.
          bind-Spec (attempt (stage_omitting n u rows)) _
            (attempt-Spec _ (loosely _ _ (stage_holds rows)))
            λ staged. lift_holds _ (both_ends rows staged)

    delete_staged_holds :
        (keys : List KeyValues) (x : Tx) (o : Option Rows) (w : World)
        → w.tx ≡ some x
        → H w
        → H (delete_staged u keys x o w).1
    delete_staged_holds keys x none w e h = h
    delete_staged_holds keys x (some rows) w e h = beside w x _ e h (elsewhere x.view _) refl

    delete_in_holds :
        (keys : List KeyValues) (o : Option Tx) (w : World)
        → w.tx ≡ o
        → H w
        → H (delete_in u keys o w).1
    delete_in_holds keys none w e h = h
    delete_in_holds keys (some x) w e h = delete_staged_holds keys x (x.staged u) w e h

    pub delete_holds : (keys : List KeyValues) → Spec H Any (delete_absent u keys) (λ _. Any)
    unfolding delete_absent
    delete_holds keys = holds_on (delete_on u keys) (λ w h. delete_in_holds keys w.tx w refl h)

  pub stage_all_holds :
      (ws : List TableWork) → All (λ w. t ≢ w.ref) ws → Spec H Any (stage_all n ws) (λ _. Any)
  unfolding stage_all
  stage_all_holds [] os = lift_holds _ (ok tt)
  stage_all_holds (w ∷ ws) os =
      bind-Spec (pipe_stage_omitting n w.ref w.distinct) _ (pipe_holds w.ref os.0 w.distinct)
        λ _. stage_all_holds ws os.1

  pub delete_all_holds :
      (ws : List TableWork) → All (λ w. t ≢ w.ref) ws → Spec H Any (delete_all ws) (λ _. Any)
  unfolding delete_all
  delete_all_holds [] os = lift_holds _ (ok tt)
  delete_all_holds (w ∷ ws) os =
      bind-Spec (delete_all ws) _ (delete_all_holds ws os.1) λ _. delete_holds w.ref os.0 w.distinct

-- The whole drain, beside a table that it does not hold.
module _ (n : CyclicColumns) (R : Captured → Copy → Type 0) (t : TableRef)
    (steady : (a : Action) (v : Captured) (d : Copy) → R v d → R (act a v) d) where
  abbrev F : World → Type 0
  F = Standing R t

  stage_all_stands :
      (ws : List TableWork) → All (λ w. t ≢ w.ref) ws → Spec F Any (stage_all n ws) (λ _. Any)
  unfolding stage_all
  stage_all_stands [] os = lift-Spec (ok tt) λ w p. tt
  stage_all_stands (w ∷ ws) os =
      bind-Spec (pipe_stage_omitting n w.ref w.distinct) _
        (pipe_stands n R t steady w.ref os.0 w.distinct) λ _. stage_all_stands ws os.1

  delete_all_stands :
      (ws : List TableWork) → All (λ w. t ≢ w.ref) ws → Spec F Any (delete_all ws) (λ _. Any)
  unfolding delete_all
  delete_all_stands [] os = lift-Spec (ok tt) λ w p. tt
  delete_all_stands (w ∷ ws) os =
      bind-Spec (delete_all ws) _ (delete_all_stands ws os.1)
        λ _. delete_stands R t steady w.ref os.0 w.distinct

  pub confirm_all_stands :
      (target : TargetId) (ts : List TableWork)
      → All (λ x. t ≢ x.ref) ts
      → (total : ℕ) (w : World) → F w
      → F (confirm_all target ts total w).1
  unfolding confirm_all halt
  confirm_all_stands target [] os total w h = h
  confirm_all_stands target (x ∷ ts) os total w h =
      let k = ((confirm_stands R t steady x.ref os.0 target x.ids).at w h tt).0 in
      or_halt-keeps F (confirm x.ref target x.ids w).0 (confirm_all target ts total) total _ k
        (confirm_all_stands target ts os.1 total _ k)

  pub drain_atomic_work_stands :
      (target : TargetId) (ts : List TableWork)
      → All (λ x. t ≢ x.ref) ts
      → (total : ℕ) (w : World) → F w
      → F (drain_atomic_work n ts total target w).1
  unfolding drain_atomic_work
  drain_atomic_work_stands target ts os total w h =
      let k =
        ((in_transaction_stands n R t steady _
            (bind-Spec (stage_all n ts) _ (stage_all_stands ts os) λ _. delete_all_stands ts os)).at
          w h tt).0 in
      or_halt-keeps F (in_transaction (stage_all n ts >> delete_all ts) w).0
        (confirm_all target ts total) 0 _ k (confirm_all_stands target ts os total _ k)

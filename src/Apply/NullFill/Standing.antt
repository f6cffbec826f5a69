-- ===== src/Apply/NullFill/Standing.antt =====
-- What stays true of one table while calls are made for other tables: a property of what the source
-- has captured for it and of its rows at the target. No transaction of another table changes those.
use replicare.Base.{ℕ, ◌≡◌, ◌≢◌, refl, inl, inr, Option, none, some, List, Bytes, update, ==_cases}
use replicare.Engine.{TableRef, table_ref_eq, KeyValues, TargetId, Result, ok, err}
use replicare.Engine.Keys.{key_eq}
use replicare.Postgres.Capture.{Captured, Action, act}
use replicare.Postgres.World.{
  World, Tx, Rows, Exec, call, begin_on, begin_apply, reread_on, reread, read_on, read_dirty,
  schema_on, introspect, commit_in, commit_on, commit_apply, rollback_on, rollback, delete_in,
  delete_staged, delete_on, delete_absent, confirm_on, confirm,
}
use replicare.Postgres.World.Spec.{Spec, IsStable, OnOk-any, call-Spec}
use replicare.Postgres.World.Calls.{Any, Any-stable}
use replicare.Apply.NullFill.{
  CyclicColumns, stage_omitting, stage_omitting_in, stage_omitting_on, fill_cyclic, fill_in,
  fill_on,
}

-- A property of one table at the source and its rows at the target, beside open transactions that
-- do not touch that table.
pub record Standing (R : Captured → (KeyValues → Option Bytes) → Type 0) (t : TableRef) (w : World)
    : Type 0 where
  pub holds : R (w.src t) (w.dst t)
  pub aligned : (x : Tx) → w.tx ≡ some x → (x.view t ≡ w.dst t) × (x.staged t ≡ none)

module _ (R : Captured → (KeyValues → Option Bytes) → Type 0) (t : TableRef)
    (steady : (a : Action) (v : Captured) (d : KeyValues → Option Bytes)
      → R v d
      → R (act a v) d) where
  abbrev F : World → Type 0
  F = Standing R t

  pub Standing-stable : IsStable F
  Standing-stable = record {
    on_action = λ (u, a) w h. record {
      holds = elim (==_cases t u) [
        | inl (b, e) ↦ rw (b, ← e) (steady a (w.src t) (w.dst t) h.holds)
        | inr (b, _) ↦ rw b h.holds
      ];
      aligned = h.aligned;
    };
    on_turn = λ s w h. record { holds = h.holds; aligned = h.aligned };
  }

  keeps :
      {A : Type 0} (op : Exec A)
      → ((w : World) → F w → F (op w).1)
      → Spec F Any (call op) (λ _. Any)
  keeps op step = call-Spec op Standing-stable Any-stable (λ w h p. (step w h, OnOk-any _ _))

  pub began : (w : World) → F w → F (begin_on w).1
  began w h = record {
    holds = h.holds;
    aligned =
        λ x e. let q : x ≡ record { view = w.dst; staged = λ _. none } = cc in rw q (refl, refl);
  }

  pub begin_stands : Spec F Any begin_apply (λ _. Any)
  unfolding begin_apply
  begin_stands = keeps begin_on began

  commit_in-Standing : (o : Option Tx) (w : World) → w.tx ≡ o → F w → F (commit_in o w).1
  commit_in-Standing none w e h = h
  commit_in-Standing (some x) w e h = record {
    holds = rw (h.aligned x e).0 h.holds;
    aligned = λ y q. absurd (cc);
  }

  pub commit_stands : Spec F Any commit_apply (λ _. Any)
  unfolding commit_apply
  commit_stands = keeps commit_on (λ w h. commit_in-Standing w.tx w refl h)

  pub dropped : (w : World) → F w → F (record w { tx = none })
  dropped w h = record { holds = h.holds; aligned = λ y q. absurd (cc) }

  pub rollback_stands : Spec F Any rollback (λ _. Any)
  unfolding rollback
  rollback_stands = record {
    at = λ w h p.
        let s = keeps rollback_on dropped in
        (dropped (call rollback_on w).1 (s.at w h tt).0, OnOk-any _ _);
  }

  -- An open transaction goes on and does not touch the table.
  aside :
      (w : World) (x y : Tx)
      → w.tx ≡ some x
      → F w
      → y.view t ≡ x.view t
      → y.staged t ≡ x.staged t
      → F (record w { tx = some y })
  aside w x y e h v s = record {
    holds = h.holds;
    aligned = λ z q. let a = h.aligned x e in (cc, cc);
  }

  pub reread_stands : (u : TableRef) (keys : List KeyValues) → Spec F Any (reread u keys) (λ _. Any)
  unfolding reread
  reread_stands u keys = keeps (reread_on u keys) λ w h. h

  pub read_stands :
      (u : TableRef) (target : TargetId) (batch : ℕ)
      → Spec F Any (read_dirty u target batch) (λ _. Any)
  unfolding read_dirty
  read_stands u target batch = keeps (read_on u target batch) λ w h. h

  pub schema_stands : Spec F Any introspect (λ _. Any)
  unfolding introspect
  schema_stands = keeps schema_on λ w h. h

  fill_in-Standing :
      (n : CyclicColumns) (o : Option Tx) (w : World) → w.tx ≡ o → F w → F (fill_in n o w).1
  fill_in-Standing n none w e h = h
  fill_in-Standing n (some x) w e h = aside w x _ e h (rw (h.aligned x e).1 refl) refl

  pub fill_stands : (n : CyclicColumns) → Spec F Any (fill_cyclic n) (λ _. Any)
  unfolding fill_cyclic
  fill_stands n = keeps (fill_on n) (λ w h. fill_in-Standing n w.tx w refl h)

  module _ (u : TableRef) (ne : t ≢ u) where
    elsewhere : {V : Type 0} (f : TableRef → V) (c : V) → update f u c t ≡ f t
    elsewhere f c = elim (==_cases t u) [ inl (_, e) ↦ absurd (ne e) | inr (b, _) ↦ rw b refl ]

    stage_in-Standing :
        (n : CyclicColumns) (rows : Rows) (o : Option Tx) (w : World)
        → w.tx ≡ o
        → F w
        → F (stage_omitting_in n u rows o w).1
    stage_in-Standing n rows none w q h = h
    stage_in-Standing n rows (some x) w q h =
        aside w x _ q h (elsewhere x.view _) (elsewhere x.staged _)

    stage_on-Standing :
        (n : CyclicColumns) (r : Result Rows) (w : World) → F w → F (stage_omitting_on n u r w).1
    stage_on-Standing n (err e) w h = h
    stage_on-Standing n (ok rows) w h = stage_in-Standing n rows w.tx w refl h

    pub stage_stands :
        (n : CyclicColumns) (r : Result Rows) → Spec F Any (stage_omitting n u r) (λ _. Any)
    unfolding stage_omitting
    stage_stands n r = keeps (stage_omitting_on n u r) (stage_on-Standing n r)

    delete_staged-Standing :
        (keys : List KeyValues) (x : Tx) (o : Option Rows) (w : World)
        → w.tx ≡ some x
        → F w
        → F (delete_staged u keys x o w).1
    delete_staged-Standing keys x none w e h = h
    delete_staged-Standing keys x (some rows) w e h = aside w x _ e h (elsewhere x.view _) refl

    delete_in-Standing :
        (keys : List KeyValues) (o : Option Tx) (w : World)
        → w.tx ≡ o
        → F w
        → F (delete_in u keys o w).1
    delete_in-Standing keys none w e h = h
    delete_in-Standing keys (some x) w e h = delete_staged-Standing keys x (x.staged u) w e h

    pub delete_stands : (keys : List KeyValues) → Spec F Any (delete_absent u keys) (λ _. Any)
    unfolding delete_absent
    delete_stands keys = keeps (delete_on u keys) (λ w h. delete_in-Standing keys w.tx w refl h)

    pub confirm_stands :
        (target : TargetId) (ids : List ℕ) → Spec F Any (confirm u target ids) (λ _. Any)
    unfolding confirm
    confirm_stands target ids =
        keeps (confirm_on u target ids)
          λ w h. record { holds = rw (elsewhere w.src _) h.holds; aligned = h.aligned }

-- ===== src/Apply/Component/Safety.antt =====
-- One drain pass over any component keeps the invariant of replication.
use replicare.Base.{
  ℕ, ◌≡◌, ◌≢◌, refl, not, ◌||◌, Bool, true, false, inl, inr, List, [], ◌∷◌, Bytes, All, is_nodup,
  arith,
}
use replicare.Engine.{TableRef, table_ref_eq, TargetId, Result, ok, err}
use replicare.Postgres.World.{World}
use replicare.Postgres.World.Spec.{OnOk, call-Spec, IsStable-×}
use replicare.Postgres.World.Synced.{IsSynced, IsSynced-stable}
use replicare.Postgres.World.Calls.{Any-stable}
use replicare.Apply.Pass.{Gathered, halt}
use replicare.Apply.Safety.Drain.{drain_acyclic-keeps}
use replicare.Apply.NullFill.{CyclicColumns, AreColumns, is_empty}
use replicare.Apply.NullFill.Standing.{Standing}
use replicare.Apply.NullFill.Steps.{IsKept, IsKept-steady}
use replicare.Apply.NullFill.Outside.{gather_stands}
use replicare.Apply.NullFill.Gather.{AroundRef, here_ref, there_ref, work_at, IsGot, gather-keeps}
use replicare.Apply.NullFill.Safety.{IsIdle, occurs, each_table, drain_cyclic_null_fill-keeps}
use replicare.Apply.Component.{
  has_cyclic, cyclic_on, cyclic_cols, atomic_gathered, drain_atomic, drain_cyclic, drain_component,
}
use replicare.Apply.Component.Apart.{drain_atomic_work_stands}
use replicare.Apply.Component.Idle.{IsIdle-stable, drain_acyclic-IsIdle}
use replicare.Apply.Component.Atomic.{drain_atomic_work-keeps}

empty_nil : (cs : List Bytes) → not (is_empty cs) ≡ false → cs ≡ []
empty_nil [] h = refl
empty_nil (c ∷ cs) h = absurd (cc)

or_left : (a b : Bool) → (a || b) ≡ false → (a ≡ false) × (b ≡ false)
or_left a b h = ground arith

-- Where the sink names no cyclic columns, a table of the component has none.
no_columns :
    (n : CyclicColumns) (t : TableRef) (tables : List TableRef)
    → AroundRef t tables
    → has_cyclic n tables ≡ false
    → n.cols t ≡ []
no_columns n t _ (here_ref ts os) h = empty_nil (n.cols t) (or_left _ _ h).0
no_columns n t _ (there_ref u ts ne a) h = no_columns n t ts a (or_left _ _ h).1

module _ (n : CyclicColumns) (laws : AreColumns n) (target : TargetId) (t : TableRef) where
  gathered_kept :
      (r : Result Gathered) (w : World)
      → n.cols t ≡ []
      → Standing (IsKept target) t w
      → OnOk (IsGot n target t) r w
      → Standing (IsKept target) t (atomic_gathered n r target w).1
  gathered_kept (err e) w z h q = unfold halt in h
  gathered_kept (ok ([], total)) w z h q = unfold halt in h
  gathered_kept (ok (x ∷ xs, total)) w z h q = elim q [
    | inl os ↦
        drain_atomic_work_stands n (IsKept target) t (IsKept-steady target) target (x ∷ xs) os total
          w h
    | inr (b, cols, a, c) ↦
        drain_atomic_work-keeps n laws target (work_at t b cols) (x ∷ xs) a z total w
          (record { holds = (c, h.holds.1); aligned = h.aligned })
  ]

  outside_kept :
      (r : Result Gathered) (w : World)
      → Standing (IsKept target) t w
      → OnOk (λ g _. All (λ x. t ≢ x.ref) g.0) r w
      → Standing (IsKept target) t (atomic_gathered n r target w).1
  outside_kept (err e) w h q = unfold halt in h
  outside_kept (ok ([], total)) w h q = unfold halt in h
  outside_kept (ok (x ∷ xs, total)) w h q =
      drain_atomic_work_stands n (IsKept target) t (IsKept-steady target) target (x ∷ xs) q total w
        h

  atomic_kept :
      (tables : List TableRef) (batch : ℕ)
      → is_nodup tables ≡ true
      → has_cyclic n tables ≡ false
      → (w : World) → Standing (IsKept target) t w
      → Standing (IsKept target) t (drain_atomic n tables target batch w).1
  unfolding drain_atomic
  atomic_kept tables batch nd bare w h = elim (occurs t tables nd) [
    | inl os ↦
        let (k, q) =
          (gather_stands n (IsKept target) t (IsKept-steady target) tables target batch os).at w h
            tt in
        outside_kept _ _ k q
    | inr a ↦
        let (k, q) = (gather-keeps n target t tables batch a).at w h tt in
        gathered_kept _ _ (no_columns n t tables a bare) k q
  ]

module _ (n : CyclicColumns) (laws : AreColumns n) (target : TargetId) (tables : List TableRef)
    (batch : ℕ) (nd : is_nodup tables ≡ true) where
  abbrev Good : World → Type 0
  Good w = IsSynced target w × IsIdle w

  cyclic_keeps :
      (b : Bool) (w : World)
      → has_cyclic n tables ≡ b
      → Good w
      → Good (drain_cyclic n (ok b) tables target batch w).1
  cyclic_keeps true w e h = drain_cyclic_null_fill-keeps n tables target batch w laws nd h.1 h.0
  cyclic_keeps false w e h =
      each_table target (drain_atomic n tables target batch) w
        (λ t k. atomic_kept n laws target t tables batch nd e w k) h.1 h.0

  asked :
      (r : Result Bool) (w : World)
      → Good w
      → OnOk (λ b _. has_cyclic n tables ≡ b) r w
      → Good (drain_cyclic n r tables target batch w).1
  asked (ok b) w h q = cyclic_keeps b w q h
  asked (err e) w h q = unfold halt in h

-- One drain pass over a component keeps every row of the target either equal to the source's or
-- pending for the target, whichever of the three drains it takes, wherever it fails and whatever
-- transactions run beside it. The component lists each table once, leaving cyclic columns out and
-- filling them gives the row, and a transaction
-- that is open at the start, as at the end, has done nothing.
pub drain_component-keeps :
    (n : CyclicColumns) (cyclic : Bool) (tables : List TableRef) (target : TargetId) (batch : ℕ)
    (w : World)
    → AreColumns n
    → is_nodup tables ≡ true
    → IsIdle w
    → IsSynced target w
    → let w' = (drain_component n cyclic tables target batch w).1 in IsSynced target w' × IsIdle w'
unfolding drain_component cyclic_cols
drain_component-keeps n false tables target batch w laws nd idle h =
    (drain_acyclic-keeps tables target batch w h, drain_acyclic-IsIdle tables target batch w idle)
drain_component-keeps n true tables target batch w laws nd idle h =
    let s =
      call-Spec {Q = λ b _. has_cyclic n tables ≡ b} (cyclic_on n tables)
        (IsStable-× (IsSynced-stable target) IsIdle-stable) Any-stable (λ w h p. (h, refl)) in
    let (k, q) = s.at w (h, idle) tt in asked n laws target tables batch nd _ _ k q

-- ===== src/Apply/NullFill/Safety.antt =====
-- The drain of a cyclic component keeps the invariant of replication.
use replicare.Base.{
  ℕ, ◌≡◌, ◌≢◌, ◌⊎◌, true, false, inl, inr, none, some, List, [], ◌∷◌, All, contains, is_nodup,
  ==_cases, arith,
}
use replicare.Engine.{TableRef, table_ref_eq, TargetId, Result, ok, err}
use replicare.Postgres.World.{World, Tx}
use replicare.Postgres.World.Spec.{OnOk}
use replicare.Postgres.World.Synced.{IsSynced}
use replicare.Apply.Pass.{Gathered, Drained, halt}
use replicare.Apply.NullFill.{CyclicColumns, AreColumns, null_fill_gathered, drain_cyclic_null_fill}
use replicare.Apply.NullFill.Standing.{Standing}
use replicare.Apply.NullFill.Steps.{IsKept, IsKept-steady}
use replicare.Apply.NullFill.Apart.{seq_stands, drain_cyclic_null_fill-Standing}
use replicare.Apply.NullFill.Whole.{seq-keeps}
use replicare.Apply.NullFill.Gather.{AroundRef, here_ref, there_ref, work_at, IsGot, gather-keeps}

-- An open transaction has done nothing yet.
abbrev pub IsIdle : World → Type 0
IsIdle w = (x : Tx) → w.tx ≡ some x → (t : TableRef) → (x.view t ≡ w.dst t) × (x.staged t ≡ none)

apart : (t : TableRef) (us : List TableRef) → contains t us ≡ false → All (λ u. t ≢ u) us
apart t [] h = tt
apart t (u ∷ us) h = elim (==_cases t u) [
  | inl (b, e) ↦ absurd (ground (arith, b, h))
  | inr (b, ne) ↦ (ne, apart t us (ground (arith, b, h)))
]

pub occurs :
    (t : TableRef) (us : List TableRef) → is_nodup us ≡ true → All (λ u. t ≢ u) us ⊎ AroundRef t us
occurs t [] h = inl tt
occurs t (u ∷ us) h = elim (==_cases t u) [
  | inl (b, e) ↦ inr (rw e (here_ref us (apart u us (ground arith))))
  | inr (b, ne) ↦ elim (occurs t us (ground arith)) [
    | inl os ↦ inl (ne, os)
    | inr a ↦ inr (there_ref u us ne a)
  ]
]

module _ (n : CyclicColumns) (laws : AreColumns n) (target : TargetId) where
  gathered_keeps :
      (t : TableRef) (r : Result Gathered) (w : World)
      → Standing (IsKept target) t w
      → OnOk (IsGot n target t) r w
      → Standing (IsKept target) t (null_fill_gathered n r target w).1
  gathered_keeps t (err e) w h q = unfold halt in h
  gathered_keeps t (ok ([], total)) w h q = unfold halt in h
  gathered_keeps t (ok (x ∷ xs, total)) w h q = elim q [
    | inl os ↦ seq_stands n (IsKept target) t (IsKept-steady target) (x ∷ xs) target os w h
    | inr (b, cols, a, c) ↦
        seq-keeps n laws target (work_at t b cols) (x ∷ xs) a w
          (record { holds = (c, h.holds.1); aligned = h.aligned })
  ]

  table_kept :
      (t : TableRef) (tables : List TableRef) (batch : ℕ)
      → is_nodup tables ≡ true
      → (w : World) → Standing (IsKept target) t w
      → Standing (IsKept target) t (drain_cyclic_null_fill n tables target batch w).1
  unfolding drain_cyclic_null_fill
  table_kept t tables batch nd w h = elim (occurs t tables nd) [
    | inl os ↦
        drain_cyclic_null_fill-Standing n (IsKept target) t (IsKept-steady target) tables target
          batch os w h
    | inr a ↦
        let (k, q) = (gather-keeps n target t tables batch a).at w h tt in gathered_keeps t _ _ k q
  ]

-- What every table keeps, the world keeps.
pub each_table :
    (target : TargetId) (m : Drained) (w : World)
    → ((t : TableRef) → Standing (IsKept target) t w → Standing (IsKept target) t (m w).1)
    → IsIdle w
    → IsSynced target w
    → IsSynced target (m w).1 × IsIdle (m w).1
each_table target m w keeps idle h =
    let k : (t : TableRef) → Standing (IsKept target) t (m w).1 =
      λ t. keeps t (record { holds = (h.sound t, h.copied t); aligned = λ x e. idle x e t }) in
    (
      record {
        sound = λ t. (k t).holds.0;
        copied = λ t. (k t).holds.1;
        viewed = λ x e t. rw ((k t).aligned x e).0 (k t).holds.1;
      },
      λ x e t. (k t).aligned x e,
    )

-- The NULL-then-fill drain of a cyclic component keeps every row of the target either equal to the
-- source's or pending for the target, wherever it fails and whatever transactions run beside it,
-- though its first phases commit rows without their cyclic columns. The component lists each table
-- once, leaving columns out and filling them gives the row, and a transaction that is open at the
-- start, as at the end, has done nothing.
pub drain_cyclic_null_fill-keeps :
    (n : CyclicColumns) (tables : List TableRef) (target : TargetId) (batch : ℕ) (w : World)
    → AreColumns n
    → is_nodup tables ≡ true
    → IsIdle w
    → IsSynced target w
    → let w' = (drain_cyclic_null_fill n tables target batch w).1 in IsSynced target w' × IsIdle w'
drain_cyclic_null_fill-keeps n tables target batch w laws nd idle h =
    each_table target (drain_cyclic_null_fill n tables target batch) w
      (λ t k. table_kept n laws target t tables batch nd w k) idle h

-- ===== src/Apply/NullFill/Whole.antt =====
-- The drain keeps a table of the component, whatever interleaves and fails.
use replicare.Base.{ℕ, ◌+◌, ◌≢◌, Bool, true, false, Option, none, List, [], ◌∷◌, All, length, ◌&&◌}
use replicare.Engine.{TargetId, Error}
use replicare.Postgres.World.{World, confirm}
use replicare.Apply.Pass.{TableWork, or_halt}
use replicare.Apply.Safety.Drain.{claim_of}
use replicare.Apply.NullFill.{
  CyclicColumns, AreColumns, Marked, confirm_phase, drain_cyclic_null_fill_seq,
}
use replicare.Apply.NullFill.Standing.{Standing, confirm_stands}
use replicare.Apply.NullFill.Own.{Base}
use replicare.Apply.NullFill.Steps.{IsKept, IsKept-steady, confirm_step}
use replicare.Apply.NullFill.Phases.{or_halt_stands, confirm_phase_stands}
use replicare.Apply.NullFill.Around.{
  Around, here, there, reverse-Around, AroundWork, mark, Z, With, Whole, With-steady, Whole-steady,
  leave-With,
}
use replicare.Apply.NullFill.Turns.{
  branch_on, null_phase-keeps, absent_phase-keeps, fill_phase-keeps,
}

module _ (n : CyclicColumns) (laws : AreColumns n) (target : TargetId) (o : TableWork) where
  abbrev kept_rest :
      (ms : List Marked)
      → All (λ x. o.ref ≢ x.work.ref) ms
      → (total : ℕ) (transient : Option Error) (w : World) → Standing (IsKept target) o.ref w
      → Standing (IsKept target) o.ref (confirm_phase n target ms total transient w).1
  kept_rest ms os total transient w h =
      confirm_phase_stands n (IsKept target) o.ref (IsKept-steady target) (λ _. Unit)
        (λ m ms ne k. tt) (Standing (IsKept target) o.ref) (λ w h. h) target ms os total transient w
        h

  confirm_here :
      (u b f : Bool) (ms : List Marked)
      → All (λ x. o.ref ≢ x.work.ref) ms
      → (total : ℕ) (transient : Option Error) (w : World)
      → Standing (With n laws target o (Whole n laws target o (b && f))) o.ref w
      → Z n laws target o
          (confirm_phase n target (mark n laws target o u b f ∷ ms) total transient w).1
  unfolding confirm_phase or_halt
  confirm_here true true true ms os total transient w h =
      let k = leave-With n laws target o (Whole n laws target o true) w h in
      let c = confirm_step target n o w k h.holds.1 in
      or_halt_stands n (IsKept target) o.ref (IsKept-steady target) (λ _. Unit) (λ m ms ne k. tt)
        (Standing (IsKept target) o.ref) (λ w h. h) (confirm o.ref target o.ids w).0
        (confirm_phase n target ms (total + length o.ids) transient) total _ c
        (kept_rest ms os (total + length o.ids) transient _ c)
  confirm_here true true false ms os total transient w h =
      kept_rest ms os total transient w (leave-With n laws target o _ w h)
  confirm_here true false f ms os total transient w h =
      kept_rest ms os total transient w (leave-With n laws target o _ w h)
  confirm_here false b f ms os total transient w h =
      kept_rest ms os total transient w (leave-With n laws target o _ w h)

  confirm_phase-keeps :
      (u b f : Bool) (ms : List Marked)
      → Around (mark n laws target o u b f) ms
      → (total : ℕ) (transient : Option Error) (w : World)
      → Standing (With n laws target o (Whole n laws target o (b && f))) o.ref w
      → Z n laws target o (confirm_phase n target ms total transient w).1
  unfolding confirm_phase
  confirm_phase-keeps u b f _ (here ms os) total transient w h =
      confirm_here u b f ms os total transient w h
  confirm_phase-keeps u b f _ (there x ms ne a) total transient w h =
      let P = Whole n laws target o (b && f) in
      let R = With n laws target o P in
      let steady = With-steady n laws target o P (Whole-steady n laws target o (b && f)) in
      let k = ((confirm_stands R o.ref steady x.work.ref ne target x.work.ids).at w h tt).0 in
      let total' = total + length x.work.ids in
      branch_on n laws target o (x.upserted && (x.deleted && x.filled)) _ _
        (λ z.
          or_halt_stands n R o.ref steady (λ _. Unit) (λ m ms ne k. tt)
            (Standing (IsKept target) o.ref) (leave-With n laws target o P)
            (confirm x.work.ref target x.work.ids w).0 (confirm_phase n target ms total' transient)
            total _ k (confirm_phase-keeps u b f ms a total' transient _ k))
        (λ z. confirm_phase-keeps u b f ms a total transient w h)

  pub seq-keeps :
      (work : List TableWork)
      → AroundWork o work
      → (w : World) → Standing (Base n target (claim_of o)) o.ref w
      → Standing (IsKept target) o.ref (drain_cyclic_null_fill_seq n work target w).1
  unfolding drain_cyclic_null_fill_seq
  seq-keeps work a w h =
      null_phase-keeps n laws target o work [] none _ a tt
        (λ u ms e a1 w1 h1.
          absent_phase-keeps n laws target o u ms [] e _ a1 tt
            (λ b ms e a2 w2 h2.
              fill_phase-keeps n laws target o u b ms [] e _ a2 tt
                (λ f ms e a3 w3 h3.
                  confirm_phase-keeps u b f _
                    (reverse-Around (mark n laws target o u b f) ms [] a3 tt) 0 e w3 h3)
                w2 h2)
            w1 h1)
        w h

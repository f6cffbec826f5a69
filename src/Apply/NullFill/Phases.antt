-- ===== src/Apply/NullFill/Phases.antt =====
-- The phases of the drain over tables other than `t`.
use replicare.Base.{
  ℕ, ◌+◌, ◌≢◌, Bool, true, false, Option, some, List, [], ◌∷◌, Bytes, All, length, ◌&&◌,
  if◌then◌else◌,
}
use replicare.Engine.{
  TableRef, KeyValues, TargetId, Error, transient_constraint, other, is_transient_constraint,
  Result, ok, err,
}
use replicare.Postgres.Capture.{Captured, Action, act}
use replicare.Postgres.World.{World, confirm}
use replicare.Apply.Pass.{TableWork, Outcome, Drained, halt, or_skip, or_halt}
use replicare.Apply.NullFill.{
  CyclicColumns, is_empty, per_table_apply_cyclic, Marked, Next, marked, null_phase, absent_phase,
  fill_phase, confirm_phase,
}
use replicare.Apply.NullFill.Standing.{Standing, confirm_stands}
use replicare.Apply.NullFill.Outside.{table_stands}

module _ (n : CyclicColumns) (R : Captured → (KeyValues → Option Bytes) → Type 0) (t : TableRef)
    (steady : (a : Action) (v : Captured) (d : KeyValues → Option Bytes)
      → R v d
      → R (act a v) d) where
  abbrev pub Outs : List Marked → Type 0
  Outs ms = All (λ m. t ≢ m.work.ref) ms

  abbrev pub Works : List TableWork → Type 0
  Works ts = All (λ w. t ≢ w.ref) ts

  -- `K` is what is known of the tables done, and `Z` follows wherever the drain stops.
  module _ (K : List Marked → Type 0)
      (cons : (m : Marked) (ms : List Marked) → t ≢ m.work.ref → K ms → K (m ∷ ms))
      (Z : World → Type 0) (leave : (w : World) → Standing R t w → Z w) where
    abbrev Hands : Next → Type 0
    Hands next =
        (ms : List Marked) (e : Option Error)
        → K ms
        → (w : World) → Standing R t w
        → Z (next ms e w).1

    pub or_skip_stands :
        (r : Result (Unit {0})) (next : Drained) (skip : Error → Drained) (total : ℕ) (w : World)
        → Standing R t w
        → Z (next w).1
        → ((e : Error) → Z (skip e w).1)
        → Z (or_skip r next skip total w).1
    unfolding or_skip is_transient_constraint
    or_skip_stands (ok a) next skip total w h kn ks = kn
    or_skip_stands (err transient_constraint) next skip total w h kn ks = ks transient_constraint
    or_skip_stands (err (other i)) next skip total w h kn ks = leave w h

    pub branch_stands :
        (b : Bool) (x y : Outcome × World) → Z x.1 → Z y.1 → Z (if b then x else y).1
    branch_stands true x y hx hy = hx
    branch_stands false x y hx hy = hy

    pub null_phase_stands :
        (ts : List TableWork) (acc : List Marked) (transient : Option Error) (next : Next)
        → Works ts
        → K acc
        → Hands next
        → (w : World) → Standing R t w
        → Z (null_phase n ts acc transient next w).1
    unfolding null_phase
    null_phase_stands [] acc transient next os done kn w h = kn acc transient done w h
    null_phase_stands (u ∷ ts) acc transient next os done kn w h =
        let k = ((table_stands n R t steady u false false os.0).at w h tt).0 in
        or_skip_stands (per_table_apply_cyclic n u false false w).0
          (null_phase n ts (marked u true ∷ acc) transient next)
          (λ e. null_phase n ts (marked u false ∷ acc) (some e) next) 0 _ k
          (null_phase_stands ts (marked u true ∷ acc) transient next os.1 (cons _ _ os.0 done) kn _
            k)
          (λ e.
            null_phase_stands ts (marked u false ∷ acc) (some e) next os.1 (cons _ _ os.0 done) kn _
              k)

    pub absent_phase_stands :
        (ms acc : List Marked) (transient : Option Error) (next : Next)
        → Outs ms
        → K acc
        → Hands next
        → (w : World) → Standing R t w
        → Z (absent_phase n ms acc transient next w).1
    unfolding absent_phase
    absent_phase_stands [] acc transient next os done kn w h = kn acc transient done w h
    absent_phase_stands (m ∷ ms) acc transient next os done kn w h =
        let k = ((table_stands n R t steady m.work true false os.0).at w h tt).0 in
        branch_stands m.upserted _ _
          (or_skip_stands (per_table_apply_cyclic n m.work true false w).0
            (absent_phase n ms (record m { deleted = true } ∷ acc) transient next)
            (λ e. absent_phase n ms (m ∷ acc) (some e) next) 0 _ k
            (absent_phase_stands ms (record m { deleted = true } ∷ acc) transient next os.1
              (cons _ _ os.0 done) kn _ k)
            (λ e. absent_phase_stands ms (m ∷ acc) (some e) next os.1 (cons _ _ os.0 done) kn _ k))
          (absent_phase_stands ms (m ∷ acc) transient next os.1 (cons _ _ os.0 done) kn w h)

    pub fill_phase_stands :
        (ms acc : List Marked) (transient : Option Error) (next : Next)
        → Outs ms
        → K acc
        → Hands next
        → (w : World) → Standing R t w
        → Z (fill_phase n ms acc transient next w).1
    unfolding fill_phase
    fill_phase_stands [] acc transient next os done kn w h = kn acc transient done w h
    fill_phase_stands (m ∷ ms) acc transient next os done kn w h =
        let k = ((table_stands n R t steady m.work false true os.0).at w h tt).0 in
        let m' = record m { filled = true } in
        branch_stands (is_empty (n.cols m.work.ref)) _ _
          (fill_phase_stands ms (m' ∷ acc) transient next os.1 (cons _ _ os.0 done) kn w h)
          (branch_stands (m.upserted && m.deleted) _ _
            (or_skip_stands (per_table_apply_cyclic n m.work false true w).0
              (fill_phase n ms (m' ∷ acc) transient next)
              (λ e. fill_phase n ms (m ∷ acc) (some e) next) 0 _ k
              (fill_phase_stands ms (m' ∷ acc) transient next os.1 (cons _ _ os.0 done) kn _ k)
              (λ e. fill_phase_stands ms (m ∷ acc) (some e) next os.1 (cons _ _ os.0 done) kn _ k))
            (fill_phase_stands ms (m ∷ acc) transient next os.1 (cons _ _ os.0 done) kn w h))

    pub or_halt_stands :
        (r : Result (Unit {0})) (next : Drained) (total : ℕ) (w : World)
        → Standing R t w
        → Z (next w).1
        → Z (or_halt r next total w).1
    unfolding or_halt halt
    or_halt_stands (ok a) next total w h k = k
    or_halt_stands (err e) next total w h k = leave w h

    pub confirm_phase_stands :
        (target : TargetId) (ms : List Marked)
        → Outs ms
        → (total : ℕ) (transient : Option Error) (w : World) → Standing R t w
        → Z (confirm_phase n target ms total transient w).1
    unfolding confirm_phase halt
    confirm_phase_stands target [] os total transient w h = leave w h
    confirm_phase_stands target (m ∷ ms) os total transient w h =
        let k = ((confirm_stands R t steady m.work.ref os.0 target m.work.ids).at w h tt).0 in
        let total' = total + length m.work.ids in
        branch_stands (m.upserted && (m.deleted && m.filled)) _ _
          (or_halt_stands (confirm m.work.ref target m.work.ids w).0
            (confirm_phase n target ms total' transient) total _ k
            (confirm_phase_stands target ms os.1 total' transient _ k))
          (confirm_phase_stands target ms os.1 total transient w h)

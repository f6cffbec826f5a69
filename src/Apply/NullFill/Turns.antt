-- ===== src/Apply/NullFill/Turns.antt =====
-- The three phases of the drain over a component that holds table `t` once.
use replicare.Base.{
  ◌≡◌, ◌≢◌, refl, Bool, true, false, Option, some, List, [], ◌∷◌, Bytes, All, ◌&&◌, if◌then◌else◌,
}
use replicare.Engine.{TargetId, Error}
use replicare.Postgres.World.{World}
use replicare.Postgres.World.Spec.{OnOk-any}
use replicare.Apply.Pass.{TableWork, Outcome, or_skip}
use replicare.Apply.NullFill.{
  CyclicColumns, AreColumns, is_empty, per_table_apply_cyclic, Marked, Next, marked, null_phase,
  absent_phase, fill_phase,
}
use replicare.Apply.NullFill.Standing.{Standing}
use replicare.Apply.NullFill.Steps.{null_step, absent_step, fill_step, half-IsFull}
use replicare.Apply.NullFill.Outside.{table_stands}
use replicare.Apply.NullFill.Phases.{
  or_skip_stands, branch_stands, null_phase_stands, absent_phase_stands, fill_phase_stands,
}
use replicare.Apply.NullFill.Around.{
  Around, here, there, AroundWork, here_work, there_work, B, mark, Z, Half, Whole, With,
  Half-steady, Whole-steady, With-steady, gains, forget, or_skip_gains, B_steady, leave_base,
  leave-With, cons-Around,
}

module _ (n : CyclicColumns) (laws : AreColumns n) (target : TargetId) (o : TableWork) where
  pub null_phase-keeps :
      (ts : List TableWork) (acc : List Marked) (transient : Option Error) (next : Next)
      → AroundWork o ts
      → All (λ x. o.ref ≢ x.work.ref) acc
      → ((u : Bool) (ms : List Marked) (e : Option Error)
          → Around (mark n laws target o u false false) ms
          → (w : World) → Standing (B n laws target o) o.ref w
          → (Z n laws target o) (next ms e w).1)
      → (w : World) → Standing (B n laws target o) o.ref w
      → (Z n laws target o) (null_phase n ts acc transient next w).1
  unfolding null_phase
  null_phase-keeps _ acc transient next (here_work ts os) done kn w h =
      let (k, p) = null_step n laws target o w h in
      let rest : (u : Bool) (e : Option Error) (w : World)
          → Standing (B n laws target o) o.ref w
          → (Z n laws target o) (null_phase n ts (marked o u ∷ acc) e next w).1 =
        λ u e w h.
          null_phase_stands n (B n laws target o) o.ref (B_steady n laws target o)
            (Around (mark n laws target o u false false))
            (cons-Around n laws target o (mark n laws target o u false false)) (Z n laws target o)
            (leave_base n laws target o) ts (marked o u ∷ acc) e next os (here acc done) (kn u) w
            h in
      (or_skip_gains n laws target o) (λ _ _. Unit) (per_table_apply_cyclic n o false false w).0
        (null_phase n ts (marked o true ∷ acc) transient next)
        (λ e. null_phase n ts (marked o false ∷ acc) (some e) next) _ k p
        (λ h. rest true transient _ k) (λ e. rest false (some e) _ k)
  null_phase-keeps _ acc transient next (there_work x ts ne a) done kn w h =
      let k =
        ((table_stands n (B n laws target o) o.ref (B_steady n laws target o) x false false ne).at w
          h tt).0 in
      (or_skip_gains n laws target o) (λ _ _. Unit) (per_table_apply_cyclic n x false false w).0
        (null_phase n ts (marked x true ∷ acc) transient next)
        (λ e. null_phase n ts (marked x false ∷ acc) (some e) next) _ k (OnOk-any _ _)
        (λ h. null_phase-keeps ts (marked x true ∷ acc) transient next a (ne, done) kn _ k)
        (λ e. null_phase-keeps ts (marked x false ∷ acc) (some e) next a (ne, done) kn _ k)

  pub absent_phase-keeps :
      (u : Bool) (ms acc : List Marked) (transient : Option Error) (next : Next)
      → Around (mark n laws target o u false false) ms
      → All (λ x. o.ref ≢ x.work.ref) acc
      → ((b : Bool) (ms : List Marked) (e : Option Error)
          → Around (mark n laws target o u b false) ms
          → (w : World) → Standing (With n laws target o (Half n laws target o b)) o.ref w
          → (Z n laws target o) (next ms e w).1)
      → (w : World) → Standing (B n laws target o) o.ref w
      → (Z n laws target o) (absent_phase n ms acc transient next w).1
  unfolding absent_phase
  absent_phase-keeps u _ acc transient next (here ms os) done kn w h =
      let (k, p) = absent_step n laws target o w h in
      let rest : (b : Bool) (e : Option Error) (w : World)
          → Standing (With n laws target o (Half n laws target o b)) o.ref w
          → (Z n laws target o)
              (absent_phase n ms (mark n laws target o u b false ∷ acc) e next w).1 =
        λ b e w h.
          absent_phase_stands n (With n laws target o (Half n laws target o b)) o.ref
            (With-steady n laws target o (Half n laws target o b) (Half-steady n laws target o b))
            (Around (mark n laws target o u b false))
            (cons-Around n laws target o (mark n laws target o u b false)) (Z n laws target o)
            (leave-With n laws target o (Half n laws target o b)) ms
            (mark n laws target o u b false ∷ acc) e next os (here acc done) (kn b) w h in
      branch_stands n (B n laws target o) o.ref (B_steady n laws target o)
        (Around (mark n laws target o u false false))
        (cons-Around n laws target o (mark n laws target o u false false)) (Z n laws target o)
        (leave_base n laws target o) u _ _
        (or_skip_gains n laws target o (Half n laws target o true)
          (per_table_apply_cyclic n o true false w).0
          (absent_phase n ms (mark n laws target o u true false ∷ acc) transient next)
          (λ e. absent_phase n ms (mark n laws target o u false false ∷ acc) (some e) next) _ k p
          (λ h. rest true transient _ h)
          (λ e. rest false (some e) _ (gains n laws target o (Half n laws target o false) _ k tt)))
        (rest false transient w (gains n laws target o (Half n laws target o false) w h tt))
  absent_phase-keeps u _ acc transient next (there x ms ne a) done kn w h =
      let k =
        ((table_stands n (B n laws target o) o.ref (B_steady n laws target o) x.work true false
            ne).at
          w h tt).0 in
      let x' = record x { deleted = true } in
      branch_stands n (B n laws target o) o.ref (B_steady n laws target o)
        (Around (mark n laws target o u false false))
        (cons-Around n laws target o (mark n laws target o u false false)) (Z n laws target o)
        (leave_base n laws target o) x.upserted _ _
        (or_skip_gains n laws target o (Half n laws target o false)
          (per_table_apply_cyclic n x.work true false w).0
          (absent_phase n ms (x' ∷ acc) transient next)
          (λ e. absent_phase n ms (x ∷ acc) (some e) next) _ k (OnOk-any _ _)
          (λ h. absent_phase-keeps u ms (x' ∷ acc) transient next a (ne, done) kn _ k)
          (λ e. absent_phase-keeps u ms (x ∷ acc) (some e) next a (ne, done) kn _ k))
        (absent_phase-keeps u ms (x ∷ acc) transient next a (ne, done) kn w h)

  pub branch_on :
      (b : Bool) (x y : Outcome × World)
      → (b ≡ true → (Z n laws target o) x.1)
      → (b ≡ false → (Z n laws target o) y.1)
      → (Z n laws target o) (if b then x else y).1
  branch_on true x y hx hy = hx refl
  branch_on false x y hx hy = hy refl

  nil : (cs : List Bytes) → is_empty cs ≡ true → cs ≡ []
  nil [] e = refl
  nil (c ∷ cs) e = absurd (cc)

  nothing_to_fill :
      (b : Bool) (w : World)
      → n.cols o.ref ≡ []
      → Standing (With n laws target o (Half n laws target o b)) o.ref w
      → Standing (With n laws target o (Whole n laws target o (b && true))) o.ref w
  nothing_to_fill true w e h =
      (gains n laws target o) (Whole n laws target o true) w
        (forget n laws target o (Half n laws target o true) w h)
        (half-IsFull n laws target o (w.src o.ref) (w.dst o.ref) e h.holds.1)
  nothing_to_fill false w e h =
      (gains n laws target o) (Whole n laws target o false) w
        (forget n laws target o (Half n laws target o false) w h) tt

  not_filled :
      (b : Bool) (w : World)
      → Standing (B n laws target o) o.ref w
      → Standing (With n laws target o (Whole n laws target o (b && false))) o.ref w
  not_filled true w h = (gains n laws target o) (Whole n laws target o false) w h tt
  not_filled false w h = (gains n laws target o) (Whole n laws target o false) w h tt

  module _ (ms acc : List Marked) (next : Next) where
    -- What follows the fill of the table.
    abbrev Follows : Bool → Bool → Type 0
    Follows u b =
        (f : Bool) (e : Option Error) (w : World)
        → Standing (With n laws target o (Whole n laws target o (b && f))) o.ref w
        → (Z n laws target o) (fill_phase n ms (mark n laws target o u b f ∷ acc) e next w).1

    fill_run :
        (u b : Bool) (transient : Option Error)
        → is_empty (n.cols o.ref) ≡ false
        → Follows u b
        → (w : World) → Standing (With n laws target o (Half n laws target o b)) o.ref w
        → (Z n laws target o)
            (if u && b
              then or_skip
                  (per_table_apply_cyclic n o false true w).0
                  (fill_phase n ms (mark n laws target o u b true ∷ acc) transient next)
                  (λ e. fill_phase n ms (mark n laws target o u b false ∷ acc) (some e) next)
                  0
                  (per_table_apply_cyclic n o false true w).1
              else fill_phase n ms (mark n laws target o u b false ∷ acc) transient next w).1
    fill_run true true transient z rest w h =
        let (rows, half) = h.holds.1 in
        let (k, p) =
          fill_step n laws target o rows z w
            (forget n laws target o (Half n laws target o true) w h) half in
        (or_skip_gains n laws target o) (Whole n laws target o true)
          (per_table_apply_cyclic n o false true w).0
          (fill_phase n ms (mark n laws target o true true true ∷ acc) transient next)
          (λ e. fill_phase n ms (mark n laws target o true true false ∷ acc) (some e) next) _ k p
          (λ h. rest true transient _ h) (λ e. rest false (some e) _ (not_filled true _ k))
    fill_run true false transient z rest w h =
        rest false transient w
          (not_filled false w (forget n laws target o (Half n laws target o false) w h))
    fill_run false b transient z rest w h =
        rest false transient w
          (not_filled b w (forget n laws target o (Half n laws target o b) w h))

  pub fill_phase-keeps :
      (u b : Bool) (ms acc : List Marked) (transient : Option Error) (next : Next)
      → Around (mark n laws target o u b false) ms
      → All (λ x. o.ref ≢ x.work.ref) acc
      → ((f : Bool) (ms : List Marked) (e : Option Error)
          → Around (mark n laws target o u b f) ms
          → (w : World) → Standing (With n laws target o (Whole n laws target o (b && f))) o.ref w
          → (Z n laws target o) (next ms e w).1)
      → (w : World) → Standing (With n laws target o (Half n laws target o b)) o.ref w
      → (Z n laws target o) (fill_phase n ms acc transient next w).1
  unfolding fill_phase
  fill_phase-keeps u b _ acc transient next (here ms os) done kn w h =
      let rest : Follows ms acc next u b = λ f e w h.
        fill_phase_stands n (With n laws target o (Whole n laws target o (b && f))) o.ref
          (With-steady n laws target o (Whole n laws target o (b && f))
            (Whole-steady n laws target o (b && f)))
          (Around (mark n laws target o u b f))
          (cons-Around n laws target o (mark n laws target o u b f)) (Z n laws target o)
          (leave-With n laws target o (Whole n laws target o (b && f))) ms
          (mark n laws target o u b f ∷ acc) e next os (here acc done) (kn f) w h in
      branch_on (is_empty (n.cols o.ref)) _ _
        (λ z. rest true transient w (nothing_to_fill b w (nil (n.cols o.ref) z) h))
        (λ z. fill_run ms acc next u b transient z rest w h)
  fill_phase-keeps u b _ acc transient next (there x ms ne a) done kn w h =
      let R = (With n laws target o) (Half n laws target o b) in
      let steady =
        (With-steady n laws target o) (Half n laws target o b) (Half-steady n laws target o b) in
      let k = ((table_stands n R o.ref steady x.work false true ne).at w h tt).0 in
      let x' = record x { filled = true } in
      branch_on (is_empty (n.cols x.work.ref)) _ _
        (λ z. fill_phase-keeps u b ms (x' ∷ acc) transient next a (ne, done) kn w h)
        (λ z.
          branch_on (x.upserted && x.deleted) _ _
            (λ z.
              or_skip_stands n R o.ref steady (Around (mark n laws target o u b false))
                (cons-Around n laws target o (mark n laws target o u b false)) (Z n laws target o)
                (leave-With n laws target o (Half n laws target o b))
                (per_table_apply_cyclic n x.work false true w).0
                (fill_phase n ms (x' ∷ acc) transient next)
                (λ e. fill_phase n ms (x ∷ acc) (some e) next) 0 _ k
                (fill_phase-keeps u b ms (x' ∷ acc) transient next a (ne, done) kn _ k)
                (λ e. fill_phase-keeps u b ms (x ∷ acc) (some e) next a (ne, done) kn _ k))
            (λ z. fill_phase-keeps u b ms (x ∷ acc) transient next a (ne, done) kn w h))

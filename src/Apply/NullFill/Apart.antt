-- ===== src/Apply/NullFill/Apart.antt =====
-- A table outside the component, and the drain as a whole.
use replicare.Base.{ℕ, ◌≢◌, Option, none, List, [], ◌∷◌, Bytes, All}
use replicare.Engine.{TableRef, KeyValues, TargetId, Result, ok, err}
use replicare.Postgres.Capture.{Captured, Action, act}
use replicare.Postgres.World.{World}
use replicare.Postgres.World.Spec.{OnOk}
use replicare.Apply.Pass.{TableWork, Gathered, halt}
use replicare.Apply.NullFill.{
  CyclicColumns, Marked, reverse_marked, drain_cyclic_null_fill_seq, null_fill_gathered,
  drain_cyclic_null_fill,
}
use replicare.Apply.NullFill.Standing.{Standing}
use replicare.Apply.NullFill.Outside.{IsWork, gather_stands}
use replicare.Apply.NullFill.Phases.{
  Outs, Works, null_phase_stands, absent_phase_stands, fill_phase_stands, confirm_phase_stands,
}

module _ (n : CyclicColumns) (R : Captured → (KeyValues → Option Bytes) → Type 0) (t : TableRef)
    (steady : (a : Action) (v : Captured) (d : KeyValues → Option Bytes)
      → R v d
      → R (act a v) d) where
  abbrev F : World → Type 0
  F = Standing R t

  abbrev cons_outs :
      (m : Marked) (ms : List Marked)
      → t ≢ m.work.ref
      → Outs n R t steady ms
      → Outs n R t steady (m ∷ ms)
  cons_outs m ms o os = (o, os)

  abbrev K : List Marked → Type 0
  K = Outs n R t steady

  same : (w : World) → F w → F w
  same w h = h

  reverse-Outs : (ms acc : List Marked) → K ms → K acc → K (reverse_marked ms acc)
  reverse-Outs [] acc os done = done
  reverse-Outs (m ∷ ms) acc os done = reverse-Outs ms (m ∷ acc) os.1 (os.0, done)

  pub seq_stands :
      (work : List TableWork) (target : TargetId)
      → Works n R t steady work
      → (w : World) → F w
      → F (drain_cyclic_null_fill_seq n work target w).1
  unfolding drain_cyclic_null_fill_seq
  seq_stands work target os w h =
      null_phase_stands n R t steady K cons_outs F same work [] none _ os tt
        (λ ms e o w1 h1.
          absent_phase_stands n R t steady K cons_outs F same ms [] e _ o tt
            (λ ms e o w2 h2.
              fill_phase_stands n R t steady K cons_outs F same ms [] e _ o tt
                (λ ms e o w3 h3.
                  confirm_phase_stands n R t steady K cons_outs F same target _
                    (reverse-Outs ms [] o tt) 0 e w3 h3)
                w2 h2)
            w1 h1)
        w h

  gathered_stands :
      (r : Result Gathered) (target : TargetId) (w : World)
      → F w
      → OnOk (IsWork n R t steady) r w
      → F (null_fill_gathered n r target w).1
  gathered_stands (err e) target w h q = unfold halt in h
  gathered_stands (ok ([], total)) target w h q = unfold halt in h
  gathered_stands (ok (u ∷ us, total)) target w h q = seq_stands (u ∷ us) target q w h

  -- A drain of the tables of a component leaves every other table alone, whatever fails and
  -- whatever transactions run beside it: a property of what the source has captured for the table
  -- and of its rows at the target holds afterwards if it held before, provided the program's own
  -- transactions on the source keep it, and an open transaction still has the target's rows of it.
  pub drain_cyclic_null_fill-Standing :
      (tables : List TableRef) (target : TargetId) (batch : ℕ)
      → All (λ u. t ≢ u) tables
      → (w : World) → F w
      → F (drain_cyclic_null_fill n tables target batch w).1
  unfolding drain_cyclic_null_fill
  drain_cyclic_null_fill-Standing tables target batch os w h =
      let (k, q) = (gather_stands n R t steady tables target batch os).at w h tt in
      gathered_stands _ target _ k q

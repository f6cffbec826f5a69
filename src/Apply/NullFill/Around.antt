-- ===== src/Apply/NullFill/Around.antt =====
-- The phases over a component that holds table `t` once: what each leaves of that table.
use replicare.Base.{◌≢◌, Bool, true, false, List, [], ◌∷◌, All}
use replicare.Engine.{
  TargetId, Error, transient_constraint, other, is_transient_constraint, Result, ok, err,
}
use replicare.Postgres.Capture.{Captured, Action, act}
use replicare.Postgres.World.{World}
use replicare.Postgres.World.Spec.{OnOk}
use replicare.Apply.Pass.{TableWork, Drained, or_skip}
use replicare.Apply.Safety.Drain.{claim_of}
use replicare.Apply.NullFill.{CyclicColumns, AreColumns, Marked, reverse_marked}
use replicare.Apply.NullFill.Standing.{Standing}
use replicare.Apply.NullFill.Own.{Copy, Base, Base-steady}
use replicare.Apply.NullFill.Staged.{IsFull, IsFull-steady}
use replicare.Apply.NullFill.Finish.{SomeHalf, SomeHalf-steady}
use replicare.Apply.NullFill.Steps.{IsKept}

-- The table of `m` once, and no other entry of that table.
pub data Around (m : Marked) : List Marked → Type 0 where
  here : (ms : List Marked) → All (λ o. m.work.ref ≢ o.work.ref) ms → Around m (m ∷ ms)
  there :
      (o : Marked) (ms : List Marked) → m.work.ref ≢ o.work.ref → Around m ms → Around m (o ∷ ms)

pub data AroundWork (w : TableWork) : List TableWork → Type 0 where
  here_work : (ts : List TableWork) → All (λ o. w.ref ≢ o.ref) ts → AroundWork w (w ∷ ts)
  there_work :
      (o : TableWork) (ts : List TableWork)
      → w.ref ≢ o.ref
      → AroundWork w ts
      → AroundWork w (o ∷ ts)

prepend-Around :
    (m : Marked) (ms acc : List Marked)
    → All (λ o. m.work.ref ≢ o.work.ref) ms
    → Around m acc
    → Around m (reverse_marked ms acc)
prepend-Around m [] acc os a = a
prepend-Around m (o ∷ ms) acc os a = prepend-Around m ms (o ∷ acc) os.1 (there o acc os.0 a)

pub reverse-Around :
    (m : Marked) (ms acc : List Marked)
    → Around m ms
    → All (λ o. m.work.ref ≢ o.work.ref) acc
    → Around m (reverse_marked ms acc)
reverse-Around m _ acc (here ms os) done = prepend-Around m ms (m ∷ acc) os (here acc done)
reverse-Around m _ acc (there o ms ne a) done = reverse-Around m ms (o ∷ acc) a (ne, done)

module _ (n : CyclicColumns) (laws : AreColumns n) (target : TargetId) (o : TableWork) where
  abbrev pub B : Captured → Copy → Type 0
  B = Base n target (claim_of o)

  abbrev pub mark : Bool → Bool → Bool → Marked
  mark u d f = record { work = o; upserted = u; deleted = d; filled = f }

  abbrev pub Z : World → Type 0
  Z = Standing (IsKept target) o.ref

  pub leave :
      (R : Captured → Copy → Type 0)
      → ((v : Captured) (d : Copy) → R v d → B v d)
      → (w : World) → Standing R o.ref w
      → Z w
  leave R base w h = record {
    holds = let b = base (w.src o.ref) (w.dst o.ref) h.holds in (b.0.sound, b.1);
    aligned = h.aligned;
  }

  -- The second phase gains rows that are current up to cyclic columns, the third current rows.
  abbrev pub Half : Bool → Captured → Copy → Type 0
  Half false v d = Unit
  Half true v d = SomeHalf n laws target (claim_of o) v d

  abbrev pub Whole : Bool → Captured → Copy → Type 0
  Whole false v d = Unit
  Whole true v d = IsFull n target (claim_of o) v d

  abbrev pub With : (Captured → Copy → Type 0) → Captured → Copy → Type 0
  With P v d = B v d × P v d

  pub Half-steady :
      (b : Bool) (a : Action) (v : Captured) (d : Copy) → Half b v d → Half b (act a v) d
  Half-steady false a v d h = tt
  Half-steady true a v d h = SomeHalf-steady n laws target (claim_of o) a v d h

  pub Whole-steady :
      (b : Bool) (a : Action) (v : Captured) (d : Copy) → Whole b v d → Whole b (act a v) d
  Whole-steady false a v d h = tt
  Whole-steady true a v d h = IsFull-steady n target (claim_of o) a v d h

  pub With-steady :
      (P : Captured → Copy → Type 0)
      → ((a : Action) (v : Captured) (d : Copy) → P v d → P (act a v) d)
      → (a : Action) (v : Captured) (d : Copy) → With P v d
      → With P (act a v) d
  With-steady P s a v d h = (Base-steady n target (claim_of o) a v d h.0, s a v d h.1)

  pub gains :
      (P : Captured → Copy → Type 0) (w : World)
      → Standing B o.ref w
      → P (w.src o.ref) (w.dst o.ref)
      → Standing (With P) o.ref w
  gains P w h p = record { holds = (h.holds, p); aligned = h.aligned }

  pub forget :
      (P : Captured → Copy → Type 0) (w : World) → Standing (With P) o.ref w → Standing B o.ref w
  forget P w h = record { holds = h.holds.0; aligned = h.aligned }

  -- One transaction of the table, and what follows it.
  pub or_skip_gains :
      (P : Captured → Copy → Type 0) (r : Result (Unit {0})) (next : Drained)
      (skip : Error → Drained) (w : World)
      → Standing B o.ref w
      → OnOk (λ _ x. P (x.src o.ref) (x.dst o.ref)) r w
      → (Standing (With P) o.ref w → Z (next w).1)
      → ((e : Error) → Z (skip e w).1)
      → Z (or_skip r next skip 0 w).1
  unfolding or_skip is_transient_constraint
  or_skip_gains P (ok a) next skip w h p kn ks = kn (gains P w h p)
  or_skip_gains P (err transient_constraint) next skip w h p kn ks = ks transient_constraint
  or_skip_gains P (err (other i)) next skip w h p kn ks = leave B (λ v d b. b) w h

  abbrev pub B_steady : (a : Action) (v : Captured) (d : Copy) → B v d → B (act a v) d
  B_steady = Base-steady n target (claim_of o)

  pub leave_base : (w : World) → Standing B o.ref w → Z w
  leave_base w h = leave B (λ v d b. b) w h

  pub leave-With : (P : Captured → Copy → Type 0) (w : World) → Standing (With P) o.ref w → Z w
  leave-With P w h = leave (With P) (λ v d b. b.0) w h

  pub cons-Around :
      (m : Marked)
      → (x : Marked) (ms : List Marked) → m.work.ref ≢ x.work.ref
      → Around m ms
      → Around m (x ∷ ms)
  cons-Around m x ms ne a = there x ms ne a

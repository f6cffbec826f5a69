-- ===== src/Apply/NullFill/Steps.antt =====
-- The three phases of one table of the component, and its confirmation.
use replicare.Base.{◌≡◌, inl, inr, Bool, true, false, some, [], ==_refl, Option-cases}
use replicare.Engine.{table_ref_eq, TargetId, ok}
use replicare.Engine.Keys.{key_eq}
use replicare.Postgres.Capture.{Captured, Action, act}
use replicare.Postgres.World.{World, Rows, ◌>>◌, find, confirm_on, confirm, delete_absent}
use replicare.Postgres.World.Spec.{Spec, OnOk, call-Spec, lift-Spec, bind-Spec}
use replicare.Postgres.World.Synced.{Claim, Agrees, IsSound, act-IsSound, act-Agrees}
use replicare.Postgres.World.Calls.{Any}
use replicare.Postgres.World.Calls.Consume.{confirm-IsSound, confirm-Agrees}
use replicare.Apply.Pass.{TableWork}
use replicare.Apply.Safety.Drain.{claim_of}
use replicare.Apply.NullFill.{
  CyclicColumns, AreColumns, is_empty, fill_cyclic, pipe_stage_omitting, when,
  per_table_apply_cyclic,
}
use replicare.Apply.NullFill.Claims.{IsClaimed, act-IsClaimed}
use replicare.Apply.NullFill.Standing.{Standing, Standing-stable}
use replicare.Apply.NullFill.Own.{Copy, Fact, On, On-stable, at_some, Base, G, Seen, transact}
use replicare.Apply.NullFill.Staged.{
  IsHalf, IsFull, IsHalf-steady, IsFull-steady, Entered, Entered-steady, StagedSome, pipe_own,
}
use replicare.Apply.NullFill.Finish.{
  SomeHalf, SomeHalf-steady, BeforeFill, BeforeFill-steady, Old, delete_own, fill_own,
}

module _ (n : CyclicColumns) (laws : AreColumns n) (target : TargetId) (o : TableWork) where
  abbrev c : Claim
  c = claim_of o

  abbrev Nothing : Captured → Type 0
  Nothing v = Unit

  abbrev full : Copy
  full k = some []

  abbrev nothing-steady :
      (a : Action) (v : Captured) → IsClaimed target c v → Nothing v → Nothing (act a v)
  nothing-steady a v h e = tt

  abbrev Whatever : Captured → Copy → Type 0
  Whatever v d = Unit

  abbrev Kept : Captured → Copy → Type 0
  Kept v d = IsClaimed target c v

  abbrev pub ResultIs : (Captured → Copy → Type 0) → Bool → Bool → World → Type 0
  ResultIs P del fill w =
      let (r, w') = per_table_apply_cyclic n o del fill w in
      Standing (Base n target c) o.ref w' × OnOk (λ _ x. P (x.src o.ref) (x.dst o.ref)) r w'

  null_body :
      Spec
        (G n target c)
        (On c.table (Entered n target c Nothing full nothing-steady))
        (pipe_stage_omitting n o.ref o.distinct
          >> (when false (fill_cyclic n) >> when false (delete_absent o.ref o.distinct)))
        (λ _. On c.table (Seen n target c Whatever))
  null_body =
      bind-Spec (pipe_stage_omitting n o.ref o.distinct) _
        (pipe_own n target c Nothing full nothing-steady)
        λ _.
          bind-Spec {Q = λ _. Any} (when false (fill_cyclic n)) _ (lift-Spec (ok tt) λ w p. tt)
            λ _. lift-Spec (ok tt) λ w p x e. tt

  pub null_step : (w : World) → Standing (Base n target c) o.ref w → ResultIs Whatever false false w
  unfolding per_table_apply_cyclic
  null_step w h =
      transact n target c Whatever (λ a v d p. p) (Entered n target c Nothing full nothing-steady)
        (Entered-steady n target c Nothing full nothing-steady) _ null_body Kept
        (λ a v d p. act-IsClaimed target c a v p) (λ w p. (p, tt, λ x e k m z. absurd (cc))) w h
        h.holds.0

  absent_body :
      Spec
        (G n target c)
        (On c.table (Entered n target c Nothing full nothing-steady))
        (pipe_stage_omitting n o.ref o.distinct
          >> (when false (fill_cyclic n) >> when true (delete_absent o.ref o.distinct)))
        (λ _. On c.table (Seen n target c (SomeHalf n laws target c)))
  absent_body =
      bind-Spec (pipe_stage_omitting n o.ref o.distinct) _
        (pipe_own n target c Nothing full nothing-steady)
        λ _.
          bind-Spec {Q = λ _. StagedSome n target c Nothing full nothing-steady}
            (when false (fill_cyclic n)) _ (lift-Spec (ok tt) λ w p. p)
            λ _. delete_own n laws target c Nothing full nothing-steady

  pub absent_step :
      (w : World)
      → Standing (Base n target c) o.ref w
      → ResultIs (SomeHalf n laws target c) true false w
  unfolding per_table_apply_cyclic
  absent_step w h =
      transact n target c (SomeHalf n laws target c) (SomeHalf-steady n laws target c)
        (Entered n target c Nothing full nothing-steady)
        (Entered-steady n target c Nothing full nothing-steady) _ absent_body Kept
        (λ a v d p. act-IsClaimed target c a v p) (λ w p. (p, tt, λ x e k m z. absurd (cc))) w h
        h.holds.0

  module _ (old : Rows) where
    abbrev Begun : Fact
    Begun =
        Entered n target c (BeforeFill n laws target c old) (Old n laws target c old)
          (BeforeFill-steady n laws target c old)

    module _ (cyclic : is_empty (n.cols o.ref) ≡ false) where
      fill_body :
          Spec
            (G n target c)
            (On c.table Begun)
            (pipe_stage_omitting n o.ref o.distinct
              >> (when true (fill_cyclic n) >> when false (delete_absent o.ref o.distinct)))
            (λ _. On c.table (Seen n target c (IsFull n target c)))
      fill_body =
          bind-Spec (pipe_stage_omitting n o.ref o.distinct) _
            (pipe_own n target c (BeforeFill n laws target c old) (Old n laws target c old)
              (BeforeFill-steady n laws target c old))
            λ _.
              bind-Spec (fill_cyclic n) _ (fill_own n laws target c old cyclic)
                λ _. lift-Spec (ok tt) λ w p. p

      pub fill_step :
          (w : World)
          → Standing (Base n target c) o.ref w
          → IsHalf n target c old (w.src o.ref) (w.dst o.ref)
          → ResultIs (IsFull n target c) false true w
      unfolding per_table_apply_cyclic
      fill_step w h half =
          transact n target c (IsFull n target c) (IsFull-steady n target c) Begun
            (Entered-steady n target c (BeforeFill n laws target c old) (Old n laws target c old)
              (BeforeFill-steady n laws target c old))
            _ fill_body (IsHalf n target c old) (IsHalf-steady n target c old)
            (λ w (known, cur, up, low). (known, cur, at_some _ _ low)) w h half

  -- A table without cyclic columns is current after its second phase.
  pub half-IsFull :
      (v : Captured) (d : Copy)
      → n.cols o.ref ≡ []
      → SomeHalf n laws target c v d
      → IsFull n target c v d
  half-IsFull v d e (rows, (known, cur, up, low)) = (
    known,
    λ k m. elim (Option-cases (find k rows)) [
      | inl f ↦ rw (low k m f) (rw f at (cur k m))
      | inr (r, f) ↦ let (q, u) = up k r f in rw (u, laws.whole o.ref r q e) (rw f at (cur k m))
    ],
  )

module _ (target : TargetId) where
  abbrev pub IsKept : Captured → Copy → Type 0
  IsKept v d = IsSound target v × Agrees target d v

  pub IsKept-steady : (a : Action) (v : Captured) (d : Copy) → IsKept v d → IsKept (act a v) d
  IsKept-steady a v d (s, g) = (act-IsSound target a v s, act-Agrees target d a v s g)

  pub confirm_step :
      (n : CyclicColumns) (o : TableWork) (w : World)
      → Standing IsKept o.ref w
      → IsFull n target (claim_of o) (w.src o.ref) (w.dst o.ref)
      → Standing IsKept o.ref (confirm o.ref target o.ids w).1
  unfolding confirm
  confirm_step n o w h full =
      let s =
        call-Spec {P = On o.ref (λ v d _. IsFull n target (claim_of o) v d)} {Q = λ _. Any}
          (confirm_on o.ref target o.ids) (Standing-stable IsKept o.ref IsKept-steady)
          (On-stable o.ref _ (λ a v d _ p. IsFull-steady n target (claim_of o) a v d p))
          (λ w h p. (
            record {
              holds = rw (==_refl o.ref) (
                confirm-IsSound target o.ids (w.src o.ref) p.0.closed h.holds.0,
                confirm-Agrees target o.ids o.distinct (w.src o.ref) (w.dst o.ref) p.0.owns p.1
                    h.holds.1,
              );
              aligned = h.aligned;
            },
            tt,
          )) in
      (s.at w h full).0

-- ===== src/Apply/Component/Atomic.antt =====
-- One transaction over all tables of a component, seen from one of them.
use replicare.Base.{ℕ, ◌≡◌, ◌≢◌, refl, ◌∙◌, some, List, [], All}
use replicare.Engine.{TargetId, Result, ok, err}
use replicare.Engine.Keys.{key_eq}
use replicare.Postgres.Capture.{Captured, Action, act}
use replicare.Postgres.World.{World, Rows, Exec, ◌>>◌, confirm, delete_absent}
use replicare.Postgres.World.Spec.{Spec, OnOk, bind-Spec, Spec-weaken}
use replicare.Postgres.World.Synced.{Claim}
use replicare.Postgres.World.Calls.{Any}
use replicare.Apply.Pass.{in_transaction, TableWork, halt, or_halt}
use replicare.Apply.Safety.Drain.{claim_of, or_halt-keeps}
use replicare.Apply.NullFill.{CyclicColumns, AreColumns, pipe_stage_omitting}
use replicare.Apply.NullFill.Claims.{IsClaimed, act-IsClaimed}
use replicare.Apply.NullFill.Standing.{Standing, confirm_stands}
use replicare.Apply.NullFill.Own.{
  Copy, Fact, IsSteady, On, at_some, Base, Base-steady, IsOwn, G, Seen, transact,
}
use replicare.Apply.NullFill.Staged.{
  IsFull, IsFull-steady, Entered, Entered-steady, Staged, Staged-steady, pipe_own,
}
use replicare.Apply.NullFill.Finish.{SomeHalf, SomeHalf-steady, delete_own}
use replicare.Apply.NullFill.Steps.{half-IsFull, IsKept, IsKept-steady, confirm_step}
use replicare.Apply.NullFill.Around.{AroundWork, here_work, there_work}
use replicare.Apply.Component.{stage_all, delete_all, confirm_all, drain_atomic_work}
use replicare.Apply.Component.Apart.{
  IsLocal, pipe_holds, delete_holds, stage_all_holds, delete_all_holds, confirm_all_stands,
}

module _ (n : CyclicColumns) (laws : AreColumns n) (target : TargetId) (o : TableWork) where
  abbrev c : Claim
  c = claim_of o

  abbrev Nothing : Captured → Type 0
  Nothing v = Unit

  abbrev full : Copy
  full k = some []

  abbrev nothing-steady :
      (a : Action) (v : Captured) → IsClaimed target c v → Nothing v → Nothing (act a v)
  nothing-steady a v h e = tt

  -- The transaction has begun, has the table's rows, has deleted what is gone.
  abbrev Begun : Fact
  Begun = Entered n target c Nothing full nothing-steady

  abbrev Loaded : Fact
  Loaded v d x = (rows : Rows) × Staged n target c Nothing full nothing-steady rows v d x

  abbrev Written : Fact
  Written = Seen n target c (SomeHalf n laws target c)

  Begun-IsLocal : IsLocal o.ref Begun
  Begun-IsLocal v d x y ev es (h, e, low) = (h, e, at_some _ y (λ k m z. rw ev (low x refl k m z)))

  Loaded-steady : IsSteady Loaded
  Loaded-steady a v d x (rows, h) =
      (rows, Staged-steady n target c Nothing full nothing-steady rows a v d x h)

  Loaded-IsLocal : IsLocal o.ref Loaded
  Loaded-IsLocal v d x y ev es (rows, (h, e, cur, s, within)) =
      let (staged, up, low) = s x refl in
      (
        rows,
        (
          h,
          e,
          cur,
          at_some _ y (es ∙ staged, (λ k r f. rw ev (up k r f)), (λ k m f z. rw ev (low k m f z))),
          within,
        ),
      )

  Written-steady : IsSteady Written
  Written-steady a v d x h z e = SomeHalf-steady n laws target c a v (z.view o.ref) (h z e)

  Written-IsLocal : IsLocal o.ref Written
  Written-IsLocal v d x y ev es h = at_some _ y (rw ev (h x refl))

  IsOwn-steady : IsSteady (IsOwn n target c)
  IsOwn-steady a v d x h = (Base-steady n target c a v d h.0, h.1)

  IsOwn-IsLocal : IsLocal o.ref (IsOwn n target c)
  IsOwn-IsLocal v d x y ev es h = (h.0, at_some _ y (λ k m. rw ev (h.1 x refl k m)))

  kept_ok : (Q : World → Type 0) (r : Result (Unit {0})) (w : World) → Q w → OnOk (λ _. Q) r w
  kept_ok Q (ok a) w q = q
  kept_ok Q (err e) w q = tt

  -- Code for other tables keeps the frame and a fact of the table.
  carry :
      (P : Fact) (m : Exec (Unit {0}))
      → IsSteady P
      → IsLocal o.ref P
      → ((Q : Fact) → IsSteady Q → IsLocal o.ref Q → Spec (On o.ref Q) Any m (λ _. Any))
      → Spec (G n target c) (On o.ref P) m (λ _. On o.ref P)
  carry P m steady local s = record {
    at = λ w h p.
        let k =
          ((s (λ v d x. IsOwn n target c v d x × P v d x)
              (λ a v d x q. (IsOwn-steady a v d x q.0, steady a v d x q.1))
              (λ v d x y ev es q. (IsOwn-IsLocal v d x y ev es q.0, local v d x y ev es q.1))).at
            w (h, p) tt).0 in
        (k.0, kept_ok (On o.ref P) (m w).0 (m w).1 k.1);
  }

  stage_all-Loaded :
      (ws : List TableWork)
      → AroundWork o ws
      → Spec (G n target c) (On o.ref Begun) (stage_all n ws) (λ _. On o.ref Loaded)
  unfolding stage_all
  stage_all-Loaded _ (here_work ts os) =
      bind-Spec (pipe_stage_omitting n o.ref o.distinct) _
        (pipe_own n target c Nothing full nothing-steady)
        λ _.
          carry Loaded (stage_all n ts) Loaded-steady Loaded-IsLocal
            (λ Q s l. stage_all_holds n o.ref Q s l ts os)
  stage_all-Loaded _ (there_work x ts ne a) =
      bind-Spec (pipe_stage_omitting n x.ref x.distinct) _
        (carry Begun _ (Entered-steady n target c Nothing full nothing-steady) Begun-IsLocal
          (λ Q s l. pipe_holds n o.ref Q s l x.ref ne x.distinct))
        λ _. stage_all-Loaded ts a

  delete_all-Written :
      (ws : List TableWork)
      → AroundWork o ws
      → Spec (G n target c) (On o.ref Loaded) (delete_all ws) (λ _. On o.ref Written)
  unfolding delete_all
  delete_all-Written _ (here_work ts os) =
      bind-Spec (delete_all ts) _
        (carry Loaded (delete_all ts) Loaded-steady Loaded-IsLocal
          (λ Q s l. delete_all_holds n o.ref Q s l ts os))
        λ _. delete_own n laws target c Nothing full nothing-steady
  delete_all-Written _ (there_work x ts ne a) =
      bind-Spec (delete_all ts) _ (delete_all-Written ts a) λ _.
        carry Written (delete_absent x.ref x.distinct) Written-steady Written-IsLocal
          (λ Q s l. delete_holds n o.ref Q s l x.ref ne x.distinct)

  IsFull-ok :
      n.cols o.ref ≡ []
      → (r : Result (Unit {0})) (w : World) → OnOk (λ _. On o.ref Written) r w
      → OnOk (λ _. On o.ref (Seen n target c (IsFull n target c))) r w
  IsFull-ok z (ok a) w q = λ x e. half-IsFull n laws target o (w.src o.ref) (x.view o.ref) z (q x e)
  IsFull-ok z (err e) w q = tt

  -- The transaction leaves the table as it was, or current.
  atomic_step :
      (ws : List TableWork)
      → AroundWork o ws
      → n.cols o.ref ≡ []
      → (w : World) → Standing (Base n target c) o.ref w
      → let (r, w') = in_transaction (stage_all n ws >> delete_all ws) w in
        Standing (Base n target c) o.ref w'
        × OnOk (λ _ x. IsFull n target c (x.src o.ref) (x.dst o.ref)) r w'
  atomic_step ws a z w h =
      transact n target c (IsFull n target c) (IsFull-steady n target c) Begun
        (Entered-steady n target c Nothing full nothing-steady) _
        (bind-Spec (stage_all n ws) _ (stage_all-Loaded ws a)
          (λ _. Spec-weaken (delete_all ws) (delete_all-Written ws a) (λ w p. p) (IsFull-ok z)))
        (λ v d. IsClaimed target c v) (λ a v d p. act-IsClaimed target c a v p)
        (λ w p. (p, tt, λ x e k m z. absurd (cc))) w h h.holds.0

  confirm_rest :
      (ts : List TableWork)
      → All (λ x. o.ref ≢ x.ref) ts
      → (total : ℕ) (w : World) → Standing (IsKept target) o.ref w
      → Standing (IsKept target) o.ref (confirm_all target ts total w).1
  confirm_rest ts os total w h =
      confirm_all_stands n (IsKept target) o.ref (IsKept-steady target) target ts os total w h

  abbrev Ready : Captured → Copy → Type 0
  Ready v d = Base n target c v d × IsFull n target c v d

  Ready-steady : (a : Action) (v : Captured) (d : Copy) → Ready v d → Ready (act a v) d
  Ready-steady a v d h = (Base-steady n target c a v d h.0, IsFull-steady n target c a v d h.1)

  Ready-kept : (w : World) → Standing Ready o.ref w → Standing (IsKept target) o.ref w
  Ready-kept w h = record { holds = (h.holds.0.0.sound, h.holds.0.1); aligned = h.aligned }

  confirm_all-keeps :
      (ts : List TableWork)
      → AroundWork o ts
      → (total : ℕ) (w : World) → Standing Ready o.ref w
      → Standing (IsKept target) o.ref (confirm_all target ts total w).1
  unfolding confirm_all
  confirm_all-keeps _ (here_work ts os) total w h =
      let k = confirm_step target n o w (Ready-kept w h) h.holds.1 in
      or_halt-keeps (Standing (IsKept target) o.ref) (confirm o.ref target o.ids w).0
        (confirm_all target ts total) total _ k (confirm_rest ts os total _ k)
  confirm_all-keeps _ (there_work x ts ne a) total w h =
      let k = ((confirm_stands Ready o.ref Ready-steady x.ref ne target x.ids).at w h tt).0 in
      or_halt-keeps (Standing (IsKept target) o.ref) (confirm x.ref target x.ids w).0
        (confirm_all target ts total) total _ (Ready-kept _ k) (confirm_all-keeps ts a total _ k)

  after_atomic :
      (r : Result (Unit {0})) (ts : List TableWork)
      → AroundWork o ts
      → (total : ℕ) (w : World) → Standing (Base n target c) o.ref w
      → OnOk (λ _ x. IsFull n target c (x.src o.ref) (x.dst o.ref)) r w
      → Standing (IsKept target) o.ref (or_halt r (confirm_all target ts total) 0 w).1
  unfolding or_halt halt
  after_atomic (ok u) ts a total w h q =
      confirm_all-keeps ts a total w (record { holds = (h.holds, q); aligned = h.aligned })
  after_atomic (err e) ts a total w h q = record {
    holds = (h.holds.0.sound, h.holds.1);
    aligned = h.aligned;
  }

  pub drain_atomic_work-keeps :
      (ts : List TableWork)
      → AroundWork o ts
      → n.cols o.ref ≡ []
      → (total : ℕ) (w : World) → Standing (Base n target c) o.ref w
      → Standing (IsKept target) o.ref (drain_atomic_work n ts total target w).1
  unfolding drain_atomic_work
  drain_atomic_work-keeps ts a z total w h =
      let (k, q) = atomic_step ts a z w h in after_atomic _ ts a total _ k q

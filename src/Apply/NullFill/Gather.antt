-- ===== src/Apply/NullFill/Gather.antt =====
-- Gathering the dirty work, seen from one table of the component.
use replicare.Base.{ℕ, ◌≢◌, ◌⊎◌, inl, inr, List, [], ◌∷◌, Bytes, All}
use replicare.Engine.{TableRef, KeyValues, TargetId, DirtyKey, Result, ok, err}
use replicare.Postgres.World.{World, Exec, read_dirty, read_on}
use replicare.Postgres.World.Spec.{OnOk, Spec, call-Spec, bind-Spec, lift-Spec, Spec-weaken}
use replicare.Postgres.World.Synced.{Claim}
use replicare.Postgres.World.Calls.{Any, Any-stable}
use replicare.Apply.Pass.{TableWork, Gathered, gather_table, gather_work, transport_columns}
use replicare.Apply.Coalesce.{coalesce}
use replicare.Apply.Safety.Drain.{claim_of}
use replicare.Apply.NullFill.{CyclicColumns}
use replicare.Apply.NullFill.Standing.{Standing, Standing-stable, read_stands}
use replicare.Apply.NullFill.Own.{Base, Base-steady}
use replicare.Apply.NullFill.Claims.{IsClaimed}
use replicare.Apply.NullFill.Batch.{read-IsClaimed}
use replicare.Apply.NullFill.Steps.{IsKept, IsKept-steady}
use replicare.Apply.NullFill.Outside.{columns_stands, gather_stands}
use replicare.Apply.NullFill.Around.{AroundWork, here_work, there_work}

-- The table `t` once among `refs`.
pub data AroundRef (t : TableRef) : List TableRef → Type 0 where
  here_ref : (ts : List TableRef) → All (λ u. t ≢ u) ts → AroundRef t (t ∷ ts)
  there_ref : (u : TableRef) (ts : List TableRef) → t ≢ u → AroundRef t ts → AroundRef t (u ∷ ts)

abbrev pub work_at : TableRef → List KeyValues × List ℕ → List Bytes → TableWork
work_at t b cols = record { ref = t; distinct = b.0; ids = b.1; cols = cols }

and_also :
    {A : Type 0} (Q : A → World → Type 0) (X : World → Type 0) (r : Result A) (w : World)
    → OnOk Q r w
    → X w
    → OnOk (λ a w. Q a w × X w) r w
and_also Q X (ok a) w q x = (q, x)
and_also Q X (err e) w q x = tt

OnOk_map :
    {A : Type 0} (Q Q' : A → World → Type 0)
    → ((a : A) (w : World) → Q a w → Q' a w)
    → (r : Result A) (w : World) → OnOk Q r w
    → OnOk Q' r w
OnOk_map Q Q' f (ok a) w q = f a w q
OnOk_map Q Q' f (err e) w q = tt

module _ (n : CyclicColumns) (target : TargetId) (t : TableRef) where
  abbrev F : World → Type 0
  F = Standing (IsKept target) t

  abbrev claim_at : List KeyValues × List ℕ → Claim
  claim_at b = claim_of (work_at t b [])

  -- What was gathered of the table: nothing, or its work with a claim.
  abbrev pub IsGot : Gathered → World → Type 0
  IsGot g w =
      All (λ x. t ≢ x.ref) g.0
      ⊎ ((b : List KeyValues × List ℕ) × (cols : List Bytes) × AroundWork (work_at t b cols) g.0
          × IsClaimed target (claim_at b) (w.src t))

  -- The claim is part of the frame once it is made.
  IsClaimed-frame :
      {A : Type 0} (b : List KeyValues × List ℕ) (m : Exec A) (Q : A → World → Type 0)
      → Spec (Standing (Base n target (claim_at b)) t) Any m Q
      → Spec F
          (λ w. IsClaimed target (claim_at b) (w.src t))
          m
          (λ a w. Q a w × IsClaimed target (claim_at b) (w.src t))
  IsClaimed-frame b m Q s = record {
    at = λ w h p.
        let (k, q) = s.at w (record { holds = (p, h.holds.1); aligned = h.aligned }) tt in
        (
          record { holds = (k.holds.0.sound, k.holds.1); aligned = k.aligned },
          and_also Q (λ w. IsClaimed target (claim_at b) (w.src t)) (m w).0 (m w).1 q k.holds.0,
        );
  }

  read_claims :
      (batch : ℕ)
      → Spec F Any
          (read_dirty t target batch)
          (λ dirty w. IsClaimed target (claim_at (coalesce dirty)) (w.src t))
  unfolding read_dirty
  read_claims batch =
      call-Spec (read_on t target batch) (Standing-stable (IsKept target) t (IsKept-steady target))
        Any-stable λ w h p. (h, read-IsClaimed t (w.src t) target batch h.holds.0)

  gather_own :
      (dirty : List DirtyKey) (refs : List TableRef) (batch : ℕ)
      → All (λ u. t ≢ u) refs
      → Spec F
          (λ w. IsClaimed target (claim_at (coalesce dirty)) (w.src t))
          (gather_table t dirty (gather_work refs target batch))
          IsGot
  unfolding gather_table
  gather_own [] refs batch os =
      Spec-weaken (gather_work refs target batch)
        (gather_stands n (IsKept target) t (IsKept-steady target) refs target batch os) (λ w p. tt)
        (OnOk_map _ IsGot (λ g w q. inl q))
  gather_own (d ∷ ds) refs batch os =
      let b = coalesce (d ∷ ds) in
      let R = Base n target (claim_at b) in
      let steady = Base-steady n target (claim_at b) in
      Spec-weaken _
        (IsClaimed-frame b _ (λ g w. (cols : List Bytes) × AroundWork (work_at t b cols) g.0)
          (bind-Spec (transport_columns t) _ (columns_stands n R t steady t) λ cols.
            bind-Spec (gather_work refs target batch) _
              (gather_stands n R t steady refs target batch os)
              λ more. lift-Spec _ λ w p. (cols, here_work more.0 p)))
        (λ w p. p) (OnOk_map _ IsGot (λ g w ((cols, a), c). inr (b, cols, a, c)))

  gather_beside :
      (u : TableRef) (dirty : List DirtyKey) (rest : Exec Gathered)
      → t ≢ u
      → Spec F Any rest IsGot
      → Spec F Any (gather_table u dirty rest) IsGot
  unfolding gather_table
  gather_beside u [] rest ne s = s
  gather_beside u (d ∷ ds) rest ne s =
      bind-Spec (transport_columns u) _
        (columns_stands n (IsKept target) t (IsKept-steady target) u)
        λ cols. bind-Spec rest _ s λ more. lift-Spec _ λ w p. elim p [
          | inl os ↦ inl (ne, os)
          | inr (b, cols', a, c) ↦ inr (b, cols', there_work _ more.0 ne a, c)
        ]

  pub gather-keeps :
      (refs : List TableRef) (batch : ℕ)
      → AroundRef t refs
      → Spec F Any (gather_work refs target batch) IsGot
  unfolding gather_work
  gather-keeps _ batch (here_ref refs os) =
      bind-Spec (read_dirty t target batch) _ (read_claims batch)
        λ dirty. gather_own dirty refs batch os
  gather-keeps _ batch (there_ref u refs ne a) =
      bind-Spec (read_dirty u target batch) _
        (read_stands (IsKept target) t (IsKept-steady target) u target batch)
        λ dirty.
          gather_beside u dirty (gather_work refs target batch) ne (gather-keeps refs batch a)

-- ===== src/Postgres/Purge/Loop.antt =====
-- The purge loop ends, and leaves nothing that it could delete.
use replicare.Base.{
  ℕ, zero, suc, ◌+◌, ◌<◌, ◌≡◌, refl, ◌∙◌, ap, inl, inr, arith, Bool, ◌&&◌, none, List, [], ◌∷◌, ltb,
  ==_refl, if◌then◌else◌, Bool-cases,
}
use replicare.Engine.{TableRef, table_ref_eq, TargetId, Result}
use replicare.Postgres.Capture.{Entry, is_visible}
use replicare.Postgres.World.{World, call}
use replicare.Postgres.Purge.{purgeable, sweep, sweep_on, purge_consumed_by}

-- Visible deltas in `gone`.
abbrev pub purgeable_rows : (ℕ → Bool) → ℕ → List Entry → ℕ
purgeable_rows gone i [] = 0
purgeable_rows gone i (e ∷ es) =
    (if is_visible e.status && gone i then 1 else 0) + purgeable_rows gone (suc i) es

sweep_counts :
    (n : ℕ) (gone : ℕ → Bool) (i : ℕ) (log : List Entry)
    → (purgeable_rows gone i (sweep n gone i log).0 + (sweep n gone i log).1
        ≡ purgeable_rows gone i log)
      × ((sweep n gone i log).1 < n → purgeable_rows gone i (sweep n gone i log).0 ≡ 0)
unfolding sweep
sweep_counts n gone i [] = (refl, λ h. refl)
sweep_counts zero gone i (e ∷ es) = (omega arith, λ h. absurd (omega (arith, h)))
sweep_counts (suc n) gone i (e ∷ es) = elim (Bool-cases (is_visible e.status && gone i)) [
  | inl p ↦
      let s = sweep_counts n gone (suc i) es in
      rw p (omega (arith, s.0), λ h. omega (arith, s.1 (omega (arith, h))))
  | inr p ↦
      let s = sweep_counts (suc n) gone (suc i) es in
      rw (p, p) (omega (arith, s.0), λ h. omega (arith, s.1 h))
]

call_quiet :
    {A : Type 0} (op : World → Result A × World) (w : World) → w.script ≡ [] → call op w ≡ op w
unfolding call
call_quiet op w calm = rw calm refl

abbrev pub left : TableRef → List TargetId → World → ℕ
left t targets w = purgeable_rows (purgeable (w.src t).track targets) 0 (w.src t).log

module _ (t : TableRef) (targets : List TargetId) (batch : ℕ) where
  abbrev rows_of : World → ℕ
  rows_of w = (sweep batch (purgeable (w.src t).track targets) 0 (w.src t).log).1

  abbrev next : World → World
  next w = (sweep_on t targets batch w).1

  next-left :
      (w : World)
      → (left t targets (next w) + rows_of w ≡ left t targets w)
        × (rows_of w < batch → left t targets (next w) ≡ 0)
  next-left w =
      rw (==_refl t) (sweep_counts batch (purgeable (w.src t).track targets) 0 (w.src t).log)

  abbrev Ends : ℕ → ℕ → World → Type 0
  Ends fuel total w =
      ((purge_consumed_by fuel t targets batch total w).0 ≡ (total + left t targets w, none))
      × (left t targets (purge_consumed_by fuel t targets batch total w).1 ≡ 0)

  step :
      (fuel total : ℕ) (w : World)
      → w.script ≡ []
      → purge_consumed_by (suc fuel) t targets batch total w ≡ (
          if ltb (rows_of w) batch
          then ((total + rows_of w, none), next w)
          else purge_consumed_by fuel t targets batch (total + rows_of w) (next w))
  unfolding purge_consumed_by
  step fuel total w calm = rw (call_quiet (sweep_on t targets batch) w calm) refl

  loop-Ends :
      (fuel total : ℕ) (w : World)
      → 0 < batch
      → w.script ≡ []
      → left t targets w < fuel
      → Ends fuel total w
  loop-Ends zero total w pos calm h = absurd (omega (arith, h))
  loop-Ends (suc fuel) total w pos calm h =
      let (sum, done) = next-left w in
      elim (Bool-cases (ltb (rows_of w) batch)) [
        | inl p ↦
            rw (step fuel total w calm, p)
              (
                ap (λ n. (total + n, none)) (omega (arith, sum, done (ground (arith, p)))),
                done (ground (arith, p)),
              )
        | inr p ↦
            let (e, z) =
              loop-Ends fuel (total + rows_of w) (next w) pos calm
                (ground (arith, p, sum, pos, h)) in
            rw (step fuel total w calm, p) (e ∙ ap (λ n. (n, none)) (omega (arith, sum)), z)
      ]

pub purge_consumed_by-ends :
    (fuel : ℕ) (t : TableRef) (targets : List TargetId) (batch : ℕ) (w : World)
    → 0 < batch
    → w.script ≡ []
    → left t targets w < fuel
    → ((purge_consumed_by fuel t targets batch 0 w).0 ≡ (left t targets w, none))
      × (left t targets (purge_consumed_by fuel t targets batch 0 w).1 ≡ 0)
purge_consumed_by-ends fuel t targets batch w pos calm h =
    let (e, z) = loop-Ends t targets batch fuel 0 w pos calm h in
    (e ∙ ap (λ n. (n, none)) (omega arith), z)

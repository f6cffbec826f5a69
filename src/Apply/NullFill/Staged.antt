-- ===== src/Apply/NullFill/Staged.antt =====
-- The calls of one table's transaction with its cyclic columns left out: the re-read rows are staged,
-- then filled, or the claimed keys without a row are deleted.
use replicare.Base.{◌≡◌, refl, inl, true, Option, none, some, Bytes, contains, update, ==_refl}
use replicare.Engine.{table_ref_eq, KeyValues, TargetId, Error, Result, ok, err}
use replicare.Engine.Keys.{key_eq}
use replicare.Postgres.Capture.{Captured, Action, act}
use replicare.Postgres.World.{World, Tx, Rows, ◌>>=◌, lift, attempt, find, reread_on, reread}
use replicare.Postgres.World.Spec.{Spec, OnOk, call-Spec, lift-Spec, attempt-Spec, bind-Spec}
use replicare.Postgres.World.Synced.{Claim}
use replicare.Postgres.World.Calls.{Any, Any-stable}
use replicare.Postgres.World.Calls.Staging.{Within, find-reread}
use replicare.Apply.Pass.{both_ends}
use replicare.Apply.NullFill.{
  CyclicColumns, omit_into, stage_omitting, stage_omitting_in, stage_omitting_on,
  pipe_stage_omitting,
}
use replicare.Apply.NullFill.Claims.{IsClaimed, IsCurrent, act-IsClaimed, act-IsCurrent}
use replicare.Apply.NullFill.Own.{Copy, Fact, IsSteady, On, On-stable, at_some, G, G-stable, moved}

module _ (n : CyclicColumns) (target : TargetId) (c : Claim) where
  -- Where `g` has no row, `d` has none.
  abbrev pub Low : Copy → Copy → Type 0
  Low g d = (k : KeyValues) → contains k c.keys ≡ true → g k ≡ none → d k ≡ none

  abbrev pub IsUp : Rows → Copy → Type 0
  IsUp rows d =
      (k : KeyValues) (r : Bytes)
      → find k rows ≡ some r
      → (o : Option Bytes) × (d k ≡ some (n.omitting c.table r o))

  -- After the second phase: `rows` are current, and the target has them up to cyclic columns.
  abbrev pub IsHalf : Rows → Captured → Copy → Type 0
  IsHalf rows v d =
      IsClaimed target c v
      × IsCurrent target c (λ k. find k rows) v
      × IsUp rows d
      × Low (λ k. find k rows) d

  -- After the third, the target itself is current.
  abbrev pub IsFull : Captured → Copy → Type 0
  IsFull v d = IsClaimed target c v × IsCurrent target c d v

  pub IsHalf-steady :
      (rows : Rows) (a : Action) (v : Captured) (d : Copy)
      → IsHalf rows v d
      → IsHalf rows (act a v) d
  IsHalf-steady rows a v d (h, cur, up, low) =
      (act-IsClaimed target c a v h, act-IsCurrent target c (λ k. find k rows) a v h cur, up, low)

  pub IsFull-steady : (a : Action) (v : Captured) (d : Copy) → IsFull v d → IsFull (act a v) d
  IsFull-steady a v d (h, cur) = (act-IsClaimed target c a v h, act-IsCurrent target c d a v h cur)

  -- What is known beside: `E` of the source, and where `g` has no row.
  module _ (E : Captured → Type 0) (g : Copy)
      (esteady : (a : Action) (v : Captured) → IsClaimed target c v → E v → E (act a v)) where
    abbrev pub Entered : Fact
    Entered v d o = IsClaimed target c v × E v × ((x : Tx) → o ≡ some x → Low g (x.view c.table))

    abbrev Known : Rows → Fact
    Known rows v d o = Entered v d o × IsCurrent target c (λ k. find k rows) v × Within c.keys rows

    -- The rows are staged and upserted.
    abbrev pub Staged : Rows → Fact
    Staged rows v d o =
        IsClaimed target c v
        × E v
        × IsCurrent target c (λ k. find k rows) v
        × ((x : Tx)
            → o ≡ some x
            → (x.staged c.table ≡ some rows)
              × IsUp rows (x.view c.table)
              × ((k : KeyValues)
                  → contains k c.keys ≡ true
                  → find k rows ≡ none
                  → g k ≡ none
                  → x.view c.table k ≡ none))
        × Within c.keys rows

    pub Entered-steady : IsSteady Entered
    Entered-steady a v d o (h, e, low) = (act-IsClaimed target c a v h, esteady a v h e, low)

    Known-steady : (rows : Rows) → IsSteady (Known rows)
    Known-steady rows a v d o (h, cur, within) =
        (Entered-steady a v d o h, act-IsCurrent target c (λ k. find k rows) a v h.0 cur, within)

    pub Staged-steady : (rows : Rows) → IsSteady (Staged rows)
    Staged-steady rows a v d o (h, e, cur, s, within) = (
      act-IsClaimed target c a v h,
      esteady a v h e,
      act-IsCurrent target c (λ k. find k rows) a v h cur,
      s,
      within,
    )

    reread_own :
        Spec
          (G n target c)
          (On c.table Entered)
          (reread c.table c.keys)
          (λ rows. On c.table (Known rows))
    unfolding reread
    reread_own =
        call-Spec (reread_on c.table c.keys) (G-stable n target c)
          (On-stable c.table Entered Entered-steady)
          λ w h p. (h, (p, (λ k m. inl (rw (find-reread, m))), λ k m. rw (find-reread, m)))

    stage_in_own :
        (rows : Rows) (o : Option Tx) (w : World)
        → w.tx ≡ o
        → G n target c w
        → On c.table (Known rows) w
        → G n target c (stage_omitting_in n c.table rows o w).1
          × OnOk
              (λ _. On c.table (Staged rows))
              (stage_omitting_in n c.table rows o w).0
              (stage_omitting_in n c.table rows o w).1
    stage_in_own rows none w e h p = (h, tt)
    stage_in_own rows (some x) w e h ((known, side, low), cur, within) =
        let view : Copy = λ k. omit_into n c.table (find k rows) (x.view c.table k) in
        let y : Tx = record {
          view = update x.view c.table view;
          staged = update x.staged c.table (some rows);
        } in
        (
          moved n target c w x y e h (λ k m. rw (==_refl c.table, within k m) refl),
          (
            known,
            side,
            cur,
            at_some _ y (
              rw (==_refl c.table) refl,
              (λ k r f. (x.view c.table k, rw (==_refl c.table, f) refl)),
              (λ k m f z. rw (==_refl c.table, f) (low x e k m z)),
            ),
            within,
          ),
        )

    stage_own :
        (rows : Rows)
        → Spec
            (G n target c)
            (On c.table (Known rows))
            (stage_omitting n c.table (ok rows))
            (λ _. On c.table (Staged rows))
    unfolding stage_omitting
    stage_own rows =
        call-Spec (stage_omitting_on n c.table (ok rows)) (G-stable n target c)
          (On-stable c.table (Known rows) (Known-steady rows))
          λ w h p. stage_in_own rows w.tx w refl h p

    stage_failed_own :
        (e : Error) (Q : Unit {0} → World → Type 0)
        → Spec (G n target c) Any (stage_omitting n c.table (err e)) Q
    unfolding stage_omitting
    stage_failed_own e Q =
        call-Spec (stage_omitting_on n c.table (err e)) (G-stable n target c) Any-stable
          λ w h p. (h, tt)

    abbrev pub StagedSome : World → Type 0
    StagedSome w = (rows : Rows) × On c.table (Staged rows) w

    both_ends_own :
        (rows : Rows) (r : Result (Unit {0})) (w : World)
        → OnOk (λ _. On c.table (Staged rows)) r w
        → OnOk (λ _. StagedSome) (both_ends (ok rows) r) w
    unfolding both_ends
    both_ends_own rows (ok a) w p = (rows, p)
    both_ends_own rows (err e) w p = tt

    stage_read_own :
        (r : Result Rows)
        → Spec
            (G n target c)
            (OnOk (λ rows. On c.table (Known rows)) r)
            (attempt (stage_omitting n c.table r) >>= λ s. lift (both_ends r s))
            (λ _. StagedSome)
    stage_read_own (ok rows) =
        bind-Spec (attempt (stage_omitting n c.table (ok rows))) _ (attempt-Spec _ (stage_own rows))
          λ s. lift-Spec (both_ends (ok rows) s) λ w p. both_ends_own rows s w p
    stage_read_own (err e) =
        bind-Spec (attempt (stage_omitting n c.table (err e))) _
          (attempt-Spec _ (stage_failed_own e (λ _. Any)))
          λ s. unfold both_ends in lift-Spec (err e) λ w p. tt

    pub pipe_own :
        Spec
          (G n target c)
          (On c.table Entered)
          (pipe_stage_omitting n c.table c.keys)
          (λ _. StagedSome)
    unfolding pipe_stage_omitting
    pipe_own =
        bind-Spec (attempt (reread c.table c.keys)) _ (attempt-Spec _ reread_own) stage_read_own

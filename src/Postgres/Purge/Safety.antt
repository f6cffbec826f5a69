-- ===== src/Postgres/Purge/Safety.antt =====
-- `Purge` as a whole, with its reads, batches and failures.
use replicare.Base.{
  ℕ, zero, suc, ◌≡◌, refl, inl, inr, arith, Bool, true, false, ◌||◌, Option, none, some, List, [],
  ◌∷◌, bytes_eq, ltb, contains, if◌then◌else◌, Bool-cases,
}
use replicare.Engine.{TableRef, table_ref_eq, TargetId, Error, Result, ok, err}
use replicare.Engine.Keys.{key_eq}
use replicare.Postgres.Capture.{tracked}
use replicare.Postgres.Capture.Pending.{is_set, pending_mono}
use replicare.Postgres.World.{World, lift, call}
use replicare.Postgres.World.Spec.{Spec, call-Spec, lift-Spec, bind-Spec}
use replicare.Postgres.World.Synced.{IsSynced}
use replicare.Postgres.World.Calls.{Any, Any-stable, Frame, Frame-stable}
use replicare.Postgres.Purge.{
  RetentionPolicy, delta_backlog, read_backlogs, weigh_backlogs, find_over_cap, sweep_on,
  after_batch, Purged, purge_consumed_by, reset_track, reset_on, subtract_targets,
  default_purge_batch, Swept, report_purge, after_reset, sacrifice, purge_with, purge,
}
use replicare.Postgres.Purge.Keeps.{sweep_on-IsSynced, replace-IsSynced}

module _ (target : TargetId) where
  abbrev Synced : World → Type 0
  Synced = Frame target []

  module _ {A : Type 0} (read : World → A) where
    look-Spec : Spec Synced Any (call (λ w. (ok (read w), w))) (λ _. Any)
    look-Spec =
        call-Spec (λ w. (ok (read w), w)) (Frame-stable target []) Any-stable λ w h p. (h, tt)

  module _ (age : ℕ → ℕ) (total_bytes : ℕ) (t : TableRef) where
    read_backlogs-Spec :
        (targets : List TargetId)
        → Spec Synced Any (read_backlogs age total_bytes t targets) (λ _. Any)
    unfolding read_backlogs
    read_backlogs-Spec [] = lift-Spec (ok []) λ w p. tt
    read_backlogs-Spec (tg ∷ tgs) =
        bind-Spec _ _ (look-Spec (λ w. delta_backlog age total_bytes (w.src t) tg))
          λ b. bind-Spec _ _ (read_backlogs-Spec tgs) λ rest. lift-Spec _ (λ w p. tt)

    size-Spec :
        (b : Bool)
        → Spec Synced Any (if b then call (λ w. (ok total_bytes, w)) else lift (ok 0)) (λ _. Any)
    size-Spec true = look-Spec (λ w. total_bytes)
    size-Spec false = lift-Spec (ok 0) λ w p. tt

    find_over_cap-Spec :
        (targets : List TargetId) (ret : RetentionPolicy)
        → Spec Synced Any (find_over_cap age total_bytes t targets ret) (λ _. Any)
    unfolding find_over_cap weigh_backlogs
    find_over_cap-Spec targets ret =
        elim (Bool-cases (ltb 0 ret.max_age_seconds || ltb 0 ret.max_bytes)) [
          | inl p ↦ rw p (
              bind-Spec _ _ (read_backlogs-Spec targets)
                λ b. bind-Spec _ _ (size-Spec (ltb 0 ret.max_bytes)) λ s. lift-Spec _ (λ w p. tt))
          | inr p ↦ rw p (lift-Spec (ok []) (λ w p. tt))
        ]

  module _ (t : TableRef) where
    sweep-Spec :
        (targets : List TargetId) (batch : ℕ)
        → contains target targets ≡ true
        → Spec Synced Any (call (sweep_on t targets batch)) (λ _. Any)
    sweep-Spec targets batch m =
        call-Spec (sweep_on t targets batch) (Frame-stable target []) Any-stable
          λ w h p. ((sweep_on-IsSynced target t targets batch w m h.0, tt), tt)

    after_batch-keeps :
        (batch total : ℕ) (r : Result ℕ) (rest : Purged) (w : World)
        → Synced w
        → Synced (rest w).1
        → Synced (after_batch batch total r rest w).1
    after_batch-keeps batch total (err e) rest w h k = h
    after_batch-keeps batch total (ok n) rest w h k = elim (Bool-cases (ltb n batch)) [
      | inl p ↦ rw p h
      | inr p ↦ rw p k
    ]

    purge_consumed_by-keeps :
        (fuel : ℕ) (targets : List TargetId) (batch total : ℕ) (w : World)
        → contains target targets ≡ true
        → Synced w
        → Synced (purge_consumed_by fuel t targets batch total w).1
    unfolding purge_consumed_by
    purge_consumed_by-keeps zero targets batch total w m h = h
    purge_consumed_by-keeps (suc fuel) targets batch total w m h =
        let k = ((sweep-Spec targets batch m).at w h tt).0 in
        after_batch-keeps batch total _ _ _ k (purge_consumed_by-keeps fuel targets batch _ _ m k)

    tracked-reset_track :
        (reseed : List TargetId) (track : List (TargetId × ℕ)) (tg : TargetId) (i : ℕ)
        → tracked (reset_track reseed track) tg i ≡ true
        → tracked track tg i ≡ true
    unfolding tracked
    tracked-reset_track reseed [] tg i h = h
    tracked-reset_track reseed ((u, j) ∷ rest) tg i h =
        ground (arith, tracked-reset_track reseed rest tg i)

    reset_track-is_set :
        (reseed : List TargetId) (track : List (TargetId × ℕ))
        → is_set track ≡ true
        → is_set (reset_track reseed track) ≡ true
    reset_track-is_set reseed [] h = h
    reset_track-is_set reseed ((u, j) ∷ rest) h =
        ground (arith, tracked-reset_track reseed rest u j, reset_track-is_set reseed rest)

    reset-Spec : (reseed : List TargetId) → Spec Synced Any (call (reset_on t reseed)) (λ _. Any)
    reset-Spec reseed = call-Spec (reset_on t reseed) (Frame-stable target []) Any-stable λ w h p.
        let c = w.src t in
        let s = h.0.sound t in
        let less : (i : ℕ)
            → tracked (reset_track reseed c.track) target i ≡ true
            → tracked c.track target i ≡ true =
          λ i. tracked-reset_track reseed c.track target i in
        (
          (
            replace-IsSynced target w t (record c { track = reset_track reseed c.track }) h.0
                (record {
                  closed = λ i q. s.closed i (less i q);
                  valid = s.valid;
                  unique = reset_track-is_set reseed c.track s.unique;
                  captured = s.captured;
                })
                (λ copy old k. elim (old k) [
                  | inl e ↦ inl e
                  | inr q ↦ inr (
                      pending_mono (tracked (reset_track reseed c.track) target)
                        (tracked c.track target) k c.log less q)
                ]),
            tt,
          ),
          tt,
        )

    contains-subtract :
        (targets remove : List TargetId)
        → contains target targets ≡ true
        → contains target remove ≡ false
        → contains target (subtract_targets targets remove) ≡ true
    unfolding subtract_targets
    contains-subtract [] remove m n = m
    contains-subtract (u ∷ us) remove m n =
        ground (arith, bytes_eq.beq_iff target u, contains-subtract us remove)

    reported :
        (reseed : List TargetId) (x : (ℕ × Option Error) × World)
        → (report_purge reseed x).0.0.targets_reseeded ≡ reseed
    reported reseed ((n, none), w) = refl
    reported reseed ((n, some e), w) = refl

    reported_world :
        (reseed : List TargetId) (x : (ℕ × Option Error) × World) → (report_purge reseed x).1 ≡ x.1
    reported_world reseed ((n, none), w) = refl
    reported_world reseed ((n, some e), w) = refl

    after_reset-keeps :
        (r : Result (Unit {0})) (reseed : List TargetId) (rest : Swept) (w : World)
        → Synced w
        → (contains target rest.0.0.targets_reseeded ≡ false → Synced rest.1)
        → contains target (after_reset r reseed rest w).0.0.targets_reseeded ≡ false
        → Synced (after_reset r reseed rest w).1
    after_reset-keeps (err e) reseed rest w h k n = h
    after_reset-keeps (ok a) reseed rest w h k n = k n

    sacrifice-keeps :
        (fuel : ℕ) (targets reseed : List TargetId) (w : World)
        → contains target targets ≡ true
        → Synced w
        → contains target (sacrifice fuel t targets reseed w).0.0.targets_reseeded ≡ false
        → Synced (sacrifice fuel t targets reseed w).1
    unfolding sacrifice
    sacrifice-keeps fuel targets reseed w m h n =
        let k = ((reset-Spec reseed).at w h tt).0 in
        let swept =
          purge_consumed_by fuel t (subtract_targets targets reseed) default_purge_batch 0
            (call (reset_on t reseed) w).1 in
        after_reset-keeps (call (reset_on t reseed) w).0 reseed (report_purge reseed swept) _ k
          (λ q. rw (reported_world reseed swept) (
            purge_consumed_by-keeps fuel (subtract_targets targets reseed) default_purge_batch 0 _
              (contains-subtract targets reseed m (rw (reported reseed swept) at q)) k))
          n

    purge_with-keeps :
        (fuel : ℕ) (targets : List TargetId) (r : Result (List TargetId)) (w : World)
        → contains target targets ≡ true
        → Synced w
        → contains target (purge_with fuel t targets r w).0.0.targets_reseeded ≡ false
        → Synced (purge_with fuel t targets r w).1
    purge_with-keeps fuel targets (err e) w m h n = h
    purge_with-keeps fuel targets (ok []) w m h n =
        purge_consumed_by-keeps fuel targets default_purge_batch 0 w m h
    purge_with-keeps fuel targets (ok (x ∷ xs)) w m h n =
        sacrifice-keeps fuel targets (x ∷ xs) w m h n

-- A purge of a table, whatever runs beside it and wherever it fails, keeps the replication invariant
-- of each configured target that its report does not name as sacrificed.
pub purge-keeps :
    (fuel : ℕ) (age : ℕ → ℕ) (total_bytes : ℕ) (t : TableRef) (targets : List TargetId)
    (ret : RetentionPolicy) (target : TargetId) (w : World)
    → contains target targets ≡ true
    → IsSynced target w
    → contains target (purge fuel age total_bytes t targets ret w).0.0.targets_reseeded ≡ false
    → IsSynced target (purge fuel age total_bytes t targets ret w).1
unfolding purge
purge-keeps fuel age total_bytes t targets ret target w m h n =
    let k = ((find_over_cap-Spec target age total_bytes t targets ret).at w (h, tt) tt).0 in
    (purge_with-keeps target t fuel targets _ _ m k n).0

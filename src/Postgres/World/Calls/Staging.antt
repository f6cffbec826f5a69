-- ===== src/Postgres/World/Calls/Staging.antt =====
-- One transaction of the target: re-read, stage, delete what is absent, commit.
use replicare.Base.{
  ◌≡◌, refl, inl, inr, false, Option, none, some, List, [], ◌∷◌, Bytes, contains, update, ==_refl,
  if◌then◌else◌, Bool-cases, Option-cases, arith,
}
use replicare.Engine.{TableRef, table_ref_eq, Error, KeyValues, TargetId, ok, err}
use replicare.Engine.Keys.{key_eq}
use replicare.Postgres.Capture.{tracked, reread_current}
use replicare.Postgres.Capture.Pending.{Covered, pending_mono}
use replicare.Postgres.World.{
  World, Tx, Rows, find, upsert, delete_others, stage_in, stage_on, delete_in, delete_on, commit_in,
  commit_on, begin_on, reread_on, begin_apply, reread, stage_upsert, delete_absent, commit_apply,
}
use replicare.Postgres.World.Spec.{OnOk, Spec, call-Spec}
use replicare.Postgres.World.Synced.{IsSynced, Agrees, Claim, at_update}
use replicare.Postgres.World.Calls.Facts.{
  Any, Any-stable, Frame, Frame-stable, seen, Kept, Kept-stable, Current, Fact, Fact-stable,
}
use replicare.Postgres.World.Calls.Lifecycle.{IsSynced-tx}

pub find-reread :
    (rows : KeyValues → Option Bytes) (ks : List KeyValues) (k : KeyValues)
    → find k (reread_current rows ks) ≡ (if contains k ks then rows k else none)
unfolding reread_current
find-reread rows [] k = refl
find-reread rows (j ∷ ks) k =
    ground (arith, key_eq.beq_iff k j, key_eq.beq_iff j k, find-reread rows ks k)

-- The re-read rows: only claimed keys, and no staging yet.
abbrev pub Within : List KeyValues → Rows → Type 0
Within keys rows = (k : KeyValues) → contains k keys ≡ false → find k rows ≡ none

abbrev pub IsStaged : TableRef → Rows → Option Tx → Type 0
IsStaged t rows tx =
    (x : Tx) × (tx ≡ some x)
    × (x.staged t ≡ some rows)
    × ((k : KeyValues) (r : Bytes) → find k rows ≡ some r → x.view t k ≡ some r)

abbrev pub view_of : TableRef → Option Tx → KeyValues → Option Bytes
view_of t none k = none
view_of t (some x) k = x.view t k

module _ (target : TargetId) (c : Claim) where
  abbrev pub IsRead : Rows → World → Type 0
  IsRead rows = Fact target c (λ _ _ k. find k rows) (λ _ _. Within c.keys rows)

  abbrev pub IsUpserted : Rows → World → Type 0
  IsUpserted rows =
      Fact target c (λ _ _ k. find k rows) (λ tx _. Within c.keys rows × IsStaged c.table rows tx)

  abbrev pub IsWritten : World → Type 0
  IsWritten = Fact target c (λ tx _. view_of c.table tx) (λ _ _. Unit)

  abbrev pub IsLanded : World → Type 0
  IsLanded = Fact target c (λ _ dst. dst c.table) (λ tx _. tx ≡ none)

module _ (target : TargetId) (cs : List Claim) (c : Claim) where
  -- What is current for the target with the claim confirmed is covered without it.
  weaken :
      (w : World) (v : Option Bytes) (k : KeyValues)
      → Covered (seen target c w) v k (w.src c.table)
      → Covered (tracked (w.src c.table).track target) v k (w.src c.table)
  weaken w v k (inl e) = inl e
  weaken w v k (inr p) = inr (
      pending_mono (tracked (w.src c.table).track target) (seen target c w) k (w.src c.table).log
        (λ i s. rw s) p)

  reread-Within : (rows : KeyValues → Option Bytes) → Within c.keys (reread_current rows c.keys)
  reread-Within rows k n = rw (find-reread, n)

  pub reread-Spec : Spec (Frame target cs) (Kept target c) (reread c.table c.keys) (IsRead target c)
  unfolding reread
  reread-Spec =
      call-Spec (reread_on c.table c.keys) (Frame-stable target cs) (Kept-stable target c)
        λ w h p. (h, (p, (λ k m. inl (rw (find-reread, m))), reread-Within (w.src c.table).rows))

  module _ (w : World) (view : KeyValues → Option Bytes) (rows : Rows) where
    upsert-Agrees :
        Agrees target view (w.src c.table)
        → IsRead target c rows w
        → Agrees target (upsert rows view) (w.src c.table)
    upsert-Agrees old p k = elim (Option-cases (find k rows)) [
      | inl n ↦ rw n (old k)
      | inr (r, s) ↦ elim (Bool-cases (contains k c.keys)) [
        | inl m ↦ rw s (weaken w (some r) k (rw s at (p.1 k m)))
        | inr m ↦ absurd (cc (s, p.2 k m))
      ]
    ]

    delete-Agrees :
        Agrees target view (w.src c.table)
        → IsRead target c rows w
        → Agrees target (delete_others c.keys rows view) (w.src c.table)
    delete-Agrees old p k = elim (Bool-cases (contains k c.keys)) [
      | inr m ↦ rw m (old k)
      | inl m ↦ elim (Option-cases (find k rows)) [
        | inl n ↦ rw (m, n) (weaken w none k (rw n at (p.1 k m)))
        | inr (r, s) ↦ rw (m, s) (old k)
      ]
    ]

  -- What was read before BEGIN is as current after it.
  pub begin-IsRead-Spec :
      (rows : Rows)
      → Spec (Frame target cs) (IsRead target c rows) begin_apply (λ _. IsRead target c rows)
  unfolding begin_apply
  begin-IsRead-Spec rows =
      call-Spec begin_on (Frame-stable target cs) (Fact-stable target c _ _) λ w h p.
        let s =
          IsSynced-tx target cs w (record { view = w.dst; staged = λ _. none }) h.0 h.0.copied in
        ((s, h.1), ((s, p.0.1), p.1, p.2))

  stage_keeps :
      (rows : Rows) (o : Option Tx) (w : World)
      → w.tx ≡ o
      → Frame target cs w
      → IsRead target c rows w
      → Frame target cs (stage_in c.table rows o w).1
        × OnOk
            (λ _. IsUpserted target c rows)
            (stage_in c.table rows o w).0
            (stage_in c.table rows o w).1
  stage_keeps rows none w e h p = (h, tt)
  stage_keeps rows (some x) w e h p =
      let view = upsert rows (x.view c.table) in
      let x' : Tx = record {
        view = update x.view c.table view;
        staged = update x.staged c.table (some rows);
      } in
      let synced = IsSynced-tx target cs w x' h.0 (
        at_update (λ u copy. Agrees target copy (w.src u)) x.view c.table view
          (upsert-Agrees w (x.view c.table) rows (h.0.viewed x e c.table) p) (h.0.viewed x e)) in
      (
        (synced, h.1),
        (
          (synced, p.0.1),
          p.1,
          (p.2, (x', refl, rw (==_refl c.table), λ k r f. rw (==_refl c.table, f))),
        ),
      )

  pub stage-Spec :
      (rows : Rows)
      → Spec
          (Frame target cs)
          (IsRead target c rows)
          (stage_upsert c.table (ok rows))
          (λ _. IsUpserted target c rows)
  unfolding stage_upsert
  stage-Spec rows =
      call-Spec (stage_on c.table (ok rows)) (Frame-stable target cs) (Fact-stable target c _ _)
        λ w h p. stage_keeps rows w.tx w refl h p

  pub stage_failed-Spec :
      (Q : Unit {0} → World → Type 0) (e : Error)
      → Spec (Frame target cs) Any (stage_upsert c.table (err e)) Q
  unfolding stage_upsert
  stage_failed-Spec Q e =
      call-Spec (stage_on c.table (err e)) (Frame-stable target cs) Any-stable λ w h p. (h, tt)

  view-Current :
      (w : World) (view : KeyValues → Option Bytes) (rows : Rows)
      → Current target c (λ k. find k rows) w
      → ((k : KeyValues) (r : Bytes) → find k rows ≡ some r → view k ≡ some r)
      → Current target c (delete_others c.keys rows view) w
  view-Current w view rows cur written k m = elim (Option-cases (find k rows)) [
    | inl n ↦ rw (m, n) (rw n at (cur k m))
    | inr (r, s) ↦ rw (m, s, written k r s) (rw s at (cur k m))
  ]

  delete_keeps :
      (rows : Rows) (o : Option Tx) (w : World)
      → w.tx ≡ o
      → Frame target cs w
      → IsUpserted target c rows w
      → Frame target cs (delete_in c.table c.keys o w).1
        × OnOk
            (λ _. IsWritten target c)
            (delete_in c.table c.keys o w).0
            (delete_in c.table c.keys o w).1
  delete_keeps rows none w e h p = (h, tt)
  delete_keeps rows (some x) w e h (kept, cur, (within, (y, q, staged, written))) =
      let view = delete_others c.keys rows (x.view c.table) in
      let x' : Tx = record x { view = update x.view c.table view } in
      let old = h.0.viewed x e in
      let synced = IsSynced-tx target cs w x' h.0 (
        at_update (λ u copy. Agrees target copy (w.src u)) x.view c.table view
          (delete-Agrees w (x.view c.table) rows (old c.table) (kept, cur, within)) old) in
      let s : x.staged c.table ≡ some rows = cc in
      let written' : (k : KeyValues) (r : Bytes)
          → find k rows ≡ some r
          → x.view c.table k ≡ some r =
        λ k r f. let p : x.view c.table k ≡ y.view c.table k = cc in rw p (written k r f) in
      rw s (
        (synced, h.1),
        (
          (synced, kept.1),
          (λ k m. rw (==_refl c.table) (view-Current w (x.view c.table) rows cur written' k m)),
          tt,
        ),
      )

  pub delete-Spec :
      (rows : Rows)
      → Spec
          (Frame target cs)
          (IsUpserted target c rows)
          (delete_absent c.table c.keys)
          (λ _. IsWritten target c)
  unfolding delete_absent
  delete-Spec rows =
      call-Spec (delete_on c.table c.keys) (Frame-stable target cs) (Fact-stable target c _ _)
        λ w h p. delete_keeps rows w.tx w refl h p

  land_keeps :
      (o : Option Tx) (w : World)
      → w.tx ≡ o
      → Frame target cs w
      → Kept target c w
      → Current target c (view_of c.table o) w
      → Frame target cs (commit_in o w).1
        × OnOk (λ _. IsLanded target c) (commit_in o w).0 (commit_in o w).1
  land_keeps none w e h p cur = (h, tt)
  land_keeps (some x) w e h p cur =
      let synced : IsSynced target (record w { dst = x.view; tx = none }) = record {
        sound = h.0.sound;
        copied = h.0.viewed x e;
        viewed = λ y q. cc;
      } in
      ((synced, h.1), ((synced, p.1), cur, refl))

  pub land-Spec : Spec (Frame target cs) (IsWritten target c) commit_apply (λ _. IsLanded target c)
  unfolding commit_apply
  land-Spec =
      call-Spec commit_on (Frame-stable target cs) (Fact-stable target c _ _)
        λ w h p. land_keeps w.tx w refl h p.0 p.1

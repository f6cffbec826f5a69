-- ===== src/Apply/NullFill/Finish.antt =====
-- The three phases of one table of the component, each a transaction.
use replicare.Base.{
  ◌≡◌, refl, inl, inr, true, false, Option, none, some, List, Bytes, contains, update, ==_refl,
  Bool-cases, Option-cases,
}
use replicare.Engine.{TableRef, table_ref_eq, KeyValues, TargetId}
use replicare.Engine.Keys.{key_eq}
use replicare.Postgres.Capture.{Captured, Action, act}
use replicare.Postgres.World.{
  World, Tx, Rows, find, delete_others, delete_in, delete_staged, delete_on, delete_absent,
}
use replicare.Postgres.World.Spec.{Spec, IsStable, OnOk, call-Spec}
use replicare.Postgres.World.Synced.{Claim}
use replicare.Apply.NullFill.{
  CyclicColumns, AreColumns, is_empty, fill_row, fill_table, fill_cyclic, fill_in, fill_on,
}
use replicare.Apply.NullFill.Claims.{IsClaimed, IsCurrent, act-IsCurrent}
use replicare.Apply.NullFill.Own.{Copy, On, On-stable, at_some, G, G-stable, Seen, moved}
use replicare.Apply.NullFill.Staged.{
  IsUp, IsHalf, IsFull, IsHalf-steady, Staged, Staged-steady, StagedSome,
}

delete_others-found :
    (keys : List KeyValues) (rows : Rows) (d : Copy) (k : KeyValues) (r : Bytes)
    → find k rows ≡ some r
    → delete_others keys rows d k ≡ d k
delete_others-found keys rows d k r f = elim (Bool-cases (contains k keys)) [
  | inl m ↦ rw (m, f) refl
  | inr m ↦ rw m refl
]

module _ (n : CyclicColumns) (laws : AreColumns n) (target : TargetId) (c : Claim) where
  abbrev pub SomeHalf : Captured → Copy → Type 0
  SomeHalf v d = (rows : Rows) × IsHalf n target c rows v d

  pub SomeHalf-steady : (a : Action) (v : Captured) (d : Copy) → SomeHalf v d → SomeHalf (act a v) d
  SomeHalf-steady a v d (rows, h) = (rows, IsHalf-steady n target c rows a v d h)

  module _ (E : Captured → Type 0) (g : Copy)
      (esteady : (a : Action) (v : Captured) → IsClaimed target c v → E v → E (act a v)) where
    pub StagedSome-stable : IsStable (StagedSome n target c E g esteady)
    StagedSome-stable = record {
      on_action = λ x w (rows, h).
          (rows, (On-stable c.table _ (Staged-steady n target c E g esteady rows)).on_action x w h);
      on_turn = λ s w h. h;
    }

    delete_staged_own :
        (rows : Rows) (x : Tx) (o : Option Rows) (w : World)
        → w.tx ≡ some x
        → x.staged c.table ≡ o
        → G n target c w
        → On c.table (Staged n target c E g esteady rows) w
        → G n target c (delete_staged c.table c.keys x o w).1
          × OnOk
              (λ _ w'. On c.table (Seen n target c SomeHalf) w')
              (delete_staged c.table c.keys x o w).0
              (delete_staged c.table c.keys x o w).1
    delete_staged_own rows x none w e s h p = (h, tt)
    delete_staged_own rows x (some rows') w e s h (known, side, cur, st, within) =
        let q : rows' ≡ rows = cc (s, (st x e).0) in
        let y : Tx = record x {
          view = update x.view c.table (delete_others c.keys rows' (x.view c.table));
        } in
        (
          moved n target c w x y e h (λ k m. rw (==_refl c.table, m) refl),
          (at_some (λ z. SomeHalf (w.src c.table) (z.view c.table)) y
              (
                rows,
                (
                  known,
                  cur,
                  (λ k r f.
                      let (o, u) = (st x e).1 k r f in
                      (
                        o,
                        rw
                            (
                              ==_refl c.table,
                              q,
                              delete_others-found c.keys rows (x.view c.table) k r f,
                            )
                            u,
                      )),
                  (λ k m f. rw (==_refl c.table, q, m, f) refl),
                ),
              )),
        )

    delete_in_own :
        (rows : Rows) (o : Option Tx) (w : World)
        → w.tx ≡ o
        → G n target c w
        → On c.table (Staged n target c E g esteady rows) w
        → G n target c (delete_in c.table c.keys o w).1
          × OnOk
              (λ _ w'. On c.table (Seen n target c SomeHalf) w')
              (delete_in c.table c.keys o w).0
              (delete_in c.table c.keys o w).1
    delete_in_own rows none w e h p = (h, tt)
    delete_in_own rows (some x) w e h p = delete_staged_own rows x (x.staged c.table) w e refl h p

    pub delete_own :
        Spec
          (G n target c)
          (StagedSome n target c E g esteady)
          (delete_absent c.table c.keys)
          (λ _ w'. On c.table (Seen n target c SomeHalf) w')
    unfolding delete_absent
    delete_own =
        call-Spec (delete_on c.table c.keys) (G-stable n target c) StagedSome-stable
          λ w h (rows, p). delete_in_own rows w.tx w refl h p

  -- The cyclic columns come back with the staged row.
  fill_row-staged :
      (t : TableRef) (r : Bytes) (o : Option Bytes) (d : Option Bytes)
      → d ≡ some (n.omitting t r o)
      → fill_row n t (some r) d ≡ some r
  fill_row-staged t r o d e = rw e (rw (laws.restored t r o) refl)

  module _ (old : Rows) where
    abbrev pub BeforeFill : Captured → Type 0
    BeforeFill v = IsCurrent target c (λ k. find k old) v

    pub BeforeFill-steady :
        (a : Action) (v : Captured) → IsClaimed target c v → BeforeFill v → BeforeFill (act a v)
    BeforeFill-steady a v h cur = act-IsCurrent target c (λ k. find k old) a v h cur

    abbrev pub Old : Copy
    Old k = find k old

    -- The filled table is current: a row that is gone since it was written is pending.
    filled-IsCurrent :
        (rows : Rows) (v : Captured) (d : Copy)
        → BeforeFill v
        → IsCurrent target c (λ k. find k rows) v
        → IsUp n target c rows d
        → ((k : KeyValues)
            → contains k c.keys ≡ true
            → find k rows ≡ none
            → find k old ≡ none
            → d k ≡ none)
        → IsCurrent target c (λ k. fill_row n c.table (find k rows) (d k)) v
    filled-IsCurrent rows v d was cur up low k m = elim (Option-cases (find k rows)) [
      | inr (r, f) ↦
          let (o, u) = up k r f in rw (f, fill_row-staged c.table r o (d k) u) (rw f at (cur k m))
      | inl f ↦ rw f (elim (cur k m) [
        | inr p ↦ inr p
        | inl e ↦ elim (was k m) [
          | inr p ↦ inr p
          | inl e' ↦ let z : find k old ≡ none = cc in let dz = low k m f z in inl (cc)
        ]
      ])
    ]

    module _ (cyclic : is_empty (n.cols c.table) ≡ false) where
      fill_in_own :
          (rows : Rows) (o : Option Tx) (w : World)
          → w.tx ≡ o
          → G n target c w
          → On c.table (Staged n target c BeforeFill Old BeforeFill-steady rows) w
          → G n target c (fill_in n o w).1
            × OnOk
                (λ _ w'. On c.table (Seen n target c (IsFull n target c)) w')
                (fill_in n o w).0
                (fill_in n o w).1
      fill_in_own rows none w e h p = (h, tt)
      fill_in_own rows (some x) w e h (known, was, cur, st, within) =
          let y : Tx = record x { view = λ t. fill_table n t (x.staged t) (x.view t) } in
          let s = (st x e).0 in
          (
            moved n target c w x y e h (λ k m. rw (s, cyclic, within k m) refl),
            at_some (λ z. IsFull n target c (w.src c.table) (z.view c.table)) y
                (
                  known,
                  λ k m.
                      rw (s, cyclic)
                        (filled-IsCurrent rows (w.src c.table) (x.view c.table) was cur (st x e).1
                          (st x e).2 k m),
                ),
          )

      pub fill_own :
          Spec
            (G n target c)
            (StagedSome n target c BeforeFill Old BeforeFill-steady)
            (fill_cyclic n)
            (λ _ w'. On c.table (Seen n target c (IsFull n target c)) w')
      unfolding fill_cyclic
      fill_own =
          call-Spec (fill_on n) (G-stable n target c)
            (StagedSome-stable BeforeFill Old BeforeFill-steady)
            λ w h (rows, p). fill_in_own rows w.tx w refl h p

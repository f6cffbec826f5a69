-- ===== src/Preflight/Cyclic/Exact.antt =====
-- `classifyCyclicFKs` of internal/engine/postgres/cyclicfk.go lists the foreign keys on a cycle.
use replicare.Base.{
  ◌≡◌, refl, sym, ap, ◌∙◌, ◌↔◌, inl, inr, Bool, true, ◌&&◌, List, [], ◌∷◌, Listed, ==_cases,
  Bool-cases, Listed-sort_by, arith, bytes_eq,
}
use replicare.Engine.{TableRef, table_ref_eq, Table, ForeignKey}
use replicare.Graph.{keys_of}
use replicare.Preflight.Cyclic.{
  Arrow, any_child_col_nullable, on_cycle, cyclic_among, CyclicFk, classify_one,
  classify_cyclic_fks, adjacency, selected, key_before,
}
use replicare.Preflight.Cyclic.Chains.{
  strategy_of, IsCyclic, any_child-HasNullable, same_bool, classify_one-strategy, Chain-Leads,
  Leads-Chain,
}
use replicare.Preflight.Cyclic.Reach.{Leads, here, reachable-Leads}

on_cycle-Leads :
    (adj : List Arrow) (fk : ForeignKey) → (on_cycle adj fk ≡ true) ↔ Leads adj fk.parent fk.child
unfolding on_cycle
on_cycle-Leads adj fk =
    let (of, to) = reachable-Leads adj fk.parent fk.child in
    (
      λ h. elim (==_cases fk.child fk.parent) [
        | inl (_, e) ↦ rw e (here fk.parent)
        | inr (p, _) ↦ of (rw p at h)
      ],
      λ l. ground (arith, to l),
    )

module _ (in_sel : TableRef → Bool) (adj : List Arrow) (tables : List Table) where
  abbrev Chosen : List ForeignKey → CyclicFk → Type 0
  Chosen fks c =
      (fk : ForeignKey) × Listed fk fks
      × (in_sel fk.parent ≡ true)
      × Leads adj fk.parent fk.child
      × (c ≡ classify_one fk tables)

  later :
      (fk : ForeignKey) (fks : List ForeignKey) (c : CyclicFk) → Chosen fks c → Chosen (fk ∷ fks) c
  later fk fks c (g, l, s, leads, e) = (g, inr l, s, leads, e)

  among-of :
      (fks : List ForeignKey) (c : CyclicFk)
      → Listed c (cyclic_among in_sel adj tables fks)
      → Chosen fks c
  unfolding cyclic_among
  among-of [] c h = elim h [ ]
  among-of (fk ∷ fks) c h = elim (Bool-cases (in_sel fk.parent && on_cycle adj fk)) [
    | inr p ↦ later fk fks c (among-of fks c (rw p at h))
    | inl p ↦ elim (rw p at h) [
      | inl e ↦ (fk, inl refl, ground arith, (on_cycle-Leads adj fk).0 (ground arith), e)
      | inr k ↦ later fk fks c (among-of fks c k)
    ]
  ]

  among-to :
      (fks : List ForeignKey) (fk : ForeignKey)
      → Listed fk fks
      → in_sel fk.parent ≡ true
      → Leads adj fk.parent fk.child
      → Listed (classify_one fk tables) (cyclic_among in_sel adj tables fks)
  unfolding cyclic_among
  among-to [] fk h s l = elim h [ ]
  among-to (g ∷ fks) fk (inl e) s l =
      let p : (in_sel g.parent && on_cycle adj g) ≡ true =
        rw (← e) (ground (arith, (on_cycle-Leads adj fk).1 l)) in
      rw p (inl (rw e refl))
  among-to (g ∷ fks) fk (inr h) s l = elim (Bool-cases (in_sel g.parent && on_cycle adj g)) [
    | inl p ↦ rw p (inr (among-to fks fk h s l))
    | inr p ↦ rw p (among-to fks fk h s l)
  ]

same_fields :
    (a b : CyclicFk) → a.fk ≡ b.fk → a.nullable ≡ b.nullable → a.strategy ≡ b.strategy → a ≡ b
same_fields a b p q r = λ i. record { fk = p i; strategy = r i; nullable = q i }

Chosen-IsCyclic :
    (tables : List Table) (c : CyclicFk)
    → Chosen (selected tables) (adjacency tables) tables (keys_of tables) c
    → IsCyclic tables c
Chosen-IsCyclic tables c (fk, l, s, leads, e) =
    let (f, n, g) = classify_one-strategy fk tables in
    let k : c.fk ≡ fk = rw e f in
    let m : c.nullable ≡ any_child_col_nullable fk tables = rw e n in
    rw (k, m)
      ((l, s), Leads-Chain tables fk.parent fk.child leads, any_child-HasNullable fk tables, rw e g)

-- The classified list holds exactly the foreign keys between selected tables whose parent leads
-- back to their child by a chain of such keys from child to parent, each with the strategy of its
-- kind: deferred if it is deferrable, else filled in later if one of its columns may be NULL in the
-- child table, else blocked.
pub classify_cyclic_fks_exact :
    (tables : List Table) (c : CyclicFk) → Listed c (classify_cyclic_fks tables) ↔ IsCyclic tables c
unfolding classify_cyclic_fks
classify_cyclic_fks_exact tables c =
    let adj = adjacency tables in
    let (of, to) =
      Listed-sort_by key_before c (cyclic_among (selected tables) adj tables (keys_of tables)) in
    (
      λ h.
          Chosen-IsCyclic tables c
            (among-of (selected tables) adj tables (keys_of tables) c (of h)),
      λ ((l, s), chain, i, g).
          let n =
            same_bool c.nullable (any_child_col_nullable c.fk tables) i
              (any_child-HasNullable c.fk tables) in
          let (f', n', g') = classify_one-strategy c.fk tables in
          let same : classify_one c.fk tables ≡ c =
            same_fields (classify_one c.fk tables) c f' (n' ∙ sym n)
              (g' ∙ ap (strategy_of c.fk.deferrable) (sym n) ∙ sym g) in
          to (
            rw (← same) (
              among-to (selected tables) adj tables (keys_of tables) c.fk l s
                (Chain-Leads tables c.fk.parent c.fk.child chain))),
    )

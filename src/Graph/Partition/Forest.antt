-- ===== src/Graph/Partition/Forest.antt =====
-- The union-find structure of internal/fkgraph/fkgraph.go stands for a function from each table to
-- the root of its class, and `find` computes it.
use replicare.Base.{
  ℕ, zero, suc, ◌+◌, ◌≤◌, ◌<◌, ◌≡◌, ◌≢◌, refl, sym, ◌∙◌, ap, ◌⊎◌, inl, inr, none, some, update,
  ==_cases, arith,
}
use replicare.Engine.{TableRef, table_ref_eq}
use replicare.Graph.Partition.{UnionFind, parent_of, or_zero, find}

-- The table is in the structure.
abbrev pub Known : UnionFind → TableRef → Type 0
Known u x = (p : TableRef) × (u.parent x ≡ some p)

-- A parent is in the structure, of the same class, and of a greater rank unless it is a root.
pub record IsForest (u : UnionFind) (root : TableRef → TableRef) (bound : ℕ) : Type 0 where
  pub up :
      (x p : TableRef)
      → u.parent x ≡ some p
      → Known u p × (root p ≡ root x) × ((p ≡ x) × (root x ≡ x) ⊎ (u.rank x < u.rank p))
  pub top : (x : TableRef) → Known u x → u.parent (root x) ≡ some (root x)
  pub alone : (x : TableRef) → u.parent x ≡ none → root x ≡ x
  pub low : (x : TableRef) → u.rank x ≤ bound

-- What `find` keeps.
abbrev pub Same : UnionFind → UnionFind → Type 0
Same u v = ((x : TableRef) → Known u x → Known v x) × (u.rank ≡ v.rank)

module _ (root : TableRef → TableRef) (bound : ℕ) where
  -- The parent of a known table may be replaced by its grandparent.
  halve-Known :
      (u : UnionFind) (x g y : TableRef)
      → Known u y
      → Known (record u { parent = update u.parent x (some g) }) y
  halve-Known u x g y (p, e) = elim (==_cases y x) [
    | inl (h, _) ↦ (g, rw h refl)
    | inr (h, _) ↦ (p, rw h e)
  ]

  Known-of_halved :
      (u : UnionFind) (x g y : TableRef)
      → Known u x
      → Known (record u { parent = update u.parent x (some g) }) y
      → Known u y
  Known-of_halved u x g y kx (p, h) = elim (==_cases y x) [
    | inl (_, q) ↦ rw q kx
    | inr (b, _) ↦ (p, rw b at h)
  ]

  halve-IsForest :
      (u : UnionFind) (x g : TableRef)
      → IsForest u root bound
      → (p : TableRef) → u.parent x ≡ some p
      → p ≢ x
      → Known u g
      → root g ≡ root x
      → u.rank x < u.rank g
      → IsForest (record u { parent = update u.parent x (some g) }) root bound
  halve-IsForest u x g f p d ne kg e lt = record {
    up = λ y r h. elim (==_cases y x) [
      | inl (b, q) ↦
          let s : g ≡ r = cc (rw b at h) in rw (← s, q) (halve-Known u x g g kg, e, inr lt)
      | inr (b, _) ↦ let (k, same, w) = f.up y r (rw b at h) in (halve-Known u x g r k, same, w)
    ];
    top = λ y k.
        let t = f.top y (Known-of_halved u x g y (p, d) k) in
        elim (==_cases (root y) x) [
          | inl (_, q) ↦
              let t' : u.parent x ≡ some x = rw q at t in let s : p ≡ x = cc in absurd (ne s)
          | inr (b, _) ↦ rw b t
        ];
    alone = λ y h. elim (==_cases y x) [
      | inl (b, _) ↦ cc (rw b at h)
      | inr (b, _) ↦ f.alone y (rw b at h)
    ];
    low = f.low;
  }

  -- Two steps up from a table that is no root.
  grand_step :
      (u : UnionFind) (x p g : TableRef)
      → IsForest u root bound
      → u.parent x ≡ some p
      → u.parent p ≡ some g
      → p ≢ x
      → Known u g × (root g ≡ root x) × (u.rank x < u.rank g)
  grand_step u x p g f e d ne =
      let (kp, rp, wp) = f.up x p e in
      let (kg, rg, wg) = f.up p g d in
      (
        kg,
        rg ∙ rp,
        elim wp [
          | inl (q, _) ↦ absurd (ne q)
          | inr lt ↦ elim wg [ inl (q, _) ↦ rw (← q) at lt | inr lt' ↦ omega arith ]
        ],
      )

  abbrev pub FindsRoot : UnionFind → TableRef → UnionFind × TableRef → Type 0
  FindsRoot u x (v, r) = (r ≡ root x) × IsForest v root bound × Same u v

  pub find-root :
      (fuel : ℕ) (u : UnionFind) (x : TableRef)
      → IsForest u root bound
      → Known u x
      → bound < fuel + u.rank x
      → FindsRoot u x (find fuel u x)
  unfolding find
  find-root zero u x f kx h = absurd (omega (arith, f.low x))
  find-root (suc fuel) u x f (p, e) h =
      let pe : parent_of u x ≡ p = ap or_zero e in
      elim (==_cases p x) [
        | inl (b, q) ↦
            let r : x ≡ root x = elim (f.up x p e).2 [
              | inl (_, r) ↦ sym r
              | inr lt ↦ let lt' : u.rank x < u.rank x = rw q at lt in absurd (omega arith)
            ] in
            rw (pe, b) (r, f, ((λ y k. k), refl))
        | inr (b, ne) ↦
            let (g, d) = (f.up x p e).0 in
            let (kg, r, lt) = grand_step u x p g f e d ne in
            let gd : parent_of u p ≡ g = ap or_zero d in
            let u' = record u { parent = update u.parent x (some g) } in
            let (s, k, same) =
              find-root fuel u' g (halve-IsForest u x g f p e ne kg r lt) (halve-Known u x g g kg)
                (omega arith) in
            rw (pe, b, gd) (s ∙ r, k, ((λ y m. same.0 y (halve-Known u x g y m)), same.1))
      ]

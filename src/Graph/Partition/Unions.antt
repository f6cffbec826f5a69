-- ===== src/Graph/Partition/Unions.antt =====
-- What `add` and `union` of internal/fkgraph/fkgraph.go do to the classes of the structure.
use replicare.Base.{
  ℕ, suc, ◌≤◌, ◌<◌, ◌≡◌, ◌≢◌, refl, sym, ◌∙◌, ap, ◌⊎◌, inl, inr, Option, none, some, ◌==◌, ==_cases,
  ==_refl, if◌then◌else◌, arith,
}
use replicare.Engine.{TableRef, table_ref_eq}
use replicare.Graph.Partition.{UnionFind, add_missing, attach}
use replicare.Graph.Partition.Forest.{Known, IsForest}

module _ (root : TableRef → TableRef) (bound : ℕ) where
  pub add_missing-IsForest :
      (u : UnionFind) (x : TableRef) (o : Option TableRef)
      → u.parent x ≡ o
      → IsForest u root bound
      → IsForest (add_missing u x o) root bound
        × Known (add_missing u x o) x
        × ((y : TableRef) → Known u y → Known (add_missing u x o) y)
  add_missing-IsForest u x (some p) e f = (f, (p, e), λ y k. k)
  add_missing-IsForest u x none e f =
      let v = add_missing u x none in
      let keep : (y : TableRef) → Known u y → Known v y = λ y (p, h). elim (==_cases y x) [
        | inl (_, q) ↦ cc (rw q at h)
        | inr (b, _) ↦ (p, rw b h)
      ] in
      let own : Known v x = (x, rw (==_refl x) refl) in
      (
        record {
          up = λ y p h. elim (==_cases y x) [
            | inl (b, q) ↦
                let s : x ≡ p = cc (rw b at h) in rw (← s, q) (own, refl, inl (refl, f.alone x e))
            | inr (b, ne) ↦
                let h' : u.parent y ≡ some p = rw b at h in
                let (k, r, w) = f.up y p h' in
                (
                  keep p k,
                  r,
                  elim (==_cases p x) [
                    | inl (_, q) ↦ cc (e, rw q at k.1)
                    | inr (c, _) ↦ rw (b, c) w
                  ],
                )
          ];
          top = λ y (p, h). elim (==_cases y x) [
            | inl (b, q) ↦ rw (q, f.alone x e, ==_refl x) refl
            | inr (b, _) ↦
                let t = f.top y (p, rw b at h) in
                elim (==_cases (root y) x) [ inl (_, q) ↦ cc (e, rw q at t) | inr (c, _) ↦ rw c t ]
          ];
          alone = λ y h. elim (==_cases y x) [
            | inl (b, _) ↦ cc (rw b at h)
            | inr (b, _) ↦ f.alone y (rw b at h)
          ];
          low = λ y. elim (==_cases y x) [
            | inl (b, _) ↦ rw b (omega arith)
            | inr (b, _) ↦ rw b (f.low y)
          ];
        },
        own,
        keep,
      )

-- The classes of the two roots are joined.
abbrev pub joined : (TableRef → TableRef) → TableRef → TableRef → TableRef → TableRef
joined root ra rb y = if root y == rb then ra else root y

module _ (root : TableRef → TableRef) (ra rb : TableRef) where
  pub joined-other : (y : TableRef) → root y ≢ rb → joined root ra rb y ≡ root y
  joined-other y n = elim (==_cases (root y) rb) [
    | inl (_, q) ↦ absurd (n q)
    | inr (h, _) ↦ rw h refl
  ]

  pub joined-rb : (y : TableRef) → root y ≡ rb → joined root ra rb y ≡ ra
  joined-rb y e = elim (==_cases (root y) rb) [ inl (h, _) ↦ rw h refl | inr (_, n) ↦ absurd (n e) ]

pub attach-Known : (u : UnionFind) (ra rb y : TableRef) → Known u y → Known (attach u ra rb) y
attach-Known u ra rb y (p, e) = elim (==_cases y rb) [
  | inl (h, _) ↦ (ra, rw h refl)
  | inr (h, _) ↦ (p, rw h e)
]

module _ (root : TableRef → TableRef) (bound : ℕ) (u : UnionFind) (ra rb : TableRef)
    (f : IsForest u root bound) (ne : ra ≢ rb) (a : u.parent ra ≡ some ra)
    (b : u.parent rb ≡ some rb) (sa : root ra ≡ ra) (sb : root rb ≡ rb)
    (le : u.rank rb ≤ u.rank ra) where
  attach_before : (y : TableRef) → Known (attach u ra rb) y → Known u y
  attach_before y (p, e) = elim (==_cases y rb) [
    | inl (_, q) ↦ rw q (rb, b)
    | inr (h, _) ↦ (p, rw h at e)
  ]

  -- Ranks only grow, by one at most, and only at `ra`.
  rank-le : (y : TableRef) → u.rank y ≤ (attach u ra rb).rank y
  rank-le y = ground (arith, table_ref_eq.beq_iff y ra)

  rank-other : (y : TableRef) → y ≢ ra → (attach u ra rb).rank y ≡ u.rank y
  rank-other y n = elim (==_cases y ra) [ inl (_, q) ↦ absurd (n q) | inr (h, _) ↦ ground arith ]

  rank-lt : (attach u ra rb).rank rb < (attach u ra rb).rank ra
  rank-lt = ground (arith, ==_refl ra, rank-other rb (λ q. ne (sym q)))

  rank-low : (y : TableRef) → (attach u ra rb).rank y ≤ suc bound
  rank-low y = ground (arith, table_ref_eq.beq_iff y ra, f.low y, f.low ra)

  joined-ap : (y z : TableRef) → root y ≡ root z → joined root ra rb y ≡ joined root ra rb z
  joined-ap y z e = ap (λ r. if r == rb then ra else r) e

  -- A table that is no root stays below its parent.
  rises :
      (y p : TableRef)
      → u.parent y ≡ some p
      → (p ≡ y) × (root y ≡ y) ⊎ (u.rank y < u.rank p)
      → y ≢ rb
      → (p ≡ y) × (joined root ra rb y ≡ y) ⊎ ((attach u ra rb).rank y < (attach u ra rb).rank p)
  rises y p e (inl (q, r)) n = inl (q, joined-other root ra rb y (λ s. n (sym r ∙ s)) ∙ r)
  rises y p e (inr lt) n =
      let other : y ≢ ra = λ q.
        let e' : u.parent ra ≡ some p = rw q at e in
        let s : ra ≡ p = cc in let lt' : u.rank y < u.rank y = rw (← s, ← q) at lt in omega arith in
      inr (omega (arith, rank-other y other, rank-le p))

  pub attach-IsForest : IsForest (attach u ra rb) (joined root ra rb) (suc bound)
  attach-IsForest = record {
    up = λ y p e. elim (==_cases y rb) [
      | inl (h, q) ↦
          let s : ra ≡ p = cc (rw h at e) in
          rw (← s, q)
            (
              attach-Known u ra rb ra (ra, a),
              joined-other root ra rb ra (λ t. ne (sym sa ∙ t))
                  ∙ sa
                  ∙ sym (joined-rb root ra rb rb sb),
              inr rank-lt,
            )
      | inr (h, n) ↦
          let e' : u.parent y ≡ some p = rw h at e in
          let (k, r, w) = f.up y p e' in
          (attach-Known u ra rb p k, joined-ap p y r, rises y p e' w n)
    ];
    top = λ y k. elim (==_cases (root y) rb) [
      | inl (h, q) ↦
          rw (joined-rb root ra rb y q)
            (elim (==_cases ra rb) [ inl (_, s) ↦ absurd (ne s) | inr (g, _) ↦ rw g a ])
      | inr (h, n) ↦ rw (joined-other root ra rb y n, h) (f.top y (attach_before y k))
    ];
    alone = λ y e. elim (==_cases y rb) [
      | inl (h, _) ↦ cc (rw h at e)
      | inr (h, n) ↦
          let r = f.alone y (rw h at e) in joined-other root ra rb y (λ s. n (sym r ∙ s)) ∙ r
    ];
    low = rank-low;
  }

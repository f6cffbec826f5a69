-- ===== src/Graph/Partition/Grouping.antt =====
-- The loop of `Components` in internal/fkgraph/fkgraph.go that groups the tables by their roots.
use replicare.Base.{
  ℕ, ◌<◌, ◌≡◌, ◌≢◌, refl, sym, ◌∙◌, ap, ◌↔◌, ◌⊎◌, inl, inr, true, false, ◌||◌, List, [], ◌∷◌, ◌++◌,
  map, Listed, Listed-append_cases, Listed-append_left, Listed-append_right, contains, ◌==◌,
  ==_cases, arith,
}
use replicare.Engine.{TableRef, table_ref_eq, Table}
use replicare.Graph.Partition.{UnionFind, find, Groups, put_in_group, group}
use replicare.Graph.Partition.Forest.{Known, IsForest, find-root}

abbrev pub roots_of : Groups → List TableRef
roots_of gs = map (λ g. g.0) gs

module _ (root : TableRef → TableRef) where
  -- The members of the class `q` among the tables seen.
  abbrev pub HasClass : List Table → TableRef → List Table → Type 0
  HasClass done q ms = (t : Table) → Listed t ms ↔ (Listed t done × (root t.ref ≡ q))

  abbrev pub Grouped : List Table → Groups → Type 0
  Grouped done [] = Unit
  Grouped done ((q, ms) ∷ gs) =
      HasClass done q ms × (contains q (roots_of gs) ≡ false) × Grouped done gs

  put-roots :
      (y r : TableRef) (t : Table) (gs : Groups)
      → contains y (roots_of (put_in_group r t gs)) ≡ (y == r || contains y (roots_of gs))
  unfolding put_in_group
  put-roots y r t [] = refl
  put-roots y r t ((q, ms) ∷ gs) = ground (
    arith,
    table_ref_eq.beq_iff q r,
    table_ref_eq.beq_iff y r,
    table_ref_eq.beq_iff y q,
    put-roots y r t gs,
  )

  module _ (t : Table) (done : List Table) where
    abbrev r : TableRef
    r = root t.ref

    other-HasClass :
        (q : TableRef) (ms : List Table) → q ≢ r → HasClass done q ms → HasClass (t ∷ done) q ms
    other-HasClass q ms n h x = (
      λ l. let (m, e) = (h x).0 l in (inr m, e),
      λ (l, e). elim l [
        | inl s ↦ absurd (n (sym e ∙ ap (λ y. root y.ref) s))
        | inr m ↦ (h x).1 (m, e)
      ],
    )

    others-Grouped :
        (gs : Groups) → contains r (roots_of gs) ≡ false → Grouped done gs → Grouped (t ∷ done) gs
    others-Grouped [] n g = tt
    others-Grouped ((q, ms) ∷ gs) n g = elim (==_cases r q) [
      | inl (h, _) ↦ absurd (ground arith)
      | inr (h, ne) ↦
          (other-HasClass q ms (λ e. ne (sym e)) g.0, g.1, others-Grouped gs (rw h at n) g.2)
    ]

    own-HasClass :
        (q : TableRef) (ms : List Table)
        → q ≡ r
        → HasClass done q ms
        → HasClass (t ∷ done) q (ms ++ (t ∷ []))
    own-HasClass q ms e h x = (
      λ l. elim (Listed-append_cases x ms (t ∷ []) l) [
        | inl m ↦ let (k, s) = (h x).0 m in (inr k, s)
        | inr (inl s) ↦ (inl s, ap (λ y. root y.ref) s ∙ sym e)
        | inr (inr m) ↦ elim m [ ]
      ],
      λ (l, s). elim l [
        | inl q ↦ Listed-append_right x ms (t ∷ []) (inl q)
        | inr m ↦ Listed-append_left x ms (t ∷ []) ((h x).1 (m, s))
      ],
    )

    put-Grouped :
        (gs : Groups)
        → ((x : Table) → Listed x done → root x.ref ≡ r → contains r (roots_of gs) ≡ true)
        → Grouped done gs
        → Grouped (t ∷ done) (put_in_group r t gs)
    unfolding put_in_group
    put-Grouped [] seen g = (
      λ x. (
        λ l. elim l [ inl s ↦ (inl s, ap (λ y. root y.ref) s) | inr m ↦ elim m [ ] ],
        λ (l, s). elim l [ inl q ↦ inl q | inr m ↦ cc (seen x m s) ],
      ),
      refl,
      tt,
    )
    put-Grouped ((q, ms) ∷ gs) seen g = elim (==_cases q r) [
      | inl (h, e) ↦ rw h (own-HasClass q ms e g.0, g.1, others-Grouped gs (rw e at g.1) g.2)
      | inr (h, n) ↦ rw h (
        other-HasClass q ms n g.0,
        ground (arith, put-roots q r t gs),
        put-Grouped gs
            (λ x l s.
              ground (arith, seen x l s, table_ref_eq.beq_iff r q, table_ref_eq.beq_iff q r))
            g.2,
      )
    ]

-- The tables seen so far, latest first.
abbrev seen_after : List Table → List Table → List Table
seen_after [] done = done
seen_after (t ∷ ts) done = seen_after ts (t ∷ done)

Listed-seen_after :
    (x : Table) (ts done : List Table)
    → Listed x (seen_after ts done) ↔ (Listed x ts ⊎ Listed x done)
Listed-seen_after x [] done = (λ l. inr l, λ s. elim s [ inl l ↦ elim l [ ] | inr l ↦ l ])
Listed-seen_after x (t ∷ ts) done =
    let (of, to) = Listed-seen_after x ts (t ∷ done) in
    (
      λ l. elim (of l) [ inl m ↦ inl (inr m) | inr (inl e) ↦ inl (inl e) | inr (inr m) ↦ inr m ],
      λ s. to (elim s [ inl (inl e) ↦ inr (inl e) | inl (inr m) ↦ inl m | inr m ↦ inr (inr m) ]),
    )

module _ (root : TableRef → TableRef) (bound fuel : ℕ) (lt : bound < fuel) where
  abbrev pub HasRoots : List Table → Groups → Type 0
  HasRoots done gs = (x : Table) → Listed x done → contains (root x.ref) (roots_of gs) ≡ true

  group_after :
      (ts done : List Table) (gs : Groups) (u : UnionFind)
      → IsForest u root bound
      → ((x : Table) → Listed x ts → Known u x.ref)
      → HasRoots done gs
      → Grouped root done gs
      → Grouped root (seen_after ts done) (group fuel u ts gs)
        × HasRoots (seen_after ts done) (group fuel u ts gs)
  unfolding group
  group_after [] done gs u f known seen g = (g, seen)
  group_after (t ∷ ts) done gs u f known seen g =
      let (e, f', s) = find-root root bound fuel u t.ref f (known t (inl refl)) (omega arith) in
      let u' = (find fuel u t.ref).0 in
      let gs' = put_in_group (root t.ref) t gs in
      let here : HasRoots (t ∷ done) gs' = λ x l. elim l [
        | inl q ↦ ground (
          arith,
          put-roots root (root x.ref) (root t.ref) t gs,
          ap (λ y. root y.ref) q,
          table_ref_eq.beq_iff (root x.ref) (root t.ref),
        )
        | inr m ↦ ground (arith, put-roots root (root x.ref) (root t.ref) t gs, seen x m)
      ] in
      rw e (
        group_after ts (t ∷ done) gs' u' f' (λ x l. s.0 x.ref (known x (inr l))) here
          (put-Grouped root t done gs (λ x l q. rw (← q) (seen x l)) g))

  -- Each group holds the tables of one class, and each table stands in the group of its class.
  pub group-exact :
      (ts : List Table) (u : UnionFind)
      → IsForest u root bound
      → ((x : Table) → Listed x ts → Known u x.ref)
      → Grouped root (seen_after ts []) (group fuel u ts [])
        × HasRoots (seen_after ts []) (group fuel u ts [])
  group-exact ts u f known = group_after ts [] [] u f known (λ x l. elim l [ ]) tt

-- A group of the result.
pub class_of :
    (root : TableRef → TableRef) (done : List Table) (gs : Groups)
    → Grouped root done gs
    → (g : TableRef × List Table) → Listed g gs
    → HasClass root done g.0 g.1
class_of root done [] h g l = elim l [ ]
class_of root done ((q, ms) ∷ gs) h g (inl e) = rw e h.0
class_of root done ((q, ms) ∷ gs) h g (inr l) = class_of root done gs h.2 g l

pub group_of_root :
    (r : TableRef) (gs : Groups)
    → contains r (roots_of gs) ≡ true
    → (ms : List Table) × Listed (r, ms) gs
group_of_root r [] h = cc
group_of_root r ((q, ms) ∷ gs) h = elim (==_cases r q) [
  | inl (_, e) ↦ (ms, inl (rw e refl))
  | inr (b, _) ↦ let (ns, l) = group_of_root r gs (rw b at h) in (ns, inr l)
]

pub Listed-seen : (x : Table) (ts : List Table) → Listed x (seen_after ts []) ↔ Listed x ts
Listed-seen x ts =
    let (of, to) = Listed-seen_after x ts [] in
    (λ l. elim (of l) [ inl m ↦ m | inr m ↦ elim m [ ] ], λ l. to (inl l))

-- ===== src/Graph/Order/Sorted.antt =====
-- `topoOrder` of internal/fkgraph/fkgraph.go: in the order, parents come before children.
use replicare.Base.{
  ◌≡◌, refl, ◌⊎◌, inl, inr, ◌<◌, arith, Bool, true, false, not, ◌&&◌, ◌||◌, List, [], ◌∷◌, contains,
  is_nodup, ==_refl, ==_cases, ◌==◌, if◌then◌else◌, Bool-cases, sort_by, contains-sort_by, Listed,
}
use replicare.Engine.{TableRef, table_ref_eq, Table, ForeignKey}
use replicare.Graph.{
  Edge, before, sort_refs, has_edge, within, edges_of, self_cycle, keys_of, refs_of, emitted_of,
  left_over, reverse_onto, topo_order,
}
use replicare.Graph.Order.{blocked}
use replicare.Graph.Order.Kahn.{
  parents_first, edges, self, contains-left_over, contains-reverse_onto, emitted_of-Emitted,
  ref_in_nodes,
}

-- `c` is in the list, and `p` comes before every place of it.
abbrev pub comes_before : TableRef → TableRef → List TableRef → Bool
comes_before p c [] = false
comes_before p c (x ∷ xs) =
    if x == p then not (p == c) && contains c xs else not (x == c) && comes_before p c xs

key-has_edge :
    (in_sel member : TableRef → Bool) (fks : List ForeignKey) (fk : ForeignKey)
    → Listed fk fks
    → in_sel fk.parent ≡ true
    → member fk.parent ≡ true
    → self_cycle in_sel member fks fk.child ≡ false
    → has_edge fk.parent fk.child (edges_of in_sel member fks) ≡ true
unfolding edges_of self_cycle
key-has_edge in_sel member [] fk h i m s = elim h [ ]
key-has_edge in_sel member (g ∷ fks) fk (inl e) i m s =
    let s' : (within in_sel member fk && (fk.child == fk.parent && fk.child == fk.child)
          || self_cycle in_sel member fks fk.child)
        ≡ false =
      rw (← e) at s in
    rw (← e) (ground (arith, s', i, m, ==_refl fk.child, ==_refl fk.parent))
key-has_edge in_sel member (g ∷ fks) fk (inr h) i m s =
    ground (arith, key-has_edge in_sel member fks fk h i m (ground (arith, s)))

has_edge-blocked :
    (es : List Edge) (emitted : List TableRef) (p c : TableRef)
    → has_edge p c es ≡ true
    → blocked es emitted c ≡ 0
    → contains p emitted ≡ true
has_edge-blocked [] emitted p c h z = absurd (cc)
has_edge-blocked ((q, d) ∷ es) emitted p c h z =
    ground (arith, has_edge-blocked es emitted p c, table_ref_eq.beq_iff p q, h, z)

module _ (p c : TableRef) (apart : (p == c) ≡ false) where
  comes_before-contains : (xs : List TableRef) → comes_before p c xs ≡ true → contains c xs ≡ true
  comes_before-contains [] h = absurd (cc)
  comes_before-contains (x ∷ xs) h = ground (arith, comes_before-contains xs)

  onto-comes_before :
      (xs acc : List TableRef)
      → contains c xs ≡ false
      → comes_before p c acc ≡ true
      → comes_before p c (reverse_onto xs acc) ≡ true
  onto-comes_before [] acc n h = h
  onto-comes_before (x ∷ xs) acc n h = onto-comes_before xs (x ∷ acc) (ground (arith, n)) (
      ground (
        arith,
        n,
        h,
        apart,
        comes_before-contains acc,
        table_ref_eq.beq_iff x c,
        table_ref_eq.beq_iff c x,
      ))

  reverse-comes_before :
      (xs acc : List TableRef)
      → contains p xs ≡ true
      → contains c xs ≡ false
      → contains c acc ≡ true
      → comes_before p c (reverse_onto xs acc) ≡ true
  reverse-comes_before [] acc m n h = absurd (cc)
  reverse-comes_before (x ∷ xs) acc m n h = elim (Bool-cases (contains p xs)) [
    | inl q ↦ reverse-comes_before xs (x ∷ acc) q (ground (arith, n)) (ground (arith, h))
    | inr q ↦
        onto-comes_before xs (x ∷ acc) (ground (arith, n))
          (ground (arith, m, q, h, apart, table_ref_eq.beq_iff p x, table_ref_eq.beq_iff x p))
  ]

emitted-comes_before :
    (es : List Edge) (p c : TableRef)
    → has_edge p c es ≡ true
    → (xs acc : List TableRef) → parents_first es xs ≡ true
    → is_nodup xs ≡ true
    → contains c xs ≡ true
    → comes_before p c (reverse_onto xs acc) ≡ true
emitted-comes_before es p c e [] acc f d m = absurd (cc)
emitted-comes_before es p c e (x ∷ xs) acc f d m = elim (==_cases c x) [
  | inr (n, _) ↦
      emitted-comes_before es p c e xs (x ∷ acc) (ground (arith, f)) (ground (arith, d))
        (ground (arith, m, n))
  | inl (t, q) ↦
      let n : contains c xs ≡ false = rw q (ground (arith, d)) in
      let b : blocked es xs c ≡ 0 = rw q (ground (arith, f)) in
      let k = has_edge-blocked es xs p c e b in
      reverse-comes_before p c (ground (arith, k, n, table_ref_eq.beq_iff p c)) xs (x ∷ acc) k n
        (rw t refl)
]

pub topo_order-sorted :
    (members : List Table) (member in_sel : TableRef → Bool)
    → (parents_first (edges members member in_sel) (emitted_of members member in_sel) ≡ true)
      × (is_nodup (emitted_of members member in_sel) ≡ true)
      × ((t : TableRef)
          → contains t (refs_of members) ≡ true
          → (contains t (topo_order members member in_sel).0 ≡ true)
            × (contains t (topo_order members member in_sel).1
                ≡ not (contains t (emitted_of members member in_sel)))
            × ((contains t (emitted_of members member in_sel) ≡ true)
                  × (self members member in_sel t ≡ false)
                ⊎ (self members member in_sel t ≡ true)
                ⊎ (0 < blocked (edges members member in_sel) (emitted_of members member in_sel) t)))
      × ((fk : ForeignKey)
          → Listed fk (keys_of members)
          → in_sel fk.parent ≡ true
          → member fk.parent ≡ true
          → contains fk.child (refs_of members) ≡ true
          → contains fk.child (topo_order members member in_sel).1 ≡ false
          → comes_before fk.parent fk.child (topo_order members member in_sel).0 ≡ true)
unfolding topo_order sort_refs
topo_order-sorted members member in_sel =
    let (e, stuck) = emitted_of-Emitted members member in_sel in
    let emitted = emitted_of members member in_sel in
    let rest = left_over (refs_of members) emitted in
    (
      e.first,
      e.once,
      λ t m. (
        ground (
          arith,
          contains-reverse_onto emitted (sort_by before rest) t,
          contains-sort_by before t rest,
          contains-left_over (refs_of members) emitted t,
        ),
        ground
            (arith, contains-sort_by before t rest, contains-left_over (refs_of members) emitted t),
        elim (Bool-cases (contains t emitted)) [
          | inl p ↦ inl (p, e.free t p)
          | inr p ↦
              elim (stuck t (ref_in_nodes (refs_of members) (edges members member in_sel) t m) p) [
                | inl q ↦ inr (inl q)
                | inr q ↦ inr (inr q)
              ]
        ],
      ),
      λ fk l i m k n.
          let c : contains fk.child emitted ≡ true = ground (
            arith,
            contains-sort_by before fk.child rest,
            contains-left_over (refs_of members) emitted fk.child,
          ) in
          emitted-comes_before (edges members member in_sel) fk.parent fk.child
            (key-has_edge in_sel member (keys_of members) fk l i m (e.free fk.child c)) emitted
            (sort_by before rest) e.first e.once c,
    )

-- ===== src/Graph/Order/Kahn.antt =====
-- The order that Kahn's loop gives: parents before children, and what is left over is on a cycle.
use replicare.Base.{
  ℕ, zero, suc, ◌+◌, ◌≤◌, ◌<◌, ◌≡◌, refl, sym, ◌∙◌, ◌⊎◌, inl, inr, arith, Bool, true, false, not,
  ◌&&◌, ◌||◌, List, [], ◌∷◌, nat_beq, nat_eq, length, contains, is_nodup, ==_refl, if◌then◌else◌,
  Bool-cases, contains-sort_by, sort_by-nodup, All,
}
use replicare.Engine.{TableRef, table_ref_eq, Table}
use replicare.Graph.{
  Edge, before, sort_refs, indegree, children_of, nodes_of, ready, kahn, edges_of, self_cycle,
  keys_of, refs_of, emitted_of, left_over, reverse_onto,
}
use replicare.Graph.Order.{blocked, blocked_start, Inv, relax-Inv, emit-Inv}

-- Every table comes after all its parents; the latest is the head.
abbrev pub parents_first : List Edge → List TableRef → Bool
parents_first es [] = true
parents_first es (n ∷ emitted) = nat_beq (blocked es emitted n) 0 && parents_first es emitted

abbrev remaining : List TableRef → List TableRef → ℕ
remaining [] emitted = 0
remaining (t ∷ ts) emitted = (if contains t emitted then 0 else 1) + remaining ts emitted

remaining_emit :
    (ts emitted : List TableRef) (n : TableRef)
    → (remaining ts (n ∷ emitted) ≤ remaining ts emitted)
      × (contains n emitted ≡ false
          → contains n ts ≡ true
          → remaining ts (n ∷ emitted) < remaining ts emitted)
remaining_emit [] emitted n = (omega arith, λ a b. absurd (cc))
remaining_emit (t ∷ ts) emitted n =
    let (le, lt) = remaining_emit ts emitted n in
    (
      ground (arith, le),
      λ a b. ground (arith, le, lt a, table_ref_eq.beq_iff n t, table_ref_eq.beq_iff t n),
    )

contains-All :
    (P : TableRef → Type 0) (ts : List TableRef)
    → ((t : TableRef) → contains t ts ≡ true → P t)
    → All P ts
contains-All P [] f = tt
contains-All P (t ∷ ts) f =
    (f t (rw (==_refl t) refl), contains-All P ts (λ u m. f u (ground (arith, m))))

child_in_nodes :
    (refs : List TableRef) (es : List Edge) (n c : TableRef)
    → contains c (children_of es n) ≡ true
    → contains c (nodes_of refs es) ≡ true
unfolding children_of nodes_of
child_in_nodes [] [] n c h = ground arith
child_in_nodes [] ((p, d) ∷ es) n c h =
    ground (arith, child_in_nodes [] es n c, table_ref_eq.beq_iff c d)
child_in_nodes (t ∷ ts) es n c h = ground (arith, child_in_nodes ts es n c h)

nodes_of-nodup : (refs : List TableRef) (es : List Edge) → is_nodup (nodes_of refs es) ≡ true
unfolding nodes_of
nodes_of-nodup [] [] = refl
nodes_of-nodup [] ((p, c) ∷ es) = ground (arith, nodes_of-nodup [] es)
nodes_of-nodup (t ∷ ts) es = ground (arith, nodes_of-nodup ts es)

pub ref_in_nodes :
    (refs : List TableRef) (es : List Edge) (t : TableRef)
    → contains t refs ≡ true
    → contains t (nodes_of refs es) ≡ true
unfolding nodes_of
ref_in_nodes [] es t h = ground arith
ref_in_nodes (u ∷ us) es t h = ground (arith, table_ref_eq.beq_iff t u, ref_in_nodes us es t)

contains-ready :
    (selfc : TableRef → Bool) (indeg : TableRef → ℕ) (ts : List TableRef) (t : TableRef)
    → contains t (ready selfc indeg ts) ≡ (contains t ts && (nat_beq (indeg t) 0 && not (selfc t)))
unfolding ready
contains-ready selfc indeg [] t = refl
contains-ready selfc indeg (u ∷ us) t =
    ground (arith, table_ref_eq.beq_iff t u, contains-ready selfc indeg us t)

ready-nodup :
    (selfc : TableRef → Bool) (indeg : TableRef → ℕ) (ts : List TableRef)
    → is_nodup ts ≡ true
    → is_nodup (ready selfc indeg ts) ≡ true
unfolding ready
ready-nodup selfc indeg [] h = refl
ready-nodup selfc indeg (u ∷ us) h =
    ground (arith, contains-ready selfc indeg us u, ready-nodup selfc indeg us)

-- The tables emitted so far, or in the end.
pub record Emitted (es : List Edge) (nodes : List TableRef) (selfc : TableRef → Bool)
    (emitted : List TableRef) : Type 0 where
  pub first : parents_first es emitted ≡ true
  pub once : is_nodup emitted ≡ true
  pub free : (t : TableRef) → contains t emitted ≡ true → selfc t ≡ false

module _ (es : List Edge) (refs : List TableRef) (selfc : TableRef → Bool) where
  abbrev nodes : List TableRef
  nodes = nodes_of refs es

  start-Inv : Inv es nodes selfc [] [] (sort_refs (ready selfc (indegree es) nodes)) (indegree es)
  unfolding sort_refs
  start-Inv = record {
    counts = λ t. blocked_start es t ∙ omega arith;
    idle = λ t q. ground (
      arith,
      contains-sort_by before t (ready selfc (indegree es) nodes),
      contains-ready selfc (indegree es) nodes t,
    );
    done = λ t e. absurd (cc);
    once =
        sort_by-nodup before (ready selfc (indegree es) nodes)
          (ready-nodup selfc (indegree es) nodes (nodes_of-nodup refs es));
    complete = λ t m z s. ground (
      arith,
      contains-sort_by before t (ready selfc (indegree es) nodes),
      contains-ready selfc (indegree es) nodes t,
    );
  }

  -- What is not emitted refers to itself or has a parent that is not emitted.
  abbrev pub Stuck : List TableRef → Type 0
  Stuck emitted =
      (t : TableRef)
      → contains t nodes ≡ true
      → contains t emitted ≡ false
      → (selfc t ≡ true) ⊎ (0 < blocked es emitted t)

  emit-Emitted :
      (n : TableRef) (queue emitted : List TableRef) (indeg : TableRef → ℕ)
      → Inv es nodes selfc [] emitted (n ∷ queue) indeg
      → Emitted es nodes selfc emitted
      → Emitted es nodes selfc (n ∷ emitted)
  emit-Emitted n queue emitted indeg h e =
      let i = h.idle n (rw (==_refl n) refl) in
      record {
        first = ground (arith, i.0, h.counts n, e.first);
        once = ground (arith, i.1, e.once);
        free = λ t m. ground (arith, i.3, e.free t, table_ref_eq.beq_iff t n);
      }

  kids_in_nodes : (n : TableRef) → All (λ c. contains c nodes ≡ true) (sort_refs (children_of es n))
  unfolding sort_refs
  kids_in_nodes n =
      contains-All _ _
        (λ c m. child_in_nodes refs es n c (sym (contains-sort_by before c (children_of es n)) ∙ m))

  kahn-Emitted :
      (fuel : ℕ) (queue emitted : List TableRef) (indeg : TableRef → ℕ)
      → Inv es nodes selfc [] emitted queue indeg
      → Emitted es nodes selfc emitted
      → remaining nodes emitted < fuel
      → Emitted es nodes selfc (kahn fuel selfc es indeg queue emitted)
        × Stuck (kahn fuel selfc es indeg queue emitted)
  unfolding kahn
  kahn-Emitted zero queue emitted indeg h e lt = absurd (omega (arith, lt))
  kahn-Emitted (suc fuel) [] emitted indeg h e lt = (
    e,
    λ t m n. elim (Bool-cases (selfc t)) [
      | inl p ↦ inl p
      | inr p ↦ inr (ground (arith, h.complete t m, h.counts t, p, n))
    ],
  )
  kahn-Emitted (suc fuel) (n ∷ queue) emitted indeg h e lt =
      let i = h.idle n (rw (==_refl n) refl) in
      kahn-Emitted fuel _ (n ∷ emitted) _
        (relax-Inv es nodes selfc (sort_refs (children_of es n)) (n ∷ emitted) queue indeg
          (kids_in_nodes n) (emit-Inv es nodes selfc n queue emitted indeg h))
        (emit-Emitted n queue emitted indeg h e)
        (omega (arith, lt, (remaining_emit nodes emitted n).1 i.1 i.2))

pub remaining_bound : (ts emitted : List TableRef) → remaining ts emitted ≤ length ts
remaining_bound [] emitted = omega arith
remaining_bound (t ∷ ts) emitted = ground (arith, remaining_bound ts emitted)

pub contains-left_over :
    (ts emitted : List TableRef) (t : TableRef)
    → contains t (left_over ts emitted) ≡ (contains t ts && not (contains t emitted))
unfolding left_over
contains-left_over [] emitted t = refl
contains-left_over (u ∷ us) emitted t =
    ground (arith, table_ref_eq.beq_iff t u, contains-left_over us emitted t)

pub contains-reverse_onto :
    (xs acc : List TableRef) (t : TableRef)
    → contains t (reverse_onto xs acc) ≡ (contains t xs || contains t acc)
contains-reverse_onto [] acc t = refl
contains-reverse_onto (x ∷ xs) acc t = ground (arith, contains-reverse_onto xs (x ∷ acc) t)

module _ (members : List Table) (member in_sel : TableRef → Bool) where
  abbrev pub edges : List Edge
  edges = edges_of in_sel member (keys_of members)

  abbrev pub self : TableRef → Bool
  self = self_cycle in_sel member (keys_of members)

  pub emitted_of-Emitted :
      Emitted edges (nodes_of (refs_of members) edges) self (emitted_of members member in_sel)
      × Stuck edges (refs_of members) self (emitted_of members member in_sel)
  unfolding emitted_of
  emitted_of-Emitted =
      kahn-Emitted edges (refs_of members) self (suc (length (nodes_of (refs_of members) edges))) _
        [] (indegree edges) (start-Inv edges (refs_of members) self)
        (record { first = refl; once = refl; free = λ t m. absurd (cc) })
        (omega (arith, remaining_bound (nodes_of (refs_of members) edges) []))

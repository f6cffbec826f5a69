-- ===== src/Graph.antt =====
-- internal/fkgraph/fkgraph.go: the foreign-key graph of the selected tables. A Go map that is only
-- looked up and assigned is a function or a list of keys; where the source ranges over a map, it
-- sorts what it collects.
pub mod Order
pub mod Partition
use replicare.Base.{
  ℕ, zero, suc, ◌+◌, ◌-◌, ◌*◌, Bool, true, false, not, ◌&&◌, ◌||◌, Option, none, some, List, [],
  ◌∷◌, ◌++◌, Bytes, bytes_lt, bytes_beq, nat_beq, ltb, length, contains, update, map, ◌==◌,
  if◌then◌else◌, sort_by,
}
use replicare.Engine.{TableRef, table_ref_eq, qualified, Table, ForeignKey, Component}

abbrev pub refs_of : List Table → List TableRef
refs_of ts = map (λ t. t.ref) ts

-- The foreign keys of the tables, in their order.
abbrev pub keys_of : List Table → List ForeignKey
keys_of [] = []
keys_of (t ∷ ts) = t.foreign_keys ++ keys_of ts

unfoldable pub before : TableRef → TableRef → Bool
unfolding qualified
before a b = bytes_lt (qualified a) (qualified b)

unfoldable pub sort_refs : List TableRef → List TableRef
unfolding sort_by before
sort_refs = sort_by before

-- The edges within a component, parent first, each once.
abbrev pub Edge : Type 0
Edge = TableRef × TableRef

abbrev pub has_edge : TableRef → TableRef → List Edge → Bool
has_edge p c [] = false
has_edge p c ((q, d) ∷ es) = (p == q && c == d) || has_edge p c es

abbrev pub within : (TableRef → Bool) → (TableRef → Bool) → ForeignKey → Bool
within in_sel member fk = in_sel fk.parent && member fk.parent

unfoldable pub edges_of : (TableRef → Bool) → (TableRef → Bool) → List ForeignKey → List Edge
edges_of in_sel member [] = []
edges_of in_sel member (fk ∷ fks) =
    let rest = edges_of in_sel member fks in
    if within in_sel member fk
      && not (fk.child == fk.parent)
      && not (has_edge fk.parent fk.child rest)
    then (fk.parent, fk.child) ∷ rest
    else rest

-- `selfCycle`: tables that refer to themselves.
unfoldable pub self_cycle :
    (TableRef → Bool) → (TableRef → Bool) → List ForeignKey → TableRef → Bool
self_cycle in_sel member [] t = false
self_cycle in_sel member (fk ∷ fks) t =
    (within in_sel member fk && (fk.child == fk.parent && t == fk.child))
    || self_cycle in_sel member fks t

abbrev pub indegree : List Edge → TableRef → ℕ
indegree [] t = 0
indegree ((p, c) ∷ es) t = (if t == c then 1 else 0) + indegree es t

unfoldable pub children_of : List Edge → TableRef → List TableRef
children_of [] n = []
children_of ((p, c) ∷ es) n = let rest = children_of es n in if n == p then c ∷ rest else rest

-- The keys of `indeg`: the members, and what else has an edge to it.
abbrev pub add_key : TableRef → List TableRef → List TableRef
add_key t ts = if contains t ts then ts else t ∷ ts

unfoldable pub nodes_of : List TableRef → List Edge → List TableRef
nodes_of [] [] = []
nodes_of [] ((p, c) ∷ es) = add_key c (nodes_of [] es)
nodes_of (t ∷ ts) es = add_key t (nodes_of ts es)

unfoldable pub ready : (TableRef → Bool) → (TableRef → ℕ) → List TableRef → List TableRef
ready selfc indeg [] = []
ready selfc indeg (t ∷ ts) =
    let rest = ready selfc indeg ts in
    if nat_beq (indeg t) 0 && not (selfc t) then t ∷ rest else rest

-- `indeg[c]--` for each child, which joins the queue when it has no parent left.
unfoldable pub relax :
    (TableRef → Bool)
    → List TableRef
    → (TableRef → ℕ)
    → List TableRef
    → List TableRef × (TableRef → ℕ)
unfolding sort_refs
relax selfc [] indeg queue = (queue, indeg)
relax selfc (c ∷ cs) indeg queue =
    let indeg' = update indeg c (indeg c - 1) in
    relax selfc cs indeg'
      (if nat_beq (indeg c - 1) 0 && not (selfc c) then sort_refs (queue ++ (c ∷ [])) else queue)

-- Kahn's loop; `emitted` is the order so far, latest first. `fuel` bounds the tables emitted.
unfoldable pub kahn :
    ℕ
    → (TableRef → Bool)
    → List Edge
    → (TableRef → ℕ)
    → List TableRef
    → List TableRef
    → List TableRef
unfolding relax children_of sort_refs
kahn zero selfc edges indeg queue emitted = emitted
kahn (suc fuel) selfc edges indeg [] emitted = emitted
kahn (suc fuel) selfc edges indeg (n ∷ queue) emitted =
    let (queue', indeg') = relax selfc (sort_refs (children_of edges n)) indeg queue in
    kahn fuel selfc edges indeg' queue' (n ∷ emitted)

abbrev pub reverse_onto : List TableRef → List TableRef → List TableRef
reverse_onto [] acc = acc
reverse_onto (x ∷ xs) acc = reverse_onto xs (x ∷ acc)

unfoldable pub left_over : List TableRef → List TableRef → List TableRef
left_over [] emitted = []
left_over (t ∷ ts) emitted =
    let rest = left_over ts emitted in if contains t emitted then rest else t ∷ rest

unfoldable pub emitted_of : List Table → (TableRef → Bool) → (TableRef → Bool) → List TableRef
unfolding kahn ready edges_of self_cycle nodes_of sort_refs
emitted_of members member in_sel =
    let edges = edges_of in_sel member (keys_of members) in
    let selfc = self_cycle in_sel member (keys_of members) in
    let nodes = nodes_of (refs_of members) edges in
    kahn (suc (length nodes)) selfc edges (indegree edges)
      (sort_refs (ready selfc (indegree edges) nodes)) []

-- `topoOrder`: the order and the cyclic members at its end.
unfoldable pub topo_order :
    List Table → (TableRef → Bool) → (TableRef → Bool) → List TableRef × List TableRef
unfolding emitted_of left_over sort_refs
topo_order members member in_sel =
    let emitted = emitted_of members member in_sel in
    let cyclic = sort_refs (left_over (refs_of members) emitted) in
    (reverse_onto emitted cyclic, cyclic)

unfoldable pub build_component : List Table → (TableRef → Bool) → Component
unfolding topo_order sort_refs
build_component members in_sel =
    let (order, cyclic) = topo_order members (λ t. contains t (refs_of members)) in_sel in
    record { tables = sort_refs (refs_of members); order = order; cyclic = cyclic }

abbrev pub dangling_before : ForeignKey → ForeignKey → Bool
dangling_before a b =
    if bytes_beq (qualified a.child) (qualified b.child)
    then bytes_lt (qualified a.parent) (qualified b.parent)
    else bytes_lt (qualified a.child) (qualified b.child)

unfoldable pub dangling : (TableRef → Bool) → List ForeignKey → List ForeignKey
dangling in_sel [] = []
dangling in_sel (fk ∷ fks) =
    let rest = dangling in_sel fks in if in_sel fk.parent then rest else fk ∷ rest

unfoldable pub dangling_edges : List Table → List ForeignKey
unfolding dangling sort_by
dangling_edges selected =
    sort_by dangling_before (dangling (λ t. contains t (refs_of selected)) (keys_of selected))

-- `DetectGiant`: the dominant component. The fraction of at least 0.6 is compared exactly.
unfoldable pub biggest : Component → List Component → Component
biggest b [] = b
biggest b (c ∷ cs) = biggest (if ltb (length b.tables) (length c.tables) then c else b) cs

unfoldable pub detect_giant : List Component → ℕ → Option Component
unfolding biggest
detect_giant [] total = none
detect_giant (c ∷ cs) total =
    let b = biggest c (c ∷ cs) in
    if ltb total 5 || ltb (length b.tables * 10) (total * 6) then none else some b

-- ===== src/Samples/Graph.antt =====
-- A shop: items belong to orders, orders to users; a category may have a parent category.
use replicare.Base.{
  ◌≡◌, refl, ◌<◌, ◌⊎◌, Bool, true, false, not, none, List, [], ◌∷◌, Bytes, codes, contains,
  is_nodup, Listed, sort_by, insert_sorted, bytes_lt, map,
}
use replicare.Engine.{TableRef, table_ref_eq, Table, ForeignKey, qualified}
use replicare.Graph.{
  refs_of, keys_of, before, sort_refs, edges_of, self_cycle, children_of, nodes_of, ready, relax,
  kahn, emitted_of, left_over, topo_order,
}
use replicare.Graph.Order.{blocked}
use replicare.Graph.Order.Kahn.{parents_first, edges, self}
use replicare.Graph.Order.Sorted.{comes_before, topo_order-sorted}

abbrev pub named : Bytes → TableRef
named n = record { schema = codes "shop"; name = n }

abbrev pub refers : Bytes → Bytes → ForeignKey
refers child parent = record {
  name = codes "fk";
  child = named child;
  child_cols = codes "ref" ∷ [];
  parent = named parent;
  parent_cols = codes "id" ∷ [];
  deferrable = false;
}

abbrev table : Bytes → List ForeignKey → Table
table n fks = record {
  ref = named n;
  columns = [];
  primary_key = none;
  unique_keys = [];
  foreign_keys = fks;
}

abbrev pub shop : List Table
shop =
    table (codes "categories") (refers (codes "categories") (codes "categories") ∷ [])
    ∷ table (codes "items")
        (refers (codes "items") (codes "orders") ∷ refers (codes "items") (codes "stock") ∷ [])
    ∷ table (codes "orders") (refers (codes "orders") (codes "users") ∷ [])
    ∷ table (codes "users") []
    ∷ []

abbrev selected : TableRef → Bool
selected t = contains t (refs_of shop)

shop_order : topo_order shop selected selected ≡ (
  map named (codes "users" ∷ codes "orders" ∷ codes "items" ∷ codes "categories" ∷ []),
  named (codes "categories") ∷ [],
)
unfolding topo_order emitted_of left_over kahn relax children_of sort_refs ready nodes_of edges_of
    self_cycle sort_by insert_sorted before qualified bytes_lt
shop_order = refl

topo_order-sorted_example :
    (parents_first (edges shop selected selected) (emitted_of shop selected selected) ≡ true)
    × (is_nodup (emitted_of shop selected selected) ≡ true)
    × ((t : TableRef)
        → contains t (refs_of shop) ≡ true
        → (contains t (topo_order shop selected selected).0 ≡ true)
          × (contains t (topo_order shop selected selected).1
              ≡ not (contains t (emitted_of shop selected selected)))
          × ((contains t (emitted_of shop selected selected) ≡ true)
                × (self shop selected selected t ≡ false)
              ⊎ (self shop selected selected t ≡ true)
              ⊎ (0 < blocked (edges shop selected selected) (emitted_of shop selected selected) t)))
    × ((fk : ForeignKey)
        → Listed fk (keys_of shop)
        → selected fk.parent ≡ true
        → selected fk.parent ≡ true
        → contains fk.child (refs_of shop) ≡ true
        → contains fk.child (topo_order shop selected selected).1 ≡ false
        → comes_before fk.parent fk.child (topo_order shop selected selected).0 ≡ true)
topo_order-sorted_example = topo_order-sorted shop selected selected

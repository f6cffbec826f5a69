-- ===== src/Graph/Partition/Exact.antt =====
-- `Components` of internal/fkgraph/fkgraph.go partitions the selected tables by the foreign keys.
use replicare.Base.{
  ◌<◌, ◌≡◌, refl, sym, ap, ◌∙◌, ◌↔◌, inl, inr, Bool, true, List, [], ◌∷◌, map, Listed,
  Listed-sort_by, contains, contains-sort_by, ==_cases, ==_refl, arith,
}
use replicare.Engine.{TableRef, table_ref_eq, Table, Component}
use replicare.Graph.{refs_of, keys_of, before, sort_refs, build_component}
use replicare.Graph.Partition.{
  new_union_find, add_all, union_all, groups_of, components, selected, rounds, first_before,
}
use replicare.Graph.Partition.Linked.{Linked}
use replicare.Graph.Partition.Classes.{all-Classes}
use replicare.Graph.Partition.Grouping.{HasClass, group-exact, class_of, group_of_root, Listed-seen}

contains-refs :
    (a : TableRef) (ts : List Table)
    → (contains a (refs_of ts) ≡ true) ↔ ((t : Table) × Listed t ts × (t.ref ≡ a))
contains-refs a [] = (λ h. cc, λ (t, l, e). elim l [ ])
contains-refs a (t ∷ ts) =
    let (of, to) = contains-refs a ts in
    (
      λ h. elim (==_cases a t.ref) [
        | inl (_, e) ↦ (t, inl refl, sym e)
        | inr (n, _) ↦ let (u, l, e) = of (rw n at h) in (u, inr l, e)
      ],
      λ (u, l, e). elim l [
        | inl q ↦ rw (← e, q, ==_refl t.ref) refl
        | inr m ↦ ground (arith, to (u, m, e))
      ],
    )

-- The tables of a component are the members' names.
contains-tables :
    (a : TableRef) (ms : List Table) (sel : TableRef → Bool)
    → contains a (build_component ms sel).tables ≡ contains a (refs_of ms)
unfolding build_component sort_refs
contains-tables a ms sel = contains-sort_by before a (refs_of ms)

Listed-map :
    {A B : Type 0} (f : A → B) (y : B) (xs : List A)
    → Listed y (map f xs)
    → (x : A) × Listed x xs × (y ≡ f x)
Listed-map f y [] l = elim l [ ]
Listed-map f y (x ∷ xs) (inl e) = (x, inl refl, e)
Listed-map f y (x ∷ xs) (inr l) = let (z, m, e) = Listed-map f y xs l in (z, inr m, e)

Listed-of_map :
    {A B : Type 0} (f : A → B) (x : A) (xs : List A) → Listed x xs → Listed (f x) (map f xs)
Listed-of_map f x [] l = elim l [ ]
Listed-of_map f x (y ∷ ys) (inl e) = inl (ap f e)
Listed-of_map f x (y ∷ ys) (inr l) = inr (Listed-of_map f x ys l)

-- The components cover the tables, and a component with `a` holds exactly the tables linked to it.
pub record IsPartition (tables : List Table) (cs : List Component) : Type 0 where
  pub exact :
      (c : Component)
      → Listed c cs
      → (a b : TableRef) → contains a c.tables ≡ true
      → (contains b c.tables ≡ true)
        ↔ ((selected tables b ≡ true) × Linked (selected tables) (keys_of tables) a b)
  pub cover :
      (a : TableRef)
      → selected tables a ≡ true
      → (c : Component) × Listed c cs × (contains a c.tables ≡ true)

module _ (tables : List Table) where
  abbrev sel : TableRef → Bool
  sel = selected tables

  abbrev IsClass : (TableRef → TableRef) → List Table → Type 0
  IsClass root ms =
      (q : TableRef) × ((a : TableRef)
        → (contains a (refs_of ms) ≡ true) ↔ ((sel a ≡ true) × (root a ≡ q)))

  HasClass-IsClass :
      (root : TableRef → TableRef) (done : List Table) (q : TableRef) (ms : List Table)
      → ((t : Table) → Listed t done ↔ Listed t tables)
      → HasClass root done q ms
      → IsClass root ms
  HasClass-IsClass root done q ms all h = (
    q,
    λ a. (
      λ m.
          let (t, l, e) = (contains-refs a ms).0 m in
          let (k, s) = (h t).0 l in
          ((contains-refs a tables).1 (t, (all t).0 k, e), ap root (sym e) ∙ s),
      λ (m, s).
          let (t, l, e) = (contains-refs a tables).0 m in
          (contains-refs a ms).1 (t, (h t).1 ((all t).1 l, ap root e ∙ s), e),
    ),
  )

  -- The groups are the classes of a root function that decides which tables are linked.
  groups-IsClass :
      (root : TableRef → TableRef) × ((x y : TableRef)
        → (root x ≡ root y) ↔ Linked sel (keys_of tables) x y)
      × ((g : TableRef × List Table) → Listed g (groups_of tables) → IsClass root g.1)
      × ((a : TableRef)
          → sel a ≡ true
          → (g : TableRef × List Table) × Listed g (groups_of tables)
            × (contains a (refs_of g.1) ≡ true))
  unfolding groups_of
  groups-IsClass =
      let ((b, le, c), known) = all-Classes sel (refs_of tables) (keys_of tables) in
      let u =
        union_all (rounds tables) sel (add_all new_union_find (refs_of tables)) (keys_of tables) in
      let lt : b < rounds tables = omega arith in
      let (g, seen) =
        group-exact c.root b (rounds tables) lt tables u c.forest
          (λ x l. known x.ref ((contains-refs x.ref tables).1 (x, l, refl))) in
      let all = λ (t : Table). Listed-seen t tables in
      (
        c.root,
        c.decides,
        (λ h l. HasClass-IsClass c.root _ h.0 h.1 all (class_of c.root _ _ g h l)),
        (λ a m.
            let (t, l, e) = (contains-refs a tables).0 m in
            let k = (all t).1 l in
            let (ms, w) = group_of_root (c.root t.ref) _ (seen t k) in
            let cls = class_of c.root _ _ g (c.root t.ref, ms) w in
            ((c.root t.ref, ms), w, (contains-refs a ms).1 (t, (cls t).1 (k, refl), e))),
      )

-- The components of the selected tables are the classes of the tables that foreign keys between
-- selected tables connect: every selected table stands in one, and the component of a table holds
-- exactly the selected tables that are connected to it.
pub components-IsPartition : (tables : List Table) → IsPartition tables (components tables)
unfolding components
components-IsPartition tables =
    let (root, decides, classes, covers) = groups-IsClass tables in
    let build = λ (g : TableRef × List Table). build_component g.1 (selected tables) in
    let sorted = λ (c : Component). Listed-sort_by first_before c (map build (groups_of tables)) in
    record {
      exact = λ c l a b m.
          let (g, k, e) = Listed-map build c (groups_of tables) ((sorted c).0 l) in
          let (q, cls) = classes g k in
          let at : (x : TableRef) → contains x c.tables ≡ contains x (refs_of g.1) =
            λ x. rw e (contains-tables x g.1 (selected tables)) in
          let (_, qa) = (cls a).0 (rw at at m) in
          (
            λ h. let (s, qb) = (cls b).0 (rw at at h) in (s, (decides a b).0 (qa ∙ sym qb)),
            λ (s, w). rw at ((cls b).1 (s, sym ((decides a b).1 w) ∙ qa)),
          );
      cover = λ a s.
          let (g, k, m) = covers a s in
          (
            build g,
            (sorted (build g)).1 (Listed-of_map build g (groups_of tables) k),
            rw (contains-tables a g.1 (selected tables)) m,
          );
    }

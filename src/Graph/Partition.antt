-- ===== src/Graph/Partition.antt =====
-- internal/fkgraph/fkgraph.go: the union-find structure and the partition of the selected tables into
-- foreign-key components. The map of groups is a list in the order of first sight; the order in
-- which the source ranges over it is lost in the final sort.
pub mod Forest
pub mod Unions
pub mod Linked
pub mod Classes
pub mod Grouping
pub mod Exact
use replicare.Base.{
  ℕ, zero, suc, ◌+◌, Bool, true, false, Option, none, some, List, [], ◌∷◌, ◌++◌, map, Bytes,
  bytes_lt, nat_beq, ltb, length, contains, update, ◌==◌, if◌then◌else◌, sort_by,
}
use replicare.Engine.{TableRef, table_ref_eq, qualified, Table, ForeignKey, Component}
use replicare.Graph.{refs_of, keys_of, build_component}

pub record UnionFind : Type 0 where
  pub parent : TableRef → Option TableRef
  pub rank : TableRef → ℕ

abbrev pub new_union_find : UnionFind
new_union_find = record { parent = λ _. none; rank = λ _. 0 }

abbrev pub add_missing : UnionFind → TableRef → Option TableRef → UnionFind
add_missing u x (some _) = u
add_missing u x none = record { parent = update u.parent x (some x); rank = update u.rank x 0 }

unfoldable pub add : UnionFind → TableRef → UnionFind
add u x = add_missing u x (u.parent x)

-- A missing key of a Go map reads as the zero value.
abbrev pub or_zero : Option TableRef → TableRef
or_zero (some p) = p
or_zero none = record { schema = []; name = [] }

abbrev pub parent_of : UnionFind → TableRef → TableRef
parent_of u x = or_zero (u.parent x)

-- `find`, with path halving; `fuel` bounds its rounds.
unfoldable pub find : ℕ → UnionFind → TableRef → UnionFind × TableRef
find zero u x = (u, x)
find (suc fuel) u x =
    let grand = parent_of u (parent_of u x) in
    let up = find fuel (record u { parent = update u.parent x (some grand) }) grand in
    if parent_of u x == x then (u, x) else up

-- `rb` becomes a child of `ra`, whose rank is not smaller.
abbrev pub attach : UnionFind → TableRef → TableRef → UnionFind
attach u ra rb = record {
  parent = update u.parent rb (some ra);
  rank = if nat_beq (u.rank ra) (u.rank rb) then update u.rank ra (u.rank ra + 1) else u.rank;
}

unfoldable pub link : UnionFind → TableRef → TableRef → UnionFind
link u ra rb =
    if ra == rb then u else if ltb (u.rank ra) (u.rank rb) then attach u rb ra else attach u ra rb

unfoldable pub union : ℕ → UnionFind → TableRef → TableRef → UnionFind
unfolding add find link
union fuel u a b =
    let (u1, ra) = find fuel (add (add u a) b) a in let (u2, rb) = find fuel u1 b in link u2 ra rb

unfoldable pub add_all : UnionFind → List TableRef → UnionFind
unfolding add
add_all u [] = u
add_all u (t ∷ ts) = add_all (add u t) ts

unfoldable pub union_all : ℕ → (TableRef → Bool) → UnionFind → List ForeignKey → UnionFind
unfolding union
union_all fuel in_sel u [] = u
union_all fuel in_sel u (fk ∷ fks) =
    union_all fuel in_sel (if in_sel fk.parent then union fuel u fk.child fk.parent else u) fks

abbrev pub Groups : Type 0
Groups = List (TableRef × List Table)

unfoldable pub put_in_group : TableRef → Table → Groups → Groups
put_in_group r t [] = (r, t ∷ []) ∷ []
put_in_group r t ((q, ms) ∷ gs) =
    let rest = put_in_group r t gs in if q == r then (q, ms ++ (t ∷ [])) ∷ gs else (q, ms) ∷ rest

unfoldable pub group : ℕ → UnionFind → List Table → Groups → Groups
unfolding find put_in_group
group fuel u [] gs = gs
group fuel u (t ∷ ts) gs =
    let (u', root) = find fuel u t.ref in group fuel u' ts (put_in_group root t gs)

abbrev first_name : List TableRef → Bytes
first_name [] = []
first_name (t ∷ _) = qualified t

abbrev pub first_before : Component → Component → Bool
first_before a b = bytes_lt (first_name a.tables) (first_name b.tables)

abbrev pub selected : List Table → TableRef → Bool
selected tables r = contains r (refs_of tables)

-- More rounds than any rank: each foreign key raises at most one rank by one.
abbrev pub rounds : List Table → ℕ
rounds tables = suc (length (keys_of tables))

unfoldable pub groups_of : List Table → Groups
unfolding add_all union_all group
groups_of tables =
    let u =
      union_all (rounds tables) (selected tables) (add_all new_union_find (refs_of tables))
        (keys_of tables) in
    group (rounds tables) u tables []

unfoldable pub components : List Table → List Component
unfolding groups_of sort_by build_component qualified
components tables =
    sort_by first_before (map (λ g. build_component g.1 (selected tables)) (groups_of tables))

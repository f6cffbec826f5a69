-- ===== src/Preflight/Cyclic.antt =====
-- internal/engine/postgres/cyclicfk.go: the foreign keys that lie on a cycle, and how each can be
-- loaded. The texts of the reasons are left out.
pub mod Reach
pub mod Chains
pub mod Exact
use replicare.Base.{
  ℕ, zero, suc, ◌+◌, Bool, true, false, ◌&&◌, ◌||◌, Option, none, some, List, [], ◌∷◌, ◌++◌, map,
  Bytes, bytes_eq, bytes_lt, codes, length, contains, any, ◌==◌, if◌then◌else◌, sort_by,
}
use mathlib.Core.List.{reverse}
use replicare.Engine.{TableRef, table_ref_eq, qualified, Table, Column, ForeignKey}
use replicare.Graph.{refs_of, keys_of}

-- The directed adjacency, child to parents, over the foreign keys between selected tables.
abbrev pub Arrow : Type 0
Arrow = TableRef × TableRef

unfoldable pub arrows : (TableRef → Bool) → List ForeignKey → List Arrow
arrows in_sel [] = []
arrows in_sel (fk ∷ fks) =
    let rest = arrows in_sel fks in if in_sel fk.parent then (fk.child, fk.parent) ∷ rest else rest

unfoldable pub parents_of : TableRef → List Arrow → List TableRef
parents_of n [] = []
parents_of n ((c, p) ∷ es) = let rest = parents_of n es in if c == n then p ∷ rest else rest

-- `reachable`: the top of the stack is the head of the list; `none` if the fuel runs out.
unfoldable pub search_from : List Arrow → TableRef → ℕ → List TableRef → List TableRef → Option Bool
unfolding parents_of
search_from adj to zero seen stack = none
search_from adj to (suc fuel) seen [] = some false
search_from adj to (suc fuel) seen (n ∷ stack) =
    let skip = search_from adj to fuel seen stack in
    let push = search_from adj to fuel (n ∷ seen) (reverse (parents_of n adj) ++ stack) in
    if n == to then some true else if contains n seen then skip else push

-- Every table is expanded once, so each arrow puts one table on the stack.
abbrev pub enough : List Arrow → ℕ
enough adj = length adj + 2

abbrev is_found : Option Bool → Bool
is_found none = false
is_found (some b) = b

unfoldable pub reachable : List Arrow → TableRef → TableRef → Bool
unfolding search_from
reachable adj from to = is_found (search_from adj to (enough adj) [] (from ∷ []))

pub data CyclicFkStrategy : Type 0 where
  deferred null_then_fill blocked : CyclicFkStrategy

pub record CyclicFk : Type 0 where
  pub fk : ForeignKey
  pub strategy : CyclicFkStrategy
  pub nullable : Bool

unfoldable pub is_blocked : CyclicFk → Bool
is_blocked c = elim c.strategy [ CyclicFkStrategy.blocked ↦ true | _ ↦ false ]

-- A map filled in the order of the tables: the last one of a name counts.
unfoldable pub table_by_ref : TableRef → List Table → Option Table
table_by_ref ref [] = none
table_by_ref ref (t ∷ ts) = elim (table_by_ref ref ts) [
  | some u ↦ some u
  | none ↦ if t.ref == ref then some t else none
]

unfoldable pub column_by_name : Bytes → List Column → Option Column
column_by_name n [] = none
column_by_name n (c ∷ cs) = elim (column_by_name n cs) [
  | some d ↦ some d
  | none ↦ if c.name == n then some c else none
]

abbrev pub is_nullable : Option Column → Bool
is_nullable none = false
is_nullable (some c) = c.nullable

unfoldable pub any_child_col_nullable : ForeignKey → List Table → Bool
unfolding table_by_ref column_by_name
any_child_col_nullable fk tables = elim (table_by_ref fk.child tables) [
  | none ↦ false
  | some child ↦ any (λ col. is_nullable (column_by_name col child.columns)) fk.child_cols
]

unfoldable pub classify_one : ForeignKey → List Table → CyclicFk
unfolding any_child_col_nullable
classify_one fk tables =
    let nullable = any_child_col_nullable fk tables in
    if fk.deferrable
    then record { fk = fk; strategy = CyclicFkStrategy.deferred; nullable = nullable }
    else if nullable
    then record { fk = fk; strategy = CyclicFkStrategy.null_then_fill; nullable = true }
    else record { fk = fk; strategy = CyclicFkStrategy.blocked; nullable = false }

unfoldable pub fk_key : ForeignKey → Bytes
unfolding qualified
fk_key fk = qualified fk.child ++ (codes "->" ++ (qualified fk.parent ++ (codes ":" ++ fk.name)))

abbrev pub key_before : CyclicFk → CyclicFk → Bool
key_before a b = bytes_lt (fk_key a.fk) (fk_key b.fk)

unfoldable pub on_cycle : List Arrow → ForeignKey → Bool
unfolding reachable
on_cycle adj fk = fk.child == fk.parent || reachable adj fk.parent fk.child

unfoldable pub cyclic_among :
    (TableRef → Bool) → List Arrow → List Table → List ForeignKey → List CyclicFk
unfolding on_cycle classify_one
cyclic_among in_sel adj tables [] = []
cyclic_among in_sel adj tables (fk ∷ fks) =
    let rest = cyclic_among in_sel adj tables fks in
    if in_sel fk.parent && on_cycle adj fk then classify_one fk tables ∷ rest else rest

abbrev pub selected : List Table → TableRef → Bool
selected tables r = contains r (refs_of tables)

abbrev pub adjacency : List Table → List Arrow
adjacency tables = arrows (selected tables) (keys_of tables)

unfoldable pub classify_cyclic_fks : List Table → List CyclicFk
unfolding cyclic_among sort_by arrows fk_key
classify_cyclic_fks tables =
    sort_by key_before (cyclic_among (selected tables) (adjacency tables) tables (keys_of tables))

unfoldable pub any_blocked_cyclic_fk : List CyclicFk → Bool
unfolding is_blocked
any_blocked_cyclic_fk cs = any is_blocked cs

-- `cyclicColsByTable`: the columns of a child table, each once, in the order of their first sight.
unfoldable pub add_new : List Bytes → List Bytes → List Bytes
add_new cols [] = cols
add_new cols (c ∷ cs) = add_new (if contains c cols then cols else cols ++ (c ∷ [])) cs

unfoldable pub cyclic_cols_by_table : List CyclicFk → TableRef → List Bytes → List Bytes
unfolding add_new
cyclic_cols_by_table [] t cols = cols
cyclic_cols_by_table (c ∷ cs) t cols =
    cyclic_cols_by_table cs t (if c.fk.child == t then add_new cols c.fk.child_cols else cols)

abbrev null_fills : List CyclicFk → List CyclicFk
null_fills [] = []
null_fills (c ∷ cs) =
    let rest = null_fills cs in
    elim c.strategy [ CyclicFkStrategy.null_then_fill ↦ c ∷ rest | _ ↦ rest ]

unfoldable pub null_fill_cols_by_table : List CyclicFk → TableRef → List Bytes
unfolding cyclic_cols_by_table
null_fill_cols_by_table cs t = cyclic_cols_by_table (null_fills cs) t []

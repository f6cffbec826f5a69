-- ===== src/Preflight/Cyclic/Chains.antt =====
-- Chains of foreign keys between selected tables, for `classifyCyclicFKs` of
-- internal/engine/postgres/cyclicfk.go, and how a key on a cycle is classified.
use replicare.Base.{
  ◌≡◌, refl, sym, ◌↔◌, inl, inr, Bool, true, false, subst, contains, ==_refl, any, Option, none,
  some, Bytes, List, [], ◌∷◌, Listed, ==_cases, Bool-cases, arith, bytes_eq,
}
use replicare.Engine.{TableRef, table_ref_eq, Table, Column, ForeignKey}
use replicare.Graph.{keys_of, refs_of}
use replicare.Preflight.Cyclic.{
  arrows, parents_of, any_child_col_nullable, is_nullable, table_by_ref, column_by_name,
  CyclicFkStrategy, deferred, null_then_fill, CyclicFk, classify_one, adjacency, selected,
}
use replicare.Preflight.Cyclic.Reach.{Leads, here, step}

-- A foreign key between selected tables.
abbrev pub IsBetween : List Table → ForeignKey → Type 0
IsBetween tables fk = Listed fk (keys_of tables) × (contains fk.parent (refs_of tables) ≡ true)

-- From child to parent along such keys.
pub data Chain (tables : List Table) : TableRef → TableRef → Type 0 where
  arrived : (a : TableRef) → Chain tables a a
  along :
      (a c : TableRef) (fk : ForeignKey)
      → IsBetween tables fk
      → a ≡ fk.child
      → Chain tables fk.parent c
      → Chain tables a c

abbrev pub strategy_of : Bool → Bool → CyclicFkStrategy
strategy_of true nullable = deferred
strategy_of false true = null_then_fill
strategy_of false false = CyclicFkStrategy.blocked

-- The child table, as it is listed last, has a column of the key that may be NULL.
abbrev pub HasNullable : List Table → ForeignKey → Type 0
HasNullable tables fk =
    (t : Table) × (table_by_ref fk.child tables ≡ some t)
    × (col : Bytes) × Listed col fk.child_cols
    × (d : Column) × (column_by_name col t.columns ≡ some d)
    × (d.nullable ≡ true)

-- A foreign key between selected tables that closes a cycle, with its classification.
abbrev pub IsCyclic : List Table → CyclicFk → Type 0
IsCyclic tables c =
    IsBetween tables c.fk
    × Chain tables c.fk.parent c.fk.child
    × ((c.nullable ≡ true) ↔ HasNullable tables c.fk)
    × (c.strategy ≡ strategy_of c.fk.deferrable c.nullable)

module _ {A : Type 0} (p : A → Bool) where
  any-Listed : (xs : List A) → any p xs ≡ true → (x : A) × Listed x xs × (p x ≡ true)
  any-Listed [] h = absurd (cc)
  any-Listed (x ∷ xs) h = elim (Bool-cases (p x)) [
    | inl q ↦ (x, inl refl, q)
    | inr q ↦ let (y, l, r) = any-Listed xs (ground (arith, h, q)) in (y, inr l, r)
  ]

  Listed-any : (xs : List A) (x : A) → Listed x xs → p x ≡ true → any p xs ≡ true
  Listed-any [] x h q = elim h [ ]
  Listed-any (y ∷ xs) x (inl e) q = rw (← e, q) refl
  Listed-any (y ∷ xs) x (inr h) q = ground (arith, Listed-any xs x h q)

some_nullable :
    (o found : Option Column)
    → found ≡ o
    → is_nullable o ≡ true
    → (d : Column) × (found ≡ some d) × (d.nullable ≡ true)
some_nullable none found e h = absurd (cc)
some_nullable (some d) found e h = (d, e, h)

module _ (fk : ForeignKey) (tables : List Table) where
  nullable_of :
      (o : Option Table)
      → table_by_ref fk.child tables ≡ o
      → elim o [
        | none ↦ false
        | some child ↦ any (λ col. is_nullable (column_by_name col child.columns)) fk.child_cols
      ]
        ≡ true
      → HasNullable tables fk
  nullable_of none e h = absurd (cc)
  nullable_of (some t) e h =
      let (col, l, q) =
        any-Listed (λ col. is_nullable (column_by_name col t.columns)) fk.child_cols h in
      let (d, f, n) =
        some_nullable (column_by_name col t.columns) (column_by_name col t.columns) refl q in
      (t, e, col, l, d, f, n)

  pub any_child-HasNullable : (any_child_col_nullable fk tables ≡ true) ↔ HasNullable tables fk
  unfolding any_child_col_nullable
  any_child-HasNullable = (
    nullable_of (table_by_ref fk.child tables) refl,
    λ (t, e, col, l, d, f, n).
        rw (any_child_col_nullable, e)
          (Listed-any (λ c. is_nullable (column_by_name c t.columns)) fk.child_cols col l (rw f n)),
  )

pub same_bool {ℓ} : {P : Type ℓ} (a b : Bool) → (a ≡ true) ↔ P → (b ≡ true) ↔ P → a ≡ b
same_bool true b f g = sym (g.1 (f.0 refl))
same_bool false true f g = f.1 (g.0 refl)
same_bool false false f g = refl

pub classify_one-strategy :
    (fk : ForeignKey) (tables : List Table)
    → ((classify_one fk tables).fk ≡ fk)
      × ((classify_one fk tables).nullable ≡ any_child_col_nullable fk tables)
      × ((classify_one fk tables).strategy
          ≡ strategy_of fk.deferrable (any_child_col_nullable fk tables))
unfolding classify_one
classify_one-strategy fk tables = elim (Bool-cases fk.deferrable) [
  | inl d ↦ rw d (refl, refl, refl)
  | inr d ↦ elim (Bool-cases (any_child_col_nullable fk tables)) [
    | inl n ↦ rw (d, n) (refl, refl, refl)
    | inr n ↦ rw (d, n) (refl, refl, refl)
  ]
]

abbrev FromKey : (TableRef → Bool) → List ForeignKey → TableRef → TableRef → Type 0
FromKey in_sel fks a b =
    (fk : ForeignKey) × Listed fk fks × (in_sel fk.parent ≡ true) × (a ≡ fk.child) × (b ≡ fk.parent)

parents_of-keys :
    (in_sel : TableRef → Bool) (fks : List ForeignKey) (a b : TableRef)
    → contains b (parents_of a (arrows in_sel fks)) ≡ true
    → FromKey in_sel fks a b
unfolding parents_of arrows
parents_of-keys in_sel [] a b h = absurd (cc)
parents_of-keys in_sel (fk ∷ fks) a b h = elim (Bool-cases (in_sel fk.parent)) [
  | inr s ↦ later_key (parents_of-keys in_sel fks a b (rw s at h))
  | inl s ↦ elim (==_cases fk.child a) [
    | inr (n, _) ↦ later_key (parents_of-keys in_sel fks a b (rw (s, n) at h))
    | inl (p, e) ↦ elim (==_cases b fk.parent) [
      | inl (_, f) ↦ (fk, inl refl, s, sym e, f)
      | inr (n, _) ↦ later_key (parents_of-keys in_sel fks a b (rw (s, p, n) at h))
    ]
  ]
]
  where
    later_key : FromKey in_sel fks a b → FromKey in_sel (fk ∷ fks) a b
    later_key (g, l, i, c, q) = (g, inr l, i, c, q)

keys-parents_of :
    (in_sel : TableRef → Bool) (fks : List ForeignKey) (fk : ForeignKey)
    → Listed fk fks
    → in_sel fk.parent ≡ true
    → contains fk.parent (parents_of fk.child (arrows in_sel fks)) ≡ true
unfolding parents_of arrows
keys-parents_of in_sel [] fk h s = elim h [ ]
keys-parents_of in_sel (g ∷ fks) fk (inl e) s =
    rw (← e, s, ==_refl fk.child, ==_refl fk.parent) refl
keys-parents_of in_sel (g ∷ fks) fk (inr h) s = ground (arith, keys-parents_of in_sel fks fk h s)

pub Chain-Leads :
    (tables : List Table) (a c : TableRef) → Chain tables a c → Leads (adjacency tables) a c
Chain-Leads tables a c (arrived _) = here a
Chain-Leads tables a c (along _ _ fk (l, s) e k) = rw e (
    step fk.child fk.parent c (keys-parents_of (selected tables) (keys_of tables) fk l s)
      (Chain-Leads tables fk.parent c k))

pub Leads-Chain :
    (tables : List Table) (a c : TableRef) → Leads (adjacency tables) a c → Chain tables a c
Leads-Chain tables a c (here _) = arrived a
Leads-Chain tables a c (step _ b _ m l) =
    let (fk, k, s, e, f) = parents_of-keys (selected tables) (keys_of tables) a b m in
    along a c fk (k, s) e (subst (λ t. Chain tables t c) f (Leads-Chain tables b c l))

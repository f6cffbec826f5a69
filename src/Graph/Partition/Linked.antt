-- ===== src/Graph/Partition/Linked.antt =====
-- Tables that foreign keys between selected tables connect, and the classes of the union-find
-- structure of internal/fkgraph/fkgraph.go.
use replicare.Base.{
  ◌≡◌, refl, sym, ◌∙◌, ap, ◌↔◌, inl, inr, Bool, true, List, ◌∷◌, Listed, ◌==◌, ==_cases,
  if◌then◌else◌,
}
use replicare.Engine.{TableRef, table_ref_eq, ForeignKey}
use replicare.Graph.Partition.Unions.{joined}

module _ (in_sel : TableRef → Bool) where
  -- Connected by foreign keys of the list whose parent is selected, in either direction.
  pub data Linked (fks : List ForeignKey) : TableRef → TableRef → Type 0 where
    same : (a : TableRef) → Linked fks a a
    edge :
        (fk : ForeignKey) → Listed fk fks → in_sel fk.parent ≡ true → Linked fks fk.child fk.parent
    back : (a b : TableRef) → Linked fks a b → Linked fks b a
    chain : (a b c : TableRef) → Linked fks a b → Linked fks b c → Linked fks a c

  pub Linked-mono :
      (fks gks : List ForeignKey)
      → ((fk : ForeignKey) → Listed fk fks → Listed fk gks)
      → (a b : TableRef) → Linked fks a b
      → Linked gks a b
  Linked-mono fks gks sub a b (same _) = same a
  Linked-mono fks gks sub a b (edge fk l s) = edge fk (sub fk l) s
  Linked-mono fks gks sub a b (back _ _ l) = back b a (Linked-mono fks gks sub b a l)
  Linked-mono fks gks sub a b (chain _ c _ l m) =
      chain a c b (Linked-mono fks gks sub a c l) (Linked-mono fks gks sub c b m)

  -- A function that joins the ends of each key joins all that is linked.
  pub Linked-fold :
      (fks : List ForeignKey) (r : TableRef → TableRef)
      → ((fk : ForeignKey) → Listed fk fks → in_sel fk.parent ≡ true → r fk.child ≡ r fk.parent)
      → (a b : TableRef) → Linked fks a b
      → r a ≡ r b
  Linked-fold fks r h a b (same _) = refl
  Linked-fold fks r h a b (edge fk l s) = h fk l s
  Linked-fold fks r h a b (back _ _ l) = sym (Linked-fold fks r h b a l)
  Linked-fold fks r h a b (chain _ c _ l m) = Linked-fold fks r h a c l ∙ Linked-fold fks r h c b m

  -- The roots tell which tables are linked.
  abbrev pub Decides : (TableRef → TableRef) → List ForeignKey → Type 0
  Decides root fks = (x y : TableRef) → (root x ≡ root y) ↔ Linked fks x y

  module _ (root : TableRef → TableRef) (fk : ForeignKey) (fks : List ForeignKey)
      (d : Decides root fks) (s : in_sel fk.parent ≡ true) where
    older : (x y : TableRef) → root x ≡ root y → Linked (fk ∷ fks) x y
    older x y e = Linked-mono fks (fk ∷ fks) (λ g l. inr l) x y ((d x y).0 e)

    -- A function that joins what the roots join, and the ends of the new key.
    folds :
        (r : TableRef → TableRef)
        → ((x y : TableRef) → root x ≡ root y → r x ≡ r y)
        → r fk.child ≡ r fk.parent
        → (x y : TableRef) → Linked (fk ∷ fks) x y
        → r x ≡ r y
    folds r up e = Linked-fold (fk ∷ fks) r (λ g l t. elim l [
      | inl q ↦ rw q e
      | inr l ↦ up g.child g.parent ((d g.child g.parent).1 (edge g l t))
    ])

    pub same-Decides : root fk.child ≡ root fk.parent → Decides root (fk ∷ fks)
    same-Decides e x y = (older x y, folds root (λ x y e. e) e x y)

    module _ (p q ra rb : TableRef) (l : Linked (fk ∷ fks) p q) (ep : root p ≡ ra)
        (eq : root q ≡ rb) where
      joined-older :
          (x y : TableRef) → joined root ra rb x ≡ joined root ra rb y → Linked (fk ∷ fks) x y
      joined-older x y e = elim (==_cases (root x) rb) [
        | inl (hx, sx) ↦ elim (==_cases (root y) rb) [
          | inl (_, sy) ↦ older x y (sx ∙ sym sy)
          | inr (hy, _) ↦
              let e' : ra ≡ root y = rw (hx, hy) at e in
              chain x q y (older x q (sx ∙ sym eq)) (chain q p y (back p q l) (older p y (ep ∙ e')))
        ]
        | inr (hx, _) ↦ elim (==_cases (root y) rb) [
          | inl (hy, sy) ↦
              let e' : root x ≡ ra = rw (hx, hy) at e in
              chain x p y (older x p (e' ∙ sym ep)) (chain p q y l (older q y (eq ∙ sym sy)))
          | inr (hy, _) ↦ older x y (rw (hx, hy) at e)
        ]
      ]

      pub joined-Decides :
          joined root ra rb fk.child ≡ joined root ra rb fk.parent
          → Decides (joined root ra rb) (fk ∷ fks)
      joined-Decides e x y = (
        joined-older x y,
        folds (joined root ra rb) (λ x y e. ap (λ r. if r == rb then ra else r) e) e x y,
      )

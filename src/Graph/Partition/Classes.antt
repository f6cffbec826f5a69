-- ===== src/Graph/Partition/Classes.antt =====
-- `union` of internal/fkgraph/fkgraph.go, over all foreign keys: the roots are the classes of
-- linked tables.
use replicare.Base.{
  ℕ, suc, ◌+◌, ◌≤◌, ◌<◌, ◌≡◌, ◌≢◌, refl, sym, ◌∙◌, ◌↔◌, ◌⊎◌, inl, inr, Bool, true, false, List, [],
  ◌∷◌, Listed, contains, ==_cases, if◌then◌else◌, arith, Bool-cases, ltb, ltb→lt, length,
}
use replicare.Engine.{TableRef, table_ref_eq, ForeignKey}
use replicare.Graph.Partition.{
  UnionFind, add, find, attach, link, union, union_all, add_all, new_union_find,
}
use replicare.Graph.Partition.Forest.{Known, IsForest, find-root}
use replicare.Graph.Partition.Unions.{
  add_missing-IsForest, joined, joined-other, joined-rb, attach-IsForest, attach-Known,
}
use replicare.Graph.Partition.Linked.{
  Linked, same, edge, back, Linked-fold, Linked-mono, Decides, same-Decides, joined-Decides,
}

pub record Classes (in_sel : TableRef → Bool) (u : UnionFind) (fks : List ForeignKey) (bound : ℕ)
    : Type 0 where
  pub root : TableRef → TableRef
  pub forest : IsForest u root bound
  pub decides : Decides in_sel root fks

abbrev Keeps : UnionFind → UnionFind → Type 0
Keeps u v = (x : TableRef) → Known u x → Known v x

add-IsForest :
    (root : TableRef → TableRef) (bound : ℕ) (u : UnionFind) (x : TableRef)
    → IsForest u root bound
    → IsForest (add u x) root bound × Known (add u x) x × Keeps u (add u x)
unfolding add
add-IsForest root bound u x f = add_missing-IsForest root bound u x (u.parent x) refl f

raise :
    (root : TableRef → TableRef) (bound : ℕ) (u : UnionFind)
    → IsForest u root bound
    → IsForest u root (suc bound)
raise root bound u f = record {
  up = f.up;
  top = f.top;
  alone = f.alone;
  low = λ x. omega (arith, f.low x);
}

module _ (in_sel : TableRef → Bool) (fk : ForeignKey) (fks : List ForeignKey)
    (s : in_sel fk.parent ≡ true) (bound : ℕ) where
  abbrev a : TableRef
  a = fk.child

  abbrev b : TableRef
  b = fk.parent

  abbrev Linking : UnionFind → UnionFind → Type 0
  Linking u v = Classes in_sel v (fk ∷ fks) (suc bound) × Keeps u v

  fresh : Linked in_sel (fk ∷ fks) a b
  fresh = edge fk (inl refl) s

  module _ (root : TableRef → TableRef) (u : UnionFind) (f : IsForest u root bound)
      (d : Decides in_sel root fks) (ka : Known u a) (kb : Known u b) where
    root-root : (x : TableRef) → Known u x → root (root x) ≡ root x
    root-root x k =
        let t = f.top x k in
        elim (f.up (root x) (root x) t).2 [ inl (_, r) ↦ r | inr lt ↦ absurd (omega arith) ]

    -- `q` joins the class of `p`.
    attach-Linking :
        (p q : TableRef)
        → Known u p
        → Known u q
        → Linked in_sel (fk ∷ fks) p q
        → root p ≢ root q
        → u.rank (root q) ≤ u.rank (root p)
        → joined root (root p) (root q) a ≡ joined root (root p) (root q) b
        → Linking u (attach u (root p) (root q))
    attach-Linking p q kp kq l ne le e = (
      record {
        root = joined root (root p) (root q);
        forest =
            attach-IsForest root bound u (root p) (root q) f ne (f.top p kp) (f.top q kq)
              (root-root p kp) (root-root q kq) le;
        decides = joined-Decides in_sel root fk fks d s p q (root p) (root q) l refl refl e;
      },
      λ x k. attach-Known u (root p) (root q) x k,
    )

    link-Linking : Linking u (link u (root a) (root b))
    unfolding link
    link-Linking = elim (==_cases (root a) (root b)) [
      | inl (h, e) ↦ rw h (
        record {
          root = root;
          forest = raise root bound u f;
          decides = same-Decides in_sel root fk fks d s e;
        },
        λ x k. k,
      )
      | inr (h, n) ↦ elim (Bool-cases (ltb (u.rank (root a)) (u.rank (root b)))) [
        | inl lt ↦
            rw (h, lt)
              (attach-Linking b a kb ka (back a b fresh) (λ e. n (sym e))
                (omega (arith, ltb→lt _ _ lt))
                (joined-rb root (root b) (root a) a refl
                  ∙ sym (joined-other root (root b) (root a) b (λ e. n (sym e)))))
        | inr le ↦
            rw (h, le)
              (attach-Linking a b ka kb fresh n (ground arith) (
                joined-other root (root a) (root b) a n
                ∙ sym (joined-rb root (root a) (root b) b refl)))
      ]
    ]

  union-Linking :
      (fuel : ℕ) (u : UnionFind)
      → bound < fuel
      → Classes in_sel u fks bound
      → Linking u (union fuel u a b)
  unfolding union
  union-Linking fuel u lt c =
      let r = c.root in
      let (f0, ka, k0) = add-IsForest r bound u a c.forest in
      let u0 = add u a in
      let (f1, kb, k1) = add-IsForest r bound u0 b f0 in
      let u1 = add u0 b in
      let (ea, f2, s2) = find-root r bound fuel u1 a f1 (k1 a ka) (omega arith) in
      let u2 = (find fuel u1 a).0 in
      let (eb, f3, s3) = find-root r bound fuel u2 b f2 (s2.0 b kb) (omega arith) in
      let u3 = (find fuel u2 b).0 in
      let known : Keeps u u3 = λ x k. s3.0 x (s2.0 x (k1 x (k0 x k))) in
      let (done, more) =
        link-Linking r u3 f3 c.decides (s3.0 a (s2.0 a (k1 a ka))) (s3.0 b (s2.0 b kb)) in
      rw (ea, eb) (done, λ x k. more x (known x k))

-- A key whose parent is not selected links nothing.
skip-Decides :
    (in_sel : TableRef → Bool) (root : TableRef → TableRef) (fk : ForeignKey)
    (fks : List ForeignKey)
    → in_sel fk.parent ≡ false
    → Decides in_sel root fks
    → Decides in_sel root (fk ∷ fks)
skip-Decides in_sel root fk fks n d x y = (
  λ e. Linked-mono in_sel fks (fk ∷ fks) (λ g l. inr l) x y ((d x y).0 e),
  Linked-fold in_sel (fk ∷ fks) root
      (λ g l t. elim l [ inl q ↦ cc (rw q at t, n) | inr l ↦ (d g.child g.parent).1 (edge g l t) ])
      x y,
)

-- The keys joined so far, latest first.
abbrev joined_after : List ForeignKey → List ForeignKey → List ForeignKey
joined_after [] done = done
joined_after (fk ∷ fks) done = joined_after fks (fk ∷ done)

Listed-joined_after :
    (g : ForeignKey) (fks done : List ForeignKey)
    → Listed g (joined_after fks done) ↔ (Listed g fks ⊎ Listed g done)
Listed-joined_after g [] done = (λ l. inr l, λ s. elim s [ inl l ↦ elim l [ ] | inr l ↦ l ])
Listed-joined_after g (fk ∷ fks) done =
    let (of, to) = Listed-joined_after g fks (fk ∷ done) in
    (
      λ l. elim (of l) [ inl m ↦ inl (inr m) | inr (inl e) ↦ inl (inl e) | inr (inr m) ↦ inr m ],
      λ s. to (elim s [ inl (inl e) ↦ inr (inl e) | inl (inr m) ↦ inl m | inr m ↦ inr (inr m) ]),
    )

module _ (in_sel : TableRef → Bool) where
  abbrev Result : UnionFind → UnionFind → List ForeignKey → ℕ → Type 0
  Result u v fks most = (b : ℕ) × (b ≤ most) × Classes in_sel v fks b × Keeps u v

  one-Classes :
      (fuel : ℕ) (fk : ForeignKey) (done : List ForeignKey) (bound : ℕ) (u : UnionFind)
      → bound < fuel
      → Classes in_sel u done bound
      → (s : Bool) → in_sel fk.parent ≡ s
      → Result u (if s then union fuel u fk.child fk.parent else u) (fk ∷ done) (suc bound)
  one-Classes fuel fk done bound u lt c false n = (
    bound,
    omega arith,
    record {
      root = c.root;
      forest = c.forest;
      decides = skip-Decides in_sel c.root fk done n c.decides;
    },
    λ x k. k,
  )
  one-Classes fuel fk done bound u lt c true s =
      let (e, known) = union-Linking in_sel fk done s bound fuel u lt c in
      (suc bound, omega arith, e, known)

  union_all-Classes :
      (fuel : ℕ) (fks done : List ForeignKey) (bound : ℕ) (u : UnionFind)
      → bound + length fks < fuel
      → Classes in_sel u done bound
      → Result u (union_all fuel in_sel u fks) (joined_after fks done) (bound + length fks)
  unfolding union_all
  union_all-Classes fuel [] done bound u lt c = (bound, omega arith, c, λ x k. k)
  union_all-Classes fuel (fk ∷ fks) done bound u lt c =
      let u' = if in_sel fk.parent then union fuel u fk.child fk.parent else u in
      let (b, le, e, known) =
        one-Classes fuel fk done bound u (omega arith) c (in_sel fk.parent) refl in
      let (b', le', d, k) = union_all-Classes fuel fks (fk ∷ done) b u' (omega arith) e in
      (b', omega arith, d, λ x m. k x (known x m))

  add_all-Classes :
      (ts : List TableRef) (u : UnionFind)
      → Classes in_sel u [] 0
      → Classes in_sel (add_all u ts) [] 0
        × Keeps u (add_all u ts)
        × ((x : TableRef) → contains x ts ≡ true → Known (add_all u ts) x)
  unfolding add_all
  add_all-Classes [] u c = (c, (λ x k. k), λ x m. cc)
  add_all-Classes (t ∷ ts) u c =
      let (f, own, k) = add-IsForest c.root 0 u t c.forest in
      let (d, more, all) =
        add_all-Classes ts (add u t) (record { root = c.root; forest = f; decides = c.decides }) in
      (
        d,
        (λ x m. more x (k x m)),
        λ x m. elim (==_cases x t) [
          | inl (_, q) ↦ rw q (more t own)
          | inr (h, _) ↦ all x (rw h at m)
        ],
      )

  start-Classes : Classes in_sel new_union_find [] 0
  start-Classes = record {
    root = λ x. x;
    forest = record {
      up = λ x p e. cc;
      top = λ x (p, e). cc;
      alone = λ x e. refl;
      low = λ x. omega arith;
    };
    decides = λ x y. (λ e. rw e (same y), Linked-fold in_sel [] (λ x. x) (λ g l s. elim l [ ]) x y);
  }

  -- After all unions the roots are the classes of the tables that the keys link, and every
  -- selected table has one.
  pub all-Classes :
      (ts : List TableRef) (fks : List ForeignKey)
      → let v = union_all (suc (length fks)) in_sel (add_all new_union_find ts) fks in
        ((b : ℕ) × (b ≤ length fks) × Classes in_sel v fks b)
        × ((x : TableRef) → contains x ts ≡ true → Known v x)
  all-Classes ts fks =
      let (c, _, all) = add_all-Classes ts new_union_find start-Classes in
      let (b, le, d, k) =
        union_all-Classes (suc (length fks)) fks [] 0 (add_all new_union_find ts) (omega arith) c in
      let sub : (g : ForeignKey) → Listed g (joined_after fks []) → Listed g fks =
        λ g l. elim ((Listed-joined_after g fks []).0 l) [ inl m ↦ m | inr m ↦ elim m [ ] ] in
      let sup : (g : ForeignKey) → Listed g fks → Listed g (joined_after fks []) =
        λ g l. (Listed-joined_after g fks []).1 (inl l) in
      (
        (
          b,
          omega arith,
          record {
            root = d.root;
            forest = d.forest;
            decides = λ x y. (
              λ e. Linked-mono in_sel _ fks sub x y ((d.decides x y).0 e),
              λ l. (d.decides x y).1 (Linked-mono in_sel fks _ sup x y l),
            );
          },
        ),
        λ x m. k x (all x m),
      )

-- ===== src/Base/Sort.antt =====
-- `sort.Slice` on a slice without equal elements: insertion by a strict order.
use mathlib.Core.Path.{◌≡◌, refl, ap, ◌∙◌}
use mathlib.Core.Logic.{◌↔◌, ◌⊎◌, inl, inr}
use mathlib.Core.Bool.{Bool, true, false, ◌&&◌, ◌||◌}
use mathlib.Core.List.{List, [], ◌∷◌}
use native.Mathlib.Omega.{arith}
use replicare.Base.Tests.{if◌then◌else◌, Bool-cases}
use replicare.Base.Lists.{Listed, any}
use replicare.Base.Equality.{Eq, ◌==◌, contains, is_nodup}

module _ {ℓ} {A : Type ℓ} (less : A → A → Bool) where
  unfoldable pub insert_sorted : A → List A → List A
  insert_sorted a [] = a ∷ []
  insert_sorted a (x ∷ xs) =
      let rest = insert_sorted a xs in if less x a then x ∷ rest else a ∷ x ∷ xs

  unfoldable pub sort_by : List A → List A
  unfolding insert_sorted
  sort_by [] = []
  sort_by (x ∷ xs) = insert_sorted x (sort_by xs)

  -- No element is less than the one before it.
  abbrev pub starts_after : A → List A → Bool
  starts_after a [] = true
  starts_after a (x ∷ xs) = if less x a then false else true

  abbrev pub is_sorted : List A → Bool
  is_sorted [] = true
  is_sorted (x ∷ xs) = starts_after x xs && is_sorted xs

  module _ (asym : (a b : A) → less a b ≡ true → less b a ≡ false) where
    insert_sorted-sorted :
        (a : A) (xs : List A) → is_sorted xs ≡ true → is_sorted (insert_sorted a xs) ≡ true
    unfolding insert_sorted
    insert_sorted-sorted a [] h = refl
    insert_sorted-sorted a (x ∷ []) h = ground (arith, asym x a)
    insert_sorted-sorted a (x ∷ y ∷ xs) h =
        ground (arith, asym x a, insert_sorted-sorted a (y ∷ xs))

    pub sort_by-sorted : (xs : List A) → is_sorted (sort_by xs) ≡ true
    unfolding sort_by
    sort_by-sorted [] = refl
    sort_by-sorted (x ∷ xs) = insert_sorted-sorted x (sort_by xs) (sort_by-sorted xs)

  any-insert_sorted :
      (f : A → Bool) (a : A) (xs : List A) → any f (insert_sorted a xs) ≡ (f a || any f xs)
  unfolding insert_sorted
  any-insert_sorted f a [] = refl
  any-insert_sorted f a (x ∷ xs) = ground (arith, any-insert_sorted f a xs)

  pub any-sort_by : (f : A → Bool) (xs : List A) → any f (sort_by xs) ≡ any f xs
  unfolding sort_by
  any-sort_by f [] = refl
  any-sort_by f (x ∷ xs) =
      any-insert_sorted f x (sort_by xs) ∙ ap (λ b. f x || b) (any-sort_by f xs)

  module _ ⦃e : Eq A⦄ where
    contains-insert_sorted :
        (b a : A) (xs : List A) → contains b (insert_sorted a xs) ≡ (b == a || contains b xs)
    unfolding insert_sorted
    contains-insert_sorted b a [] = refl
    contains-insert_sorted b a (x ∷ xs) = ground (arith, contains-insert_sorted b a xs)

    pub contains-sort_by : (b : A) (xs : List A) → contains b (sort_by xs) ≡ contains b xs
    unfolding sort_by
    contains-sort_by b [] = refl
    contains-sort_by b (x ∷ xs) =
        ground (arith, contains-insert_sorted b x (sort_by xs), contains-sort_by b xs)

    insert_sorted-nodup :
        (a : A) (xs : List A)
        → contains a xs ≡ false
        → is_nodup xs ≡ true
        → is_nodup (insert_sorted a xs) ≡ true
    unfolding insert_sorted
    insert_sorted-nodup a [] n h = refl
    insert_sorted-nodup a (x ∷ xs) n h = ground (
      arith,
      e.beq_iff x a,
      e.beq_iff a x,
      contains-insert_sorted x a xs,
      insert_sorted-nodup a xs,
    )

    pub sort_by-nodup : (xs : List A) → is_nodup xs ≡ true → is_nodup (sort_by xs) ≡ true
    unfolding sort_by
    sort_by-nodup [] h = refl
    sort_by-nodup (x ∷ xs) h =
        insert_sorted-nodup x (sort_by xs) (ground (arith, contains-sort_by x xs))
          (sort_by-nodup xs (ground arith))

module _ {A : Type 0} (less : A → A → Bool) where
  Listed-insert_sorted :
      (b a : A) (xs : List A) → (b ≡ a) ⊎ Listed b xs → Listed b (insert_sorted less a xs)
  unfolding insert_sorted
  Listed-insert_sorted b a [] h = h
  Listed-insert_sorted b a (x ∷ xs) h = elim (Bool-cases (less x a)) [
    | inr p ↦ rw p h
    | inl p ↦ rw p (elim h [
      | inl e ↦ inr (Listed-insert_sorted b a xs (inl e))
      | inr (inl e) ↦ inl e
      | inr (inr k) ↦ inr (Listed-insert_sorted b a xs (inr k))
    ])
  ]

  Listed-of_insert :
      (b a : A) (xs : List A) → Listed b (insert_sorted less a xs) → (b ≡ a) ⊎ Listed b xs
  unfolding insert_sorted
  Listed-of_insert b a [] h = h
  Listed-of_insert b a (x ∷ xs) h = elim (Bool-cases (less x a)) [
    | inr p ↦ rw p at h
    | inl p ↦ elim (rw p at h) [
      | inl e ↦ inr (inl e)
      | inr k ↦ elim (Listed-of_insert b a xs k) [ inl e ↦ inl e | inr m ↦ inr (inr m) ]
    ]
  ]

  pub Listed-sort_by : (b : A) (xs : List A) → Listed b (sort_by less xs) ↔ Listed b xs
  unfolding sort_by
  Listed-sort_by b [] = (λ h. h, λ h. h)
  Listed-sort_by b (x ∷ xs) =
      let (of, to) = Listed-sort_by b xs in
      (
        λ h. elim (Listed-of_insert b x (sort_by less xs) h) [ inl e ↦ inl e | inr k ↦ inr (of k) ],
        λ h.
            Listed-insert_sorted b x (sort_by less xs)
              (elim h [ inl e ↦ inl e | inr k ↦ inr (to k) ]),
      )

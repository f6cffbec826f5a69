-- ===== src/Preflight/Cyclic/Reach.antt =====
-- `reachable` of internal/engine/postgres/cyclicfk.go decides whether a chain of foreign keys leads
-- from one table to another.
use replicare.Base.{
  ℕ, zero, suc, ◌+◌, ◌≤◌, ◌<◌, ◌≡◌, refl, ◌↔◌, inl, inr, Bool, true, false, ◌||◌, some, List, [],
  ◌∷◌, ◌++◌, length, length-append, contains, contains-append, ==_cases, ==_refl, Bool-cases,
  if◌then◌else◌, ◌==◌, arith, ap, ◌∙◌,
}
use mathlib.Core.List.{reverse, reverse-cons}
use replicare.Engine.{TableRef, table_ref_eq}
use replicare.Preflight.Cyclic.{Arrow, parents_of, search_from, enough, reachable}

-- A chain of arrows.
pub data Leads (adj : List Arrow) : TableRef → TableRef → Type 0 where
  here : (a : TableRef) → Leads adj a a
  step : (a b c : TableRef) → contains b (parents_of a adj) ≡ true → Leads adj b c → Leads adj a c

Leads-snoc :
    (adj : List Arrow) (a b c : TableRef)
    → Leads adj a b
    → contains c (parents_of b adj) ≡ true
    → Leads adj a c
Leads-snoc adj a b c (here _) e = step a c c e (here c)
Leads-snoc adj a b c (step _ d _ f l) e = step a d c f (Leads-snoc adj d b c l e)

contains-reverse : (x : TableRef) (xs : List TableRef) → contains x (reverse xs) ≡ contains x xs
contains-reverse x [] = refl
contains-reverse x (y ∷ xs) =
    rw (reverse-cons, contains-append) (ground (arith, contains-reverse x xs))

length-reverse : (xs : List TableRef) → length (reverse xs) ≡ length xs
length-reverse [] = refl
length-reverse (y ∷ xs) = rw (reverse-cons, length-append) (omega (arith, length-reverse xs))

-- The arrows of tables that are not yet expanded.
abbrev unseen : List TableRef → List Arrow → ℕ
unseen seen [] = 0
unseen seen ((c, p) ∷ es) = (if contains c seen then 0 else 1) + unseen seen es

unseen_drop :
    (n : TableRef) (seen : List TableRef) (adj : List Arrow)
    → contains n seen ≡ false
    → length (parents_of n adj) + unseen (n ∷ seen) adj ≡ unseen seen adj
unfolding parents_of
unseen_drop n seen [] h = refl
unseen_drop n seen ((c, p) ∷ es) h =
    ground (arith, table_ref_eq.beq_iff c n, unseen_drop n seen es h)

unseen-le-length : (seen : List TableRef) (adj : List Arrow) → unseen seen adj ≤ length adj
unseen-le-length seen [] = omega arith
unseen-le-length seen (e ∷ es) = ground (arith, unseen-le-length seen es)

abbrev pushed : List Arrow → TableRef → List TableRef → List TableRef
pushed adj n stack = reverse (parents_of n adj) ++ stack

length-pushed :
    (adj : List Arrow) (n : TableRef) (stack : List TableRef)
    → length (pushed adj n stack) ≡ length (parents_of n adj) + length stack
length-pushed adj n stack =
    length-append (reverse (parents_of n adj)) stack
    ∙ ap (λ k. k + length stack) (length-reverse (parents_of n adj))

contains-pushed :
    (adj : List Arrow) (n x : TableRef) (stack : List TableRef)
    → contains x (pushed adj n stack) ≡ (contains x (parents_of n adj) || contains x stack)
contains-pushed adj n x stack =
    contains-append x (reverse (parents_of n adj)) stack
    ∙ ap (λ b. b || contains x stack) (contains-reverse x (parents_of n adj))

module _ (adj : List Arrow) (to : TableRef) where
  -- With this much fuel the search ends.
  search_from-ends :
      (fuel : ℕ) (seen stack : List TableRef)
      → length stack + unseen seen adj < fuel
      → (b : Bool) × (search_from adj to fuel seen stack ≡ some b)
  unfolding search_from
  search_from-ends zero seen stack h = absurd (omega arith)
  search_from-ends (suc fuel) seen [] h = (false, refl)
  search_from-ends (suc fuel) seen (n ∷ stack) h = elim (Bool-cases (n == to)) [
    | inl p ↦ (true, rw p)
    | inr p ↦ elim (Bool-cases (contains n seen)) [
      | inl q ↦ rw (p, q) (search_from-ends fuel seen stack (omega arith))
      | inr q ↦
          rw (p, q)
            (search_from-ends fuel (n ∷ seen) (pushed adj n stack)
              (omega (arith, unseen_drop n seen adj q, length-pushed adj n stack)))
    ]
  ]

  module _ (from : TableRef) where
    abbrev AllLed : List TableRef → Type 0
    AllLed stack = (n : TableRef) → contains n stack ≡ true → Leads adj from n

    search_from-led :
        (fuel : ℕ) (seen stack : List TableRef)
        → search_from adj to fuel seen stack ≡ some true
        → AllLed stack
        → Leads adj from to
    unfolding search_from
    search_from-led zero seen stack h led = cc
    search_from-led (suc fuel) seen [] h led = cc
    search_from-led (suc fuel) seen (n ∷ stack) h led = elim (==_cases n to) [
      | inl (p, e) ↦ led to (ground (arith, table_ref_eq.beq_iff to n))
      | inr (p, _) ↦ elim (Bool-cases (contains n seen)) [
        | inl q ↦ search_from-led fuel seen stack (rw (p, q) at h) (λ x m. led x (ground arith))
        | inr q ↦ search_from-led fuel (n ∷ seen) (pushed adj n stack) (rw (p, q) at h) (λ x m.
            elim (Bool-cases (contains x stack)) [
              | inl k ↦ led x (ground arith)
              | inr k ↦
                  Leads-snoc adj from n x (led n (ground (arith, ==_refl n)))
                    (ground (arith, contains-pushed adj n x stack))
            ])
      ]
    ]

    -- What is expanded leads to nothing that is neither expanded nor waiting.
    record IsClosed (seen stack : List TableRef) : Type 0 where
      not_to : contains to seen ≡ false
      start : (contains from seen || contains from stack) ≡ true
      closed :
          (n p : TableRef)
          → contains n seen ≡ true
          → contains p (parents_of n adj) ≡ true
          → (contains p seen || contains p stack) ≡ true

    closed-none :
        (seen : List TableRef) (a b : TableRef)
        → IsClosed seen []
        → contains a seen ≡ true
        → Leads adj a b
        → contains b seen ≡ true
    closed-none seen a b h m (here _) = m
    closed-none seen a b h m (step _ c _ e l) =
        closed-none seen c b h (ground (arith, h.closed a c m e)) l

    abbrev is_known : List TableRef → List TableRef → TableRef → Bool
    is_known seen stack x = contains x seen || contains x stack

    known_skip :
        (seen stack : List TableRef) (n x : TableRef)
        → contains n seen ≡ true
        → is_known seen (n ∷ stack) x ≡ true
        → is_known seen stack x ≡ true
    known_skip seen stack n x q h = elim (==_cases x n) [
      | inl (_, e) ↦ rw (e, q) refl
      | inr (p, _) ↦ ground arith
    ]

    known_push :
        (seen stack : List TableRef) (n x : TableRef)
        → is_known seen (n ∷ stack) x ≡ true
        → is_known (n ∷ seen) (pushed adj n stack) x ≡ true
    known_push seen stack n x h = ground (arith, contains-pushed adj n x stack)

    closed_push :
        (seen stack : List TableRef) (n x y : TableRef)
        → IsClosed seen (n ∷ stack)
        → contains x (n ∷ seen) ≡ true
        → contains y (parents_of x adj) ≡ true
        → is_known (n ∷ seen) (pushed adj n stack) y ≡ true
    closed_push seen stack n x y k m e = elim (==_cases x n) [
      | inl (_, q) ↦
          let f : contains y (parents_of n adj) ≡ true = rw q at e in
          ground (arith, contains-pushed adj n y stack)
      | inr (p, _) ↦ known_push seen stack n y (k.closed x y (ground arith) e)
    ]

    search_from-not :
        (fuel : ℕ) (seen stack : List TableRef)
        → search_from adj to fuel seen stack ≡ some false
        → IsClosed seen stack
        → ¬ Leads adj from to
    unfolding search_from
    search_from-not zero seen stack h k l = cc
    search_from-not (suc fuel) seen [] h k l =
        let m = closed-none seen from to k (ground (arith, k.start)) l in cc (m, k.not_to)
    search_from-not (suc fuel) seen (n ∷ stack) h k l = elim (Bool-cases (n == to)) [
      | inl p ↦ cc (rw p at h)
      | inr p ↦ elim (Bool-cases (contains n seen)) [
        | inl q ↦
            search_from-not fuel seen stack (rw (p, q) at h)
              (record {
                not_to = k.not_to;
                start = known_skip seen stack n from q k.start;
                closed = λ x y m e. known_skip seen stack n y q (k.closed x y m e);
              })
              l
        | inr q ↦
            search_from-not fuel (n ∷ seen) (pushed adj n stack) (rw (p, q) at h)
              (record {
                not_to =
                    ground (arith, k.not_to, table_ref_eq.beq_iff to n, table_ref_eq.beq_iff n to);
                start = known_push seen stack n from k.start;
                closed = λ x y m e. closed_push seen stack n x y k m e;
              })
              l
      ]
    ]

module _ (adj : List Arrow) (from to : TableRef) where
  ends : (b : Bool) × (search_from adj to (enough adj) [] (from ∷ []) ≡ some b)
  ends =
      search_from-ends adj to (enough adj) [] (from ∷ []) (omega (arith, unseen-le-length [] adj))

  pub reachable-Leads : (reachable adj from to ≡ true) ↔ Leads adj from to
  unfolding reachable
  reachable-Leads = decided ends.0 ends.1
    where
      decided :
          (b : Bool)
          → search_from adj to (enough adj) [] (from ∷ []) ≡ some b
          → (reachable adj from to ≡ true) ↔ Leads adj from to
      decided true e = (
        λ h. search_from-led adj to from (enough adj) [] (from ∷ []) e (λ n m.
            elim (==_cases n from) [
              | inl (_, q) ↦ rw q (here from)
              | inr (p, _) ↦ absurd (ground arith)
            ]),
        λ l. rw e refl,
      )
      decided false e = (
        λ h. cc (rw e at h),
        λ l. absurd (
            search_from-not adj to from (enough adj) [] (from ∷ []) e
              (record {
                not_to = refl;
                start = ground (arith, ==_refl from);
                closed = λ x y m f. cc;
              })
              l),
      )

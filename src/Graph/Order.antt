-- ===== src/Graph/Order.antt =====
-- Kahn's loop: what holds of the in-degrees, the queue and the emitted tables at every step.
pub mod Kahn
pub mod Sorted
use replicare.Base.{
  ℕ, zero, suc, ◌+◌, ◌-◌, ◌≤◌, ◌<◌, ◌≡◌, refl, sym, subst, ap, ◌∙◌, ◌⊎◌, inl, inr, arith, Bool,
  true, false, not, ◌&&◌, ◌||◌, List, [], ◌∷◌, ◌++◌, nat_beq, nat_eq, length, contains,
  contains-append, is_nodup, update, ◌==◌, ==_cases, ==_refl, if◌then◌else◌, Bool-cases, sort_by,
  insert_sorted, contains-sort_by, sort_by-nodup, All,
}
use replicare.Engine.{TableRef, table_ref_eq}
use replicare.Graph.{Edge, before, sort_refs, indegree, children_of, relax}

-- How often `t` stands in a list.
abbrev pub count : TableRef → List TableRef → ℕ
count t [] = 0
count t (x ∷ xs) = (if t == x then 1 else 0) + count t xs

-- Edges to `t` from tables that are not emitted.
abbrev pub blocked : List Edge → List TableRef → TableRef → ℕ
blocked [] emitted t = 0
blocked ((p, c) ∷ es) emitted t =
    (if t == c && not (contains p emitted) then 1 else 0) + blocked es emitted t

pub blocked_start : (es : List Edge) (t : TableRef) → indegree es t ≡ blocked es [] t
blocked_start [] t = refl
blocked_start ((p, c) ∷ es) t = ground (arith, blocked_start es t)

-- Emitting a table takes its children's edges away.
blocked_emit :
    (es : List Edge) (emitted : List TableRef) (n t : TableRef)
    → contains n emitted ≡ false
    → blocked es emitted t ≡ blocked es (n ∷ emitted) t + count t (children_of es n)
unfolding children_of
blocked_emit [] emitted n t h = refl
blocked_emit ((p, c) ∷ es) emitted n t h =
    ground
      (arith, table_ref_eq.beq_iff p n, table_ref_eq.beq_iff n p, blocked_emit es emitted n t h)

count-insert :
    (t a : TableRef) (xs : List TableRef)
    → count t (insert_sorted before a xs) ≡ (if t == a then 1 else 0) + count t xs
unfolding insert_sorted
count-insert t a [] = refl
count-insert t a (x ∷ xs) = ground (arith, count-insert t a xs)

count-sort_refs : (t : TableRef) (xs : List TableRef) → count t (sort_refs xs) ≡ count t xs
unfolding sort_refs sort_by
count-sort_refs t [] = refl
count-sort_refs t (x ∷ xs) =
    count-insert t x (sort_refs xs) ∙ ap (λ n. (if t == x then 1 else 0) + n) (count-sort_refs t xs)

module _ (edges : List Edge) (nodes : List TableRef) (selfc : TableRef → Bool) where
  -- With `kids` still to be relaxed.
  pub record Inv (kids emitted queue : List TableRef) (indeg : TableRef → ℕ) : Type 0 where
    pub counts : (t : TableRef) → indeg t ≡ blocked edges emitted t + count t kids
    pub idle :
        (t : TableRef)
        → contains t queue ≡ true
        → (indeg t ≡ 0)
          × (contains t emitted ≡ false)
          × (contains t nodes ≡ true)
          × (selfc t ≡ false)
    pub done : (t : TableRef) → contains t emitted ≡ true → indeg t ≡ 0
    pub once : is_nodup queue ≡ true
    pub complete :
        (t : TableRef)
        → contains t nodes ≡ true
        → indeg t ≡ 0
        → selfc t ≡ false
        → (contains t queue || contains t emitted) ≡ true

  abbrev joined : TableRef → (TableRef → ℕ) → List TableRef → List TableRef
  joined c indeg queue =
      if nat_beq (indeg c - 1) 0 && not (selfc c) then sort_refs (queue ++ (c ∷ [])) else queue

  contains-joined :
      (t c : TableRef) (indeg : TableRef → ℕ) (queue : List TableRef)
      → contains t (joined c indeg queue)
        ≡ (contains t queue || (t == c && (nat_beq (indeg c - 1) 0 && not (selfc c))))
  unfolding sort_refs
  contains-joined t c indeg queue =
      ground
        (arith, contains-sort_by before t (queue ++ (c ∷ [])), contains-append t queue (c ∷ []))

  nodup-snoc :
      (queue : List TableRef) (c : TableRef)
      → is_nodup queue ≡ true
      → contains c queue ≡ false
      → is_nodup (queue ++ (c ∷ [])) ≡ true
  nodup-snoc [] c h n = refl
  nodup-snoc (x ∷ xs) c h n = ground (
    arith,
    contains-append x xs (c ∷ []),
    table_ref_eq.beq_iff x c,
    table_ref_eq.beq_iff c x,
    nodup-snoc xs c,
  )

  joined-once :
      (c : TableRef) (indeg : TableRef → ℕ) (queue : List TableRef)
      → is_nodup queue ≡ true
      → contains c queue ≡ false
      → is_nodup (joined c indeg queue) ≡ true
  unfolding sort_refs
  joined-once c indeg queue h n =
      ground (arith, sort_by-nodup before (queue ++ (c ∷ [])) (nodup-snoc queue c h n))

  relax_one :
      (c : TableRef) (kids emitted queue : List TableRef) (indeg : TableRef → ℕ)
      → contains c nodes ≡ true
      → Inv (c ∷ kids) emitted queue indeg
      → Inv kids emitted (joined c indeg queue) (update indeg c (indeg c - 1))
  relax_one c kids emitted queue indeg m h = record {
    counts = λ t. ground (arith, h.counts t, table_ref_eq.beq_iff t c);
    idle = λ t q. ground (
      arith,
      contains-joined t c indeg queue,
      h.idle t,
      h.counts c,
      h.done t,
      m,
      table_ref_eq.beq_iff t c,
    );
    done = λ t e. ground (arith, h.done t, h.counts t, table_ref_eq.beq_iff t c);
    once =
        joined-once c indeg queue h.once
          (ground (arith, h.idle c, h.counts c, table_ref_eq.beq_iff c c));
    complete = λ t n z s. ground (
      arith,
      contains-joined t c indeg queue,
      h.complete t n,
      h.counts c,
      table_ref_eq.beq_iff t c,
    );
  }

  pub relax-Inv :
      (kids emitted queue : List TableRef) (indeg : TableRef → ℕ)
      → All (λ c. contains c nodes ≡ true) kids
      → Inv kids emitted queue indeg
      → Inv [] emitted (relax selfc kids indeg queue).0 (relax selfc kids indeg queue).1
  unfolding relax
  relax-Inv [] emitted queue indeg m h = h
  relax-Inv (c ∷ kids) emitted queue indeg m h =
      relax-Inv kids emitted (joined c indeg queue) (update indeg c (indeg c - 1)) m.1
        (relax_one c kids emitted queue indeg m.0 h)

  -- The head of the queue is emitted; its children are still to be relaxed.
  pub emit-Inv :
      (n : TableRef) (queue emitted : List TableRef) (indeg : TableRef → ℕ)
      → Inv [] emitted (n ∷ queue) indeg
      → Inv (sort_refs (children_of edges n)) (n ∷ emitted) queue indeg
  emit-Inv n queue emitted indeg h =
      let i = h.idle n (rw (==_refl n) refl) in
      record {
        counts = λ t. ground (
          arith,
          h.counts t,
          blocked_emit edges emitted n t i.1,
          count-sort_refs t (children_of edges n),
        );
        idle = λ t q. ground (arith, h.idle t, h.once, q, table_ref_eq.beq_iff t n);
        done = λ t e. ground (arith, h.done t, i.0, table_ref_eq.beq_iff t n);
        once = ground (arith, h.once);
        complete = λ t m z s. ground (arith, h.complete t m z s);
      }

-- ===== src/Apply/Progress.antt =====
-- The drain of one table's backlog on a source that is quiet: no transaction runs beside it and no
-- call fails.
use replicare.Base.{
  ℕ, zero, suc, ◌+◌, ◌≤◌, ◌<◌, ◌≡◌, refl, sym, ap, subst, ◌∙◌, inl, inr, Bool, not, ◌&&◌, ◌||◌,
  List, [], ◌∷◌, none, Bytes, arith, take, length, contains, update, nat_eq, ==_refl, Bool-cases,
  List-cases, take-all,
}
use replicare.Engine.{TableRef, table_ref_eq, Table, KeyValues, TargetId, DirtyKey, ok}
use replicare.Engine.Keys.{key_eq}
use replicare.Postgres.Capture.{
  Captured, Entry, is_visible, unconsumed, tracked, limit, read_dirty_keys, confirm_consumed,
}
use replicare.Postgres.Capture.Reads.{ids_of, tracked-track_all}
use replicare.Postgres.World.{
  World, Tables, ◌>>=◌, lift, attempt, call, read_dirty, introspect, reread, confirm, begin_apply,
  stage_upsert, delete_absent, commit_apply,
}
use replicare.Postgres.World.Synced.{IsSynced}
use replicare.Apply.Coalesce.{coalesce}
use replicare.Apply.Pass.{
  columns_of, transport_columns, both_ends, unless_committed, in_transaction,
}
use replicare.Apply.Table.{apply_pass, pipe_apply, drain_read, drain, drain_all, next_round}
use replicare.Apply.Safety.Converge.{drained-copied, unread}
use replicare.Apply.Safety.Table.{drain_all-keeps}

-- What is left of the delta table once the first `m` unconsumed deltas are consumed.
unconsumed-rest :
    (S T : ℕ → Bool) (i m : ℕ) (log : List Entry)
    → ((j : ℕ) → i ≤ j → T j ≡ (S j || contains j (ids_of (take m (unconsumed S i log)))))
    → length (unconsumed T i log) + length (take m (unconsumed S i log))
      ≡ length (unconsumed S i log)
unfolding unconsumed
unconsumed-rest S T i zero [] e = refl
unconsumed-rest S T i (suc m) [] e = refl
unconsumed-rest S T i zero (x ∷ xs) e =
    ground (arith, e i, unconsumed-rest S T (suc i) zero xs (λ j h. e j (omega (arith, h))))
unconsumed-rest S T i (suc m) (x ∷ xs) e = elim (Bool-cases (is_visible x.status && not (S i))) [
  | inr p ↦
      let rest = unconsumed-rest S T (suc i) (suc m) xs (λ j h. rw p at (e j (omega (arith, h)))) in
      rw p (ground (arith, rw p at (e i (omega arith)), rest))
  | inl p ↦
      let rest =
        unconsumed-rest S T (suc i) m xs
          (λ j h. ground (arith, rw p at (e j (omega (arith, h))), nat_eq.beq_iff j i)) in
      rw p (ground (arith, rw p at (e i (omega arith)), nat_eq.beq_iff i i, rest))
]

limit-take {ℓ} : {A : Type ℓ} (b : ℕ) (xs : List A) → (m : ℕ) × (limit b xs ≡ take m xs)
unfolding limit
limit-take zero xs = (length xs, sym (take-all xs))
limit-take (suc n) xs = (suc n, refl)

-- A round leaves the unconsumed deltas that it did not read.
confirm-left :
    (c : Captured) (target : TargetId) (batch : ℕ)
    → length (
          read_dirty_keys
            (confirm_consumed target (ids_of (read_dirty_keys c target batch)) c)
            target
            0)
        + length (read_dirty_keys c target batch)
      ≡ length (read_dirty_keys c target 0)
unfolding read_dirty_keys confirm_consumed limit
confirm-left c target batch =
    let (m, e) = limit-take batch (unconsumed (tracked c.track target) 0 c.log) in
    rw e (
      unconsumed-rest (tracked c.track target) _ 0 m c.log
        (λ j h. rw (tracked-track_all, ==_refl target)))

abbrev quiet : List Table → (TableRef → Captured) → Tables → World
quiet schema src dst = record { schema = schema; src = src; dst = dst; tx = none; script = [] }

module _ (schema : List Table) (ref : TableRef) (cols : List Bytes) (target : TargetId) (batch : ℕ)
    (known : columns_of ref schema ≡ ok cols) where
  abbrev after : List DirtyKey → (TableRef → Captured) → TableRef → Captured
  after dirty src = update src ref (confirm_consumed target (ids_of dirty) (src ref))

  drain-some :
      (src : TableRef → Captured) (dst : Tables) (d : DirtyKey) (ds : List DirtyKey)
      → read_dirty_keys (src ref) target batch ≡ d ∷ ds
      → (dst' : Tables) × (drain ref target batch (quiet schema src dst)
          ≡ (ok (suc (length ds)), quiet schema (after (d ∷ ds) src) dst'))
  unfolding drain read_dirty call ◌>>=◌ drain_read coalesce transport_columns introspect lift
      pipe_apply attempt reread apply_pass in_transaction begin_apply stage_upsert delete_absent
      commit_apply unless_committed both_ends confirm
  drain-some src dst d ds e =
      ((drain ref target batch (quiet schema src dst)).1.dst, rw (e, known, ==_refl ref) refl)

  drain-none :
      (src : TableRef → Captured) (dst : Tables)
      → read_dirty_keys (src ref) target batch ≡ []
      → drain ref target batch (quiet schema src dst) ≡ (ok 0, quiet schema src dst)
  unfolding drain read_dirty call ◌>>=◌ drain_read lift
  drain-none src dst e = rw e refl

  module _ (fuel : ℕ) where
    abbrev Drains : (TableRef → Captured) → Tables → Type 0
    Drains src dst =
        (src' : TableRef → Captured) × (dst' : Tables) × (drain_all fuel ref target batch
            (quiet schema src dst)
          ≡ (ok (length (read_dirty_keys (src ref) target 0)), quiet schema src' dst'))
        × (read_dirty_keys (src' ref) target 0 ≡ [])
        × ((src' ref).rows ≡ (src ref).rows)

  drain_all-stop :
      (fuel : ℕ) (w : World)
      → drain ref target batch w ≡ (ok 0, w)
      → drain_all (suc fuel) ref target batch w ≡ (ok 0, w)
  unfolding drain_all ◌>>=◌ next_round lift
  drain_all-stop fuel w q = rw q refl

  drain_all-step :
      (fuel n m : ℕ) (w w' w'' : World)
      → drain ref target batch w ≡ (ok (suc n), w')
      → drain_all fuel ref target batch w' ≡ (ok m, w'')
      → drain_all (suc fuel) ref target batch w ≡ (ok (suc n + m), w'')
  unfolding drain_all ◌>>=◌ next_round lift
  drain_all-step fuel n m w w' w'' q run = rw (q, run) refl

  after-rows :
      (dirty : List DirtyKey) (src : TableRef → Captured)
      → (after dirty src ref).rows ≡ (src ref).rows
  unfolding confirm_consumed
  after-rows dirty src = rw (==_refl ref) refl

  drain_all-Drains :
      (fuel : ℕ) (src : TableRef → Captured) (dst : Tables)
      → length (read_dirty_keys (src ref) target 0) < fuel
      → Drains fuel src dst
  drain_all-Drains zero src dst h = absurd (omega (arith, h))
  drain_all-Drains (suc fuel) src dst h =
      elim (List-cases (read_dirty_keys (src ref) target batch)) [
        | inl e ↦
            let z = unread (src ref) target batch 0 e in
            (src, dst, rw z (drain_all-stop fuel _ (drain-none src dst e)), z, refl)
        | inr (d, ds, e) ↦
            let (dst1, q) = drain-some src dst d ds e in
            let left : length (read_dirty_keys (after (d ∷ ds) src ref) target 0) + suc (length ds)
                ≡ length (read_dirty_keys (src ref) target 0) =
              rw (==_refl ref) (rw e at (confirm-left (src ref) target batch)) in
            let (src', dst', run, none_left, rows) =
              drain_all-Drains fuel (after (d ∷ ds) src) dst1 (omega (arith, h, left)) in
            (
              src',
              dst',
              drain_all-step fuel _ _ _ _ _ q run
                  ∙ ap (λ n. (ok n, quiet schema src' dst')) (omega (arith, left)),
              none_left,
              rows ∙ after-rows (d ∷ ds) src,
            )
      ]

-- On a quiet source that has the table, a drain of its backlog at any batch size, given more rounds
-- than there are unconsumed deltas, ends without an error, reports exactly the number of those
-- deltas, and leaves every row of the target's table equal to the source's; the target must have
-- been synced, with no transaction open.
pub drain_all-copies :
    (fuel batch : ℕ) (ref : TableRef) (target : TargetId) (cols : List Bytes) (w : World)
    → columns_of ref w.schema ≡ ok cols
    → w.tx ≡ none
    → w.script ≡ []
    → IsSynced target w
    → length (read_dirty_keys (w.src ref) target 0) < fuel
    → ((drain_all fuel ref target batch w).0 ≡ ok (length (read_dirty_keys (w.src ref) target 0)))
      × ((k : KeyValues) → (drain_all fuel ref target batch w).1.dst ref k ≡ (w.src ref).rows k)
drain_all-copies fuel batch ref target cols w known no_tx calm h enough =
    let e : w ≡ quiet w.schema w.src w.dst = rw (← no_tx, ← calm) refl in
    let (src', dst', run, none_left, rows) =
      drain_all-Drains w.schema ref cols target batch known fuel w.src w.dst enough in
    let final =
      subst (λ v. IsSynced target v) (ap (λ p. p.1) run)
        (drain_all-keeps fuel ref target batch (quiet w.schema w.src w.dst)
          (subst (IsSynced target) e h)) in
    (
      rw (e, run) refl,
      λ k.
          rw (e, run)
            (drained-copied target (quiet w.schema src' dst') ref 0 k final none_left
              ∙ ap (λ f. f k) rows),
    )

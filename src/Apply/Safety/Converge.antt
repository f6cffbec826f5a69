-- ===== src/Apply/Safety/Converge.antt =====
-- What the invariant is worth: where no change is pending, the target is a copy of the source.
use replicare.Base.{
  ℕ, zero, suc, ◌+◌, ◌≡◌, refl, ap, subst, inl, inr, Bool, false, List, [], ◌∷◌, arith,
}
use replicare.Engine.{TableRef, KeyValues, TargetId}
use replicare.Engine.Keys.{key_eq}
use replicare.Postgres.Capture.{Captured, Entry, unconsumed, tracked, limit, read_dirty_keys}
use replicare.Postgres.Capture.Pending.{pending}
use replicare.Postgres.World.{World}
use replicare.Postgres.World.Synced.{IsSynced}

pub limit-empty {ℓ} : {A : Type ℓ} (n : ℕ) (xs : List A) → limit n xs ≡ [] → xs ≡ []
unfolding limit
limit-empty zero xs h = h
limit-empty (suc n) [] h = refl
limit-empty (suc n) (x ∷ xs) h = cc

next : (S seen : ℕ → Bool) (i j : ℕ) → S (suc j) ≡ seen (i + suc j) → S (suc j) ≡ seen (suc i + j)
next S seen i j e = subst (λ m. S (suc j) ≡ seen m) (omega arith) e

empty-pending :
    (S seen : ℕ → Bool) (i : ℕ) (log : List Entry) (k : KeyValues)
    → ((j : ℕ) → S j ≡ seen (i + j))
    → unconsumed seen i log ≡ []
    → pending S k log ≡ false
unfolding unconsumed
empty-pending S seen i [] k e h = refl
empty-pending S seen i (x ∷ xs) k e h = ground (
  arith,
  e 0,
  empty-pending (λ j. S (suc j)) seen (suc i) xs k (λ j. next S seen i j (e (suc j))),
)

-- Nothing unconsumed at one batch size is nothing at any.
pub unread :
    (c : Captured) (target : TargetId) (m n : ℕ)
    → read_dirty_keys c target m ≡ []
    → read_dirty_keys c target n ≡ []
unfolding read_dirty_keys limit
unread c target m zero e = limit-empty m _ e
unread c target m (suc n) e = rw (limit-empty m (unconsumed (tracked c.track target) 0 c.log) e)

-- Once a read of a table, of any batch size, shows no dirty key, each row of the target's table is
-- the source's committed row, and is absent exactly where the source's is.
pub drained-copied :
    (target : TargetId) (w : World) (t : TableRef) (max : ℕ) (k : KeyValues)
    → IsSynced target w
    → read_dirty_keys (w.src t) target max ≡ []
    → w.dst t k ≡ (w.src t).rows k
unfolding read_dirty_keys
drained-copied target w t max k h e = elim (h.copied t k) [
  | inl same ↦ same
  | inr p ↦ absurd (
      cc (
        p,
        empty-pending (tracked (w.src t).track target) (tracked (w.src t).track target) 0
            (w.src t).log k (λ j. ap (tracked (w.src t).track target) (omega arith))
            (limit-empty max (unconsumed (tracked (w.src t).track target) 0 (w.src t).log) e),
      ))
]

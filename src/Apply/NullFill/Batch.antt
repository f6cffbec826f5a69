-- ===== src/Apply/NullFill/Batch.antt =====
-- A batch that was read and coalesced is a claim whose keys all have a pending change.
use replicare.Base.{
  ℕ, suc, ◌+◌, ◌≡◌, inl, inr, Bool, true, not, ◌&&◌, List, [], ◌∷◌, contains, ◌==◌, All, All-map,
  Bool-cases, arith,
}
use replicare.Engine.{KeyValues, TargetId, TableRef, DirtyKey}
use replicare.Engine.Keys.{key_eq}
use replicare.Postgres.Capture.{Captured, Entry, is_visible, unconsumed, tracked, read_dirty_keys}
use replicare.Postgres.Capture.Pending.{pending}
use replicare.Postgres.Capture.Reads.{read-Owns, read-IsClosed, All-limit}
use replicare.Postgres.World.Synced.{IsSound}
use replicare.Postgres.World.Calls.Consume.{read-IsReadOf}
use replicare.Apply.Coalesce.{coalesce, keys_of, distinct_from_sound, coalesce-covers}
use replicare.Apply.NullFill.Claims.{IsClaimed}

pending-unconsumed :
    (seen S : ℕ → Bool) (i : ℕ) (log : List Entry)
    → ((j : ℕ) → S j ≡ seen (i + j))
    → All (λ d. pending S d.key log ≡ true) (unconsumed seen i log)
unfolding unconsumed
pending-unconsumed seen S i [] same = tt
pending-unconsumed seen S i (e ∷ es) same =
    let later : (j : ℕ) → S (suc j) ≡ seen (suc i + j) =
      λ j. let q : i + suc j ≡ suc i + j = omega arith in cc (same (suc j)) in
    let here : S 0 ≡ seen i = let q : i + 0 ≡ i = omega arith in cc (same 0) in
    let rest =
      All-map {Q = λ d. pending S d.key (e ∷ es) ≡ true} (λ d p. ground (arith, p)) _
        (pending-unconsumed seen (λ j. S (suc j)) (suc i) es later) in
    elim (Bool-cases (is_visible e.status && not (seen i))) [
      | inl p ↦ rw p (ground (arith, here, p, key_eq.beq_iff e.key e.key), rest)
      | inr p ↦ rw p rest
    ]

read-pending :
    (c : Captured) (target : TargetId) (max : ℕ)
    → All (λ d. pending (tracked c.track target) d.key c.log ≡ true) (read_dirty_keys c target max)
unfolding read_dirty_keys
read-pending c target max = All-limit _ max (unconsumed (tracked c.track target) 0 c.log) (
    pending-unconsumed (tracked c.track target) (tracked c.track target) 0 c.log
      (λ j. let q : 0 + j ≡ j = omega arith in cc))

keys_of-pending :
    (S : ℕ → Bool) (log : List Entry) (dirty : List DirtyKey) (k : KeyValues)
    → All (λ d. pending S d.key log ≡ true) dirty
    → contains k (keys_of dirty) ≡ true
    → pending S k log ≡ true
keys_of-pending S log [] k p m = absurd (ground arith)
keys_of-pending S log (d ∷ ds) k p m = elim (Bool-cases (k == d.key)) [
  | inl e ↦ let q : k ≡ d.key = (key_eq.beq_iff k d.key).0 e in rw q p.0
  | inr e ↦ keys_of-pending S log ds k p.1 (rw e at m)
]

pub read-IsClaimed :
    (t : TableRef) (c : Captured) (target : TargetId) (max : ℕ)
    → IsSound target c
    → let dirty = read_dirty_keys c target max in
      IsClaimed target (record { table = t; ids = (coalesce dirty).1; keys = (coalesce dirty).0 }) c
unfolding coalesce
read-IsClaimed t c target max s =
    let dirty = read_dirty_keys c target max in
    let r = read-IsReadOf c target max s.valid in
    let covers = coalesce-covers c.arity dirty dirty r.valid r.valid (λ k m. m) in
    record {
      sound = s;
      closed = read-IsClosed c.log _ dirty r.found covers;
      owns = read-Owns c.log _ dirty r.found covers;
      open_keys = λ k m.
          keys_of-pending (tracked c.track target) c.log dirty k (read-pending c target max)
            (distinct_from_sound [] dirty k m).0;
    }

-- ===== src/Postgres/Capture/Pending.antt =====
-- What is still to be replicated of a captured table. `S` is a set of delta ids, mostly those that
-- a target has consumed.
use replicare.Base.{
  ℕ, zero, suc, ◌≡◌, ◌⊎◌, Bool, true, false, not, ◌&&◌, ◌||◌, Option, List, [], ◌∷◌, ◌++◌, arith,
  Bytes, contains, ◌==◌,
}
use replicare.Engine.{KeyValues, TargetId}
use replicare.Engine.Keys.{key_eq}
use replicare.Postgres.Capture.{
  Status, in_flight, visible, rolled_back, purged, Entry, Captured, is_visible, tracked,
}

-- A change of the row at `k` shows in the delta table and is not in `S`.
abbrev pub pending : (ℕ → Bool) → KeyValues → List Entry → Bool
pending S k [] = false
pending S k (e ∷ es) =
    (is_visible e.status && e.key == k && not (S 0)) || pending (λ i. S (suc i)) k es

abbrev pub is_settled : Status → Bool
is_settled (in_flight _) = false
is_settled visible = true
is_settled rolled_back = true
is_settled purged = true

abbrev pub settled_at : List Entry → ℕ → Bool
settled_at [] i = false
settled_at (e ∷ es) zero = is_settled e.status
settled_at (e ∷ es) (suc i) = settled_at es i

-- No id of `S` belongs to a transaction that may still commit.
abbrev pub IsClosed : (ℕ → Bool) → List Entry → Type 0
IsClosed S log = (i : ℕ) → S i ≡ true → settled_at log i ≡ true

-- The entries with an id in `S` are changes of rows in `keys`.
abbrev pub Owns : (ℕ → Bool) → List KeyValues → List Entry → Type 0
Owns S keys [] = Unit
Owns S keys (e ∷ es) = (S 0 ≡ true → contains e.key keys ≡ true) × Owns (λ i. S (suc i)) keys es

abbrev pub union : (ℕ → Bool) → (ℕ → Bool) → ℕ → Bool
union S T i = S i || T i

-- The copy `v` of the row at `k` is current, or a change of that row is still pending.
abbrev pub Covered : (ℕ → Bool) → Option Bytes → KeyValues → Captured → Type 0
Covered S v k c = (v ≡ c.rows k) ⊎ (pending S k c.log ≡ true)

pub pending-append :
    (S : ℕ → Bool) (k : KeyValues) (xs ys : List Entry)
    → pending S k xs ≡ true
    → pending S k (xs ++ ys) ≡ true
pending-append S k (x ∷ xs) ys h = ground (arith, pending-append (λ i. S (suc i)) k xs ys)
pending-append S k [] ys h = ground arith

-- A larger set leaves less pending.
pub pending_mono :
    (S T : ℕ → Bool) (k : KeyValues) (log : List Entry)
    → ((i : ℕ) → S i ≡ true → T i ≡ true)
    → pending T k log ≡ true
    → pending S k log ≡ true
pending_mono S T k [] sub h = ground arith
pending_mono S T k (e ∷ es) sub h =
    ground (arith, sub 0, pending_mono (λ i. S (suc i)) (λ i. T (suc i)) k es (λ i. sub (suc i)))

-- Ids that belong to other keys do not matter.
pub pending-union :
    (S T : ℕ → Bool) (keys : List KeyValues) (k : KeyValues) (log : List Entry)
    → Owns T keys log
    → contains k keys ≡ false
    → pending S k log ≡ true
    → pending (union S T) k log ≡ true
pending-union S T keys k [] o n h = ground arith
pending-union S T keys k (e ∷ es) o n h = ground (
  arith,
  key_eq.beq_iff e.key k,
  pending-union (λ i. S (suc i)) (λ i. T (suc i)) keys k es o.1 n,
  o.0,
)

-- The track table's primary key: no (target, delta_id) twice.
abbrev pub is_set : List (TargetId × ℕ) → Bool
is_set [] = true
is_set ((t, i) ∷ rest) = not (tracked rest t i) && is_set rest

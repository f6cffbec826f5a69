-- ===== src/Apply/Retry.antt =====
-- internal/apply/retry.go: a drain pass is tried again while a foreign key of the target blocks it.
-- `cancelled n` is what the context says during the wait after attempt `n`. A wait is a
-- `time.Duration`, an int64 of nanoseconds as its bit pattern; the model keeps the waits as a list.
use replicare.Base.{
  ℕ, zero, suc, ◌+◌, ◌*◌, ◌≤◌, ◌-◌, arith, ◌≡◌, refl, inl, inr, ◌%◌, ◌^◌, gt64, gt64_irrefl,
  Bool-cases, is_nodup, Bool, true, false, Option, none, some, List, [], ◌∷◌, All, length,
  if◌then◌else◌,
}
use replicare.Engine.{
  table_ref_eq, TableRef, TargetId, Error, transient_constraint, other, is_transient_constraint,
}
use replicare.Postgres.World.{World}
use replicare.Postgres.World.Synced.{IsSynced}
use replicare.Apply.Pass.{Drained}
use replicare.Apply.NullFill.{CyclicColumns, AreColumns}
use replicare.Apply.NullFill.Safety.{IsIdle}
use replicare.Apply.Component.{drain_component}
use replicare.Apply.Component.Safety.{drain_component-keeps}

pub record RetryPolicy : Type 0 where
  pub max_attempts : ℕ
  pub base_backoff : ℕ
  pub max_backoff : ℕ

abbrev pub default_retry_policy : RetryPolicy
default_retry_policy = record {
  max_attempts = 5;
  base_backoff = 200000000;
  max_backoff = 5000000000;
}

-- `backoff *= 2` on an int64, and the cap.
unfoldable pub next_backoff : RetryPolicy → ℕ → ℕ
unfolding gt64
next_backoff p b = let d = (b * 2) % 2 ^ 64 in if gt64 d p.max_backoff then p.max_backoff else d

-- How the loop ended: like a pass, with the waits between the attempts.
pub record Retried : Type 0 where
  pub consumed : ℕ
  pub failure : Option Error
  pub waits : List ℕ

abbrev pub ended : ℕ → Option Error → Retried
ended total e = record { consumed = total; failure = e; waits = [] }

abbrev pub waited : ℕ → Retried × World → Retried × World
waited b (r, w) = (record r { waits = b ∷ r.waits }, w)

-- An error of a pass ends the loop, unless it is transient: then `again` goes on.
abbrev pub or_again : ℕ → Option Error → (Error → Retried × World) → World → Retried × World
or_again total none again w = (ended total none, w)
or_again total (some e) again w = elim (is_transient_constraint e) [
  | true ↦ again e
  | false ↦ (ended total (some e), w)
]

abbrev pub unless_cancelled : ℕ → Option Error → Retried × World → World → Retried × World
unless_cancelled total none rest w = rest
unless_cancelled total (some e) rest w = (ended total (some e), w)

-- After attempt `attempts - left`: the wait for the next one, if one is left.
abbrev pub try_again :
    (ℕ → Option Error) → ℕ → ℕ → ℕ → Error → Retried × World → World → Retried × World
try_again cancelled zero b total e rest w = (ended total (some e), w)
try_again cancelled (suc left) b total e rest w =
    waited b (unless_cancelled total (cancelled (suc left)) rest w)

module _ (policy : RetryPolicy) (cancelled : ℕ → Option Error) (pass : Drained) where
  -- `left` attempts may be made. A policy without attempts fails.
  unfoldable pub attempts : ℕ → ℕ → ℕ → World → Retried × World
  unfolding next_backoff
  attempts zero b total w = (ended total (some (other 3)), w)
  attempts (suc left) b total w =
      let (out, w') = pass w in
      let total' = total + out.consumed in
      let rest = attempts left (next_backoff policy b) total' w' in
      or_again total' out.failure (λ e. try_again cancelled left b total' e rest w') w'

  unfoldable pub retry : World → Retried × World
  unfolding attempts
  retry w = attempts policy.max_attempts policy.base_backoff 0 w

-- `DrainComponentRetrying`.
unfoldable pub drain_component_retrying :
    RetryPolicy
    → (ℕ → Option Error)
    → CyclicColumns
    → Bool
    → List TableRef
    → TargetId
    → ℕ
    → World
    → Retried × World
unfolding retry drain_component
drain_component_retrying policy cancelled n cyclic tables target batch w =
    retry policy cancelled (drain_component n cyclic tables target batch) w

-- What holds of the world, and of the waits, however the loop ends.
module _ (P : World → Type 0) (Q : List ℕ → Type 0) where
  abbrev Ends : Retried × World → Type 0
  Ends x = P x.1 × Q x.0.waits

  or_again-Ends :
      (total : ℕ) (e : Option Error) (again : Error → Retried × World) (w : World)
      → P w
      → Q []
      → ((e : Error) → Ends (again e))
      → Ends (or_again total e again w)
  unfolding is_transient_constraint
  or_again-Ends total none again w h q k = (h, q)
  or_again-Ends total (some transient_constraint) again w h q k = k transient_constraint
  or_again-Ends total (some (other n)) again w h q k = (h, q)

  unless_cancelled-Ends :
      (total : ℕ) (e : Option Error) (rest : Retried × World) (w : World)
      → P w
      → Q []
      → Ends rest
      → Ends (unless_cancelled total e rest w)
  unless_cancelled-Ends total none rest w h q k = k
  unless_cancelled-Ends total (some e) rest w h q k = (h, q)

abbrev less_one : ℕ → ℕ
less_one zero = 0
less_one (suc n) = n

less_one_sub : (n : ℕ) → less_one n ≤ n - 1
less_one_sub zero = omega arith
less_one_sub (suc n) = omega arith

next_backoff_bound : (p : RetryPolicy) (b : ℕ) → gt64 (next_backoff p b) p.max_backoff ≡ false
unfolding next_backoff
next_backoff_bound p b = elim (Bool-cases (gt64 ((b * 2) % 2 ^ 64) p.max_backoff)) [
  | inl h ↦ rw h (gt64_irrefl p.max_backoff)
  | inr h ↦ rw h h
]

-- The first wait is `b`, and no later one is longer than the policy's maximum.
abbrev pub StartsAt : RetryPolicy → ℕ → List ℕ → Type 0
StartsAt p b [] = Unit
StartsAt p b (x ∷ xs) = (x ≡ b) × All (λ y. gt64 y p.max_backoff ≡ false) xs

All-bounded :
    (p : RetryPolicy) (b : ℕ) (xs : List ℕ)
    → StartsAt p (next_backoff p b) xs
    → All (λ y. gt64 y p.max_backoff ≡ false) xs
All-bounded p b [] h = tt
All-bounded p b (x ∷ xs) h = (rw h.0 (next_backoff_bound p b), h.1)

module _ (policy : RetryPolicy) (cancelled : ℕ → Option Error) (pass : Drained) (P : World → Type 0)
    (keeps : (w : World) → P w → P (pass w).1) where
  abbrev Bounded : ℕ → ℕ → List ℕ → Type 0
  Bounded n b ws = (length ws ≤ n) × StartsAt policy b ws

  -- The waits that follow a wait `b`.
  abbrev Later : ℕ → List ℕ → Type 0
  Later n ws = (length ws ≤ n) × All (λ y. gt64 y policy.max_backoff ≡ false) ws

  attempts-Ends :
      (left b total : ℕ) (w : World)
      → P w
      → Ends P (Bounded (less_one left) b) (attempts policy cancelled pass left b total w)
  unfolding attempts
  attempts-Ends zero b total w h = (h, (omega arith, tt))
  attempts-Ends (suc zero) b total w h =
      or_again-Ends P (Bounded 0 b) _ _ _ _ (keeps w h) (omega arith, tt)
        (λ e. (keeps w h, (omega arith, tt)))
  attempts-Ends (suc (suc left)) b total w h =
      let k = keeps w h in
      let b' = next_backoff policy b in
      let total' = total + (pass w).0.consumed in
      let rest = attempts-Ends (suc left) b' total' (pass w).1 k in
      or_again-Ends P (Bounded (suc left) b) _ _ _ _ k (omega arith, tt)
        (λ e.
          let c =
            unless_cancelled-Ends P (Later left) total' (cancelled (suc left)) _ (pass w).1 k
              (omega arith, tt) (rest.0, (rest.1.0, All-bounded policy b _ rest.1.1)) in
          (c.0, (omega (arith, c.1.0), (refl, c.1.1))))

-- Retried drain passes over a component, whatever runs beside them and however the context and the
-- faults end them, keep every row of the target equal to the source's or pending; they wait less
-- often than attempts are allowed, first for the policy's base and then never longer, as int64 values,
-- than its maximum. The component lists each table once, leaving cyclic columns out and filling them gives the row, and a
-- transaction that is open at the start, as at the end, has done nothing.
pub retrying-keeps :
    (policy : RetryPolicy) (cancelled : ℕ → Option Error) (n : CyclicColumns) (cyclic : Bool)
    (tables : List TableRef) (target : TargetId) (batch : ℕ) (w : World)
    → AreColumns n
    → is_nodup tables ≡ true
    → IsIdle w
    → IsSynced target w
    → let (r, w') = drain_component_retrying policy cancelled n cyclic tables target batch w in
      (IsSynced target w' × IsIdle w')
      × (length r.waits ≤ policy.max_attempts - 1)
      × StartsAt policy policy.base_backoff r.waits
unfolding drain_component_retrying retry
retrying-keeps policy cancelled n cyclic tables target batch w laws nd idle h =
    let (k, (c, b)) =
      attempts-Ends policy cancelled (drain_component n cyclic tables target batch)
        (λ w. IsSynced target w × IsIdle w)
        (λ w p. drain_component-keeps n cyclic tables target batch w laws nd p.1 p.0)
        policy.max_attempts policy.base_backoff 0 w (h, idle) in
    (k, omega (arith, c, less_one_sub policy.max_attempts), b)

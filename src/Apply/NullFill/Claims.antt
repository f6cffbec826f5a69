-- ===== src/Apply/NullFill/Claims.antt =====
-- What the source knows of a table's deltas that are claimed and not yet confirmed.
use replicare.Base.{ℕ, ◌≡◌, inl, inr, Bool, true, Option, List, Bytes, contains, Bool-cases}
use replicare.Engine.{table_ref_eq, KeyValues, TargetId}
use replicare.Engine.Keys.{key_eq}
use replicare.Postgres.Capture.{
  Captured, Action, statement, commit, abort, act, tracked, storable, trigger,
}
use replicare.Postgres.Capture.Pending.{IsClosed, Owns, pending, pending-append, Covered, union}
use replicare.Postgres.Capture.Actions.{act-IsClosed, act-Owns, act-Covered, pending-abort_log}
use replicare.Postgres.Capture.Writes.{pending-settle_log}
use replicare.Postgres.World.Synced.{IsSound, Claim, claimed, act-IsSound, act-track}

act-pending :
    (S : ℕ → Bool) (k : KeyValues) (a : Action) (c : Captured)
    → pending S k c.log ≡ true
    → pending S k (act a c).log ≡ true
unfolding act
act-pending S k (statement t e) c h = elim (Bool-cases (storable c.arity e)) [
  | inl q ↦ rw q (pending-append S k c.log (trigger t e) h)
  | inr q ↦ rw q h
]
act-pending S k (commit t) c h = pending-settle_log S k t c.log h
act-pending S k (abort t) c h = pending-abort_log S k t c.log h

-- Every claimed key has a change that the target has not consumed.
abbrev pub IsOpen : TargetId → List KeyValues → Captured → Type 0
IsOpen target keys c =
    (k : KeyValues) → contains k keys ≡ true → pending (tracked c.track target) k c.log ≡ true

-- What the source knows of a claim.
pub record IsClaimed (target : TargetId) (c : Claim) (v : Captured) : Type 0 where
  pub sound : IsSound target v
  pub closed : IsClosed (claimed c) v.log
  pub owns : Owns (claimed c) c.keys v.log
  pub open_keys : IsOpen target c.keys v

-- Beside it, `copy` is as good as the source's rows with the claim confirmed.
abbrev pub IsCurrent : TargetId → Claim → (KeyValues → Option Bytes) → Captured → Type 0
IsCurrent target c copy v =
    (k : KeyValues)
    → contains k c.keys ≡ true
    → Covered (union (tracked v.track target) (claimed c)) (copy k) k v

module _ (target : TargetId) (c : Claim) where
  pub act-IsClaimed :
      (a : Action) (v : Captured) → IsClaimed target c v → IsClaimed target c (act a v)
  act-IsClaimed a v h = record {
    sound = act-IsSound target a v h.sound;
    closed = act-IsClosed (claimed c) a v h.closed;
    owns = act-Owns (claimed c) c.keys a v h.closed h.owns;
    open_keys = λ k m. rw act-track (act-pending (tracked v.track target) k a v (h.open_keys k m));
  }

  pub act-IsCurrent :
      (copy : KeyValues → Option Bytes) (a : Action) (v : Captured)
      → IsClaimed target c v
      → IsCurrent target c copy v
      → IsCurrent target c copy (act a v)
  act-IsCurrent copy a v h cur k m = rw act-track (
      act-Covered (union (tracked v.track target) (claimed c)) (copy k) k a v
        (λ i s. elim (Bool-cases (tracked v.track target i)) [
          | inl p ↦ h.sound.closed i p
          | inr p ↦ h.closed i (rw p at s)
        ])
        h.sound.captured (cur k m))

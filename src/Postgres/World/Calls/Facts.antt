-- ===== src/Postgres/World/Calls/Facts.antt =====
-- The facts that hold between the calls of one table's pass, and that the program's steps keep.
use replicare.Base.{
  ℕ, ◌≡◌, inl, inr, Bool, true, Option, List, [], ◌∷◌, Bytes, contains, ==_cases, Bool-cases,
}
use replicare.Engine.{TableRef, table_ref_eq, KeyValues, TargetId}
use replicare.Engine.Keys.{key_eq}
use replicare.Postgres.Capture.{Captured, Action, tracked}
use replicare.Postgres.Capture.Pending.{IsClosed, union, Covered}
use replicare.Postgres.Capture.Actions.{act-Covered}
use replicare.Postgres.World.{World, Tables, run_action, Tx}
use replicare.Postgres.World.Spec.{IsStable}
use replicare.Postgres.World.Synced.{
  IsSynced, IsSynced-stable, Claim, claimed, IsHeld, IsHeld-stable, act-track,
}

abbrev pub Any : World → Type 0
Any w = Unit

pub Any-stable : IsStable Any
Any-stable = record { on_action = λ x w h. tt; on_turn = λ s w h. tt }

abbrev pub AllHeld : List Claim → (TableRef → Captured) → Type 0
AllHeld [] src = Unit
AllHeld (c ∷ cs) src = IsHeld c src × AllHeld cs src

-- The frame of a drain pass: the invariant, and the claims of all its tables.
abbrev pub Frame : TargetId → List Claim → World → Type 0
Frame target cs w = IsSynced target w × AllHeld cs w.src

AllHeld-stable : (cs : List Claim) → IsStable (λ w. AllHeld cs w.src)
AllHeld-stable [] = record { on_action = λ x w h. tt; on_turn = λ s w h. tt }
AllHeld-stable (c ∷ cs) = record {
  on_action = λ x w h. ((IsHeld-stable c).on_action x w h.0, (AllHeld-stable cs).on_action x w h.1);
  on_turn = λ s w h. ((IsHeld-stable c).on_turn s w h.0, (AllHeld-stable cs).on_turn s w h.1);
}

pub Frame-stable : (target : TargetId) (cs : List Claim) → IsStable (Frame target cs)
Frame-stable target cs = record {
  on_action =
      λ x w h. ((IsSynced-stable target).on_action x w h.0, (AllHeld-stable cs).on_action x w h.1);
  on_turn =
      λ s w h. ((IsSynced-stable target).on_turn s w h.0, (AllHeld-stable cs).on_turn s w h.1);
}

module _ (target : TargetId) (c : Claim) where
  -- What the target has consumed once the claim is confirmed.
  abbrev pub seen : World → ℕ → Bool
  seen w = union (tracked (w.src c.table).track target) (claimed c)

  abbrev pub Kept : World → Type 0
  Kept w = IsSynced target w × IsHeld c w.src

  -- `copy` is as good as the source's rows even when the claim is confirmed.
  abbrev pub Current : (KeyValues → Option Bytes) → World → Type 0
  Current copy w =
      (k : KeyValues) → contains k c.keys ≡ true → Covered (seen w) (copy k) k (w.src c.table)

  seen-IsClosed : (w : World) → Kept w → IsClosed (seen w) (w.src c.table).log
  seen-IsClosed w h i s = elim (Bool-cases (tracked (w.src c.table).track target i)) [
    | inl p ↦ (h.0.sound c.table).closed i p
    | inr p ↦ h.1.closed i (rw p at s)
  ]

  Current-at :
      (copy : KeyValues → Option Bytes) (t : TableRef) (a : Action) (w : World)
      → Kept w
      → Current copy w
      → Current copy (run_action (t, a) w)
  Current-at copy t a w h cur k m = elim (==_cases c.table t) [
    | inl (p, e) ↦
        rw (p, ← e, act-track)
          (act-Covered (seen w) (copy k) k a (w.src c.table) (seen-IsClosed w h)
            (h.0.sound c.table).captured (cur k m))
    | inr (p, _) ↦ rw p (cur k m)
  ]

  -- A fact about a copy of the claimed rows, which lies with the target or its transaction, and
  -- about the target.
  abbrev pub Fact :
      (Option Tx → Tables → KeyValues → Option Bytes)
      → (Option Tx → Tables → Type 0)
      → World
      → Type 0
  Fact copy G w = Kept w × Current (copy w.tx w.dst) w × G w.tx w.dst

  pub Fact-stable :
      (copy : Option Tx → Tables → KeyValues → Option Bytes) (G : Option Tx → Tables → Type 0)
      → IsStable (Fact copy G)
  Fact-stable copy G = record {
    on_action = λ (t, a) w h. (
      (
        (IsSynced-stable target).on_action (t, a) w h.0.0,
        (IsHeld-stable c).on_action (t, a) w h.0.1,
      ),
      Current-at (copy w.tx w.dst) t a w h.0 h.1,
      h.2,
    );
    on_turn = λ s w h. (
      ((IsSynced-stable target).on_turn s w h.0.0, (IsHeld-stable c).on_turn s w h.0.1),
      h.1,
      h.2,
    );
  }

  pub Kept-stable : IsStable Kept
  Kept-stable = record {
    on_action =
        λ x w h. ((IsSynced-stable target).on_action x w h.0, (IsHeld-stable c).on_action x w h.1);
    on_turn =
        λ s w h. ((IsSynced-stable target).on_turn s w h.0, (IsHeld-stable c).on_turn s w h.1);
  }

-- ===== src/Postgres/World/Calls/Consume.antt =====
-- Reading the dirty keys makes a claim; confirming a claim whose rows have landed keeps the
-- target synced.
use replicare.Base.{
  ℕ, ◌≡◌, inl, inr, true, ◌||◌, Option, List, [], ◌∷◌, Bytes, bytes_eq, nat_eq, contains, update,
  ==_refl, Bool-cases, arith, All,
}
use replicare.Engine.{TableRef, table_ref_eq, KeyValues, TargetId, DirtyKey}
use replicare.Engine.Keys.{key_eq, is_valid_key}
use replicare.Postgres.Capture.{
  Entry, Captured, tracked, read_dirty_keys, confirm_consumed, track_all,
}
use replicare.Postgres.Capture.Pending.{IsClosed, Owns, union, Covered, pending-union, pending_mono}
use replicare.Postgres.Capture.Actions.{HasValidKeys}
use replicare.Postgres.Capture.Reads.{
  ids_of, names_at, read-Found, read-Owns, read-IsClosed, tracked-track_all, track_all-is_set,
  Found,
}
use replicare.Postgres.World.{
  World, read_on, read_dirty, schema_on, introspect, confirm_on, confirm,
}
use replicare.Postgres.World.Spec.{Spec, IsStable, call-Spec}
use replicare.Postgres.World.Synced.{
  IsSynced, IsSound, Agrees, Claim, IsHeld, IsHeld-at, IsHeld-move, at_update,
}
use replicare.Postgres.World.Calls.Facts.{
  Any, Any-stable, AllHeld, Frame, Frame-stable, Fact-stable,
}
use replicare.Postgres.World.Calls.Staging.{IsLanded}

abbrev pub AreValid : ℕ → List DirtyKey → Type 0
AreValid n ds = All (λ d. is_valid_key n d.key ≡ true) ds

-- A read: its ids stand in the log for its keys, and its keys are keys of the table.
pub record IsReadOf (c : Captured) (dirty : List DirtyKey) : Type 0 where
  pub found : All (Found 0 c.log) dirty
  pub valid : AreValid c.arity dirty

names_at-valid :
    (n : ℕ) (log : List Entry) (i : ℕ) (k : KeyValues)
    → HasValidKeys n log
    → names_at log i k ≡ true
    → is_valid_key n k ≡ true
names_at-valid n [] i k v h = ground arith
names_at-valid n (e ∷ es) ℕ.zero k v h =
    let q : e.key ≡ k = ground (arith, key_eq.beq_iff e.key k) in rw q at v.0
names_at-valid n (e ∷ es) (ℕ.suc i) k v h = names_at-valid n es i k v.1 h

Found-valid :
    (n : ℕ) (log : List Entry) (dirty : List DirtyKey)
    → HasValidKeys n log
    → All (Found 0 log) dirty
    → AreValid n dirty
Found-valid n log [] v f = tt
Found-valid n log (d ∷ ds) v f =
    (names_at-valid n log f.0.0 d.key v f.0.2, Found-valid n log ds v f.1)

pub read-IsReadOf :
    (c : Captured) (target : TargetId) (max : ℕ)
    → HasValidKeys c.arity c.log
    → IsReadOf c (read_dirty_keys c target max)
read-IsReadOf c target max v =
    let f = read-Found c target max in record { found = f; valid = Found-valid c.arity c.log _ v f }

-- The claim that a read allows, whatever list of keys its own keys were coalesced to.
abbrev pub Claimable : TableRef → List DirtyKey → World → Type 0
Claimable t dirty w =
    (keys : List KeyValues)
    → All (λ d. contains d.key keys ≡ true) dirty
    → IsHeld (record { table = t; ids = ids_of dirty; keys = keys }) w.src

module _ (target : TargetId) (cs : List Claim) where
  pub read-Spec :
      (t : TableRef) (max : ℕ)
      → Spec
          (Frame target cs)
          Any
          (read_dirty t target max)
          (λ dirty w. ((n : ℕ) × AreValid n dirty) × Claimable t dirty w)
  unfolding read_dirty
  read-Spec t max = call-Spec (read_on t target max) (Frame-stable target cs) Any-stable λ w h p.
      let r = read-IsReadOf (w.src t) target max (h.0.sound t).valid in
      (
        h,
        (
          ((w.src t).arity, r.valid),
          λ keys m. record {
            closed = read-IsClosed (w.src t).log keys _ r.found m;
            owns = read-Owns (w.src t).log keys _ r.found m;
          },
        ),
      )

  pub introspect-Spec :
      {P : World → Type 0} → IsStable P → Spec (Frame target cs) P introspect (λ _. P)
  unfolding introspect
  introspect-Spec s = call-Spec schema_on (Frame-stable target cs) s λ w h p. (h, p)

-- After the confirmation the target has seen what it had seen and the claim.
seen_after :
    (target : TargetId) (c : Captured) (ids : List ℕ) (i : ℕ)
    → tracked (track_all target ids c.track) target i ≡ (tracked c.track target i || contains i ids)
seen_after target c ids i = rw (tracked-track_all, ==_refl target)

pub confirm-IsSound :
    (target : TargetId) (ids : List ℕ) (c : Captured)
    → IsClosed (λ i. contains i ids) c.log
    → IsSound target c
    → IsSound target (confirm_consumed target ids c)
unfolding confirm_consumed
confirm-IsSound target ids c cl h = record {
  closed = λ i s. elim (Bool-cases (tracked c.track target i)) [
    | inl p ↦ h.closed i p
    | inr p ↦ cl i (ground (arith, seen_after target c ids i))
  ];
  valid = h.valid;
  unique = track_all-is_set target ids c.track h.unique;
  captured = h.captured;
}

pub confirm-Agrees :
    (target : TargetId) (ids : List ℕ) (keys : List KeyValues) (c : Captured)
    (copy : KeyValues → Option Bytes)
    → Owns (λ i. contains i ids) keys c.log
    → ((k : KeyValues)
        → contains k keys ≡ true
        → Covered (union (tracked c.track target) (λ i. contains i ids)) (copy k) k c)
    → Agrees target copy c
    → Agrees target copy (confirm_consumed target ids c)
unfolding confirm_consumed
confirm-Agrees target ids keys c copy owns cur old k =
    let same =
      pending_mono (tracked (track_all target ids c.track) target)
        (union (tracked c.track target) (λ i. contains i ids)) k c.log
        (λ i s. rw (← seen_after target c ids i) s) in
    elim (Bool-cases (contains k keys)) [
      | inl m ↦ elim (cur k m) [ inl e ↦ inl e | inr p ↦ inr (same p) ]
      | inr m ↦ elim (old k) [
        | inl e ↦ inl e
        | inr p ↦ inr (
            same
              (pending-union (tracked c.track target) (λ i. contains i ids) keys k c.log owns m p))
      ]
    ]

-- Confirming changes no log.
confirm-IsHeld :
    (target : TargetId) (ids : List ℕ) (d : Claim) (src : TableRef → Captured) (t : TableRef)
    → IsHeld d src
    → IsHeld d (update src t (confirm_consumed target ids (src t)))
unfolding confirm_consumed
confirm-IsHeld target ids d src t h =
    IsHeld-at d src t (confirm_consumed target ids (src t)) h (IsHeld-move d src t h)

confirm-AllHeld :
    (target : TargetId) (ids : List ℕ) (cs : List Claim) (src : TableRef → Captured) (t : TableRef)
    → AllHeld cs src
    → AllHeld cs (update src t (confirm_consumed target ids (src t)))
confirm-AllHeld target ids [] src t h = tt
confirm-AllHeld target ids (d ∷ ds) src t h =
    (confirm-IsHeld target ids d src t h.0, confirm-AllHeld target ids ds src t h.1)

module _ (target : TargetId) (cs : List Claim) (c : Claim) where
  confirm-IsSynced :
      (w : World)
      → IsSynced target w
      → IsLanded target c w
      → IsSynced target (confirm_on c.table target c.ids w).1
  confirm-IsSynced w h (kept, cur, closed_tx) =
      let t = c.table in
      let v = confirm_consumed target c.ids (w.src t) in
      record {
        sound =
            at_update (λ u x. IsSound target x) w.src t v
              (confirm-IsSound target c.ids (w.src t) kept.1.closed (h.sound t)) h.sound;
        copied =
            at_update (λ u x. Agrees target (w.dst u) x) w.src t v
              (confirm-Agrees target c.ids c.keys (w.src t) (w.dst t) kept.1.owns cur (h.copied t))
              h.copied;
        viewed = λ x e. absurd (cc);
      }

  pub confirm-Spec :
      Spec (Frame target cs) (IsLanded target c) (confirm c.table target c.ids) (λ _ w. Unit)
  unfolding confirm
  confirm-Spec =
      call-Spec (confirm_on c.table target c.ids) (Frame-stable target cs)
        (Fact-stable target c _ _)
        λ w h p. ((confirm-IsSynced w h.0 p, confirm-AllHeld target c.ids cs w.src c.table h.1), tt)

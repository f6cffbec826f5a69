-- ===== src/Apply/Safety/Drain.antt =====
-- The drain of an acyclic component, and of one table, keeps the invariant of replication.
use replicare.Base.{ℕ, ◌+◌, refl, Bytes, List, [], ◌∷◌, Option, none, some, All, All-map, length}
use replicare.Engine.{
  TableRef, TargetId, DirtyKey, Error, transient_constraint, other, is_transient_constraint, Result,
  ok, err,
}
use replicare.Engine.Keys.{key_eq}
use replicare.Postgres.Capture.{Captured}
use replicare.Postgres.World.{World, Exec, introspect, read_dirty}
use replicare.Postgres.World.Spec.{
  OnOk, OnOk-any, Spec, lift-Spec, return-Spec, bind-Spec, Spec-weaken,
}
use replicare.Postgres.World.Synced.{IsSynced, Claim, IsHeld}
use replicare.Postgres.World.Calls.{Any, Any-stable, AllHeld, Frame}
use replicare.Postgres.World.Calls.Staging.{IsLanded}
use replicare.Postgres.World.Calls.Consume.{
  AreValid, Claimable, read-Spec, introspect-Spec, confirm-Spec,
}
use replicare.Apply.Coalesce.{coalesce, coalesce-covers}
use replicare.Apply.Pass.{
  columns_of, transport_columns, TableWork, Gathered, gather_table, gather_work, Drained, halt,
  or_skip, or_halt, upsert_phase, confirm_table, delete_phase, drain_acyclic_seq, drain_gathered,
  drain_acyclic, per_table_upsert,
}
use replicare.Apply.Safety.Transactions.{upsert-Spec, delete-Lands}

abbrev pub claim_of : TableWork → Claim
claim_of t = record { table = t.ref; ids = t.ids; keys = t.distinct }

abbrev pub claims_of : List TableWork → List Claim
claims_of [] = []
claims_of (t ∷ ts) = claim_of t ∷ claims_of ts

-- The frame holds the table's claim.
abbrev Owned : List Claim → TableWork → Type 0
Owned cs t = (src : TableRef → Captured) → AllHeld cs src → IsHeld (claim_of t) src

Owned-All : (ts : List TableWork) → All (Owned (claims_of ts)) ts
Owned-All [] = tt
Owned-All (t ∷ ts) = ((λ src h. h.0), All-map (λ u p src h. p src h.1) ts (Owned-All ts))

or_skip-keeps :
    (F Q : World → Type 0) (r : Result (Unit {0})) (next : Drained) (skip : Error → Drained)
    (total : ℕ) (w : World)
    → F w
    → OnOk (λ _. Q) r w
    → (Q w → F (next w).1)
    → ((e : Error) → F (skip e w).1)
    → F (or_skip r next skip total w).1
unfolding or_skip is_transient_constraint
or_skip-keeps F Q (ok a) next skip total w h q kn ks = kn q
or_skip-keeps F Q (err transient_constraint) next skip total w h q kn ks = ks transient_constraint
or_skip-keeps F Q (err (other n)) next skip total w h q kn ks = h

pub or_halt-keeps :
    (F : World → Type 0) (r : Result (Unit {0})) (next : Drained) (total : ℕ) (w : World)
    → F w
    → F (next w).1
    → F (or_halt r next total w).1
unfolding or_halt halt
or_halt-keeps F (ok a) next total w h k = k
or_halt-keeps F (err e) next total w h k = h

module _ (target : TargetId) (cs : List Claim) where
  confirm_table-keeps :
      (t : TableWork) (next : Drained) (total : ℕ)
      → ((w : World) → Frame target cs w → Frame target cs (next w).1)
      → (w : World) → Frame target cs w
      → IsLanded target (claim_of t) w
      → Frame target cs (confirm_table target t next total w).1
  unfolding confirm_table
  confirm_table-keeps t next total kn w h p =
      let (k, _) = (confirm-Spec target cs (claim_of t)).at w h p in
      or_halt-keeps (Frame target cs) _ next total _ k (kn _ k)

  delete_phase-keeps :
      (ts : List TableWork)
      → All (Owned cs) ts
      → (total : ℕ) (transient : Option Error) (w : World) → Frame target cs w
      → Frame target cs (delete_phase target ts total transient w).1
  unfolding delete_phase
  delete_phase-keeps [] own total transient w h = h
  delete_phase-keeps (t ∷ ts) own total transient w h =
      let (k, q) = (delete-Lands target cs (claim_of t) own.0 t refl refl).at w h tt in
      or_skip-keeps (Frame target cs) (IsLanded target (claim_of t)) _ _ _ total _ k q
        (confirm_table-keeps t (delete_phase target ts (total + length t.ids) transient) total
          (delete_phase-keeps ts own.1 (total + length t.ids) transient) _ k)
        (λ e. delete_phase-keeps ts own.1 total (some e) _ k)

  upsert_phase-keeps :
      (ts landed : List TableWork)
      → All (Owned cs) ts
      → All (Owned cs) landed
      → (transient : Option Error) (next : List TableWork → Option Error → Drained)
      → ((l : List TableWork) (e : Option Error)
          → All (Owned cs) l
          → (w : World) → Frame target cs w
          → Frame target cs (next l e w).1)
      → (w : World) → Frame target cs w
      → Frame target cs (upsert_phase ts landed transient next w).1
  unfolding upsert_phase
  upsert_phase-keeps [] landed own done transient next kn w h = kn landed transient done w h
  upsert_phase-keeps (t ∷ ts) landed own done transient next kn w h =
      let (k, _) = (upsert-Spec target cs (claim_of t) own.0 t refl refl).at w h tt in
      let r = (per_table_upsert t w).0 in
      let w' = (per_table_upsert t w).1 in
      or_skip-keeps (Frame target cs) Any r (upsert_phase ts (t ∷ landed) transient next)
        (λ e. upsert_phase ts landed (some e) next) 0 w' k (OnOk-any r w')
        (λ _. upsert_phase-keeps ts (t ∷ landed) own.1 (own.0, done) transient next kn _ k)
        (λ e. upsert_phase-keeps ts landed own.1 done (some e) next kn _ k)

  drain_acyclic_seq-keeps :
      (work : List TableWork)
      → All (Owned cs) work
      → (w : World) → Frame target cs w
      → Frame target cs (drain_acyclic_seq work target w).1
  unfolding drain_acyclic_seq
  drain_acyclic_seq-keeps work own w h =
      upsert_phase-keeps work [] own tt none _ (λ l e o v k. delete_phase-keeps l o 0 e v k) w h

-- A held claim moves into the frame.
pub absorb :
    {A : Type 0} (target : TargetId) (cs : List Claim) (c : Claim) (Q : A → World → Type 0)
    (m : Exec A)
    → Spec (Frame target (c ∷ cs)) Any m Q
    → Spec (Frame target cs) (λ w. IsHeld c w.src) m Q
absorb target cs c Q m s = record {
  at = λ w h p. let (k, q) = s.at w (h.0, (p, h.1)) tt in ((k.0, k.1.1), q);
}

pub transport_columns-Spec :
    (target : TargetId) (cs : List Claim) (ref : TableRef)
    → Spec (Frame target cs) Any (transport_columns ref) (λ _. Any)
unfolding transport_columns
transport_columns-Spec target cs ref =
    bind-Spec introspect _ (introspect-Spec target cs Any-stable)
      λ tables. lift-Spec (columns_of ref tables) λ w p. OnOk-any _ _

module _ (target : TargetId) (cs : List Claim) (ref : TableRef) (d : DirtyKey)
    (ds : List DirtyKey) where
  abbrev work_of : List Bytes → TableWork
  work_of cols =
      let (distinct, ids) = coalesce (d ∷ ds) in
      record { ref = ref; distinct = distinct; ids = ids; cols = cols }

  read-IsHeld :
      (w : World)
      → ((n : ℕ) × AreValid n (d ∷ ds)) × Claimable ref (d ∷ ds) w
      → IsHeld (claim_of (work_of [])) w.src
  read-IsHeld w ((n, v), claim) =
      unfold coalesce in
      claim (coalesce (d ∷ ds)).0 (coalesce-covers n (d ∷ ds) (d ∷ ds) v v (λ k m. m))

  gather_table-Spec :
      (rest : Exec Gathered)
      → Spec
          (Frame target (claim_of (work_of []) ∷ cs))
          Any
          rest
          (λ g w. AllHeld (claims_of g.0) w.src)
      → Spec
          (Frame target cs)
          (λ w. ((n : ℕ) × AreValid n (d ∷ ds)) × Claimable ref (d ∷ ds) w)
          (gather_table ref (d ∷ ds) rest)
          (λ g w. AllHeld (claims_of g.0) w.src)
  unfolding gather_table
  gather_table-Spec rest s =
      Spec-weaken _
        (absorb target cs (claim_of (work_of [])) (λ g w. AllHeld (claims_of g.0) w.src) _
          (bind-Spec (transport_columns ref) _
            (transport_columns-Spec target (claim_of (work_of []) ∷ cs) ref)
            (λ cols. bind-Spec rest _ s (λ more. return-Spec _ (λ w h p. (h.1.0, p))))))
        read-IsHeld (λ r w q. q)

abbrev IsGathered : Gathered → World → Type 0
IsGathered g w = AllHeld (claims_of g.0) w.src

gather_cases-Spec :
    (target : TargetId) (cs : List Claim) (ref : TableRef) (rest : Exec Gathered)
    → ((cs : List Claim) → Spec (Frame target cs) Any rest IsGathered)
    → (dirty : List DirtyKey)
    → Spec
        (Frame target cs)
        (λ w. ((n : ℕ) × AreValid n dirty) × Claimable ref dirty w)
        (gather_table ref dirty rest)
        IsGathered
gather_cases-Spec target cs ref rest s [] =
    unfold gather_table in Spec-weaken rest (s cs) (λ w p. tt) (λ r w q. q)
gather_cases-Spec target cs ref rest s (d ∷ ds) =
    gather_table-Spec target cs ref d ds rest (s (claim_of (work_of target cs ref d ds []) ∷ cs))

-- Gathering reads every table and claims what it read.
gather_work-Spec :
    (target : TargetId) (refs : List TableRef) (batch : ℕ) (cs : List Claim)
    → Spec (Frame target cs) Any (gather_work refs target batch) IsGathered
unfolding gather_work
gather_work-Spec target [] batch cs = lift-Spec (ok ([], 0)) λ w p. tt
gather_work-Spec target (ref ∷ refs) batch cs =
    bind-Spec (read_dirty ref target batch) _ (read-Spec target cs ref batch) (
      gather_cases-Spec target cs ref (gather_work refs target batch)
        (gather_work-Spec target refs batch))

drain_gathered-keeps :
    (target : TargetId) (r : Result Gathered) (w : World)
    → IsSynced target w
    → OnOk IsGathered r w
    → IsSynced target (drain_gathered r target w).1
drain_gathered-keeps target (err e) w h q = unfold halt in h
drain_gathered-keeps target (ok ([], total)) w h q = unfold halt in h
drain_gathered-keeps target (ok (t ∷ ts, total)) w h q =
    (drain_acyclic_seq-keeps target (claims_of (t ∷ ts)) (t ∷ ts) (Owned-All (t ∷ ts)) w (h, q)).0

-- A drain pass over an acyclic component, whatever transactions run beside it and wherever it
-- fails, keeps every row of the target either equal to the source's or pending for the target.
pub drain_acyclic-keeps :
    (tables : List TableRef) (target : TargetId) (batch : ℕ) (w : World)
    → IsSynced target w
    → IsSynced target (drain_acyclic tables target batch w).1
unfolding drain_acyclic
drain_acyclic-keeps tables target batch w h =
    let (k, q) = (gather_work-Spec target tables batch []).at w (h, tt) tt in
    drain_gathered-keeps target _ _ k.0 q

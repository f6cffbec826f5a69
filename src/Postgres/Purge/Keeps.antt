-- ===== src/Postgres/Purge/Keeps.antt =====
-- Purging keeps every target synced that is not sacrificed.
use replicare.Base.{
  ℕ, zero, suc, ◌+◌, ◌≤◌, ◌<◌, ◌≡◌, refl, subst, inl, inr, arith, Bool, true, false, ◌&&◌, Option,
  List, [], ◌∷◌, Bytes, bytes_eq, nat_eq, length, contains, update, if◌then◌else◌, Bool-cases,
  All-map,
}
use replicare.Engine.{TableRef, table_ref_eq, KeyValues, TargetId}
use replicare.Engine.Keys.{key_eq}
use replicare.Postgres.Capture.{
  Status, in_flight, visible, rolled_back, purged, is_in_flight, Write, Entry, Captured, is_visible,
  tracked,
}
use replicare.Postgres.Capture.Pending.{pending, settled_at, is_set}
use replicare.Postgres.Capture.Actions.{HasValidKeys}
use replicare.Postgres.Capture.Writes.{noted, AreNoted}
use replicare.Postgres.World.{World}
use replicare.Postgres.World.Synced.{IsSynced, IsSound, Agrees, at_update}
use replicare.Postgres.Purge.{tracks_of, purgeable, sweep, sweep_on}

abbrev one_if : Bool → ℕ
one_if b = if b then 1 else 0

-- Each target counts once.
tracks_of_cons :
    (track : List (TargetId × ℕ)) (t : TargetId) (ts : List TargetId) (i : ℕ)
    → is_set track ≡ true
    → tracks_of track (t ∷ ts) i ≤ one_if (tracked track t i) + tracks_of track ts i
unfolding tracked
tracks_of_cons [] t ts i h = omega arith
tracks_of_cons ((u, j) ∷ rest) t ts i h =
    ground (arith, bytes_eq.beq_iff u t, nat_eq.beq_iff j i, tracks_of_cons rest t ts i)

tracks_of_none : (track : List (TargetId × ℕ)) (i : ℕ) → tracks_of track [] i ≡ 0
tracks_of_none [] i = refl
tracks_of_none ((u, j) ∷ rest) i = ground (arith, tracks_of_none rest i)

tracks_of_bound :
    (track : List (TargetId × ℕ)) (ts : List TargetId) (i : ℕ)
    → is_set track ≡ true
    → tracks_of track ts i ≤ length ts
tracks_of_bound track [] i h = omega (arith, tracks_of_none track i)
tracks_of_bound track (t ∷ ts) i h =
    ground (arith, tracks_of_cons track t ts i h, tracks_of_bound track ts i h)

tracks_of_missing :
    (track : List (TargetId × ℕ)) (ts : List TargetId) (target : TargetId) (i : ℕ)
    → is_set track ≡ true
    → contains target ts ≡ true
    → tracked track target i ≡ false
    → tracks_of track ts i < length ts
tracks_of_missing track (t ∷ ts) target i h m n = ground (
  arith,
  bytes_eq.beq_iff target t,
  tracks_of_cons track t ts i h,
  tracks_of_bound track ts i h,
  tracks_of_missing track ts target i h,
)
tracks_of_missing track [] target i h m n = ground arith

-- A purgeable delta is consumed by each of the targets.
purgeable-tracked :
    (track : List (TargetId × ℕ)) (ts : List TargetId) (target : TargetId) (i : ℕ)
    → is_set track ≡ true
    → contains target ts ≡ true
    → purgeable track ts i ≡ true
    → tracked track target i ≡ true
unfolding purgeable
purgeable-tracked track [] target i h m p = ground arith
purgeable-tracked track (t ∷ ts) target i h m p = ground (
  arith,
  nat_eq.beq_iff (tracks_of track (t ∷ ts) i) (length (t ∷ ts)),
  tracks_of_missing track (t ∷ ts) target i h m,
)

shift : (gone : ℕ → Bool) (i j : ℕ) → gone (suc i + j) ≡ true → gone (i + suc j) ≡ true
shift gone i j g = subst (λ m. gone m ≡ true) (omega arith) g

shift0 : (gone : ℕ → Bool) (j : ℕ) → gone (0 + j) ≡ true → gone j ≡ true
shift0 gone j g = subst (λ m. gone m ≡ true) (omega arith) g

-- A sweep of consumed deltas hides no change that is pending, and settles nothing.
sweep-pending :
    (S gone : ℕ → Bool) (n i : ℕ) (log : List Entry) (k : KeyValues)
    → ((j : ℕ) → gone (i + j) ≡ true → S j ≡ true)
    → pending S k log ≡ true
    → pending S k (sweep n gone i log).0 ≡ true
unfolding sweep
sweep-pending S gone n i [] k sub h = h
sweep-pending S gone zero i (e ∷ es) k sub h = h
sweep-pending S gone (suc n) i (e ∷ es) k sub h =
    let tail : (j : ℕ) → gone (suc i + j) ≡ true → S (suc j) ≡ true =
      λ j g. sub (suc j) (shift gone i j g) in
    ground (
      arith,
      sub 0,
      sweep-pending (λ j. S (suc j)) gone n (suc i) es k tail,
      sweep-pending (λ j. S (suc j)) gone (suc n) (suc i) es k tail,
    )

sweep_settled :
    (gone : ℕ → Bool) (n i : ℕ) (log : List Entry) (j : ℕ)
    → settled_at log j ≡ true
    → settled_at (sweep n gone i log).0 j ≡ true
unfolding sweep
sweep_settled gone n i [] j h = h
sweep_settled gone zero i (e ∷ es) j h = h
sweep_settled gone (suc n) i (e ∷ es) zero h = ground arith
sweep_settled gone (suc n) i (e ∷ es) (suc j) h =
    ground (arith, sweep_settled gone n (suc i) es j h, sweep_settled gone (suc n) (suc i) es j h)

sweep-HasValidKeys :
    (arity n i : ℕ) (gone : ℕ → Bool) (log : List Entry)
    → HasValidKeys arity log
    → HasValidKeys arity (sweep n gone i log).0
unfolding sweep
sweep-HasValidKeys arity n i gone [] h = h
sweep-HasValidKeys arity zero i gone (e ∷ es) h = h
sweep-HasValidKeys arity (suc n) i gone (e ∷ es) h =
    elim (Bool-cases (is_visible e.status && gone i)) [
      | inl p ↦ rw p (h.0, sweep-HasValidKeys arity n (suc i) gone es h.1)
      | inr p ↦ rw p (h.0, sweep-HasValidKeys arity (suc n) (suc i) gone es h.1)
    ]

seen_settled : (t : ℕ) (s : Status) → is_visible s ≡ true → is_in_flight t s ≡ false
seen_settled t (in_flight u) h = cc
seen_settled t visible h = refl
seen_settled t rolled_back h = refl
seen_settled t purged h = refl

sweep-noted :
    (gone : ℕ → Bool) (n i t : ℕ) (k : KeyValues) (log : List Entry)
    → noted t k log ≡ true
    → noted t k (sweep n gone i log).0 ≡ true
unfolding sweep
sweep-noted gone n i t k [] h = h
sweep-noted gone zero i t k (e ∷ es) h = h
sweep-noted gone (suc n) i t k (e ∷ es) h = ground (
  arith,
  seen_settled t e.status,
  sweep-noted gone n (suc i) t k es,
  sweep-noted gone (suc n) (suc i) t k es,
)

sweep-AreNoted :
    (gone : ℕ → Bool) (n i : ℕ) (log : List Entry) (ws : List Write)
    → AreNoted log ws
    → AreNoted (sweep n gone i log).0 ws
sweep-AreNoted gone n i log ws h = All-map (λ w q. sweep-noted gone n i w.tx w.key log q) ws h

-- One table changed: its log and track, not its rows.
pub replace-IsSynced :
    (target : TargetId) (w : World) (t : TableRef) (c : Captured)
    → IsSynced target w
    → IsSound target c
    → ((copy : KeyValues → Option Bytes) → Agrees target copy (w.src t) → Agrees target copy c)
    → IsSynced target (record w { src = update w.src t c })
replace-IsSynced target w t c h sound keep = record {
  sound = at_update (λ u x. IsSound target x) w.src t c sound h.sound;
  copied =
      at_update (λ u x. Agrees target (w.dst u) x) w.src t c (keep (w.dst t) (h.copied t)) h.copied;
  viewed = λ x e.
      at_update (λ u y. Agrees target (x.view u) y) w.src t c (keep (x.view t) (h.viewed x e t))
        (h.viewed x e);
}

pub sweep_on-IsSynced :
    (target : TargetId) (t : TableRef) (targets : List TargetId) (batch : ℕ) (w : World)
    → contains target targets ≡ true
    → IsSynced target w
    → IsSynced target (sweep_on t targets batch w).1
sweep_on-IsSynced target t targets batch w m h =
    let c = w.src t in
    let gone = purgeable c.track targets in
    let s = h.sound t in
    replace-IsSynced target w t (record c { log = (sweep batch gone 0 c.log).0 }) h
      (record {
        closed = λ i q. sweep_settled gone batch 0 c.log i (s.closed i q);
        valid = sweep-HasValidKeys c.arity batch 0 gone c.log s.valid;
        unique = s.unique;
        captured = sweep-AreNoted gone batch 0 c.log c.writes s.captured;
      })
      (λ copy old k. elim (old k) [
        | inl e ↦ inl e
        | inr p ↦ inr (
            sweep-pending (tracked c.track target) gone batch 0 c.log k
              (λ j g. purgeable-tracked c.track targets target j s.unique m (shift0 gone j g)) p)
      ])

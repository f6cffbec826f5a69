-- ===== src/Postgres/Capture/Reads.antt =====
-- What a read of the dirty keys shows, and what confirming it does.
use replicare.Base.{
  ℕ, zero, suc, ◌+◌, ◌≡◌, inl, inr, Bool, true, false, not, ◌&&◌, ◌||◌, List, [], ◌∷◌, arith,
  bytes_eq, nat_eq, contains, ◌==◌, All, All-map, All-take, if◌then◌else◌, Bool-cases,
}
use replicare.Engine.{KeyValues, TargetId, DirtyKey}
use replicare.Engine.Keys.{key_eq}
use replicare.Postgres.Capture.{
  Entry, Captured, is_visible, tracked, unconsumed, limit, read_dirty_keys, track_all,
}
use replicare.Postgres.Capture.Pending.{is_set, settled_at, IsClosed, Owns}

abbrev pub ids_of : List DirtyKey → List ℕ
ids_of [] = []
ids_of (d ∷ ds) = d.delta_id ∷ ids_of ds

-- The entry at `i` shows and is a change of the row at `k`.
abbrev pub names_at : List Entry → ℕ → KeyValues → Bool
names_at [] i k = false
names_at (e ∷ es) zero k = is_visible e.status && e.key == k
names_at (e ∷ es) (suc i) k = names_at es i k

abbrev pub Found : ℕ → List Entry → DirtyKey → Type 0
Found i log d = (j : ℕ) × (d.delta_id ≡ i + j) × (names_at log j d.key ≡ true)

Found-tail :
    (i : ℕ) (e : Entry) (es : List Entry) (d : DirtyKey) → Found (suc i) es d → Found i (e ∷ es) d
Found-tail i e es d h = (suc h.0, omega (arith, h.1), h.2)

unconsumed-Found :
    (seen : ℕ → Bool) (i : ℕ) (log : List Entry) → All (Found i log) (unconsumed seen i log)
unfolding unconsumed
unconsumed-Found seen i [] = tt
unconsumed-Found seen i (e ∷ es) =
    let rest = All-map (Found-tail i e es) _ (unconsumed-Found seen (suc i) es) in
    elim (Bool-cases (is_visible e.status && not (seen i))) [
      | inl p ↦ rw p ((0, omega arith, ground (arith, key_eq.beq_iff e.key e.key)), rest)
      | inr p ↦ rw p rest
    ]

pub All-limit {ℓ κ} :
    {A : Type ℓ} (P : A → Type κ) (n : ℕ) (xs : List A) → All P xs → All P (limit n xs)
unfolding limit
All-limit P zero xs h = h
All-limit P (suc n) xs h = All-take P (suc n) xs h

pub read-Found :
    (c : Captured) (target : TargetId) (max : ℕ)
    → All (Found 0 c.log) (read_dirty_keys c target max)
unfolding read_dirty_keys
read-Found c target max =
    All-limit _ max (unconsumed (tracked c.track target) 0 c.log)
      (unconsumed-Found (tracked c.track target) 0 c.log)

names_at-settled :
    (log : List Entry) (i : ℕ) (k : KeyValues) → names_at log i k ≡ true → settled_at log i ≡ true
names_at-settled [] i k h = ground arith
names_at-settled (e ∷ es) zero k h = ground arith
names_at-settled (e ∷ es) (suc i) k h = names_at-settled es i k h

Owns-intro :
    (S : ℕ → Bool) (keys : List KeyValues) (log : List Entry)
    → ((i : ℕ)
        → S i ≡ true
        → (k : KeyValues) × (names_at log i k ≡ true) × (contains k keys ≡ true))
    → Owns S keys log
Owns-intro S keys [] f = tt
Owns-intro S keys (e ∷ es) f = (
  λ s. let (k, n, h) = f 0 s in ground (arith, key_eq.beq_iff e.key k),
  Owns-intro (λ i. S (suc i)) keys es (λ i. f (suc i)),
)

-- An id that was read names one key among those that were read.
find_read :
    (log : List Entry) (keys : List KeyValues) (dirty : List DirtyKey) (i : ℕ)
    → All (Found 0 log) dirty
    → All (λ d. contains d.key keys ≡ true) dirty
    → contains i (ids_of dirty) ≡ true
    → (k : KeyValues) × (names_at log i k ≡ true) × (contains k keys ≡ true)
find_read log keys [] i f h m = absurd (ground arith)
find_read log keys (d ∷ ds) i f h m = elim (Bool-cases (i == d.delta_id)) [
  | inl p ↦
      let (j, at, n) = f.0 in
      let e : j ≡ i = omega (arith, at, (nat_eq.beq_iff i d.delta_id).0 p) in
      (d.key, rw e at n, h.0)
  | inr p ↦ find_read log keys ds i f.1 h.1 (rw p at m)
]

module _ (log : List Entry) (keys : List KeyValues) (dirty : List DirtyKey) where
  pub read-Owns :
      All (Found 0 log) dirty
      → All (λ d. contains d.key keys ≡ true) dirty
      → Owns (λ i. contains i (ids_of dirty)) keys log
  read-Owns f h = Owns-intro _ keys log (λ i s. find_read log keys dirty i f h s)

  pub read-IsClosed :
      All (Found 0 log) dirty
      → All (λ d. contains d.key keys ≡ true) dirty
      → IsClosed (λ i. contains i (ids_of dirty)) log
  read-IsClosed f h i s =
      let (k, n, _) = find_read log keys dirty i f h s in names_at-settled log i k n

-- The ids are recorded for this target and for no other.
pub tracked-track_all :
    (target other : TargetId) (ids : List ℕ) (track : List (TargetId × ℕ)) (i : ℕ)
    → tracked (track_all target ids track) other i
      ≡ tracked track other i || (target == other && contains i ids)
unfolding track_all
tracked-track_all target other [] track i = ground arith
tracked-track_all target other (j ∷ ids) track i = ground (
  arith,
  bytes_eq.beq_iff target other,
  nat_eq.beq_iff j i,
  nat_eq.beq_iff i j,
  tracked-track_all target other ids (if tracked track target j then track else (target, j) ∷ track)
      i,
)

pub track_all-is_set :
    (target : TargetId) (ids : List ℕ) (track : List (TargetId × ℕ))
    → is_set track ≡ true
    → is_set (track_all target ids track) ≡ true
unfolding track_all
track_all-is_set target [] track h = h
track_all-is_set target (i ∷ ids) track h =
    track_all-is_set target ids (if tracked track target i then track else (target, i) ∷ track)
      (ground arith)

-- ===== src/Apply/Coalesce.antt =====
-- internal/apply/component.go, `coalesce`: one entry for each distinct key, every delta id.
use replicare.Base.{
  is_nodup, ℕ, ◌≡◌, ◌⊎◌, refl, true, false, List, [], ◌∷◌, Bytes, bytes_eq, contains, All, arith,
  ◌∙◌, ==_refl, if◌then◌else◌,
}
use replicare.Engine.{KeyValues, DirtyKey}
use replicare.Engine.Keys.{key_eq, key_signature, is_valid_key}
use replicare.Engine.Keys.Injective.{key_signature-valid}
use replicare.Postgres.Capture.Reads.{ids_of}

-- `seen` holds the signatures of the keys taken so far.
unfoldable pub distinct_from : List Bytes → List DirtyKey → List KeyValues
distinct_from seen [] = []
distinct_from seen (d ∷ ds) =
    let sig = key_signature d.key in
    let rest = distinct_from (if contains sig seen then seen else sig ∷ seen) ds in
    if contains sig seen then rest else d.key ∷ rest

unfoldable pub coalesce : List DirtyKey → List KeyValues × List ℕ
unfolding distinct_from
coalesce dirty = (distinct_from [] dirty, ids_of dirty)

abbrev pub keys_of : List DirtyKey → List KeyValues
keys_of [] = []
keys_of (d ∷ ds) = d.key ∷ keys_of ds

abbrev next_seen : List Bytes → DirtyKey → List Bytes
next_seen seen d = if contains (key_signature d.key) seen then seen else key_signature d.key ∷ seen

abbrev AreValid : ℕ → List DirtyKey → Type 0
AreValid n ds = All (λ d. is_valid_key n d.key ≡ true) ds

-- A key is taken, or its signature was seen before.
distinct_from_complete :
    (n : ℕ) (seen : List Bytes) (dirty : List DirtyKey) (k : KeyValues)
    → AreValid n dirty
    → is_valid_key n k ≡ true
    → contains k (keys_of dirty) ≡ true
    → (contains k (distinct_from seen dirty) ≡ true) ⊎ (contains (key_signature k) seen ≡ true)
unfolding distinct_from
distinct_from_complete n seen [] k v vk m = ground arith
distinct_from_complete n seen (d ∷ ds) k v vk m = ground (
  arith,
  key_eq.beq_iff k d.key,
  bytes_eq.beq_iff (key_signature k) (key_signature d.key),
  key_signature-valid n k d.key vk v.0,
  distinct_from_complete n (next_seen seen d) ds k v.1 vk,
)

-- Only keys of the batch are taken, and none whose signature was seen.
pub distinct_from_sound :
    (seen : List Bytes) (dirty : List DirtyKey) (k : KeyValues)
    → contains k (distinct_from seen dirty) ≡ true
    → (contains k (keys_of dirty) ≡ true) × (contains (key_signature k) seen ≡ false)
unfolding distinct_from
distinct_from_sound seen [] k m = ground arith
distinct_from_sound seen (d ∷ ds) k m = ground (
  arith,
  key_eq.beq_iff k d.key,
  bytes_eq.beq_iff (key_signature k) (key_signature d.key),
  distinct_from_sound (next_seen seen d) ds k,
)

distinct_from-nodup :
    (seen : List Bytes) (dirty : List DirtyKey) → is_nodup (distinct_from seen dirty) ≡ true
unfolding distinct_from
distinct_from-nodup seen [] = refl
distinct_from-nodup seen (d ∷ ds) = ground (
  arith,
  bytes_eq.beq_iff (key_signature d.key) (key_signature d.key),
  distinct_from_sound (next_seen seen d) ds d.key,
  distinct_from-nodup (next_seen seen d) ds,
)

-- Coalescing a batch of one table's deltas gives every key of the batch exactly once and no other
-- key, and keeps every delta id in order.
pub coalesce_exact :
    (n : ℕ) (dirty : List DirtyKey) (k : KeyValues)
    → All (λ d. is_valid_key n d.key ≡ true) dirty
    → is_valid_key n k ≡ true
    → (contains k (coalesce dirty).0 ≡ contains k (keys_of dirty))
      × (is_nodup (coalesce dirty).0 ≡ true)
      × ((coalesce dirty).1 ≡ ids_of dirty)
unfolding coalesce
coalesce_exact n dirty k v vk = (
  ground (arith, distinct_from_complete n [] dirty k v vk, distinct_from_sound [] dirty k),
  distinct_from-nodup [] dirty,
  refl,
)

-- Each delta of the batch has its key among the distinct ones.
pub coalesce-covers :
    (n : ℕ) (all dirty : List DirtyKey)
    → AreValid n all
    → AreValid n dirty
    → ((k : KeyValues) → contains k (keys_of dirty) ≡ true → contains k (keys_of all) ≡ true)
    → All (λ d. contains d.key (coalesce all).0 ≡ true) dirty
coalesce-covers n all [] va v sub = tt
coalesce-covers n all (d ∷ ds) va v sub = (
  (coalesce_exact n all d.key va v.0).0 ∙ sub d.key (rw (==_refl d.key)),
  coalesce-covers n all ds va v.1 (λ k m. sub k (ground arith)),
)

-- ===== src/Engine/Keys/Injective.antt =====
-- Where the key signature tells keys apart, and where it does not.
use replicare.Base.{ℕ, ◌≡◌, refl, true, [], ◌∷◌, ◌++◌, arith, Bytes, length}
use replicare.Engine.Types.{KeyValues}
use replicare.Engine.Keys.{key_signature, no_nul, all_no_nul, is_valid_key}

-- A NUL-free prefix ends at the first NUL byte.
split_at_nul :
    (p q r s : Bytes)
    → no_nul p ≡ true
    → no_nul q ≡ true
    → p ++ (0 ∷ r) ≡ q ++ (0 ∷ s)
    → (p ≡ q) × (r ≡ s)
split_at_nul [] [] r s hp hq e = ground arith
split_at_nul [] (y ∷ q) r s hp hq e = ground arith
split_at_nul (x ∷ p) [] r s hp hq e = ground arith
split_at_nul (x ∷ p) (y ∷ q) r s hp hq e = ground (arith, split_at_nul p q r s)

-- Two NUL-free keys of the same number of columns with one signature are one key.
pub key_signature-injective :
    (a b : KeyValues)
    → length a ≡ length b
    → all_no_nul a ≡ true
    → all_no_nul b ≡ true
    → key_signature a ≡ key_signature b
    → a ≡ b
unfolding key_signature
key_signature-injective [] [] n ha hb e = refl
key_signature-injective [] (q ∷ qs) n ha hb e = ground arith
key_signature-injective (p ∷ ps) [] n ha hb e = ground arith
key_signature-injective (p ∷ []) (q ∷ []) n ha hb e = ground arith
key_signature-injective (p ∷ []) (q ∷ q' ∷ qs) n ha hb e = ground arith
key_signature-injective (p ∷ p' ∷ ps) (q ∷ []) n ha hb e = ground arith
key_signature-injective (p ∷ p' ∷ ps) (q ∷ q' ∷ qs) n ha hb e = ground (
  arith,
  split_at_nul p q (key_signature (p' ∷ ps)) (key_signature (q' ∷ qs)),
  key_signature-injective (p' ∷ ps) (q' ∷ qs),
)

-- The valid keys of one table.
pub key_signature-valid :
    (n : ℕ) (a b : KeyValues)
    → is_valid_key n a ≡ true
    → is_valid_key n b ≡ true
    → key_signature a ≡ key_signature b
    → a ≡ b
unfolding is_valid_key
key_signature-valid n a b ha hb e = ground (arith, key_signature-injective a b)

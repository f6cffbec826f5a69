-- ===== src/Engine/Keys.antt =====
-- Equality of key tuples, and the key signature of internal/apply/apply.go: the parts joined by
-- NUL bytes. The signature tells apart the keys of one table if no part holds a NUL byte.
pub mod Injective
use replicare.Base.{
  ℕ, zero, suc, ◌≡◌, ◌↔◌, refl, ap, Bool, true, false, not, ◌&&◌, List, [], ◌∷◌, ◌++◌, arith, Eq,
  Bytes, bytes_beq, bytes_beq_iff, nat_beq, length, ltb, contains,
}
use replicare.Engine.Types.{KeyValues}

abbrev pub key_beq : KeyValues → KeyValues → Bool
key_beq [] [] = true
key_beq [] (_ ∷ _) = false
key_beq (_ ∷ _) [] = false
key_beq (x ∷ xs) (y ∷ ys) = bytes_beq x y && key_beq xs ys

pub key_beq_iff : (a b : KeyValues) → (key_beq a b ≡ true) ↔ (a ≡ b)
key_beq_iff [] [] = ground arith
key_beq_iff [] (y ∷ ys) = ground arith
key_beq_iff (x ∷ xs) [] = ground arith
key_beq_iff (x ∷ xs) (y ∷ ys) = ground (arith, bytes_beq_iff x y, key_beq_iff xs ys)

instance abbrev pub key_eq : Eq KeyValues
key_eq = record { beq = key_beq; beq_iff = key_beq_iff }

-- `keySignature`: strings.Join(parts, "\x00"). A key's parts are text, as every reader of the delta
-- table gives them, so the branch for other values is not taken.
unfoldable pub key_signature : KeyValues → Bytes
key_signature [] = []
key_signature (p ∷ ps) = elim ps [ [] ↦ p | _ ∷ _ ↦ p ++ (0 ∷ key_signature ps) ]

abbrev pub no_nul : Bytes → Bool
no_nul [] = true
no_nul (c ∷ cs) = ltb 0 c && no_nul cs

abbrev pub all_no_nul : KeyValues → Bool
all_no_nul [] = true
all_no_nul (p ∷ ps) = no_nul p && all_no_nul ps

-- A key that a table with `arity` key columns can hold: Postgres text has no NUL byte.
unfoldable pub is_valid_key : ℕ → KeyValues → Bool
is_valid_key arity k = nat_beq (length k) arity && all_no_nul k

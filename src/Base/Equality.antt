-- ===== src/Base/Equality.antt =====
-- Go's `==` on comparable values as an interface, and what is built on it: membership of a list
-- and maps as functions.
use Prim.Native.Nat.{ℕ}
use mathlib.Core.Path.{◌≡◌, refl}
use mathlib.Core.Logic.{◌↔◌, ◌⊎◌, inl, inr}
use mathlib.Core.Bool.{Bool, true, false, ◌||◌}
use mathlib.Core.List.{List, [], ◌∷◌, ◌++◌}
use native.Mathlib.Omega.{arith}
use replicare.Base.Tests.{nat_beq, nat_beq_iff, if◌then◌else◌, Bool-cases}

pub record Eq {ℓ} (A : Type ℓ) : Type ℓ where
  pub beq : A → A → Bool
  pub beq_iff : (a b : A) → (beq a b ≡ true) ↔ (a ≡ b)

instance abbrev pub nat_eq : Eq ℕ
nat_eq = record { beq = nat_beq; beq_iff = nat_beq_iff }

infix 50 ◌==◌
abbrev pub ◌==◌ {ℓ} : {T : Type ℓ} ⦃same : Eq T⦄ → T → T → Bool
◌==◌ ⦃same⦄ = same.beq

module _ {ℓ} {A : Type ℓ} ⦃e : Eq A⦄ where
  pub ==_refl : (a : A) → (a == a) ≡ true
  ==_refl a = (e.beq_iff a a).1 refl

  pub ==_cases : (a b : A) → ((a == b) ≡ true) × (a ≡ b) ⊎ ((a == b) ≡ false) × ¬ (a ≡ b)
  ==_cases a b = elim (Bool-cases (a == b)) [
    | inl h ↦ inl (h, (e.beq_iff a b).0 h)
    | inr h ↦ inr (h, λ p. cc ((e.beq_iff a b).1 p))
  ]

  abbrev pub contains : A → List A → Bool
  contains a [] = false
  contains a (x ∷ xs) = a == x || contains a xs

  pub contains-append :
      (a : A) (xs ys : List A) → contains a (xs ++ ys) ≡ contains a xs || contains a ys
  contains-append a [] ys = refl
  contains-append a (x ∷ xs) ys = ground (arith, contains-append a xs ys)

  abbrev pub is_nodup : List A → Bool
  is_nodup [] = true
  is_nodup (x ∷ xs) = if contains x xs then false else is_nodup xs

  -- A Go map that is only looked up and assigned, as a function.
  abbrev pub update {κ} : {V : Type κ} → (A → V) → A → V → A → V
  update f k v j = if j == k then v else f j

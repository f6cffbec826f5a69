-- ===== src/Copy/Ranges.antt =====
-- The contiguous prefix of finished chunks, and what the ranges of a plan hold.
use replicare.Base.{
  ℕ, zero, suc, ◌≤◌, ◌<◌, ◌≡◌, refl, ap, inl, inr, arith, Bool, true, false, ◌&&◌, Option, none,
  some, List, [], ◌∷◌, nat_eq, ltb, length, ==_cases, Bool-cases,
}
use replicare.Engine.{KeyValues}
use replicare.Copy.{
  keyset_ranges_from, CopyProgress, below_hi, from_lo, advance, hi_at, chunk_holds,
}

-- The prefix moves over finished chunks only.
pub advance_bounds :
    (fuel : ℕ) (finished : ℕ → Bool) (len prefix : ℕ)
    → prefix ≤ len
    → (prefix ≤ advance fuel finished len prefix)
      × (advance fuel finished len prefix ≤ len)
      × ((i : ℕ) → prefix ≤ i → i < advance fuel finished len prefix → finished i ≡ true)
unfolding advance
advance_bounds zero finished len prefix h = (omega arith, h, λ i a b. absurd (omega (arith, a, b)))
advance_bounds (suc fuel) finished len prefix h =
    elim (Bool-cases (ltb prefix len && finished prefix)) [
      | inr p ↦ rw p (omega arith, h, λ i a b. absurd (omega (arith, a, b)))
      | inl p ↦
          let (lo, hi, all) = advance_bounds fuel finished len (suc prefix) (ground (arith, p)) in
          rw p (
            omega (arith, lo),
            hi,
            λ i a b. elim (==_cases i prefix) [
              | inl (_, e) ↦ rw e (ground (arith, p))
              | inr (_, n) ↦ all i (different prefix i a n) b
            ],
          )
    ]
  where
    different : (p i : ℕ) → p ≤ i → ¬ (i ≡ p) → suc p ≤ i
    different p i a n = ground (arith, a, n)

module _ (below : KeyValues → KeyValues → Bool) where
  -- The first chunks of the ranges hold every key from the start to their end.
  pub ranges_hold :
      (start : Option KeyValues) (bs : List KeyValues) (p : ℕ) (k : KeyValues)
      → p < length (keyset_ranges_from start bs)
      → from_lo below start k ≡ true
      → below_hi below (hi_at (keyset_ranges_from start bs) p) k ≡ true
      → (i : ℕ) × (i ≤ p) × (chunk_holds below (keyset_ranges_from start bs) i k ≡ true)
  unfolding keyset_ranges_from
  ranges_hold start [] zero k h lo hi = (0, omega arith, rw (lo, hi) refl)
  ranges_hold start [] (suc p) k h lo hi = absurd (omega (arith, h))
  ranges_hold start (b ∷ bs) zero k h lo hi = (0, omega arith, rw (lo, hi) refl)
  ranges_hold start (b ∷ bs) (suc p) k h lo hi = elim (Bool-cases (below k b)) [
    | inl q ↦ (0, omega arith, rw (lo, q) refl)
    | inr q ↦
        let (i, le, held) = ranges_hold (some b) bs p k (omega (arith, h)) (rw q refl) hi in
        (suc i, omega (arith, le), held)
  ]

  pub from-below :
      (w : Option KeyValues) (k : KeyValues) → from_lo below w k ≡ false → below_hi below w k ≡ true
  from-below none k h = refl
  from-below (some b) k h = ground arith

  pub hi_last :
      (start : Option KeyValues) (bs : List KeyValues)
      → hi_at (keyset_ranges_from start bs) (length bs) ≡ none
  unfolding keyset_ranges_from
  hi_last start [] = refl
  hi_last start (b ∷ bs) = hi_last (some b) bs

  pub length-ranges :
      (start : Option KeyValues) (bs : List KeyValues)
      → length (keyset_ranges_from start bs) ≡ suc (length bs)
  unfolding keyset_ranges_from
  length-ranges start [] = refl
  length-ranges start (b ∷ bs) = ap suc (length-ranges (some b) bs)

  -- Every key below the watermark is loaded, and every key of all if the table is done.
  pub record IsCopied (loaded : KeyValues → Bool) (p : CopyProgress) : Type 0 where
    pub under : (k : KeyValues) → from_lo below p.watermark k ≡ false → loaded k ≡ true
    pub all : p.done ≡ true → (k : KeyValues) → loaded k ≡ true

-- ===== src/Copy/Watermark.antt =====
-- Everything below the watermark is loaded, after any order of chunks and any failure.
use replicare.Base.{
  ℕ, ◌≤◌, ◌≡◌, refl, ap, ◌⊎◌, inl, inr, arith, Bool, true, false, ◌||◌, Option, List, [], ◌∷◌,
  nat_eq, length, ◌==◌, ==_cases, if◌then◌else◌, Bool-cases,
}
use replicare.Engine.{KeyValues}
use replicare.Copy.{
  Chunk, keyset_ranges_from, below_hi, Save, takes_effect, Event, copied, failed, Copying, report,
  report_all, Kept, start_copy, finish_copy, copy_table,
}
use replicare.Copy.Ranges.{hi_last, length-ranges, IsCopied}
use replicare.Copy.Running.{
  Running, prefix_loaded, report_all-Running, start-Running, report_all-Keeps, copied_finishes,
  failed_fails,
}

-- A chunk among the reports, and a failure among them.
abbrev pub mentions : ℕ → List Event → Bool
mentions i [] = false
mentions i (copied j _ ∷ es) = i == j || mentions i es
mentions i (failed j ∷ es) = mentions i es

abbrev pub fails : List Event → Bool
fails [] = false
fails (copied j _ ∷ es) = fails es
fails (failed j ∷ es) = true

module _ (below : KeyValues → KeyValues → Bool) (start : Option KeyValues)
    (bs : List KeyValues) where
  abbrev ranges : List Chunk
  ranges = keyset_ranges_from start bs

  mentioned_finishes :
      (es : List Event) (s : Copying) (i : ℕ)
      → mentions i es ≡ true
      → (report_all below ranges es s).finished i ≡ true
  unfolding report_all
  mentioned_finishes [] s i m = ground arith
  mentioned_finishes (failed j ∷ es) s i m = mentioned_finishes es _ i m
  mentioned_finishes (copied j how ∷ es) s i m = elim (==_cases i j) [
    | inl (_, e) ↦ rw e (
        (report_all-Keeps below start bs es (report below ranges (copied j how) s)).0 j
          (copied_finishes below start bs j how s))
    | inr (n, _) ↦ mentioned_finishes es _ i (rw n at m)
  ]

  failing_fails :
      (es : List Event) (s : Copying)
      → fails es ≡ true
      → (report_all below ranges es s).failure ≡ true
  unfolding report_all
  failing_fails [] s f = ground arith
  failing_fails (failed j ∷ es) s f =
      (report_all-Keeps below start bs es (report below ranges (failed j) s)).1
        (failed_fails below start bs j s)
  failing_fails (copied j how ∷ es) s f = failing_fails es _ f

  every_key :
      (es : List Event) (s : Copying)
      → Running below start bs s
      → (report_all below ranges es s).failure ≡ false
      → (fails es ≡ true) ⊎ ((i : ℕ) → i ≤ length bs → mentions i es ≡ true)
      → (k : KeyValues) → (report_all below ranges es s).loaded k ≡ true
  every_key es s r f (inl c) k = absurd (cc (failing_fails es s c, f))
  every_key es s r f (inr c) k =
      prefix_loaded below start bs (report_all below ranges es s) (length bs)
        (report_all-Running below start bs es s r) (omega (arith, length-ranges below start bs))
        (λ i le. mentioned_finishes es s i (c i le)) k
        (ap (λ w. below_hi below w k) (hi_last below start bs))

  finish_copy-IsCopied :
      (es : List Event) (how : Save) (s : Copying)
      → Running below start bs s
      → (fails es ≡ true) ⊎ ((i : ℕ) → i ≤ length bs → mentions i es ≡ true)
      → IsCopied below
          (finish_copy how (report_all below ranges es s)).1.loaded
          (finish_copy how (report_all below ranges es s)).1.progress
  unfolding finish_copy
  finish_copy-IsCopied es how s r c =
      let s' = report_all below ranges es s in
      let r' = report_all-Running below start bs es s r in
      elim (Bool-cases s'.failure) [
        | inl f ↦ rw f r'.copied_so_far
        | inr f ↦ elim (Bool-cases (takes_effect how)) [
          | inr p ↦ rw (f, p) r'.copied_so_far
          | inl p ↦
              rw (f, p) (record { under = λ k u. absurd (cc); all = λ d k. every_key es s r f c k })
        ]
      ]

either-IsCopied :
    (below : KeyValues → KeyValues → Bool) (b : Bool) (x y : Bool × Kept)
    → IsCopied below x.1.loaded x.1.progress
    → IsCopied below y.1.loaded y.1.progress
    → IsCopied below (if b then x else y).1.loaded (if b then x else y).1.progress
either-IsCopied below true x y hx hy = hx
either-IsCopied below false x y hx hy = hy

-- A run of the copy of a table, fresh or resumed, whatever order the chunks end in and whichever copy
-- or checkpoint fails, keeps the promise of the progress record: every key below the watermark is
-- loaded, and every key at all once the table is marked done. The workers report a failure or every
-- chunk, as the group of workers waits for all of them.
pub copy_table-IsCopied :
    (below : KeyValues → KeyValues → Bool) (boundaries : List KeyValues) (events : List Event)
    (how : Save) (kept : Kept)
    → IsCopied below kept.loaded kept.progress
    → (fails events ≡ true) ⊎ ((i : ℕ) → i ≤ length boundaries → mentions i events ≡ true)
    → IsCopied below
        (copy_table below boundaries events how kept).1.loaded
        (copy_table below boundaries events how kept).1.progress
unfolding copy_table
copy_table-IsCopied below boundaries events how kept h c =
    either-IsCopied below kept.progress.done (true, kept) _ h
      (finish_copy-IsCopied below kept.progress.watermark boundaries events how (start_copy kept)
        (start-Running below kept.progress.watermark boundaries kept refl h) c)

-- ===== src/Copy/Running.antt =====
-- The invariant of a run: chunks that are finished are loaded, and the checkpoint lies behind them.
use replicare.Base.{
  ℕ, ◌-◌, ◌≤◌, ◌<◌, ◌≡◌, refl, inl, inr, arith, Bool, true, false, ◌&&◌, ◌||◌, Option, List, [],
  ◌∷◌, nat_eq, ltb, length, update, ==_refl, Bool-cases,
}
use replicare.Engine.{KeyValues}
use replicare.Copy.{
  Chunk, keyset_ranges_from, below_hi, from_lo, Save, takes_effect, Event, copied, failed, Copying,
  advance, hi_at, chunk_holds, checkpoint, report, report_all, Kept, start_copy,
}
use replicare.Copy.Ranges.{advance_bounds, ranges_hold, from-below, IsCopied}

module _ (below : KeyValues → KeyValues → Bool) (start : Option KeyValues)
    (bs : List KeyValues) where
  abbrev chunks : List Chunk
  chunks = keyset_ranges_from start bs

  pub record Running (s : Copying) : Type 0 where
    pub base : (k : KeyValues) → from_lo below start k ≡ false → s.loaded k ≡ true
    pub held :
        (i : ℕ) (k : KeyValues)
        → s.finished i ≡ true
        → chunk_holds below chunks i k ≡ true
        → s.loaded k ≡ true
    pub behind : (i : ℕ) → i < s.prefix → s.finished i ≡ true
    pub bound : s.prefix ≤ length chunks
    pub copied_so_far : IsCopied below s.loaded s.progress

  -- Where the first `p + 1` chunks are finished, every key below their end is loaded.
  pub prefix_loaded :
      (s : Copying) (p : ℕ)
      → Running s
      → p < length chunks
      → ((i : ℕ) → i ≤ p → s.finished i ≡ true)
      → (k : KeyValues) → below_hi below (hi_at chunks p) k ≡ true
      → s.loaded k ≡ true
  prefix_loaded s p r h fin k hi = elim (Bool-cases (from_lo below start k)) [
    | inr lo ↦ r.base k lo
    | inl lo ↦
        let (i, le, held) = ranges_hold below start bs p k h lo hi in r.held i k (fin i le) held
  ]

  abbrev loaded_more : ℕ → Copying → Copying
  loaded_more i s =
      let finished = update s.finished i true in
      record s {
        loaded = λ k. s.loaded k || chunk_holds below chunks i k;
        finished = finished;
        prefix = advance (length chunks) finished (length chunks) s.prefix;
      }

  copied-Running : (i : ℕ) (s : Copying) → Running s → Running (loaded_more i s)
  copied-Running i s r =
      let finished = update s.finished i true in
      let (lo, hi, all) =
        advance_bounds (length chunks) finished (length chunks) s.prefix r.bound in
      record {
        base = λ k b. ground (arith, r.base k b);
        held = λ j k f c. ground (arith, r.held j k, nat_eq.beq_iff j i, c);
        behind = λ j b. elim (Bool-cases (ltb j s.prefix)) [
          | inl q ↦ ground (arith, r.behind j, q)
          | inr q ↦ all j (ground (arith, q)) b
        ];
        bound = hi;
        copied_so_far = record {
          under = λ k u. ground (arith, r.copied_so_far.under k u);
          all = λ d k. ground (arith, r.copied_so_far.all d k);
        };
      }

  prefix_end :
      (s : Copying) (old : ℕ)
      → old < s.prefix
      → Running s
      → (k : KeyValues) → from_lo below (hi_at chunks (s.prefix - 1)) k ≡ false
      → s.loaded k ≡ true
  prefix_end s old moved r k u =
      prefix_loaded s (s.prefix - 1) r (omega (arith, moved, r.bound))
        (λ i le. r.behind i (omega (arith, moved, le))) k
        (from-below below (hi_at chunks (s.prefix - 1)) k u)

  checkpoint-Running :
      (how : Save) (old : ℕ) (s : Copying)
      → old < s.prefix
      → Running s
      → Running (checkpoint how chunks s)
  unfolding checkpoint
  checkpoint-Running how old s moved r = record {
    base = r.base;
    held = r.held;
    behind = r.behind;
    bound = r.bound;
    copied_so_far = elim (Bool-cases (takes_effect how)) [
      | inr p ↦ rw p r.copied_so_far
      | inl p ↦
          rw p (record { under = λ k u. prefix_end s old moved r k u; all = λ d. absurd (cc) })
    ];
  }

  report-Running : (e : Event) (s : Copying) → Running s → Running (report below chunks e s)
  unfolding report
  report-Running (failed i) s r = record {
    base = r.base;
    held = r.held;
    behind = r.behind;
    bound = r.bound;
    copied_so_far = r.copied_so_far;
  }
  report-Running (copied i how) s r =
      let s' = loaded_more i s in
      let k = copied-Running i s r in
      elim (Bool-cases (ltb s.prefix s'.prefix && ltb s'.prefix (length chunks))) [
        | inl p ↦ rw p (checkpoint-Running how s.prefix s' (ground (arith, p)) k)
        | inr p ↦ rw p k
      ]

  pub report_all-Running :
      (es : List Event) (s : Copying) → Running s → Running (report_all below chunks es s)
  unfolding report_all
  report_all-Running [] s r = r
  report_all-Running (e ∷ es) s r =
      report_all-Running es (report below chunks e s) (report-Running e s r)

  pub start-Running :
      (kept : Kept)
      → kept.progress.watermark ≡ start
      → IsCopied below kept.loaded kept.progress
      → Running (start_copy kept)
  unfolding start_copy
  start-Running kept e c = record {
    base = λ k b. c.under k (rw e b);
    held = λ i k f h. absurd (cc);
    behind = λ i b. absurd (omega (arith, b));
    bound = omega arith;
    copied_so_far = c;
  }

  -- What was reported stays so.
  report-Keeps :
      (e : Event) (s : Copying)
      → ((i : ℕ) → s.finished i ≡ true → (report below chunks e s).finished i ≡ true)
        × (s.failure ≡ true → (report below chunks e s).failure ≡ true)
  unfolding report checkpoint
  report-Keeps (failed j) s = (λ i f. f, λ f. refl)
  report-Keeps (copied j how) s =
      let s' = loaded_more j s in
      elim (Bool-cases (ltb s.prefix s'.prefix && ltb s'.prefix (length chunks))) [
        | inl p ↦ rw p (λ i f. ground (arith, f), λ f. ground (arith, f))
        | inr p ↦ rw p (λ i f. ground (arith, f), λ f. f)
      ]

  abbrev Keeps : Copying → Copying → Type 0
  Keeps s s' =
      ((i : ℕ) → s.finished i ≡ true → s'.finished i ≡ true)
      × (s.failure ≡ true → s'.failure ≡ true)

  pub report_all-Keeps : (es : List Event) (s : Copying) → Keeps s (report_all below chunks es s)
  unfolding report_all
  report_all-Keeps [] s = (λ i f. f, λ f. f)
  report_all-Keeps (e ∷ es) s =
      let a = report-Keeps e s in
      let b = report_all-Keeps es (report below chunks e s) in
      (λ i f. b.0 i (a.0 i f), λ f. b.1 (a.1 f))

  pub copied_finishes :
      (i : ℕ) (how : Save) (s : Copying) → (report below chunks (copied i how) s).finished i ≡ true
  unfolding report checkpoint
  copied_finishes i how s =
      let s' = loaded_more i s in
      elim (Bool-cases (ltb s.prefix s'.prefix && ltb s'.prefix (length chunks))) [
        | inl p ↦ rw (p, ==_refl i) refl
        | inr p ↦ rw (p, ==_refl i) refl
      ]

  pub failed_fails : (i : ℕ) (s : Copying) → (report below chunks (failed i) s).failure ≡ true
  unfolding report
  failed_fails i s = refl

-- ===== src/Copy.antt =====
-- internal/copy/copy.go and internal/engine/postgres/chunk.go: the chunked initial copy of a table and
-- its checkpoints. `below` is the key order of the source's server, a parameter.
-- The workers of a table finish chunks in any order: a run is the list of what they report, each
-- under the lock. The rows that are known to be loaded are a set of keys.
pub mod Ranges
mod Running
pub mod Watermark
pub mod Attempts
use replicare.Base.{
  ℕ, zero, suc, ◌+◌, ◌-◌, Bool, true, false, not, ◌&&◌, ◌||◌, Option, none, some, List, [], ◌∷◌,
  Bytes, nat_eq, ltb, length, get_elem?, contains, update, ◌==◌, if◌then◌else◌,
}
use replicare.Engine.{KeyValues, Error, other, Result, ok, err}

pub record Chunk : Type 0 where
  pub lo : Option KeyValues
  pub hi : Option KeyValues

-- `buildKeysetRangesFrom`.
unfoldable pub keyset_ranges_from : Option KeyValues → List KeyValues → List Chunk
keyset_ranges_from start [] = record { lo = start; hi = none } ∷ []
keyset_ranges_from start (b ∷ bs) =
    record { lo = start; hi = some b } ∷ keyset_ranges_from (some b) bs

-- `state.CopyProgress`, what the driver reads and writes of it.
pub record CopyProgress : Type 0 where
  pub done : Bool
  pub watermark : Option KeyValues

module _ (below : KeyValues → KeyValues → Bool) where
  abbrev pub below_hi : Option KeyValues → KeyValues → Bool
  below_hi none k = true
  below_hi (some b) k = below k b

  abbrev pub from_lo : Option KeyValues → KeyValues → Bool
  from_lo none k = true
  from_lo (some b) k = not (below k b)

  -- The half-open range [lo, hi).
  abbrev pub in_chunk : Chunk → KeyValues → Bool
  in_chunk c k = from_lo c.lo k && below_hi c.hi k

-- How a call of the state store ends: it may fail after it took effect.
pub data Save : Type 0 where
  saved lost refused : Save

abbrev pub takes_effect : Save → Bool
takes_effect saved = true
takes_effect lost = true
takes_effect refused = false

abbrev pub succeeds : Save → Bool
succeeds saved = true
succeeds lost = false
succeeds refused = false

-- What a worker reports: a chunk that it copied, with how a checkpoint would end, or a failure.
pub data Event : Type 0 where
  copied : ℕ → Save → Event
  failed : ℕ → Event

pub record Copying : Type 0 where
  pub loaded : KeyValues → Bool
  pub progress : CopyProgress
  pub finished : ℕ → Bool
  pub prefix : ℕ
  pub failure : Bool

-- `for prefix < len(chunks) && done[prefix]`.
unfoldable pub advance : ℕ → (ℕ → Bool) → ℕ → ℕ → ℕ
advance zero finished len prefix = prefix
advance (suc fuel) finished len prefix =
    let rest = advance fuel finished len (suc prefix) in
    if ltb prefix len && finished prefix then rest else prefix

abbrev pub hi_at : List Chunk → ℕ → Option KeyValues
hi_at [] i = none
hi_at (c ∷ cs) zero = c.hi
hi_at (c ∷ cs) (suc i) = hi_at cs i

abbrev pub chunk_holds : (KeyValues → KeyValues → Bool) → List Chunk → ℕ → KeyValues → Bool
chunk_holds below [] i k = false
chunk_holds below (c ∷ cs) zero k = in_chunk below c k
chunk_holds below (c ∷ cs) (suc i) k = chunk_holds below cs i k

-- The checkpoint at the end of the contiguous prefix.
unfoldable pub checkpoint : Save → List Chunk → Copying → Copying
checkpoint how chunks s = record s {
  progress =
      if takes_effect how
      then record { done = false; watermark = hi_at chunks (s.prefix - 1) }
      else s.progress;
  failure = s.failure || not (succeeds how);
}

unfoldable pub report : (KeyValues → KeyValues → Bool) → List Chunk → Event → Copying → Copying
unfolding advance checkpoint
report below chunks (failed i) s = record s { failure = true }
report below chunks (copied i how) s =
    let finished = update s.finished i true in
    let prefix = advance (length chunks) finished (length chunks) s.prefix in
    let s' = record s {
      loaded = λ k. s.loaded k || chunk_holds below chunks i k;
      finished = finished;
      prefix = prefix;
    } in
    if ltb s.prefix prefix && ltb prefix (length chunks) then checkpoint how chunks s' else s'

unfoldable pub report_all :
    (KeyValues → KeyValues → Bool) → List Chunk → List Event → Copying → Copying
unfolding report
report_all below chunks [] s = s
report_all below chunks (e ∷ es) s = report_all below chunks es (report below chunks e s)

-- What lies in the target and in the state store between runs.
pub record Kept : Type 0 where
  pub loaded : KeyValues → Bool
  pub progress : CopyProgress

unfoldable pub start_copy : Kept → Copying
start_copy kept = record {
  loaded = kept.loaded;
  progress = kept.progress;
  finished = λ _. false;
  prefix = 0;
  failure = false;
}

-- `g.Wait()`, and the mark that the table is complete.
unfoldable pub finish_copy : Save → Copying → Bool × Kept
finish_copy how s =
    if s.failure then (false, record { loaded = s.loaded; progress = s.progress }) else (
      succeeds how,
      record {
        loaded = s.loaded;
        progress =
            if takes_effect how then record { done = true; watermark = none } else s.progress;
      },
    )

-- `copyTable` with the boundaries that planning from the watermark found; it tells whether it
-- succeeded.
unfoldable pub copy_table :
    (KeyValues → KeyValues → Bool) → List KeyValues → List Event → Save → Kept → Bool × Kept
unfolding keyset_ranges_from report_all start_copy finish_copy
copy_table below boundaries events how kept =
    let chunks = keyset_ranges_from kept.progress.watermark boundaries in
    if kept.progress.done
    then (true, kept)
    else finish_copy how (report_all below chunks events (start_copy kept))

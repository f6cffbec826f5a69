-- ===== src/Samples/Chunks.antt =====
-- A table of which the first chunk is copied, and a run that ends the rest out of order.
use replicare.Base.{
  ℕ, ◌≡◌, refl, ◌≤◌, inr, arith, nat_beq, if◌then◌else◌, Bool, true, false, none, some, List, [],
  ◌∷◌, Bytes, codes, bytes_lt,
}
use replicare.Engine.{KeyValues, other, ok, err}
use replicare.Copy.{
  saved, lost, Event, copied, Kept, keyset_ranges_from, advance, checkpoint, report, report_all,
  start_copy, finish_copy, copy_table,
}
use replicare.Copy.Ranges.{IsCopied}
use replicare.Copy.Watermark.{mentions, copy_table-IsCopied}
use replicare.Copy.Attempts.{
  Try, load_direct, load_merge, copy_chunk_resilient, try_chunk, Ran, copy_chunk_resilient-runs,
}

abbrev below : KeyValues → KeyValues → Bool
below (x ∷ _) (y ∷ _) = bytes_lt x y
below [] (y ∷ _) = true
below _ [] = false

abbrev key : Bytes → KeyValues
key b = b ∷ []

-- Everything below "d" is loaded.
abbrev kept : Kept
kept = record {
  loaded = λ k. below k (key (codes "d"));
  progress = record { done = false; watermark = some (key (codes "d")) };
}

kept-IsCopied : IsCopied below kept.loaded kept.progress
kept-IsCopied = record { under = λ k u. ground arith; all = λ d. absurd (cc) }

-- Chunks [d, h), [h, m) and [m, ∞).
abbrev boundaries : List KeyValues
boundaries = key (codes "h") ∷ key (codes "m") ∷ []

-- The checkpoint after [d, h) and [h, m) takes effect, but its reply is lost.
abbrev events : List Event
events = copied 1 saved ∷ copied 0 lost ∷ copied 2 saved ∷ []

lost_reply :
    (copy_table below boundaries events saved kept).1.progress.watermark ≡ some (key (codes "m"))
unfolding copy_table keyset_ranges_from report_all report advance checkpoint start_copy finish_copy
    bytes_lt
lost_reply = refl

all_mentioned : (i : ℕ) → i ≤ 2 → mentions i events ≡ true
all_mentioned i h = ground arith

copy_table-IsCopied_example :
    IsCopied below
      (copy_table below boundaries events saved kept).1.loaded
      (copy_table below boundaries events saved kept).1.progress
copy_table-IsCopied_example =
    copy_table-IsCopied below boundaries events saved kept kept-IsCopied (inr all_mentioned)

-- The source is down at first, then the copy goes through.
abbrev tried : Bool → Try
tried down = record {
  result = if down then err (other 7) else ok 42;
  cancelled = false;
  source_down = down;
  sink_down = false;
  cancelled_in_wait = none;
}

abbrev dropped : ℕ → Try
dropped n = tried (nat_beq n 0)

second_try : (copy_chunk_resilient dropped load_direct).modes ≡ load_direct ∷ load_merge ∷ []
unfolding copy_chunk_resilient try_chunk
second_try = refl

copy_chunk_resilient-runs_example :
    Ran 6 dropped load_direct (copy_chunk_resilient dropped load_direct)
copy_chunk_resilient-runs_example = copy_chunk_resilient-runs dropped load_direct

-- ===== src/Postgres/Purge.antt =====
-- internal/engine/postgres/purge.go: which targets have fallen too far behind, and the deletion of
-- deltas that every other target has consumed.
-- A cap of zero or less is no cap; here caps are numbers from zero on.
-- `age` gives the age of a delta in nanoseconds, `total_bytes` the size of the delta table: both are
-- the server's. Durations and sizes are int64.
mod Keeps
pub mod Safety
pub mod Caps
pub mod Loop
use replicare.Base.{
  ℕ, zero, suc, ◌+◌, ◌-◌, ◌*◌, ◌/◌, ◌%◌, ◌^◌, Bool, true, false, not, ◌&&◌, ◌||◌, Option, none,
  some, List, [], ◌∷◌, Bytes, bytes_eq, bytes_lt, nat_beq, ltb, leb, length, contains, update, ◌==◌,
  if◌then◌else◌, sort_by,
}
use replicare.Engine.{TableRef, table_ref_eq, TargetId, DirtyKey, Error, Result, ok, err}
use replicare.Postgres.Capture.{Entry, purged, Captured, is_visible, tracked, unconsumed}
use replicare.Postgres.World.{World, Exec, ◌>>=◌, ◌>>◌, lift, attempt, call}

pub record RetentionPolicy : Type 0 where
  pub max_age_seconds : ℕ
  pub max_bytes : ℕ

pub record DeltaBacklog : Type 0 where
  pub rows : ℕ
  pub bytes : ℕ
  pub oldest_age : ℕ
  pub has_backlog : Bool

abbrev pub visible_rows : List Entry → ℕ
visible_rows [] = 0
visible_rows (e ∷ es) = (if is_visible e.status then 1 else 0) + visible_rows es

abbrev pub oldest : (ℕ → ℕ) → List DirtyKey → ℕ
oldest age [] = 0
oldest age (d ∷ ds) =
    let rest = oldest age ds in if ltb rest (age d.delta_id) then age d.delta_id else rest

-- The quotient of int64 `n`, in two's complement, by a positive number; it rounds to zero.
abbrev pub int64_div : ℕ → ℕ → ℕ
int64_div n d =
    if ltb (n % 2 ^ 64) (2 ^ 63)
    then n % 2 ^ 64 / d
    else (2 ^ 64 - (2 ^ 64 - n % 2 ^ 64) / d) % 2 ^ 64

unfoldable pub delta_backlog : (ℕ → ℕ) → ℕ → Captured → TargetId → DeltaBacklog
unfolding unconsumed tracked
delta_backlog age total_bytes c target =
    let left = unconsumed (tracked c.track target) 0 c.log in
    let total = visible_rows c.log in
    record {
      rows = length left;
      bytes = if ltb 0 total then int64_div (total_bytes * length left) total else 0;
      oldest_age = oldest age left;
      has_backlog = ltb 0 (length left);
    }

abbrev pub Backlogs : Type 0
Backlogs = List (TargetId × DeltaBacklog)

abbrev pub mark : TargetId → List TargetId → List TargetId
mark t over = if contains t over then over else t ∷ over

-- `time.Duration(s) * time.Second`, which wraps, and the comparison of an age with it.
abbrev pub exceeds_age : ℕ → ℕ → Bool
exceeds_age s age = leb (2 ^ 63) (s * 1000000000 % 2 ^ 64) || ltb (s * 1000000000 % 2 ^ 64) age

unfoldable pub over_age : ℕ → Backlogs → List TargetId → List TargetId
over_age s [] over = over
over_age s ((t, b) ∷ rest) over =
    over_age s rest (if b.has_backlog && exceeds_age s b.oldest_age then mark t over else over)

-- The target with the oldest unconsumed delta; the first of equally old ones.
unfoldable pub laggard : Backlogs → Option (TargetId × ℕ) → Option (TargetId × ℕ)
laggard [] found = found
laggard ((t, b) ∷ rest) found = laggard rest (elim found [
  | none ↦ if b.has_backlog then some (t, b.oldest_age) else none
  | some f ↦ if b.has_backlog && ltb f.1 b.oldest_age then some (t, b.oldest_age) else some f
])

abbrev pub mark_found : Option (TargetId × ℕ) → List TargetId → List TargetId
mark_found none over = over
mark_found (some (t, _)) over = mark t over

unfoldable pub over_cap_targets : RetentionPolicy → Backlogs → ℕ → List TargetId
unfolding over_age laggard sort_by
over_cap_targets ret backlogs total_bytes =
    let aged = if ltb 0 ret.max_age_seconds then over_age ret.max_age_seconds backlogs [] else [] in
    sort_by bytes_lt (
      if ltb 0 ret.max_bytes && ltb ret.max_bytes total_bytes
      then mark_found (laggard backlogs none) aged
      else aged)

-- The reads behind it; a policy without caps reads nothing.
unfoldable pub read_backlogs : (ℕ → ℕ) → ℕ → TableRef → List TargetId → Exec Backlogs
unfolding delta_backlog ◌>>=◌ lift call
read_backlogs age total_bytes t [] = lift (ok [])
read_backlogs age total_bytes t (tg ∷ tgs) = do
  b ← call (λ w. (ok (delta_backlog age total_bytes (w.src t) tg), w))
  rest ← read_backlogs age total_bytes t tgs
  lift (ok ((tg, b) ∷ rest))

unfoldable pub weigh_backlogs :
    (ℕ → ℕ) → ℕ → TableRef → List TargetId → RetentionPolicy → Exec (List TargetId)
unfolding read_backlogs over_cap_targets ◌>>=◌ lift call
weigh_backlogs age total_bytes t targets ret = do
  backlogs ← read_backlogs age total_bytes t targets
  size ← if ltb 0 ret.max_bytes then call (λ w. (ok total_bytes, w)) else lift (ok 0)
  lift (ok (over_cap_targets ret backlogs size))

unfoldable pub find_over_cap :
    (ℕ → ℕ) → ℕ → TableRef → List TargetId → RetentionPolicy → Exec (List TargetId)
unfolding weigh_backlogs lift
find_over_cap age total_bytes t targets ret =
    if ltb 0 ret.max_age_seconds || ltb 0 ret.max_bytes
    then weigh_backlogs age total_bytes t targets ret
    else lift (ok [])

-- GROUP BY delta_id HAVING count(*) = len(targets), over the track rows of the targets.
abbrev pub tracks_of : List (TargetId × ℕ) → List TargetId → ℕ → ℕ
tracks_of [] targets i = 0
tracks_of ((t, j) ∷ rest) targets i =
    (if contains t targets && nat_beq j i then 1 else 0) + tracks_of rest targets i

unfoldable pub purgeable : List (TargetId × ℕ) → List TargetId → ℕ → Bool
purgeable track [] i = true
purgeable track (t ∷ ts) i = nat_beq (tracks_of track (t ∷ ts) i) (length (t ∷ ts))

-- DELETE of the first `n` visible rows in `gone`; `i` is the delta_id of the log's head.
unfoldable pub sweep : ℕ → (ℕ → Bool) → ℕ → List Entry → List Entry × ℕ
sweep n gone i [] = ([], 0)
sweep zero gone i (e ∷ es) = (e ∷ es, 0)
sweep (suc n) gone i (e ∷ es) =
    let deleted = sweep n gone (suc i) es in
    let kept = sweep (suc n) gone (suc i) es in
    if is_visible e.status && gone i
    then (record e { status = purged } ∷ deleted.0, suc deleted.1)
    else (e ∷ kept.0, kept.1)

abbrev pub sweep_on : TableRef → List TargetId → ℕ → Exec ℕ
sweep_on t targets batch w =
    let c = w.src t in
    let (log, n) = sweep batch (purgeable c.track targets) 0 c.log in
    (ok n, record w { src = update w.src t (record c { log = log }) })

pub record PurgeStats : Type 0 where
  pub deltas_purged : ℕ
  pub targets_reseeded : List TargetId

abbrev pub Purged : Type 0
Purged = World → (ℕ × Option Error) × World

abbrev pub after_batch : ℕ → ℕ → Result ℕ → Purged → Purged
after_batch batch total (err e) rest w = ((total, some e), w)
after_batch batch total (ok n) rest w = if ltb n batch then ((total + n, none), w) else rest w

-- `purgeConsumedBy`, at most `fuel` batches.
unfoldable pub purge_consumed_by : ℕ → TableRef → List TargetId → ℕ → ℕ → Purged
unfolding sweep purgeable call
purge_consumed_by zero t targets batch total w = ((total, none), w)
purge_consumed_by (suc fuel) t targets batch total w =
    let (r, w') = call (sweep_on t targets batch) w in
    let n = elim r as (λ _. ℕ) [ ok m ↦ m | err _ ↦ 0 ] in
    after_batch batch total r (purge_consumed_by fuel t targets batch (total + n)) w'

-- DELETE FROM track WHERE target = ANY(reseed).
abbrev pub reset_track : List TargetId → List (TargetId × ℕ) → List (TargetId × ℕ)
reset_track reseed [] = []
reset_track reseed ((t, j) ∷ rest) =
    if contains t reseed then reset_track reseed rest else (t, j) ∷ reset_track reseed rest

abbrev pub reset_on : TableRef → List TargetId → Exec (Unit {0})
reset_on t reseed w =
    let c = w.src t in
    (ok tt, record w { src = update w.src t (record c { track = reset_track reseed c.track }) })

unfoldable pub subtract_targets : List TargetId → List TargetId → List TargetId
subtract_targets [] remove = []
subtract_targets (t ∷ ts) remove =
    if contains t remove then subtract_targets ts remove else t ∷ subtract_targets ts remove

abbrev pub default_purge_batch : ℕ
default_purge_batch = 10000

abbrev pub stats : ℕ → List TargetId → PurgeStats
stats n reseeded = record { deltas_purged = n; targets_reseeded = reseeded }

abbrev pub Swept : Type 0
Swept = (PurgeStats × Option Error) × World

abbrev pub report_purge : List TargetId → (ℕ × Option Error) × World → Swept
report_purge reseeded ((n, none), w) = ((stats n reseeded, none), w)
report_purge reseeded ((n, some e), w) = ((stats 0 reseeded, some e), w)

-- Without a sacrifice the number purged is reported beside an error as well.
abbrev pub purge_plain : (ℕ × Option Error) × World → Swept
purge_plain ((n, e), w) = ((stats n [], e), w)

abbrev pub after_reset : Result (Unit {0}) → List TargetId → Swept → World → Swept
after_reset (err e) reseed rest w = ((stats 0 [], some e), w)
after_reset (ok _) reseed rest w = rest

unfoldable pub sacrifice : ℕ → TableRef → List TargetId → List TargetId → World → Swept
unfolding purge_consumed_by subtract_targets call
sacrifice fuel t targets reseed w =
    let (r, w') = call (reset_on t reseed) w in
    after_reset r reseed
      (report_purge reseed
        (purge_consumed_by fuel t (subtract_targets targets reseed) default_purge_batch 0 w'))
      w'

abbrev pub purge_with : ℕ → TableRef → List TargetId → Result (List TargetId) → World → Swept
purge_with fuel t targets (err e) w = ((stats 0 [], some e), w)
purge_with fuel t targets (ok []) w =
    purge_plain (purge_consumed_by fuel t targets default_purge_batch 0 w)
purge_with fuel t targets (ok (x ∷ xs)) w = sacrifice fuel t targets (x ∷ xs) w

unfoldable pub purge : ℕ → (ℕ → ℕ) → ℕ → TableRef → List TargetId → RetentionPolicy → World → Swept
unfolding find_over_cap purge_consumed_by sacrifice
purge fuel age total_bytes t targets ret w =
    let (r, w') = find_over_cap age total_bytes t targets ret w in purge_with fuel t targets r w'

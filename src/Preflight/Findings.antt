-- ===== src/Preflight/Findings.antt =====
-- internal/engine/preflight.go: the findings of the checks and their severities. Of a message only
-- the name of its subject is kept, a column or a foreign key.
use replicare.Base.{
  ℕ, ◌+◌, ◌≡◌, refl, Bool, true, false, List, [], ◌∷◌, Bytes, bytes_beq, bytes_lt, any, length, ltb,
  if◌then◌else◌, arith,
}
use replicare.Engine.{TableRef, qualified}

pub data Severity : Type 0 where
  info warn block : Severity

pub record Finding : Type 0 where
  pub severity : Severity
  pub table : TableRef
  pub category : Bytes
  pub subject : Bytes

pub record SkippedTable : Type 0 where
  pub table : TableRef
  pub reason : Bytes

abbrev pub level : Severity → ℕ
level info = 0
level warn = 1
level block = 2

abbrev pub is_block : Finding → Bool
is_block f = elim f.severity [ block ↦ true | _ ↦ false ]

-- `PreflightReport.Blocked` and `Preflight.Blocked`.
unfoldable pub blocked : List Finding → Bool
blocked fs = any is_block fs

-- `Counts`: the findings of each severity.
pub record Counts : Type 0 where
  pub infos : ℕ
  pub warns : ℕ
  pub blocks : ℕ

abbrev count_one : Severity → Counts → Counts
count_one info c = record c { infos = c.infos + 1 }
count_one warn c = record c { warns = c.warns + 1 }
count_one block c = record c { blocks = c.blocks + 1 }

unfoldable pub counts_from : Counts → List Finding → Counts
counts_from c [] = c
counts_from c (f ∷ fs) = counts_from (count_one f.severity c) fs

unfoldable pub counts : List Finding → Counts
unfolding counts_from
counts fs = counts_from (record { infos = 0; warns = 0; blocks = 0 }) fs

-- By table, then the gravest first, then by category.
unfoldable pub finding_before : Finding → Finding → Bool
unfolding qualified
finding_before a b =
    if bytes_beq (qualified a.table) (qualified b.table)
    then if ltb (level b.severity) (level a.severity)
      then true
      else if ltb (level a.severity) (level b.severity)
      then false
      else bytes_lt a.category b.category
    else bytes_lt (qualified a.table) (qualified b.table)

abbrev has_severity : Severity → Severity → ℕ
has_severity info info = 1
has_severity warn warn = 1
has_severity block block = 1
has_severity s t = 0

-- How many findings have the severity.
abbrev pub number_of : Severity → List Finding → ℕ
number_of s [] = 0
number_of s (f ∷ fs) = has_severity s f.severity + number_of s fs

counts_from-number_of :
    (c : Counts) (fs : List Finding)
    → ((counts_from c fs).infos ≡ c.infos + number_of info fs)
      × ((counts_from c fs).warns ≡ c.warns + number_of warn fs)
      × ((counts_from c fs).blocks ≡ c.blocks + number_of block fs)
unfolding counts_from
counts_from-number_of c [] = (omega arith, omega arith, omega arith)
counts_from-number_of c (f ∷ fs) = ground (arith, counts_from-number_of (count_one f.severity c) fs)

blocked-number_of : (fs : List Finding) → blocked fs ≡ ltb 0 (number_of block fs)
unfolding blocked
blocked-number_of [] = refl
blocked-number_of (f ∷ fs) = ground (arith, blocked-number_of fs)

number_of-length :
    (fs : List Finding) → number_of info fs + number_of warn fs + number_of block fs ≡ length fs
number_of-length [] = refl
number_of-length (f ∷ fs) = ground (arith, number_of-length fs)

-- Each count is the number of findings of its severity, the three add up to the number of findings,
-- and some are counted as blocking exactly if the report is blocked.
pub counts_exact :
    (fs : List Finding)
    → ((counts fs).infos ≡ number_of info fs)
      × ((counts fs).warns ≡ number_of warn fs)
      × ((counts fs).blocks ≡ number_of block fs)
      × ((counts fs).infos + (counts fs).warns + (counts fs).blocks ≡ length fs)
      × (blocked fs ≡ ltb 0 (counts fs).blocks)
unfolding counts
counts_exact fs =
    let (i, w, b) = counts_from-number_of (record { infos = 0; warns = 0; blocks = 0 }) fs in
    (
      omega (arith, i),
      omega (arith, w),
      omega (arith, b),
      omega (arith, i, w, b, number_of-length fs),
      ground (arith, b, blocked-number_of fs),
    )

-- ===== src/Migrate.antt =====
-- internal/migrate/migrate.go: versioned schema migrations. The database is a parameter of the
-- code, an interface, whose lock and whose reading of the version are left out; what Apply asks of it, that a transaction takes effect as a whole with its
-- version or not at all, is how `DB` steps here: `faults` says which transactions fail.
pub mod Idempotent
use replicare.Base.{
  ℕ, zero, suc, ◌+◌, Bool, true, false, Option, none, some, List, [], ◌∷◌, ◌++◌, Bytes, ltb,
  nat_beq, if◌then◌else◌, sort_by,
}

pub record Migration : Type 0 where
  pub version : ℕ
  pub name : Bytes
  pub statements : List Bytes

-- `Set`: `name` and `version_table` with the migrations.
pub record MigrationSet : Type 0 where
  pub name : Bytes
  pub version_table : Bytes
  pub migrations : List Migration

abbrev pub earlier : Migration → Migration → Bool
earlier a b = ltb a.version b.version

unfoldable pub sorted : MigrationSet → List Migration
unfolding sort_by
sorted s = sort_by earlier s.migrations

pub data Invalid : Type 0 where
  no_version_table : Invalid
  wrong_version no_name no_statements : ℕ → Invalid

-- A migration at its right place: the first thing that it lacks, or what comes later.
abbrev pub lacks : Bytes → List Bytes → ℕ → Option Invalid → Option Invalid
lacks [] statements v rest = some (no_name v)
lacks (_ ∷ _) [] v rest = some (no_statements v)
lacks (_ ∷ _) (_ ∷ _) v rest = rest

unfoldable pub validate_from : ℕ → List Migration → Option Invalid
validate_from want [] = none
validate_from want (m ∷ ms) =
    let rest = validate_from (suc want) ms in
    if nat_beq m.version want
    then lacks m.name m.statements m.version rest
    else some (wrong_version m.version)

abbrev pub unless_unnamed : Bytes → Option Invalid → Option Invalid
unless_unnamed [] rest = some no_version_table
unless_unnamed (_ ∷ _) rest = rest

unfoldable pub validate : MigrationSet → Option Invalid
unfolding validate_from sorted
validate s = unless_unnamed s.version_table (validate_from 1 (sorted s))

-- `Target`: the highest version.
unfoldable pub highest : List Migration → ℕ → ℕ
highest [] t = t
highest (m ∷ ms) t = highest ms (if ltb t m.version then m.version else t)

unfoldable pub newer : ℕ → List Migration → List Migration
newer current [] = []
newer current (m ∷ ms) =
    let rest = newer current ms in if ltb current m.version then m ∷ rest else rest

unfoldable pub pending : MigrationSet → ℕ → List Migration
unfolding newer sorted
pending s current = newer current (sorted s)

-- The database: the statements that took effect, in order, and the recorded version.
pub record Database : Type 0 where
  pub executed : List Bytes
  pub version : ℕ
  -- For each transaction to come, whether it fails; then it leaves nothing behind.
  pub faults : List Bool

abbrev pub take_fault : List Bool → Bool × List Bool
take_fault [] = (false, [])
take_fault (b ∷ bs) = (b, bs)

-- `InTx` of one migration: every statement and `RecordVersion`, or nothing.
unfoldable pub in_tx : Migration → Database → Bool × Database
in_tx m db =
    let (fails, rest) = take_fault db.faults in
    if fails then (false, record db { faults = rest }) else (
      true,
      record { executed = db.executed ++ m.statements; version = m.version; faults = rest },
    )

pub data Failure : Type 0 where
  invalid : Invalid → Failure
  failed_at : ℕ → Failure

pub record Applied : Type 0 where
  pub versions : List ℕ
  pub failure : Option Failure

abbrev pub with_version : ℕ → Applied × Database → Applied × Database
with_version v (a, db) = (record a { versions = v ∷ a.versions }, db)

unfoldable pub run_migrations : List Migration → Database → Applied × Database
unfolding in_tx
run_migrations [] db = (record { versions = []; failure = none }, db)
run_migrations (m ∷ ms) db =
    let (done, db') = in_tx m db in
    let rest = with_version m.version (run_migrations ms db') in
    if done then rest else (record { versions = []; failure = some (failed_at m.version) }, db')

abbrev pub if_valid : Option Invalid → Applied × Database → Database → Applied × Database
if_valid (some e) rest db = (record { versions = []; failure = some (invalid e) }, db)
if_valid none rest db = rest

unfoldable pub apply : MigrationSet → Database → Applied × Database
unfolding validate pending run_migrations
apply s db = if_valid (validate s) (run_migrations (pending s db.version) db) db

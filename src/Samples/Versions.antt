-- ===== src/Samples/Versions.antt =====
-- Two migrations, the second of which fails at first.
use replicare.Base.{
  ℕ, ◌≡◌, refl, true, false, none, [], ◌∷◌, Bytes, codes, length, sort_by, insert_sorted,
}
use replicare.Migrate.{
  Migration, MigrationSet, sorted, validate_from, validate, Database, newer, pending, in_tx,
  run_migrations, apply,
}
use replicare.Migrate.Idempotent.{fresh, apply_again, apply_all}

abbrev migration : ℕ → Bytes → Migration
migration v sql = record { version = v; name = codes "m"; statements = sql ∷ [] }

abbrev schema : MigrationSet
schema = record {
  name = codes "source";
  version_table = codes "schema_version";
  migrations = migration 2 (codes "CREATE SEQUENCE s") ∷ migration 1 (codes "CREATE TABLE t") ∷ [];
}

abbrev empty : Database
empty = record { executed = []; version = 0; faults = false ∷ true ∷ [] }

schema_valid : validate schema ≡ none
unfolding validate validate_from sorted sort_by insert_sorted
schema_valid = refl

stops_at_one : (apply schema empty).1.version ≡ 1
unfolding apply validate validate_from sorted sort_by insert_sorted pending newer run_migrations
    in_tx
stops_at_one = refl

apply_again_example :
    (apply schema (fresh (apply schema empty).1)).1 ≡ (apply schema (fresh empty)).1
apply_again_example = apply_again schema empty schema_valid

apply_all_example : (apply schema (fresh empty)).1.version ≡ length (sorted schema)
apply_all_example = apply_all schema empty schema_valid refl

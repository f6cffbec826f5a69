-- ===== src/Samples/Retention.antt =====
-- Purges of the small database.
use replicare.Base.{
  ℕ, ◌≡◌, refl, ◌<◌, arith, true, false, ◌&&◌, ◌||◌, none, [], ◌∷◌, codes, bytes_lt, ltb, contains,
  bytes_eq, is_sorted, sort_by, insert_sorted,
}
use replicare.Engine.Keys.{key_signature, is_valid_key}
use replicare.Postgres.Capture.{
  act, trigger, effects, settle_log, settle_rows, drop_writes, tracked, unconsumed, limit,
  read_dirty_keys, confirm_consumed, track_all, reread_current,
}
use replicare.Postgres.World.{
  ◌>>=◌, lift, attempt, call, read_dirty, introspect, reread, confirm, begin_apply, stage_upsert,
  delete_absent, commit_apply, rollback,
}
use replicare.Postgres.World.Synced.{IsSynced}
use replicare.Apply.Coalesce.{coalesce, distinct_from}
use replicare.Apply.Pass.{
  transported, columns_of, transport_columns, both_ends, unless_committed, in_transaction,
}
use replicare.Apply.Table.{drain_all, next_round, drain, drain_read, pipe_apply, apply_pass}
use replicare.Postgres.Purge.{
  RetentionPolicy, DeltaBacklog, Backlogs, delta_backlog, over_age, laggard, over_cap_targets,
  read_backlogs, weigh_backlogs, find_over_cap, purgeable, sweep, purge_consumed_by,
  subtract_targets, sacrifice, purge,
}
use replicare.Postgres.Purge.Safety.{purge-keeps}
use replicare.Postgres.Purge.Caps.{over_cap_targets_exact, is_aged, over_size, is_found, Laggard}
use replicare.Postgres.Purge.Loop.{left, purge_consumed_by-ends}
use replicare.Samples.{users, target, drained, drained-IsSynced}

abbrev one_hour : RetentionPolicy
one_hour = record { max_age_seconds = 3600; max_bytes = 0 }

-- The delta is five seconds old.
abbrev age : ℕ → ℕ
age i = 5000000000

none_sacrificed :
    contains target (purge 2 age 8192 users (target ∷ []) one_hour drained).0.0.targets_reseeded
    ≡ false
unfolding drain_all next_round drain drain_read pipe_apply apply_pass in_transaction
    unless_committed both_ends transport_columns columns_of transported coalesce distinct_from
    key_signature ◌>>=◌ lift attempt call read_dirty introspect reread confirm begin_apply
    stage_upsert delete_absent commit_apply rollback act trigger effects settle_log settle_rows
    drop_writes tracked unconsumed limit read_dirty_keys confirm_consumed track_all reread_current
    is_valid_key purge sacrifice subtract_targets purge_consumed_by sweep purgeable find_over_cap
    weigh_backlogs read_backlogs over_cap_targets laggard over_age delta_backlog sort_by
    insert_sorted
none_sacrificed = refl

target_configured : contains target (target ∷ []) ≡ true
target_configured = refl

purge-keeps_example : IsSynced target (purge 2 age 8192 users (target ∷ []) one_hour drained).1
purge-keeps_example =
    purge-keeps 2 age 8192 users (target ∷ []) one_hour target drained target_configured
      drained-IsSynced none_sacrificed

one_left : left users (target ∷ []) drained < 2
unfolding drain_all next_round drain drain_read pipe_apply apply_pass in_transaction
    unless_committed both_ends transport_columns columns_of transported coalesce distinct_from
    key_signature ◌>>=◌ lift attempt call read_dirty introspect reread confirm begin_apply
    stage_upsert delete_absent commit_apply rollback act trigger effects settle_log settle_rows
    drop_writes tracked unconsumed limit read_dirty_keys confirm_consumed track_all reread_current
    is_valid_key purgeable
one_left = omega arith

no_script : drained.script ≡ []
unfolding drain_all next_round drain drain_read pipe_apply apply_pass in_transaction
    unless_committed both_ends transport_columns columns_of transported coalesce distinct_from
    key_signature ◌>>=◌ lift attempt call read_dirty introspect reread confirm begin_apply
    stage_upsert delete_absent commit_apply rollback act trigger effects settle_log settle_rows
    drop_writes tracked unconsumed limit read_dirty_keys confirm_consumed track_all reread_current
    is_valid_key
no_script = refl

purge_consumed_by-ends_example :
    ((purge_consumed_by 2 users (target ∷ []) 10 0 drained).0
      ≡ (left users (target ∷ []) drained, none))
    × (left users (target ∷ []) (purge_consumed_by 2 users (target ∷ []) 10 0 drained).1 ≡ 0)
purge_consumed_by-ends_example =
    purge_consumed_by-ends 2 users (target ∷ []) 10 drained (omega arith) no_script one_left

abbrev backlog : ℕ → ℕ → DeltaBacklog
backlog rows oldest_age = record {
  rows = rows;
  bytes = 0;
  oldest_age = oldest_age;
  has_backlog = ltb 0 rows;
}

abbrev three_targets : Backlogs
three_targets =
    (codes "east", backlog 4 7000000000000)
    ∷ (codes "west", backlog 0 0)
    ∷ (codes "north", backlog 2 9000000000000)
    ∷ []

abbrev capped : RetentionPolicy
capped = record { max_age_seconds = 8000; max_bytes = 1000 }

both_caps : over_cap_targets capped three_targets 2000 ≡ codes "north" ∷ []
unfolding over_cap_targets laggard over_age sort_by insert_sorted
both_caps = refl

over_cap_targets_exact_example :
    (is_sorted bytes_lt (over_cap_targets capped three_targets 2000) ≡ true)
    × (contains (codes "north") (over_cap_targets capped three_targets 2000) ≡ (
        (ltb 0 8000 && is_aged 8000 three_targets (codes "north"))
        || (over_size capped 2000 && is_found (laggard three_targets none) (codes "north"))))
    × Laggard three_targets (laggard three_targets none)
over_cap_targets_exact_example = over_cap_targets_exact capped three_targets 2000 (codes "north")

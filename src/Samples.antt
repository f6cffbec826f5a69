-- ===== src/Samples.antt =====
-- A small source and target, runs of the code on them, and the theorems applied to them.
pub mod Retention
pub mod NullFill
pub mod Mesh
pub mod Chunks
pub mod Graph
pub mod Versions
pub mod Preflight
use replicare.Base.{
  is_nodup, ℕ, ◌≡◌, refl, ◌<◌, ◌≤◌, ◌-◌, ◌+◌, arith, Bool, true, false, Option, none, some, List,
  [], ◌∷◌, Bytes, codes, inl, length, map, contains, All,
}
use replicare.Engine.{
  TableRef, table_ref_eq, Column, Table, KeyValues, TargetId, DirtyKey, insert, other, ok,
}
use replicare.Engine.Keys.{key_eq, key_signature, is_valid_key}
use replicare.Postgres.Capture.{
  Captured, inserted, updated, Action, statement, commit, act, trigger, effects, settle_log,
  settle_rows, drop_writes, tracked, unconsumed, limit, read_dirty_keys, confirm_consumed,
  track_all, reread_current,
}
use replicare.Postgres.World.{
  World, Turn, Fault, after, run_action, ◌>>=◌, lift, attempt, call, read_dirty, introspect, reread,
  confirm, begin_apply, stage_upsert, delete_absent, commit_apply, rollback,
}
use replicare.Postgres.World.Synced.{IsSynced, IsSynced-stable}
use replicare.Apply.Coalesce.{coalesce, distinct_from, keys_of, coalesce_exact}
use replicare.Postgres.Capture.Reads.{ids_of}
use replicare.Engine.Keys.Injective.{key_signature-injective}
use replicare.Apply.Pass.{
  transported, columns_of, transport_columns, both_ends, unless_committed, in_transaction,
  drain_acyclic,
}
use replicare.Apply.Table.{drain_all, next_round, drain, drain_read, pipe_apply, apply_pass}
use replicare.Apply.Safety.Drain.{drain_acyclic-keeps}
use replicare.Apply.Safety.Table.{drain_all-keeps}
use replicare.Apply.Safety.Converge.{drained-copied}
use replicare.Apply.Progress.{drain_all-copies}

abbrev pub users : TableRef
users = record { schema = codes "public"; name = codes "users" }

abbrev column : Bytes → Bool → Column
column name generated = record {
  name = name;
  data_type = codes "text";
  nullable = false;
  generated = generated;
  identity = false;
  default_sequence = false;
}

abbrev users_table : Table
users_table = record {
  ref = users;
  columns =
      column (codes "id") false ∷ column (codes "upper") true ∷ column (codes "name") false ∷ [];
  primary_key = none;
  unique_keys = [];
  foreign_keys = [];
}

abbrev pub target : TargetId
target = codes "replica"

abbrev pub one : KeyValues
one = codes "1" ∷ []

abbrev pub two : KeyValues
two = codes "2" ∷ []

abbrev unchanged : Captured
unchanged = record { rows = λ _. none; writes = []; log = []; track = []; arity = 1 }

-- Two transactions interleave: the second takes its delta id later and commits first.
abbrev insert_one : Action
insert_one = statement 1 (inserted one (codes "ann"))

abbrev insert_two : Action
insert_two = statement 2 (inserted two (codes "bob"))

abbrev rename : Action
rename = statement 3 (updated two one (codes "eve"))

abbrev turn : List Action → Option Fault → Turn
turn actions fault = record { actions = map (λ a. (users, a)) actions; fault = fault }

-- A drain beside which the transactions run; the reply to its second commit is lost.
abbrev pub busy : World
busy = record {
  schema = users_table ∷ [];
  src = λ _. unchanged;
  dst = λ _ _. none;
  tx = none;
  script =
      turn (insert_one ∷ insert_two ∷ commit 2 ∷ []) none
      ∷ turn [] none
      ∷ turn (commit 1 ∷ []) none
      ∷ turn [] none
      ∷ turn (rename ∷ []) none
      ∷ turn [] none
      ∷ turn [] (some (after (other 9)))
      ∷ [];
}

busy-IsSynced : IsSynced target busy
unfolding tracked
busy-IsSynced = record {
  sound = λ t. record { closed = λ i h. absurd (cc); valid = tt; unique = refl; captured = tt };
  copied = λ t k. inl refl;
  viewed = λ x e. absurd (cc);
}

abbrev pub calm : World
calm =
    run_action (users, commit 2)
      (run_action (users, insert_two)
        (run_action (users, insert_one) (record busy { script = [] })))

calm-IsSynced : IsSynced target calm
calm-IsSynced =
    let s = IsSynced-stable target in
    s.on_action (users, commit 2) _
      (s.on_action (users, insert_two) _
        (s.on_action (users, insert_one) _ (s.on_turn [] busy busy-IsSynced)))

-- The pass over the busy source, and the drain of the calm one, as they run.
calm_drained : (drain_all 3 users target 1 calm).0 ≡ ok 1
unfolding drain_all next_round drain drain_read pipe_apply apply_pass in_transaction
    unless_committed both_ends transport_columns columns_of transported coalesce distinct_from
    key_signature ◌>>=◌ lift attempt call read_dirty introspect reread confirm begin_apply
    stage_upsert delete_absent commit_apply rollback act trigger effects settle_log settle_rows
    drop_writes tracked unconsumed limit read_dirty_keys confirm_consumed track_all reread_current
    is_valid_key
calm_drained = refl

users_known : columns_of users calm.schema ≡ ok (codes "id" ∷ codes "name" ∷ [])
unfolding columns_of transported
users_known = refl

calm_backlog : length (read_dirty_keys (calm.src users) target 0) < 3
unfolding act trigger effects settle_log settle_rows drop_writes unconsumed limit read_dirty_keys
    tracked is_valid_key
calm_backlog = omega arith

drain_all-copies_example :
    ((drain_all 3 users target 1 calm).0 ≡ ok (length (read_dirty_keys (calm.src users) target 0)))
    × ((k : KeyValues) → (drain_all 3 users target 1 calm).1.dst users k ≡ (calm.src users).rows k)
drain_all-copies_example =
    drain_all-copies 3 1 users target (codes "id" ∷ codes "name" ∷ []) calm users_known refl refl
      calm-IsSynced calm_backlog

drain_acyclic-keeps_example : IsSynced target (drain_acyclic (users ∷ []) target 100 busy).1
drain_acyclic-keeps_example = drain_acyclic-keeps (users ∷ []) target 100 busy busy-IsSynced

drain_all-keeps_example : IsSynced target (drain_all 4 users target 1 busy).1
drain_all-keeps_example = drain_all-keeps 4 users target 1 busy busy-IsSynced

abbrev pub drained : World
drained = (drain_all 3 users target 1 calm).1

pub drained-IsSynced : IsSynced target drained
drained-IsSynced = drain_all-keeps 3 users target 1 calm calm-IsSynced

drained_empty : read_dirty_keys (drained.src users) target 5 ≡ []
unfolding drain_all next_round drain drain_read pipe_apply apply_pass in_transaction
    unless_committed both_ends transport_columns columns_of transported coalesce distinct_from
    key_signature ◌>>=◌ lift attempt call read_dirty introspect reread confirm begin_apply
    stage_upsert delete_absent commit_apply rollback act trigger effects settle_log settle_rows
    drop_writes tracked unconsumed limit read_dirty_keys confirm_consumed track_all reread_current
    is_valid_key
drained_empty = refl

drained-copied_example : drained.dst users two ≡ (drained.src users).rows two
drained-copied_example = drained-copied target drained users 5 two drained-IsSynced drained_empty

abbrev change : ℕ → KeyValues → DirtyKey
change i k = record { delta_id = i; op = insert; key = k }

abbrev churn : List DirtyKey
churn = change 4 one ∷ change 6 two ∷ change 9 one ∷ []

one_valid : is_valid_key 1 one ≡ true
unfolding is_valid_key
one_valid = refl

churn_valid : All (λ d. is_valid_key 1 d.key ≡ true) churn
unfolding is_valid_key
churn_valid = (refl, (refl, (refl, tt)))

coalesce_exact_example :
    (contains one (coalesce churn).0 ≡ contains one (keys_of churn))
    × (is_nodup (coalesce churn).0 ≡ true)
    × ((coalesce churn).1 ≡ ids_of churn)
coalesce_exact_example = coalesce_exact 1 churn one churn_valid one_valid

abbrev pair : KeyValues
pair = codes "eu" ∷ codes "7" ∷ []

key_signature-injective_example : pair ≡ pair
key_signature-injective_example = key_signature-injective pair pair refl refl refl refl

-- With a NUL byte in a part, two keys share a signature.
nul_collision :
    key_signature ((97 ∷ 0 ∷ []) ∷ (98 ∷ []) ∷ []) ≡ key_signature ((97 ∷ []) ∷ (0 ∷ 98 ∷ []) ∷ [])
unfolding key_signature
nul_collision = refl

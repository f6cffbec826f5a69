-- ===== src/Postgres/World.antt =====
-- One source, one target, and the calls that the pipeline makes on them: internal/engine/engine.go
-- (`Source`, `Sink`, `ApplyTx`) as internal/engine/postgres implements them in consume.go,
-- reread.go, sink.go and apply_tx.go.
-- The lookups of table and capture metadata that begin a call are part of it: their errors are faults
-- before it, like those of the connection. An empty list of ids or keys is written as it is, which
-- changes nothing, where the code returns early.
-- `script` is the rest of the world: before each call the program's transactions take steps on the
-- source, and the call may fail, before or after it had its effect (a lost reply).
pub mod Spec
pub mod Synced
pub mod Calls
use replicare.Base.{
  ℕ, ◌≡◌, Bool, true, false, ◌&&◌, Option, none, some, List, [], ◌∷◌, Bytes, contains, update, ◌==◌,
  if◌then◌else◌,
}
use replicare.Engine.{
  TableRef, table_ref_eq, Table, KeyValues, TargetId, DirtyKey, Error, other, Result, ok, err,
}
use replicare.Engine.Keys.{key_eq}
use replicare.Postgres.Capture.{
  Captured, Action, act, read_dirty_keys, confirm_consumed, reread_current,
}

-- What happens at a call: a fault may strike before the server acts, or after.
pub data Fault : Type 0 where
  before after : Error → Fault

pub record Turn : Type 0 where
  pub actions : List (TableRef × Action)
  pub fault : Option Fault

abbrev pub Rows : Type 0
Rows = List (KeyValues × Bytes)

abbrev pub Tables : Type 0
Tables = TableRef → KeyValues → Option Bytes

-- An open transaction of the target: the tables as it sees them, and what it staged.
pub record Tx : Type 0 where
  pub view : Tables
  pub staged : TableRef → Option Rows

pub record World : Type 0 where
  pub schema : List Table
  pub src : TableRef → Captured
  pub dst : Tables
  pub tx : Option Tx
  pub script : List Turn

abbrev pub Exec : Type 0 → Type 0
Exec A = World → Result A × World

module _ {A B : Type 0} where
  abbrev pub continue : Result A → (A → Exec B) → Exec B
  continue (ok a) f w = f a w
  continue (err e) f w = (err e, w)

  infixl 5 ◌>>=◌ ◌>>◌
  unfoldable pub ◌>>=◌ : Exec A → (A → Exec B) → Exec B
  ◌>>=◌ m f w = let (r, w') = m w in continue r f w'

  abbrev pub ◌>>◌ : Exec A → Exec B → Exec B
  m >> n = m >>= λ _. n

module _ {A : Type 0} where
  unfoldable pub lift : Result A → Exec A
  lift r w = (r, w)

  -- The error as a value, for code that inspects it.
  unfoldable pub attempt : Exec A → Exec (Result A)
  attempt m w = let (r, w') = m w in (ok r, w')

abbrev pub run_action : TableRef × Action → World → World
run_action (t, a) w = record w { src = update w.src t (act a (w.src t)) }

abbrev pub run_actions : List (TableRef × Action) → World → World
run_actions [] w = w
run_actions (x ∷ xs) w = run_actions xs (run_action x w)

module _ {A : Type 0} where
  abbrev pub strike : Option Fault → Exec A → Exec A
  strike none op w = op w
  strike (some (before e)) op w = (err e, w)
  strike (some (after e)) op w = (err e, (op w).1)

  abbrev pub take_turn : List Turn → Exec A → Exec A
  take_turn [] op w = op w
  take_turn (t ∷ rest) op w = strike t.fault op (run_actions t.actions (record w { script = rest }))

  unfoldable pub call : Exec A → Exec A
  call op w = take_turn w.script op w

-- Source calls: what the server does, and the call of it.

abbrev pub read_on : TableRef → TargetId → ℕ → Exec (List DirtyKey)
read_on t target max w = (ok (read_dirty_keys (w.src t) target max), w)

unfoldable pub read_dirty : TableRef → TargetId → ℕ → Exec (List DirtyKey)
unfolding call
read_dirty t target max = call (read_on t target max)

abbrev pub schema_on : Exec (List Table)
schema_on w = (ok w.schema, w)

unfoldable pub introspect : Exec (List Table)
unfolding call
introspect = call schema_on

abbrev pub reread_on : TableRef → List KeyValues → Exec Rows
reread_on t keys w = (ok (reread_current (w.src t).rows keys), w)

unfoldable pub reread : TableRef → List KeyValues → Exec Rows
unfolding call
reread t keys = call (reread_on t keys)

abbrev pub confirm_on : TableRef → TargetId → List ℕ → Exec (Unit {0})
confirm_on t target ids w =
    (ok tt, record w { src = update w.src t (confirm_consumed target ids (w.src t)) })

unfoldable pub confirm : TableRef → TargetId → List ℕ → Exec (Unit {0})
unfolding call
confirm t target ids = call (confirm_on t target ids)

-- Sink calls.

-- BEGIN; the snapshot is the committed state, since the daemon is the only writer of the target.
abbrev pub begin_on : Exec (Unit {0})
begin_on w = (ok tt, record w { tx = some (record { view = w.dst; staged = λ _. none }) })

unfoldable pub begin_apply : Exec (Unit {0})
unfolding call
begin_apply = call begin_on

abbrev pub find : KeyValues → Rows → Option Bytes
find k [] = none
find k ((j, r) ∷ rows) = if j == k then some r else find k rows

abbrev pub or_else : Option Bytes → Option Bytes → Option Bytes
or_else none d = d
or_else (some r) d = some r

-- INSERT ... ON CONFLICT DO UPDATE from the staging table.
abbrev pub upsert : Rows → (KeyValues → Option Bytes) → KeyValues → Option Bytes
upsert rows table k = or_else (find k rows) (table k)

abbrev pub is_absent : Option Bytes → Bool
is_absent none = true
is_absent (some _) = false

-- DELETE ... WHERE key IN (keys) AND key NOT IN (SELECT key FROM staging).
abbrev pub delete_others :
    List KeyValues → Rows → (KeyValues → Option Bytes) → KeyValues → Option Bytes
delete_others keys rows table k =
    if contains k keys && is_absent (find k rows) then none else table k

abbrev pub stage_in : TableRef → Rows → Option Tx → Exec (Unit {0})
stage_in t rows none w = (err (other 0), w)
stage_in t rows (some x) w = (
  ok tt,
  record w {
    tx = some (record {
      view = update x.view t (upsert rows (x.view t));
      staged = update x.staged t (some rows);
    });
  },
)

-- `StageUpsert` of what the pipe delivers; a read error reaches the COPY and fails it.
abbrev pub stage_on : TableRef → Result Rows → Exec (Unit {0})
stage_on t (err e) w = (err e, w)
stage_on t (ok rows) w = stage_in t rows w.tx w

unfoldable pub stage_upsert : TableRef → Result Rows → Exec (Unit {0})
unfolding call
stage_upsert t stream = call (stage_on t stream)

abbrev pub delete_staged : TableRef → List KeyValues → Tx → Option Rows → Exec (Unit {0})
delete_staged t keys x none w = (err (other 1), w)
delete_staged t keys x (some rows) w = (
  ok tt,
  record w { tx = some (record x { view = update x.view t (delete_others keys rows (x.view t)) }) },
)

abbrev pub delete_in : TableRef → List KeyValues → Option Tx → Exec (Unit {0})
delete_in t keys none w = (err (other 0), w)
delete_in t keys (some x) w = delete_staged t keys x (x.staged t) w

abbrev pub delete_on : TableRef → List KeyValues → Exec (Unit {0})
delete_on t keys w = delete_in t keys w.tx w

unfoldable pub delete_absent : TableRef → List KeyValues → Exec (Unit {0})
unfolding call
delete_absent t keys = call (delete_on t keys)

abbrev pub commit_in : Option Tx → Exec (Unit {0})
commit_in none w = (err (other 0), w)
commit_in (some x) w = (ok tt, record w { dst = x.view; tx = none })

abbrev pub commit_on : Exec (Unit {0})
commit_on w = commit_in w.tx w

unfoldable pub commit_apply : Exec (Unit {0})
unfolding call
commit_apply = call commit_on

abbrev pub rollback_on : Exec (Unit {0})
rollback_on w = (ok tt, record w { tx = none })

-- ROLLBACK; where the connection is lost the server drops the transaction by itself.
unfoldable pub rollback : Exec (Unit {0})
unfolding call
rollback w = let (r, w') = call rollback_on w in (r, record w' { tx = none })

-- ===== src/Postgres/Capture.antt =====
-- internal/engine/postgres/capture_ddl.go, consume.go: one captured table of the source, its delta
-- table and its track table.
-- The delta table is a log: an entry's place in it is its `delta_id`, which the trigger takes from
-- the sequence when it fires. The entry shows only once its transaction has committed, so ids
-- become visible out of order; `status` says what a reader sees. The program's transactions are
-- numbered, and may interleave on one table in any way.
pub mod Pending
pub mod Writes
pub mod Actions
pub mod Reads
use replicare.Base.{
  ℕ, zero, suc, ◌+◌, ◌≡◌, Bool, true, false, not, ◌&&◌, ◌||◌, Option, none, some, List, [], ◌∷◌,
  ◌++◌, Bytes, bytes_eq, nat_beq, length, take, map, contains, update, ◌==◌, if◌then◌else◌,
}
use replicare.Engine.{KeyValues, TargetId, Op, insert, delete, DirtyKey}
use replicare.Engine
use replicare.Engine.Keys.{key_eq, key_beq, is_valid_key}

pub data Status : Type 0 where
  in_flight : ℕ → Status
  visible rolled_back purged : Status

-- A row of the delta table.
pub record Entry : Type 0 where
  pub op : Op
  pub key : KeyValues
  pub status : Status

-- What a statement of transaction `tx` does to the row at `key`.
pub record Write : Type 0 where
  pub tx : ℕ
  pub key : KeyValues
  pub after : Option Bytes

-- `writes` are those of the transactions that are still open.
pub record Captured : Type 0 where
  pub rows : KeyValues → Option Bytes
  pub writes : List Write
  pub log : List Entry
  pub track : List (TargetId × ℕ)
  pub arity : ℕ

-- A row event, as the trigger sees it.
pub data RowEvent : Type 0 where
  inserted : KeyValues → Bytes → RowEvent
  updated : KeyValues → KeyValues → Bytes → RowEvent
  deleted : KeyValues → RowEvent

-- The trigger function: a key change is a delete of the old key and an upsert of the new one.
unfoldable pub trigger : ℕ → RowEvent → List Entry
trigger tx (inserted k row) = record { op = insert; key = k; status = in_flight tx } ∷ []
trigger tx (updated old new row) =
    if old == new
    then record { op = Op.update; key = new; status = in_flight tx } ∷ []
    else record { op = delete; key = old; status = in_flight tx }
      ∷ record { op = Op.update; key = new; status = in_flight tx }
      ∷ []
trigger tx (deleted k) = record { op = delete; key = k; status = in_flight tx } ∷ []

-- The statement itself, which the server carries out with or without a trigger.
unfoldable pub effects : ℕ → RowEvent → List Write
effects tx (inserted k row) = record { tx = tx; key = k; after = some row } ∷ []
effects tx (updated old new row) =
    record { tx = tx; key = old; after = none }
    ∷ record { tx = tx; key = new; after = some row }
    ∷ []
effects tx (deleted k) = record { tx = tx; key = k; after = none } ∷ []

-- The server refuses a statement whose key the columns cannot hold.
abbrev pub storable : ℕ → RowEvent → Bool
storable n (inserted k row) = is_valid_key n k
storable n (updated old new row) = is_valid_key n old && is_valid_key n new
storable n (deleted k) = is_valid_key n k

abbrev pub is_in_flight : ℕ → Status → Bool
is_in_flight t (in_flight u) = nat_beq u t
is_in_flight t visible = false
is_in_flight t rolled_back = false
is_in_flight t purged = false

-- COMMIT of transaction `t`: its entries show, its rows change in the order of its statements.
unfoldable pub settle_log : ℕ → List Entry → List Entry
settle_log t [] = []
settle_log t (e ∷ es) =
    (if is_in_flight t e.status then record e { status = visible } else e) ∷ settle_log t es

unfoldable pub settle_rows : ℕ → List Write → (KeyValues → Option Bytes) → KeyValues → Option Bytes
settle_rows t [] rows = rows
settle_rows t (w ∷ ws) rows =
    settle_rows t ws (if nat_beq w.tx t then update rows w.key w.after else rows)

-- The writes of the other transactions.
unfoldable pub drop_writes : ℕ → List Write → List Write
drop_writes t [] = []
drop_writes t (w ∷ ws) = let rest = drop_writes t ws in if nat_beq w.tx t then rest else w ∷ rest

unfoldable pub abort_log : ℕ → List Entry → List Entry
abort_log t [] = []
abort_log t (e ∷ es) =
    (if is_in_flight t e.status then record e { status = rolled_back } else e) ∷ abort_log t es

pub data Action : Type 0 where
  statement : ℕ → RowEvent → Action
  commit abort : ℕ → Action

-- What the program that owns the source does to a captured table.
unfoldable pub act : Action → Captured → Captured
unfolding trigger effects settle_log settle_rows drop_writes abort_log
act (statement tx e) c =
    if storable c.arity e
    then record c { writes = c.writes ++ effects tx e; log = c.log ++ trigger tx e }
    else c
act (commit tx) c = record c {
  rows = settle_rows tx c.writes c.rows;
  writes = drop_writes tx c.writes;
  log = settle_log tx c.log;
}
act (abort tx) c = record c { writes = drop_writes tx c.writes; log = abort_log tx c.log }

abbrev pub is_visible : Status → Bool
is_visible (in_flight _) = false
is_visible visible = true
is_visible rolled_back = false
is_visible purged = false

-- (target, delta_id) is in the track table.
unfoldable pub tracked : List (TargetId × ℕ) → TargetId → ℕ → Bool
tracked [] target i = false
tracked ((tg, j) ∷ rest) target i = (tg == target && nat_beq j i) || tracked rest target i

-- delta MINUS track, in the order of delta_id; `i` is the delta_id of the log's head.
unfoldable pub unconsumed : (ℕ → Bool) → ℕ → List Entry → List DirtyKey
unconsumed seen i [] = []
unconsumed seen i (e ∷ es) =
    let rest = unconsumed seen (suc i) es in
    if is_visible e.status && not (seen i)
    then record { delta_id = i; op = e.op; key = e.key } ∷ rest
    else rest

-- LIMIT, which `max` = 0 leaves out.
unfoldable pub limit {ℓ} : {A : Type ℓ} → ℕ → List A → List A
limit zero xs = xs
limit (suc n) xs = take (suc n) xs

unfoldable pub read_dirty_keys : Captured → TargetId → ℕ → List DirtyKey
unfolding unconsumed tracked limit
read_dirty_keys c target max = limit max (unconsumed (tracked c.track target) 0 c.log)

-- INSERT ... ON CONFLICT (target, delta_id) DO NOTHING.
unfoldable pub track_all : TargetId → List ℕ → List (TargetId × ℕ) → List (TargetId × ℕ)
unfolding tracked
track_all target [] track = track
track_all target (i ∷ ids) track =
    track_all target ids (if tracked track target i then track else (target, i) ∷ track)

unfoldable pub confirm_consumed : TargetId → List ℕ → Captured → Captured
unfolding track_all
confirm_consumed target ids c = record c { track = track_all target ids c.track }

-- The current rows of the given keys that exist (`RereadCurrent`).
unfoldable pub reread_current :
    (KeyValues → Option Bytes) → List KeyValues → List (KeyValues × Bytes)
reread_current rows [] = []
reread_current rows (k ∷ ks) = elim (rows k) [
  | none ↦ reread_current rows ks
  | some r ↦ (k, r) ∷ reread_current rows ks
]

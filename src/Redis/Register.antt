-- ===== src/Redis/Register.antt =====
-- internal/engine/redis/mesh_sink.go: the version-guarded apply. `meshApplyScript` runs on the
-- server as one step, whose own errors are left out: the incoming
-- record replaces the value and its register if its version wins.
use replicare.Base.{
  ℕ, ◌≡◌, Bool, true, Option, none, some, List, [], ◌∷◌, Bytes, bytes_eq, update, if◌then◌else◌,
  All,
}
use replicare.Engine.{other, Result, ok, err}
use replicare.Redis.Clock.{Version}
use replicare.Redis.Script.{script_beats}
use replicare.Redis.Framing.{Record, flag_mesh, flag_deleted, flag_abs_ttl, has_flag}

-- What RESTORE was given.
pub record Value : Type 0 where
  pub dump : Bytes
  pub ttl : ℕ
  pub abs_ttl : Bool

pub record Cell : Type 0 where
  pub meta : Option Version
  pub value : Option Value

abbrev pub wins : (Bytes → Bytes → Bool) → Version → Option Version → Bool
wins string_gt v none = true
wins string_gt v (some o) = script_beats string_gt v o

-- The key and its register after `r` won.
abbrev pub written : Record → Cell
written r =
    let d = has_flag r.flags flag_deleted in
    record {
      meta = some (record {
        phys = r.ver.phys;
        log = r.ver.log;
        node = r.ver.node;
        deleted = d;
        vhash = if d then 0 else r.ver.vhash;
      });
      value =
          if d
          then none
          else some
              (record { dump = r.dump; ttl = r.ttl; abs_ttl = has_flag r.flags flag_abs_ttl });
    }

unfoldable pub mesh_apply : (Bytes → Bytes → Bool) → Record → Cell → Cell
unfolding script_beats
mesh_apply string_gt r c = if wins string_gt r.ver c.meta then written r else c

abbrev pub Store : Type 0
Store = Bytes → Cell

-- `stageUpsertCluster` on the records of a stream; a plain record stops it.
unfoldable pub stage_upsert_cluster :
    (Bytes → Bytes → Bool) → List Record → Store → Result (Unit {0}) × Store
unfolding mesh_apply
stage_upsert_cluster string_gt [] st = (ok tt, st)
stage_upsert_cluster string_gt (r ∷ rs) st =
    let rest =
      stage_upsert_cluster string_gt rs (update st r.key (mesh_apply string_gt r (st r.key))) in
    if has_flag r.flags flag_mesh then rest else (err (other 4), st)

-- The same records in another order, as the edges of a mesh may deliver them.
pub data Reordered : List Record → List Record → Type 0 where
  same : {xs : List Record} → Reordered xs xs
  swap : {a b : Record} {xs : List Record} → Reordered (a ∷ b ∷ xs) (b ∷ a ∷ xs)
  keep : {a : Record} {xs ys : List Record} → Reordered xs ys → Reordered (a ∷ xs) (a ∷ ys)
  after : {xs ys zs : List Record} → Reordered xs ys → Reordered ys zs → Reordered xs zs

abbrev pub AllMesh : List Record → Type 0
AllMesh rs = All (λ r. has_flag r.flags flag_mesh ≡ true) rs

-- ===== src/Apply/Component/Idle.antt =====
-- After a drain of an acyclic component an open transaction has done nothing.
use replicare.Base.{ℕ, ◌+◌, ◌≡◌, refl, Option, none, some, List, [], ◌∷◌, length}
use replicare.Engine.{
  TableRef, TargetId, DirtyKey, Error, transient_constraint, other, is_transient_constraint, Result,
  ok, err,
}
use replicare.Postgres.World.{
  World, Tx, Exec, ◌>>=◌, ◌>>◌, lift, attempt, call, begin_on, begin_apply, commit_in, commit_on,
  commit_apply, rollback, read_on, read_dirty, schema_on, introspect, confirm_on, confirm,
}
use replicare.Postgres.World.Spec.{Spec, IsStable, OnOk, OnOk-any, call-Spec, lift-Spec, bind-Spec}
use replicare.Postgres.World.Calls.{Any, Any-stable}
use replicare.Apply.Pass.{
  unless_committed, in_transaction, columns_of, transport_columns, TableWork, Gathered,
  gather_table, gather_work, Drained, halt, or_skip, per_table_upsert, per_table_delete,
  upsert_phase, confirm_table, delete_phase, drain_acyclic_seq, drain_gathered, drain_acyclic,
}
use replicare.Apply.Safety.Drain.{or_halt-keeps}
use replicare.Apply.NullFill.Safety.{IsIdle}

pub IsIdle-stable : IsStable IsIdle
IsIdle-stable = record { on_action = λ x w h. h; on_turn = λ s w h. h }

-- A call that leaves the transaction alone.
idle_call :
    {A : Type 0} (op : Exec A)
    → ((w : World) → IsIdle w → IsIdle (op w).1)
    → Spec IsIdle Any (call op) (λ _. Any)
idle_call op step = call-Spec op IsIdle-stable Any-stable λ w h p. (step w h, OnOk-any _ _)

begun : (w : World) → IsIdle (begin_on w).1
begun w x e t = let q : x ≡ record { view = w.dst; staged = λ _. none } = cc in rw q (refl, refl)

begin_idle : Spec IsIdle Any begin_apply (λ _. Any)
unfolding begin_apply
begin_idle = idle_call begin_on (λ w h. begun w)

closed : (w : World) → w.tx ≡ none → IsIdle w
closed w e x q = absurd (cc)

commit_closes :
    (o : Option Tx) (w : World)
    → Unit {0} × OnOk (λ _ w'. w'.tx ≡ none) (commit_in o w).0 (commit_in o w).1
commit_closes none w = (tt, tt)
commit_closes (some x) w = (tt, refl)

commit_idle : Spec Any Any commit_apply (λ _ w. w.tx ≡ none)
unfolding commit_apply
commit_idle = call-Spec commit_on Any-stable Any-stable λ w h p. commit_closes w.tx w

anyhow : {A : Type 0} (m : Exec A) → Spec Any Any m (λ _. Any)
anyhow m = record { at = λ w h p. (tt, OnOk-any (m w).0 (m w).1) }

ended :
    (r : Result (Unit {0})) (w : World)
    → OnOk (λ _ w. w.tx ≡ none) r w
    → IsIdle (unless_committed r w).1
unfolding unless_committed ◌>>=◌ attempt lift rollback
ended (ok a) w q = closed w q
ended (err e) w q = λ x e. absurd (cc)

after_begin :
    (body : Exec (Unit {0})) (r : Result (Unit {0})) (w : World)
    → IsIdle w
    → IsIdle ((lift r >>= λ _. attempt (body >> commit_apply) >>= unless_committed) w).1
unfolding ◌>>=◌ attempt lift
after_begin body (err e) w h = h
after_begin body (ok a) w h =
    let s = bind-Spec body _ (anyhow body) (λ _. commit_idle) in ended _ _ (s.at w tt tt).1

pub in_transaction_idle :
    (body : Exec (Unit {0})) (w : World) → IsIdle w → IsIdle (in_transaction body w).1
unfolding in_transaction ◌>>=◌ attempt lift
in_transaction_idle body w h = after_begin body _ _ (begin_idle.at w h tt).0

or_skip_idle :
    (r : Result (Unit {0})) (next : Drained) (skip : Error → Drained) (total : ℕ) (w : World)
    → IsIdle w
    → IsIdle (next w).1
    → ((e : Error) → IsIdle (skip e w).1)
    → IsIdle (or_skip r next skip total w).1
unfolding or_skip is_transient_constraint
or_skip_idle (ok a) next skip total w h kn ks = kn
or_skip_idle (err transient_constraint) next skip total w h kn ks = ks transient_constraint
or_skip_idle (err (other i)) next skip total w h kn ks = h

confirm_idle :
    (u : TableRef) (target : TargetId) (ids : List ℕ)
    → Spec IsIdle Any (confirm u target ids) (λ _. Any)
unfolding confirm
confirm_idle u target ids = idle_call (confirm_on u target ids) (λ w h. h)

delete_phase_idle :
    (target : TargetId) (ts : List TableWork) (total : ℕ) (transient : Option Error) (w : World)
    → IsIdle w
    → IsIdle (delete_phase target ts total transient w).1
unfolding delete_phase confirm_table per_table_delete halt
delete_phase_idle target [] total transient w h = h
delete_phase_idle target (t ∷ ts) total transient w h =
    let k = in_transaction_idle _ w h in
    or_skip_idle (per_table_delete t w).0
      (confirm_table target t (delete_phase target ts (total + length t.ids) transient) total)
      (λ e. delete_phase target ts total (some e)) total _ k
      (let c = ((confirm_idle t.ref target t.ids).at _ k tt).0 in
        or_halt-keeps IsIdle _ (delete_phase target ts (total + length t.ids) transient) total _ c
          (delete_phase_idle target ts (total + length t.ids) transient _ c))
      (λ e. delete_phase_idle target ts total (some e) _ k)

upsert_phase_idle :
    (target : TargetId) (ts landed : List TableWork) (transient : Option Error) (w : World)
    → IsIdle w
    → IsIdle (upsert_phase ts landed transient (λ l e. delete_phase target l 0 e) w).1
unfolding upsert_phase per_table_upsert
upsert_phase_idle target [] landed transient w h = delete_phase_idle target landed 0 transient w h
upsert_phase_idle target (t ∷ ts) landed transient w h =
    let k = in_transaction_idle _ w h in
    or_skip_idle (per_table_upsert t w).0
      (upsert_phase ts (t ∷ landed) transient (λ l e. delete_phase target l 0 e))
      (λ e. upsert_phase ts landed (some e) (λ l e. delete_phase target l 0 e)) 0 _ k
      (upsert_phase_idle target ts (t ∷ landed) transient _ k)
      (λ e. upsert_phase_idle target ts landed (some e) _ k)

lift_idle : {A : Type 0} (r : Result A) → Spec IsIdle Any (lift r) (λ _. Any)
lift_idle r = lift-Spec r λ w p. OnOk-any r w

gather_table_idle :
    (u : TableRef) (dirty : List DirtyKey) (rest : Exec Gathered)
    → Spec IsIdle Any rest (λ _. Any)
    → Spec IsIdle Any (gather_table u dirty rest) (λ _. Any)
unfolding gather_table transport_columns introspect
gather_table_idle u [] rest s = s
gather_table_idle u (d ∷ ds) rest s =
    bind-Spec (transport_columns u) _
      (bind-Spec introspect _ (idle_call schema_on (λ w h. h))
        λ tables. lift_idle (columns_of u tables))
      λ cols. bind-Spec rest _ s λ more. lift_idle _

pub gather_idle :
    (tables : List TableRef) (target : TargetId) (batch : ℕ)
    → Spec IsIdle Any (gather_work tables target batch) (λ _. Any)
unfolding gather_work read_dirty
gather_idle [] target batch = lift_idle (ok ([], 0))
gather_idle (u ∷ us) target batch =
    bind-Spec (read_dirty u target batch) _ (idle_call (read_on u target batch) (λ w h. h))
      λ dirty. gather_table_idle u dirty _ (gather_idle us target batch)

gathered_idle :
    (r : Result Gathered) (target : TargetId) (w : World)
    → IsIdle w
    → IsIdle (drain_gathered r target w).1
unfolding halt drain_acyclic_seq
gathered_idle (err e) target w h = h
gathered_idle (ok ([], total)) target w h = h
gathered_idle (ok (t ∷ ts, total)) target w h = upsert_phase_idle target (t ∷ ts) [] none w h

pub drain_acyclic-IsIdle :
    (tables : List TableRef) (target : TargetId) (batch : ℕ) (w : World)
    → IsIdle w
    → IsIdle (drain_acyclic tables target batch w).1
unfolding drain_acyclic
drain_acyclic-IsIdle tables target batch w h =
    gathered_idle _ target _ ((gather_idle tables target batch).at w h tt).0

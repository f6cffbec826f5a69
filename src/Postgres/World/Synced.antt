-- ===== src/Postgres/World/Synced.antt =====
-- The invariant of replication to one target: every row of the target, and of the transaction
-- that is open there, equals the source's row or has a change that the target has not consumed.
use replicare.Base.{
  true, ℕ, ◌≡◌, sym, subst, refl, inl, inr, Bool, Option, some, List, Bytes, contains, nat_eq,
  update, ==_cases, Bool-cases,
}
use replicare.Engine.{TableRef, table_ref_eq, KeyValues, TargetId}
use replicare.Engine.Keys.{key_eq}
use replicare.Postgres.Capture.{Captured, Action, statement, commit, abort, act, tracked, storable}
use replicare.Postgres.Capture.Pending.{is_set, IsClosed, Owns, Covered}
use replicare.Postgres.Capture.Actions.{
  HasValidKeys, act-IsClosed, act-Owns, act-Covered, act-HasValidKeys,
}
use replicare.Postgres.Capture.Writes.{IsCaptured, act-IsCaptured}
use replicare.Postgres.World.{Tx, World}
use replicare.Postgres.World.Spec.{IsStable}

pub record IsSound (target : TargetId) (c : Captured) : Type 0 where
  pub closed : IsClosed (tracked c.track target) c.log
  pub valid : HasValidKeys c.arity c.log
  pub unique : is_set c.track ≡ true
  pub captured : IsCaptured c

abbrev pub Agrees : TargetId → (KeyValues → Option Bytes) → Captured → Type 0
Agrees target copy c = (k : KeyValues) → Covered (tracked c.track target) (copy k) k c

pub record IsSynced (target : TargetId) (w : World) : Type 0 where
  pub sound : (t : TableRef) → IsSound target (w.src t)
  pub copied : (t : TableRef) → Agrees target (w.dst t) (w.src t)
  pub viewed : (x : Tx) → w.tx ≡ some x → (t : TableRef) → Agrees target (x.view t) (w.src t)

-- Deltas that a drain pass has read and not confirmed, with the keys that it coalesced them to.
pub record Claim : Type 0 where
  pub table : TableRef
  pub ids : List ℕ
  pub keys : List KeyValues

abbrev pub claimed : Claim → ℕ → Bool
claimed c i = contains i c.ids

pub record IsHeld (c : Claim) (src : TableRef → Captured) : Type 0 where
  pub closed : IsClosed (claimed c) (src c.table).log
  pub owns : Owns (claimed c) c.keys (src c.table).log

pub act-track : (a : Action) (c : Captured) → (act a c).track ≡ c.track
unfolding act
act-track (statement t e) c = elim (Bool-cases (storable c.arity e)) [ inl p ↦ rw p | inr p ↦ rw p ]
act-track (commit t) c = refl
act-track (abort t) c = refl

pub act-IsSound :
    (target : TargetId) (a : Action) (c : Captured) → IsSound target c → IsSound target (act a c)
act-IsSound target a c h = record {
  closed = rw act-track (act-IsClosed (tracked c.track target) a c h.closed);
  valid = act-HasValidKeys a c h.valid;
  unique = rw act-track h.unique;
  captured = act-IsCaptured a c h.captured;
}

pub act-Agrees :
    (target : TargetId) (copy : KeyValues → Option Bytes) (a : Action) (c : Captured)
    → IsSound target c
    → Agrees target copy c
    → Agrees target copy (act a c)
act-Agrees target copy a c h g k =
    rw act-track (act-Covered (tracked c.track target) (copy k) k a c h.closed h.captured (g k))

-- A property of every table, after one of them changed.
pub at_update {ℓ} :
    {V : Type ℓ} (P : TableRef → V → Type 0) (f : TableRef → V) (t : TableRef) (c : V)
    → P t c
    → ((u : TableRef) → P u (f u))
    → (u : TableRef) → P u (update f t c u)
at_update P f t c new old u = elim (==_cases u t) [
  | inl (h, e) ↦ rw h (subst (λ v. P v c) (sym e) new)
  | inr (h, _) ↦ rw h (old u)
]

pub IsSynced-stable : (target : TargetId) → IsStable (IsSynced target)
IsSynced-stable target = record {
  on_action = λ (t, a) w h. record {
    sound =
        at_update (λ u c. IsSound target c) w.src t (act a (w.src t))
          (act-IsSound target a (w.src t) (h.sound t)) h.sound;
    copied =
        at_update (λ u c. Agrees target (w.dst u) c) w.src t (act a (w.src t))
          (act-Agrees target (w.dst t) a (w.src t) (h.sound t) (h.copied t)) h.copied;
    viewed = λ x e.
        at_update (λ u c. Agrees target (x.view u) c) w.src t (act a (w.src t))
          (act-Agrees target (x.view t) a (w.src t) (h.sound t) (h.viewed x e t)) (h.viewed x e);
  };
  on_turn = λ s w h. record { sound = h.sound; copied = h.copied; viewed = h.viewed };
}

pub IsHeld-at :
    (c : Claim) (src : TableRef → Captured) (t : TableRef) (v : Captured)
    → IsHeld c src
    → (c.table ≡ t → IsClosed (claimed c) v.log × Owns (claimed c) c.keys v.log)
    → IsHeld c (update src t v)
IsHeld-at c src t v h new = elim (==_cases c.table t) [
  | inl (p, e) ↦ record { closed = rw p (new e).0; owns = rw p (new e).1 }
  | inr (p, _) ↦ record { closed = rw p h.closed; owns = rw p h.owns }
]

pub IsHeld-move :
    (c : Claim) (src : TableRef → Captured) (t : TableRef)
    → IsHeld c src
    → c.table ≡ t
    → IsClosed (claimed c) (src t).log × Owns (claimed c) c.keys (src t).log
IsHeld-move c src t h e =
    subst (λ u. IsClosed (claimed c) (src u).log × Owns (claimed c) c.keys (src u).log) e
      (h.closed, h.owns)

pub IsHeld-stable : (c : Claim) → IsStable (λ w. IsHeld c w.src)
IsHeld-stable c = record {
  on_action = λ (t, a) w h. IsHeld-at c w.src t (act a (w.src t)) h (λ e.
      let g = IsHeld-move c w.src t h e in
      (act-IsClosed (claimed c) a (w.src t) g.0, act-Owns (claimed c) c.keys a (w.src t) g.0 g.1));
  on_turn = λ s w h. h;
}

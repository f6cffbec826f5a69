-- ===== src/Apply/NullFill/Own.antt =====
-- A table of the component in its own transaction: what the calls make of its claimed rows.
use replicare.Base.{
  ◌≡◌, refl, subst, inl, inr, false, Option, none, some, Bytes, contains, ==_cases, Bool-cases,
}
use replicare.Engine.{TableRef, table_ref_eq, KeyValues, TargetId, Result, ok, err}
use replicare.Engine.Keys.{key_eq}
use replicare.Postgres.Capture.{Captured, Action, act}
use replicare.Postgres.World.{
  World, Tx, Exec, ◌>>=◌, lift, attempt, begin_on, begin_apply, commit_in, commit_on, commit_apply,
  rollback_on, rollback,
}
use replicare.Postgres.World.Spec.{Spec, IsStable, OnOk, call-Spec, bind-Spec}
use replicare.Postgres.World.Synced.{Agrees, Claim, act-Agrees}
use replicare.Postgres.World.Calls.{Any, Any-stable}
use replicare.Apply.Pass.{unless_committed, in_transaction}
use replicare.Apply.NullFill.{CyclicColumns}
use replicare.Apply.NullFill.Claims.{IsClaimed, act-IsClaimed}
use replicare.Apply.NullFill.Standing.{Standing, Standing-stable, began}

abbrev pub Copy : Type 0
Copy = KeyValues → Option Bytes

abbrev pub Fact : Type 1
Fact = Captured → Copy → Option Tx → Type 0

abbrev pub IsSteady : Fact → Type 0
IsSteady P = (a : Action) (v : Captured) (d : Copy) (o : Option Tx) → P v d o → P (act a v) d o

abbrev pub On : TableRef → Fact → World → Type 0
On t P w = P (w.src t) (w.dst t) w.tx

pub On-stable : (t : TableRef) (P : Fact) → IsSteady P → IsStable (On t P)
On-stable t P steady = record {
  on_action = λ (u, a) w h. elim (==_cases t u) [
    | inl (b, e) ↦ rw (b, ← e) (steady a (w.src t) (w.dst t) w.tx h)
    | inr (b, _) ↦ rw b h
  ];
  on_turn = λ s w h. h;
}

pub at_some : (P : Tx → Type 0) (x : Tx) → P x → (z : Tx) → some x ≡ some z → P z
at_some P x p z q = let e : x ≡ z = cc in subst P e p

module _ (n : CyclicColumns) (target : TargetId) (c : Claim) where
  abbrev pub Base : Captured → Copy → Type 0
  Base v d = IsClaimed target c v × Agrees target d v

  pub Base-steady : (a : Action) (v : Captured) (d : Copy) → Base v d → Base (act a v) d
  Base-steady a v d h = (act-IsClaimed target c a v h.0, act-Agrees target d a v h.0.sound h.1)

  -- The transaction differs from the target in claimed rows only.
  abbrev pub IsOwn : Fact
  IsOwn v d o =
      Base v d
      × ((x : Tx)
          → o ≡ some x
          → (k : KeyValues) → contains k c.keys ≡ false
          → x.view c.table k ≡ d k)

  abbrev pub G : World → Type 0
  G = On c.table IsOwn

  pub G-stable : IsStable G
  G-stable = On-stable c.table IsOwn (λ a v d o h. (Base-steady a v d h.0, h.1))

  -- What the rows of a transaction satisfy.
  abbrev pub Seen : (Captured → Copy → Type 0) → Fact
  Seen P v d o = (x : Tx) → o ≡ some x → P v (x.view c.table)

  -- Any rows will do for the claimed keys.
  own-Agrees :
      (v : Captured) (d view : Copy)
      → Base v d
      → ((k : KeyValues) → contains k c.keys ≡ false → view k ≡ d k)
      → Agrees target view v
  own-Agrees v d view b off k = elim (Bool-cases (contains k c.keys)) [
    | inl m ↦ inr (b.0.open_keys k m)
    | inr m ↦ rw (off k m) (b.1 k)
  ]

  -- One call on the open transaction that changes claimed rows only.
  pub moved :
      (w : World) (x y : Tx)
      → w.tx ≡ some x
      → G w
      → ((k : KeyValues) → contains k c.keys ≡ false → y.view c.table k ≡ x.view c.table k)
      → G (record w { tx = some y })
  moved w x y e h same = (
    h.0,
    at_some (λ z. (k : KeyValues) → contains k c.keys ≡ false → z.view c.table k ≡ w.dst c.table k)
        y (λ k m. rw (same k m) (h.1 x e k m)),
  )

  module _ (P : Captured → Copy → Type 0)
      (steady : (a : Action) (v : Captured) (d : Copy) → P v d → P (act a v) d) where
    commit_own :
        (o : Option Tx) (w : World)
        → w.tx ≡ o
        → G w
        → On c.table (Seen P) w
        → G (commit_in o w).1
          × OnOk
              (λ _ w'. (w'.tx ≡ none) × P (w'.src c.table) (w'.dst c.table))
              (commit_in o w).0
              (commit_in o w).1
    commit_own none w e h p = (h, tt)
    commit_own (some x) w e h p = (
      (
        (h.0.0, own-Agrees (w.src c.table) (w.dst c.table) (x.view c.table) h.0 (h.1 x e)),
        λ y q. absurd (cc),
      ),
      (refl, p x e),
    )

    commit-own :
        Spec G
          (On c.table (Seen P))
          commit_apply
          (λ _ w'. (w'.tx ≡ none) × P (w'.src c.table) (w'.dst c.table))
    unfolding commit_apply
    commit-own =
        call-Spec commit_on G-stable
          (On-stable c.table (Seen P) (λ a v d o h x e. steady a v (x.view c.table) (h x e)))
          λ w h p. commit_own w.tx w refl h p

    closes : (w : World) → G w → w.tx ≡ none → Standing Base c.table w
    closes w h e = record { holds = h.0; aligned = λ x q. absurd (cc) }

    ends :
        (r : Result (Unit {0})) (w : World)
        → G w
        → OnOk (λ _ w'. (w'.tx ≡ none) × P (w'.src c.table) (w'.dst c.table)) r w
        → Standing Base c.table (unless_committed r w).1
          × OnOk
              (λ _ w'. P (w'.src c.table) (w'.dst c.table))
              (unless_committed r w).0
              (unless_committed r w).1
    unfolding unless_committed ◌>>=◌ attempt lift rollback
    ends (ok a) w h q = (closes w h q.0, q.1)
    ends (err e) w h q =
        let s =
          call-Spec {P = Any} {Q = λ _. Any} rollback_on G-stable Any-stable
            (λ w h p. ((h.0, λ x q. absurd (cc)), tt)) in
        let k = (s.at w h tt).0 in (closes _ (k.0, λ x q. absurd (cc)) refl, tt)

    module _ (E : Fact) (esteady : IsSteady E) (body : Exec (Unit {0}))
        (run : Spec G (On c.table E) body (λ _. On c.table (Seen P))) where
      runs :
          (r : Result (Unit {0})) (w : World)
          → Standing Base c.table w
          → OnOk (λ _. On c.table E) r w
          → Standing Base c.table
              ((lift r >>= λ _. attempt (body >>= λ _. commit_apply) >>= unless_committed) w).1
            × OnOk
                (λ _ w'. P (w'.src c.table) (w'.dst c.table))
                ((lift r >>= λ _. attempt (body >>= λ _. commit_apply) >>= unless_committed) w).0
                ((lift r >>= λ _. attempt (body >>= λ _. commit_apply) >>= unless_committed) w).1
      unfolding ◌>>=◌ attempt lift
      runs (err e) w h q = (h, tt)
      runs (ok a) w h q =
          let own : G w = (h.holds, λ x e k m. rw (h.aligned x e).0 refl) in
          let s = bind-Spec body _ run (λ _. commit-own) in
          let (g, p) = s.at w own q in ends _ _ g p

      -- The transaction leaves the table as it was or with `P`, which its body gives the open
      -- transaction.
      pub transact :
          (Pre : Captured → Copy → Type 0)
          → ((a : Action) (v : Captured) (d : Copy) → Pre v d → Pre (act a v) d)
          → ((w : World) → Pre (w.src c.table) (w.dst c.table) → On c.table E (begin_on w).1)
          → (w : World) → Standing Base c.table w
          → Pre (w.src c.table) (w.dst c.table)
          → Standing Base c.table (in_transaction body w).1
            × OnOk
                (λ _ w'. P (w'.src c.table) (w'.dst c.table))
                (in_transaction body w).0
                (in_transaction body w).1
      unfolding in_transaction begin_apply ◌>>=◌ attempt lift
      transact Pre presteady enter w h p =
          let s =
            call-Spec {Q = λ _. On c.table E} begin_on (Standing-stable Base c.table Base-steady)
              (On-stable c.table (λ v d o. Pre v d) (λ a v d o q. presteady a v d q))
              (λ w h p. (began Base c.table Base-steady w h, enter w p)) in
          let (k, q) = s.at w h p in runs (begin_apply w).0 (begin_apply w).1 k q

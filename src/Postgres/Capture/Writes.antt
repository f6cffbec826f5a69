-- ===== src/Postgres/Capture/Writes.antt =====
-- The trigger misses nothing: every write of an open transaction has an entry in the delta table.
use replicare.Base.{
  ℕ, suc, ◌≡◌, ◌⊎◌, refl, inl, inr, Bool, true, false, ◌&&◌, ◌||◌, Option, List, [], ◌∷◌, ◌++◌,
  arith, Bytes, All, All-map, update, ◌==◌, nat_beq, nat_eq, Bool-cases,
}
use replicare.Engine.{KeyValues}
use replicare.Engine.Keys.{key_eq}
use replicare.Postgres.Capture.{
  Status, in_flight, visible, rolled_back, purged, Entry, Write, Captured, is_in_flight, Action,
  statement, commit, abort, act, RowEvent, inserted, updated, deleted, trigger, effects, storable,
  settle_log, settle_rows, drop_writes, abort_log,
}
use replicare.Postgres.Capture.Pending.{pending, IsClosed}

-- Transaction `t` has an entry for `k`.
abbrev pub noted : ℕ → KeyValues → List Entry → Bool
noted t k [] = false
noted t k (e ∷ es) = (is_in_flight t e.status && e.key == k) || noted t k es

abbrev pub AreNoted : List Entry → List Write → Type 0
AreNoted log ws = All (λ w. noted w.tx w.key log ≡ true) ws

abbrev pub IsCaptured : Captured → Type 0
IsCaptured c = AreNoted c.log c.writes

noted-append :
    (t : ℕ) (k : KeyValues) (xs ys : List Entry)
    → noted t k (xs ++ ys) ≡ (noted t k xs || noted t k ys)
noted-append t k [] ys = refl
noted-append t k (x ∷ xs) ys = ground (arith, noted-append t k xs ys)

All-append : (P : Write → Type 0) (xs ys : List Write) → All P xs → All P ys → All P (xs ++ ys)
All-append P [] ys h k = k
All-append P (x ∷ xs) ys h k = (h.0, All-append P xs ys h.1 k)

-- Each row that a statement changes gets an entry, both rows of a key change.
trigger-AreNoted : (t : ℕ) (e : RowEvent) → AreNoted (trigger t e) (effects t e)
unfolding trigger effects
trigger-AreNoted t (inserted k row) = (ground (arith, nat_eq.beq_iff t t, key_eq.beq_iff k k), tt)
trigger-AreNoted t (updated old new row) = (
  ground (
    arith,
    nat_eq.beq_iff t t,
    key_eq.beq_iff old old,
    key_eq.beq_iff old new,
    key_eq.beq_iff new old,
  ),
  (ground (arith, nat_eq.beq_iff t t, key_eq.beq_iff new new), tt),
)
trigger-AreNoted t (deleted k) = (ground (arith, nat_eq.beq_iff t t, key_eq.beq_iff k k), tt)

other_tx :
    (t u : ℕ) (s : Status)
    → nat_beq u t ≡ false
    → is_in_flight u s ≡ true
    → is_in_flight t s ≡ false
other_tx t u (in_flight v) n h =
    ground (arith, nat_eq.beq_iff v u, nat_eq.beq_iff v t, nat_eq.beq_iff u t)
other_tx t u visible n h = refl
other_tx t u rolled_back n h = refl
other_tx t u purged n h = refl

noted-settle_log :
    (t u : ℕ) (k : KeyValues) (log : List Entry)
    → nat_beq u t ≡ false
    → noted u k log ≡ true
    → noted u k (settle_log t log) ≡ true
unfolding settle_log
noted-settle_log t u k [] n h = h
noted-settle_log t u k (e ∷ es) n h =
    ground (arith, n, other_tx t u e.status n, noted-settle_log t u k es n)

noted-abort_log :
    (t u : ℕ) (k : KeyValues) (log : List Entry)
    → nat_beq u t ≡ false
    → noted u k log ≡ true
    → noted u k (abort_log t log) ≡ true
unfolding abort_log
noted-abort_log t u k [] n h = h
noted-abort_log t u k (e ∷ es) n h =
    ground (arith, n, other_tx t u e.status n, noted-abort_log t u k es n)

-- What is left of the writes is noted in what is left of the log.
left_noted :
    (t : ℕ) (log log' : List Entry) (ws : List Write)
    → ((u : ℕ) (k : KeyValues) → nat_beq u t ≡ false → noted u k log ≡ true → noted u k log' ≡ true)
    → AreNoted log ws
    → AreNoted log' (drop_writes t ws)
unfolding drop_writes
left_noted t log log' [] f h = tt
left_noted t log log' (w ∷ ws) f h = elim (Bool-cases (nat_beq w.tx t)) [
  | inl p ↦ rw p (left_noted t log log' ws f h.1)
  | inr p ↦ rw p (f w.tx w.key p h.0, left_noted t log log' ws f h.1)
]

-- The program's transactions keep it so.
pub act-IsCaptured : (a : Action) (c : Captured) → IsCaptured c → IsCaptured (act a c)
unfolding act
act-IsCaptured (statement t e) c h = elim (Bool-cases (storable c.arity e)) [
  | inl p ↦ rw p (
      All-append (λ w. noted w.tx w.key (c.log ++ trigger t e) ≡ true) c.writes (effects t e)
        (All-map (λ w q. ground (arith, noted-append w.tx w.key c.log (trigger t e), q)) c.writes h)
        (All-map (λ w q. ground (arith, noted-append w.tx w.key c.log (trigger t e), q))
          (effects t e) (trigger-AreNoted t e)))
  | inr p ↦ rw p h
]
act-IsCaptured (commit t) c h =
    left_noted t c.log (settle_log t c.log) c.writes (λ u k. noted-settle_log t u k c.log) h
act-IsCaptured (abort t) c h =
    left_noted t c.log (abort_log t c.log) c.writes (λ u k. noted-abort_log t u k c.log) h

-- A commit changes a row only if the transaction has noted it.
pub settle_rows-cases :
    (t : ℕ) (k : KeyValues) (log : List Entry) (ws : List Write) (rows : KeyValues → Option Bytes)
    → AreNoted log ws
    → (settle_rows t ws rows k ≡ rows k) ⊎ (noted t k log ≡ true)
unfolding settle_rows
settle_rows-cases t k log [] rows h = inl refl
settle_rows-cases t k log (w ∷ ws) rows h = elim (Bool-cases (nat_beq w.tx t)) [
  | inr p ↦ rw p (settle_rows-cases t k log ws rows h.1)
  | inl p ↦ elim (Bool-cases (k == w.key)) [
    | inl q ↦
        let e : w.tx ≡ t = (nat_eq.beq_iff w.tx t).0 p in
        let f : k ≡ w.key = (key_eq.beq_iff k w.key).0 q in inr (rw (f, ← e) h.0)
    | inr q ↦ elim (settle_rows-cases t k log ws (update rows w.key w.after) h.1) [
      | inl e ↦ rw p (inl (rw q at e))
      | inr n ↦ inr n
    ]
  ]
]

-- What a transaction has noted is pending once it commits.
pub settle-pending :
    (S : ℕ → Bool) (k : KeyValues) (t : ℕ) (log : List Entry)
    → IsClosed S log
    → noted t k log ≡ true
    → pending S k (settle_log t log) ≡ true
unfolding settle_log
settle-pending S k t [] h n = n
settle-pending S k t (e ∷ es) h n =
    ground (arith, h 0, settle-pending (λ i. S (suc i)) k t es (λ i. h (suc i)))

pub pending-settle_log :
    (S : ℕ → Bool) (k : KeyValues) (t : ℕ) (log : List Entry)
    → pending S k log ≡ true
    → pending S k (settle_log t log) ≡ true
unfolding settle_log
pending-settle_log S k t [] h = h
pending-settle_log S k t (e ∷ es) h = ground (arith, pending-settle_log (λ i. S (suc i)) k t es)

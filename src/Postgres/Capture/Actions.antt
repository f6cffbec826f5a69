-- ===== src/Postgres/Capture/Actions.antt =====
-- What the program's transactions leave true: coverage, closed sets of ids, owners, valid keys.
use replicare.Base.{
  ℕ, zero, suc, ◌≡◌, inl, inr, Bool, true, false, Option, List, [], ◌∷◌, ◌++◌, arith, Bytes, sym,
  ◌∙◌, Bool-cases,
}
use replicare.Engine.{KeyValues}
use replicare.Engine.Keys.{key_eq, is_valid_key}
use replicare.Postgres.Capture.{
  Entry, Captured, Action, statement, commit, abort, act, RowEvent, inserted, updated, deleted,
  trigger, storable, settle_log, abort_log,
}
use replicare.Postgres.Capture.Pending.{
  pending, settled_at, IsClosed, Owns, Covered, pending-append,
}
use replicare.Postgres.Capture.Writes.{
  IsCaptured, settle_rows-cases, settle-pending, pending-settle_log,
}

settled_at-append :
    (xs ys : List Entry) (i : ℕ) → settled_at xs i ≡ true → settled_at (xs ++ ys) i ≡ true
settled_at-append [] ys i h = ground arith
settled_at-append (x ∷ xs) ys zero h = h
settled_at-append (x ∷ xs) ys (suc i) h = settled_at-append xs ys i h

settled_at-settle_log :
    (t : ℕ) (log : List Entry) (i : ℕ)
    → settled_at log i ≡ true
    → settled_at (settle_log t log) i ≡ true
unfolding settle_log
settled_at-settle_log t [] i h = h
settled_at-settle_log t (e ∷ es) zero h = ground arith
settled_at-settle_log t (e ∷ es) (suc i) h = settled_at-settle_log t es i h

settled_at-abort_log :
    (t : ℕ) (log : List Entry) (i : ℕ)
    → settled_at log i ≡ true
    → settled_at (abort_log t log) i ≡ true
unfolding abort_log
settled_at-abort_log t [] i h = h
settled_at-abort_log t (e ∷ es) zero h = ground arith
settled_at-abort_log t (e ∷ es) (suc i) h = settled_at-abort_log t es i h

-- A committed or aborted transaction stays so.
pub act-IsClosed :
    (S : ℕ → Bool) (a : Action) (c : Captured) → IsClosed S c.log → IsClosed S (act a c).log
unfolding act
act-IsClosed S (statement t e) c h = λ i s. elim (Bool-cases (storable c.arity e)) [
  | inl p ↦ rw p (settled_at-append c.log (trigger t e) i (h i s))
  | inr p ↦ rw p (h i s)
]
act-IsClosed S (commit t) c h = λ i s. settled_at-settle_log t c.log i (h i s)
act-IsClosed S (abort t) c h = λ i s. settled_at-abort_log t c.log i (h i s)

Owns-empty :
    (S : ℕ → Bool) (keys : List KeyValues) (es : List Entry)
    → ((i : ℕ) → S i ≡ false)
    → Owns S keys es
Owns-empty S keys [] n = tt
Owns-empty S keys (e ∷ es) n =
    (λ s. ground (arith, n 0), Owns-empty (λ i. S (suc i)) keys es (λ i. n (suc i)))

Owns-append :
    (S : ℕ → Bool) (keys : List KeyValues) (xs ys : List Entry)
    → IsClosed S xs
    → Owns S keys xs
    → Owns S keys (xs ++ ys)
Owns-append S keys [] ys h o =
    Owns-empty S keys ys λ i. elim (Bool-cases (S i)) [ inl p ↦ cc (h i p) | inr p ↦ p ]
Owns-append S keys (x ∷ xs) ys h o =
    (o.0, Owns-append (λ i. S (suc i)) keys xs ys (λ i. h (suc i)) o.1)

Owns-settle_log :
    (S : ℕ → Bool) (keys : List KeyValues) (t : ℕ) (log : List Entry)
    → Owns S keys log
    → Owns S keys (settle_log t log)
unfolding settle_log
Owns-settle_log S keys t [] o = o
Owns-settle_log S keys t (e ∷ es) o =
    (λ s. ground (arith, o.0), Owns-settle_log (λ i. S (suc i)) keys t es o.1)

Owns-abort_log :
    (S : ℕ → Bool) (keys : List KeyValues) (t : ℕ) (log : List Entry)
    → Owns S keys log
    → Owns S keys (abort_log t log)
unfolding abort_log
Owns-abort_log S keys t [] o = o
Owns-abort_log S keys t (e ∷ es) o =
    (λ s. ground (arith, o.0), Owns-abort_log (λ i. S (suc i)) keys t es o.1)

pub act-Owns :
    (S : ℕ → Bool) (keys : List KeyValues) (a : Action) (c : Captured)
    → IsClosed S c.log
    → Owns S keys c.log
    → Owns S keys (act a c).log
unfolding act
act-Owns S keys (statement t e) c h o = elim (Bool-cases (storable c.arity e)) [
  | inl p ↦ rw p (Owns-append S keys c.log (trigger t e) h o)
  | inr p ↦ rw p o
]
act-Owns S keys (commit t) c h o = Owns-settle_log S keys t c.log o
act-Owns S keys (abort t) c h o = Owns-abort_log S keys t c.log o

pub pending-abort_log :
    (S : ℕ → Bool) (k : KeyValues) (t : ℕ) (log : List Entry)
    → pending S k log ≡ true
    → pending S k (abort_log t log) ≡ true
unfolding abort_log
pending-abort_log S k t [] h = h
pending-abort_log S k t (e ∷ es) h = ground (arith, pending-abort_log (λ i. S (suc i)) k t es)

-- When a transaction commits, each row that it changes is pending for whoever has not seen the
-- transaction's ids, and those nobody can have seen.
pub act-Covered :
    (S : ℕ → Bool) (v : Option Bytes) (k : KeyValues) (a : Action) (c : Captured)
    → IsClosed S c.log
    → IsCaptured c
    → Covered S v k c
    → Covered S v k (act a c)
unfolding act
act-Covered S v k (statement t e) c h cap (inl p) = elim (Bool-cases (storable c.arity e)) [
  | inl q ↦ rw q (inl p)
  | inr q ↦ rw q (inl p)
]
act-Covered S v k (statement t e) c h cap (inr p) = elim (Bool-cases (storable c.arity e)) [
  | inl q ↦ rw q (inr (pending-append S k c.log (trigger t e) p))
  | inr q ↦ rw q (inr p)
]
act-Covered S v k (commit t) c h cap (inl p) =
    elim (settle_rows-cases t k c.log c.writes c.rows cap) [
      | inl q ↦ inl (p ∙ sym q)
      | inr q ↦ inr (settle-pending S k t c.log h q)
    ]
act-Covered S v k (commit t) c h cap (inr p) = inr (pending-settle_log S k t c.log p)
act-Covered S v k (abort t) c h cap (inl p) = inl p
act-Covered S v k (abort t) c h cap (inr p) = inr (pending-abort_log S k t c.log p)

-- Every key in the delta table is one that the table can hold.
abbrev pub HasValidKeys : ℕ → List Entry → Type 0
HasValidKeys n [] = Unit
HasValidKeys n (e ∷ es) = (is_valid_key n e.key ≡ true) × HasValidKeys n es

HasValidKeys-append :
    (n : ℕ) (xs ys : List Entry) → HasValidKeys n xs → HasValidKeys n ys → HasValidKeys n (xs ++ ys)
HasValidKeys-append n [] ys h k = k
HasValidKeys-append n (x ∷ xs) ys h k = (h.0, HasValidKeys-append n xs ys h.1 k)

trigger-HasValidKeys : (n t : ℕ) (e : RowEvent) → storable n e ≡ true → HasValidKeys n (trigger t e)
unfolding trigger
trigger-HasValidKeys n t (inserted k row) h = (h, tt)
trigger-HasValidKeys n t (updated old new row) h = ground arith
trigger-HasValidKeys n t (deleted k) h = (h, tt)

settle_log-HasValidKeys :
    (n t : ℕ) (log : List Entry) → HasValidKeys n log → HasValidKeys n (settle_log t log)
unfolding settle_log
settle_log-HasValidKeys n t [] h = h
settle_log-HasValidKeys n t (e ∷ es) h = (ground arith, settle_log-HasValidKeys n t es h.1)

abort_log-HasValidKeys :
    (n t : ℕ) (log : List Entry) → HasValidKeys n log → HasValidKeys n (abort_log t log)
unfolding abort_log
abort_log-HasValidKeys n t [] h = h
abort_log-HasValidKeys n t (e ∷ es) h = (ground arith, abort_log-HasValidKeys n t es h.1)

pub act-HasValidKeys :
    (a : Action) (c : Captured)
    → HasValidKeys c.arity c.log
    → HasValidKeys (act a c).arity (act a c).log
unfolding act
act-HasValidKeys (statement t e) c h = elim (Bool-cases (storable c.arity e)) [
  | inl q ↦
      rw q (HasValidKeys-append c.arity c.log (trigger t e) h (trigger-HasValidKeys c.arity t e q))
  | inr q ↦ rw q h
]
act-HasValidKeys (commit t) c h = settle_log-HasValidKeys c.arity t c.log h
act-HasValidKeys (abort t) c h = abort_log-HasValidKeys c.arity t c.log h

-- ===== src/Postgres/Purge/Caps.antt =====
-- Which targets the retention caps name.
use replicare.Base.{
  ℕ, ◌≤◌, ◌≡◌, refl, sym, subst, ◌⊎◌, inl, inr, arith, Bool, true, false, not, ◌&&◌, ◌||◌, Option,
  none, some, List, [], ◌∷◌, Bytes, bytes_eq, bytes_lt, ltb, leb, contains, ◌==◌, if◌then◌else◌,
  Bool-cases, is_sorted, sort_by-sorted, contains-sort_by, bytes_lt_irrefl, bytes_lt_trans,
}
use replicare.Engine.{TargetId}
use replicare.Postgres.Purge.{
  RetentionPolicy, DeltaBacklog, Backlogs, mark, mark_found, exceeds_age, over_age, laggard,
  over_cap_targets,
}

-- Some backlog of the target is older than the age cap.
abbrev pub is_aged : ℕ → Backlogs → TargetId → Bool
is_aged s [] target = false
is_aged s ((t, b) ∷ rest) target =
    (target == t && (b.has_backlog && exceeds_age s b.oldest_age)) || is_aged s rest target

contains-mark :
    (target t : TargetId) (over : List TargetId)
    → contains target (mark t over) ≡ (target == t || contains target over)
contains-mark target t over = ground (arith, bytes_eq.beq_iff target t)

contains-over_age :
    (s : ℕ) (backlogs : Backlogs) (over : List TargetId) (target : TargetId)
    → contains target (over_age s backlogs over)
      ≡ (contains target over || is_aged s backlogs target)
unfolding over_age
contains-over_age s [] over target = ground arith
contains-over_age s ((t, b) ∷ rest) over target = ground (
  arith,
  contains-mark target t over,
  contains-over_age s rest
      (if b.has_backlog && exceeds_age s b.oldest_age then mark t over else over) target,
)

-- No backlog is older than `a`.
abbrev pub is_oldest : Backlogs → ℕ → Bool
is_oldest [] a = true
is_oldest ((t, b) ∷ rest) a = (not b.has_backlog || leb b.oldest_age a) && is_oldest rest a

-- The target has a backlog of age `a`.
abbrev pub has_age : Backlogs → TargetId → ℕ → Bool
has_age [] target a = false
has_age ((t, b) ∷ rest) target a =
    (target == t && (b.has_backlog && (leb b.oldest_age a && leb a b.oldest_age)))
    || has_age rest target a

abbrev pub Laggard : Backlogs → Option (TargetId × ℕ) → Type 0
Laggard bl none = (a : ℕ) → is_oldest bl a ≡ true
Laggard bl (some (t, a)) = (is_oldest bl a ≡ true) × (has_age bl t a ≡ true)

laggard-some :
    (bl : Backlogs) (t : TargetId) (a : ℕ)
    → (u : TargetId) × (b : ℕ) × (laggard bl (some (t, a)) ≡ some (u, b))
      × (a ≤ b)
      × (is_oldest bl b ≡ true)
      × (((u == t) ≡ true) × (b ≤ a) ⊎ (has_age bl u b ≡ true))
unfolding laggard
laggard-some [] t a =
    (t, a, refl, omega arith, refl, inl ((bytes_eq.beq_iff t t).1 refl, omega arith))
laggard-some ((v, x) ∷ rest) t a = elim (Bool-cases (x.has_backlog && ltb a x.oldest_age)) [
  | inl p ↦
      let (u, b, e, le, old, or) = laggard-some rest v x.oldest_age in
      (
        u,
        b,
        rw p e,
        ground (arith, p, le),
        ground (arith, p, le, old),
        inr (ground (arith, p, le, or)),
      )
  | inr p ↦
      let (u, b, e, le, old, or) = laggard-some rest t a in
      (u, b, rw p e, le, ground (arith, p, le, old), ground (arith, or))
]

laggard-skip :
    (v : TargetId) (x : DeltaBacklog) (rest : Backlogs)
    → x.has_backlog ≡ false
    → laggard ((v, x) ∷ rest) none ≡ laggard rest none
unfolding laggard
laggard-skip v x rest p = rw p refl

Laggard-cons :
    (v : TargetId) (x : DeltaBacklog) (rest : Backlogs) (f : Option (TargetId × ℕ))
    → x.has_backlog ≡ false
    → Laggard rest f
    → Laggard ((v, x) ∷ rest) f
Laggard-cons v x rest none p h = λ a. ground (arith, p, h a)
Laggard-cons v x rest (some (t, a)) p h = (ground (arith, p, h.0), ground (arith, h.1))

laggard-Laggard : (bl : Backlogs) → Laggard bl (laggard bl none)
unfolding laggard
laggard-Laggard [] = λ a. refl
laggard-Laggard ((v, x) ∷ rest) = elim (Bool-cases x.has_backlog) [
  | inl p ↦
      let (u, b, e, le, old, or) = laggard-some rest v x.oldest_age in
      rw (p, e) (ground (arith, p, le, old), ground (arith, p, le, or))
  | inr p ↦
      subst (Laggard ((v, x) ∷ rest)) (sym (laggard-skip v x rest p))
        (Laggard-cons v x rest (laggard rest none) p (laggard-Laggard rest))
]

bytes_lt_asym : (a b : Bytes) → bytes_lt a b ≡ true → bytes_lt b a ≡ false
bytes_lt_asym a b h = ground (arith, bytes_lt_trans a b a h, bytes_lt_irrefl a)

abbrev pub is_found : Option (TargetId × ℕ) → TargetId → Bool
is_found none target = false
is_found (some (t, _)) target = target == t

contains-mark_found :
    (f : Option (TargetId × ℕ)) (over : List TargetId) (target : TargetId)
    → contains target (mark_found f over) ≡ (is_found f target || contains target over)
contains-mark_found none over target = refl
contains-mark_found (some (t, a)) over target = contains-mark target t over

abbrev pub over_size : RetentionPolicy → ℕ → Bool
over_size ret total_bytes = ltb 0 ret.max_bytes && ltb ret.max_bytes total_bytes

abbrev aged : RetentionPolicy → Backlogs → List TargetId
aged ret backlogs =
    if ltb 0 ret.max_age_seconds then over_age ret.max_age_seconds backlogs [] else []

-- The targets over a cap come in the order of their names; a target is among them exactly if it has
-- a backlog beyond the age cap, or the table is beyond the size cap and the target is the laggard;
-- the laggard has a backlog, none is older, and there is one unless no target has a backlog.
pub over_cap_targets_exact :
    (ret : RetentionPolicy) (backlogs : Backlogs) (total_bytes : ℕ) (target : TargetId)
    → (is_sorted bytes_lt (over_cap_targets ret backlogs total_bytes) ≡ true)
      × (contains target (over_cap_targets ret backlogs total_bytes) ≡ (
          (ltb 0 ret.max_age_seconds && is_aged ret.max_age_seconds backlogs target)
          || (over_size ret total_bytes && is_found (laggard backlogs none) target)))
      × Laggard backlogs (laggard backlogs none)
unfolding over_cap_targets
over_cap_targets_exact ret backlogs total_bytes target = (
  sort_by-sorted bytes_lt bytes_lt_asym (
      if over_size ret total_bytes
      then mark_found (laggard backlogs none) (aged ret backlogs)
      else aged ret backlogs),
  rw (contains-sort_by bytes_lt) (
      ground (
        arith,
        contains-mark_found (laggard backlogs none) (aged ret backlogs) target,
        contains-over_age ret.max_age_seconds backlogs [] target,
      )),
  laggard-Laggard backlogs,
)

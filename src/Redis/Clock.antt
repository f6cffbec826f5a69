-- ===== src/Redis/Clock.antt =====
-- internal/engine/redis/mesh.go: `version.beats`, `hlcTick`, `hlcObserve`.
-- An int64 or int32 is its bit pattern, a number below 2 ^ 64 or 2 ^ 32, and is compared as signed.
use replicare.Base.{
  ℕ, ◌+◌, ◌%◌, ◌^◌, ◌<◌, ◌≡◌, subst, ◌⊎◌, inl, inr, arith, Bool, true, false, not, ◌&&◌, ◌||◌,
  Bytes, bytes_eq, bytes_lt, bytes_lt_irrefl, bytes_lt_trans, bytes_lt_total, nat_beq, nat_eq,
  if◌then◌else◌, Bool-cases, gt64, gt32, gt64_irrefl,
}

pub record Version : Type 0 where
  pub phys : ℕ
  pub log : ℕ
  pub node : Bytes
  pub deleted : Bool
  pub vhash : ℕ

unfoldable pub beats : Version → Version → Bool → Bool
unfolding gt64 gt32 bytes_lt
beats v o present =
    if not present
    then true
    else if nat_beq v.phys o.phys
    then (if nat_beq v.log o.log then bytes_lt o.node v.node else gt32 v.log o.log)
    else gt64 v.phys o.phys

unfoldable pub hlc_tick : ℕ → ℕ → ℕ → ℕ × ℕ
unfolding gt64
hlc_tick now phys log = if gt64 now phys then (now, 0) else (phys, (log + 1) % 2 ^ 32)

abbrev pub max64 : ℕ → ℕ → ℕ
max64 a b = if gt64 b a then b else a

unfoldable pub hlc_observe : ℕ → ℕ → ℕ → ℕ → ℕ → ℕ × ℕ
unfolding gt64 gt32
hlc_observe now phys log in_phys in_log =
    let new = max64 (max64 phys now) in_phys in
    if nat_beq new phys && nat_beq new in_phys
    then (new, ((if gt32 in_log log then in_log else log) + 1) % 2 ^ 32)
    else if nat_beq new phys
    then (new, (log + 1) % 2 ^ 32)
    else (if nat_beq new in_phys then (new, (in_log + 1) % 2 ^ 32) else (new, 0))

-- The words of a version that a Go value holds.
abbrev pub IsWord : ℕ → ℕ → Type 0
IsWord phys log = (phys < 2 ^ 64) × (log < 2 ^ 32)

-- (phys, log) is after (phys', log').
abbrev pub is_after : ℕ × ℕ → ℕ × ℕ → Bool
is_after a b = gt64 a.0 b.0 || (nat_beq a.0 b.0 && gt32 a.1 b.1)

pub gt32_irrefl : (a : ℕ) → gt32 a a ≡ false
unfolding gt32
gt32_irrefl a = ground arith

gt64_trans : (a b c : ℕ) → gt64 a b ≡ true → gt64 b c ≡ true → gt64 a c ≡ true
unfolding gt64
gt64_trans a b c h k = ground arith

pub gt32_trans : (a b c : ℕ) → gt32 a b ≡ true → gt32 b c ≡ true → gt32 a c ≡ true
unfolding gt32
gt32_trans a b c h k = ground arith

gt64_total : (a b : ℕ) → a < 2 ^ 64 → b < 2 ^ 64 → gt64 a b ≡ false → gt64 b a ≡ false → a ≡ b
unfolding gt64
gt64_total a b ha hb h k = ground arith

pub gt32_total : (a b : ℕ) → a < 2 ^ 32 → b < 2 ^ 32 → gt32 a b ≡ false → gt32 b a ≡ false → a ≡ b
unfolding gt32
gt32_total a b ha hb h k = ground arith

-- The largest int32; only there the counter wraps.
abbrev pub max_log : ℕ
max_log = 2147483647

gt32_next : (l : ℕ) → l < 2 ^ 32 → (nat_beq l max_log ≡ false) → gt32 ((l + 1) % 2 ^ 32) l ≡ true
unfolding gt32
gt32_next l h k = ground arith

gt32_next_max :
    (l m : ℕ)
    → l < 2 ^ 32
    → m < 2 ^ 32
    → nat_beq l max_log ≡ false
    → nat_beq m max_log ≡ false
    → (gt32 (((if gt32 m l then m else l) + 1) % 2 ^ 32) l ≡ true)
      × (gt32 (((if gt32 m l then m else l) + 1) % 2 ^ 32) m ≡ true)
gt32_next_max l m hl hm a b = elim (Bool-cases (gt32 m l)) [
  | inl p ↦ let n = gt32_next m hm b in rw p (gt32_trans ((m + 1) % 2 ^ 32) m l n p, n)
  | inr p ↦
      let n = gt32_next l hl a in
      rw p (
        n,
        elim (Bool-cases (gt32 l m)) [
          | inl q ↦ gt32_trans ((l + 1) % 2 ^ 32) l m n q
          | inr q ↦ subst (λ x. gt32 ((l + 1) % 2 ^ 32) x ≡ true) (gt32_total l m hl hm q p) n
        ],
      )
]

-- A tick gives a clock value after the old one, unless the counter is at the largest int32 and the
-- wall clock has not moved past the stored time.
pub hlc_tick-after :
    (now phys log : ℕ)
    → log < 2 ^ 32
    → (gt64 now phys ≡ true) ⊎ (nat_beq log max_log ≡ false)
    → is_after (hlc_tick now phys log) (phys, log) ≡ true
unfolding hlc_tick
hlc_tick-after now phys log h ok = ground (arith, nat_eq.beq_iff phys phys, gt32_next log h)

-- Observing a clock value gives one that is after both the stored and the incoming one, whatever the
-- wall clock says, unless a counter is at the largest int32.
pub hlc_observe-after :
    (now phys log in_phys in_log : ℕ)
    → IsWord phys log
    → IsWord in_phys in_log
    → now < 2 ^ 64
    → nat_beq log max_log ≡ false
    → nat_beq in_log max_log ≡ false
    → (is_after (hlc_observe now phys log in_phys in_log) (phys, log) ≡ true)
      × (is_after (hlc_observe now phys log in_phys in_log) (in_phys, in_log) ≡ true)
unfolding hlc_observe
hlc_observe-after now phys log in_phys in_log h k hn a b = ground (
  arith,
  gt32_next log h.1 a,
  gt32_next in_log k.1 b,
  gt32_next_max log in_log h.1 k.1 a b,
  gt64_total phys in_phys h.0 k.0,
  gt64_total now in_phys hn k.0,
  gt64_total now phys hn h.0,
  gt64_trans in_phys now phys,
  gt64_trans now phys in_phys,
  gt64_trans now in_phys phys,
  gt64_irrefl phys,
  gt64_irrefl now,
  gt64_irrefl in_phys,
)

-- Last-write-wins on versions of words is a strict total order: a version beats neither itself nor
-- a version that beats it, a chain of wins is a win, and versions that do not beat each other have
-- the same clock value and node.
pub beats_total :
    (a b c : Version)
    → IsWord a.phys a.log
    → IsWord b.phys b.log
    → (beats a a true ≡ false)
      × (beats a b true ≡ true → beats b c true ≡ true → beats a c true ≡ true)
      × (beats a b true ≡ false
          → beats b a true ≡ false
          → (a.phys ≡ b.phys) × (a.log ≡ b.log) × (a.node ≡ b.node))
unfolding beats
beats_total a b c ha hb = (
  ground (arith, bytes_lt_irrefl a.node),
  λ h k. ground (
    arith,
    h,
    k,
    gt64_trans a.phys b.phys c.phys,
    gt32_trans a.log b.log c.log,
    bytes_lt_trans c.node b.node a.node,
  ),
  λ h k. ground (
    arith,
    h,
    k,
    gt64_total a.phys b.phys ha.0 hb.0,
    gt32_total a.log b.log ha.1 hb.1,
    bytes_lt_total a.node b.node,
  ),
)

-- ===== src/Redis/Script.antt =====
-- `meshApplyScript` of internal/engine/redis/mesh_sink.go: which version wins. Lua numbers are
-- doubles: `tonumber` rounds the decimal of an int64 or int32 to 53 bits. How Lua orders strings is up
-- to the collation of the server, a parameter.
use replicare.Base.{
  ℕ, zero, suc, ◌+◌, ◌-◌, ◌*◌, ◌/◌, ◌%◌, ◌^◌, ◌<◌, ◌≡◌, refl, inl, inr, Bool, true, false, ◌&&◌,
  ◌||◌, Bytes, ltb, nat_beq, nat_eq, if◌then◌else◌, Bool-cases, arith, gt32,
}
use replicare.Redis.Clock.{Version, gt32_irrefl, gt32_trans, gt32_total}

-- To a multiple of the unit, a tie to the even one.
unfoldable pub round_to : ℕ → ℕ → ℕ
round_to u n =
    let q = n / u in
    let r = n % u in
    if ltb (r * 2) u || (nat_beq (r * 2) u && nat_beq (q % 2) 0) then q * u else (q + 1) * u

-- The unit of the last of 53 bits; eleven doublings reach every number below 2 ^ 64.
unfoldable pub unit_of : ℕ → ℕ → ℕ → ℕ
unit_of zero u n = u
unit_of (suc k) u n = let next = unit_of k (u * 2) n in if ltb n (2 ^ 53 * u) then u else next

unfoldable pub to_double : ℕ → ℕ
unfolding round_to unit_of
to_double n = round_to (unit_of 11 1 n) n

-- Whether it is negative, and its magnitude. The word is of `w` bits.
unfoldable pub to_number : ℕ → ℕ → Bool × ℕ
unfolding to_double
to_number w x = if ltb x (2 ^ (w - 1)) then (false, to_double x) else (true, to_double (2 ^ w - x))

abbrev pub exceeds : Bool × ℕ → Bool × ℕ → Bool
exceeds (false, a) (false, b) = ltb b a
exceeds (false, a) (true, b) = true
exceeds (true, a) (false, b) = false
exceeds (true, a) (true, b) = ltb a b

abbrev pub equals : Bool × ℕ → Bool × ℕ → Bool
equals (false, a) (false, b) = nat_beq a b
equals (false, a) (true, b) = false
equals (true, a) (false, b) = false
equals (true, a) (true, b) = nat_beq a b

-- `win` when the register is there; `string_gt` is `>` on strings.
unfoldable pub script_beats : (Bytes → Bytes → Bool) → Version → Version → Bool
unfolding to_number
script_beats string_gt v o =
    let ip = to_number 64 v.phys in
    let ep = to_number 64 o.phys in
    let il = to_number 32 v.log in
    let el = to_number 32 o.log in
    if exceeds ip ep
    then true
    else if equals ip ep && exceeds il el
    then true
    else if equals ip ep && (equals il el && string_gt v.node o.node)
    then true
    else false

-- The collation of the server tells different strings apart, as that of the C locale does.
pub record IsCollation (string_gt : Bytes → Bytes → Bool) : Type 0 where
  pub irrefl : (a : Bytes) → string_gt a a ≡ false
  pub trans : (a b c : Bytes) → string_gt a b ≡ true → string_gt b c ≡ true → string_gt a c ≡ true
  pub total : (a b : Bytes) → string_gt a b ≡ false → string_gt b a ≡ false → a ≡ b

-- A double holds such a time exactly.
abbrev pub IsExact : Version → Type 0
IsExact v = (v.phys < 2 ^ 53) × (v.log < 2 ^ 32)

to_double_exact : (n : ℕ) → n < 2 ^ 53 → to_double n ≡ n
unfolding to_double round_to unit_of
to_double_exact n h = ground arith

number_of_phys : (x : ℕ) → x < 2 ^ 53 → to_number 64 x ≡ (false, x)
unfolding to_number
number_of_phys x h = rw (to_double_exact x h) (ground (arith, h))

number_of_log :
    (x : ℕ)
    → x < 2 ^ 32
    → to_number 32 x ≡ (if ltb x (2 ^ 31) then (false, x) else (true, 2 ^ 32 - x))
unfolding to_number
number_of_log x h = elim (Bool-cases (ltb x (2 ^ 31))) [
  | inl p ↦ rw (p, to_double_exact x (omega arith)) refl
  | inr p ↦ rw (p, to_double_exact (2 ^ 32 - x) (ground arith)) refl
]

exceeds_log :
    (a b : ℕ)
    → a < 2 ^ 32
    → b < 2 ^ 32
    → (exceeds (to_number 32 a) (to_number 32 b) ≡ gt32 a b)
      × (equals (to_number 32 a) (to_number 32 b) ≡ nat_beq a b)
unfolding gt32
exceeds_log a b ha hb =
    rw (number_of_log a ha, number_of_log b hb)
      (elim (Bool-cases (ltb a (2 ^ 31))) [
        | inl p ↦ elim (Bool-cases (ltb b (2 ^ 31))) [
          | inl q ↦ rw (p, q) (ground (arith, p, q), refl)
          | inr q ↦ rw (p, q) (ground (arith, p, q), ground (arith, p, q))
        ]
        | inr p ↦ elim (Bool-cases (ltb b (2 ^ 31))) [
          | inl q ↦ rw (p, q) (ground (arith, p, q), ground (arith, p, q))
          | inr q ↦ rw (p, q) (ground (arith, p, q), ground (arith, p, q))
        ]
      ])

abbrev exact_beats : (Bytes → Bytes → Bool) → Version → Version → Bool
exact_beats string_gt v o =
    if nat_beq v.phys o.phys
    then (if nat_beq v.log o.log then string_gt v.node o.node else gt32 v.log o.log)
    else ltb o.phys v.phys

script_beats-exact :
    (string_gt : Bytes → Bytes → Bool) (v o : Version)
    → IsExact v
    → IsExact o
    → script_beats string_gt v o ≡ exact_beats string_gt v o
unfolding script_beats
script_beats-exact string_gt v o hv ho =
    let (x, e) = exceeds_log v.log o.log hv.1 ho.1 in
    rw (number_of_phys v.phys hv.0, number_of_phys o.phys ho.0, x, e)
      (ground (arith, gt32_irrefl v.log))

-- Between exact versions the script's order is strict and total.
module _ (string_gt : Bytes → Bytes → Bool) (order : IsCollation string_gt) where
  pub script_beats_irrefl : (v : Version) → IsExact v → script_beats string_gt v v ≡ false
  script_beats_irrefl v h =
      rw (script_beats-exact string_gt v v h h) (ground (arith, order.irrefl v.node))

  pub script_beats_trans :
      (a b c : Version)
      → IsExact a
      → IsExact b
      → IsExact c
      → script_beats string_gt a b ≡ true
      → script_beats string_gt b c ≡ true
      → script_beats string_gt a c ≡ true
  unfolding gt32
  script_beats_trans a b c ha hb hc p q =
      let p' = rw (script_beats-exact string_gt a b ha hb) at p in
      let q' = rw (script_beats-exact string_gt b c hb hc) at q in
      rw (script_beats-exact string_gt a c ha hc) (
        ground (
          arith,
          p',
          q',
          gt32_trans a.log b.log c.log,
          order.trans a.node b.node c.node,
          gt32_total a.log b.log ha.1 hb.1,
        ))

  pub script_beats_total :
      (a b : Version)
      → IsExact a
      → IsExact b
      → script_beats string_gt a b ≡ false
      → script_beats string_gt b a ≡ false
      → (a.phys ≡ b.phys) × (a.log ≡ b.log) × (a.node ≡ b.node)
  script_beats_total a b ha hb p q =
      let p' = rw (script_beats-exact string_gt a b ha hb) at p in
      let q' = rw (script_beats-exact string_gt b a hb ha) at q in
      ground (arith, p', q', gt32_total a.log b.log ha.1 hb.1, order.total a.node b.node)

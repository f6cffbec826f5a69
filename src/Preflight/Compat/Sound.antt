-- ===== src/Preflight/Compat/Sound.antt =====
-- The classification of internal/engine/postgres/typecompat.go against the values of the types.
use native.Mathlib.Nat.{pow-le-pow_right}
use replicare.Base.{
  ℕ, ◌-◌, ◌^◌, ◌≤◌, ◌<◌, ◌≡◌, refl, sym, subst, ◌∙◌, inl, inr, Bool, true, false, List, [], ◌∷◌,
  Bytes, bytes_eq, leb, leb→le, if◌then◌else◌, arith, Bool-cases, ==_cases,
}
use replicare.Preflight.TypeNames.{
  PgType, parse_type, first_mod, Family, family, int_width, float_width, precision_scale,
  numeric_holds_integers, holds_integers, same_family, same_family-eq,
}
use replicare.Preflight.Compat.{
  CompatLevel, permits, compare_mods, classify_same_family, classify_cross_family,
  classify_families, classify_parsed, classify_types, widen_or_risky,
}
use replicare.Preflight.Compat.TextLimits.{text_sound}
use replicare.Preflight.Compat.Values.{
  Value, whole, fraction, floating, day, instant, document, FitsNumeric, FitsWhole, FitsSeconds,
  FitsInt, IsInstant, written, kind_of, int_bits, significand, HoldsIn, Holds, fewer_digits,
  lossy_in, lossy,
}

widened :
    (b : Bool) → permits (if b then CompatLevel.widen else CompatLevel.risky) ≡ true → b ≡ true
unfolding permits
widened true h = refl
widened false h = cc

FitsInt-mono : (w w' : ℕ) (neg : Bool) (n : ℕ) → w ≤ w' → FitsInt w neg n → FitsInt w' neg n
FitsInt-mono w w' false n le h =
    let p : 2 ^ (w - 1) ≤ 2 ^ (w' - 1) = pow-le-pow_right (omega arith) (omega arith) in omega arith
FitsInt-mono w w' true n le h =
    let p : 2 ^ (w - 1) ≤ 2 ^ (w' - 1) = pow-le-pow_right (omega arith) (omega arith) in omega arith

-- What the source reads off a name is what the name means.
family-kind_of : (p : PgType) → family p ≡ kind_of p
unfolding family
family-kind_of p = ground arith

lossy-family : (s t : PgType) → lossy_in (family s) (family t) s t ≡ lossy s t
lossy-family s t = λ i. lossy_in (family-kind_of s i) (family-kind_of t i) s t

int_width-int_bits : (p : PgType) → family p ≡ Family.integer → int_width p ≡ int_bits p
unfolding family int_width
int_width-int_bits p h = ground arith

integer_sound :
    (s t : PgType)
    → family s ≡ Family.integer
    → family t ≡ Family.integer
    → int_width s ≤ int_width t
    → (v : Value) → HoldsIn Family.integer s v
    → HoldsIn Family.integer t v
integer_sound s t e d le (whole neg n) h =
    FitsInt-mono (int_bits s) (int_bits t) neg n
      (omega (arith, le, int_width-int_bits s e, int_width-int_bits t d)) h
integer_sound s t e d le v h = elim h [ ]

significand-float_width :
    (p : PgType)
    → family p ≡ Family.float
    → significand p ≡ (if leb 64 (float_width p) then 53 else 24)
unfolding family float_width
significand-float_width p h = ground arith

significand_mono :
    (s t : PgType)
    → family s ≡ Family.float
    → family t ≡ Family.float
    → float_width s ≤ float_width t
    → significand s ≤ significand t
significand_mono s t e d le =
    rw (significand-float_width s e, significand-float_width t d) (ground (arith, le))

float_sound :
    (s t : PgType)
    → significand s ≤ significand t
    → (v : Value) → HoldsIn Family.float s v
    → HoldsIn Family.float t v
float_sound s t le (floating b) h = omega (arith, le, h)
float_sound s t le v h = elim h [ ]

numeric_fraction_sound :
    (ss ts : List ℕ) (i f : ℕ)
    → permits (compare_mods ss ts) ≡ true
    → fewer_digits ss ts ≡ false
    → FitsNumeric ss i f
    → FitsNumeric ts i f
unfolding permits precision_scale
numeric_fraction_sound ss [] i f h l p = tt
numeric_fraction_sound [] (m ∷ ms) i f h l p = cc
numeric_fraction_sound (n ∷ []) (m ∷ []) i f h l p = ground arith
numeric_fraction_sound (n ∷ []) (m ∷ k ∷ ms) i f h l p = ground arith
numeric_fraction_sound (n ∷ j ∷ ns) (m ∷ []) i f h l p = ground arith
numeric_fraction_sound (n ∷ j ∷ ns) (m ∷ k ∷ ms) i f h l p = ground arith

below_power : (n a b : ℕ) → a ≤ b → n < 10 ^ a → n < 10 ^ b
below_power n a b le h = let p : 10 ^ a ≤ 10 ^ b = pow-le-pow_right (omega arith) le in omega arith

numeric_whole_sound :
    (ss ts : List ℕ) (n : ℕ)
    → permits (compare_mods ss ts) ≡ true
    → fewer_digits ss ts ≡ false
    → FitsWhole ss n
    → FitsWhole ts n
unfolding permits precision_scale
numeric_whole_sound ss [] n h l p = tt
numeric_whole_sound [] (m ∷ ms) n h l p = cc
numeric_whole_sound (a ∷ []) (m ∷ []) n h l p = below_power n a m (ground arith) p
numeric_whole_sound (a ∷ []) (m ∷ k ∷ ms) n h l p = below_power n a (m - k) (ground arith) p
numeric_whole_sound (a ∷ j ∷ ns) (m ∷ []) n h l p = below_power n (a - j) m (ground arith) p
numeric_whole_sound (a ∷ j ∷ ns) (m ∷ k ∷ ms) n h l p =
    below_power n (a - j) (m - k) (ground arith) p

numeric_sound :
    (s t : PgType)
    → permits (compare_mods s.mods t.mods) ≡ true
    → fewer_digits s.mods t.mods ≡ false
    → (v : Value) → HoldsIn Family.numeric s v
    → HoldsIn Family.numeric t v
numeric_sound s t h l (whole neg n) p = numeric_whole_sound s.mods t.mods n h l p
numeric_sound s t h l (fraction i f) p = numeric_fraction_sound s.mods t.mods i f h l p
numeric_sound s t h l v p = elim p [ ]

-- A bigint has nineteen digits.
int_below : (p : PgType) (neg : Bool) (n : ℕ) → FitsInt (int_bits p) neg n → n ≤ 2 ^ 63
int_below p true n h = ground arith
int_below p false n h = ground arith

whole_fits :
    (ms : List ℕ) (n : ℕ)
    → permits (widen_or_risky (holds_integers ms)) ≡ true
    → n ≤ 2 ^ 63
    → FitsWhole ms n
unfolding holds_integers widen_or_risky permits precision_scale
whole_fits [] n h le = tt
whole_fits (p ∷ []) n h le = below_power n 19 p (ground arith) (omega arith)
whole_fits (p ∷ k ∷ ms) n h le = below_power n 19 (p - k) (ground arith) (omega arith)

integer_numeric_sound :
    (s t : PgType)
    → permits (widen_or_risky (numeric_holds_integers t)) ≡ true
    → (v : Value) → HoldsIn Family.integer s v
    → HoldsIn Family.numeric t v
unfolding numeric_holds_integers
integer_numeric_sound s t h (whole neg n) p = whole_fits t.mods n h (int_below s neg n p)
integer_numeric_sound s t h v p = elim p [ ]

abbrev first_of : List ℕ → ℕ
first_of ms = elim ms [ [] ↦ 6 | m ∷ _ ↦ m ]

seconds_sound :
    (ss ts : List ℕ) (n : ℕ) → first_of ss ≤ first_of ts → FitsSeconds ss n → FitsSeconds ts n
seconds_sound [] [] n h p = p
seconds_sound [] (m ∷ ms) n h p = omega arith
seconds_sound (a ∷ ns) [] n h p = omega arith
seconds_sound (a ∷ ns) (m ∷ ms) n h p = omega arith

IsInstant-sound :
    (f : Family) (s t : PgType)
    → first_mod s 6 ≤ first_mod t 6
    → (v : Value) → IsInstant f s v
    → IsInstant f t v
unfolding first_mod
IsInstant-sound f s t h (instant g n) p = (p.0, seconds_sound s.mods t.mods n h p.1)
IsInstant-sound f s t h v p = elim p [ ]

timestamp_sound :
    (s t : PgType)
    → first_mod s 6 ≤ first_mod t 6
    → (v : Value) → HoldsIn Family.timestamp s v
    → HoldsIn Family.timestamp t v
timestamp_sound s t le (day far) p = p
timestamp_sound s t le (instant g n) p = IsInstant-sound Family.timestamp s t le (instant g n) p
timestamp_sound s t le v p = elim p [ ]

-- Each family to itself.
same_sound :
    (f : Family) (s t : PgType)
    → family s ≡ f
    → family t ≡ f
    → permits (classify_families f f s t) ≡ true
    → lossy_in f f s t ≡ false
    → (v : Value) → HoldsIn f s v
    → HoldsIn f t v
unfolding classify_same_family
same_sound Family.text s t e d h l v p = text_sound Family.text s t e d h l v p
same_sound Family.integer s t e d h l v p = integer_sound s t e d (leb→le _ _ (widened _ h)) v p
same_sound Family.numeric s t e d h l v p = numeric_sound s t h l v p
same_sound Family.float s t e d h l v p =
    float_sound s t (significand_mono s t e d (leb→le _ _ (widened _ h))) v p
same_sound Family.timestamp s t e d h l v p = timestamp_sound s t (leb→le _ _ (widened _ h)) v p
same_sound Family.timestamptz s t e d h l v p =
    IsInstant-sound Family.timestamptz s t (leb→le _ _ (widened _ h)) v p
same_sound Family.time s t e d h l v p =
    IsInstant-sound Family.time s t (leb→le _ _ (widened _ h)) v p
same_sound Family.timetz s t e d h l v p =
    IsInstant-sound Family.timetz s t (leb→le _ _ (widened _ h)) v p
same_sound Family.interval s t e d h l v p = IsInstant-sound Family.interval s t (ground arith) v p
same_sound Family.boolean s t e d h l v p = p
same_sound Family.uuid s t e d h l v p = p
same_sound Family.bytea s t e d h l v p = p
same_sound Family.date s t e d h l (day far) p = tt
same_sound Family.date s t e d h l v p = elim p [ ]
same_sound Family.json s t e d h l document p = tt
same_sound Family.json s t e d h l written p = tt
same_sound Family.json s t e d h l v p = elim p [ ]
same_sound Family.jsonb s t e d h l document p = tt
same_sound Family.jsonb s t e d h l v p = elim p [ ]
same_sound Family.other s t e d h l v p = unfold permits in cc

-- The rules between families.
ruled_sound :
    (sf tf : Family) (s t : PgType)
    → permits (classify_cross_family sf tf t) ≡ true
    → lossy_in sf tf s t ≡ false
    → (v : Value) → HoldsIn sf s v
    → HoldsIn tf t v
unfolding classify_cross_family permits
ruled_sound Family.integer Family.numeric s t h l v p = integer_numeric_sound s t h v p
ruled_sound Family.date Family.timestamp s t h l v p = cc
ruled_sound Family.json Family.jsonb s t h l v p = cc
ruled_sound Family.jsonb Family.json s t h l document p = tt
ruled_sound Family.jsonb Family.json s t h l v p = elim p [ ]
ruled_sound Family.numeric Family.integer s t h l v p = cc
ruled_sound Family.float Family.integer s t h l v p = cc
ruled_sound Family.text Family.integer s t h l v p = cc
ruled_sound Family.boolean Family.integer s t h l v p = cc
ruled_sound Family.uuid Family.integer s t h l v p = cc
ruled_sound Family.timestamp Family.integer s t h l v p = cc
ruled_sound Family.timestamptz Family.integer s t h l v p = cc
ruled_sound Family.time Family.integer s t h l v p = cc
ruled_sound Family.timetz Family.integer s t h l v p = cc
ruled_sound Family.bytea Family.integer s t h l v p = cc
ruled_sound Family.interval Family.integer s t h l v p = cc
ruled_sound Family.other Family.integer s t h l v p = cc
ruled_sound _ _ s t h l v p = cc

families_sound :
    (sf tf : Family) (s t : PgType)
    → family s ≡ sf
    → family t ≡ tf
    → permits (classify_families sf tf s t) ≡ true
    → lossy_in sf tf s t ≡ false
    → (v : Value) → HoldsIn sf s v
    → HoldsIn tf t v
families_sound sf tf s t e d h l v p = elim (Bool-cases (same_family tf Family.text)) [
  | inl x ↦
      let q = same_family-eq tf Family.text x in
      rw q (text_sound sf s t e (d ∙ q) (rw x at h) (rw q at l) v p)
  | inr x ↦ elim (Bool-cases (same_family sf tf)) [
    | inl y ↦
        let q = same_family-eq sf tf y in
        rw (← q) (same_sound sf s t e (d ∙ sym q) (rw (← q) at h) (rw (← q) at l) v p)
    | inr y ↦ ruled_sound sf tf s t (rw (x, y) at h) l v p
  ]
]

pub classify_types_sound :
    (src tgt : Bytes)
    → permits (classify_types src tgt) ≡ true
    → lossy (parse_type src) (parse_type tgt) ≡ false
    → (v : Value) → Holds (parse_type src) v
    → Holds (parse_type tgt) v
unfolding classify_types classify_parsed
classify_types_sound src tgt h l v p = elim (==_cases src tgt) [
  | inl (x, e) ↦ rw e at p
  | inr (x, _) ↦
      let s = parse_type src in
      let t = parse_type tgt in
      subst (λ f. HoldsIn f t v) (family-kind_of t)
        (families_sound (family s) (family t) s t refl refl (rw x at h) (lossy-family s t ∙ l) v
          (subst (λ f. HoldsIn f s v) (sym (family-kind_of s)) p))
]

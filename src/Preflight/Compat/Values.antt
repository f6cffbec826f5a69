-- ===== src/Preflight/Compat/Values.antt =====
-- What the values of a PostgreSQL type are, for the classification of internal/engine/postgres/
-- typecompat.go: which values each declared type can store without loss. It is stated by the
-- documented names and limits of the types, not by what the source reads off them.
use replicare.Base.{
  ℕ, ◌+◌, ◌-◌, ◌^◌, ◌≤◌, ◌<◌, ◌≡◌, Bool, true, false, Option, none, some, List, [], ◌∷◌, Bytes,
  bytes_eq, codes, map, contains, ltb, ◌||◌, ◌&&◌, if◌then◌else◌,
}
use replicare.Preflight.TypeNames.{
  PgType, Family, one_of, quoted_char, first_mod, same_family, precision_scale,
}

abbrev pub is_empty : List ℕ → Bool
is_empty [] = true
is_empty (_ ∷ _) = false

pub data Value : Type 0 where
  -- A whole number, by its sign and its size.
  whole : Bool → ℕ → Value
  -- Digits before and after the decimal point.
  fraction : ℕ → ℕ → Value
  -- Bits of the significand.
  floating : ℕ → Value
  characters : ℕ → Value
  -- A date, and whether it is after the last one that a timestamp reaches (294276 AD).
  day : Bool → Value
  -- A time with so many digits of fractional seconds.
  instant : Family → ℕ → Value
  -- A JSON value in normal form, and one as it was written: with spaces, repeated keys, their order.
  document : Value
  written : Value
  -- A value of a family that has one form, or of a type by that name.
  plain : Family → Value
  foreign : Bytes → Value

-- The types by their names.
abbrev pub kinds : List (Family × List Bytes)
kinds =
    (
      Family.integer,
      map codes ("smallint" ∷ "int2" ∷ "integer" ∷ "int" ∷ "int4" ∷ "bigint" ∷ "int8" ∷ []),
    )
    ∷ (Family.numeric, map codes ("numeric" ∷ "decimal" ∷ []))
    ∷ (Family.float, map codes ("real" ∷ "float4" ∷ "double precision" ∷ "float8" ∷ []))
    ∷ (
      Family.text,
      quoted_char
          ∷ map codes
              ("text" ∷ "character varying" ∷ "varchar" ∷ "character" ∷ "char" ∷ "bpchar" ∷ []),
    )
    ∷ (Family.boolean, map codes ("boolean" ∷ "bool" ∷ []))
    ∷ (Family.uuid, map codes ("uuid" ∷ []))
    ∷ (Family.date, map codes ("date" ∷ []))
    ∷ (Family.timestamp, map codes ("timestamp without time zone" ∷ "timestamp" ∷ []))
    ∷ (Family.timestamptz, map codes ("timestamp with time zone" ∷ "timestamptz" ∷ []))
    ∷ (Family.time, map codes ("time without time zone" ∷ "time" ∷ []))
    ∷ (Family.timetz, map codes ("time with time zone" ∷ "timetz" ∷ []))
    ∷ (Family.json, map codes ("json" ∷ []))
    ∷ (Family.jsonb, map codes ("jsonb" ∷ []))
    ∷ (Family.bytea, map codes ("bytea" ∷ []))
    ∷ (Family.interval, map codes ("interval" ∷ []))
    ∷ []

abbrev kind_among : List (Family × List Bytes) → Bytes → Family
kind_among [] b = Family.other
kind_among ((f, names) ∷ ks) b = let rest = kind_among ks b in if contains b names then f else rest

abbrev pub kind_of : PgType → Family
kind_of p = kind_among kinds p.base

-- The bits of an integer type.
abbrev pub int_bits : PgType → ℕ
int_bits p =
    if one_of ("smallint" ∷ "int2" ∷ []) p.base
    then 16
    else if one_of ("integer" ∷ "int" ∷ "int4" ∷ []) p.base
    then 32
    else 64

-- `"char"` is one byte, `bpchar` without a length is unlimited, `character` is of length 1.
abbrev pub real_limit : PgType → Option ℕ
real_limit p = elim (contains p.base (quoted_char ∷ [])) [
  | true ↦ some 1
  | false ↦ elim p.mods [
    | m ∷ ms ↦ elim (one_of ("text" ∷ []) p.base) [ true ↦ none | false ↦ some m ]
    | [] ↦ elim (one_of ("character" ∷ "char" ∷ []) p.base) [ true ↦ some 1 | false ↦ none ]
  ]
]

-- Digits before the point beyond `p - s` overflow, digits after the point beyond `s` are rounded.
abbrev pub FitsNumeric : List ℕ → ℕ → ℕ → Type 0
FitsNumeric [] i f = Unit
FitsNumeric (p ∷ []) i f = (i ≤ p) × (f ≤ 0)
FitsNumeric (p ∷ s ∷ ms) i f = (i + s ≤ p) × (f ≤ s)

abbrev pub FitsWhole : List ℕ → ℕ → Type 0
FitsWhole [] n = Unit
FitsWhole (p ∷ []) n = n < 10 ^ p
FitsWhole (p ∷ s ∷ ms) n = n < 10 ^ (p - s)

-- A time keeps six digits of fractional seconds unless it is declared with fewer.
abbrev pub FitsSeconds : List ℕ → ℕ → Type 0
FitsSeconds [] n = n ≤ 6
FitsSeconds (m ∷ ms) n = n ≤ m

abbrev pub FitsInt : ℕ → Bool → ℕ → Type 0
FitsInt w false n = n < 2 ^ (w - 1)
FitsInt w true n = n ≤ 2 ^ (w - 1)

-- The significand of a float of 32 bits has 24, of a double 53.
abbrev pub significand : PgType → ℕ
significand p = if one_of ("real" ∷ "float4" ∷ []) p.base then 24 else 53

abbrev pub FitsText : Option ℕ → Value → Type 0
FitsText none v = Unit
FitsText (some l) (characters n) = n ≤ l
FitsText (some l) _ = ⊥

abbrev pub IsPlain : Family → Value → Type 0
IsPlain f (plain g) = same_family g f ≡ true
IsPlain f _ = ⊥

abbrev pub IsInstant : Family → PgType → Value → Type 0
IsInstant f p (instant g n) = (same_family g f ≡ true) × FitsSeconds p.mods n
IsInstant f p _ = ⊥

abbrev pub HoldsIn : Family → PgType → Value → Type 0
HoldsIn Family.integer p (whole neg n) = FitsInt (int_bits p) neg n
HoldsIn Family.numeric p (whole neg n) = FitsWhole p.mods n
HoldsIn Family.numeric p (fraction i f) = FitsNumeric p.mods i f
HoldsIn Family.float p (floating b) = b ≤ significand p
HoldsIn Family.text p v = FitsText (real_limit p) v
HoldsIn Family.date p (day far) = Unit
HoldsIn Family.timestamp p (day far) = far ≡ false
HoldsIn Family.timestamp p v = IsInstant Family.timestamp p v
HoldsIn Family.timestamptz p v = IsInstant Family.timestamptz p v
HoldsIn Family.time p v = IsInstant Family.time p v
HoldsIn Family.timetz p v = IsInstant Family.timetz p v
HoldsIn Family.interval p v = IsInstant Family.interval p v
HoldsIn Family.json p document = Unit
HoldsIn Family.json p written = Unit
HoldsIn Family.jsonb p document = Unit
HoldsIn Family.boolean p v = IsPlain Family.boolean v
HoldsIn Family.uuid p v = IsPlain Family.uuid v
HoldsIn Family.bytea p v = IsPlain Family.bytea v
HoldsIn Family.other p (foreign b) = b ≡ p.base
HoldsIn _ p v = ⊥

abbrev pub Holds : PgType → Value → Type 0
Holds p v = HoldsIn (kind_of p) p v

-- The pairs that `classifyTypes` calls a widening and that lose values all the same: a target
-- `"char"`, a source `bpchar` without a length, a `numeric` with more digits in all but fewer
-- before the point, an `interval` of a lower precision, a `jsonb` for a `json`, which forgets how
-- the value was written, and a `timestamp` for a `date`, which ends earlier.
abbrev pub fewer_digits : List ℕ → List ℕ → Bool
fewer_digits [] t = false
fewer_digits (_ ∷ _) [] = false
fewer_digits (n ∷ ns) (m ∷ ms) =
    let (sp, ss) = precision_scale (n ∷ ns) in
    let (tp, ts) = precision_scale (m ∷ ms) in ltb (tp + ss) (sp + ts)

abbrev pub lossy_in : Family → Family → PgType → PgType → Bool
lossy_in Family.text Family.text s t =
    contains t.base (quoted_char ∷ []) || (one_of ("bpchar" ∷ []) s.base && is_empty s.mods)
lossy_in _ Family.text s t = contains t.base (quoted_char ∷ [])
lossy_in Family.numeric Family.numeric s t = fewer_digits s.mods t.mods
lossy_in Family.interval Family.interval s t = ltb (first_mod t 6) (first_mod s 6)
lossy_in Family.json Family.jsonb s t = true
lossy_in Family.date Family.timestamp s t = true
lossy_in _ _ s t = false

abbrev pub lossy : PgType → PgType → Bool
lossy s t = lossy_in (kind_of s) (kind_of t) s t

-- ===== src/Preflight/Compat.antt =====
-- internal/engine/postgres/typecompat.go: `classifyTypes`. The texts of the details are left out.
pub mod Values
mod TextLimits
pub mod Sound
use replicare.Base.{
  ℕ, Bool, true, false, ◌&&◌, Option, none, some, List, [], ◌∷◌, Bytes, bytes_eq, leb, ◌==◌,
  if◌then◌else◌,
}
use replicare.Preflight.TypeNames.{
  PgType, parse_type, first_mod, Family, family, int_width, float_width, text_limit,
  precision_scale, numeric_holds_integers, same_family,
}

pub data CompatLevel : Type 0 where
  identical widen risky incompatible : CompatLevel

-- `CompatLevel.OK` and `CompatLevel.Blocks`.
unfoldable pub permits : CompatLevel → Bool
permits identical = true
permits widen = true
permits _ = false

unfoldable pub blocks : CompatLevel → Bool
blocks incompatible = true
blocks _ = false

unfoldable pub widen_or_risky : Bool → CompatLevel
widen_or_risky fits = if fits then widen else risky

abbrev pub bounded_text : Family → Option ℕ → ℕ → CompatLevel
bounded_text Family.text (some sl) limit = if leb sl limit then widen else risky
bounded_text _ _ limit = risky

abbrev pub to_text : Option ℕ → Family → Option ℕ → CompatLevel
to_text none sf sl = widen
to_text (some limit) sf sl = bounded_text sf sl limit

unfoldable pub classify_to_text : PgType → PgType → CompatLevel
classify_to_text s t = to_text (text_limit t) (family s) (text_limit s)

abbrev pub compare_mods : List ℕ → List ℕ → CompatLevel
compare_mods s [] = widen
compare_mods [] (m ∷ ms) = risky
compare_mods (n ∷ ns) (m ∷ ms) =
    let (sp, ss) = precision_scale (n ∷ ns) in
    let (tp, ts) = precision_scale (m ∷ ms) in if leb sp tp && leb ss ts then widen else risky

unfoldable pub classify_numeric : PgType → PgType → CompatLevel
unfolding precision_scale
classify_numeric s t = compare_mods s.mods t.mods

unfoldable pub classify_precision : PgType → PgType → CompatLevel
classify_precision s t = if leb (first_mod s 6) (first_mod t 6) then widen else risky

unfoldable pub classify_same_family : Family → PgType → PgType → CompatLevel
unfolding classify_numeric classify_precision
classify_same_family Family.integer s t = if leb (int_width s) (int_width t) then widen else risky
classify_same_family Family.numeric s t = classify_numeric s t
classify_same_family Family.float s t = if leb (float_width s) (float_width t) then widen else risky
classify_same_family Family.timestamp s t = classify_precision s t
classify_same_family Family.timestamptz s t = classify_precision s t
classify_same_family Family.time s t = classify_precision s t
classify_same_family Family.timetz s t = classify_precision s t
classify_same_family Family.other s t = risky
classify_same_family _ s t = widen

-- The table of rules; `none` where it has no entry.
abbrev pub rule : Family → Family → PgType → Option CompatLevel
rule Family.integer Family.numeric t = some (widen_or_risky (numeric_holds_integers t))
rule Family.integer Family.float t = some risky
rule Family.numeric Family.integer t = some risky
rule Family.numeric Family.float t = some risky
rule Family.float Family.numeric t = some risky
rule Family.float Family.integer t = some risky
rule Family.date Family.timestamp t = some widen
rule Family.date Family.timestamptz t = some risky
rule Family.timestamp Family.timestamptz t = some risky
rule Family.timestamptz Family.timestamp t = some risky
rule Family.timestamp Family.date t = some risky
rule Family.timestamptz Family.date t = some risky
rule Family.time Family.timetz t = some risky
rule Family.timetz Family.time t = some risky
rule Family.json Family.jsonb t = some widen
rule Family.jsonb Family.json t = some widen
rule _ _ t = none

abbrev pub unruled : Family → Family → CompatLevel
unruled sf tf =
    if same_family sf Family.other
    then risky
    else if same_family tf Family.other
    then risky
    else incompatible

unfoldable pub classify_cross_family : Family → Family → PgType → CompatLevel
unfolding widen_or_risky
classify_cross_family sf tf t = elim (rule sf tf t) [ some level ↦ level | none ↦ unruled sf tf ]

abbrev pub classify_families : Family → Family → PgType → PgType → CompatLevel
classify_families sf tf s t =
    if same_family tf Family.text
    then classify_to_text s t
    else if same_family sf tf
    then classify_same_family sf s t
    else classify_cross_family sf tf t

-- Two parsed types whose names differ.
unfoldable pub classify_parsed : PgType → PgType → CompatLevel
unfolding classify_to_text classify_same_family classify_cross_family
classify_parsed s t = classify_families (family s) (family t) s t

unfoldable pub classify_types : Bytes → Bytes → CompatLevel
unfolding classify_parsed parse_type
classify_types src tgt =
    if src == tgt then identical else classify_parsed (parse_type src) (parse_type tgt)

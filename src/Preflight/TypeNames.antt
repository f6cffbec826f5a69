-- ===== src/Preflight/TypeNames.antt =====
-- internal/engine/postgres/typecompat.go: `parseType` and what is read off a parsed type. Type names
-- are ASCII. A declared length of -1, no limit, is `none`.
use replicare.Base.{
  ℕ, zero, suc, ◌+◌, ◌-◌, ◌*◌, ◌^◌, Bool, true, not, ◌&&◌, ◌||◌, Option, none, some, List, [], ◌∷◌,
  ◌++◌, map, Bytes, bytes_eq, codes, nat_beq, ltb, leb, contains, sym, ap, ◌∙◌, refl, ◌≡◌,
  nat_beq_iff, if◌then◌else◌,
}
use Prim.Native.String.{String}
use mathlib.Core.List.{reverse}

-- `unicode.IsSpace`, and `\s` of a regular expression, which leaves out the vertical tab.
abbrev pub is_space : ℕ → Bool
is_space c = nat_beq c 32 || (leb 9 c && leb c 13)

abbrev pub is_re_space : ℕ → Bool
is_re_space c = is_space c && not (nat_beq c 11)

abbrev pub is_digit : ℕ → Bool
is_digit c = leb b'0' c && leb c b'9'

unfoldable pub drop_spaces : Bytes → Bytes
drop_spaces [] = []
drop_spaces (c ∷ cs) = let rest = drop_spaces cs in if is_space c then rest else c ∷ cs

unfoldable pub trim_space : Bytes → Bytes
unfolding drop_spaces
trim_space s = reverse (drop_spaces (reverse (drop_spaces s)))

unfoldable pub to_lower : Bytes → Bytes
to_lower s = map (λ c. if leb b'A' c && leb c b'Z' then c + 32 else c) s

-- Where the regular expression `typeModRE` stands after the opening parenthesis.
pub data Scan : Type 0 where
  -- A number has to follow.
  number : Scan
  -- In a number, whose digits are in reverse order.
  digits : Bytes → Scan
  -- After a number.
  spaces : Scan

abbrev Match : Type 0
Match = Option (List Bytes × ℕ)

abbrev one_more : Match → Match
one_more none = none
one_more (some (groups, n)) = some (groups, suc n)

abbrev with_group : Bytes → Match → Match
with_group g none = none
with_group g (some (groups, n)) = some (reverse g ∷ groups, n)

-- The digit groups of the match, and the number of bytes up to its end.
unfoldable pub scan : Scan → Bytes → Match
scan st [] = none
scan number (c ∷ cs) =
    let more = scan number cs in
    let start = scan (digits (c ∷ [])) cs in
    one_more (if is_re_space c then more else if is_digit c then start else none)
scan (digits g) (c ∷ cs) =
    let more = scan (digits (c ∷ g)) cs in
    let next = scan number cs in
    let wait = scan spaces cs in
    one_more (
      if is_digit c
      then more
      else with_group g (
          if nat_beq c b','
          then next
          else if nat_beq c b')'
          then some ([], 0)
          else if is_re_space c
          then wait
          else none))
scan spaces (c ∷ cs) =
    let next = scan number cs in
    let wait = scan spaces cs in
    one_more (
      if nat_beq c b','
      then next
      else if nat_beq c b')'
      then some ([], 0)
      else if is_re_space c
      then wait
      else none)

unfoldable pub match_here : Bytes → Match
unfolding scan
match_here [] = none
match_here (c ∷ cs) = if nat_beq c b'(' then one_more (scan number cs) else none

-- `FindStringSubmatch`: the groups of the first match.
unfoldable pub find_mods : Bytes → List Bytes
unfolding match_here
find_mods [] = []
find_mods (c ∷ cs) = elim (match_here (c ∷ cs)) [ none ↦ find_mods cs | some (groups, n) ↦ groups ]

-- `ReplaceAllString` by nothing; `skip` bytes of a match are left to drop.
unfoldable pub remove_mods : ℕ → Bytes → Bytes
unfolding match_here
remove_mods skip [] = []
remove_mods (suc skip) (c ∷ cs) = remove_mods skip cs
remove_mods zero (c ∷ cs) = elim (match_here (c ∷ cs)) [
  | none ↦ c ∷ remove_mods zero cs
  | some (groups, n) ↦ remove_mods (n - 1) cs
]

-- `strings.Fields`, from the bytes of the field at hand in reverse order.
abbrev push_field : Bytes → List Bytes → List Bytes
push_field [] fs = fs
push_field (c ∷ cs) fs = reverse (c ∷ cs) ∷ fs

unfoldable pub fields_from : Bytes → Bytes → List Bytes
fields_from word [] = push_field word []
fields_from word (c ∷ cs) =
    let next = fields_from [] cs in
    let more = fields_from (c ∷ word) cs in if is_space c then push_field word next else more

unfoldable pub join_fields : List Bytes → Bytes
join_fields [] = []
join_fields (f ∷ []) = f
join_fields (f ∷ g ∷ gs) = f ++ (32 ∷ join_fields (g ∷ gs))

abbrev value_from : ℕ → Bytes → ℕ
value_from n [] = n
value_from n (c ∷ cs) = value_from (n * 10 + (c - b'0')) cs

-- `strconv.Atoi` of digits: an error beyond the largest int.
unfoldable pub atoi : Bytes → Option ℕ
atoi s = let n = value_from 0 s in if ltb n (2 ^ 63) then some n else none

unfoldable pub numbers : List Bytes → List ℕ
unfolding atoi
numbers [] = []
numbers (g ∷ gs) = elim (atoi g) [ none ↦ numbers gs | some n ↦ n ∷ numbers gs ]

pub record PgType : Type 0 where
  pub base : Bytes
  pub mods : List ℕ

unfoldable pub parse_type : Bytes → PgType
unfolding to_lower trim_space find_mods numbers remove_mods fields_from join_fields
parse_type s =
    let low = to_lower (trim_space s) in
    record {
      base = join_fields (fields_from [] (trim_space (remove_mods 0 low)));
      mods = numbers (find_mods low);
    }

unfoldable pub first_mod : PgType → ℕ → ℕ
first_mod p other = elim p.mods [ [] ↦ other | m ∷ ms ↦ m ]

pub data Family : Type 0 where
  integer numeric float text boolean uuid date timestamp timestamptz : Family
  time timetz json jsonb bytea interval other : Family

-- Families as the numbers of their places, for the comparison of two.
abbrev place : Family → ℕ
place Family.integer = 0
place Family.numeric = 1
place Family.float = 2
place Family.text = 3
place Family.boolean = 4
place Family.uuid = 5
place Family.date = 6
place Family.timestamp = 7
place Family.timestamptz = 8
place Family.time = 9
place Family.timetz = 10
place Family.json = 11
place Family.jsonb = 12
place Family.bytea = 13
place Family.interval = 14
place Family.other = 15

abbrev pub same_family : Family → Family → Bool
same_family f g = nat_beq (place f) (place g)

abbrev in_place : ℕ → Family
in_place zero = integer
in_place (suc zero) = numeric
in_place (suc (suc zero)) = float
in_place (suc (suc (suc zero))) = text
in_place (suc (suc (suc (suc zero)))) = boolean
in_place (suc (suc (suc (suc (suc zero))))) = uuid
in_place (suc (suc (suc (suc (suc (suc zero)))))) = date
in_place (suc (suc (suc (suc (suc (suc (suc zero))))))) = timestamp
in_place (suc (suc (suc (suc (suc (suc (suc (suc zero)))))))) = timestamptz
in_place (suc (suc (suc (suc (suc (suc (suc (suc (suc zero))))))))) = time
in_place (suc (suc (suc (suc (suc (suc (suc (suc (suc (suc zero)))))))))) = timetz
in_place (suc (suc (suc (suc (suc (suc (suc (suc (suc (suc (suc zero))))))))))) = json
in_place (suc (suc (suc (suc (suc (suc (suc (suc (suc (suc (suc (suc zero)))))))))))) = jsonb
in_place (suc (suc (suc (suc (suc (suc (suc (suc (suc (suc (suc (suc (suc zero))))))))))))) = bytea
in_place (suc (suc (suc (suc (suc (suc (suc (suc (suc (suc (suc (suc (suc (suc zero)))))))))))))) =
    interval
in_place _ = other

in_place-place : (f : Family) → in_place (place f) ≡ f
in_place-place integer = refl
in_place-place numeric = refl
in_place-place float = refl
in_place-place text = refl
in_place-place boolean = refl
in_place-place uuid = refl
in_place-place date = refl
in_place-place timestamp = refl
in_place-place timestamptz = refl
in_place-place time = refl
in_place-place timetz = refl
in_place-place json = refl
in_place-place jsonb = refl
in_place-place bytea = refl
in_place-place interval = refl
in_place-place other = refl

pub same_family-eq : (f g : Family) → same_family f g ≡ true → f ≡ g
same_family-eq f g h =
    sym (in_place-place f) ∙ ap in_place ((nat_beq_iff (place f) (place g)).0 h) ∙ in_place-place g

abbrev pub one_of : List String → Bytes → Bool
one_of names b = contains b (map codes names)

-- The type `"char"`, with its quotes.
abbrev pub quoted_char : Bytes
quoted_char = b'"' ∷ (codes "char" ++ (b'"' ∷ []))

unfoldable pub family : PgType → Family
family p =
    if one_of ("smallint" ∷ "int2" ∷ "integer" ∷ "int" ∷ "int4" ∷ "bigint" ∷ "int8" ∷ []) p.base
    then integer
    else if one_of ("numeric" ∷ "decimal" ∷ []) p.base
    then numeric
    else if one_of ("real" ∷ "float4" ∷ "double precision" ∷ "float8" ∷ []) p.base
    then float
    else if one_of ("text" ∷ "character varying" ∷ "varchar" ∷ "character" ∷ "char" ∷ "bpchar" ∷ [])
          p.base
        || contains p.base (quoted_char ∷ [])
    then text
    else if one_of ("boolean" ∷ "bool" ∷ []) p.base
    then boolean
    else if one_of ("uuid" ∷ []) p.base
    then uuid
    else if one_of ("date" ∷ []) p.base
    then date
    else if one_of ("timestamp without time zone" ∷ "timestamp" ∷ []) p.base
    then timestamp
    else if one_of ("timestamp with time zone" ∷ "timestamptz" ∷ []) p.base
    then timestamptz
    else if one_of ("time without time zone" ∷ "time" ∷ []) p.base
    then time
    else if one_of ("time with time zone" ∷ "timetz" ∷ []) p.base
    then timetz
    else if one_of ("json" ∷ []) p.base
    then json
    else if one_of ("jsonb" ∷ []) p.base
    then jsonb
    else if one_of ("bytea" ∷ []) p.base
    then bytea
    else if one_of ("interval" ∷ []) p.base
    then interval
    else other

unfoldable pub int_width : PgType → ℕ
int_width p =
    if one_of ("smallint" ∷ "int2" ∷ []) p.base
    then 16
    else if one_of ("integer" ∷ "int" ∷ "int4" ∷ []) p.base
    then 32
    else if one_of ("bigint" ∷ "int8" ∷ []) p.base
    then 64
    else 0

unfoldable pub float_width : PgType → ℕ
float_width p =
    if one_of ("real" ∷ "float4" ∷ []) p.base
    then 32
    else if one_of ("double precision" ∷ "float8" ∷ []) p.base
    then 64
    else 0

unfoldable pub text_limit : PgType → Option ℕ
text_limit p =
    if one_of ("text" ∷ []) p.base
    then none
    else if one_of ("character varying" ∷ "varchar" ∷ []) p.base
    then elim p.mods [ [] ↦ none | m ∷ ms ↦ some m ]
    else if one_of ("character" ∷ "char" ∷ "bpchar" ∷ []) p.base
    then elim p.mods [ [] ↦ some 1 | m ∷ ms ↦ some m ]
    else none

-- Precision and scale of a type with modifiers.
unfoldable pub precision_scale : List ℕ → ℕ × ℕ
precision_scale [] = (0, 0)
precision_scale (p ∷ []) = (p, 0)
precision_scale (p ∷ s ∷ ms) = (p, s)

unfoldable pub holds_integers : List ℕ → Bool
unfolding precision_scale
holds_integers [] = true
holds_integers (m ∷ ms) =
    let (prec, scale) = precision_scale (m ∷ ms) in nat_beq scale 0 && leb 19 prec

unfoldable pub numeric_holds_integers : PgType → Bool
unfolding holds_integers
numeric_holds_integers p = holds_integers p.mods

-- ===== src/Preflight/Compat/TextLimits.antt =====
-- The length that `textLimit` of internal/engine/postgres/typecompat.go reads off a type, against
-- the length that the type has.
use Prim.Native.String.{String}
use replicare.Base.{
  ℕ, ◌≤◌, ◌≡◌, refl, Bool, true, false, ◌||◌, ◌&&◌, Option, none, some, [], ◌∷◌, Bytes, bytes_beq,
  bytes_beq_iff, bytes_eq, codes, contains, arith, subst,
}
use replicare.Preflight.TypeNames.{PgType, Family, family, quoted_char, text_limit}
use replicare.Preflight.Compat.{permits, bounded_text, to_text, classify_to_text}
use replicare.Preflight.Compat.Values.{
  Value, characters, is_empty, real_limit, FitsText, HoldsIn, lossy_in,
}

-- A text has one name.
distinct : (b x y : Bytes) → bytes_beq x y ≡ false → bytes_beq b x ≡ true → bytes_beq b y ≡ false
distinct b x y d h = let e : b ≡ x = (bytes_beq_iff b x).0 h in rw e d

module _ (p : PgType) where
  abbrev is_named : String → Bool
  is_named n = bytes_beq p.base (codes n)

  abbrev is_quoted : Bool
  is_quoted = bytes_beq p.base quoted_char

  text_names :
      family p ≡ Family.text
      → (is_named "text"
          || is_named "character varying"
          || is_named "varchar"
          || is_named "character"
          || is_named "char"
          || is_named "bpchar"
          || is_quoted)
        ≡ true
  unfolding family
  text_names h = ground arith

  -- A target without a limit for the code has none.
  unlimited : family p ≡ Family.text → is_quoted ≡ false → text_limit p ≡ none → real_limit p ≡ none
  unfolding text_limit
  unlimited f q h = ground (
    arith,
    text_names f,
    distinct p.base (codes "text") (codes "character") refl,
    distinct p.base (codes "text") (codes "char") refl,
    distinct p.base (codes "character varying") (codes "character") refl,
    distinct p.base (codes "character varying") (codes "char") refl,
    distinct p.base (codes "varchar") (codes "character") refl,
    distinct p.base (codes "varchar") (codes "char") refl,
  )

  -- A value within the limit of the code fits.
  within_limit :
      (l n : ℕ)
      → is_quoted ≡ false
      → text_limit p ≡ some l
      → n ≤ l
      → FitsText (real_limit p) (characters n)
  unfolding text_limit
  within_limit l n q h le = ground arith

  -- A source is as short as the code says.
  source_limit :
      (l : ℕ)
      → (is_named "bpchar" && is_empty p.mods) ≡ false
      → text_limit p ≡ some l
      → real_limit p ≡ some l
  unfolding text_limit
  source_limit l b h = ground (
    arith,
    distinct p.base (codes "character varying") quoted_char refl,
    distinct p.base (codes "varchar") quoted_char refl,
    distinct p.base (codes "character") quoted_char refl,
    distinct p.base (codes "char") quoted_char refl,
    distinct p.base (codes "bpchar") quoted_char refl,
  )

short : (o : Option ℕ) (l : ℕ) (v : Value) → o ≡ some l → FitsText o v → FitsText (some l) v
short o l v e f = subst (λ o. FitsText o v) e f

within :
    (t : PgType) (l m : ℕ) (v : Value)
    → contains t.base (quoted_char ∷ []) ≡ false
    → text_limit t ≡ some m
    → l ≤ m
    → FitsText (some l) v
    → FitsText (real_limit t) v
within t l m (characters n) q e le f = within_limit t m n (ground arith) e (omega arith)
within t l m v q e le f = elim f [ ]

bounded_sound :
    (s t : PgType) (m : ℕ) (o : Option ℕ) (v : Value)
    → text_limit t ≡ some m
    → text_limit s ≡ o
    → permits (bounded_text Family.text o m) ≡ true
    → lossy_in Family.text Family.text s t ≡ false
    → FitsText (real_limit s) v
    → FitsText (real_limit t) v
unfolding permits
bounded_sound s t m none v e d h l f = cc
bounded_sound s t m (some k) v e d h l f =
    within t k m v (ground arith) e (ground arith)
      (short _ k v (source_limit s k (ground arith) d) f)

limited :
    (sf : Family) (o : Option ℕ) (m : ℕ) → permits (bounded_text sf o m) ≡ true → sf ≡ Family.text
unfolding permits
limited Family.text o m h = refl
limited _ o m h = cc

not_quoted :
    (sf : Family) (s t : PgType)
    → lossy_in sf Family.text s t ≡ false
    → contains t.base (quoted_char ∷ []) ≡ false
not_quoted Family.text s t l = ground arith
not_quoted _ s t l = l

text_cases :
    (o : Option ℕ) (sf : Family) (s t : PgType)
    → text_limit t ≡ o
    → family t ≡ Family.text
    → permits (to_text o sf (text_limit s)) ≡ true
    → lossy_in sf Family.text s t ≡ false
    → (v : Value) → HoldsIn sf s v
    → HoldsIn Family.text t v
text_cases none sf s t n d h l v p = rw (unlimited t d (ground (arith, not_quoted sf s t l)) n) tt
text_cases (some m) sf s t k d h l v p =
    let f = limited sf (text_limit s) m h in
    bounded_sound s t m (text_limit s) v k refl (rw f at h) (rw f at l) (rw f at p)

pub text_sound :
    (sf : Family) (s t : PgType)
    → family s ≡ sf
    → family t ≡ Family.text
    → permits (classify_to_text s t) ≡ true
    → lossy_in sf Family.text s t ≡ false
    → (v : Value) → HoldsIn sf s v
    → HoldsIn Family.text t v
unfolding classify_to_text
text_sound sf s t e d h l v p =
    text_cases (text_limit t) sf s t refl d
      (subst (λ f. permits (to_text (text_limit t) f (text_limit s)) ≡ true) e h) l v p

-- ===== src/Redis/Framing/RoundTrip.antt =====
-- What is written is read back.
use replicare.Base.{
  ℕ, zero, suc, ◌+◌, ◌*◌, ◌/◌, ◌%◌, ◌^◌, ◌<◌, ◌≡◌, refl, sym, subst, ap, ◌∙◌, inl, inr, arith, Bool,
  true, false, some, List, [], ◌∷◌, ◌++◌, Bytes, nat_beq, length, length-append, if◌then◌else◌,
  Bool-cases, All,
}
use replicare.Redis.Clock.{Version}
use replicare.Redis.Framing.{
  Record, flag_mesh, flag_deleted, has_flag, put, get_from, put_version, write_record, read_full,
  Read, got, or_truncated, with_bytes, with_word, no_version, read_version, read_body, read_record,
  read_all, read_on, with_record, write_all,
}

abbrev fits : ℕ → ℕ → Bool
fits zero v = nat_beq v 0
fits (suc n) v = fits n (v / 256)

get_from-append :
    (acc : ℕ) (xs ys : Bytes) → get_from acc (xs ++ ys) ≡ get_from (get_from acc xs) ys
unfolding get_from
get_from-append acc [] ys = refl
get_from-append acc (x ∷ xs) ys = get_from-append (acc * 256 + x) xs ys

get-put : (n v : ℕ) → fits n v ≡ true → get_from 0 (put n v) ≡ v
unfolding put get_from
get-put zero v h = ground arith
get-put (suc n) v h =
    rw (get_from-append 0 (put n (v / 256)) (v % 256 ∷ []), get-put n (v / 256) h) (omega arith)

length-put : (n v : ℕ) → length (put n v) ≡ n
unfolding put
length-put zero v = refl
length-put (suc n) v =
    omega (arith, length-put n (v / 256), length-append (put n (v / 256)) (v % 256 ∷ []))

read_full-append : (xs rest : Bytes) → read_full (length xs) (xs ++ rest) ≡ some (xs, rest)
unfolding read_full
read_full-append [] rest = refl
read_full-append (x ∷ xs) rest = rw (read_full-append xs rest) refl

read_bytes :
    (n : ℕ) (xs rest : Bytes) (next : Bytes → Bytes → Read)
    → length xs ≡ n
    → with_bytes n (xs ++ rest) next ≡ next xs rest
unfolding with_bytes
read_bytes n xs rest next e =
    subst (λ m. with_bytes m (xs ++ rest) next ≡ next xs rest) e
      (ap (λ o. or_truncated o next) (read_full-append xs rest))

read_word :
    (n v : ℕ) (rest : Bytes) (next : ℕ → Bytes → Read)
    → fits n v ≡ true
    → with_word n (put n v ++ rest) next ≡ next v rest
unfolding with_word
read_word n v rest next h = rw (read_bytes n (put n v) rest _ (length-put n v), get-put n v h) refl

fits_flags : (f : ℕ) → f < 256 → fits 1 f ≡ true
fits_flags f h = ground arith

fits_length : (n : ℕ) → n < 2 ^ 32 → (fits 4 (n % 2 ^ 32) ≡ true) × (n % 2 ^ 32 ≡ n)
fits_length n h = (ground arith, omega arith)

fits_node : (n : ℕ) → n < 2 ^ 16 → (fits 2 (n % 2 ^ 16) ≡ true) × (n % 2 ^ 16 ≡ n)
fits_node n h = (ground arith, omega arith)

fits64 : (v : ℕ) → v < 2 ^ 64 → fits 8 v ≡ true
fits64 v h = ground arith

fits32 : (v : ℕ) → v < 2 ^ 32 → fits 4 v ≡ true
fits32 v h = ground arith

-- A record that fits its length prefixes, with its version as the flags say.
pub record IsFramed (r : Record) : Type 0 where
  pub key : length r.key < 2 ^ 32
  pub ttl : r.ttl < 2 ^ 64
  pub flags : r.flags < 256
  pub dump : length r.dump < 2 ^ 32
  pub plain : has_flag r.flags flag_mesh ≡ false → r.ver ≡ no_version
  pub deleted : has_flag r.flags flag_mesh ≡ true → r.ver.deleted ≡ has_flag r.flags flag_deleted
  pub phys : r.ver.phys < 2 ^ 64
  pub log : r.ver.log < 2 ^ 32
  pub vhash : r.ver.vhash < 2 ^ 64
  pub node : length r.ver.node < 2 ^ 16

-- Bytes after bytes.
append_assoc : (xs ys zs : Bytes) → (xs ++ ys) ++ zs ≡ xs ++ (ys ++ zs)
append_assoc [] ys zs = refl
append_assoc (x ∷ xs) ys zs = ap (λ l. x ∷ l) (append_assoc xs ys zs)

abbrev in_order : Version → Bytes → Bytes
in_order v rest =
    put 8 v.phys
    ++ (put 4 v.log ++ (put 8 v.vhash ++ (put 2 (length v.node % 2 ^ 16) ++ (v.node ++ rest))))

put_version-append : (v : Version) (rest : Bytes) → put_version v ++ rest ≡ in_order v rest
put_version-append v rest =
    rw
      (
        append_assoc (put 8 v.phys) _ rest,
        append_assoc (put 4 v.log) _ rest,
        append_assoc (put 8 v.vhash) _ rest,
        append_assoc (put 2 (length v.node % 2 ^ 16)) v.node rest,
      )
      refl

read_put_version :
    (r : Record) (rest : Bytes) (next : Version → Bytes → Read)
    → IsFramed r
    → read_version r.flags
        ((if has_flag r.flags flag_mesh then put_version r.ver else []) ++ rest)
        next
      ≡ next r.ver rest
unfolding read_version
read_put_version r rest next h = elim (Bool-cases (has_flag r.flags flag_mesh)) [
  | inr p ↦ rw (p, h.plain p) refl
  | inl p ↦
      let v = r.ver in
      rw (p, put_version-append v rest)
        (read_word 8 v.phys _ _ (fits64 v.phys h.phys)
          ∙ read_word 4 v.log _ _ (fits32 v.log h.log)
          ∙ read_word 8 v.vhash _ _ (fits64 v.vhash h.vhash)
          ∙ read_word 2 (length v.node % 2 ^ 16) _ _ (fits_node (length v.node) h.node).0
          ∙ read_bytes (length v.node % 2 ^ 16) v.node rest _
              (sym (fits_node (length v.node) h.node).1)
          ∙ ap (λ d. next (record v { deleted = d }) rest) (sym (h.deleted p)))
]

abbrev body_of : Record → Bytes → Bytes
body_of r rest =
    r.key
    ++ (put 8 r.ttl
        ++ (put 1 r.flags
            ++ ((if has_flag r.flags flag_mesh then put_version r.ver else [])
                ++ (put 4 (length r.dump % 2 ^ 32) ++ (r.dump ++ rest)))))

put_flags : (f : ℕ) (xs : Bytes) → f < 256 → f ∷ xs ≡ put 1 f ++ xs
unfolding put
put_flags f xs h = ap (λ b. b ∷ xs) (omega (arith, h))

write_record-append :
    (r : Record) (rest : Bytes)
    → r.flags < 256
    → write_record r ++ rest ≡ put 4 (length r.key % 2 ^ 32) ++ body_of r rest
unfolding write_record
write_record-append r rest h =
    rw
      (
        append_assoc (put 4 (length r.key % 2 ^ 32)) _ rest,
        append_assoc r.key _ rest,
        append_assoc (put 8 r.ttl) _ rest,
        append_assoc (if has_flag r.flags flag_mesh then put_version r.ver else []) _ rest,
        append_assoc (put 4 (length r.dump % 2 ^ 32)) r.dump rest,
        put_flags r.flags _ h,
      )
      refl

read_put_body :
    (r : Record) (rest : Bytes)
    → IsFramed r
    → read_body (length r.key % 2 ^ 32) (body_of r rest) ≡ got r rest
unfolding read_body
read_put_body r rest h =
    read_bytes (length r.key % 2 ^ 32) r.key _ _ (sym (fits_length (length r.key) h.key).1)
    ∙ read_word 8 r.ttl _ _ (fits64 r.ttl h.ttl)
    ∙ read_word 1 r.flags _ _ (fits_flags r.flags h.flags)
    ∙ read_put_version r _ _ h
    ∙ read_word 4 (length r.dump % 2 ^ 32) _ _ (fits_length (length r.dump) h.dump).0
    ∙ read_bytes (length r.dump % 2 ^ 32) r.dump rest _ (sym (fits_length (length r.dump) h.dump).1)

starts_with_word :
    (v : ℕ) (rest : Bytes) → read_record (put 4 v ++ rest) ≡ with_word 4 (put 4 v ++ rest) read_body
unfolding read_record put
starts_with_word v rest = refl

read_write :
    (r : Record) (rest : Bytes) → IsFramed r → read_record (write_record r ++ rest) ≡ got r rest
read_write r rest h =
    ap read_record (write_record-append r rest h.flags)
    ∙ starts_with_word (length r.key % 2 ^ 32) (body_of r rest)
    ∙ read_word 4 (length r.key % 2 ^ 32) (body_of r rest) read_body
        (fits_length (length r.key) h.key).0
    ∙ read_put_body r rest h

-- A stream of framed records, mesh or plain, is read back as those records, and its end as a clean
-- end; one more step than there are records is enough.
pub read_all-write_all :
    (rs : List Record) → All IsFramed rs → read_all (suc (length rs)) (write_all rs) ≡ some rs
unfolding read_all
read_all-write_all [] h = unfold read_record in refl
read_all-write_all (r ∷ rs) h =
    ap (λ o. read_on o (read_all (suc (length rs)))) (read_write r (write_all rs) h.0)
    ∙ ap (with_record r) (read_all-write_all rs h.1)

-- ===== src/Redis/Framing.antt =====
-- internal/engine/redis/framing.go: the length-prefixed records that carry a key from a source to a
-- target, with or without its mesh version. A stream is the list of its bytes; an int64 or int32 is
-- its bit pattern.
pub mod RoundTrip
use replicare.Base.{
  ℕ, zero, suc, ◌+◌, ◌*◌, ◌/◌, ◌%◌, ◌^◌, Bool, true, false, Option, none, some, List, [], ◌∷◌, ◌++◌,
  Bytes, nat_beq, length, if◌then◌else◌,
}
use replicare.Redis.Clock.{Version}

pub record Record : Type 0 where
  pub key : Bytes
  pub ttl : ℕ
  pub flags : ℕ
  pub dump : Bytes
  pub ver : Version

abbrev pub flag_abs_ttl : ℕ
flag_abs_ttl = 1

abbrev pub flag_mesh : ℕ
flag_mesh = 2

abbrev pub flag_deleted : ℕ
flag_deleted = 4

-- `flags & flag != 0` for a flag of one bit.
abbrev pub has_flag : ℕ → ℕ → Bool
has_flag flags flag = nat_beq (flags / flag % 2) 1

-- Big-endian words of `n` bytes.
unfoldable pub put : ℕ → ℕ → Bytes
put zero v = []
put (suc n) v = put n (v / 256) ++ (v % 256 ∷ [])

unfoldable pub get_from : ℕ → Bytes → ℕ
get_from acc [] = acc
get_from acc (b ∷ bs) = get_from (acc * 256 + b) bs

-- The version register between the flags and the dump.
abbrev pub put_version : Version → Bytes
put_version v =
    put 8 v.phys ++ (put 4 v.log ++ (put 8 v.vhash ++ (put 2 (length v.node % 2 ^ 16) ++ v.node)))

unfoldable pub write_record : Record → Bytes
unfolding put
write_record r =
    put 4 (length r.key % 2 ^ 32)
    ++ (r.key
        ++ (put 8 r.ttl
            ++ (r.flags
                ∷ ((if has_flag r.flags flag_mesh then put_version r.ver else [])
                    ++ (put 4 (length r.dump % 2 ^ 32) ++ r.dump)))))

-- `io.ReadFull` of `n` bytes; `none` if the stream is shorter.
unfoldable pub read_full : ℕ → Bytes → Option (Bytes × Bytes)
read_full zero bs = some ([], bs)
read_full (suc n) [] = none
read_full (suc n) (b ∷ bs) = elim (read_full n bs) [
  | none ↦ none
  | some (xs, rest) ↦ some (b ∷ xs, rest)
]

pub data Read : Type 0 where
  got : Record → Bytes → Read
  end_of_stream truncated : Read

abbrev pub or_truncated : Option (Bytes × Bytes) → (Bytes → Bytes → Read) → Read
or_truncated none next = truncated
or_truncated (some (xs, rest)) next = next xs rest

-- Some bytes of a record, or the record is truncated.
unfoldable pub with_bytes : ℕ → Bytes → (Bytes → Bytes → Read) → Read
unfolding read_full
with_bytes n bs next = or_truncated (read_full n bs) next

unfoldable pub with_word : ℕ → Bytes → (ℕ → Bytes → Read) → Read
with_word n bs next = with_bytes n bs (λ xs rest. next (get_from 0 xs) rest)

abbrev pub no_version : Version
no_version = record { phys = 0; log = 0; node = []; deleted = false; vhash = 0 }

unfoldable pub read_version : ℕ → Bytes → (Version → Bytes → Read) → Read
read_version flags bs next =
    if has_flag flags flag_mesh
    then with_word 8 bs (λ phys bs. with_word 4 bs (λ log bs. with_word 8 bs (λ vhash bs.
      with_word 2 bs (λ n bs. with_bytes n bs (λ node bs.
        next
          (record {
            phys = phys;
            log = log;
            node = node;
            deleted = has_flag flags flag_deleted;
            vhash = vhash;
          })
          bs)))))
    else next no_version bs

-- The record after the length of its key.
unfoldable pub read_body : ℕ → Bytes → Read
read_body key_len bs = with_bytes key_len bs (λ key bs. with_word 8 bs (λ ttl bs.
    with_word 1 bs (λ flags bs. read_version flags bs (λ ver bs. with_word 4 bs (λ n bs.
      with_bytes n bs (λ dump bs.
        got (record { key = key; ttl = ttl; flags = flags; dump = dump; ver = ver }) bs))))))

unfoldable pub read_record : Bytes → Read
read_record [] = end_of_stream
read_record (b ∷ bs) = with_word 4 (b ∷ bs) read_body

abbrev pub with_record : Record → Option (List Record) → Option (List Record)
with_record r none = none
with_record r (some rs) = some (r ∷ rs)

abbrev pub read_on : Read → (Bytes → Option (List Record)) → Option (List Record)
read_on (got r rest) next = with_record r (next rest)
read_on end_of_stream next = some []
read_on truncated next = none

-- The reader's loop of the snapshot copy, to the end of the stream; `none` is a truncated record. `fuel` bounds the records.
unfoldable pub read_all : ℕ → Bytes → Option (List Record)
read_all zero bs = none
read_all (suc fuel) bs = read_on (read_record bs) (read_all fuel)

abbrev pub write_all : List Record → Bytes
write_all [] = []
write_all (r ∷ rs) = write_record r ++ write_all rs

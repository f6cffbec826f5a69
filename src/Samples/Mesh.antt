-- ===== src/Samples/Mesh.antt =====
-- Two members of a Redis mesh.
use replicare.Base.{
  ℕ, ◌≡◌, refl, sym, ◌∙◌, ◌⊎◌, inl, inr, arith, Bool, true, false, none, some, [], ◌∷◌, Bytes,
  codes, bytes_lt, bytes_lt_irrefl, bytes_lt_trans, bytes_lt_total, gt64, gt32,
}
use replicare.Redis.Clock.{
  Version, beats, hlc_tick, hlc_observe, is_after, hlc_tick-after, hlc_observe-after, beats_total,
}
use replicare.Redis.Framing.{Record, write_all, read_all, no_version}
use replicare.Redis.Framing.RoundTrip.{IsFramed, read_all-write_all}
use replicare.Redis.Register.{Store, stage_upsert_cluster, swap}
use replicare.Redis.Script.{IsCollation, script_beats, to_number, to_double, unit_of, round_to}
use replicare.Redis.Converge.{IsHistory, stage_upsert_cluster-converges}

abbrev version : ℕ → ℕ → Bytes → Bool → Version
version phys log node deleted = record {
  phys = phys;
  log = log;
  node = node;
  deleted = deleted;
  vhash = 77;
}

abbrev set_east : Record
set_east = record {
  key = codes "k";
  ttl = 0;
  flags = 2;
  dump = 1 ∷ 2 ∷ [];
  ver = version 1000 0 (codes "east") false;
}

abbrev delete_west : Record
delete_west = record {
  key = codes "k";
  ttl = 0;
  flags = 6;
  dump = [];
  ver = version 1000 1 (codes "west") true;
}

abbrev plain : Record
plain = record { key = codes "k"; ttl = 5000; flags = 0; dump = 255 ∷ []; ver = no_version }

set_east-IsFramed : IsFramed set_east
set_east-IsFramed = record {
  key = omega arith;
  ttl = omega arith;
  flags = omega arith;
  dump = omega arith;
  plain = λ h. absurd (cc);
  deleted = λ h. refl;
  phys = omega arith;
  log = omega arith;
  vhash = omega arith;
  node = omega arith;
}

plain-IsFramed : IsFramed plain
plain-IsFramed = record {
  key = omega arith;
  ttl = omega arith;
  flags = omega arith;
  dump = omega arith;
  plain = λ h. refl;
  deleted = λ h. refl;
  phys = omega arith;
  log = omega arith;
  vhash = omega arith;
  node = omega arith;
}

read_all-write_all_example :
    read_all 3 (write_all (set_east ∷ plain ∷ [])) ≡ some (set_east ∷ plain ∷ [])
read_all-write_all_example =
    read_all-write_all (set_east ∷ plain ∷ []) (set_east-IsFramed, (plain-IsFramed, tt))

hlc_tick-after_example : is_after (hlc_tick 900 1000 7) (1000, 7) ≡ true
hlc_tick-after_example = hlc_tick-after 900 1000 7 (omega arith) (inr refl)

hlc_observe-after_example :
    (is_after (hlc_observe 900 1000 7 1000 9) (1000, 7) ≡ true)
    × (is_after (hlc_observe 900 1000 7 1000 9) (1000, 9) ≡ true)
hlc_observe-after_example =
    hlc_observe-after 900 1000 7 1000 9 (omega arith, omega arith) (omega arith, omega arith)
      (omega arith) refl refl

-- At the largest int32 the counter wraps to the smallest, and the clock runs backwards.
tick_wraps : is_after (hlc_tick 900 1000 2147483647) (1000, 2147483647) ≡ false
unfolding hlc_tick gt64 gt32
tick_wraps = refl

beats_total_example :
    (beats set_east.ver set_east.ver true ≡ false)
    × (beats set_east.ver delete_west.ver true ≡ true
        → beats delete_west.ver set_east.ver true ≡ true
        → beats set_east.ver set_east.ver true ≡ true)
    × (beats set_east.ver delete_west.ver true ≡ false
        → beats delete_west.ver set_east.ver true ≡ false
        → (set_east.ver.phys ≡ delete_west.ver.phys)
          × (set_east.ver.log ≡ delete_west.ver.log)
          × (set_east.ver.node ≡ delete_west.ver.node))
beats_total_example =
    beats_total set_east.ver delete_west.ver set_east.ver (omega arith, omega arith)
      (omega arith, omega arith)

abbrev Sent : Record → Type 0
Sent r = (r ≡ set_east) ⊎ (r ≡ delete_west)

Sent-IsHistory : IsHistory Sent
Sent-IsHistory = record {
  exact = λ r p. elim p [
    | inl e ↦ rw e (omega arith, omega arith)
    | inr e ↦ rw e (omega arith, omega arith)
  ];
  agree = λ r s p q k (a, b, c). elim p [
    | inl e ↦ elim q [ inl f ↦ e ∙ sym f | inr f ↦ absurd (omega (arith, rw (e, f) at b)) ]
    | inr e ↦ elim q [ inl f ↦ absurd (omega (arith, rw (e, f) at b)) | inr f ↦ e ∙ sym f ]
  ];
}

abbrev empty : Store
empty k = record { meta = none; value = none }

-- As the C locale orders strings.
abbrev bytes_gt : Bytes → Bytes → Bool
bytes_gt a b = bytes_lt b a

bytes_gt-IsCollation : IsCollation bytes_gt
bytes_gt-IsCollation = record {
  irrefl = bytes_lt_irrefl;
  trans = λ a b c p q. bytes_lt_trans c b a q p;
  total = λ a b p q. bytes_lt_total a b q p;
}

-- Two times that differ by one, and that a double does not tell apart.
big_times_tie :
    script_beats bytes_gt
      (version 9007199254740993 0 (codes "east") false)
      (version 9007199254740992 0 (codes "east") false)
    ≡ false
unfolding script_beats to_number to_double unit_of round_to bytes_lt
big_times_tie = refl

big_times_beat :
    beats
      (version 9007199254740993 0 (codes "east") false)
      (version 9007199254740992 0 (codes "east") false)
      true
    ≡ true
unfolding beats gt64
big_times_beat = refl

stage_upsert_cluster-converges_example :
    ((stage_upsert_cluster bytes_gt (set_east ∷ delete_west ∷ []) empty).0
      ≡ (stage_upsert_cluster bytes_gt (delete_west ∷ set_east ∷ []) empty).0)
    × ((stage_upsert_cluster bytes_gt (set_east ∷ delete_west ∷ []) empty).1 (codes "k")
        ≡ (stage_upsert_cluster bytes_gt (delete_west ∷ set_east ∷ []) empty).1 (codes "k"))
stage_upsert_cluster-converges_example =
    stage_upsert_cluster-converges bytes_gt bytes_gt-IsCollation Sent Sent-IsHistory
      (set_east ∷ delete_west ∷ []) (delete_west ∷ set_east ∷ []) empty swap (refl, (refl, tt))
      (inl refl, (inr refl, tt)) (λ k. inl refl) (codes "k")

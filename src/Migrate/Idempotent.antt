-- ===== src/Migrate/Idempotent.antt =====
-- Applying migrations again does nothing, and a run that was cut short is taken up where it stopped.
use replicare.Base.{
  ℕ, suc, ◌+◌, ◌≤◌, ◌<◌, ◌≡◌, refl, ap, ◌∙◌, inl, inr, arith, true, false, Option, none, List, [],
  ◌∷◌, ◌++◌, Bytes, ltb, nat_beq, nat_eq, length, Bool-cases,
}
use replicare.Migrate.{
  Migration, MigrationSet, sorted, Invalid, lacks, unless_unnamed, validate_from, validate, newer,
  Database, take_fault, in_tx, run_migrations, apply,
}

-- A valid list of migrations, sorted, has the versions from `want` on.
abbrev Counts : ℕ → List Migration → Type 0
Counts want [] = Unit
Counts want (m ∷ ms) = (m.version ≡ want) × Counts (suc want) ms

lacks-none :
    (name : Bytes) (statements : List Bytes) (v : ℕ) (rest : Option Invalid)
    → lacks name statements v rest ≡ none
    → rest ≡ none
lacks-none [] statements v rest h = ground arith
lacks-none (c ∷ cs) [] v rest h = ground arith
lacks-none (c ∷ cs) (s ∷ ss) v rest h = h

named_none :
    (table : Bytes) (rest : Option Invalid) → unless_unnamed table rest ≡ none → rest ≡ none
named_none [] rest h = ground arith
named_none (c ∷ cs) rest h = h

validate_from-Counts :
    (want : ℕ) (ms : List Migration) → validate_from want ms ≡ none → Counts want ms
unfolding validate_from
validate_from-Counts want [] h = tt
validate_from-Counts want (m ∷ ms) h = elim (Bool-cases (nat_beq m.version want)) [
  | inl p ↦ (
    (nat_eq.beq_iff m.version want).0 p,
    validate_from-Counts (suc want) ms (lacks-none m.name m.statements m.version _ (rw p at h)),
  )
  | inr p ↦ absurd (ground (arith, rw p at h))
]

validate-Counts : (s : MigrationSet) → validate s ≡ none → Counts 1 (sorted s)
unfolding validate
validate-Counts s h = validate_from-Counts 1 (sorted s) (named_none s.version_table _ h)

newer-all : (n want : ℕ) (ms : List Migration) → Counts want ms → n < want → newer n ms ≡ ms
unfolding newer
newer-all n want [] c h = refl
newer-all n want (m ∷ ms) c h = ground (arith, c.0, newer-all n (suc want) ms c.1)

newer-skip :
    (n : ℕ) (m : Migration) (ms : List Migration) → m.version ≤ n → newer n (m ∷ ms) ≡ newer n ms
unfolding newer
newer-skip n m ms h = ground arith

abbrev pub fresh : Database → Database
fresh db = record db { faults = [] }

-- A transaction that fails, and one that succeeds.
run_fail :
    (m : Migration) (ms : List Migration) (db : Database)
    → (take_fault db.faults).0 ≡ true
    → (run_migrations (m ∷ ms) db).1 ≡ record db { faults = (take_fault db.faults).1 }
unfolding run_migrations in_tx
run_fail m ms db p = rw p refl

abbrev step : Migration → Database → Database
step m db = record {
  executed = db.executed ++ m.statements;
  version = m.version;
  faults = (take_fault db.faults).1;
}

run_done :
    (m : Migration) (ms : List Migration) (db : Database)
    → (take_fault db.faults).0 ≡ false
    → (run_migrations (m ∷ ms) db).1 ≡ (run_migrations ms (step m db)).1
unfolding run_migrations in_tx
run_done m ms db p = rw p refl

run_version :
    (ms : List Migration) (want : ℕ) (db : Database)
    → Counts want ms
    → suc db.version ≡ want
    → db.version ≤ (run_migrations ms db).1.version
run_version [] want db c h = unfold run_migrations in omega arith
run_version (m ∷ ms) want db c h = elim (Bool-cases (take_fault db.faults).0) [
  | inl p ↦ rw (run_fail m ms db p) (omega arith)
  | inr p ↦
      let k = run_version ms (suc want) (step m db) c.1 (ap suc c.0) in
      rw (run_done m ms db p) (omega (arith, k, c.0, h))
]

-- Taken up after a failure, the run ends where an undisturbed one does.
resume :
    (ms : List Migration) (want : ℕ) (db : Database)
    → Counts want ms
    → suc db.version ≡ want
    → (run_migrations
        (newer (run_migrations ms db).1.version ms)
        (fresh (run_migrations ms db).1)).1
      ≡ (run_migrations ms (fresh db)).1
resume [] want db c h = unfold newer run_migrations in refl
resume (m ∷ ms) want db c h = elim (Bool-cases (take_fault db.faults).0) [
  | inl p ↦ rw (run_fail m ms db p, newer-all db.version want (m ∷ ms) c (omega (arith, h))) refl
  | inr p ↦
      let k = run_version ms (suc want) (step m db) c.1 (ap suc c.0) in
      let v = (run_migrations ms (step m db)).1.version in
      rw (run_done m ms db p, newer-skip v m ms (omega (arith, k)), run_done m ms (fresh db) refl)
        (resume ms (suc want) (step m db) c.1 (ap suc c.0))
]

abbrev upgraded : List Migration → Database → Database
upgraded ms db = (run_migrations (newer db.version ms) db).1

upgraded-run :
    (ms : List Migration) (want : ℕ) (db : Database)
    → Counts want ms
    → suc db.version ≡ want
    → upgraded ms db ≡ (run_migrations ms db).1
upgraded-run ms want db c h =
    ap (λ xs. (run_migrations xs db).1) (newer-all db.version want ms c (omega (arith, h)))

upgraded-skip :
    (m : Migration) (ms : List Migration) (db : Database)
    → m.version ≤ db.version
    → upgraded (m ∷ ms) db ≡ upgraded ms db
upgraded-skip m ms db h = ap (λ xs. (run_migrations xs db).1) (newer-skip db.version m ms h)

upgraded_version :
    (ms : List Migration) (want : ℕ) (db : Database)
    → Counts want ms
    → want ≤ suc db.version
    → db.version ≤ (upgraded ms db).version
upgraded_version [] want db c h = unfold newer run_migrations in omega arith
upgraded_version (m ∷ ms) want db c h = elim (Bool-cases (ltb db.version m.version)) [
  | inl p ↦
      let e : suc db.version ≡ want = ground (arith, p, c.0) in
      rw (upgraded-run (m ∷ ms) want db c e) (run_version (m ∷ ms) want db c e)
  | inr p ↦
      rw (upgraded-skip m ms db (ground (arith, p)))
        (upgraded_version ms (suc want) db c.1 (ground (arith, p, c.0)))
]

upgraded_again :
    (ms : List Migration) (want : ℕ) (db : Database)
    → Counts want ms
    → want ≤ suc db.version
    → upgraded ms (fresh (upgraded ms db)) ≡ upgraded ms (fresh db)
upgraded_again [] want db c h = unfold newer run_migrations in refl
upgraded_again (m ∷ ms) want db c h = elim (Bool-cases (ltb db.version m.version)) [
  | inl p ↦
      let e : suc db.version ≡ want = ground (arith, p, c.0) in
      rw (upgraded-run (m ∷ ms) want db c e, upgraded-run (m ∷ ms) want (fresh db) c e)
        (resume (m ∷ ms) want db c e)
  | inr p ↦
      let le : m.version ≤ db.version = ground (arith, p) in
      let bound : suc want ≤ suc db.version = omega (arith, le, c.0) in
      let k = upgraded_version ms (suc want) db c.1 bound in
      rw
        (
          upgraded-skip m ms db le,
          upgraded-skip m ms (fresh (upgraded ms db)) (omega (arith, k, le)),
          upgraded-skip m ms (fresh db) le,
        )
        (upgraded_again ms (suc want) db c.1 bound)
]

-- Without faults every pending migration runs.
run_all :
    (ms : List Migration) (want : ℕ) (db : Database)
    → Counts want ms
    → suc db.version ≡ want
    → db.faults ≡ []
    → (run_migrations ms db).1.version ≡ db.version + length ms
run_all [] want db c h f = unfold run_migrations in omega arith
run_all (m ∷ ms) want db c h f =
    let none_fails : (take_fault db.faults).0 ≡ false = rw f refl in
    let left : (take_fault db.faults).1 ≡ [] = rw f refl in
    rw (run_done m ms db none_fails)
      (run_all ms (suc want) (step m db) c.1 (ap suc c.0) left ∙ omega (arith, c.0, h))

apply_world :
    (s : MigrationSet) (db : Database) → validate s ≡ none → (apply s db).1 ≡ upgraded (sorted s) db
unfolding apply
apply_world s db v = rw v refl

-- A valid set of migrations, applied again after a run that any transaction may have cut short,
-- leaves the database that one undisturbed run leaves: no statement runs twice and none is missed.
pub apply_again :
    (s : MigrationSet) (db : Database)
    → validate s ≡ none
    → (apply s (fresh (apply s db).1)).1 ≡ (apply s (fresh db)).1
apply_again s db v =
    rw
      (
        apply_world s db v,
        apply_world s (fresh db) v,
        apply_world s (fresh (upgraded (sorted s) db)) v,
      )
      (upgraded_again (sorted s) 1 db (validate-Counts s v) (omega arith))

-- A run of a valid set on an empty database, undisturbed, ends at the last version.
pub apply_all :
    (s : MigrationSet) (db : Database)
    → validate s ≡ none
    → db.version ≡ 0
    → (apply s (fresh db)).1.version ≡ length (sorted s)
apply_all s db v z =
    let c = validate-Counts s v in
    let start : suc db.version ≡ 1 = omega (arith, z) in
    rw (apply_world s (fresh db) v, upgraded-run (sorted s) 1 (fresh db) c start)
      (run_all (sorted s) 1 (fresh db) c start refl ∙ omega (arith, z))

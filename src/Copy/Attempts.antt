-- ===== src/Copy/Attempts.antt =====
-- internal/copy/copy.go, `copyChunkResilient`: a chunk is tried again while a connection is down.
use replicare.Base.{
  ◌<◌, ◌⊎◌, false, ℕ, zero, suc, ◌≡◌, refl, inl, inr, arith, Bool, true, not, ◌&&◌, ◌||◌, Option,
  none, some, List, [], ◌∷◌, if◌then◌else◌,
}
use replicare.Engine.{Error, other, Result, ok, err}

pub data LoadMode : Type 0 where
  load_direct load_merge : LoadMode

-- What a try meets: the copy's result, whether the context had ended then, the health of the two
-- ends after an error, and the error of a context that ends
-- during the wait.
pub record Try : Type 0 where
  pub result : Result ℕ
  pub cancelled : Bool
  pub source_down : Bool
  pub sink_down : Bool
  pub cancelled_in_wait : Option Error

-- How it ended, and the mode of every try, in order.
pub record Attempted : Type 0 where
  pub result : Result ℕ
  pub modes : List LoadMode

abbrev pub copy_chunk_max_attempts : ℕ
copy_chunk_max_attempts = 6

abbrev pub ends : Result ℕ → LoadMode → Attempted
ends r m = record { result = r; modes = m ∷ [] }

abbrev pub then_ : LoadMode → Attempted → Attempted
then_ m a = record a { modes = m ∷ a.modes }

abbrev pub after_wait : LoadMode → Option Error → Attempted → Attempted
after_wait m (some e) rest = ends (err e) m
after_wait m none rest = then_ m rest

abbrev pub after_try : LoadMode → Try → Result ℕ → Attempted → Attempted
after_try m t (ok n) rest = ends (ok n) m
after_try m t (err e) rest =
    if t.cancelled || not (t.source_down || t.sink_down)
    then ends (err e) m
    else after_wait m t.cancelled_in_wait rest

abbrev pub last_error : Error → Result ℕ → Error
last_error last (ok n) = last
last_error last (err e) = e

-- `left` tries may be made; what each meets comes from the world outside, the next one first.
unfoldable pub try_chunk : ℕ → (ℕ → Try) → LoadMode → Error → Attempted
try_chunk zero world m last = record { result = err last; modes = [] }
try_chunk (suc left) world m last =
    let e = last_error last (world 0).result in
    after_try m (world 0) (world 0).result (try_chunk left (λ i. world (suc i)) load_merge e)

unfoldable pub copy_chunk_resilient : (ℕ → Try) → LoadMode → Attempted
unfolding try_chunk
copy_chunk_resilient world mode = try_chunk copy_chunk_max_attempts world mode (other 0)

-- `resolveLoadMode`: `count` is what the target answers, `none` if it cannot be asked.
unfoldable pub resolve_load_mode : Option LoadMode → Option (Result ℕ) → LoadMode
resolve_load_mode (some forced) count = forced
resolve_load_mode none none = load_merge
resolve_load_mode none (some (err e)) = load_merge
resolve_load_mode none (some (ok zero)) = load_direct
resolve_load_mode none (some (ok (suc n))) = load_merge

-- After such a try there is another one, if one is left.
abbrev is_none : Option Error → Bool
is_none none = true
is_none (some e) = false

abbrev is_failed : Result ℕ → Bool
is_failed (ok n) = false
is_failed (err e) = true

abbrev pub goes_on : Try → Bool
goes_on t =
    is_failed t.result
    && (not t.cancelled && ((t.source_down || t.sink_down) && is_none t.cancelled_in_wait))

-- How a chunk ends with a try after which there is no other one.
abbrev or_cancelled : Bool → Option Error → Result ℕ → Result ℕ
or_cancelled false c r = r
or_cancelled true none r = r
or_cancelled true (some e) r = err e

abbrev pub outcome : Try → Result ℕ
outcome t =
    or_cancelled (is_failed t.result && (not t.cancelled && (t.source_down || t.sink_down)))
      t.cancelled_in_wait t.result

abbrev pub merges : ℕ → List LoadMode
merges zero = []
merges (suc k) = load_merge ∷ merges k

-- `k` tries go on, and the next one is the last of at most `n`.
abbrev pub Ran : ℕ → (ℕ → Try) → LoadMode → Attempted → Type 0
Ran n world m a =
    (k : ℕ) × (k < n)
    × (a.modes ≡ m ∷ merges k)
    × ((j : ℕ) → j < k → goes_on (world j) ≡ true)
    × (a.result ≡ outcome (world k))
    × ((goes_on (world k) ≡ false) ⊎ (suc k ≡ n))

failed-cases :
    (m : LoadMode) (x : Error) (c a b : Bool) (w : Option Error) (rest : Attempted)
    → ((not c && ((a || b) && is_none w)) ≡ true)
        × ((if c || not (a || b) then ends (err x) m else after_wait m w rest) ≡ then_ m rest)
      ⊎ ((not c && ((a || b) && is_none w)) ≡ false)
        × ((if c || not (a || b) then ends (err x) m else after_wait m w rest)
            ≡ ends (or_cancelled (not c && (a || b)) w (err x)) m)
failed-cases m x true a b w rest = inr (refl, refl)
failed-cases m x false false false w rest = inr (refl, refl)
failed-cases m x false false true none rest = inl (refl, refl)
failed-cases m x false false true (some e) rest = inr (refl, refl)
failed-cases m x false true b none rest = inl (refl, refl)
failed-cases m x false true b (some e) rest = inr (refl, refl)

-- What the source does with a try, by `goes_on` and `outcome`.
after_try-cases :
    (m : LoadMode) (t : Try) (r : Result ℕ) (rest : Attempted)
    → t.result ≡ r
    → (goes_on t ≡ true) × (after_try m t r rest ≡ then_ m rest)
      ⊎ (goes_on t ≡ false) × (after_try m t r rest ≡ ends (outcome t) m)
after_try-cases m t (ok n) rest e = inr (rw e refl, rw e refl)
after_try-cases m t (err x) rest e =
    rw e (failed-cases m x t.cancelled t.source_down t.sink_down t.cancelled_in_wait rest)

failed-outcome :
    (last : Error) (c d : Bool) (w : Option Error) (r : Result ℕ)
    → (is_failed r && (not c && (d && is_none w))) ≡ true
    → err (last_error last r) ≡ or_cancelled (is_failed r && (not c && d)) w r
failed-outcome last c d w (ok n) h = absurd (cc)
failed-outcome last c d none (err e) h = ground arith
failed-outcome last c d (some x) (err e) h = ground arith

later :
    (world : ℕ → Try) (k : ℕ)
    → goes_on (world 0) ≡ true
    → ((j : ℕ) → j < k → goes_on (world (suc j)) ≡ true)
    → (j : ℕ) → j < suc k
    → goes_on (world j) ≡ true
later world k h f zero lt = h
later world k h f (suc j) lt = f j (omega arith)

try_chunk-Ran :
    (left : ℕ) (world : ℕ → Try) (m : LoadMode) (last : Error)
    → Ran (suc left) world m (try_chunk (suc left) world m last)
unfolding try_chunk
try_chunk-Ran zero world m last =
    let t = world 0 in
    let x = last_error last t.result in
    elim (after_try-cases m t t.result (record { result = err x; modes = [] }) refl) [
      | inr (g, q) ↦ rw q (0, omega arith, refl, (λ j lt. absurd (omega arith)), refl, inl g)
      | inl (g, q) ↦ rw q (
        0,
        omega arith,
        refl,
        (λ j lt. absurd (omega arith)),
        failed-outcome last t.cancelled (t.source_down || t.sink_down) t.cancelled_in_wait t.result
            g,
        inr refl,
      )
    ]
try_chunk-Ran (suc left) world m last =
    let t = world 0 in
    let x = last_error last t.result in
    let rest : ℕ → Try = λ i. world (suc i) in
    elim (after_try-cases m t t.result (try_chunk (suc left) rest load_merge x) refl) [
      | inr (g, q) ↦ rw q (0, omega arith, refl, (λ j lt. absurd (omega arith)), refl, inl g)
      | inl (g, q) ↦
          let (k, lt, modes, before, res, stop) = try_chunk-Ran left rest load_merge x in
          rw q (
            suc k,
            omega (arith, lt),
            rw modes refl,
            later world k g before,
            res,
            elim stop [ inl h ↦ inl h | inr h ↦ inr (rw h refl) ],
          )
    ]

-- A chunk is tried until a try succeeds, or fails while both ends are up, or the context ends, or six
-- tries are made: every earlier try failed with an end down and the context alive. The result is that
-- of the last try, or the context's error if it ended during the wait. The first try uses the mode
-- that is asked for, and every later one merges.
pub copy_chunk_resilient-runs :
    (world : ℕ → Try) (mode : LoadMode) → Ran 6 world mode (copy_chunk_resilient world mode)
unfolding copy_chunk_resilient
copy_chunk_resilient-runs world mode = try_chunk-Ran 5 world mode (other 0)

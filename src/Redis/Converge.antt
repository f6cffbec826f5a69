-- ===== src/Redis/Converge.antt =====
-- Why the members of a mesh converge: applying two records of one key commutes.
use replicare.Base.{
  ◌≡◌, refl, sym, ap, ◌∙◌, ◌⊎◌, inl, inr, Bool, true, false, none, List, [], ◌∷◌, Bytes, bytes_eq,
  update, ◌==◌, ==_cases, if◌then◌else◌, Bool-cases, All,
}
use replicare.Engine.{ok}
use replicare.Redis.Clock.{Version}
use replicare.Redis.Script.{
  script_beats, IsCollation, IsExact, script_beats_irrefl, script_beats_trans, script_beats_total,
}
use replicare.Redis.Framing.{Record}
use replicare.Redis.Register.{
  Cell, wins, written, mesh_apply, Store, stage_upsert_cluster, Reordered, same, swap, keep, after,
  AllMesh,
}

-- Records of one history: their times are exact as doubles, and two of a key that do not beat each other are the same.
pub record IsHistory (P : Record → Type 0) : Type 0 where
  pub exact : (r : Record) → P r → IsExact r.ver
  pub agree :
      (r s : Record)
      → P r
      → P s
      → r.key ≡ s.key
      → (r.ver.phys ≡ s.ver.phys) × (r.ver.log ≡ s.ver.log) × (r.ver.node ≡ s.ver.node)
      → r ≡ s

All-Reordered {κ} :
    (Q : Record → Type κ) {xs ys : List Record} → Reordered xs ys → All Q xs → All Q ys
All-Reordered Q same h = h
All-Reordered Q swap h = (h.1.0, (h.0, h.1.1))
All-Reordered Q (keep r) h = (h.0, All-Reordered Q r h.1)
All-Reordered Q (after r s) h = All-Reordered Q s (All-Reordered Q r h)

module _ (string_gt : Bytes → Bytes → Bool) where
  -- What the stream does to one key.
  abbrev at_key : Bytes → List Record → Cell → Cell
  at_key k [] c = c
  at_key k (r ∷ rs) c = at_key k rs (if k == r.key then mesh_apply string_gt r c else c)

  stage-at_key :
      (k : Bytes) (rs : List Record) (st : Store)
      → AllMesh rs
      → ((stage_upsert_cluster string_gt rs st).0 ≡ ok tt)
        × ((stage_upsert_cluster string_gt rs st).1 k ≡ at_key k rs (st k))
  unfolding stage_upsert_cluster
  stage-at_key k [] st h = (refl, refl)
  stage-at_key k (r ∷ rs) st h =
      let (e, q) = stage-at_key k rs (update st r.key (mesh_apply string_gt r (st r.key))) h.1 in
      rw h.0 (e, q ∙ ap (at_key k rs) (at_update_key k r st))
    where
      at_update_key :
          (k : Bytes) (r : Record) (st : Store)
          → update st r.key (mesh_apply string_gt r (st r.key)) k
            ≡ (if k == r.key then mesh_apply string_gt r (st k) else st k)
      at_update_key k r st = elim (==_cases k r.key) [
        | inl (p, e) ↦ rw (p, e) refl
        | inr (p, _) ↦ rw p refl
      ]

  beats-written :
      (v : Version) (r : Record)
      → wins string_gt v (written r).meta ≡ script_beats string_gt v r.ver
  unfolding script_beats
  beats-written v r = refl

  apply_win :
      (a r : Record)
      → script_beats string_gt a.ver r.ver ≡ true
      → mesh_apply string_gt a (written r) ≡ written a
  unfolding mesh_apply
  apply_win a r p = ap (λ b. if b then written a else written r) (beats-written a.ver r ∙ p)

  apply_lose :
      (a r : Record)
      → script_beats string_gt a.ver r.ver ≡ false
      → mesh_apply string_gt a (written r) ≡ written r
  unfolding mesh_apply
  apply_lose a r p = ap (λ b. if b then written a else written r) (beats-written a.ver r ∙ p)

  apply_first : (a : Record) (c : Cell) → c.meta ≡ none → mesh_apply string_gt a c ≡ written a
  unfolding mesh_apply
  apply_first a c n = ap (λ m. if wins string_gt a.ver m then written a else c) n

  module _ (order : IsCollation string_gt) (P : Record → Type 0) (h : IsHistory P) where
    -- A register that no write reached, or that a record of the history wrote.
    abbrev pub IsOf : Bytes → Cell → Type 0
    IsOf k c = (c.meta ≡ none) ⊎ ((r : Record) × P r × (r.key ≡ k) × (c ≡ written r))

    two :
        (a b : Record)
        → P a
        → P b
        → a.key ≡ b.key
        → mesh_apply string_gt a (written b) ≡ mesh_apply string_gt b (written a)
    two a b pa pb e =
        let ha = h.exact a pa in
        let hb = h.exact b pb in
        let irrefl = script_beats_irrefl string_gt order a.ver ha in
        let trans = script_beats_trans string_gt order a.ver b.ver a.ver ha hb ha in
        let total = script_beats_total string_gt order a.ver b.ver ha hb in
        elim (Bool-cases (script_beats string_gt a.ver b.ver)) [
          | inl p ↦ elim (Bool-cases (script_beats string_gt b.ver a.ver)) [
            | inl q ↦ absurd (cc (trans p q, irrefl))
            | inr q ↦ apply_win a b p ∙ sym (apply_lose b a q)
          ]
          | inr p ↦ elim (Bool-cases (script_beats string_gt b.ver a.ver)) [
            | inl q ↦ apply_lose a b p ∙ sym (apply_win b a q)
            | inr q ↦
                apply_lose a b p
                ∙ ap written (sym (h.agree a b pa pb e (total p q)))
                ∙ sym (apply_lose b a q)
          ]
        ]

    not_beats :
        (a b r : Record)
        → P a
        → P b
        → P r
        → script_beats string_gt b.ver r.ver ≡ true
        → script_beats string_gt a.ver r.ver ≡ false
        → script_beats string_gt a.ver b.ver ≡ false
    not_beats a b r pa pb pr p q = elim (Bool-cases (script_beats string_gt a.ver b.ver)) [
      | inl s ↦ absurd (
          cc (
            script_beats_trans string_gt order a.ver b.ver r.ver (h.exact a pa) (h.exact b pb)
                (h.exact r pr) s p,
            q,
          ))
      | inr s ↦ s
    ]

    -- Two records of a key on a register that `r` wrote.
    three :
        (a b r : Record)
        → P a
        → P b
        → P r
        → a.key ≡ b.key
        → mesh_apply string_gt a (mesh_apply string_gt b (written r))
          ≡ mesh_apply string_gt b (mesh_apply string_gt a (written r))
    three a b r pa pb pr e = elim (Bool-cases (script_beats string_gt b.ver r.ver)) [
      | inl p ↦ elim (Bool-cases (script_beats string_gt a.ver r.ver)) [
        | inl q ↦
            ap (mesh_apply string_gt a) (apply_win b r p)
            ∙ two a b pa pb e
            ∙ ap (mesh_apply string_gt b) (sym (apply_win a r q))
        | inr q ↦
            ap (mesh_apply string_gt a) (apply_win b r p)
            ∙ apply_lose a b (not_beats a b r pa pb pr p q)
            ∙ sym (apply_win b r p)
            ∙ ap (mesh_apply string_gt b) (sym (apply_lose a r q))
      ]
      | inr p ↦ elim (Bool-cases (script_beats string_gt a.ver r.ver)) [
        | inl q ↦
            ap (mesh_apply string_gt a) (apply_lose b r p)
            ∙ apply_win a r q
            ∙ sym (apply_lose b a (not_beats b a r pb pa pr q p))
            ∙ ap (mesh_apply string_gt b) (sym (apply_win a r q))
        | inr q ↦
            ap (mesh_apply string_gt a) (apply_lose b r p)
            ∙ apply_lose a r q
            ∙ sym (apply_lose b r p)
            ∙ ap (mesh_apply string_gt b) (sym (apply_lose a r q))
      ]
    ]

    apply-IsOf :
        (k : Bytes) (r : Record) (c : Cell)
        → P r
        → r.key ≡ k
        → IsOf k c
        → IsOf k (mesh_apply string_gt r c)
    unfolding mesh_apply
    apply-IsOf k r c p e o = elim (Bool-cases (wins string_gt r.ver c.meta)) [
      | inl w ↦ rw w (inr (r, p, e, refl))
      | inr w ↦ rw w o
    ]

    commute :
        (k : Bytes) (a b : Record) (c : Cell)
        → P a
        → P b
        → a.key ≡ k
        → b.key ≡ k
        → IsOf k c
        → mesh_apply string_gt a (mesh_apply string_gt b c)
          ≡ mesh_apply string_gt b (mesh_apply string_gt a c)
    commute k a b c pa pb ea eb (inl n) =
        ap (mesh_apply string_gt a) (apply_first b c n)
        ∙ two a b pa pb (ea ∙ sym eb)
        ∙ ap (mesh_apply string_gt b) (sym (apply_first a c n))
    commute k a b c pa pb ea eb (inr (r, pr, er, e)) = rw e (three a b r pa pb pr (ea ∙ sym eb))

    step-IsOf :
        (k : Bytes) (r : Record) (c : Cell)
        → P r
        → IsOf k c
        → IsOf k (if k == r.key then mesh_apply string_gt r c else c)
    step-IsOf k r c p o = elim (==_cases k r.key) [
      | inl (q, e) ↦ rw q (apply-IsOf k r c p (sym e) o)
      | inr (q, _) ↦ rw q o
    ]

    swap_at_key :
        (k : Bytes) (a b : Record) (c : Cell)
        → P a
        → P b
        → IsOf k c
        → at_key k (a ∷ b ∷ []) c ≡ at_key k (b ∷ a ∷ []) c
    swap_at_key k a b c pa pb o = elim (==_cases k a.key) [
      | inl (q, e) ↦ elim (==_cases k b.key) [
        | inl (s, f) ↦ rw (q, s) (commute k b a c pb pa (sym f) (sym e) o)
        | inr (s, _) ↦ rw (q, s) refl
      ]
      | inr (q, _) ↦ rw q refl
    ]

  at_key-Reordered :
      (order : IsCollation string_gt) (P : Record → Type 0) (h : IsHistory P) (k : Bytes)
      {xs ys : List Record}
      → Reordered xs ys
      → (c : Cell) → All P xs
      → IsOf order P h k c
      → at_key k xs c ≡ at_key k ys c
  at_key-Reordered order P h k same c p o = refl
  at_key-Reordered order P h k (swap {a} {b} {xs}) c p o =
      ap (at_key k xs) (swap_at_key order P h k a b c p.0 p.1.0 o)
  at_key-Reordered order P h k (keep {a} r) c p o =
      at_key-Reordered order P h k r _ p.1 (step-IsOf order P h k a c p.0 o)
  at_key-Reordered order P h k (after r s) c p o =
      at_key-Reordered order P h k r c p o
      ∙ at_key-Reordered order P h k s c (All-Reordered P r p) o

  -- Members of a mesh that receive the same records converge: whatever the order of delivery, every
  -- key ends with the same value and register. The servers order strings by one collation that tells
  -- different ones apart. The records, and those that the registers hold at the start, belong to one
  -- history: two of a key with the same clock value and node are the same, and their times are below
  -- 2 ^ 53, so that a double holds them.
  pub stage_upsert_cluster-converges :
      (order : IsCollation string_gt) (P : Record → Type 0) (h : IsHistory P) (xs ys : List Record)
      (st : Store)
      → Reordered xs ys
      → AllMesh xs
      → All P xs
      → ((k : Bytes) → IsOf order P h k (st k))
      → (k : Bytes)
      → ((stage_upsert_cluster string_gt xs st).0 ≡ (stage_upsert_cluster string_gt ys st).0)
        × ((stage_upsert_cluster string_gt xs st).1 k ≡ (stage_upsert_cluster string_gt ys st).1 k)
  stage_upsert_cluster-converges order P h xs ys st r m p o k =
      let (ex, qx) = stage-at_key k xs st m in
      let (ey, qy) = stage-at_key k ys st (All-Reordered _ r m) in
      (ex ∙ sym ey, qx ∙ at_key-Reordered order P h k r (st k) p (o k) ∙ sym qy)

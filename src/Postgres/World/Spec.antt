-- ===== src/Postgres/World/Spec.antt =====
-- What a piece of pipeline code keeps, whatever the script does: `F` at every step, errors
-- included, and from `P` on entry `Q` of the result if there is one.
use replicare.Base.{Option, none, some, List, [], ◌∷◌}
use replicare.Engine.{TableRef, Result, ok, err}
use replicare.Postgres.Capture.{Action}
use replicare.Postgres.World.{
  Fault, before, after, Turn, World, Exec, continue, ◌>>=◌, lift, attempt, run_action, run_actions,
  strike, take_turn, call,
}

abbrev pub OnOk : {A : Type 0} → (A → World → Type 0) → Result A → World → Type 0
OnOk Q (ok a) w = Q a w
OnOk Q (err e) w = Unit

pub OnOk-any : {A : Type 0} (r : Result A) (w : World) → OnOk (λ _ _. Unit) r w
OnOk-any (ok a) w = tt
OnOk-any (err e) w = tt

pub record Spec {A : Type 0} (F P : World → Type 0) (m : Exec A) (Q : A → World → Type 0)
    : Type 0 where
  pub at : (w : World) → F w → P w → F (m w).1 × OnOk Q (m w).0 (m w).1

-- What the program does on the source, and the turns that pass, leave `P` true.
pub record IsStable (P : World → Type 0) : Type 0 where
  pub on_action : (x : TableRef × Action) (w : World) → P w → P (run_action x w)
  pub on_turn : (s : List Turn) (w : World) → P w → P (record w { script = s })

pub IsStable-× : {P Q : World → Type 0} → IsStable P → IsStable Q → IsStable (λ w. P w × Q w)
IsStable-× p q = record {
  on_action = λ x w h. (p.on_action x w h.0, q.on_action x w h.1);
  on_turn = λ s w h. (p.on_turn s w h.0, q.on_turn s w h.1);
}

IsStable-actions :
    {P : World → Type 0}
    → IsStable P
    → (xs : List (TableRef × Action)) (w : World) → P w
    → P (run_actions xs w)
IsStable-actions p [] w h = h
IsStable-actions p (x ∷ xs) w h = IsStable-actions p xs (run_action x w) (p.on_action x w h)

module _ {A : Type 0} (F P : World → Type 0) (Q : A → World → Type 0) where
  strike-Spec :
      (f : Option Fault) (op : Exec A)
      → ((w : World) → F w → P w → F (op w).1 × OnOk Q (op w).0 (op w).1)
      → (w : World) → F w
      → P w
      → F (strike f op w).1 × OnOk Q (strike f op w).0 (strike f op w).1
  strike-Spec none op step w h p = step w h p
  strike-Spec (some (before e)) op step w h p = (h, tt)
  strike-Spec (some (after e)) op step w h p = ((step w h p).0, tt)

  take_turn-Spec :
      (ts : List Turn) (op : Exec A)
      → IsStable F
      → IsStable P
      → ((w : World) → F w → P w → F (op w).1 × OnOk Q (op w).0 (op w).1)
      → (w : World) → F w
      → P w
      → F (take_turn ts op w).1 × OnOk Q (take_turn ts op w).0 (take_turn ts op w).1
  take_turn-Spec [] op sf sp step w h p = step w h p
  take_turn-Spec (t ∷ rest) op sf sp step w h p =
      let w' = record w { script = rest } in
      strike-Spec t.fault op step (run_actions t.actions w')
        (IsStable-actions sf t.actions w' (sf.on_turn rest w h))
        (IsStable-actions sp t.actions w' (sp.on_turn rest w p))

module _ {A : Type 0} {F P : World → Type 0} {Q : A → World → Type 0} where
  -- A call: the script's steps keep what is stable, and the operation does the rest.
  pub call-Spec :
      (op : Exec A)
      → IsStable F
      → IsStable P
      → ((w : World) → F w → P w → F (op w).1 × OnOk Q (op w).0 (op w).1)
      → Spec F P (call op) Q
  unfolding call
  call-Spec op sf sp step = record {
    at = λ w h p. take_turn-Spec F P Q w.script op sf sp step w h p;
  }

  pub lift-Spec : (r : Result A) → ((w : World) → P w → OnOk Q r w) → Spec F P (lift r) Q
  unfolding lift
  lift-Spec r q = record { at = λ w h p. (h, q w p) }

  pub return-Spec : (r : Result A) → ((w : World) → F w → P w → OnOk Q r w) → Spec F P (lift r) Q
  unfolding lift
  return-Spec r q = record { at = λ w h p. (h, q w h p) }

  pub attempt-Spec : (m : Exec A) → Spec F P m Q → Spec F P (attempt m) (OnOk Q)
  unfolding attempt
  attempt-Spec m s = record { at = λ w h p. s.at w h p }

  -- What the frame gives need not be asked for.
  pub Spec-frame : (m : Exec A) → ((w : World) → F w → P w) → Spec F P m Q → Spec F (λ _. Unit) m Q
  Spec-frame m f s = record { at = λ w h _. s.at w h (f w h) }

  pub Spec-weaken :
      {P' : World → Type 0} {Q' : A → World → Type 0} (m : Exec A)
      → Spec F P m Q
      → ((w : World) → P' w → P w)
      → ((r : Result A) (w : World) → OnOk Q r w → OnOk Q' r w)
      → Spec F P' m Q'
  Spec-weaken m s pre post = record {
    at = λ w h p. let (k, q) = s.at w h (pre w p) in (k, post (m w).0 (m w).1 q);
  }

module _ {A B : Type 0} (F : World → Type 0) (Q : A → World → Type 0) (R : B → World → Type 0) where
  continue-Spec :
      (r : Result A) (f : A → Exec B)
      → ((a : A) → Spec F (Q a) (f a) R)
      → (w : World) → F w
      → OnOk Q r w
      → F (continue r f w).1 × OnOk R (continue r f w).0 (continue r f w).1
  continue-Spec (ok a) f s w h q = (s a).at w h q
  continue-Spec (err e) f s w h q = (h, tt)

module _ {A B : Type 0} {F P : World → Type 0} {Q : A → World → Type 0}
    {R : B → World → Type 0} where
  pub bind-Spec :
      (m : Exec A) (f : A → Exec B)
      → Spec F P m Q
      → ((a : A) → Spec F (Q a) (f a) R)
      → Spec F P (m >>= f) R
  unfolding ◌>>=◌
  bind-Spec m f sm sf = record {
    at = λ w h p. let (k, q) = sm.at w h p in continue-Spec F Q R (m w).0 f sf (m w).1 k q;
  }

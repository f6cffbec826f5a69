-- ===== src/Samples/NullFill.antt =====
-- Users and orders refer to each other: the reference of a user stands after the first byte of its
-- row, and is NULL where the row ends there.
use replicare.Base.{
  ◌≤◌, ◌-◌, length, ◌≡◌, ◌≢◌, refl, Bool, true, false, Option, none, some, List, [], ◌∷◌, Bytes,
  codes, ◌==◌,
}
use replicare.Engine.{TableRef, table_ref_eq}
use replicare.Postgres.World.Synced.{IsSynced}
use replicare.Apply.NullFill.{CyclicColumns, AreColumns, drain_cyclic_null_fill}
use replicare.Apply.NullFill.Standing.{Standing}
use replicare.Apply.NullFill.Apart.{drain_cyclic_null_fill-Standing}
use replicare.Apply.NullFill.Safety.{IsIdle, drain_cyclic_null_fill-keeps}
use replicare.Apply.Component.{drain_component}
use replicare.Apply.Component.Safety.{drain_component-keeps}
use replicare.Apply.Retry.{default_retry_policy, drain_component_retrying, retrying-keeps, StartsAt}
use replicare.Samples.{users, target, busy, busy-IsSynced}

abbrev orders : TableRef
orders = record { schema = codes "public"; name = codes "orders" }

abbrev logs : TableRef
logs = record { schema = codes "public"; name = codes "logs" }

abbrev without_reference : Bytes → Option Bytes → Bytes
without_reference [] o = []
without_reference (a ∷ r) none = a ∷ []
without_reference (a ∷ r) (some []) = a ∷ []
without_reference (a ∷ r) (some (b ∷ old)) = a ∷ old

abbrev with_reference : Bytes → Bytes → Bytes
with_reference [] v = []
with_reference (a ∷ r) [] = a ∷ r
with_reference (a ∷ r) (b ∷ old) = b ∷ r

abbrev omit_if : Bool → Bytes → Option Bytes → Bytes
omit_if true r o = without_reference r o
omit_if false r o = r

abbrev fill_if : Bool → Bytes → Bytes → Bytes
fill_if true r v = with_reference r v
fill_if false r v = r

abbrev columns_if : Bool → List Bytes
columns_if true = codes "ref" ∷ []
columns_if false = []

abbrev references : CyclicColumns
references = record {
  cols = λ t. columns_if (t == users);
  omitting = λ t. omit_if (t == users);
  filled_from = λ t. fill_if (t == users);
}

whole_if : (b : Bool) (r : Bytes) (o : Option Bytes) → columns_if b ≡ [] → omit_if b r o ≡ r
whole_if true r o e = absurd (cc)
whole_if false r o e = refl

with-without : (r : Bytes) (o : Option Bytes) → with_reference r (without_reference r o) ≡ r
with-without [] o = refl
with-without (a ∷ r) none = refl
with-without (a ∷ r) (some []) = refl
with-without (a ∷ r) (some (b ∷ old)) = refl

restored_if : (b : Bool) (r : Bytes) (o : Option Bytes) → fill_if b r (omit_if b r o) ≡ r
restored_if true r o = with-without r o
restored_if false r o = refl

references-AreColumns : AreColumns references
references-AreColumns = record {
  whole = λ t r o e. whole_if (t == users) r o e;
  restored = λ t r o. restored_if (t == users) r o;
}

logs_apart : (t : TableRef) → (logs == t) ≡ false → logs ≢ t
logs_apart t b e = absurd (cc (b, (table_ref_eq.beq_iff logs t).1 e))

drain_cyclic_null_fill-keeps_example :
    let w' = (drain_cyclic_null_fill references (users ∷ orders ∷ []) target 100 busy).1 in
    IsSynced target w' × IsIdle w'
drain_cyclic_null_fill-keeps_example =
    drain_cyclic_null_fill-keeps references (users ∷ orders ∷ []) target 100 busy
      references-AreColumns refl (λ x e. absurd (cc)) busy-IsSynced

drain_cyclic_null_fill-Standing_example :
    Standing
      (λ v d. d (codes "7" ∷ []) ≡ none)
      logs
      (drain_cyclic_null_fill references (users ∷ orders ∷ []) target 100 busy).1
drain_cyclic_null_fill-Standing_example =
    drain_cyclic_null_fill-Standing references (λ v d. d (codes "7" ∷ []) ≡ none) logs
      (λ a v d h. h) (users ∷ orders ∷ []) target 100
      ((logs_apart users refl), ((logs_apart orders refl), tt)) busy
      (record { holds = refl; aligned = λ x e. absurd (cc) })

-- A cycle of deferrable keys: no column is left out.
abbrev deferrable : CyclicColumns
deferrable = record { cols = λ t. []; omitting = λ t r o. r; filled_from = λ t r v. r }

deferrable-AreColumns : AreColumns deferrable
deferrable-AreColumns = record { whole = λ t r o e. refl; restored = λ t r o. refl }

drain_component-keeps_example :
    let w' = (drain_component deferrable true (users ∷ orders ∷ []) target 100 busy).1 in
    IsSynced target w' × IsIdle w'
drain_component-keeps_example =
    drain_component-keeps deferrable true (users ∷ orders ∷ []) target 100 busy
      deferrable-AreColumns refl (λ x e. absurd (cc)) busy-IsSynced

retrying-keeps_example :
    let (r, w') =
      drain_component_retrying default_retry_policy
        (λ _. none)
        references
        true
        (users ∷ orders ∷ [])
        target
        10
        busy in
    (IsSynced target w' × IsIdle w')
    × (length r.waits ≤ 5 - 1)
    × StartsAt default_retry_policy 200000000 r.waits
retrying-keeps_example =
    retrying-keeps default_retry_policy (λ _. none) references true (users ∷ orders ∷ []) target 10
      busy references-AreColumns refl (λ x e. absurd (cc)) busy-IsSynced

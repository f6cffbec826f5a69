-- ===== src/Engine/Types.antt =====
-- internal/engine/types.go and engine.go: table references, columns, keys, tables, dirty keys and
-- errors. A Go string is the list of its bytes. An error keeps only what the code asks of it,
-- whether `IsTransientConstraint` holds; wrapping by `fmt.Errorf` with %w keeps that.
use replicare.Base.{
  ℕ, ◌≡◌, ◌↔◌, Bool, true, false, ◌&&◌, Option, none, some, List, [], ◌∷◌, ◌++◌, arith, Eq, Bytes,
  bytes_beq, bytes_beq_iff, ltb, length,
}

pub record TableRef : Type 0 where
  pub schema : Bytes
  pub name : Bytes

-- `TableRef.String`: the schema-qualified name.
unfoldable pub qualified : TableRef → Bytes
qualified t = elim t.schema [ [] ↦ t.name | c ∷ cs ↦ (c ∷ cs) ++ (b'.' ∷ t.name) ]

abbrev pub table_ref_beq : TableRef → TableRef → Bool
table_ref_beq a b = bytes_beq a.schema b.schema && bytes_beq a.name b.name

pub table_ref_beq_iff : (a b : TableRef) → (table_ref_beq a b ≡ true) ↔ (a ≡ b)
table_ref_beq_iff a b = ground (arith, bytes_beq_iff a.schema b.schema, bytes_beq_iff a.name b.name)

instance abbrev pub table_ref_eq : Eq TableRef
table_ref_eq = record { beq = table_ref_beq; beq_iff = table_ref_beq_iff }

pub record Column : Type 0 where
  pub name : Bytes
  pub data_type : Bytes
  pub nullable : Bool
  pub generated : Bool
  pub identity : Bool
  pub default_sequence : Bool

pub record Key : Type 0 where
  pub name : Bytes
  pub columns : List Bytes
  pub is_primary : Bool

pub record ForeignKey : Type 0 where
  pub name : Bytes
  pub child : TableRef
  pub child_cols : List Bytes
  pub parent : TableRef
  pub parent_cols : List Bytes
  pub deferrable : Bool

pub record Table : Type 0 where
  pub ref : TableRef
  pub columns : List Column
  pub primary_key : Option Key
  pub unique_keys : List Key
  pub foreign_keys : List ForeignKey

unfoldable pub has_usable_key : Table → Bool
has_usable_key t = elim t.primary_key [ some _ ↦ true | none ↦ ltb 0 (length t.unique_keys) ]

-- The text form of a key tuple, one string for each key column.
abbrev pub KeyValues : Type 0
KeyValues = List Bytes

abbrev pub TargetId : Type 0
TargetId = Bytes

pub data Op : Type 0 where
  insert update delete : Op

pub record DirtyKey : Type 0 where
  pub delta_id : ℕ
  pub op : Op
  pub key : KeyValues

pub data Error : Type 0 where
  transient_constraint : Error
  other : ℕ → Error

unfoldable pub is_transient_constraint : Error → Bool
is_transient_constraint transient_constraint = true
is_transient_constraint (other _) = false

pub data Result {ℓ} (A : Type ℓ) : Type ℓ where
  ok : A → Result A
  err : Error → Result A

pub record Component : Type 0 where
  pub tables : List TableRef
  pub order : List TableRef
  pub cyclic : List TableRef

unfoldable pub has_cycle : Component → Bool
has_cycle c = ltb 0 (length c.cyclic)

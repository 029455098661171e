-- ===== src/Adapters/Mapping.antt =====
-- A row's fields as a profile maps them (backend/src/netbuddy/adapters/mapping.py, FieldSpec of
-- profile.py).
use netbuddy.Base.{
  Text, Bool, List, [], ◌∷◌, Option, none, some, list_eq, nat_eq, if◌then◌else◌, Result, ok,
  then_ok,
}
use netbuddy.Base.Dict.{lookup}
use netbuddy.Adapters.Values.{Value, null, is_null}
use netbuddy.Adapters.Converters.{Spec, apply_pipeline}

abbrev pub Row : Type 0
Row = List (Text × Value)

pub data FieldSpec : Type 0 where
  const : Value → FieldSpec
  from : Option Text → List Spec → Value → FieldSpec

-- `row.get(key)`
abbrev pub get : Text → Row → Value
get key row = elim (lookup key row) [ none ↦ null | some v ↦ v ]

-- `row.get(source) if source else None`
abbrev source_value : Option Text → Row → Value
source_value none row = null
source_value (some []) row = null
source_value (some (c ∷ s)) row = get (c ∷ s) row

abbrev or_default : Value → Value → Value
or_default default v = if is_null v then default else v

module _ (show : List Text → Text) where
  unfoldable pub field_value : FieldSpec → Row → Result Value
  unfolding apply_pipeline
  field_value (const v) row = ok v
  field_value (from source via default) row =
      then_ok (apply_pipeline show (source_value source row) via) (λ v. ok (or_default default v))

  unfoldable pub kwargs : List (Text × FieldSpec) → Row → Result Row
  unfolding field_value
  kwargs [] row = ok []
  kwargs ((name, spec) ∷ fields) row =
      then_ok (field_value spec row)
        (λ v. then_ok (kwargs fields row) (λ rest. ok ((name, v) ∷ rest)))

-- A class of transfer objects: what pydantic makes of the fields, and which fields are set.
pub record Dto (T : Type 0) : Type 0 where
  pub validate : Row → Result T
  pub is_set : Text → T → Bool

unfoldable pub build_dto :
    {T : Type 0} → (List Text → Text) → Dto T → List (Text × FieldSpec) → Row → Result T
unfolding kwargs
build_dto show dto fields row = then_ok (kwargs show fields row) dto.validate

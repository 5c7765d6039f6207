-- ===== src/Message.antt =====
-- Evaluation contexts, as the evaluator reads them: dynamic protobuf messages whose fields are
-- found by name (internal/evaluator/condcache.go and launch.go).
use pbflags.Common.{Bool, true, false, Option, none, some, Str, ℤ, codes, []}
use pbflags.Common.Decimal.{decimal_ℤ}

-- A field's kind with its value. `other_kind` carries the text that `%v` prints.
pub data FieldValue : Type 0 where
  string_kind : Str → FieldValue
  bool_kind : Bool → FieldValue
  enum_kind int64_kind sint64_kind sfixed64_kind : ℤ → FieldValue
  other_kind : Str → FieldValue

-- A `proto.Message`: `Descriptor().Fields().ByName` and `Get` of the field that is found. A field
-- that is declared and unset answers with its zero value.
pub record Message : Type 0 where
  pub by_name : Str → Option FieldValue

unfoldable pub bool_text : Bool → Str
bool_text true = codes "true"
bool_text false = codes "false"

-- formatFieldValue
unfoldable pub format_field_value : FieldValue → Str
unfolding bool_text decimal_ℤ
format_field_value (string_kind s) = s
format_field_value (bool_kind b) = bool_text b
format_field_value (enum_kind n) = decimal_ℤ n
format_field_value (int64_kind n) = decimal_ℤ n
format_field_value (sint64_kind n) = decimal_ℤ n
format_field_value (sfixed64_kind n) = decimal_ℤ n
format_field_value (other_kind text) = text

-- The switch of extractDimensionValue on the field's kind.
dimension_text : FieldValue → Str
unfolding bool_text decimal_ℤ
dimension_text (string_kind s) = s
dimension_text (int64_kind n) = decimal_ℤ n
dimension_text (sint64_kind n) = decimal_ℤ n
dimension_text (sfixed64_kind n) = decimal_ℤ n
dimension_text (bool_kind b) = bool_text b
dimension_text (enum_kind n) = decimal_ℤ n
dimension_text (other_kind _) = []

-- extractDimensionValue
unfoldable pub extract_dimension_value : Message → Str → Str
unfolding dimension_text
extract_dimension_value msg dim_name = elim (msg.by_name dim_name) [
  | none ↦ []
  | some v ↦ dimension_text v
]

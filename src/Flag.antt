-- ===== src/Flag.antt =====
-- The values and enumerations of gen/pbflags/v1/types.pb.go and evaluator.pb.go.
-- A double is its 64-bit pattern: the program stores and returns doubles and computes with none.
use pbflags.Common.{ℕ, Bool, List, Str, ℤ}

-- The oneof of `FlagValue`; `unset` is the message with no member set.
pub data FlagValue : Type 0 where
  unset : FlagValue
  bool_value : Bool → FlagValue
  string_value : Str → FlagValue
  int64_value : ℤ → FlagValue
  double_value : ℕ → FlagValue
  bool_list : List Bool → FlagValue
  string_list : List Str → FlagValue
  int64_list : List ℤ → FlagValue
  double_list : List ℕ → FlagValue

pub data FlagType : Type 0 where
  type_unspecified type_bool type_string type_int64 type_double : FlagType
  type_bool_list type_string_list type_int64_list type_double_list : FlagType

pub data State : Type 0 where
  unspecified enabled default killed : State

pub data EvaluationSource : Type 0 where
  unspecified default global override killed cached archived stale : EvaluationSource
  condition condition_override launch : EvaluationSource

-- ===== src/Client.antt =====
-- pbflags/: the client library. Evaluators bind dimensions of a context and may be wrapped in
-- overrides for tests; the service behind them is a parameter. A nil evaluator has no counterpart.
pub mod Bulk
pub mod Overridden
use pbflags.Common.{
  Bool, true, false, ◌&&◌, ◌||◌, not, Option, none, some, List, [], ◌∷◌, ◌++◌, Str, ◌=s◌, ℤ,
  if◌then◌else◌, is_empty, Assoc, lookup, put, all,
}
use pbflags.Flag.{
  FlagValue, bool_value, string_value, int64_value, double_value, bool_list, string_list,
  int64_list, double_list, EvaluationSource,
}
use pbflags.Message.{Message, FieldValue}

-- Dimension, by its constructors.
pub data Dimension : Type 0 where
  string_dimension : Str → Str → Dimension
  enum_dimension : Str → ℤ → Dimension
  bool_dimension : Str → Bool → Dimension
  int64_dimension : Str → ℤ → Dimension

-- Set of a field of a message.
unfoldable pub set_field : Str → FieldValue → Message → Message
set_field name v msg = record { by_name = λ n. if n =s name then some v else msg.by_name n }

-- Apply: a field that is not there or of another kind stays as it is.
unfoldable pub apply : Dimension → Message → Message
apply (string_dimension name val) msg = elim (msg.by_name name) [
  | some (FieldValue.string_kind _) ↦ set_field name (FieldValue.string_kind val) msg
  | _ ↦ msg
]
apply (enum_dimension name val) msg = elim (msg.by_name name) [
  | some (FieldValue.enum_kind _) ↦ set_field name (FieldValue.enum_kind val) msg
  | _ ↦ msg
]
apply (bool_dimension name val) msg = elim (msg.by_name name) [
  | some (FieldValue.bool_kind _) ↦ set_field name (FieldValue.bool_kind val) msg
  | _ ↦ msg
]
apply (int64_dimension name val) msg = elim (msg.by_name name) [
  | some (FieldValue.int64_kind _) ↦ set_field name (FieldValue.int64_kind val) msg
  | _ ↦ msg
]

-- The loop over the dimensions: a later one wins.
unfoldable pub apply_all : List Dimension → Message → Message
apply_all [] msg = msg
apply_all (d ∷ dims) msg = apply_all dims (apply d msg)

-- Result of the client library.
pub record Evaluation : Type 0 where
  pub value : Option FlagValue
  pub source : EvaluationSource

-- A call returns, fails with an error, or panics.
pub data Call (A : Type 0) : Type 0 where
  returned : A → Call A
  failed panicked : Call A

-- The service behind a client, with the encoding of contexts.
pub record Service : Type 0 where
  pub encode : Message → Option Str
  pub evaluate : Option Str → Str → Option Evaluation
  pub bulk_evaluate : Option Str → List Str → Option (List Evaluation)

-- The implementations of Evaluator: noopEvaluator, clientEvaluator, overrideEvaluator.
pub data ClientEvaluator : Type 0 where
  noop : ClientEvaluator
  client : List Dimension → ClientEvaluator
  overriding : Assoc FlagValue → ClientEvaluator → ClientEvaluator

-- With
unfoldable pub with_dimensions : List Dimension → ClientEvaluator → ClientEvaluator
with_dimensions dims noop = noop
with_dimensions dims (client bound) = client (bound ++ dims)
with_dimensions dims (overriding overrides inner) =
    overriding overrides (with_dimensions dims inner)

-- Override
pub record Override : Type 0 where
  pub flag_id : Str
  pub value : FlagValue

-- FlagType and FlagDescriptor of gen/pbflags/flagmeta.
pub data MetaType : Type 0 where
  meta_bool meta_string meta_int64 meta_double : MetaType

pub record FlagDescriptor : Type 0 where
  pub id : Str
  pub meta_type : MetaType
  pub is_list : Bool

-- flagValueType
unfoldable pub flag_value_type : FlagValue → MetaType × Bool
flag_value_type (bool_value _) = (MetaType.meta_bool, false)
flag_value_type (string_value _) = (MetaType.meta_string, false)
flag_value_type (int64_value _) = (MetaType.meta_int64, false)
flag_value_type (double_value _) = (MetaType.meta_double, false)
flag_value_type (bool_list _) = (MetaType.meta_bool, true)
flag_value_type (string_list _) = (MetaType.meta_string, true)
flag_value_type (int64_list _) = (MetaType.meta_int64, true)
flag_value_type (double_list _) = (MetaType.meta_double, true)
flag_value_type _ = (MetaType.meta_bool, false)

abbrev pub same_meta_type : MetaType → MetaType → Bool
same_meta_type MetaType.meta_bool MetaType.meta_bool = true
same_meta_type MetaType.meta_string MetaType.meta_string = true
same_meta_type MetaType.meta_int64 MetaType.meta_int64 = true
same_meta_type MetaType.meta_double MetaType.meta_double = true
same_meta_type _ _ = false

abbrev pub same_flag : Bool → Bool → Bool
same_flag true b = b
same_flag false b = not b

-- The map of descriptors: the last one of an id stays.
unfoldable pub by_id : List FlagDescriptor → Assoc FlagDescriptor → Assoc FlagDescriptor
by_id [] m = m
by_id (d ∷ descriptors) m = by_id descriptors (put d.id d m)

unfoldable pub fits_descriptor : FlagValue → Option FlagDescriptor → Bool
fits_descriptor v none = false
fits_descriptor v (some desc) =
    same_meta_type (flag_value_type v).0 desc.meta_type
    && same_flag (flag_value_type v).1 desc.is_list

-- ValidateOverrides finds no error.
unfoldable pub validate_overrides : List Override → List FlagDescriptor → Bool
validate_overrides overrides descriptors =
    all (λ o. fits_descriptor o.value (lookup o.flag_id (by_id descriptors []))) overrides

-- The map of overrides: the last one of a flag stays.
unfoldable pub override_map : List Override → Assoc FlagValue → Assoc FlagValue
override_map [] m = m
override_map (o ∷ overrides) m = override_map overrides (put o.flag_id o.value m)

-- WithOverrides
unfoldable pub with_overrides :
    ClientEvaluator → Option (List FlagDescriptor) → List Override → Call ClientEvaluator
with_overrides eval descriptors [] = returned eval
with_overrides eval none (o ∷ overrides) =
    returned (overriding (override_map (o ∷ overrides) []) eval)
with_overrides eval (some descriptors) (o ∷ overrides) =
    if validate_overrides (o ∷ overrides) descriptors
    then returned (overriding (override_map (o ∷ overrides) []) eval)
    else panicked

abbrev pub overridden : FlagValue → Evaluation
overridden v = record { value = some v; source = EvaluationSource.override }

abbrev pub no_evaluation : Evaluation
no_evaluation = record { value = none; source = EvaluationSource.default }

-- The flags that are not overridden.
unfoldable pub delegated : Assoc FlagValue → List Str → List Str
delegated overrides [] = []
delegated overrides (id ∷ ids) =
    let rest = delegated overrides ids in
    elim (lookup id overrides) [ none ↦ id ∷ rest | some v ↦ rest ]

abbrev pub prepend : Evaluation → Call (List Evaluation) → Call (List Evaluation)
prepend r (returned rs) = returned (r ∷ rs)
prepend r failed = failed
prepend r panicked = panicked

-- The results in the order of the flags; the index into `inner` may be out of range.
unfoldable pub fill : Assoc FlagValue → List Str → List Evaluation → Call (List Evaluation)
fill overrides [] inner = returned []
fill overrides (id ∷ ids) inner = elim (lookup id overrides) [
  | some v ↦ prepend (overridden v) (fill overrides ids inner)
  | none ↦ elim inner [ [] ↦ panicked | r ∷ later ↦ prepend r (fill overrides ids later) ]
]

abbrev pub call_of : {A : Type 0} → Option A → Call A
call_of none = failed
call_of (some a) = returned a

module _ (service : Service) (fresh : Message) where
  -- buildContext: no dimensions are no context.
  unfoldable pub build_context : List Dimension → Option (Option Str)
  build_context [] = some none
  build_context (d ∷ dims) = elim (service.encode (apply_all (d ∷ dims) fresh)) [
    | none ↦ none
    | some bytes ↦ some (some bytes)
  ]

  -- Evaluate
  unfoldable pub evaluate_flag : ClientEvaluator → Str → Call Evaluation
  evaluate_flag noop id = returned no_evaluation
  evaluate_flag (client dims) id = elim (build_context dims) [
    | none ↦ failed
    | some ctx ↦ call_of (service.evaluate ctx id)
  ]
  evaluate_flag (overriding overrides inner) id =
      let delegate = evaluate_flag inner id in
      elim (lookup id overrides) [ some v ↦ returned (overridden v) | none ↦ delegate ]

  unfoldable pub none_evaluated : List Str → List Evaluation
  none_evaluated [] = []
  none_evaluated (id ∷ ids) = no_evaluation ∷ none_evaluated ids

  unfoldable pub filled :
      Assoc FlagValue → List Str → Call (List Evaluation) → Call (List Evaluation)
  filled overrides ids (returned inner) = fill overrides ids inner
  filled overrides ids failed = failed
  filled overrides ids panicked = panicked

  -- BulkEvaluate
  unfoldable pub bulk_evaluate_flags : ClientEvaluator → List Str → Call (List Evaluation)
  bulk_evaluate_flags noop ids = returned (none_evaluated ids)
  bulk_evaluate_flags (client dims) ids = elim (build_context dims) [
    | none ↦ failed
    | some ctx ↦ call_of (service.bulk_evaluate ctx ids)
  ]
  bulk_evaluate_flags (overriding overrides inner) ids =
      let delegate = bulk_evaluate_flags inner (delegated overrides ids) in
      if is_empty (delegated overrides ids)
      then fill overrides ids []
      else filled overrides ids delegate

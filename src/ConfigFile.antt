-- ===== src/ConfigFile.antt =====
-- internal/configfile/configfile.go: the flag configuration of a feature, from the decoded YAML.
-- The YAML decoder is a library: `Raw` is what it makes of a value, and the entries are given with
-- the keys that were present. A double is its 64-bit pattern, and Go's conversions are parameters.
-- The texts of errors and warnings are left out, and with them the order that they are sorted in.
pub mod Entries
pub mod Typed
use pbflags.Common.{
  ℕ, zero, suc, ◌-◌, ◌^◌, Bool, true, false, ◌||◌, not, Option, none, some, List, [], ◌∷◌, Str,
  if◌then◌else◌, is_empty, ℤ, pos, negsuc, ltb, ltb_ℤ, leb_ℤ,
}
use pbflags.Flag.{
  FlagValue, bool_value, string_value, int64_value, double_value, FlagType, type_bool, type_string,
  type_int64, type_double, type_bool_list, type_string_list, type_int64_list, type_double_list,
}

mutual
  -- A decoded YAML value, by its Go type.
  pub data Raw : Type 0 where
    null : Raw
    bool : Bool → Raw
    text : Str → Raw
    int : ℤ → Raw
    int64 : ℤ → Raw
    uint64 : ℕ → Raw
    float : ℕ → Raw
    sequence : Raws → Raw
    other : Raw

  pub data Raws : Type 0 where
    nil : Raws
    cons : Raw → Raws → Raws

-- The conversions between float64 and int64, and the test `!=` on doubles.
pub record Floats : Type 0 where
  pub of_int : ℤ → ℕ
  pub to_int64 : ℕ → ℤ
  pub differ : ℕ → ℕ → Bool

pub data ConfigError : Type 0 where
  value_and_conditions no_value_or_conditions launch_without_id otherwise_not_last : ConfigError
  when_and_otherwise no_when_or_otherwise condition_without_value : ℕ → ConfigError
  condition_launch_without_id : ℕ → ConfigError
  value_is_null wrong_type not_an_integer not_a_number unsupported_type not_in_proto : ConfigError
  element : ℕ → ConfigError → ConfigError
  in_launch : ConfigError → ConfigError
  empty_launch_id no_dimension ramp_out_of_range : ConfigError
  step_out_of_range steps_not_ascending : ℕ → ConfigError
  no_feature no_flags : ConfigError

pub data Checked (A : Type 0) : Type 0 where
  ok : A → Checked A
  err : ConfigError → Checked A

infixl 5 ◌>>=◌
abbrev pub ◌>>=◌ : {A B : Type 0} → Checked A → (A → Checked B) → Checked B
ok a >>= f = f a
err e >>= f = err e

-- An error with what it is about.
unfoldable pub within : {A : Type 0} → (ConfigError → ConfigError) → Checked A → Checked A
within f (ok a) = ok a
within f (err e) = err (f e)

-- `int64(n)` of a uint64: the same bits, as a signed number.
unfoldable pub int64_of_uint64 : ℕ → ℤ
int64_of_uint64 n = if ltb n (2 ^ 63) then pos n else negsuc (2 ^ 64 - 1 - n)

module _ (floats : Floats) where
  -- toInt64
  unfoldable pub to_int64 : Raw → Checked ℤ
  to_int64 (int n) = ok n
  to_int64 (int64 n) = ok n
  to_int64 (uint64 n) = ok (int64_of_uint64 n)
  to_int64 (float x) =
      if floats.differ x (floats.of_int (floats.to_int64 x))
      then err not_an_integer
      else ok (floats.to_int64 x)
  to_int64 _ = err not_an_integer

  -- toFloat64
  unfoldable pub to_float64 : Raw → Checked ℕ
  to_float64 (float x) = ok x
  to_float64 (int n) = ok (floats.of_int n)
  to_float64 (int64 n) = ok (floats.of_int n)
  to_float64 (uint64 n) = ok (floats.of_int (pos n))
  to_float64 _ = err not_a_number

unfoldable pub to_bool : Raw → Checked Bool
to_bool (bool b) = ok b
to_bool _ = err wrong_type

unfoldable pub to_text : Raw → Checked Str
to_text (text s) = ok s
to_text _ = err wrong_type

module _ {A : Type 0} (elem : Raw → Checked A) where
  -- The loop of convertList.
  unfoldable pub convert_elements : ℕ → Raws → Checked (List A)
  convert_elements i nil = ok []
  convert_elements i (cons r rs) =
      let rest = convert_elements (suc i) rs in
      do v ← within (element i) (elem r); vs ← rest; ok (v ∷ vs)

  -- convertList
  unfoldable pub convert_list : (List A → FlagValue) → Raw → Checked FlagValue
  convert_list build (sequence rs) = do vs ← convert_elements 0 rs; ok (build vs)
  convert_list build _ = err wrong_type

module _ (floats : Floats) where
  unfoldable pub convert_typed : Raw → FlagType → Checked FlagValue
  convert_typed raw type_bool = do b ← to_bool raw; ok (bool_value b)
  convert_typed raw type_string = do s ← to_text raw; ok (string_value s)
  convert_typed raw type_int64 = do n ← to_int64 floats raw; ok (int64_value n)
  convert_typed raw type_double = do x ← to_float64 floats raw; ok (double_value x)
  convert_typed raw type_bool_list = convert_list to_bool FlagValue.bool_list raw
  convert_typed raw type_string_list = convert_list to_text FlagValue.string_list raw
  convert_typed raw type_int64_list = convert_list (to_int64 floats) FlagValue.int64_list raw
  convert_typed raw type_double_list = convert_list (to_float64 floats) FlagValue.double_list raw
  convert_typed raw _ = err unsupported_type

  -- convertValue
  unfoldable pub convert_value : Raw → FlagType → Checked FlagValue
  convert_value null ft = err value_is_null
  convert_value raw ft = convert_typed raw ft

-- ===== src/Lint.antt =====
-- internal/lint: breaking changes between two versions of the definitions. The texts of violations
-- are left out, and maps are association lists in some order; the conversions of letter case are
-- parameters.
pub mod Scopes
pub mod Kept
use pbflags.Common.{
  ℕ, Bool, true, false, ◌&&◌, ◌||◌, not, Option, none, some, List, [], ◌∷◌, ◌++◌, Str, codes, ◌=s◌,
  if◌then◌else◌, is_empty, Assoc, lookup, put, ◌==◌,
}
use pbflags.Flag.{
  FlagType, type_unspecified, type_bool, type_string, type_int64, type_double, type_bool_list,
  type_string_list, type_int64_list, type_double_list,
}
use pbflags.Sync.Definitions.{FlagDef}

pub data Rule : Type 0 where
  type_changed layer_changed : Rule
  scope_dim_changed scope_removed feature_scope_removed cond_scope_compat : Rule

-- Violation
pub record Violation : Type 0 where
  pub flag_id : Str
  pub rule : Rule

-- The numbers of the enum FlagType.
abbrev pub type_number : FlagType → ℕ
type_number type_unspecified = 0
type_number type_bool = 1
type_number type_string = 2
type_number type_int64 = 3
type_number type_double = 4
type_number type_bool_list = 5
type_number type_string_list = 6
type_number type_int64_list = 7
type_number type_double_list = 8

-- indexByID
unfoldable pub index_by_id : List FlagDef → Assoc FlagDef → Assoc FlagDef
index_by_id [] m = m
index_by_id (d ∷ defs) m = index_by_id defs (put d.flag_id d m)

module _ (equal_fold : Str → Str → Bool) (to_lower : Str → Str) where
  -- IsGlobalLayer
  unfoldable pub is_global_layer : Str → Bool
  is_global_layer layer = is_empty layer || equal_fold layer (codes "global")

  -- normalizeLayer
  unfoldable pub normalize_layer : Str → Str
  normalize_layer layer = if is_global_layer layer then codes "global" else to_lower layer

  -- checkLayerChange
  unfoldable pub check_layer_change : Str → FlagDef → FlagDef → Option Violation
  check_layer_change flag_id base current =
      if normalize_layer base.layer =s normalize_layer current.layer
      then none
      else if is_global_layer base.layer && not (is_global_layer current.layer)
      then none
      else some (record { flag_id = flag_id; rule = Rule.layer_changed })

  unfoldable pub check_type : Str → FlagDef → FlagDef → List Violation
  check_type flag_id base current =
      if type_number base.flag_type == type_number current.flag_type
      then []
      else record { flag_id = flag_id; rule = Rule.type_changed } ∷ []

  abbrev pub list_of : {A : Type 0} → Option A → List A
  list_of none = []
  list_of (some a) = a ∷ []

  -- The violations of one flag.
  unfoldable pub check_flag : Str → FlagDef → Option FlagDef → List Violation
  check_flag flag_id base none = []
  check_flag flag_id base (some current) =
      check_type flag_id base current ++ list_of (check_layer_change flag_id base current)

  -- The loop over the flags of the base.
  unfoldable pub check_flags : Assoc FlagDef → Assoc FlagDef → List Violation
  check_flags [] current = []
  check_flags ((id, base) ∷ rest) current =
      check_flag id base (lookup id current) ++ check_flags rest current

  -- Check
  unfoldable pub check : List FlagDef → List FlagDef → List Violation
  check base current = check_flags (index_by_id base []) (index_by_id current [])

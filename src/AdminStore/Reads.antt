-- ===== src/AdminStore/Reads.antt =====
-- internal/admin/store.go: the reads of the admin service on flags and launches. Each is one query;
-- the argument `fault` says whether it fails.
pub mod Named
use pbflags.Common.{
  ℕ, Bool, true, false, ◌&&◌, ◌||◌, not, Option, none, some, List, [], ◌∷◌, ◌++◌, Str, codes, ◌=s◌,
  contains, if◌then◌else◌, is_empty, is_some, Assoc, lookup, put, ltb, ◌==◌,
}
use pbflags.Flag.{
  State, FlagType, type_unspecified, type_bool, type_string, type_int64, type_double,
  type_bool_list, type_string_list, type_int64_list, type_double_list,
}
use pbflags.CondCache.{sort_strings}
use pbflags.Conditions.{StoredCondition}
use pbflags.Database.{Db, FlagRow, LaunchRow, find_flag, find_launch}
use pbflags.DbFetcher.{killed_ids}
use pbflags.AdminStore.{row_state}

-- GetFlagState: an error, or the state and whether the flag is archived, if it is there.
unfoldable pub get_state : Bool → Db → Str → Option (Option (State × Bool))
get_state fault db flag_id =
    if fault
    then none
    else some (elim (find_flag flag_id db.flags) [
      | none ↦ none
      | some row ↦ some (row_state row.killed_at, is_some row.archived_at)
    ])

-- GetKilledFlags
unfoldable pub get_killed : Bool → Db → Option (List Str)
get_killed fault db = if fault then none else some (killed_ids db.flags)

-- parseFlagType
unfoldable pub parse_flag_type : Str → FlagType
parse_flag_type s =
    if s =s codes "BOOL"
    then type_bool
    else if s =s codes "STRING"
    then type_string
    else if s =s codes "INT64"
    then type_int64
    else if s =s codes "DOUBLE"
    then type_double
    else if s =s codes "BOOL_LIST"
    then type_bool_list
    else if s =s codes "STRING_LIST"
    then type_string_list
    else if s =s codes "INT64_LIST"
    then type_int64_list
    else if s =s codes "DOUBLE_LIST"
    then type_double_list
    else type_unspecified

-- GetLaunch
unfoldable pub get_launch : Bool → Db → Str → Option (Option LaunchRow)
get_launch fault db launch_id = if fault then none else some (find_launch launch_id db.launches)

-- A map from launches to flags: the flags of one.
abbrev pub list_of : Option (List Str) → List Str
list_of none = []
list_of (some fs) = fs

abbrev pub flags_at : Str → Assoc (List Str) → List Str
flags_at l out = list_of (lookup l out)

-- The flag joins the launch's list, unless it is in it.
unfoldable pub add_flag : Str → Str → Assoc (List Str) → Assoc (List Str)
add_flag l f out = if contains (flags_at l out) f then out else put l (flags_at l out ++ f ∷ []) out

-- The loop over a flag's conditions.
unfoldable pub add_conditions :
    List Str → Str → List StoredCondition → Assoc (List Str) → Assoc (List Str)
add_conditions wanted f [] out = out
add_conditions wanted f (c ∷ cs) out = add_conditions wanted f cs (
    if is_empty c.launch_id
    then out
    else if contains wanted c.launch_id
    then add_flag c.launch_id f out
    else out)

unfoldable pub add_chain :
    List Str → Str → Option (List StoredCondition) → Assoc (List Str) → Assoc (List Str)
add_chain wanted f none out = out
add_chain wanted f (some cs) out = add_conditions wanted f cs out

-- The rows that the query selects.
unfoldable pub is_selected : List Str → FlagRow → Bool
is_selected features row = contains features row.feature_id && not (is_empty row.conditions)

module _ (unmarshal : Str → Option (List StoredCondition)) where
  -- The loop over the rows; one whose conditions cannot be decoded is skipped.
  unfoldable pub add_rows : List Str → List Str → List FlagRow → Assoc (List Str) → Assoc (List Str)
  add_rows wanted features [] out = out
  add_rows wanted features (row ∷ rows) out = add_rows wanted features rows (
      if is_selected features row
      then add_chain wanted row.flag_id (unmarshal row.conditions) out
      else out)

  unfoldable pub wanted_launches : List LaunchRow → List Str
  wanted_launches [] = []
  wanted_launches (l ∷ ls) = l.launch_id ∷ wanted_launches ls

  unfoldable pub feature_set : List LaunchRow → List Str
  feature_set [] = []
  feature_set (l ∷ ls) = l.affected_features ++ feature_set ls

  unfoldable pub sort_lists : Assoc (List Str) → Assoc (List Str)
  sort_lists [] = []
  sort_lists ((l, fs) ∷ out) = (l, sort_strings fs) ∷ sort_lists out

  -- FlagsByLaunch
  unfoldable pub flags_by_launch : Bool → Db → List LaunchRow → Option (Assoc (List Str))
  flags_by_launch fault db launches =
      if is_empty launches
      then some []
      else if is_empty (feature_set launches)
      then some []
      else if fault
      then none
      else some
          (sort_lists (add_rows (wanted_launches launches) (feature_set launches) db.flags []))

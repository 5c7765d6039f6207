-- ===== src/Sync/Launches.antt =====
-- internal/sync/launchcollect.go: the launches that the configuration files define, and the features
-- that refer to them. Maps are association lists in some order of their keys; the files of the
-- directory launches/ are given with what reading and decoding them answers.
pub mod Sound
pub mod Ramped
use pbflags.Common.{
  Bool, true, false, ◌||◌, ◌&&◌, not, Option, none, some, List, [], ◌∷◌, Str, ◌=s◌, contains,
  if◌then◌else◌, is_empty, is_some, Assoc, lookup, put, all,
}
use pbflags.CondCache.{sort_strings}
use pbflags.ConfigFile.{Checked}
use pbflags.ConfigFile.Entries.{
  LaunchEntry, LaunchOverride, Condition, FlagEntry, Config, parse_cross_feature_launch,
}
use pbflags.Database.{Error, Result, ok, err}
use pbflags.Sync.Compile.{◌>>=◌}

-- launchDef; no scope is a launch across features.
pub record LaunchDef : Type 0 where
  pub entry : LaunchEntry
  pub scope_feature_id : Option Str

-- launchCollection
pub record LaunchCollection : Type 0 where
  pub defined : Assoc LaunchDef
  pub refs : Assoc (List Str)

-- A file of launches/: its launch id and what decoding it answers.
pub record LaunchFile : Type 0 where
  pub launch_id : Str
  pub decoded : Option LaunchEntry

abbrev pub set_of : Option (List Str) → List Str
set_of none = []
set_of (some xs) = xs

-- addRef
unfoldable pub add_ref : Str → Str → Assoc (List Str) → Assoc (List Str)
add_ref launch_id feature_id refs =
    let features = set_of (lookup launch_id refs) in
    if contains features feature_id then refs else put launch_id (feature_id ∷ features) refs

unfoldable pub add_launch_ref : Option LaunchOverride → Str → Assoc (List Str) → Assoc (List Str)
add_launch_ref none feature_id refs = refs
add_launch_ref (some launch) feature_id refs = add_ref launch.id feature_id refs

unfoldable pub condition_refs : List Condition → Str → Assoc (List Str) → Assoc (List Str)
condition_refs [] feature_id refs = refs
condition_refs (cond ∷ conds) feature_id refs =
    condition_refs conds feature_id (add_launch_ref cond.launch feature_id refs)

-- The loop over the flags of a feature.
unfoldable pub flag_refs : Assoc FlagEntry → Str → Assoc (List Str) → Assoc (List Str)
flag_refs [] feature_id refs = refs
flag_refs ((name, entry) ∷ flags) feature_id refs =
    flag_refs flags feature_id
      (condition_refs entry.conditions feature_id (add_launch_ref entry.launch feature_id refs))

-- A definition that must be the first of its launch.
unfoldable pub define : Str → LaunchDef → Assoc LaunchDef → Result (Assoc LaunchDef)
define launch_id def defined =
    if is_some (lookup launch_id defined)
    then err Error.launch_defined_twice
    else ok (put launch_id def defined)

unfoldable pub define_scoped : Str → Assoc LaunchEntry → Assoc LaunchDef → Result (Assoc LaunchDef)
define_scoped feature_id [] defined = ok defined
define_scoped feature_id ((id, entry) ∷ launches) defined =
    define id (record { entry = entry; scope_feature_id = some feature_id }) defined
    >>= define_scoped feature_id launches

-- The loop over the configurations.
unfoldable pub collect_configs : Assoc Config → LaunchCollection → Result LaunchCollection
collect_configs [] lc = ok lc
collect_configs ((feature_id, cfg) ∷ configs) lc =
    define_scoped feature_id cfg.launches lc.defined >>= λ defined.
    collect_configs configs
      (record { defined = defined; refs = flag_refs cfg.flags feature_id lc.refs })

unfoldable pub parse_file : Option LaunchEntry → Result LaunchEntry
parse_file none = err Error.launch_file_error
parse_file (some raw) = elim (parse_cross_feature_launch raw) [
  | Checked.ok entry ↦ ok entry
  | Checked.err e ↦ err Error.launch_file_error
]

-- The loop over the files of launches/.
unfoldable pub collect_files : List LaunchFile → Assoc LaunchDef → Result (Assoc LaunchDef)
collect_files [] defined = ok defined
collect_files (file ∷ files) defined = parse_file file.decoded >>= λ entry.
    define file.launch_id (record { entry = entry; scope_feature_id = none }) defined
    >>= collect_files files

unfoldable pub in_scope : Option Str → List Str → Bool
in_scope none features = true
in_scope (some scope) features = all (λ f. f =s scope) features

-- The check of one launch's references.
unfoldable pub check_ref : Option LaunchDef → List Str → Result Unit
check_ref none features = err Error.launch_undefined
check_ref (some def) features =
    if in_scope def.scope_feature_id features then ok tt else err Error.launch_out_of_scope

unfoldable pub check_refs : Assoc (List Str) → Assoc LaunchDef → Result Unit
check_refs [] defined = ok tt
check_refs ((id, features) ∷ refs) defined =
    check_ref (lookup id defined) features >>= λ _. check_refs refs defined

unfoldable pub check_uniform : (Str → Bool) → Assoc LaunchDef → Result Unit
check_uniform hashable [] = ok tt
check_uniform hashable ((id, def) ∷ defined) =
    if hashable def.entry.dimension
    then check_uniform hashable defined
    else err Error.dimension_not_uniform

-- AffectedFeatures
unfoldable pub affected_features : Str → Assoc (List Str) → List Str
affected_features launch_id refs = sort_strings (set_of (lookup launch_id refs))

-- A scope has the dimension, or is not known.
unfoldable pub scope_has : Str → Option (List Str) → Bool
scope_has dim none = true
scope_has dim (some available) = contains available dim

module _ (scope_dims : Assoc (List Str)) (feature_scopes : Assoc (List Str)) where
  unfoldable pub feature_has : Str → Str → Bool
  feature_has dim feature_id =
      all (λ scope. scope_has dim (lookup scope scope_dims))
        (set_of (lookup feature_id feature_scopes))

  unfoldable pub check_scopes : Assoc (List Str) → Assoc LaunchDef → Result Unit
  check_scopes refs [] = ok tt
  check_scopes refs ((id, def) ∷ defined) =
      if all (feature_has def.entry.dimension) (affected_features id refs)
      then check_scopes refs defined
      else err Error.dimension_not_in_scope

-- CollectLaunches. Both tables of scopes are there, as in every call.
unfoldable pub collect_launches :
    Assoc Config
    → List LaunchFile
    → (Str → Bool)
    → Assoc (List Str)
    → Assoc (List Str)
    → Result LaunchCollection
collect_launches configs files hashable scope_dims feature_scopes = do
  found ← collect_configs configs (record { defined = []; refs = [] })
  defined ← collect_files files found.defined
  _ ← check_refs found.refs defined
  _ ← check_uniform hashable defined
  _ ← check_scopes scope_dims feature_scopes found.refs defined
  ok (record { defined = defined; refs = found.refs })

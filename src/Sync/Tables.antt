-- ===== src/Sync/Tables.antt =====
-- The statements by which SyncConditions of internal/sync/conditions.go writes the tables: the
-- columns of flags, the rows of launches, and the loops over features.
use pbflags.Common.{
  ℕ, ◌-◌, ◌^◌, ◌%◌, Option, none, some, List, [], ◌∷◌, ◌++◌, map, Str, codes, ◌=s◌, contains,
  if◌then◌else◌, is_empty, is_some, Assoc, lookup, put, ℤ, pos, negsuc, int32,
}
use pbflags.Flag.{FlagType}
use pbflags.ConfigFile.Entries.{Config, FlagEntry, LaunchEntry}
use pbflags.Database.{FlagRow, FeatureRow, LaunchRow, Tx, ◌>>◌, pure, exec}
use pbflags.Sync.Definitions.{FlagDef}
use pbflags.Sync.Launches.{LaunchDef, affected_features}

-- flagInfo and featureIndex
pub record FlagInfo : Type 0 where
  pub flag_id : Str
  pub flag_type : FlagType

abbrev pub FeatureIndex : Type 0
FeatureIndex = Assoc (Assoc FlagInfo)

abbrev pub flags_of : Option (Assoc FlagInfo) → Assoc FlagInfo
flags_of none = []
flags_of (some infos) = infos

-- buildFeatureIndex
unfoldable pub build_feature_index : List FlagDef → FeatureIndex → FeatureIndex
build_feature_index [] idx = idx
build_feature_index (d ∷ defs) idx = build_feature_index defs (
    put d.feature_id
      (put d.name (record { flag_id = d.flag_id; flag_type = d.flag_type })
        (flags_of (lookup d.feature_id idx)))
      idx)

-- intsToInt32s
unfoldable pub int_to_int32 : ℤ → ℤ
int_to_int32 (pos n) = int32 n
int_to_int32 (negsuc n) = int32 (2 ^ 32 - 1 - n % 2 ^ 32)

unfoldable pub ints_to_int32s : List ℤ → List ℤ
ints_to_int32s ns = map int_to_int32 ns

-- The columns of a flag's conditions.
pub record Columns : Type 0 where
  pub conditions : Str
  pub dimension_metadata : Str
  pub cel_version : Option Str
  pub condition_count : ℕ

abbrev pub set_columns : Columns → FlagRow → FlagRow
set_columns cols row = record row {
  conditions = cols.conditions;
  dimension_metadata = cols.dimension_metadata;
  cel_version = cols.cel_version;
  condition_count = cols.condition_count;
}

abbrev pub clear_columns : FlagRow → FlagRow
clear_columns row = record row { conditions = []; dimension_metadata = []; cel_version = none }

abbrev pub info_id : Option FlagInfo → Str
info_id none = []
info_id (some info) = info.flag_id

-- The row that a launch inserts; the columns without a value have their defaults.
unfoldable pub new_launch : ℕ → Str → Option Str → LaunchEntry → List Str → LaunchRow
new_launch now id scope entry affected = record {
  launch_id = id;
  scope_feature_id = scope;
  dimension = entry.dimension;
  ramp_percentage = elim entry.ramp_percentage [ none ↦ pos 0 | some pct ↦ pct ];
  ramp_source = elim entry.ramp_percentage [
    | none ↦ codes "unspecified"
    | some pct ↦ codes "config"
  ];
  status = codes "CREATED";
  killed_at = none;
  affected_features = affected;
  description = entry.description;
  created_at = now;
  ramp_steps = ints_to_int32s entry.ramp_steps;
}

-- What ON CONFLICT DO UPDATE leaves of a row that is there: a file without a ramp keeps the row's.
unfoldable pub relaunched : LaunchEntry → List Str → LaunchRow → LaunchRow
relaunched entry affected row =
    let kept = record row {
      dimension = entry.dimension;
      affected_features = affected;
      description = entry.description;
      ramp_steps = ints_to_int32s entry.ramp_steps;
    } in
    elim entry.ramp_percentage [
      | none ↦ kept
      | some pct ↦ record kept { ramp_percentage = pct; ramp_source = codes "config" }
    ]

unfoldable pub upsert_launch :
    ℕ → Str → Option Str → LaunchEntry → List Str → List LaunchRow → List LaunchRow
upsert_launch now id scope entry affected [] = new_launch now id scope entry affected ∷ []
upsert_launch now id scope entry affected (row ∷ rows) =
    let rest = upsert_launch now id scope entry affected rows in
    if row.launch_id =s id then relaunched entry affected row ∷ rows else row ∷ rest

-- The loop over the launches of a feature.
unfoldable pub write_launches : ℕ → Str → Assoc (List Str) → Assoc LaunchEntry → Tx Unit
write_launches now feature_id refs [] s = pure tt s
write_launches now feature_id refs ((id, entry) ∷ launches) s =
    (do
      exec (λ db. record db {
        launches =
            upsert_launch now id (some feature_id) entry (affected_features id refs) db.launches;
      })
      write_launches now feature_id refs launches)
      s

-- The loop over the launches across features.
unfoldable pub write_cross_launches : ℕ → Assoc (List Str) → Assoc LaunchDef → Tx Unit
write_cross_launches now refs [] s = pure tt s
write_cross_launches now refs ((id, def) ∷ defined) s =
    (if is_some def.scope_feature_id then write_cross_launches now refs defined else (do
      exec (λ db. record db {
        launches = upsert_launch now id none def.entry (affected_features id refs) db.launches;
      })
      write_cross_launches now refs defined))
      s

-- IDs
unfoldable pub ids : {A : Type 0} → Assoc A → List Str
ids [] = []
ids ((id, a) ∷ xs) = id ∷ ids xs

unfoldable pub abandon_stale : List Str → List LaunchRow → List LaunchRow
abandon_stale defined [] = []
abandon_stale defined (row ∷ rows) =
    (if contains defined row.launch_id
      then row
      else if row.status =s codes "COMPLETED"
      then row
      else if row.status =s codes "ABANDONED"
      then row
      else record row { status = codes "ABANDONED" })
    ∷ abandon_stale defined rows

unfoldable pub clear_conditions : Str → List FlagRow → List FlagRow
clear_conditions feature_id [] = []
clear_conditions feature_id (row ∷ rows) =
    (if row.feature_id =s feature_id
      then (if is_empty row.conditions then row else clear_columns row)
      else row)
    ∷ clear_conditions feature_id rows

-- The loop over the features without a file.
unfoldable pub clear_stale : FeatureIndex → Assoc Config → Tx Unit
clear_stale [] configs s = pure tt s
clear_stale ((feature_id, infos) ∷ idx) configs s =
    (if is_some (lookup feature_id configs) then clear_stale idx configs else (do
      exec (λ db. record db { flags = clear_conditions feature_id db.flags })
      clear_stale idx configs))
      s

unfoldable pub set_sync_sha : Str → Str → List FeatureRow → List FeatureRow
set_sync_sha feature_id sha [] = []
set_sync_sha feature_id sha (row ∷ rows) =
    (if row.feature_id =s feature_id then record row { sync_sha = some sha } else row)
    ∷ set_sync_sha feature_id sha rows

-- The loop over the features that have a file.
unfoldable pub update_shas : Str → Assoc Config → Tx Unit
update_shas sha [] s = pure tt s
update_shas sha ((feature_id, cfg) ∷ configs) s =
    (do
      exec (λ db. record db { features = set_sync_sha feature_id sha db.features })
      update_shas sha configs)
      s

unfoldable pub ids_of_flags : Assoc FlagInfo → Assoc FlagEntry → List Str
ids_of_flags infos [] = []
ids_of_flags infos ((name, entry) ∷ flags) =
    let rest = ids_of_flags infos flags in
    elim (lookup name infos) [ none ↦ rest | some info ↦ info.flag_id ∷ rest ]

-- syncedFlagIDs
unfoldable pub synced_flag_ids : FeatureIndex → Assoc Config → List Str
synced_flag_ids idx [] = []
synced_flag_ids idx ((feature_id, cfg) ∷ configs) =
    ids_of_flags (flags_of (lookup feature_id idx)) cfg.flags ++ synced_flag_ids idx configs

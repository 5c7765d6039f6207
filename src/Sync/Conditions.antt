-- ===== src/Sync/Conditions.antt =====
-- SyncConditions of internal/sync/conditions.go: the configuration files into the tables. The
-- directory's YAML files are given with what decoding them answers, the maps of parsed files and of
-- features as association lists in some order; the descriptors and their pruning are parameters.
pub mod Written
pub mod Stale
pub mod Steered
pub mod Runs
use pbflags.Common.{
  ℕ, suc, ◌+◌, ◌-◌, ◌^◌, ◌%◌, Bool, true, false, ◌&&◌, not, Option, none, some, List, [], ◌∷◌, ◌++◌,
  map, Str, codes, ◌=s◌, contains, length, if◌then◌else◌, is_empty, is_some, Assoc, lookup, put, ℤ,
  pos, negsuc, int32,
}
use pbflags.Flag.{FlagValue, FlagType}
use pbflags.Conditions.{StoredCondition}
use pbflags.CondCache.{CachedDimMeta}
use pbflags.Classify.{Expr}
use pbflags.ConfigFile.{Floats}
use pbflags.ConfigFile.Entries.{
  RawConfig, Config, FlagEntry, LaunchEntry, Warning, Parsed, parsed, failed, parse,
}
use pbflags.Database.{
  Db, FlagRow, FeatureRow, LaunchRow, LockInfo, Error, Result, ok, err, Tx, ValueCodec, ◌>>=◌, ◌>>◌,
  pure, raise, exec, lift, transaction, update_flag,
}
use pbflags.SyncLock.{check_lock}
use pbflags.SyncClear.{clear_overrides_for_flags_tx}
use pbflags.Sync.Compile.{CompiledFlag, compile_flag}
use pbflags.Sync.Definitions.{FlagDef, answer_of}
use pbflags.Sync.Launches.{
  LaunchDef, LaunchCollection, LaunchFile, affected_features, collect_launches,
}
use pbflags.Sync.Tables.{
  Columns, FeatureIndex, FlagInfo, abandon_stale, build_feature_index, clear_columns,
  clear_conditions, clear_stale, flags_of, ids, ids_of_flags, info_id, int_to_int32, ints_to_int32s,
  new_launch, relaunched, set_columns, set_sync_sha, synced_flag_ids, update_shas, upsert_launch,
  write_cross_launches, write_launches,
}

-- What the descriptors give: the compiler, the bounded and the hashable dimensions, the dimensions
-- of scopes, and the scopes of features.
pub record Descriptors : Type 0 where
  pub compile : Str → Option Expr
  pub bounded : Str → Bool
  pub hashable : Str → Bool
  pub scope_dims : Assoc (List Str)
  pub feature_scopes : Assoc (List Str)

-- A YAML file of the directory, as its two decodings read it: the feature alone, and everything.
pub record Source : Type 0 where
  pub peeked : Option Str
  pub decoded : Option RawConfig

pub data SyncWarning : Type 0 where
  config : Warning → SyncWarning
  unbounded : Str → Str → SyncWarning

-- ConditionResult
pub record ConditionResult : Type 0 where
  pub flags_updated : ℕ
  pub warnings : List SyncWarning

-- The files that are read so far.
pub record Configs : Type 0 where
  pub parsed_configs : Assoc Config
  pub warnings : List SyncWarning

-- peekFeature
unfoldable pub peek_feature : Option Str → Tx Str
peek_feature none s = raise Error.config_error s
peek_feature (some feature) s =
    if is_empty feature then raise Error.config_error s else pure feature s

unfoldable pub types_of : Assoc FlagInfo → Assoc FlagType
types_of [] = []
types_of ((name, info) ∷ infos) = (name, info.flag_type) ∷ types_of infos

unfoldable pub parsed_or_error : Parsed → Tx (Config × List Warning)
parsed_or_error (failed errs) s = raise Error.config_error s
parsed_or_error (parsed cfg warns) s = pure (cfg, warns) s

unfoldable pub from_result : {A : Type 0} → Result A → Tx A
from_result (ok a) s = pure a s
from_result (err e) s = raise e s

-- The loop of the first pass. A later file of a feature takes the place of an earlier one.
unfoldable pub read_configs : Floats → FeatureIndex → List Source → Configs → Tx Configs
read_configs floats idx [] read s = pure read s
read_configs floats idx (source ∷ sources) read s =
    (do
      feature_id ← peek_feature source.peeked
      infos ← lift Error.feature_not_in_proto (lookup feature_id idx)
      raw ← lift Error.config_error source.decoded
      found ← parsed_or_error (parse floats (types_of infos) raw)
      read_configs floats idx sources (record {
        parsed_configs = put feature_id found.0 read.parsed_configs;
        warnings = read.warnings ++ map SyncWarning.config found.1;
      }))
      s

module _ (codec : ValueCodec) (marshal_conditions : List StoredCondition → Option Str)
    (marshal_dims : CachedDimMeta → Option Str) (equal : Option FlagValue → Option FlagValue → Bool)
    (cel_version : Str) (desc : Descriptors) where
  -- The columns that a compiled flag is stored in.
  unfoldable pub columns_of : CompiledFlag → Tx Columns
  columns_of compiled s =
      (if is_empty compiled.conditions
          then pure (record {
            conditions = [];
            dimension_metadata = [];
            cel_version = none;
            condition_count = 0;
          })
          else (do
            cond_bytes ← lift Error.marshal_error (marshal_conditions compiled.conditions)
            dim_bytes ←
                if is_empty compiled.dim_meta
                then pure []
                else lift Error.marshal_error (marshal_dims compiled.dim_meta)
            pure (record {
              conditions = cond_bytes;
              dimension_metadata = dim_bytes;
              cel_version = some cel_version;
              condition_count = length compiled.conditions;
            })))
        s

  -- The loop over the flags of a feature.
  unfoldable pub write_flags :
      Assoc FlagInfo → Assoc FlagEntry → ConditionResult → Tx ConditionResult
  write_flags infos [] result s = pure result s
  write_flags infos ((name, entry) ∷ flags) result s =
      (do
        compiled ← from_result (compile_flag codec.marshal desc.compile equal desc.bounded entry)
        cols ← columns_of compiled
        exec (λ db. record db {
          flags = update_flag (info_id (lookup name infos)) (set_columns cols) db.flags;
        })
        write_flags infos flags (record {
          flags_updated = suc result.flags_updated;
          warnings = result.warnings ++ map (SyncWarning.unbounded name) compiled.warnings;
        }))
        s

  -- The loop of the second pass.
  unfoldable pub write_configs :
      ℕ → FeatureIndex → Assoc (List Str) → Assoc Config → ConditionResult → Tx ConditionResult
  write_configs now idx refs [] result s = pure result s
  write_configs now idx refs ((feature_id, cfg) ∷ configs) result s =
      (do
        written ← write_flags (flags_of (lookup feature_id idx)) cfg.flags result
        write_launches now feature_id refs cfg.launches
        write_configs now idx refs configs written)
        s

  -- The statements of SyncConditions between Begin and Commit.
  unfoldable pub sync_files :
      Floats
      → ℕ
      → FeatureIndex
      → List Source
      → List LaunchFile
      → Str
      → Option Str
      → Tx ConditionResult
  sync_files floats now idx sources files sha pruned = do
    read ← read_configs floats idx sources (record { parsed_configs = []; warnings = [] })
    lc ← from_result (
        collect_launches read.parsed_configs files desc.hashable desc.scope_dims
          desc.feature_scopes)
    result ←
        write_configs now idx lc.refs read.parsed_configs
          (record { flags_updated = 0; warnings = read.warnings })
    write_cross_launches now lc.refs lc.defined
    exec (λ db. record db { launches = abandon_stale (ids lc.defined) db.launches })
    clear_stale idx read.parsed_configs
    if is_empty sha then pure tt else update_shas sha read.parsed_configs
    _ ←
        clear_overrides_for_flags_tx codec (codes "conditions")
          (synced_flag_ids idx read.parsed_configs)
    bytes ← lift Error.descriptor_error pruned
    exec (λ db. record db { context_descriptor = some bytes })
    pure result

module _ (codec : ValueCodec) (marshal_conditions : List StoredCondition → Option Str)
    (marshal_dims : CachedDimMeta → Option Str) (equal : Option FlagValue → Option FlagValue → Bool)
    (cel_version : Str) (floats : Floats) (now : ℕ) (defs : List FlagDef) (files : List LaunchFile)
    (sha : Str) (pruned : Option Str) (faults : List Bool) (db : Db) where
  -- Once the lock is known to be free: the descriptors and the directory are read, or fail.
  unfoldable pub conditions_unlocked :
      Option Descriptors → Option (List Source) → Result ConditionResult × Db
  conditions_unlocked none sources = (err Error.descriptor_error, db)
  conditions_unlocked (some desc) none = (err Error.config_error, db)
  conditions_unlocked (some desc) (some sources) =
      transaction
        (sync_files codec marshal_conditions marshal_dims equal cel_version desc floats now
          (build_feature_index defs []) sources files sha pruned)
        faults db

  unfoldable pub conditions_gated :
      Option Descriptors
      → Option (List Source)
      → Result (Option LockInfo)
      → Result ConditionResult × Db
  conditions_gated desc sources (err e) = (err e, db)
  conditions_gated desc sources (ok (some held)) = (err (Error.lock_held held), db)
  conditions_gated desc sources (ok none) = conditions_unlocked desc sources

  -- SyncConditions
  unfoldable pub sync_conditions :
      Option Descriptors → Option (List Source) → List Bool → Result ConditionResult × Db
  sync_conditions desc sources lock_faults =
      conditions_gated desc sources
        (answer_of (check_lock (record { db = db; faults = lock_faults })))

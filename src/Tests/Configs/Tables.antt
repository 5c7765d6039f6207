-- ===== src/Tests/Configs/Tables.antt =====
-- A configuration from its files through the tables to the evaluator's answer.
use pbflags.Common.{
  All, pos, ◌≡◌, refl, true, Option, none, some, [], ◌∷◌, codes, Str, ◌=s◌, lookup, put, contains,
  int32,
}
use pbflags.Common.Decimal.{decimal}
use pbflags.Flag.{FlagType}
use pbflags.Classify.{Expr, classify_dimensions}
use pbflags.ConfigFile.{Raw, Floats, convert_value, ok}
use pbflags.ConfigFile
use pbflags.ConfigFile.Entries.{
  parse, parse_flags, parse_launches, collect, quietly, convert_named, convert_flag_entry,
  convert_conditions, convert_condition, condition_value, convert_launch, has_otherwise,
  convert_launch_entry, parse_cross_feature_launch, validate_ramp_steps, check_steps, missing_flags,
}
use pbflags.Sync.Compile.{
  compile_flag, compile_value, compile_chain, stored_chain, stored_condition, condition_ast,
  bare_condition, with_launch, unbounded_names,
}
use pbflags.Database
use pbflags.Database.{ValueCodec, Db, FlagRow, find_flag}
use pbflags.Database.Ends.{Atomic}
use pbflags.Sync.Definitions.{FlagDef, sync_definitions}
use pbflags.Sync.Tables.{
  abandon_stale, build_feature_index, clear_stale, ids, ids_of_flags, int_to_int32, ints_to_int32s,
  new_launch, set_sync_sha, synced_flag_ids, update_shas, upsert_launch, write_cross_launches,
  write_launches,
}
use pbflags.Sync.Conditions.{
  ConditionResult, Configs, Descriptors, Source, columns_of, conditions_gated, conditions_unlocked,
  from_result, parsed_or_error, peek_feature, read_configs, sync_conditions, sync_files, types_of,
  write_configs, write_flags,
}
use pbflags.Sync.Conditions.Runs.{Answers}
use pbflags.Classify
use pbflags.SyncLock.{check_lock, get_sync_lock}
use pbflags.SyncClear.{clear_overrides_for_flags_tx, clear_rows}
use pbflags.Sync.Conditions.Written.{all_writes, writes_of}
use pbflags.Sync.Conditions.Runs.Values.{Evaluates, sync_conditions-evaluated}
use pbflags.Sync.Conditions.Runs.Synced.{SyncedConditions, sync_conditions-SyncedConditions}
use pbflags.Tests.Configs.{whole, raw_config, config}
use pbflags.Tests.Admin.{db, flag_row, db-HasKeys}
use pbflags.Tests.Stores.{exp_row-IsLaunch, launched}
use pbflags.AdminStore.{update_launch_ramp}
use pbflags.AdminLife.{ramp}
use pbflags.AdminLife.Launches.{IsLaunch}
use pbflags.Sync.Life.{Reach, here, next, admin, definitions, conditions, Reach-IsLaunch}
use pbflags.Sync.Launches.{
  collect_launches, collect_configs, define_scoped, define, flag_refs, condition_refs,
  add_launch_ref, add_ref, collect_files, check_refs, check_ref, in_scope, check_uniform,
  check_scopes, affected_features, feature_has, scope_has,
}
use pbflags.CondCache.{sort_strings, CachedDimMeta}
use pbflags.Tests.{pro, full_launch}
use pbflags.Tests.Configs.Synced.{
  marshal, unmarshal, marshal_conditions, compile, run, codec, wire, holds, equal, bounded,
  scope_dims, feature_scopes,
}

abbrev desc : Descriptors
desc = record {
  compile = compile;
  bounded = bounded;
  hashable = λ dim. true;
  scope_dims = scope_dims;
  feature_scopes = feature_scopes;
}

abbrev source : Source
source = record { peeked = some (codes "checkout"); decoded = some raw_config }

abbrev tax : FlagDef
tax = record {
  flag_id = codes "checkout/2";
  feature_id = codes "checkout";
  field_num = 2;
  name = codes "tax";
  flag_type = FlagType.type_string;
  layer = [];
  default = none;
  supported_values = none;
  feature_display_name = codes "Checkout";
  feature_description = [];
  feature_owner = [];
}

abbrev values : ValueCodec
values = record { marshal = marshal; unmarshal = unmarshal }

-- The bytes of metadata do not matter here.
abbrev marshal_dims : CachedDimMeta → Option Str
marshal_dims meta = some (codes "d")

sync_conditions-SyncedConditions_example :
    Atomic
      (λ _ after.
        SyncedConditions values marshal_conditions marshal_dims equal
          (codes "v1")
          whole
          20
          (tax ∷ [])
          []
          (codes "sha")
          (some [])
          []
          db
          (some desc)
          (some (source ∷ []))
          after)
      db
      (sync_conditions values marshal_conditions marshal_dims equal
        (codes "v1")
        whole
        20
        (tax ∷ [])
        []
        (codes "sha")
        (some [])
        []
        db
        (some desc)
        (some (source ∷ []))
        [])
sync_conditions-SyncedConditions_example =
    sync_conditions-SyncedConditions values marshal_conditions marshal_dims equal (codes "v1") whole
      20 (tax ∷ []) [] (codes "sha") (some []) [] db (some desc) (some (source ∷ [])) []

abbrev defined : Db
defined = (sync_definitions values 18 (tax ∷ []) [] [] launched).1

abbrev ramped : Db
ramped = (update_launch_ramp values (codes "exp") (pos 50) (codes "ui") (codes "ann") [] defined).1

-- The tables after syncs around a call of the admin service.
abbrev steered : Db
steered =
    (sync_conditions values marshal_conditions marshal_dims equal (codes "v1") whole 20 (tax ∷ [])
      [] (codes "sha") (some []) [] ramped (some desc) (some (source ∷ [])) []).1

three_steps :
    Reach values decimal marshal_conditions marshal_dims equal (codes "v1") whole launched steered
three_steps =
    next
      (next (next here (definitions 18 (tax ∷ []) [] [] launched db-HasKeys))
        (admin (ramp (codes "exp") (pos 50) (codes "ui") (codes "ann") [] defined)))
      (conditions 20 (tax ∷ []) [] (codes "sha") (some []) [] ramped (some desc)
        (some (source ∷ [])) [])

Reach-IsLaunch_example : All IsLaunch steered.launches
Reach-IsLaunch_example =
    Reach-IsLaunch values decimal marshal_conditions marshal_dims equal (codes "v1") whole
      (exp_row-IsLaunch, tt) three_steps

-- The flag's row before and after the sync.
abbrev tax_row : FlagRow
tax_row = record flag_row {
  flag_id = codes "checkout/2";
  field_number = 2;
  flag_type = codes "STRING";
}

abbrev tax_db : Db
tax_db = record db { flags = tax_row ∷ [] }

abbrev synced_row : FlagRow
synced_row = record tax_row {
  conditions = codes "c";
  dimension_metadata = [];
  cel_version = some (codes "v1");
  condition_count = 2;
}

abbrev read : Configs
read = record { parsed_configs = (codes "checkout", config) ∷ []; warnings = [] }

files_read :
    Answers
      (read_configs whole
        (build_feature_index (tax ∷ []) [])
        (source ∷ [])
        (record { parsed_configs = []; warnings = [] }))
      read
unfolding read_configs peek_feature types_of parsed_or_error build_feature_index Database.pure
    Database.lift Database.◌>>=◌ parse parse_flags parse_launches collect quietly convert_named
    convert_flag_entry convert_conditions convert_condition condition_value convert_launch
    has_otherwise convert_launch_entry parse_cross_feature_launch validate_ramp_steps check_steps
    missing_flags convert_value ConfigFile.convert_typed ConfigFile.to_text ConfigFile.within lookup
    put ◌=s◌
files_read s = refl

abbrev done : ConditionResult
done = record { flags_updated = 1; warnings = [] }

sync_runs :
    ((sync_conditions values marshal_conditions marshal_dims equal
        (codes "v1")
        whole
        20
        (tax ∷ [])
        []
        (codes "sha")
        (some [])
        []
        tax_db
        (some desc)
        (some (source ∷ []))
        []).0
      ≡ Database.ok done)
    × (find_flag
          (codes "checkout/2")
          (sync_conditions values marshal_conditions marshal_dims equal
            (codes "v1")
            whole
            20
            (tax ∷ [])
            []
            (codes "sha")
            (some [])
            []
            tax_db
            (some desc)
            (some (source ∷ []))
            []).1.flags
        ≡ some synced_row)
unfolding sync_conditions conditions_gated conditions_unlocked sync_files check_lock get_sync_lock
    Database.query Database.exec Database.transaction Database.committed Database.statement
    Database.update_flag collect_launches collect_configs define_scoped define flag_refs
    condition_refs add_launch_ref add_ref collect_files check_refs check_ref in_scope check_uniform
    check_scopes affected_features feature_has scope_has sort_strings contains from_result
    compile_flag compile_value compile_chain stored_chain stored_condition condition_ast
    bare_condition with_launch unbounded_names classify_dimensions Classify.classify_all
    Classify.collect_usages Classify.add_refs Classify.condition_refs Classify.walk_dim_refs
    write_configs write_flags columns_of write_launches upsert_launch new_launch ints_to_int32s
    int_to_int32 int32 write_cross_launches ids abandon_stale clear_stale update_shas set_sync_sha
    synced_flag_ids ids_of_flags clear_overrides_for_flags_tx clear_rows Database.picked find_flag
    read_configs peek_feature types_of parsed_or_error build_feature_index Database.pure
    Database.lift Database.◌>>=◌ parse parse_flags parse_launches collect quietly convert_named
    convert_flag_entry convert_conditions convert_condition condition_value convert_launch
    has_otherwise convert_launch_entry parse_cross_feature_launch validate_ramp_steps check_steps
    missing_flags convert_value ConfigFile.convert_typed ConfigFile.to_text ConfigFile.within lookup
    put ◌=s◌
sync_runs = (refl, refl)

sync_conditions-evaluated_example :
    Evaluates values marshal_conditions marshal_dims equal
      (codes "v1")
      whole
      20
      (tax ∷ [])
      []
      (codes "sha")
      (some [])
      []
      []
      tax_db
      desc
      (source ∷ [])
      run
      codec
      wire
      holds
      (full_launch ∷ [])
      (some pro)
      (λ s e c made. refl)
      (codes "checkout/2")
      synced_row
      (all_writes (build_feature_index (tax ∷ []) []) read.parsed_configs)
unfolding all_writes writes_of build_feature_index ids contains lookup put ◌=s◌
sync_conditions-evaluated_example =
    sync_conditions-evaluated values marshal_conditions marshal_dims equal (codes "v1") whole 20
      (tax ∷ []) [] (codes "sha") (some []) [] [] tax_db desc (source ∷ []) run codec wire holds
      (full_launch ∷ []) (some pro) (λ s e c made. refl) read files_read done (codes "checkout/2")
      synced_row sync_runs.0 sync_runs.1 refl refl

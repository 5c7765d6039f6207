-- ===== src/Tests/Configs.antt =====
-- A configuration file from its YAML to its entries.
pub mod Synced
pub mod Tables
use pbflags.Common.{
  ◌≡◌, refl, sym, ap, Bool, true, false, ◌&&◌, ◌||◌, not, Option, none, some, List, [], ◌∷◌, pos,
  codes, Str, ◌=s◌, =s_iff, is_some, is_empty, if◌then◌else◌, lookup, inr, Assoc, arith, put,
  contains, int32,
}
use pbflags.Flag.{FlagValue, FlagType}
use pbflags.Message.{Message}
use pbflags.Classify.{Expr, classify_dimensions}
use pbflags.Conditions.{
  StoredCondition, Codec, Program, is_true, launch_map, compile_conditions, evaluate_conditions,
}
use pbflags.ConfigFile.{Raw, Floats, convert_value, ok}
use pbflags.ConfigFile
use pbflags.ConfigFile.Typed.{is_ok, fits, typed, convert_value-typed, convert_value-fits}
use pbflags.ConfigFile.Entries.{
  RawCondition, RawFlagEntry, FlagEntry, LaunchEntry, RawConfig, Config, parse, parse_flags,
  parse_launches, collect, quietly, convert_named, convert_flag_entry, convert_conditions,
  convert_condition, condition_value, convert_launch, has_otherwise, convert_launch_entry,
  parse_cross_feature_launch, validate_ramp_steps, check_steps, missing_flags,
}
use pbflags.ConfigFile.Entries.Chains.{
  IsEntry, ends_otherwise, convert_flag_entry-quiet, all_typed, when_first,
}
use pbflags.ConfigFile.Entries.Files.{
  parse-accepts, parse-IsEntry, parse_cross_feature_launch-accepts, is_launch_entry, is_parsed,
  flags_ok, launches_ok,
}
use pbflags.Sync.Compile.{
  CompiledFlag, compile_flag, compile_value, compile_chain, stored_chain, stored_condition,
  condition_ast, bare_condition, with_launch, unbounded_names,
}
use pbflags.Database
use pbflags.Database.{ValueCodec, Db, FlagRow, find_flag}
use pbflags.Database.Ends.{Atomic}
use pbflags.Sync.Stored.{IsWire}
use pbflags.Sync.Definitions.{FlagDef}
use pbflags.Sync.Tables.{
  abandon_stale, build_feature_index, clear_stale, ids, ids_of_flags, int_to_int32, ints_to_int32s,
  new_launch, set_sync_sha, synced_flag_ids, update_shas, upsert_launch, write_cross_launches,
  write_launches,
}
use pbflags.Sync.Conditions.{
  ConditionResult, Configs, Descriptors, Source, columns_of, conditions_gated, conditions_unlocked,
  from_result, parsed_or_error, peek_feature, read_configs, sync_conditions, sync_files, types_of,
  write_configs, write_flags,
}
use pbflags.Sync.Conditions.Runs.{Answers}
use pbflags.Classify
use pbflags.SyncLock.{check_lock, get_sync_lock}
use pbflags.SyncClear.{clear_overrides_for_flags_tx, clear_rows}
use pbflags.Sync.Conditions.Written.{all_writes, writes_of}
use pbflags.Sync.Conditions.Runs.Values.{Evaluates, sync_conditions-evaluated}
use pbflags.Sync.Conditions.Runs.Synced.{SyncedConditions, sync_conditions-SyncedConditions}
use pbflags.Tests.Admin.{db, flag_row}
use pbflags.Sync.Evaluated.{configured, compile_flag-configured}
use pbflags.Sync.Launches.{
  LaunchDef, LaunchCollection, collect_launches, collect_configs, define_scoped, define, flag_refs,
  condition_refs, add_launch_ref, add_ref, collect_files, check_refs, check_ref, in_scope,
  check_uniform, check_scopes, affected_features, feature_has, scope_has,
}
use pbflags.Sync.Launches.Sound.{refers, in_flags, in_conditions, is_launch, collect_launches_sound}
use pbflags.CondCache.{sort_strings, CachedDimMeta}
use pbflags.Tests.{pro, plan, is_pro, full_launch}

-- Doubles that are whole numbers, by their value.
abbrev whole : Floats
whole = record { of_int = λ n. 0; to_int64 = λ x. pos x; differ = λ x y. true }

abbrev text_is_pro : Str
text_is_pro = codes "ctx.plan == \"pro\""

abbrev a : Str
a = codes "a"

abbrev raw_for_pro : RawCondition
raw_for_pro = record {
  when_text = text_is_pro;
  value = Raw.text a;
  otherwise = Raw.null;
  launch = some (record { id = codes "exp"; value = Raw.text (codes "b") });
  has_value = true;
  has_other = false;
  comment = [];
}

abbrev raw_otherwise : RawCondition
raw_otherwise = record {
  when_text = [];
  value = Raw.null;
  otherwise = Raw.text (codes "z");
  launch = none;
  has_value = false;
  has_other = true;
  comment = [];
}

abbrev raw_entry : RawFlagEntry
raw_entry = record {
  value = Raw.null;
  conditions = raw_for_pro ∷ raw_otherwise ∷ [];
  launch = none;
  has_value = false;
}

abbrev launch : LaunchEntry
launch = record {
  dimension = plan;
  ramp_percentage = some (pos 100);
  description = [];
  ramp_steps = pos 5 ∷ pos 50 ∷ [];
}

abbrev raw_config : RawConfig
raw_config = record {
  feature = codes "checkout";
  flags = (codes "tax", raw_entry) ∷ [];
  launches = (codes "exp", launch) ∷ [];
}

abbrev types : Assoc FlagType
types = (codes "tax", FlagType.type_string) ∷ []

-- What Parse makes of the entry.
abbrev entry : FlagEntry
entry = record {
  value = none;
  conditions =
      record {
        when_text = text_is_pro;
        value = FlagValue.string_value a;
        comment = [];
        launch = some (record { id = codes "exp"; value = FlagValue.string_value (codes "b") });
      }
      ∷ record {
        when_text = [];
        value = FlagValue.string_value (codes "z");
        comment = [];
        launch = none;
      }
      ∷ [];
  launch = none;
}

abbrev config : Config
config = record {
  feature = codes "checkout";
  flags = (codes "tax", entry) ∷ [];
  launches = (codes "exp", launch) ∷ [];
}

parse-accepts_example : is_parsed (parse whole types raw_config) ≡ (
    not (is_empty raw_config.feature)
    && (not (is_empty raw_config.flags) || not (is_empty raw_config.launches))
    && flags_ok whole types raw_config.flags
    && launches_ok raw_config.launches)
parse-accepts_example = parse-accepts whole types raw_config

parse-IsEntry_example : (ft : FlagType) × (lookup (codes "tax") types ≡ some ft) × IsEntry ft entry
unfolding parse parse_flags parse_launches collect quietly convert_named convert_flag_entry
    convert_conditions convert_condition condition_value convert_launch has_otherwise
    convert_launch_entry parse_cross_feature_launch validate_ramp_steps check_steps missing_flags
    convert_value ConfigFile.convert_typed ConfigFile.to_text ConfigFile.within lookup ◌=s◌
parse-IsEntry_example = parse-IsEntry whole types raw_config config [] (codes "tax") entry refl refl

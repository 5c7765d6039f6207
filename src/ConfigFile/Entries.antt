-- ===== src/ConfigFile/Entries.antt =====
-- internal/configfile/configfile.go: entries of a flag and of launches, and the whole file.
-- Maps are association lists in some order; the decoder refuses a key that stands twice.
pub mod Chains
pub mod Files
use pbflags.Common.{
  ℕ, zero, suc, Bool, true, false, ◌||◌, ◌&&◌, not, Option, none, some, List, [], ◌∷◌, ◌++◌, Str,
  if◌then◌else◌, is_empty, is_some, ℤ, pos, ltb_ℤ, leb_ℤ, Assoc, lookup,
}
use pbflags.Flag.{FlagValue, FlagType}
use pbflags.ConfigFile.{Raw, Floats, ConfigError, Checked, ok, err, ◌>>=◌, within, convert_value}

-- rawLaunchOverride
pub record RawLaunchOverride : Type 0 where
  pub id : Str
  pub value : Raw

-- rawCondition; a key that is absent leaves an empty text or null.
pub record RawCondition : Type 0 where
  pub when_text : Str
  pub value : Raw
  pub otherwise : Raw
  pub launch : Option RawLaunchOverride
  pub has_value : Bool
  pub has_other : Bool
  pub comment : Str

-- rawFlagEntry
pub record RawFlagEntry : Type 0 where
  pub value : Raw
  pub conditions : List RawCondition
  pub launch : Option RawLaunchOverride
  pub has_value : Bool

-- LaunchEntry and rawLaunchEntry
pub record LaunchEntry : Type 0 where
  pub dimension : Str
  pub ramp_percentage : Option ℤ
  pub description : Str
  pub ramp_steps : List ℤ

-- LaunchOverride and FlagLaunchOverride
pub record LaunchOverride : Type 0 where
  pub id : Str
  pub value : FlagValue

-- Condition
pub record Condition : Type 0 where
  pub when_text : Str
  pub value : FlagValue
  pub comment : Str
  pub launch : Option LaunchOverride

-- FlagEntry
pub record FlagEntry : Type 0 where
  pub value : Option FlagValue
  pub conditions : List Condition
  pub launch : Option LaunchOverride

pub data Warning : Type 0 where
  no_otherwise not_in_config : Str → Warning

module _ (floats : Floats) (ft : FlagType) where
  -- A launch override, with the error for one that has no id.
  unfoldable pub convert_launch :
      ConfigError
      → (ConfigError → ConfigError)
      → Option RawLaunchOverride
      → Checked (Option LaunchOverride)
  convert_launch missing about none = ok none
  convert_launch missing about (some raw) = if is_empty raw.id then err missing else do
    lv ← within about (convert_value floats raw.value ft)
    ok (some (record { id = raw.id; value = lv }))

  -- The value of a condition, after the checks on its keys.
  unfoldable pub condition_value : ℕ → RawCondition → Bool → Checked Raw
  condition_value i rc is_last =
      if not (is_empty rc.when_text) && rc.has_other
      then err (ConfigError.when_and_otherwise i)
      else if is_empty rc.when_text && not rc.has_other
      then err (ConfigError.no_when_or_otherwise i)
      else if rc.has_other && not is_last
      then err ConfigError.otherwise_not_last
      else if rc.has_other
      then ok rc.otherwise
      else if not rc.has_value
      then err (ConfigError.condition_without_value i)
      else ok rc.value

  unfoldable pub convert_condition : ℕ → RawCondition → Bool → Checked Condition
  convert_condition i rc is_last = do
    val ← condition_value i rc is_last
    fv ← convert_value floats val ft
    launch ←
        convert_launch (ConfigError.condition_launch_without_id i) ConfigError.in_launch rc.launch
    ok (record { when_text = rc.when_text; value = fv; comment = rc.comment; launch = launch })

  -- The loop over the conditions.
  unfoldable pub convert_conditions : ℕ → List RawCondition → Checked (List Condition)
  convert_conditions i [] = ok []
  convert_conditions i (rc ∷ rest) =
      let later = convert_conditions (suc i) rest in
      do cond ← convert_condition i rc (is_empty rest); conds ← later; ok (cond ∷ conds)

  -- hasOtherwise
  unfoldable pub has_otherwise : List RawCondition → Bool
  has_otherwise [] = false
  has_otherwise (rc ∷ rest) = rc.has_other || has_otherwise rest

  -- convertFlagEntry
  unfoldable pub convert_flag_entry : Str → RawFlagEntry → Checked (FlagEntry × List Warning)
  convert_flag_entry name raw =
      if raw.has_value && not (is_empty raw.conditions)
      then err ConfigError.value_and_conditions
      else if not raw.has_value && is_empty raw.conditions
      then err ConfigError.no_value_or_conditions
      else if raw.has_value
      then (do
        fv ← convert_value floats raw.value ft
        launch ← convert_launch ConfigError.launch_without_id ConfigError.in_launch raw.launch
        ok (record { value = some fv; conditions = []; launch = launch }, []))
      else (do
        conds ← convert_conditions 0 raw.conditions
        ok (
          record { value = none; conditions = conds; launch = none },
          if has_otherwise raw.conditions then [] else Warning.no_otherwise name ∷ [],
        ))

-- The loop of validateRampSteps, after the step `prev`.
unfoldable pub check_steps : ℕ → Option ℤ → List ℤ → Checked Unit
check_steps i prev [] = ok tt
check_steps i prev (s ∷ steps) =
    let rest = check_steps (suc i) (some s) steps in
    if ltb_ℤ s (pos 0) || ltb_ℤ (pos 100) s
    then err (ConfigError.step_out_of_range i)
    else elim prev [
      | none ↦ rest
      | some p ↦ if leb_ℤ s p then err (ConfigError.steps_not_ascending i) else rest
    ]

-- validateRampSteps
unfoldable pub validate_ramp_steps : List ℤ → Checked Unit
validate_ramp_steps steps = check_steps 0 none steps

abbrev pub ramp_in_range : Option ℤ → Bool
ramp_in_range none = true
ramp_in_range (some pct) = not (ltb_ℤ pct (pos 0) || ltb_ℤ (pos 100) pct)

-- ParseCrossFeatureLaunch, after the decoding; a launch of a feature is checked in the same way.
unfoldable pub parse_cross_feature_launch : LaunchEntry → Checked LaunchEntry
parse_cross_feature_launch raw =
    if is_empty raw.dimension
    then err ConfigError.no_dimension
    else if not (ramp_in_range raw.ramp_percentage)
    then err ConfigError.ramp_out_of_range
    else do validate_ramp_steps raw.ramp_steps >>= (λ _. ok raw)

unfoldable pub convert_launch_entry : Str → LaunchEntry → Checked LaunchEntry
convert_launch_entry launch_id raw =
    if is_empty launch_id then err ConfigError.empty_launch_id else parse_cross_feature_launch raw

-- rawConfig and Config
pub record RawConfig : Type 0 where
  pub feature : Str
  pub flags : Assoc RawFlagEntry
  pub launches : Assoc LaunchEntry

pub record Config : Type 0 where
  pub feature : Str
  pub flags : Assoc FlagEntry
  pub launches : Assoc LaunchEntry

-- What the loops of Parse collect.
pub record Collected (A : Type 0) : Type 0 where
  pub entries : Assoc A
  pub warnings : List Warning
  pub errs : List ConfigError

unfoldable pub collect : {A : Type 0} → Str → Checked (A × List Warning) → Collected A → Collected A
collect name (ok (entry, warns)) c = record {
  entries = (name, entry) ∷ c.entries;
  warnings = warns ++ c.warnings;
  errs = c.errs;
}
collect name (err e) c = record c { errs = e ∷ c.errs }

module _ (floats : Floats) (flag_types : Assoc FlagType) where
  unfoldable pub convert_named :
      Str → RawFlagEntry → Option FlagType → Checked (FlagEntry × List Warning)
  convert_named name raw none = err ConfigError.not_in_proto
  convert_named name raw (some ft) = convert_flag_entry floats ft name raw

  -- The loop over the flags.
  unfoldable pub parse_flags : Assoc RawFlagEntry → Collected FlagEntry
  parse_flags [] = record { entries = []; warnings = []; errs = [] }
  parse_flags ((name, raw) ∷ rest) =
      collect name (convert_named name raw (lookup name flag_types)) (parse_flags rest)

  -- The warnings for flags of the proto that the file does not name.
  unfoldable pub missing_flags : Assoc FlagType → Assoc RawFlagEntry → List Warning
  missing_flags [] raw = []
  missing_flags ((name, ft) ∷ types) raw =
      let rest = missing_flags types raw in
      if is_some (lookup name raw) then rest else Warning.not_in_config name ∷ rest

-- A launch has no warnings.
unfoldable pub quietly : {A : Type 0} → Checked A → Checked (A × List Warning)
quietly (ok a) = ok (a, [])
quietly (err e) = err e

-- The loop over the launches.
unfoldable pub parse_launches : Assoc LaunchEntry → Collected LaunchEntry
parse_launches [] = record { entries = []; warnings = []; errs = [] }
parse_launches ((id, raw) ∷ rest) =
    collect id (quietly (convert_launch_entry id raw)) (parse_launches rest)

-- The answer of Parse: all errors, or the configuration with the warnings.
pub data Parsed : Type 0 where
  failed : List ConfigError → Parsed
  parsed : Config → List Warning → Parsed

module _ (floats : Floats) (flag_types : Assoc FlagType) where
  -- Parse, after the decoding.
  unfoldable pub parse : RawConfig → Parsed
  parse raw =
      let flags = parse_flags floats flag_types raw.flags in
      let launches = parse_launches raw.launches in
      if is_empty raw.feature
      then failed (ConfigError.no_feature ∷ [])
      else if is_empty raw.flags && is_empty raw.launches
      then failed (ConfigError.no_flags ∷ [])
      else if not (is_empty (flags.errs ++ launches.errs))
      then failed (flags.errs ++ launches.errs)
      else parsed
          (record { feature = raw.feature; flags = flags.entries; launches = launches.entries })
          (flags.warnings ++ missing_flags floats flag_types flag_types raw.flags)

-- ===== src/ConfigFile/Entries/Files/Ramped.antt =====
-- Every launch that Parse and ParseCrossFeatureLaunch (internal/configfile/configfile.go) keep has a
-- ramp between 0 and 100, if any.
use pbflags.Common.{
  ◌≡◌, refl, true, Str, [], ◌∷◌, Assoc, All, arith, List, ◌++◌, is_empty, Bool-cases, inl, inr,
}
use pbflags.Flag.{FlagType}
use pbflags.ConfigFile.{Floats, Checked, ok, err}
use pbflags.ConfigFile.Entries.{
  LaunchEntry, RawConfig, Config, Collected, Warning, parsed, parse, parse_launches, parse_flags,
  collect, quietly, convert_launch_entry, parse_cross_feature_launch, validate_ramp_steps,
  ramp_in_range,
}

abbrev pub IsRamped : LaunchEntry → Type 0
IsRamped entry = ramp_in_range entry.ramp_percentage ≡ true

-- All launches of a map.
abbrev pub AllRamped : Assoc LaunchEntry → Type 0
AllRamped launches = All (λ named. IsRamped named.1) launches

pub parse_cross_feature_launch-IsRamped :
    (raw entry : LaunchEntry) → parse_cross_feature_launch raw ≡ ok entry → IsRamped entry
unfolding parse_cross_feature_launch validate_ramp_steps
parse_cross_feature_launch-IsRamped raw entry h = ground (arith, h)

convert_launch_entry-IsRamped :
    (id : Str) (raw entry : LaunchEntry) → convert_launch_entry id raw ≡ ok entry → IsRamped entry
unfolding convert_launch_entry
convert_launch_entry-IsRamped id raw entry h = elim (Bool-cases (is_empty id)) [
  | inl empty ↦ absurd (ground (arith, h, empty))
  | inr there ↦ parse_cross_feature_launch-IsRamped raw entry (rw there at h)
]

collect-AllRamped :
    (id : Str) (m : Checked LaunchEntry) (rest : Collected LaunchEntry)
    → ((entry : LaunchEntry) → m ≡ ok entry → IsRamped entry)
    → AllRamped rest.entries
    → AllRamped (collect id (quietly m) rest).entries
unfolding collect quietly
collect-AllRamped id (ok entry) rest first later = (first entry refl, later)
collect-AllRamped id (err e) rest first later = later

parse_launches-AllRamped : (ls : Assoc LaunchEntry) → AllRamped (parse_launches ls).entries
unfolding parse_launches
parse_launches-AllRamped [] = tt
parse_launches-AllRamped ((id, raw) ∷ rest) =
    collect-AllRamped id (convert_launch_entry id raw) (parse_launches rest)
      (convert_launch_entry-IsRamped id raw) (parse_launches-AllRamped rest)

module _ (floats : Floats) (flag_types : Assoc FlagType) where
  parsed_launches :
      (raw : RawConfig) (cfg : Config) (warns : List Warning)
      → parse floats flag_types raw ≡ parsed cfg warns
      → cfg.launches ≡ (parse_launches raw.launches).entries
  unfolding parse
  parsed_launches raw cfg warns h =
      elim (Bool-cases (
        is_empty
          ((parse_flags floats flag_types raw.flags).errs ++ (parse_launches raw.launches).errs))) [
            | inl fine ↦ ground (arith, h)
            | inr bad ↦ absurd (ground (arith, h))
          ]

  pub parse-AllRamped :
      (raw : RawConfig) (cfg : Config) (warns : List Warning)
      → parse floats flag_types raw ≡ parsed cfg warns
      → AllRamped cfg.launches
  parse-AllRamped raw cfg warns h =
      rw (parsed_launches raw cfg warns h) (parse_launches-AllRamped raw.launches)

-- ===== src/ConfigFile/Entries/Files/All.antt =====
-- Every entry that Parse (internal/configfile/configfile.go) keeps is of some type.
use pbflags.Common.{◌≡◌, refl, Str, List, [], ◌∷◌, Assoc, All, lookup, arith}
use pbflags.Flag.{FlagType}
use pbflags.ConfigFile.{Floats, Checked, ok, err}
use pbflags.ConfigFile.Entries.{
  RawFlagEntry, FlagEntry, RawConfig, Config, Collected, Warning, parsed, parse, parse_flags,
  collect, convert_named,
}
use pbflags.ConfigFile.Entries.Chains.{IsEntry, convert_flag_entry-IsEntry}
use pbflags.ConfigFile.Entries.Files.{named_ok, parsed_ok}

abbrev pub IsTyped : Str × FlagEntry → Type 0
IsTyped named = (ft : FlagType) × IsEntry ft named.1

collect-IsTyped :
    (n : Str) (m : Checked (FlagEntry × List Warning)) (rest : Collected FlagEntry)
    → ((entry : FlagEntry) (warns : List Warning) → m ≡ ok (entry, warns) → IsTyped (n, entry))
    → (rest.errs ≡ [] → All IsTyped rest.entries)
    → (collect n m rest).errs ≡ []
    → All IsTyped (collect n m rest).entries
unfolding collect
collect-IsTyped n (ok (entry, warns)) rest first later fine = (first entry warns refl, later fine)
collect-IsTyped n (err e) rest first later fine = absurd (ground (arith, fine))

module _ (floats : Floats) (flag_types : Assoc FlagType) where
  collected-IsTyped :
      (flags : Assoc RawFlagEntry)
      → (parse_flags floats flag_types flags).errs ≡ []
      → All IsTyped (parse_flags floats flag_types flags).entries
  unfolding parse_flags
  collected-IsTyped [] fine = tt
  collected-IsTyped ((n, raw) ∷ rest) fine =
      collect-IsTyped n (convert_named floats flag_types n raw (lookup n flag_types))
        (parse_flags floats flag_types rest)
        (λ entry warns made.
          let (ft, has_type, converted) =
            named_ok floats flag_types n raw (lookup n flag_types) entry warns made in
          (ft, convert_flag_entry-IsEntry floats ft n raw entry warns converted))
        (collected-IsTyped rest) fine

  pub parse-IsTyped :
      (raw : RawConfig) (cfg : Config) (warns : List Warning)
      → parse floats flag_types raw ≡ parsed cfg warns
      → All IsTyped cfg.flags
  parse-IsTyped raw cfg warns h =
      let (fine, same) = parsed_ok floats flag_types raw cfg warns h in
      rw same (collected-IsTyped raw.flags fine)

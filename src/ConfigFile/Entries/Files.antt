-- ===== src/ConfigFile/Entries/Files.antt =====
-- Which configuration files Parse (internal/configfile/configfile.go) accepts, and what it keeps of
-- them.
pub mod All
pub mod Ramped
use pbflags.Common.{
  ◌⊎◌, =s_iff, ℕ, suc, Bool, true, false, ◌||◌, ◌&&◌, not, ◌≡◌, refl, sym, ◌∙◌, Option, none, some,
  List, [], ◌∷◌, ◌++◌, Str, is_empty, Bool-cases, inl, inr, arith, ℤ, pos, ltb_ℤ, leb_ℤ, Assoc,
  lookup, ◌=s◌,
}
use pbflags.Flag.{FlagType}
use pbflags.ConfigFile.{Floats, Checked, ok, err}
use pbflags.ConfigFile.Typed.{is_ok}
use pbflags.ConfigFile.Entries.Chains.{IsEntry, convert_flag_entry-IsEntry}
use pbflags.ConfigFile.Entries.{
  quietly, RawFlagEntry, FlagEntry, LaunchEntry, RawConfig, Config, Collected, Warning, Parsed,
  parsed, failed, check_steps, validate_ramp_steps, ramp_in_range, parse_cross_feature_launch,
  convert_launch_entry, convert_flag_entry, convert_named, collect, parse_flags, parse_launches,
  parse,
}

-- The steps lie between 0 and 100, each above the one before it.
unfoldable pub rising : Option ℤ → List ℤ → Bool
rising prev [] = true
rising prev (s ∷ steps) =
    leb_ℤ (pos 0) s
    && leb_ℤ s (pos 100)
    && elim prev [ none ↦ true | some p ↦ ltb_ℤ p s ]
    && rising (some s) steps

check_steps-rising :
    (i : ℕ) (prev : Option ℤ) (steps : List ℤ)
    → is_ok (check_steps i prev steps) ≡ rising prev steps
unfolding check_steps rising is_ok
check_steps-rising i prev [] = refl
check_steps-rising i none (s ∷ steps) = ground (arith, check_steps-rising (suc i) (some s) steps)
check_steps-rising i (some p) (s ∷ steps) =
    ground (arith, check_steps-rising (suc i) (some s) steps)

-- A launch that may stand in a file.
abbrev pub is_launch_entry : LaunchEntry → Bool
is_launch_entry entry =
    not (is_empty entry.dimension)
    && ramp_in_range entry.ramp_percentage
    && rising none entry.ramp_steps

-- ParseCrossFeatureLaunch accepts a launch exactly if it has a dimension, a ramp between 0 and 100
-- if any, and ramp steps between 0 and 100 that rise strictly.
pub parse_cross_feature_launch-accepts :
    (raw : LaunchEntry) → is_ok (parse_cross_feature_launch raw) ≡ is_launch_entry raw
unfolding parse_cross_feature_launch validate_ramp_steps is_ok
parse_cross_feature_launch-accepts raw = ground (arith, check_steps-rising 0 none raw.ramp_steps)

-- It changes nothing of a launch that it accepts.
parse_cross_feature_launch-same :
    (raw entry : LaunchEntry) → parse_cross_feature_launch raw ≡ ok entry → raw ≡ entry
unfolding parse_cross_feature_launch validate_ramp_steps
parse_cross_feature_launch-same raw entry h = ground (arith, h)

empty-nil : {A : Type 0} (xs : List A) → is_empty xs ≡ true → xs ≡ []
empty-nil [] h = refl
empty-nil (x ∷ xs) h = absurd (ground (arith, h))

unfoldable pub launches_ok : Assoc LaunchEntry → Bool
launches_ok [] = true
launches_ok ((id, raw) ∷ rest) = not (is_empty id) && is_launch_entry raw && launches_ok rest

module _ {A : Type 0} where
  collect-errs :
      (name : Str) (c : Checked (A × List Warning)) (rest : Collected A)
      → is_empty (collect name c rest).errs ≡ (is_ok c && is_empty rest.errs)
  unfolding collect is_ok
  collect-errs name (ok a) rest = refl
  collect-errs name (err e) rest = refl

  -- Where nothing failed, an entry is the one of the item at hand or one of the rest.
  collect-lookup :
      (n : Str) (m : Checked (A × List Warning)) (rest : Collected A) (name : Str) (entry : A)
      → (collect n m rest).errs ≡ []
      → lookup name (collect n m rest).entries ≡ some entry
      → (rest.errs ≡ [])
        × ((n ≡ name) × ((warns : List Warning) × (m ≡ ok (entry, warns)))
            ⊎ ((n =s name) ≡ false) × (lookup name rest.entries ≡ some entry))
  unfolding collect lookup
  collect-lookup n (ok (a, warns)) rest name entry fine h = elim (Bool-cases (n =s name)) [
    | inl same ↦
        let this : a ≡ entry = cc (rw same at h) in
        (fine, inl ((=s_iff n name).0 same, (warns, rw this refl)))
    | inr differs ↦ (fine, inr (differs, rw differs at h))
  ]
  collect-lookup n (err e) rest name entry fine h = absurd (ground (arith, fine))

empty-append : {A : Type 0} (xs ys : List A) → is_empty (xs ++ ys) ≡ (is_empty xs && is_empty ys)
empty-append [] ys = refl
empty-append (x ∷ xs) ys = refl

is_ok-launch :
    (id : Str) (raw : LaunchEntry)
    → is_ok (convert_launch_entry id raw) ≡ (not (is_empty id) && is_launch_entry raw)
unfolding convert_launch_entry
is_ok-launch id raw = elim (Bool-cases (is_empty id)) [
  | inl bad ↦ rw bad (unfold is_ok in refl)
  | inr good ↦ rw good (parse_cross_feature_launch-accepts raw)
]

is_ok-quietly : {A : Type 0} (m : Checked A) → is_ok (quietly m) ≡ is_ok m
unfolding quietly is_ok
is_ok-quietly (ok a) = refl
is_ok-quietly (err e) = refl

parse_launches-errs : (ls : Assoc LaunchEntry) → is_empty (parse_launches ls).errs ≡ launches_ok ls
unfolding parse_launches launches_ok
parse_launches-errs [] = refl
parse_launches-errs ((id, raw) ∷ rest) =
    collect-errs id (quietly (convert_launch_entry id raw)) (parse_launches rest)
    ∙ (rw
        (is_ok-quietly (convert_launch_entry id raw), is_ok-launch id raw, parse_launches-errs rest)
        (ground arith))

unfoldable pub is_parsed : Parsed → Bool
is_parsed (failed errs) = false
is_parsed (parsed cfg warns) = true

module _ (floats : Floats) (flag_types : Assoc FlagType) where
  -- Each flag of the file is in the proto and converts.
  unfoldable pub flags_ok : Assoc RawFlagEntry → Bool
  flags_ok [] = true
  flags_ok ((name, raw) ∷ rest) =
      is_ok (convert_named floats flag_types name raw (lookup name flag_types)) && flags_ok rest

  parse_flags-errs :
      (flags : Assoc RawFlagEntry)
      → is_empty (parse_flags floats flag_types flags).errs ≡ flags_ok flags
  unfolding parse_flags flags_ok
  parse_flags-errs [] = refl
  parse_flags-errs ((name, raw) ∷ rest) =
      collect-errs name (convert_named floats flag_types name raw (lookup name flag_types))
        (parse_flags floats flag_types rest)
      ∙ rw (parse_flags-errs rest) refl

  -- Parse accepts a file exactly if it names its feature, has a flag or a launch, each flag is in
  -- the proto and converts to its type, and each launch has an id, a dimension, a ramp between 0
  -- and 100 if any, and ramp steps between 0 and 100 that rise strictly.
  pub parse-accepts :
      (raw : RawConfig)
      → is_parsed (parse floats flag_types raw) ≡ (
          not (is_empty raw.feature)
          && (not (is_empty raw.flags) || not (is_empty raw.launches))
          && flags_ok raw.flags
          && launches_ok raw.launches)
  unfolding parse is_parsed
  parse-accepts raw = ground (
    arith,
    empty-append (parse_flags floats flag_types raw.flags).errs (parse_launches raw.launches).errs,
    parse_flags-errs raw.flags,
    parse_launches-errs raw.launches,
  )

  named_ok :
      (name : Str) (raw : RawFlagEntry) (o : Option FlagType) (entry : FlagEntry)
      (warns : List Warning)
      → convert_named floats flag_types name raw o ≡ ok (entry, warns)
      → (ft : FlagType) × (o ≡ some ft)
        × (convert_flag_entry floats ft name raw ≡ ok (entry, warns))
  unfolding convert_named
  named_ok name raw none entry warns h = absurd (ground (arith, h))
  named_ok name raw (some ft) entry warns h = (ft, refl, h)

  -- An entry that the collected flags have is what a raw entry of its name converts to.
  collected-flag :
      (flags : Assoc RawFlagEntry) (name : Str) (entry : FlagEntry)
      → (parse_flags floats flag_types flags).errs ≡ []
      → lookup name (parse_flags floats flag_types flags).entries ≡ some entry
      → (raw : RawFlagEntry) × (ft : FlagType) × (warns : List Warning) × (lookup name flags
          ≡ some raw)
        × (lookup name flag_types ≡ some ft)
        × (convert_flag_entry floats ft name raw ≡ ok (entry, warns))
  unfolding parse_flags lookup
  collected-flag [] name entry none_bad h = absurd (ground arith)
  collected-flag ((n, raw) ∷ rest) name entry none_bad h =
      let (rest_fine, found) =
        collect-lookup n (convert_named floats flag_types n raw (lookup n flag_types))
          (parse_flags floats flag_types rest) name entry none_bad h in
      elim found [
        | inl (same, (warns, made)) ↦
            let (ft, has_type, converted) = named_ok n raw (lookup n flag_types) entry warns made in
            (
              raw,
              ft,
              warns,
              rw ((=s_iff n name).1 same) refl,
              rw (sym same) has_type,
              rw (sym same) converted,
            )
        | inr (differs, later) ↦
            let (raw', ft, warns, there, has_type, converted) =
              collected-flag rest name entry rest_fine later in
            (raw', ft, warns, rw differs there, has_type, converted)
      ]

  parsed_ok :
      (raw : RawConfig) (cfg : Config) (warns : List Warning)
      → parse floats flag_types raw ≡ parsed cfg warns
      → ((parse_flags floats flag_types raw.flags).errs ≡ [])
        × (cfg.flags ≡ (parse_flags floats flag_types raw.flags).entries)
  unfolding parse
  parsed_ok raw cfg warns h =
      let flags = (parse_flags floats flag_types raw.flags).errs in
      let launches = (parse_launches raw.launches).errs in
      elim (Bool-cases (is_empty (flags ++ launches))) [
        | inl fine ↦
            let both = empty-append flags launches in
            let clear : is_empty flags ≡ true = ground (arith, both) in
            (empty-nil flags clear, ground (arith, h))
        | inr bad ↦ absurd (ground (arith, h))
      ]

  -- Every flag of an accepted configuration is declared in the proto, and is either a static value
  -- of the declared type or a chain that is not empty, of values of that type, in which only the
  -- last condition is without an expression.
  pub parse-IsEntry :
      (raw : RawConfig) (cfg : Config) (warns : List Warning) (name : Str) (entry : FlagEntry)
      → parse floats flag_types raw ≡ parsed cfg warns
      → lookup name cfg.flags ≡ some entry
      → (ft : FlagType) × (lookup name flag_types ≡ some ft) × IsEntry ft entry
  parse-IsEntry raw cfg warns name entry h found =
      let (fine, same) = parsed_ok raw cfg warns h in
      let (raw_entry, ft, warned, there, has_type, converted) =
        collected-flag raw.flags name entry fine (rw same at found) in
      (ft, has_type, convert_flag_entry-IsEntry floats ft name raw_entry entry warned converted)

-- ===== src/ConfigFile/Entries/Chains.antt =====
-- The shape of the condition chains that convertFlagEntry (internal/configfile/configfile.go)
-- accepts.
use pbflags.Common.{
  subst, ℕ, suc, Bool, true, false, ◌||◌, ◌&&◌, not, ◌≡◌, refl, sym, ◌∙◌, Option, none, some, List,
  [], ◌∷◌, Str, if◌then◌else◌, is_empty, is_some, Bool-cases, inl, inr, ◌⊎◌, arith,
}
use pbflags.Flag.{FlagValue, FlagType}
use pbflags.ConfigFile.{Raw, Floats, ConfigError, Checked, ok, err, ◌>>=◌, within, convert_value}
use pbflags.ConfigFile.Typed.{typed, convert_value-typed}
use pbflags.ConfigFile.Entries.{
  RawCondition, RawLaunchOverride, RawFlagEntry, Condition, LaunchOverride, FlagEntry, Warning,
  convert_launch, condition_value, convert_condition, convert_conditions, has_otherwise,
  convert_flag_entry,
}

-- Inversion of a bind that succeeded.
bind_ok :
    {A B : Type 0} (m : Checked A) (f : A → Checked B) (b : B)
    → (m >>= f) ≡ ok b
    → (a : A) × (m ≡ ok a) × (f a ≡ ok b)
bind_ok (ok a) f b h = (a, refl, h)
bind_ok (err e) f b h = absurd (ground (arith, h))

within_ok :
    {A : Type 0} (about : ConfigError → ConfigError) (m : Checked A) (a : A)
    → within about m ≡ ok a
    → m ≡ ok a
unfolding within
within_ok about (ok b) a h = h
within_ok about (err e) a h = absurd (ground (arith, h))

abbrev pub launch_typed : FlagType → Option LaunchOverride → Bool
launch_typed ft none = true
launch_typed ft (some launch) = not (is_empty launch.id) && typed ft launch.value

-- The values of the condition are of the type, and a launch override names its launch.
abbrev pub condition_typed : FlagType → Condition → Bool
condition_typed ft cond = typed ft cond.value && launch_typed ft cond.launch

-- Only the last condition may be one without an expression.
unfoldable pub when_first : List Condition → Bool
when_first [] = true
when_first (c ∷ cs) = (is_empty cs || not (is_empty c.when_text)) && when_first cs

-- The chain ends in a condition without an expression.
unfoldable pub ends_otherwise : List Condition → Bool
ends_otherwise [] = false
ends_otherwise (c ∷ cs) = if is_empty cs then is_empty c.when_text else ends_otherwise cs

unfoldable pub all_typed : FlagType → List Condition → Bool
all_typed ft [] = true
all_typed ft (c ∷ cs) = condition_typed ft c && all_typed ft cs

-- A static value of the type, or a chain that is not empty, with values of the type, in which only
-- the last condition may be without an expression.
abbrev pub IsEntry : FlagType → FlagEntry → Type 0
IsEntry ft entry =
    ((v : FlagValue) × (entry.value ≡ some v)
      × (typed ft v ≡ true)
      × (entry.conditions ≡ [])
      × (launch_typed ft entry.launch ≡ true))
    ⊎ ((entry.value ≡ none)
        × (all_typed ft entry.conditions ≡ true)
        × (when_first entry.conditions ≡ true)
        × (is_empty entry.conditions ≡ false))

module _ (floats : Floats) (ft : FlagType) where
  convert_launch-typed :
      (missing : ConfigError) (about : ConfigError → ConfigError) (raw : Option RawLaunchOverride)
      (launch : Option LaunchOverride)
      → convert_launch floats ft missing about raw ≡ ok launch
      → launch_typed ft launch ≡ true
  unfolding convert_launch
  convert_launch-typed missing about none launch h =
      let nothing : none ≡ launch = cc h in rw (sym nothing) refl
  convert_launch-typed missing about (some raw) launch h = elim (Bool-cases (is_empty raw.id)) [
    | inl bad ↦ absurd (let h' = rw bad at h in ground (arith, h'))
    | inr good ↦
        let (lv, made, built) =
          bind_ok (within about (convert_value floats raw.value ft)) _ launch (rw good at h) in
        let fine : convert_value floats raw.value ft ≡ ok lv =
          within_ok about (convert_value floats raw.value ft) lv made in
        let this : some (record { id = raw.id; value = lv }) ≡ launch = cc built in
        rw (sym this, good, convert_value-typed floats raw.value ft lv fine) refl
  ]

  condition_value_ok :
      (i : ℕ) (rc : RawCondition) (is_last : Bool) (raw : Raw)
      → condition_value floats ft i rc is_last ≡ ok raw
      → (rc.has_other ≡ is_empty rc.when_text) × ((is_last || not rc.has_other) ≡ true)
  unfolding condition_value
  condition_value_ok i rc is_last raw h = ground (arith, h)

  convert_condition-typed :
      (i : ℕ) (rc : RawCondition) (is_last : Bool) (cond : Condition)
      → convert_condition floats ft i rc is_last ≡ ok cond
      → (condition_typed ft cond ≡ true)
        × (rc.has_other ≡ is_empty cond.when_text)
        × ((is_last || not (is_empty cond.when_text)) ≡ true)
  unfolding convert_condition
  convert_condition-typed i rc is_last cond h =
      let (raw, picked, h1) = bind_ok (condition_value floats ft i rc is_last) _ cond h in
      let (fv, made, h2) = bind_ok (convert_value floats raw ft) _ cond h1 in
      let (launch, bound, h3) =
        bind_ok
          (convert_launch floats ft (ConfigError.condition_launch_without_id i)
            ConfigError.in_launch rc.launch)
          _ cond h2 in
      let (other, last) = condition_value_ok i rc is_last raw picked in
      let this : record {
        when_text = rc.when_text;
        value = fv;
        comment = rc.comment;
        launch = launch;
      }
          ≡ cond =
        cc h3 in
      rw (sym this) (
        rw
            (
              convert_value-typed floats raw ft fv made,
              convert_launch-typed _ ConfigError.in_launch rc.launch launch bound,
            )
            refl,
        other,
        rw (sym other) last,
      )

  none_otherwise :
      (raw : List RawCondition) → is_empty raw ≡ true → has_otherwise floats ft raw ≡ false
  unfolding has_otherwise
  none_otherwise [] h = refl
  none_otherwise (rc ∷ rest) h = absurd (ground (arith, h))

  -- The shape of a chain, against the raw conditions that it was made from.
  abbrev Shaped : List RawCondition → List Condition → Type 0
  Shaped raw conds =
      (all_typed ft conds ≡ true)
      × (when_first conds ≡ true)
      × (is_empty conds ≡ is_empty raw)
      × (ends_otherwise conds ≡ has_otherwise floats ft raw)

  Shaped-step :
      (rc : RawCondition) (rest : List RawCondition) (cond : Condition) (later : List Condition)
      → condition_typed ft cond ≡ true
      → rc.has_other ≡ is_empty cond.when_text
      → (is_empty rest || not (is_empty cond.when_text)) ≡ true
      → Shaped rest later
      → Shaped (rc ∷ rest) (cond ∷ later)
  unfolding all_typed when_first ends_otherwise has_otherwise
  Shaped-step rc rest cond later fits other last (all_fit, order, size, ends) = (
    rw (fits, all_fit) refl,
    rw (size, last, order) refl,
    refl,
    ground (arith, size, last, other, ends, none_otherwise rest),
  )

  convert_conditions-shape :
      (i : ℕ) (raw : List RawCondition) (conds : List Condition)
      → convert_conditions floats ft i raw ≡ ok conds
      → Shaped raw conds
  unfolding convert_conditions all_typed when_first ends_otherwise has_otherwise
  convert_conditions-shape i [] conds h =
      let nothing : [] ≡ conds = cc h in rw (sym nothing) (refl, refl, refl, refl)
  convert_conditions-shape i (rc ∷ rest) conds h =
      let (cond, first, h1) =
        bind_ok (convert_condition floats ft i rc (is_empty rest)) _ conds h in
      let (later, second, h2) = bind_ok (convert_conditions floats ft (suc i) rest) _ conds h1 in
      let this : cond ∷ later ≡ conds = cc h2 in
      let (fits, other, last) = convert_condition-typed i rc (is_empty rest) cond first in
      subst (Shaped (rc ∷ rest)) this (
        Shaped-step rc rest cond later fits other last
          (convert_conditions-shape (suc i) rest later second))

  -- The warning about a missing otherwise is given exactly for a chain that does not end in one.
  abbrev pub Warned : FlagEntry → List Warning → Type 0
  Warned entry warns =
      (is_some entry.value || is_empty warns)
      ≡ (is_some entry.value || ends_otherwise entry.conditions)

  convert_flag_entry-shape :
      (name : Str) (raw : RawFlagEntry) (entry : FlagEntry) (warns : List Warning)
      → convert_flag_entry floats ft name raw ≡ ok (entry, warns)
      → IsEntry ft entry × Warned entry warns
  unfolding convert_flag_entry
  convert_flag_entry-shape name raw entry warns h = elim (Bool-cases (is_empty raw.conditions)) [
    | inl no_conds ↦ elim (Bool-cases raw.has_value) [
      | inl static ↦
          let (fv, made, h1) =
            bind_ok (convert_value floats raw.value ft) _ (entry, warns)
              (rw (no_conds, static) at h) in
          let (launch, bound, h2) =
            bind_ok
              (convert_launch floats ft ConfigError.launch_without_id ConfigError.in_launch
                raw.launch)
              _ (entry, warns) h1 in
          let this : record { value = some fv; conditions = []; launch = launch } ≡ entry = cc h2 in
          let fit = convert_value-typed floats raw.value ft fv made in
          let launch_fit = convert_launch-typed _ ConfigError.in_launch raw.launch launch bound in
          (
            inl (fv, rw (sym this) refl, fit, rw (sym this) refl, rw (sym this) launch_fit),
            rw (sym this) refl,
          )
      | inr nothing ↦ absurd (let bad = rw (no_conds, nothing) at h in ground (arith, bad))
    ]
    | inr chain ↦ elim (Bool-cases raw.has_value) [
      | inl both ↦ absurd (let bad = rw (chain, both) at h in ground (arith, bad))
      | inr only ↦
          let (conds, made, h1) =
            bind_ok (convert_conditions floats ft 0 raw.conditions) _ (entry, warns)
              (rw (chain, only) at h) in
          let this : record { value = none; conditions = conds; launch = none } ≡ entry = cc h1 in
          let warned : (if has_otherwise floats ft raw.conditions
                then []
                else Warning.no_otherwise name ∷ [])
              ≡ warns =
            cc h1 in
          let (fit, order, size, ends) = convert_conditions-shape 0 raw.conditions conds made in
          (
            inr (
              rw (sym this) refl,
              rw (sym this) fit,
              rw (sym this) order,
              rw (sym this) (size ∙ chain),
            ),
            rw (sym this, sym warned, ends) (ground arith),
          )
    ]
  ]

  pub convert_flag_entry-IsEntry :
      (name : Str) (raw : RawFlagEntry) (entry : FlagEntry) (warns : List Warning)
      → convert_flag_entry floats ft name raw ≡ ok (entry, warns)
      → IsEntry ft entry
  convert_flag_entry-IsEntry name raw entry warns h =
      (convert_flag_entry-shape name raw entry warns h).0

  -- An accepted chain whose entry gives no warning ends in a condition without an expression.
  pub convert_flag_entry-quiet :
      (name : Str) (raw : RawFlagEntry) (entry : FlagEntry)
      → convert_flag_entry floats ft name raw ≡ ok (entry, [])
      → (is_some entry.value || ends_otherwise entry.conditions) ≡ true
  convert_flag_entry-quiet name raw entry h =
      let warned = (convert_flag_entry-shape name raw entry [] h).1 in ground (arith, warned)

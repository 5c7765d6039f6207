-- ===== src/Sync/Launches/Sound.antt =====
-- What a collection of launches that internal/sync/launchcollect.go accepts is sure of.
use pbflags.Common.{
  Bool, true, false, ◌||◌, ◌&&◌, ◌≡◌, refl, sym, ◌∙◌, ap, Option, none, some, List, [], ◌∷◌, Str,
  ◌=s◌, =s_iff, contains, Assoc, lookup, lookup-put, all, arith, Bool-cases, Option-cases, inl, inr,
}
use pbflags.CondCache.Keys.{contains-sort_strings}
use pbflags.ConfigFile.Entries.{LaunchOverride, Condition, FlagEntry, Config}
use pbflags.Database.{ok}
use pbflags.Sync.Stored.{step_ok}
use pbflags.Sync.Launches.{
  LaunchDef, LaunchCollection, LaunchFile, set_of, add_ref, add_launch_ref, condition_refs,
  flag_refs, collect_configs, collect_files, define_scoped, in_scope, check_ref, check_refs,
  check_uniform, affected_features, feature_has, check_scopes, collect_launches,
}

-- The configuration refers to the launch, on a static value or a condition.
unfoldable pub is_launch : Option LaunchOverride → Str → Bool
is_launch none id = false
is_launch (some launch) id = launch.id =s id

unfoldable pub in_conditions : List Condition → Str → Bool
in_conditions [] id = false
in_conditions (cond ∷ conds) id = is_launch cond.launch id || in_conditions conds id

unfoldable pub in_flags : Assoc FlagEntry → Str → Bool
in_flags [] id = false
in_flags ((name, entry) ∷ flags) id =
    is_launch entry.launch id || in_conditions entry.conditions id || in_flags flags id

-- The feature refers to the launch in one of the configurations.
unfoldable pub refers : Assoc Config → Str → Str → Bool
refers [] feature_id id = false
refers ((f, cfg) ∷ configs) feature_id id =
    (f =s feature_id && in_flags cfg.flags id) || refers configs feature_id id

-- The recorded references of a launch.
abbrev recorded : Str → Str → Assoc (List Str) → Bool
recorded id feature_id refs = contains (set_of (lookup id refs)) feature_id

recorded-add_ref :
    (l f : Str) (refs : Assoc (List Str)) (id g : Str)
    → recorded id g (add_ref l f refs) ≡ ((l =s id && f =s g) || recorded id g refs)
unfolding add_ref
recorded-add_ref l f refs id g = elim (Bool-cases (contains (set_of (lookup l refs)) f)) [
  | inl old ↦ rw old (ground (arith, =s_iff l id, =s_iff f g, old))
  | inr new ↦
      rw (new, lookup-put l id (f ∷ set_of (lookup l refs)) refs)
        (unfold contains in ground (arith, =s_iff l id))
]

recorded-launch :
    (launch : Option LaunchOverride) (f : Str) (refs : Assoc (List Str)) (id g : Str)
    → recorded id g (add_launch_ref launch f refs)
      ≡ ((is_launch launch id && f =s g) || recorded id g refs)
unfolding add_launch_ref is_launch
recorded-launch none f refs id g = refl
recorded-launch (some launch) f refs id g = recorded-add_ref launch.id f refs id g

recorded-conditions :
    (conds : List Condition) (f : Str) (refs : Assoc (List Str)) (id g : Str)
    → recorded id g (condition_refs conds f refs)
      ≡ ((in_conditions conds id && f =s g) || recorded id g refs)
unfolding condition_refs in_conditions
recorded-conditions [] f refs id g = refl
recorded-conditions (cond ∷ conds) f refs id g =
    recorded-conditions conds f (add_launch_ref cond.launch f refs) id g
    ∙ ground (arith, recorded-launch cond.launch f refs id g)

recorded-flags :
    (flags : Assoc FlagEntry) (f : Str) (refs : Assoc (List Str)) (id g : Str)
    → recorded id g (flag_refs flags f refs) ≡ ((in_flags flags id && f =s g) || recorded id g refs)
unfolding flag_refs in_flags
recorded-flags [] f refs id g = refl
recorded-flags ((name, entry) ∷ flags) f refs id g =
    let first = add_launch_ref entry.launch f refs in
    recorded-flags flags f (condition_refs entry.conditions f first) id g
    ∙ ground (
      arith,
      recorded-conditions entry.conditions f first id g,
      recorded-launch entry.launch f refs id g,
    )

recorded-configs :
    (configs : Assoc Config) (lc found : LaunchCollection) (id g : Str)
    → collect_configs configs lc ≡ ok found
    → recorded id g found.refs ≡ (refers configs g id || recorded id g lc.refs)
unfolding collect_configs refers
recorded-configs [] lc found id g h =
    let same : lc ≡ found = cc h in ap (λ c. recorded id g c.refs) (sym same)
recorded-configs ((f, cfg) ∷ configs) lc found id g h =
    let (defined, made, h1) = step_ok (define_scoped f cfg.launches lc.defined) _ found h in
    recorded-configs configs (record { defined = defined; refs = flag_refs cfg.flags f lc.refs })
      found id g h1
    ∙ ground (arith, recorded-flags cfg.flags f lc.refs id g)

check_refs_sound :
    (refs : Assoc (List Str)) (defined : Assoc LaunchDef) (id : Str) (fs : List Str)
    → check_refs refs defined ≡ ok tt
    → lookup id refs ≡ some fs
    → check_ref (lookup id defined) fs ≡ ok tt
unfolding check_refs lookup
check_refs_sound [] defined id fs h there = absurd (ground arith)
check_refs_sound ((i, gs) ∷ refs) defined id fs h there =
    let (done, first, h1) = step_ok (check_ref (lookup i defined) gs) _ tt h in
    elim (Bool-cases (i =s id)) [
      | inl same ↦
          let names : i ≡ id = (=s_iff i id).0 same in
          let this : gs ≡ fs = cc (rw same at there) in
          ap (λ k. check_ref (lookup k defined) fs) (sym names)
          ∙ (ap (check_ref (lookup i defined)) (sym this) ∙ first)
      | inr differs ↦ check_refs_sound refs defined id fs h1 (rw differs at there)
    ]

check_uniform_sound :
    (hashable : Str → Bool) (defined : Assoc LaunchDef) (id : Str) (def : LaunchDef)
    → check_uniform hashable defined ≡ ok tt
    → lookup id defined ≡ some def
    → hashable def.entry.dimension ≡ true
unfolding check_uniform lookup
check_uniform_sound hashable [] id def h there = absurd (ground arith)
check_uniform_sound hashable ((i, d) ∷ defined) id def h there =
    ground (arith, check_uniform_sound hashable defined id def)

all-contains :
    (p : Str → Bool) (xs : List Str) (x : Str) → all p xs ≡ true → contains xs x ≡ true → p x ≡ true
unfolding contains
all-contains p [] x h there = absurd (ground arith)
all-contains p (y ∷ xs) x h there = elim (Bool-cases (y =s x)) [
  | inl same ↦ rw (sym ((=s_iff y x).0 same)) (ground (arith, h))
  | inr differs ↦ all-contains p xs x (ground (arith, h)) (rw differs at there)
]

recorded-there :
    (id g : Str) (refs : Assoc (List Str))
    → recorded id g refs ≡ true
    → (fs : List Str) × (lookup id refs ≡ some fs)
unfolding contains
recorded-there id g refs used = elim (Option-cases (lookup id refs)) [
  | inl gone ↦ let no = rw gone at used in absurd (ground arith)
  | inr (fs, there) ↦ (fs, there)
]

check_ref_sound :
    (found : Option LaunchDef) (fs : List Str)
    → check_ref found fs ≡ ok tt
    → (def : LaunchDef) × (found ≡ some def) × (in_scope def.scope_feature_id fs ≡ true)
unfolding check_ref
check_ref_sound none fs h = absurd (ground arith)
check_ref_sound (some def) fs h = (def, refl, ground arith)

in_scope-contains :
    (scope : Option Str) (fs : List Str) (f : Str)
    → in_scope scope fs ≡ true
    → contains fs f ≡ true
    → in_scope scope (f ∷ []) ≡ true
unfolding in_scope
in_scope-contains none fs f h kept = refl
in_scope-contains (some scope) fs f h kept =
    ground (arith, all-contains (λ g. g =s scope) fs f h kept)

affected_features-recorded :
    (id : Str) (refs : Assoc (List Str)) (g : Str)
    → contains (affected_features id refs) g ≡ recorded id g refs
unfolding affected_features
affected_features-recorded id refs g = contains-sort_strings (set_of (lookup id refs)) g

module _ (scope_dims : Assoc (List Str)) (feature_scopes : Assoc (List Str)) where
  check_scopes_sound :
      (refs : Assoc (List Str)) (defined : Assoc LaunchDef) (id : Str) (def : LaunchDef)
      → check_scopes scope_dims feature_scopes refs defined ≡ ok tt
      → lookup id defined ≡ some def
      → all (feature_has scope_dims feature_scopes def.entry.dimension) (affected_features id refs)
        ≡ true
  unfolding check_scopes lookup
  check_scopes_sound refs [] id def h there = absurd (ground arith)
  check_scopes_sound refs ((i, d) ∷ defined) id def h there =
      ground (arith, check_scopes_sound refs defined id def, =s_iff i id)

  -- The tests of a collection, over a launch that is recorded for a feature.
  recorded_sound :
      (refs : Assoc (List Str)) (defined : Assoc LaunchDef) (hashable : Str → Bool)
      (feature_id id : Str)
      → check_refs refs defined ≡ ok tt
      → check_uniform hashable defined ≡ ok tt
      → check_scopes scope_dims feature_scopes refs defined ≡ ok tt
      → recorded id feature_id refs ≡ true
      → (def : LaunchDef) × (lookup id defined ≡ some def)
        × (in_scope def.scope_feature_id (feature_id ∷ []) ≡ true)
        × (hashable def.entry.dimension ≡ true)
        × (feature_has scope_dims feature_scopes def.entry.dimension feature_id ≡ true)
  recorded_sound refs defined hashable feature_id id h1 h2 h3 used =
      let (fs, there) = recorded-there id feature_id refs used in
      let kept : contains fs feature_id ≡ true = rw there at used in
      let (def, known, within) =
        check_ref_sound (lookup id defined) fs (check_refs_sound refs defined id fs h1 there) in
      let sorted : contains (affected_features id refs) feature_id ≡ true =
        rw (affected_features-recorded id refs feature_id) used in
      (
        def,
        known,
        in_scope-contains def.scope_feature_id fs feature_id within kept,
        check_uniform_sound hashable defined id def h2 known,
        all-contains (feature_has scope_dims feature_scopes def.entry.dimension)
            (affected_features id refs) feature_id (check_scopes_sound refs defined id def h3 known)
            sorted,
      )

  -- Where CollectLaunches accepts the configurations, every launch that a flag or condition refers
  -- to is defined, across features or for the feature that refers to it, over a dimension that is
  -- uniform and that each known scope of the feature has.
  pub collect_launches_sound :
      (configs : Assoc Config) (files : List LaunchFile) (hashable : Str → Bool)
      (lc : LaunchCollection) (feature_id id : Str)
      → collect_launches configs files hashable scope_dims feature_scopes ≡ ok lc
      → refers configs feature_id id ≡ true
      → (def : LaunchDef) × (lookup id lc.defined ≡ some def)
        × (in_scope def.scope_feature_id (feature_id ∷ []) ≡ true)
        × (hashable def.entry.dimension ≡ true)
        × (feature_has scope_dims feature_scopes def.entry.dimension feature_id ≡ true)
  unfolding collect_launches
  collect_launches_sound configs files hashable lc feature_id id h used =
      let start : LaunchCollection = record { defined = []; refs = [] } in
      let (found, collected, h1) = step_ok (collect_configs configs start) _ lc h in
      let (defined, filed, h2) = step_ok (collect_files files found.defined) _ lc h1 in
      let (_, refs_fine, h3) = step_ok (check_refs found.refs defined) _ lc h2 in
      let (_, uniform, h4) = step_ok (check_uniform hashable defined) _ lc h3 in
      let (_, scopes, h5) =
        step_ok (check_scopes scope_dims feature_scopes found.refs defined) _ lc h4 in
      let same : lc ≡ record { defined = defined; refs = found.refs } = cc h5 in
      let recorded_there : recorded id feature_id found.refs ≡ true =
        rw (recorded-configs configs start found id feature_id collected, used) refl in
      rw same (
        recorded_sound found.refs defined hashable feature_id id refs_fine uniform scopes
          recorded_there)

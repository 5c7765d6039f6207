-- ===== src/Sync/Launches/Ramped.antt =====
-- The launches that CollectLaunches (internal/sync/launchcollect.go) accepts have the ramps of their
-- files.
use pbflags.Common.{
  ◌≡◌, Bool, none, some, [], ◌∷◌, Str, ◌=s◌, Assoc, put, lookup, is_some, All, arith, Bool-cases,
  inl, inr, List, subst, Option,
}
use pbflags.ConfigFile.Entries.{LaunchEntry, Config}
use pbflags.ConfigFile.Entries.Files.Ramped.{
  IsRamped, AllRamped, parse_cross_feature_launch-IsRamped,
}
use pbflags.Database.{ok}
use pbflags.Sync.Stored.{step_ok}
use pbflags.Sync.Launches.{
  LaunchDef, LaunchCollection, LaunchFile, collect_configs, collect_files, define, define_scoped,
  parse_file, collect_launches, check_refs, check_uniform, check_scopes, flag_refs,
}

abbrev pub AllDefined : Assoc LaunchDef → Type 0
AllDefined defined = All (λ named. IsRamped named.1.entry) defined

put-AllDefined :
    (id : Str) (def : LaunchDef) (defined : Assoc LaunchDef)
    → IsRamped def.entry
    → AllDefined defined
    → AllDefined (put id def defined)
unfolding put
put-AllDefined id def [] h hs = (h, tt)
put-AllDefined id def ((j, w) ∷ defined) h (hw, hs) = elim (Bool-cases (j =s id)) [
  | inl this ↦ rw this (h, hs)
  | inr other ↦ rw other (hw, put-AllDefined id def defined h hs)
]

define-AllDefined :
    (id : Str) (def : LaunchDef) (defined after : Assoc LaunchDef)
    → IsRamped def.entry
    → AllDefined defined
    → define id def defined ≡ ok after
    → AllDefined after
unfolding define
define-AllDefined id def defined after h hs made = elim (Bool-cases (is_some (lookup id defined))) [
  | inl twice ↦ absurd (ground (arith, made, twice))
  | inr new ↦
      let same : put id def defined ≡ after = cc (rw new at made) in
      subst AllDefined same (put-AllDefined id def defined h hs)
]

define_scoped-AllDefined :
    (feature_id : Str) (launches : Assoc LaunchEntry) (defined after : Assoc LaunchDef)
    → AllRamped launches
    → AllDefined defined
    → define_scoped feature_id launches defined ≡ ok after
    → AllDefined after
unfolding define_scoped
define_scoped-AllDefined feature_id [] defined after ramped hs made =
    let same : defined ≡ after = cc made in subst AllDefined same hs
define_scoped-AllDefined feature_id ((id, entry) ∷ launches) defined after (h, ramped) hs made =
    let def : LaunchDef = record { entry = entry; scope_feature_id = some feature_id } in
    let (mid, first, later) = step_ok (define id def defined) _ after made in
    define_scoped-AllDefined feature_id launches mid after ramped
      (define-AllDefined id def defined mid h hs first) later

collect_configs-AllDefined :
    (configs : Assoc Config) (lc found : LaunchCollection)
    → All (λ named. AllRamped named.1.launches) configs
    → AllDefined lc.defined
    → collect_configs configs lc ≡ ok found
    → AllDefined found.defined
unfolding collect_configs
collect_configs-AllDefined [] lc found ramped hs made =
    let same : lc ≡ found = cc made in subst (λ c. AllDefined c.defined) same hs
collect_configs-AllDefined ((f, cfg) ∷ configs) lc found (h, ramped) hs made =
    let (mid, first, later) = step_ok (define_scoped f cfg.launches lc.defined) _ found made in
    collect_configs-AllDefined configs
      (record { defined = mid; refs = flag_refs cfg.flags f lc.refs }) found ramped
      (define_scoped-AllDefined f cfg.launches lc.defined mid h hs first) later

parse_file-IsRamped :
    (o : Option LaunchEntry) (entry : LaunchEntry) → parse_file o ≡ ok entry → IsRamped entry
unfolding parse_file
parse_file-IsRamped none entry h = absurd (ground (arith, h))
parse_file-IsRamped (some raw) entry h =
    parse_cross_feature_launch-IsRamped raw entry (ground (arith, h))

collect_files-AllDefined :
    (files : List LaunchFile) (defined after : Assoc LaunchDef)
    → AllDefined defined
    → collect_files files defined ≡ ok after
    → AllDefined after
unfolding collect_files
collect_files-AllDefined [] defined after hs made =
    let same : defined ≡ after = cc made in subst AllDefined same hs
collect_files-AllDefined (file ∷ files) defined after hs made =
    let (entry, read, h1) = step_ok (parse_file file.decoded) _ after made in
    let def : LaunchDef = record { entry = entry; scope_feature_id = none } in
    let (mid, first, later) = step_ok (define file.launch_id def defined) _ after h1 in
    collect_files-AllDefined files mid after
      (define-AllDefined file.launch_id def defined mid
        (parse_file-IsRamped file.decoded entry read) hs first)
      later

pub collect_launches-AllDefined :
    (configs : Assoc Config) (files : List LaunchFile) (hashable : Str → Bool)
    (scope_dims feature_scopes : Assoc (List Str)) (lc : LaunchCollection)
    → All (λ named. AllRamped named.1.launches) configs
    → collect_launches configs files hashable scope_dims feature_scopes ≡ ok lc
    → AllDefined lc.defined
unfolding collect_launches
collect_launches-AllDefined configs files hashable scope_dims feature_scopes lc ramped made =
    let (found, h, h1) =
      step_ok (collect_configs configs (record { defined = []; refs = [] })) _ lc made in
    let (defined, k, h2) = step_ok (collect_files files found.defined) _ lc h1 in
    let (_, _, h3) = step_ok (check_refs found.refs defined) _ lc h2 in
    let (_, _, h4) = step_ok (check_uniform hashable defined) _ lc h3 in
    let (_, _, h5) = step_ok (check_scopes scope_dims feature_scopes found.refs defined) _ lc h4 in
    let last : AllDefined defined =
      collect_files-AllDefined files found.defined defined
        (collect_configs-AllDefined configs (record { defined = []; refs = [] }) found ramped tt h)
        k in
    let all : LaunchCollection = record { defined = defined; refs = found.refs } in
    let same : all ≡ lc = cc h5 in subst (λ c. AllDefined c.defined) same last

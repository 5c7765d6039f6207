-- ===== src/Sync/Conditions/Runs/Synced.antt =====
-- SyncConditions (internal/sync/conditions.go) as a whole.
use pbflags.Common.{
  All, ℕ, Bool, true, false, ◌&&◌, ◌≡◌, refl, sym, ◌∙◌, ap, Option, none, some, List, [], ◌++◌, Str,
  codes, contains, is_empty, is_some, Assoc,
}
use pbflags.Flag.{FlagValue}
use pbflags.Conditions.{StoredCondition}
use pbflags.CondCache.{CachedDimMeta}
use pbflags.ConfigFile.{Floats}
use pbflags.ConfigFile.Entries.{Config}
use pbflags.Database.{
  Db, FlagRow, FeatureRow, LaunchRow, LockInfo, Error, Result, ok, err, ValueCodec, ◌>>=◌, ◌>>◌,
  lift, exec, pure, find_flag, find_launch, delete,
}
use pbflags.Database.Ends.{
  Ends, Atomic, transaction-Atomic, Ends-bind, Ends-exec, Ends-lift, Ends-pure, Ends-weaken,
}
use pbflags.AdminStore.Seen.{live_in}
use pbflags.SyncLock.{check_lock}
use pbflags.SyncClear.{of_flags, clear_overrides_for_flags_tx}
use pbflags.SyncClear.Effects.{AutoCleared, clear_overrides_for_flags_tx-AutoCleared}
use pbflags.Sync.Definitions.{FlagDef, answer_of}
use pbflags.Sync.Definitions.Kept.Runs.{read_lock}
use pbflags.Sync.Launches.{LaunchCollection, LaunchFile, collect_launches}
use pbflags.Sync.Tables.{FeatureIndex, build_feature_index, ids, abandon_stale, synced_flag_ids}
use pbflags.Sync.Conditions.{
  Descriptors, Source, Configs, ConditionResult, read_configs, sync_files, conditions_unlocked,
  conditions_gated, sync_conditions,
}
use pbflags.ConfigFile.Entries.Files.Ramped.{AllRamped}
use pbflags.AdminLife.Launches.{IsLaunch}
use pbflags.Sync.Conditions.Written.{Written, FlagWritten, all_writes, rest_of}
use pbflags.Sync.Conditions.Stale.{Cleared, is_unfiled, conditions_at}
use pbflags.Sync.Conditions.Steered.{
  Steered, ramp_at, gives_ramp, Steered-append, live_in-abandon_stale, abandon_stale-IsLaunch,
  ramp_at-abandon_stale,
}
use pbflags.Sync.Conditions.Runs.{
  Answers, read_configs-IsReading, Ends-reading, Ends-if, Ends-from_result, cross_of, launches_of,
  Ends-write_cross, Ends-clear_stale, Ends-update_shas, Ends-write_configs,
}

unfiled_rest :
    (idx : FeatureIndex) (configs : Assoc Config) (o : Option FlagRow)
    → is_unfiled idx configs (rest_of o) ≡ is_unfiled idx configs o
unfiled_rest idx configs none = refl
unfiled_rest idx configs (some row) = refl

pub unfiled_same :
    (idx : FeatureIndex) (configs : Assoc Config) (o p : Option FlagRow)
    → rest_of o ≡ rest_of p
    → is_unfiled idx configs o ≡ is_unfiled idx configs p
unfiled_same idx configs o p h =
    sym (unfiled_rest idx configs o) ∙ (ap (is_unfiled idx configs) h ∙ unfiled_rest idx configs p)

module _ (codec : ValueCodec) (marshal_conditions : List StoredCondition → Option Str)
    (marshal_dims : CachedDimMeta → Option Str) (equal : Option FlagValue → Option FlagValue → Bool)
    (cel_version : Str) (floats : Floats) (now : ℕ) (defs : List FlagDef) (files : List LaunchFile)
    (sha : Str) (pruned : Option Str) where
  abbrev idx : FeatureIndex
  idx = build_feature_index defs []

  -- What a sync of conditions with these parsed files and launches has done to the tables.
  pub record Configured (desc : Descriptors) (configs : Assoc Config) (lc : LaunchCollection)
      (before after : Db) : Type 0 where
    pub same_rest :
        (f : Str) → rest_of (find_flag f after.flags) ≡ rest_of (find_flag f before.flags)
    pub emptied :
        (f : Str)
        → is_unfiled idx configs (find_flag f before.flags) ≡ true
        → is_empty (conditions_at (find_flag f after.flags)) ≡ true
    pub written :
        (f : Str)
        → is_unfiled idx configs (find_flag f before.flags) ≡ false
        → FlagWritten codec marshal_conditions marshal_dims equal cel_version desc
            (all_writes idx configs)
            f
            (find_flag f before.flags)
            (find_flag f after.flags)
    pub live :
        (id : Str)
        → live_in id after.launches ≡ (contains (ids lc.defined) id && live_in id before.launches)
    pub same_ramp :
        (id : Str)
        → is_some (find_launch id before.launches) ≡ true
        → gives_ramp id (launches_of configs ++ cross_of lc.defined) ≡ false
        → ramp_at (find_launch id after.launches) ≡ ramp_at (find_launch id before.launches)
    pub valid :
        AllRamped (launches_of configs)
        → AllRamped (cross_of lc.defined)
        → All IsLaunch before.launches
        → All IsLaunch after.launches
    pub cleared : after.overrides ≡ delete (of_flags (synced_flag_ids idx configs)) before.overrides
    pub same_lock : after.sync_lock ≡ before.sync_lock

  flags_configured :
      (desc : Descriptors) (configs : Assoc Config) (before mid after : List FlagRow) (f : Str)
      → Written codec marshal_conditions marshal_dims equal cel_version desc
          (all_writes idx configs)
          before
          mid
      → Cleared idx configs mid after
      → is_unfiled idx configs (find_flag f before) ≡ false
      → FlagWritten codec marshal_conditions marshal_dims equal cel_version desc
          (all_writes idx configs)
          f
          (find_flag f before)
          (find_flag f after)
  flags_configured desc configs before mid after f u c filed =
      let still = unfiled_same idx configs (find_flag f mid) (find_flag f before) (u.same_rest f) in
      rw (c.others f (still ∙ filed)) (u.columns f)

  -- The rows after all loops, and what the clear of overrides makes of the other tables.
  configured :
      (desc : Descriptors) (configs : Assoc Config) (lc : LaunchCollection) (db after : Db)
      (mid rows : List FlagRow) (ls ls' : List LaunchRow) (fs : List FeatureRow) (n : ℕ)
      (bytes : Str)
      → Written codec marshal_conditions marshal_dims equal cel_version desc
          (all_writes idx configs)
          db.flags
          mid
      → Cleared idx configs mid rows
      → Steered (launches_of configs) db.launches ls
      → Steered (cross_of lc.defined) ls ls'
      → AutoCleared codec
          (codes "conditions")
          (synced_flag_ids idx configs)
          (record db { flags = rows; launches = abandon_stale (ids lc.defined) ls'; features = fs })
          n
          after
      → Configured desc configs lc db (record after { context_descriptor = some bytes })
  configured desc configs lc db after mid rows ls ls' fs n bytes u c v v' (number, (log, all, e)) =
      let both =
        Steered-append (launches_of configs) (cross_of lc.defined) db.launches ls ls' v v' in
      let same_flags : after.flags ≡ rows = ap (λ x. x.flags) e in
      let same_launches : after.launches ≡ abandon_stale (ids lc.defined) ls' =
        ap (λ x. x.launches) e in
      record {
        same_rest = λ f. rw same_flags (c.same_rest f ∙ u.same_rest f);
        emptied = λ f unfiled.
            let still =
              unfiled_same idx configs (find_flag f mid) (find_flag f db.flags) (u.same_rest f) in
            rw same_flags (c.emptied f (still ∙ unfiled));
        written =
            λ f filed. rw same_flags (flags_configured desc configs db.flags mid rows f u c filed);
        live = λ id. rw same_launches (
            live_in-abandon_stale (ids lc.defined) ls' id
            ∙ ap (λ b. contains (ids lc.defined) id && b) (both.same_live id));
        same_ramp = λ id there no_ramp.
            rw same_launches
              (ramp_at-abandon_stale (ids lc.defined) ls' id ∙ both.same_ramp id there no_ramp);
        valid = λ h k ks.
            rw same_launches
              (abandon_stale-IsLaunch (ids lc.defined) ls' (v'.valid k (v.valid h ks)));
        cleared = ap (λ x. x.overrides) e;
        same_lock = ap (λ x. x.sync_lock) e;
      }

  -- What SyncConditions promises: the files are parsed and the launches collected, and the tables
  -- are configured by them.
  abbrev pub Synced : Descriptors → List Source → Db → Db → Type 0
  Synced desc sources before after =
      (read : Configs) × (lc : LaunchCollection) × Answers
        (read_configs floats idx sources (record { parsed_configs = []; warnings = [] })) read
      × (collect_launches read.parsed_configs files desc.hashable desc.scope_dims
            desc.feature_scopes
          ≡ ok lc)
      × Configured desc read.parsed_configs lc before after

  -- The statements after the loops.
  finish :
      (desc : Descriptors) (sources : List Source) (db : Db) (read : Configs)
      (lc : LaunchCollection)
      → Answers
          (read_configs floats idx sources (record { parsed_configs = []; warnings = [] }))
          read
      → (collect_launches read.parsed_configs files desc.hashable desc.scope_dims
            desc.feature_scopes
          ≡ ok lc)
      → (res : ConditionResult) (mid rows : List FlagRow) (ls ls' : List LaunchRow)
        (fs : List FeatureRow)
      → Written codec marshal_conditions marshal_dims equal cel_version desc
          (all_writes idx read.parsed_configs)
          db.flags
          mid
      → Cleared idx read.parsed_configs mid rows
      → Steered (launches_of read.parsed_configs) db.launches ls
      → Steered (cross_of lc.defined) ls ls'
      → Ends
          (clear_overrides_for_flags_tx codec
              (codes "conditions")
              (synced_flag_ids idx read.parsed_configs)
            >>= λ _. lift Error.descriptor_error pruned >>= λ bytes.
                exec (λ d. record d { context_descriptor = some bytes }) >> pure res)
          (λ _ after. Synced desc sources db after)
          (record db { flags = rows; launches = abandon_stale (ids lc.defined) ls'; features = fs })
  finish desc sources db read lc reading collected res mid rows ls ls' fs u c v v' = Ends-bind (
      Ends-weaken
        (λ n after done. Ends-bind (
          Ends-lift Error.descriptor_error pruned (λ bytes given. Ends-bind (
            Ends-exec _ _ after (
              Ends-pure res (
                read,
                lc,
                reading,
                collected,
                configured desc read.parsed_configs lc db after mid rows ls ls' fs n bytes u c v v'
                    done,
              ))))))
        (clear_overrides_for_flags_tx-AutoCleared codec (codes "conditions")
          (synced_flag_ids idx read.parsed_configs) _))

  Ends-files :
      (desc : Descriptors) (sources : List Source) (db : Db)
      → Ends
          (sync_files codec marshal_conditions marshal_dims equal cel_version desc floats now idx
            sources files sha pruned)
          (λ _ after. Synced desc sources db after)
          db
  unfolding sync_files
  Ends-files desc sources db = Ends-bind (
      Ends-reading _ _ db
        (read_configs-IsReading floats idx sources (record { parsed_configs = []; warnings = [] }))
        (λ read reading. Ends-bind (
          Ends-from_result _ _ db (λ lc collected. Ends-bind (
            Ends-write_configs codec marshal_conditions marshal_dims equal cel_version desc now idx
              lc.refs read.parsed_configs _ _ db
              (λ res mid ls u v. Ends-bind (
                Ends-write_cross now lc.refs lc.defined _ _ (λ ls' v'. Ends-bind (
                  Ends-exec _ _ _ (
                    Ends-bind (
                      Ends-clear_stale idx read.parsed_configs _ _ (λ rows c. Ends-bind (
                        Ends-if (is_empty sha) _ _ _ _
                          (λ none_given. Ends-pure tt (
                            finish desc sources db read lc reading collected res mid rows ls ls'
                              db.features u c v v'))
                          (λ given. Ends-update_shas sha read.parsed_configs _ _ (λ fs.
                            finish desc sources db read lc reading collected res mid rows ls ls' fs
                              u c v v')))))))))))))))

  module _ (faults : List Bool) (db : Db) where
    -- What the whole call has done.
    abbrev pub SyncedConditions : Option Descriptors → Option (List Source) → Db → Type 0
    SyncedConditions given listed after =
        (desc : Descriptors) × (sources : List Source) × (given ≡ some desc)
        × (listed ≡ some sources)
        × (db.sync_lock ≡ none)
        × Synced desc sources db after

    unlocked-SyncedConditions :
        (given : Option Descriptors) (listed : Option (List Source))
        → db.sync_lock ≡ none
        → Atomic
            (λ _ after. SyncedConditions given listed after)
            db
            (conditions_unlocked codec marshal_conditions marshal_dims equal cel_version floats now
              defs files sha pruned faults db given listed)
    unfolding conditions_unlocked
    unlocked-SyncedConditions none listed free = refl
    unlocked-SyncedConditions (some desc) none free = refl
    unlocked-SyncedConditions (some desc) (some sources) free =
        transaction-Atomic _ (λ _ after. SyncedConditions (some desc) (some sources) after) db
          (Ends-weaken (λ _ after done. (desc, sources, refl, refl, free, done))
            (Ends-files desc sources db))
          faults

    gated-SyncedConditions :
        (given : Option Descriptors) (listed : Option (List Source))
        (gate : Result (Option LockInfo))
        → ((l : Option LockInfo) → gate ≡ ok l → db.sync_lock ≡ l)
        → Atomic
            (λ _ after. SyncedConditions given listed after)
            db
            (conditions_gated codec marshal_conditions marshal_dims equal cel_version floats now
              defs files sha pruned faults db given listed gate)
    unfolding conditions_gated
    gated-SyncedConditions given listed (err e) read = refl
    gated-SyncedConditions given listed (ok (some held)) read = refl
    gated-SyncedConditions given listed (ok none) read =
        unlocked-SyncedConditions given listed (read none refl)

    -- SyncConditions runs only while the sync lock is free. Where it succeeds, the files are parsed
    -- and their launches accepted; a flag of a feature that has no file has no conditions left;
    -- every other flag has the columns of a compiled entry that a file has for it, or its old ones
    -- if no file has one; the rest of each flag's row is unchanged; a launch is live exactly if it
    -- was live and is still defined, and keeps its ramp unless a file gives one; the overrides of
    -- the configured flags are gone. Where it fails it changes nothing at all.
    pub sync_conditions-SyncedConditions :
        (given : Option Descriptors) (listed : Option (List Source)) (lock_faults : List Bool)
        → Atomic
            (λ _ after. SyncedConditions given listed after)
            db
            (sync_conditions codec marshal_conditions marshal_dims equal cel_version floats now defs
              files sha pruned faults db given listed lock_faults)
    unfolding sync_conditions
    sync_conditions-SyncedConditions given listed lock_faults =
        gated-SyncedConditions given listed
          (answer_of (check_lock (record { db = db; faults = lock_faults })))
          (read_lock lock_faults db)

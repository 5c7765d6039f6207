-- ===== src/Sync/Life.antt =====
-- The launches table under the calls of the admin service (internal/admin/store.go, overrides.go) and
-- whole runs of the sync (internal/sync/sync.go, conditions.go), in any order and with any statements
-- failing: each call is one step. The ids of flags are keys of their table.
use pbflags.Common.{
  ℕ, Bool, sym, subst, is_some, Option, List, [], ◌∷◌, ◌++◌, Str, Assoc, All, Bool-cases, inl, inr,
}
use pbflags.Flag.{FlagValue}
use pbflags.Conditions.{StoredCondition}
use pbflags.CondCache.{CachedDimMeta}
use pbflags.ConfigFile.{Floats}
use pbflags.ConfigFile.Entries.{Config, LaunchEntry}
use pbflags.ConfigFile.Entries.Files.Ramped.{AllRamped, parse-AllRamped}
use pbflags.Database.{Db, Session, ValueCodec}
use pbflags.DbFetcher.Killed.{HasKeys}
use pbflags.AdminLife
use pbflags.AdminLife.Launches.{IsLaunch, Atomic-Valid, Step-Valid}
use pbflags.Sync.Definitions.{FlagDef, sync_definitions}
use pbflags.Sync.Definitions.Kept.Runs
use pbflags.Sync.Definitions.Kept.Runs.{sync_definitions-Synced}
use pbflags.Sync.Launches.{LaunchDef, LaunchFile}
use pbflags.Sync.Launches.Ramped.{AllDefined, collect_launches-AllDefined}
use pbflags.Sync.Tables.{build_feature_index}
use pbflags.Sync.Conditions.{Descriptors, Source, Configs, sync_conditions}
use pbflags.Sync.Conditions.Runs.{launches_of, cross_of}
use pbflags.Sync.Conditions.Runs.Synced.{SyncedConditions, sync_conditions-SyncedConditions}
use pbflags.Sync.Conditions.Runs.Values.{AllOf, read_configs-AllOf}

launches_of-AllRamped :
    (configs : Assoc Config)
    → AllOf (λ cfg. AllRamped cfg.launches) configs
    → AllRamped (launches_of configs)
unfolding launches_of
launches_of-AllRamped [] h = tt
launches_of-AllRamped ((feature_id, cfg) ∷ configs) (h, hs) =
    joined cfg.launches (launches_of configs) h (launches_of-AllRamped configs hs)
  where
    joined : (ws vs : Assoc LaunchEntry) → AllRamped ws → AllRamped vs → AllRamped (ws ++ vs)
    joined [] vs l r = r
    joined (w ∷ ws) vs (l, ls) r = (l, joined ws vs ls r)

cross_of-AllRamped : (defined : Assoc LaunchDef) → AllDefined defined → AllRamped (cross_of defined)
unfolding cross_of
cross_of-AllRamped [] h = tt
cross_of-AllRamped ((id, def) ∷ defined) (h, hs) =
    elim (Bool-cases (is_some def.scope_feature_id)) [
      | inl scoped ↦ rw scoped (cross_of-AllRamped defined hs)
      | inr cross ↦ rw cross (h, cross_of-AllRamped defined hs)
    ]

module _ (codec : ValueCodec) (duration : ℕ → Str)
    (marshal_conditions : List StoredCondition → Option Str)
    (marshal_dims : CachedDimMeta → Option Str) (equal : Option FlagValue → Option FlagValue → Bool)
    (cel_version : Str) (floats : Floats) where
  pub data Step : Db → Db → Type 0 where
    admin : {t u : Db} → AdminLife.Step codec duration t u → Step t u
    definitions :
        (now : ℕ) (defs : List FlagDef) (lock_faults faults : List Bool) (db : Db)
        → HasKeys db
        → Step db (sync_definitions codec now defs lock_faults faults db).1
    conditions :
        (now : ℕ) (defs : List FlagDef) (files : List LaunchFile) (sha : Str) (pruned : Option Str)
        (faults : List Bool) (db : Db) (given : Option Descriptors) (listed : Option (List Source))
        (lock_faults : List Bool)
        → Step db
            (sync_conditions codec marshal_conditions marshal_dims equal cel_version floats now defs
              files sha pruned faults db given listed lock_faults).1

  pub data Reach (db : Db) : Db → Type 0 where
    here : Reach db db
    next : {t u : Db} → Reach db t → Step t u → Reach db u

  -- The launches that a sync wrote are those of accepted files.
  synced-IsLaunch :
      (now : ℕ) (defs : List FlagDef) (files : List LaunchFile) (sha : Str) (pruned : Option Str)
      (faults : List Bool) (db after : Db) (given : Option Descriptors)
      (listed : Option (List Source))
      → SyncedConditions codec marshal_conditions marshal_dims equal cel_version floats now defs
          files sha pruned faults db given listed after
      → All IsLaunch db.launches
      → All IsLaunch after.launches
  synced-IsLaunch now defs files sha pruned faults db after given listed
        (desc, sources, _, _, _, (read, lc, reading, collected, conf)) g =
      let s : Session = record { db = db; faults = [] } in
      let start : Configs = record { parsed_configs = []; warnings = [] } in
      let ramped =
        read_configs-AllOf (λ cfg. AllRamped cfg.launches) floats (build_feature_index defs [])
          sources start read s (parse-AllRamped floats) reading tt in
      conf.valid (launches_of-AllRamped read.parsed_configs ramped)
        (cross_of-AllRamped lc.defined (
          collect_launches-AllDefined read.parsed_configs files desc.hashable desc.scope_dims
            desc.feature_scopes lc ramped collected))
        g

  Step-IsLaunch : {t u : Db} → Step t u → All IsLaunch t.launches → All IsLaunch u.launches
  Step-IsLaunch (admin step) g = Step-Valid codec duration step g
  Step-IsLaunch (definitions now defs lock_faults faults db keys) g =
      Atomic-Valid (λ _. Runs.Synced codec defs db) db _
        (sync_definitions-Synced codec now defs lock_faults faults db keys)
        (λ _ after done. subst (All IsLaunch) (sym done.same_launches) g) g
  Step-IsLaunch (conditions now defs files sha pruned faults db given listed lock_faults) g =
      Atomic-Valid
        (λ _ after.
          SyncedConditions codec marshal_conditions marshal_dims equal cel_version floats now defs
            files sha pruned faults db given listed after)
        db _
        (sync_conditions-SyncedConditions codec marshal_conditions marshal_dims equal cel_version
          floats now defs files sha pruned faults db given listed lock_faults)
        (λ _ after done.
          synced-IsLaunch now defs files sha pruned faults db after given listed done g)
        g

  -- In any sequence of the admin service's calls, syncs of definitions and syncs of conditions,
  -- whatever statements fail, each launch keeps a ramp between 0 and 100 and a source and a status
  -- that are known ones.
  pub Reach-IsLaunch : {s t : Db} → All IsLaunch s.launches → Reach s t → All IsLaunch t.launches
  Reach-IsLaunch g here = g
  Reach-IsLaunch g (next p step) = Step-IsLaunch step (Reach-IsLaunch g p)

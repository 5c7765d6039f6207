-- ===== src/Sync/Conditions/Runs/Values.antt =====
-- From the configuration files through SyncConditions (internal/sync/conditions.go) and the tables
-- to what the evaluator answers.
use pbflags.Common.{
  ℕ, ◌⊎◌, Bool, true, false, ◌≡◌, sym, ◌∙◌, ap, Option, none, some, List, [], ◌∷◌, ◌++◌, Str, ◌=s◌,
  contains, subst, Bool-cases, Assoc, lookup, put, All, arith, inl, inr,
}
use pbflags.Flag.{FlagValue, FlagType}
use pbflags.Message.{Message}
use pbflags.Launch.{CachedLaunch}
use pbflags.Conditions.{
  StoredCondition, Codec, Program, is_true, launch_map, compile_conditions, evaluate_conditions,
}
use pbflags.CondCache.{CachedDimMeta}
use pbflags.Classify.{Expr}
use pbflags.ConfigFile.{Floats}
use pbflags.ConfigFile.Entries.{
  RawConfig, Config, FlagEntry, Warning, Parsed, parsed, failed, parse,
}
use pbflags.ConfigFile.Entries.Chains.{IsEntry}
use pbflags.ConfigFile.Entries.Files.All.{IsTyped, parse-IsTyped}
use pbflags.Database.{
  Db, FlagRow, Error, Result, ok, Session, Tx, ValueCodec, ◌>>=◌, pure, raise, lift, find_flag,
}
use pbflags.Database.Ends.{Atomic-ok}
use pbflags.Sync.Stored.{IsWire}
use pbflags.Sync.Evaluated.{configured, compile_flag-configured, compile_flag-some}
use pbflags.Sync.Definitions.{FlagDef}
use pbflags.Sync.Launches.{LaunchFile}
use pbflags.Sync.Tables.{FlagInfo, FeatureIndex, flags_of, build_feature_index, Columns, ids}
use pbflags.Sync.Conditions.{
  types_of, Descriptors, Source, Configs, ConditionResult, peek_feature, parsed_or_error,
  read_configs, sync_conditions,
}
use pbflags.Sync.Conditions.Written.{
  FlagWritten, Writes, writes_of, all_writes, columns_at, overwritten,
}
use pbflags.Sync.Conditions.Stale.{is_unfiled}
use pbflags.Sync.Conditions.Runs.{
  Answers, IsReading, IsReading-lift, peek_feature-IsReading, parsed_or_error-IsReading,
}
use pbflags.Sync.Conditions.Runs.Synced.{
  Synced, SyncedConditions, sync_conditions-SyncedConditions, unfiled_same,
}

-- All configurations satisfy `C`.
abbrev pub AllOf : (Config → Type 0) → Assoc Config → Type 0
AllOf C configs = All (λ named. C named.1) configs

put-AllOf :
    (C : Config → Type 0) (id : Str) (cfg : Config) (configs : Assoc Config)
    → C cfg
    → AllOf C configs
    → AllOf C (put id cfg configs)
unfolding put
put-AllOf C id cfg [] h hs = (h, tt)
put-AllOf C id cfg ((j, w) ∷ configs) h (hw, hs) = elim (Bool-cases (j =s id)) [
  | inl this ↦ rw this (h, hs)
  | inr other ↦ rw other (hw, put-AllOf C id cfg configs h hs)
]

-- All flags of the configuration are typed.
abbrev AreTyped : Config → Type 0
AreTyped cfg = All IsTyped cfg.flags

-- Inversion of a step that reads nothing of the tables.
answered :
    {A B : Type 0} (m : Tx A) (f : A → Tx B) (b : B)
    → Session
    → IsReading m
    → Answers (m >>= f) b
    → (a : A) × Answers m a × Answers (f a) b
unfolding ◌>>=◌
answered m f b s (inl (a, is)) h = (a, is, λ t. rw (is t) at (h t))
answered m f b s (inr (e, fails)) h = let no = rw (fails s) at (h s) in absurd (ground (arith, no))

parsed_answer :
    (p : Parsed) (found : Config × List Warning)
    → Session
    → Answers (parsed_or_error p) found
    → p ≡ parsed found.0 found.1
unfolding parsed_or_error pure raise
parsed_answer (failed errs) found s h = let no = h s in absurd (ground (arith, no))
parsed_answer (parsed cfg warns) found s h =
    let e : (cfg, warns) ≡ found = cc (h s) in ap (λ x. parsed x.0 x.1) e

-- What every parsed file satisfies, all configurations do.
pub read_configs-AllOf :
    (C : Config → Type 0) (floats : Floats) (idx : FeatureIndex) (sources : List Source)
    (start read : Configs)
    → Session
    → ((types : Assoc FlagType) (raw : RawConfig) (cfg : Config) (warns : List Warning)
        → parse floats types raw ≡ parsed cfg warns
        → C cfg)
    → Answers (read_configs floats idx sources start) read
    → AllOf C start.parsed_configs
    → AllOf C read.parsed_configs
unfolding read_configs
read_configs-AllOf C floats idx [] start read s of_file h typed =
    let same : start ≡ read = unfold pure in cc (h s) in
    subst (λ r. AllOf C r.parsed_configs) same typed
read_configs-AllOf C floats idx (source ∷ sources) start read s of_file h typed =
    let (feature_id, named, h1) =
      answered (peek_feature source.peeked) _ read s (peek_feature-IsReading source.peeked) h in
    let (infos, there, h2) =
      answered (lift Error.feature_not_in_proto (lookup feature_id idx)) _ read s
        (IsReading-lift Error.feature_not_in_proto (lookup feature_id idx)) h1 in
    let (raw, decoded, h3) =
      answered (lift Error.config_error source.decoded) _ read s
        (IsReading-lift Error.config_error source.decoded) h2 in
    let (found, made, h4) =
      answered (parsed_or_error (parse floats (types_of infos) raw)) _ read s
        (parsed_or_error-IsReading (parse floats (types_of infos) raw)) h3 in
    read_configs-AllOf C floats idx sources _ read s of_file h4 (
      put-AllOf C feature_id found.0 start.parsed_configs
        (of_file (types_of infos) raw found.0 found.1
          (parsed_answer (parse floats (types_of infos) raw) found s made))
        typed)

-- An entry that is written is one of the configurations.
Writes-split :
    (f : Str) (entry : FlagEntry) (ws vs : Assoc FlagEntry)
    → Writes f entry (ws ++ vs)
    → Writes f entry ws ⊎ Writes f entry vs
unfolding Writes
Writes-split f entry [] vs h = inr h
Writes-split f entry ((id, e) ∷ ws) vs (inl here) = inl (inl here)
Writes-split f entry ((id, e) ∷ ws) vs (inr later) = elim (Writes-split f entry ws vs later) [
  | inl left ↦ inl (inr left)
  | inr right ↦ inr right
]

Writes-typed :
    (infos : Assoc FlagInfo) (flags : Assoc FlagEntry) (f : Str) (entry : FlagEntry)
    → All IsTyped flags
    → Writes f entry (writes_of infos flags)
    → (ft : FlagType) × IsEntry ft entry
unfolding Writes writes_of
Writes-typed infos [] f entry typed h = absurd h
Writes-typed infos ((name, e) ∷ flags) f entry ((ft, is), typed) (inl (id, same)) =
    (ft, subst (IsEntry ft) same is)
Writes-typed infos ((name, e) ∷ flags) f entry (first, typed) (inr later) =
    Writes-typed infos flags f entry typed later

all_writes-typed :
    (idx : FeatureIndex) (configs : Assoc Config) (f : Str) (entry : FlagEntry)
    → AllOf AreTyped configs
    → Writes f entry (all_writes idx configs)
    → (ft : FlagType) × IsEntry ft entry
unfolding all_writes Writes
all_writes-typed idx [] f entry typed h = absurd h
all_writes-typed idx ((feature_id, cfg) ∷ configs) f entry (first, typed) h =
    elim (Writes-split f entry (writes_of (flags_of (lookup feature_id idx)) cfg.flags)
      (all_writes idx configs) h) [
        | inl here ↦ Writes-typed (flags_of (lookup feature_id idx)) cfg.flags f entry first here
        | inr later ↦ all_writes-typed idx configs f entry typed later
      ]

answers_once :
    (m : Tx Configs) (read read' : Configs) (s : Session)
    → Answers m read
    → Answers m read'
    → read ≡ read'
answers_once m read read' s h k =
    let both : ◌≡◌ {A = Result (Configs × Session)} (ok (read, s)) (ok (read', s)) =
      sym (h s) ∙ k s in
    cc both

overwritten-some :
    (cols : Columns) (o : Option FlagRow) (row : FlagRow)
    → columns_at (some row) ≡ overwritten cols o
    → row.conditions ≡ cols.conditions
overwritten-some cols none row h = absurd (ground (arith, h))
overwritten-some cols (some old) row h = ground (arith, h)

module _ (values : ValueCodec) (marshal_conditions : List StoredCondition → Option Str)
    (marshal_dims : CachedDimMeta → Option Str) (equal : Option FlagValue → Option FlagValue → Bool)
    (cel_version : Str) (floats : Floats) (now : ℕ) (defs : List FlagDef) (files : List LaunchFile)
    (sha : Str) (pruned : Option Str) (faults lock_faults : List Bool) (db : Db)
    (desc : Descriptors) (sources : List Source) (run : Expr → Program) (codec : Codec)
    (wire : IsWire values.marshal marshal_conditions desc.compile run codec)
    (holds : Str → Message → Bool) (launches : List CachedLaunch) (ctx : Option Message)
    (truth : (s : Str) (e : Expr) (c : Message)
      → desc.compile s ≡ some e
      → is_true (run e c) ≡ holds s c) where
  -- The flag's stored conditions are evaluated as an entry for it says.
  abbrev pub Evaluates : Str → FlagRow → Assoc FlagEntry → Type 0
  Evaluates f row ws =
      (entry : FlagEntry) × Writes f entry ws
      × ((evaluate_conditions (compile_conditions codec row.conditions) ctx launches).value
          ≡ configured holds (launch_map launches []) ctx entry)

  evaluated_row :
      (idx : FeatureIndex) (configs : Assoc Config) (f : Str) (before : Option FlagRow)
      (row : FlagRow)
      → AllOf AreTyped configs
      → FlagWritten values marshal_conditions marshal_dims equal cel_version desc
          (all_writes idx configs)
          f
          before
          (some row)
      → contains (ids (all_writes idx configs)) f ≡ true
      → Evaluates f row (all_writes idx configs)
  evaluated_row idx configs f before row typed (inl (other, same)) given =
      absurd (ground (arith, other, given))
  evaluated_row idx configs f before row typed (inr (entry, cols, there, st, at)) given =
      let (ft, is) = all_writes-typed idx configs f entry typed there in
      let same = overwritten-some cols before row at in
      let size =
        compile_flag-some values.marshal marshal_conditions desc.compile run codec wire holds
          launches ctx truth equal desc.bounded ft entry st.out is st.compiled in
      (
        entry,
        there,
        rw same (
            compile_flag-configured values.marshal marshal_conditions desc.compile run codec wire
              holds launches ctx truth equal desc.bounded ft entry st.out cols.conditions is
              st.compiled (st.stored size)),
      )

  synced :
      (after : Db)
      → SyncedConditions values marshal_conditions marshal_dims equal cel_version floats now defs
          files sha pruned faults db
          (some desc)
          (some sources)
          after
      → Synced values marshal_conditions marshal_dims equal cel_version floats now defs files sha
          pruned desc sources db after
  synced after (d, ss, same_desc, same_sources, free, done) =
      let this_desc : d ≡ desc = cc same_desc in
      let these_sources : ss ≡ sources = cc same_sources in
      subst
        (λ x.
          Synced values marshal_conditions marshal_dims equal cel_version floats now defs files sha
            pruned x sources db after)
        this_desc
        (subst
          (λ x.
            Synced values marshal_conditions marshal_dims equal cel_version floats now defs files
              sha pruned d x db after)
          these_sources done)

  abbrev idx : FeatureIndex
  idx = build_feature_index defs []

  module _ (read : Configs)
      (reading : Answers
        (read_configs floats idx sources (record { parsed_configs = []; warnings = [] }))
        read) where
    evaluated_after :
        (after : Db) (f : Str) (row : FlagRow)
        → Synced values marshal_conditions marshal_dims equal cel_version floats now defs files sha
            pruned desc sources db after
        → find_flag f after.flags ≡ some row
        → is_unfiled idx read.parsed_configs (some row) ≡ false
        → contains (ids (all_writes idx read.parsed_configs)) f ≡ true
        → Evaluates f row (all_writes idx read.parsed_configs)
    evaluated_after after f row (read', lc, reading', collected, conf) there filed given =
        let s : Session = record { db = db; faults = [] } in
        let start : Configs = record { parsed_configs = []; warnings = [] } in
        let same : read' ≡ read =
          answers_once (read_configs floats idx sources start) read' read s reading' reading in
        let typed =
          read_configs-AllOf AreTyped floats idx sources start read' s (parse-IsTyped floats)
            reading' tt in
        let filed' : is_unfiled idx read'.parsed_configs (some row) ≡ false =
          subst (λ r. is_unfiled idx r.parsed_configs (some row) ≡ false) (sym same) filed in
        let given' : contains (ids (all_writes idx read'.parsed_configs)) f ≡ true =
          subst (λ r. contains (ids (all_writes idx r.parsed_configs)) f ≡ true) (sym same) given in
        let before : is_unfiled idx read'.parsed_configs (find_flag f db.flags) ≡ false =
          sym (
            unfiled_same idx read'.parsed_configs (find_flag f after.flags) (find_flag f db.flags)
              (conf.same_rest f))
          ∙ (ap (is_unfiled idx read'.parsed_configs) there ∙ filed') in
        subst (λ r. Evaluates f row (all_writes idx r.parsed_configs)) same
          (evaluated_row idx read'.parsed_configs f (find_flag f db.flags) row typed
            (subst
              (FlagWritten values marshal_conditions marshal_dims equal cel_version desc
                (all_writes idx read'.parsed_configs) f (find_flag f db.flags))
              there (conf.written f before))
            given')

    -- After a successful SyncConditions the conditions that the row of a configured flag stores are
    -- evaluated, in any context, as an entry that a file has for the flag says, where the row is not
    -- one of a feature that has no file. The codec and the compiler keep their promises, and no live
    -- override is set.
    pub sync_conditions-evaluated :
        (result : ConditionResult) (f : Str) (row : FlagRow)
        → (sync_conditions values marshal_conditions marshal_dims equal cel_version floats now defs
            files sha pruned faults db
            (some desc)
            (some sources)
            lock_faults).0
          ≡ ok result
        → find_flag f
            (sync_conditions values marshal_conditions marshal_dims equal cel_version floats now
              defs files sha pruned faults db
              (some desc)
              (some sources)
              lock_faults).1.flags
          ≡ some row
        → is_unfiled idx read.parsed_configs (some row) ≡ false
        → contains (ids (all_writes idx read.parsed_configs)) f ≡ true
        → Evaluates f row (all_writes idx read.parsed_configs)
    sync_conditions-evaluated result f row done there filed given =
        evaluated_after _ f row
          (synced _ (
            Atomic-ok _ db _ result
              (sync_conditions-SyncedConditions values marshal_conditions marshal_dims equal
                cel_version floats now defs files sha pruned faults db (some desc) (some sources)
                lock_faults)
              done))
          there filed given

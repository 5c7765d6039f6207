-- ===== src/Sync/Definitions/Kept/Runs.antt =====
-- SyncDefinitions (internal/sync/sync.go) as a whole, wherever its statements fail.
use pbflags.Common.{
  arith, ℕ, ◌≤◌, Bool, true, false, ◌||◌, ◌&&◌, not, ◌≡◌, refl, ◌∙◌, Option, none, some, List, [],
  ◌∷◌, Str, codes, contains, Assoc, ap,
}
use pbflags.Database.{
  query, LockInfo, Db, FlagRow, FeatureRow, Error, ValueCodec, Result, ok, err, find_flag, delete,
}
use pbflags.Database.Ends.{
  Ends, Atomic, transaction-Atomic, Ends-bind, Ends-query, Ends-exec, Ends-lift, Ends-pure,
  Ends-weaken,
}
use pbflags.SyncLock.{check_lock, get_sync_lock}
use pbflags.SyncLock.Held.{Ends-marshal}
use pbflags.SyncClear.{of_flags}
use pbflags.SyncClear.Effects.{AutoCleared, clear_overrides_for_flags_tx-AutoCleared}
use pbflags.DbFetcher.Killed.{count_flag, HasKeys}
use pbflags.Sync.Definitions.{
  answer_of, FlagDef, FeatureInfo, features_of, upsert_features, upsert_flags, marshal_supported,
  archive_flags, to_archive, flag_ids, sync_in_tx, sync_unlocked, sync_gated, sync_definitions,
}
use pbflags.Sync.Definitions.Kept.{
  runtime, is_active, in_features, Upserted, Upserted-none, Upserted-next, Archived, Archived-none,
  Archived-next, active_after,
}

Ends-features :
    (fs : Assoc FeatureInfo) (Q : Unit → Db → Type 0) (db : Db)
    → ((rows : List FeatureRow) → Q tt (record db { features = rows }))
    → Ends (upsert_features fs) Q db
unfolding upsert_features
Ends-features [] Q db h = record { after = (Ends-pure tt (h db.features)).after }
Ends-features ((id, fi) ∷ fs) Q db h = record {
  after = (Ends-bind {Q = Q} (Ends-exec _ _ db (Ends-features fs Q _ h))).after;
}

Ends-supported :
    (o : Option (Option Str)) (Q : Option Str → Db → Type 0) (db : Db)
    → ((bytes : Option Str) → Q bytes db)
    → Ends (marshal_supported o) Q db
unfolding marshal_supported
Ends-supported none Q db h = record { after = (Ends-pure none (h none)).after }
Ends-supported (some o) Q db h = record {
  after =
      (Ends-bind {Q = Q} (
        Ends-lift Error.marshal_error o
          (λ bytes _. Ends-pure (some bytes) (h (some bytes))))).after;
}

Ends-archive :
    (now : ℕ) (ids : List Str) (Q : Unit → Db → Type 0) (db : Db)
    → ((rows : List FlagRow) → Archived ids db.flags rows → Q tt (record db { flags = rows }))
    → Ends (archive_flags now ids) Q db
unfolding archive_flags
Ends-archive now [] Q db h = record {
  after = (Ends-pure tt (h db.flags (Archived-none db.flags))).after;
}
Ends-archive now (id ∷ ids) Q db h = record {
  after =
      (Ends-bind {Q = Q} (
        Ends-exec _ _ db (
          Ends-archive now ids Q _
            (λ rows a. h rows (Archived-next id ids now db.flags rows a))))).after;
}

pub read_lock :
    (faults : List Bool) (db : Db) (l : Option LockInfo)
    → answer_of (check_lock (record { db = db; faults = faults })) ≡ ok l
    → db.sync_lock ≡ l
unfolding check_lock get_sync_lock query
read_lock [] db l h = cc h
read_lock (true ∷ faults) db l h = absurd (ground (arith, h))
read_lock (false ∷ faults) db l h = cc h

module _ (codec : ValueCodec) where
  Ends-flags :
      (defs : List FlagDef) (Q : Unit → Db → Type 0) (db : Db)
      → ((rows : List FlagRow) → Upserted defs db.flags rows → Q tt (record db { flags = rows }))
      → Ends (upsert_flags codec defs) Q db
  unfolding upsert_flags
  Ends-flags [] Q db h = record {
    after = (Ends-pure tt (h db.flags (Upserted-none db.flags))).after;
  }
  Ends-flags (d ∷ defs) Q db h = record {
    after =
        (Ends-bind {Q = Q} (
          Ends-marshal codec d.default _ db (λ a. Ends-bind (
            Ends-supported d.supported_values _ db (λ b. Ends-bind (
              Ends-exec _ _ db (
                Ends-flags defs Q _
                  (λ rows u. h rows (Upserted-next d defs a b db.flags rows u))))))))).after;
  }

  -- What a sync of definitions has done to the tables.
  record Defined (defs : List FlagDef) (before after : Db) : Type 0 where
    pub same_runtime :
        (f : Str) → runtime (find_flag f after.flags) ≡ runtime (find_flag f before.flags)
    pub active :
        (f : Str)
        → count_flag f before.flags ≤ 1
        → is_active (find_flag f after.flags) ≡ (
            contains (flag_ids defs) f
            || (is_active (find_flag f before.flags)
                && not (in_features (features_of defs []) (find_flag f before.flags))))
    pub same_launches : after.launches ≡ before.launches
    pub same_lock : after.sync_lock ≡ before.sync_lock
    pub same_overrides : after.overrides ≡ before.overrides
    pub same_audit : after.audit ≡ before.audit

  Ends-sync :
      (now : ℕ) (defs : List FlagDef) (db : Db)
      → Ends (sync_in_tx codec now defs) (λ _ after. Defined defs db after) db
  unfolding sync_in_tx
  Ends-sync now defs db = Ends-bind (
      Ends-features (features_of defs []) _ db (λ feature_rows. Ends-bind (
        Ends-flags defs _ _ (λ mid u. Ends-bind (
          Ends-query _ _ _ (
            Ends-bind (
              Ends-archive now (to_archive (features_of defs []) (flag_ids defs) mid) _ _ (λ rows a.
                Ends-pure _ (record {
                  same_runtime = λ f. a.same_runtime f ∙ u.same_runtime f;
                  active =
                      λ f key. active_after (features_of defs []) defs db.flags mid rows f key u a;
                  same_launches = refl;
                  same_lock = refl;
                  same_overrides = refl;
                  same_audit = refl;
                })))))))))

  -- A sync of definitions that succeeded.
  pub record Synced (defs : List FlagDef) (before after : Db) : Type 0 where
    pub unlocked : before.sync_lock ≡ none
    pub same_runtime :
        (f : Str) → runtime (find_flag f after.flags) ≡ runtime (find_flag f before.flags)
    pub active :
        (f : Str)
        → is_active (find_flag f after.flags) ≡ (
            contains (flag_ids defs) f
            || (is_active (find_flag f before.flags)
                && not (in_features (features_of defs []) (find_flag f before.flags))))
    pub cleared : after.overrides ≡ delete (of_flags (flag_ids defs)) before.overrides
    pub same_launches : after.launches ≡ before.launches
    pub still_unlocked : after.sync_lock ≡ none

  cleared-Synced :
      (defs : List FlagDef) (db mid after : Db) (n : ℕ)
      → HasKeys db
      → db.sync_lock ≡ none
      → Defined defs db mid
      → AutoCleared codec (codes "definitions") (flag_ids defs) mid n after
      → Synced defs db after
  cleared-Synced defs db mid after n keys free d (number, (log, all, e)) = record {
    unlocked = free;
    same_runtime = λ f. ap (λ x. runtime (find_flag f x.flags)) e ∙ d.same_runtime f;
    active = λ f. ap (λ x. is_active (find_flag f x.flags)) e ∙ d.active f (keys f);
    cleared = ap (λ x. x.overrides) e ∙ ap (delete (of_flags (flag_ids defs))) d.same_overrides;
    same_launches = ap (λ x. x.launches) e ∙ d.same_launches;
    still_unlocked = ap (λ x. x.sync_lock) e ∙ (d.same_lock ∙ free);
  }

  Ends-unlocked :
      (now : ℕ) (defs : List FlagDef) (db : Db)
      → HasKeys db
      → db.sync_lock ≡ none
      → Ends (sync_unlocked codec now defs) (λ _ after. Synced defs db after) db
  unfolding sync_unlocked
  Ends-unlocked now defs db keys free = Ends-bind (
      Ends-weaken
        (λ result mid d. Ends-bind (
          Ends-weaken
            (λ n after done. Ends-pure result (cleared-Synced defs db mid after n keys free d done))
            (clear_overrides_for_flags_tx-AutoCleared codec (codes "definitions") (flag_ids defs)
              mid)))
        (Ends-sync now defs db))

  gated-Synced :
      (now : ℕ) (defs : List FlagDef) (faults : List Bool) (db : Db)
      (gate : Result (Option LockInfo))
      → HasKeys db
      → ((l : Option LockInfo) → gate ≡ ok l → db.sync_lock ≡ l)
      → Atomic (λ _ after. Synced defs db after) db (sync_gated codec now defs faults db gate)
  unfolding sync_gated
  gated-Synced now defs faults db (err e) keys read = refl
  gated-Synced now defs faults db (ok (some held)) keys read = refl
  gated-Synced now defs faults db (ok none) keys read =
      transaction-Atomic _ (λ _ after. Synced defs db after) db
        (Ends-unlocked now defs db keys (read none refl)) faults

  -- SyncDefinitions runs only while the sync lock is free. Where it succeeds, no flag's kill,
  -- conditions or dimension metadata have changed, a flag is active exactly if it is defined, or
  -- was active and is of no feature that is defined, the overrides of the defined flags are gone,
  -- and launches and lock are as they were. Where it fails it changes nothing at all. The ids of
  -- flags are keys of their table.
  pub sync_definitions-Synced :
      (now : ℕ) (defs : List FlagDef) (lock_faults faults : List Bool) (db : Db)
      → HasKeys db
      → Atomic
          (λ _ after. Synced defs db after)
          db
          (sync_definitions codec now defs lock_faults faults db)
  unfolding sync_definitions
  sync_definitions-Synced now defs lock_faults faults db keys =
      gated-Synced now defs faults db
        (answer_of (check_lock (record { db = db; faults = lock_faults }))) keys
        (read_lock lock_faults db)

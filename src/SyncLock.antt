-- ===== src/SyncLock.antt =====
-- The global lock on config sync: internal/admin/overrides.go takes and releases it, internal/sync/
-- lock.go checks it. Each call is a transaction over the tables, with the time as an argument and
-- the text that Go prints for a duration as a parameter.
pub mod Held
use pbflags.Common.{
  reason_mark, false, ◌||◌, true, Bool, ℕ, Option, none, some, List, [], ◌∷◌, ◌++◌, Str, codes,
  is_empty, if◌then◌else◌, ◌-◌,
}
use pbflags.Flag.{FlagValue, string_value}
use pbflags.Database.{
  returning, Db, LockInfo, AuditRow, Error, Result, ok, err, Tx, Session, ValueCodec, ◌>>=◌, ◌>>◌,
  pure, raise, query, exec, lift, transaction,
}

-- auditFlagIDSyncLock and the action names.
abbrev pub audit_flag_id_sync_lock : Str
audit_flag_id_sync_lock = codes "__sync_lock__"

abbrev pub action_acquire_sync_lock : Str
action_acquire_sync_lock = codes "ACQUIRE_SYNC_LOCK"

abbrev pub action_release_sync_lock : Str
action_release_sync_lock = codes "RELEASE_SYNC_LOCK"

-- getSyncLock
unfoldable pub get_sync_lock : Tx (Option LockInfo)
get_sync_lock s = query (λ db. db.sync_lock) s

-- checkLock: the error that stops a sync, or nothing.
unfoldable pub check_lock : Tx (Option LockInfo)
unfolding get_sync_lock
check_lock s = get_sync_lock s

module _ (codec : ValueCodec) where
  -- A value that is stored as bytes; no value is stored as NULL.
  unfoldable pub marshal_optional : Option FlagValue → Tx (Option Str)
  marshal_optional none s = pure none s
  marshal_optional (some v) s =
      (do bytes ← lift Error.marshal_error (codec.marshal v); pure (some bytes)) s

  -- insertAuditEntry
  unfoldable pub insert_audit_entry :
      Str → Str → Option FlagValue → Option FlagValue → Str → Tx Unit
  insert_audit_entry flag_id action old_val new_val actor = do
    old_bytes ← marshal_optional old_val
    new_bytes ← marshal_optional new_val
    exec (λ db. record db {
      audit =
          record {
            flag_id = flag_id;
            action = action;
            old_value = old_bytes;
            new_value = new_bytes;
            actor = actor;
          }
          ∷ db.audit;
    })

-- INSERT of the lock row with ON CONFLICT DO NOTHING: whether a row came back.
unfoldable pub put_lock : LockInfo → Option LockInfo → Db → Bool × Db
put_lock info none db = (true, record db { sync_lock = some info })
put_lock info (some held) db = (false, db)

unfoldable pub insert_lock : LockInfo → Db → Bool × Db
unfolding put_lock
insert_lock info db = put_lock info db.sync_lock db

module _ (codec : ValueCodec) where
  unfoldable pub lock_conflict : Option LockInfo → Tx LockInfo
  lock_conflict none s = raise Error.contention s
  lock_conflict (some current) s = raise (Error.lock_held current) s

  unfoldable pub after_insert : LockInfo → Bool → Tx LockInfo
  after_insert info true s =
      (do
        insert_audit_entry codec audit_flag_id_sync_lock action_acquire_sync_lock none
            (some (string_value info.reason)) info.actor
        pure info)
        s
  after_insert info false s = (get_sync_lock >>= lock_conflict) s

  -- AcquireSyncLock
  unfoldable pub acquire_sync_lock : Str → Str → ℕ → List Bool → Db → Result LockInfo × Db
  acquire_sync_lock actor reason now faults db =
      if is_empty actor || is_empty reason
      then (err Error.invalid_argument, db)
      else let info : LockInfo = record { actor = actor; reason = reason; created_at = now } in
        transaction (returning (insert_lock info) >>= after_insert info) faults db

  -- The message of the release. `duration` prints the time that the lock was held.
  unfoldable pub release_message : Str → Str → Str → LockInfo → Str
  release_message held_for actor unlock_reason current =
      codes "unlocked after "
      ++ held_for
      ++ codes " by "
      ++ actor
      ++ reason_mark
      ++ unlock_reason
      ++ codes " (lock-reason was: "
      ++ current.reason
      ++ codes ")"

  unfoldable pub release_held : (ℕ → Str) → Str → Str → ℕ → Option LockInfo → Tx Unit
  release_held duration actor unlock_reason now none s = raise Error.sync_not_locked s
  release_held duration actor unlock_reason now (some current) s =
      (do
        exec (λ db. record db { sync_lock = none })
        insert_audit_entry codec audit_flag_id_sync_lock action_release_sync_lock
            (some (string_value current.reason))
            (some (
              string_value (
                release_message (duration (now - current.created_at)) actor unlock_reason current)))
            actor)
        s

  -- ReleaseSyncLock
  unfoldable pub release_sync_lock : (ℕ → Str) → Str → Str → ℕ → List Bool → Db → Result Unit × Db
  release_sync_lock duration actor unlock_reason now faults db =
      if is_empty actor || is_empty unlock_reason
      then (err Error.invalid_argument, db)
      else transaction (get_sync_lock >>= release_held duration actor unlock_reason now) faults db

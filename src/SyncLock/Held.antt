-- ===== src/SyncLock/Held.antt =====
-- What the calls on the sync lock (internal/admin/overrides.go, internal/sync/lock.go) do to the
-- tables.
use pbflags.Common.{
  Bool, true, ◌≡◌, refl, Option, none, some, List, ◌∷◌, Str, is_empty, Bool-cases, inl, inr, ℕ,
  ◌||◌, is_some,
}
use pbflags.Flag.{FlagValue}
use pbflags.Database.{Db, LockInfo, Error, ValueCodec, lift, pure}
use pbflags.Database.Ends.{
  Ends, Atomic, transaction-Atomic, Ends-bind, Ends-query, Ends-exec, Ends-lift, Ends-pure,
  Ends-raise, Ends-returning,
}
use pbflags.SyncLock.{
  put_lock, marshal_optional, insert_audit_entry, acquire_sync_lock, release_sync_lock, insert_lock,
  after_insert, lock_conflict, release_held, get_sync_lock, audit_flag_id_sync_lock,
  action_acquire_sync_lock, action_release_sync_lock,
}

-- One more entry of this flag, action and actor.
abbrev pub Audited : Str → Str → Str → Db → Db → Type 0
Audited flag_id action actor before after =
    (old new : Option Str) × (after ≡ record before {
      audit =
          record {
            flag_id = flag_id;
            action = action;
            old_value = old;
            new_value = new;
            actor = actor;
          }
          ∷ before.audit;
    })

module _ (codec : ValueCodec) where
  pub Ends-marshal :
      (v : Option FlagValue) (Q : Option Str → Db → Type 0) (db : Db)
      → ((bytes : Option Str) → Q bytes db)
      → Ends (marshal_optional codec v) Q db
  unfolding marshal_optional
  Ends-marshal none Q db h = record { after = (Ends-pure none (h none)).after }
  Ends-marshal (some v) Q db h = record {
    after =
        (Ends-bind {m = lift Error.marshal_error (codec.marshal v)} {f = λ bytes. pure (some bytes)}
          {Q = Q} {db = db}
          (Ends-lift Error.marshal_error (codec.marshal v)
            (λ bytes _. Ends-pure (some bytes) (h (some bytes))))).after;
  }

  pub Ends-audit :
      (flag_id action : Str) (old new : Option FlagValue) (actor : Str) (Q : Unit → Db → Type 0)
      (db : Db)
      → ((after : Db) → Audited flag_id action actor db after → Q tt after)
      → Ends (insert_audit_entry codec flag_id action old new actor) Q db
  unfolding insert_audit_entry
  Ends-audit flag_id action old new actor Q db h = Ends-bind (
      Ends-marshal old _ db (λ old_bytes.
        Ends-bind (
          Ends-marshal new _ db
            (λ new_bytes. Ends-exec _ _ db (h _ (old_bytes, new_bytes, refl))))))

  -- What a successful acquisition has done: the lock was free, and is now held by this holder.
  abbrev pub Acquired : Str → Str → ℕ → Db → LockInfo → Db → Type 0
  Acquired actor reason now before info after =
      (before.sync_lock ≡ none)
      × (info ≡ record { actor = actor; reason = reason; created_at = now })
      × Audited audit_flag_id_sync_lock action_acquire_sync_lock actor
          (record before { sync_lock = some info }) after

  module _ (actor reason : Str) (now : ℕ) where
    abbrev info : LockInfo
    info = record { actor = actor; reason = reason; created_at = now }

    Ends-conflict :
        (l : Option LockInfo) (Q : LockInfo → Db → Type 0) (db : Db)
        → Ends (lock_conflict codec l) Q db
    unfolding lock_conflict
    Ends-conflict none Q db = record { after = (Ends-raise Error.contention).after }
    Ends-conflict (some l) Q db = record { after = (Ends-raise (Error.lock_held l)).after }

    Ends-after_insert :
        (db : Db) (o : Option LockInfo)
        → db.sync_lock ≡ o
        → Ends
            (after_insert codec info (put_lock info o db).0)
            (Acquired actor reason now db)
            (put_lock info o db).1
    unfolding put_lock after_insert get_sync_lock
    Ends-after_insert db none h = record {
      after =
          (Ends-bind {Q = Acquired actor reason now db} (
            Ends-audit audit_flag_id_sync_lock action_acquire_sync_lock none
              (some (FlagValue.string_value reason)) actor _ (record db { sync_lock = some info })
              (λ after audited. Ends-pure info (h, refl, audited)))).after;
    }
    Ends-after_insert db (some l) h = record {
      after =
          (Ends-bind {Q = Acquired actor reason now db} (record {
            after =
                (Ends-query (λ d. d.sync_lock) _ db
                  (Ends-conflict db.sync_lock (Acquired actor reason now db) db)).after;
          })).after;
    }

    -- AcquireSyncLock takes a lock that is free, records it with one audit entry, and changes
    -- nothing else; where it fails it changes nothing at all.
    pub acquire_sync_lock-Acquired :
        (faults : List Bool) (db : Db)
        → Atomic
            (Acquired actor reason now db)
            db
            (acquire_sync_lock codec actor reason now faults db)
    unfolding acquire_sync_lock insert_lock
    acquire_sync_lock-Acquired faults db = elim (Bool-cases (is_empty actor || is_empty reason)) [
      | inl bad ↦ rw bad refl
      | inr good ↦ rw good (
          transaction-Atomic _ (Acquired actor reason now db) db
            (Ends-bind
              (Ends-returning (insert_lock info) _ db (Ends-after_insert db db.sync_lock refl)))
            faults)
    ]

  -- What a successful release has done: the lock was held, and is free.
  abbrev pub Released : Str → Db → Db → Type 0
  Released actor before after =
      (is_some before.sync_lock ≡ true)
      × Audited audit_flag_id_sync_lock action_release_sync_lock actor
          (record before { sync_lock = none }) after

  module _ (duration : ℕ → Str) (actor reason : Str) (now : ℕ) where
    Ends-release :
        (o : Option LockInfo) (db : Db)
        → db.sync_lock ≡ o
        → Ends (release_held codec duration actor reason now o) (λ _. Released actor db) db
    unfolding release_held
    Ends-release none db h = record { after = (Ends-raise Error.sync_not_locked).after }
    Ends-release (some l) db h = record {
      after =
          (Ends-bind {Q = λ _. Released actor db} (
            Ends-exec (λ d. record d { sync_lock = none }) _ db
              (Ends-audit audit_flag_id_sync_lock action_release_sync_lock _ _ actor
                (λ _. Released actor db) (record db { sync_lock = none })
                (λ after audited. (rw h refl, audited))))).after;
    }

    -- ReleaseSyncLock frees a lock that is held, records it with one audit entry, and changes
    -- nothing else; where it fails it changes nothing at all.
    pub release_sync_lock-Released :
        (faults : List Bool) (db : Db)
        → Atomic
            (λ _. Released actor db)
            db
            (release_sync_lock codec duration actor reason now faults db)
    unfolding release_sync_lock get_sync_lock
    release_sync_lock-Released faults db = elim (Bool-cases (is_empty actor || is_empty reason)) [
      | inl bad ↦ rw bad refl
      | inr good ↦ rw good (
          transaction-Atomic _ (λ _. Released actor db) db
            (Ends-bind (record {
              after =
                  (Ends-query (λ d. d.sync_lock) _ db (Ends-release db.sync_lock db refl)).after;
            }))
            faults)
    ]

-- ===== src/AdminLife.antt =====
-- The calls of the admin service and of sync on the shared tables (internal/admin/overrides.go,
-- store.go, internal/sync/lock.go), in any order and with any statements failing: each call is one step.
pub mod Balance
pub mod Launches
use pbflags.Common.{some, ℕ, Bool, List, Option, Str, ℤ}
use pbflags.Flag.{FlagValue, State}
use pbflags.AdminStore.{
  update_flag_state, kill_launch, unkill_launch, update_launch_ramp, update_launch_status,
}
use pbflags.Database.{Db, ValueCodec, transaction}
use pbflags.SyncLock.{acquire_sync_lock, release_sync_lock}
use pbflags.AdminOverrides.{
  set_condition_override, clear_condition_override, clear_all_condition_overrides,
}
use pbflags.SyncClear.{clear_overrides_for_flags_tx}

module _ (codec : ValueCodec) (duration : ℕ → Str) where
  pub data Step : Db → Db → Type 0 where
    acquire :
        (actor reason : Str) (now : ℕ) (faults : List Bool) (db : Db)
        → Step db (acquire_sync_lock codec actor reason now faults db).1
    release :
        (actor reason : Str) (now : ℕ) (faults : List Bool) (db : Db)
        → Step db (release_sync_lock codec duration actor reason now faults db).1
    set_override :
        (flag_id : Str) (idx : Option ℤ) (value : FlagValue) (source actor reason : Str) (now : ℕ)
        (faults : List Bool) (db : Db)
        → Step db
            (set_condition_override codec flag_id idx
              (some value)
              source
              actor
              reason
              now
              faults
              db).1
    clear_override :
        (flag_id : Str) (idx : Option ℤ) (actor reason : Str) (faults : List Bool) (db : Db)
        → Step db (clear_condition_override codec flag_id idx actor reason faults db).1
    clear_all :
        (flag_id actor reason : Str) (faults : List Bool) (db : Db)
        → Step db (clear_all_condition_overrides codec flag_id actor reason faults db).1
    sync_clear :
        (sync_reason : Str) (flag_ids : List Str) (faults : List Bool) (db : Db)
        → Step db
            (transaction (clear_overrides_for_flags_tx codec sync_reason flag_ids) faults db).1
    update_state :
        (flag_id : Str) (state : State) (actor : Str) (now : ℕ) (faults : List Bool) (db : Db)
        → Step db (update_flag_state codec flag_id state actor now faults db).1
    kill :
        (launch_id actor : Str) (now : ℕ) (faults : List Bool) (db : Db)
        → Step db (kill_launch codec launch_id actor now faults db).1
    unkill :
        (launch_id actor : Str) (faults : List Bool) (db : Db)
        → Step db (unkill_launch codec launch_id actor faults db).1
    ramp :
        (launch_id : Str) (pct : ℤ) (source actor : Str) (faults : List Bool) (db : Db)
        → Step db (update_launch_ramp codec launch_id pct source actor faults db).1
    move_status :
        (launch_id status actor : Str) (faults : List Bool) (db : Db)
        → Step db (update_launch_status codec launch_id status actor faults db).1

  pub data Reach (db : Db) : Db → Type 0 where
    here : Reach db db
    next : {t u : Db} → Reach db t → Step t u → Reach db u

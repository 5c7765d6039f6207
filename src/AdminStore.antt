-- ===== src/AdminStore.antt =====
-- internal/admin/store.go: the writes of the admin service on flags and launches, each a
-- transaction over the tables. The column updated_at is left out: nothing here decides by it.
pub mod Effects
pub mod Seen
pub mod Reads
use pbflags.Common.{
  ℕ, ◌≤◌, Bool, true, false, ◌||◌, not, Option, none, some, List, [], ◌∷◌, ◌++◌, Str, codes, ◌=s◌,
  contains, if◌then◌else◌, ℤ, pos, ltb_ℤ,
}
use pbflags.Common.Decimal.{decimal_ℤ}
use pbflags.Flag.{FlagValue, State, string_value}
use pbflags.Database.{
  Db, FlagRow, LaunchRow, Error, Result, ok, err, Tx, Session, ValueCodec, ◌>>=◌, ◌>>◌, pure, raise,
  query, exec, exec_checked, transaction, find_flag, find_launch, update_flag, update_launch,
}
use pbflags.SyncLock.{insert_audit_entry}

-- stateToString
unfoldable pub state_to_string : State → Str
state_to_string State.enabled = codes "ENABLED"
state_to_string State.default = codes "DEFAULT"
state_to_string State.killed = codes "KILLED"
state_to_string State.unspecified = codes "DEFAULT"

-- The state that a row's killed_at stands for.
unfoldable pub row_state : Option ℕ → State
row_state none = State.default
row_state (some t) = State.killed

-- What UpdateFlagState writes to killed_at.
unfoldable pub killed_at_of : State → ℕ → Option ℕ
killed_at_of State.killed now = some now
killed_at_of _ now = none

abbrev pub flag_killed_at : Option FlagRow → Option (Option ℕ)
flag_killed_at none = none
flag_killed_at (some row) = some row.killed_at

abbrev pub launch_killed_at : Option LaunchRow → Option (Option ℕ)
launch_killed_at none = none
launch_killed_at (some row) = some row.killed_at

abbrev pub set_flag_killed : Option ℕ → FlagRow → FlagRow
set_flag_killed t row = record row { killed_at = t }

abbrev pub set_launch_killed : Option ℕ → LaunchRow → LaunchRow
set_launch_killed t row = record row { killed_at = t }

abbrev pub set_ramp : ℤ → Str → LaunchRow → LaunchRow
set_ramp pct source row = record row { ramp_percentage = pct; ramp_source = source }

abbrev pub set_status : Str → LaunchRow → LaunchRow
set_status status row = record row { status = status }

-- The CHECK constraints of feature_flags.launches.
abbrev pub ramp_sources : List Str
ramp_sources = codes "unspecified" ∷ codes "config" ∷ codes "cli" ∷ codes "ui" ∷ []

abbrev pub launch_statuses : List Str
launch_statuses =
    codes "CREATED" ∷ codes "ACTIVE" ∷ codes "SOAKING" ∷ codes "COMPLETED" ∷ codes "ABANDONED" ∷ []

module _ (codec : ValueCodec) where
  unfoldable pub update_found : Str → State → Str → ℕ → Option (Option ℕ) → Tx Unit
  update_found flag_id state actor now none s = raise Error.flag_not_found s
  update_found flag_id state actor now (some old) s =
      (do
        exec (λ db. record db {
          flags = update_flag flag_id (set_flag_killed (killed_at_of state now)) db.flags;
        })
        insert_audit_entry codec flag_id (codes "UPDATE_STATE")
            (some (string_value (state_to_string (row_state old))))
            (some (string_value (state_to_string state))) actor)
        s

  -- UpdateFlagState
  unfoldable pub update_flag_state : Str → State → Str → ℕ → List Bool → Db → Result Unit × Db
  update_flag_state flag_id state actor now faults db =
      transaction
        (query (λ d. flag_killed_at (find_flag flag_id d.flags))
          >>= update_found flag_id state actor now)
        faults db

  -- The audit entry of a launch. Its values are texts; one that cannot be encoded is NULL.
  unfoldable pub audit_launch : Str → Str → Str → Str → Str → Tx Unit
  audit_launch launch_id action old new actor s =
      exec
        (λ db. record db {
          audit =
              record {
                flag_id = launch_id;
                action = action;
                old_value = codec.marshal (string_value old);
                new_value = codec.marshal (string_value new);
                actor = actor;
              }
              ∷ db.audit;
        })
        s

  unfoldable pub kill_found : Str → Str → ℕ → Option (Option ℕ) → Tx Unit
  kill_found launch_id actor now none s = raise Error.launch_not_found s
  kill_found launch_id actor now (some (some t)) s = raise Error.launch_already_killed s
  kill_found launch_id actor now (some none) s =
      (do
        exec (λ db. record db {
          launches = update_launch launch_id (set_launch_killed (some now)) db.launches;
        })
        audit_launch launch_id (codes "KILL_LAUNCH") (codes "alive") (codes "killed") actor)
        s

  -- KillLaunch
  unfoldable pub kill_launch : Str → Str → ℕ → List Bool → Db → Result Unit × Db
  kill_launch launch_id actor now faults db =
      transaction
        (query (λ d. launch_killed_at (find_launch launch_id d.launches))
          >>= kill_found launch_id actor now)
        faults db

  unfoldable pub unkill_found : Str → Str → Option (Option ℕ) → Tx Unit
  unkill_found launch_id actor none s = raise Error.launch_not_found s
  unkill_found launch_id actor (some none) s = raise Error.launch_not_killed s
  unkill_found launch_id actor (some (some t)) s =
      (do
        exec (λ db. record db {
          launches = update_launch launch_id (set_launch_killed none) db.launches;
        })
        audit_launch launch_id (codes "UNKILL_LAUNCH") (codes "killed") (codes "alive") actor)
        s

  -- UnkillLaunch
  unfoldable pub unkill_launch : Str → Str → List Bool → Db → Result Unit × Db
  unkill_launch launch_id actor faults db =
      transaction
        (query (λ d. launch_killed_at (find_launch launch_id d.launches))
          >>= unkill_found launch_id actor)
        faults db

  unfoldable pub ramp_found : Str → ℤ → Str → Str → Option LaunchRow → Tx Str
  ramp_found launch_id pct source actor none s = raise Error.launch_not_found s
  ramp_found launch_id pct source actor (some row) s =
      (do
        exec_checked (contains ramp_sources source) (λ db. record db {
          launches = update_launch launch_id (set_ramp pct source) db.launches;
        })
        audit_launch launch_id (codes "UPDATE_LAUNCH_RAMP")
            (decimal_ℤ row.ramp_percentage ++ codes "%") (decimal_ℤ pct ++ codes "%") actor
        pure row.ramp_source)
        s

  -- UpdateLaunchRamp answers with the source of the ramp that it replaced.
  unfoldable pub update_launch_ramp : Str → ℤ → Str → Str → List Bool → Db → Result Str × Db
  update_launch_ramp launch_id pct source actor faults db =
      if ltb_ℤ pct (pos 0) || ltb_ℤ (pos 100) pct
      then (err Error.ramp_out_of_range, db)
      else transaction
          (query (λ d. find_launch launch_id d.launches) >>= ramp_found launch_id pct source actor)
          faults db

  unfoldable pub status_found : Str → Str → Str → Option LaunchRow → Tx Unit
  status_found launch_id status actor none s = raise Error.launch_not_found s
  status_found launch_id status actor (some row) s =
      (do
        exec_checked (contains launch_statuses status)
            (λ db. record db { launches = update_launch launch_id (set_status status) db.launches })
        audit_launch launch_id (codes "UPDATE_LAUNCH_STATUS") row.status status actor)
        s

  -- UpdateLaunchStatus
  unfoldable pub update_launch_status : Str → Str → Str → List Bool → Db → Result Unit × Db
  update_launch_status launch_id status actor faults db =
      transaction
        (query (λ d. find_launch launch_id d.launches) >>= status_found launch_id status actor)
        faults db

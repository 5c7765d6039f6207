-- ===== src/AdminStore/Effects.antt =====
-- What the calls of internal/admin/store.go do to the tables.
use pbflags.Common.{
  Bool, true, false, ◌||◌, ◌≡◌, refl, ℕ, Option, none, some, List, ◌∷◌, ◌++◌, Str, codes, contains,
  Bool-cases, inl, inr, ℤ, pos, ltb_ℤ,
}
use pbflags.Common.Decimal.{decimal_ℤ}
use pbflags.Flag.{State, string_value}
use pbflags.Database.{
  Db, LaunchRow, Error, ValueCodec, find_flag, find_launch, update_flag, update_launch,
  exec_checked,
}
use pbflags.Database.Ends.{
  Ends, Atomic, transaction-Atomic, Ends-bind, Ends-query, Ends-exec, Ends-pure, Ends-raise,
}
use pbflags.SyncLock.Held.{Audited, Ends-audit}
use pbflags.AdminStore.{
  update_flag_state, update_found, kill_launch, kill_found, unkill_launch, unkill_found,
  update_launch_ramp, ramp_found, update_launch_status, status_found, audit_launch, killed_at_of,
  flag_killed_at, launch_killed_at, set_flag_killed, set_launch_killed, set_ramp, set_status,
  ramp_sources, launch_statuses,
}

pub Ends-checked :
    (allowed : Bool) (u : Db → Db) (Q : Unit → Db → Type 0) (db : Db)
    → (allowed ≡ true → Q tt (u db))
    → Ends (exec_checked allowed u) Q db
unfolding exec_checked
Ends-checked true u Q db h = record { after = (Ends-exec u Q db (h refl)).after }
Ends-checked false u Q db h = record { after = (Ends-raise Error.db_error).after }

module _ (codec : ValueCodec) where
  -- One more entry, of these texts.
  abbrev pub Recorded : Str → Str → Str → Str → Str → Db → Db → Type 0
  Recorded launch_id action old new actor before after = after ≡ record before {
    audit =
        record {
          flag_id = launch_id;
          action = action;
          old_value = codec.marshal (string_value old);
          new_value = codec.marshal (string_value new);
          actor = actor;
        }
        ∷ before.audit;
  }

  Ends-launch_audit :
      (launch_id action old new actor : Str) (Q : Unit → Db → Type 0) (db : Db)
      → ((after : Db) → Recorded launch_id action old new actor db after → Q tt after)
      → Ends (audit_launch codec launch_id action old new actor) Q db
  unfolding audit_launch
  Ends-launch_audit launch_id action old new actor Q db h = record {
    after = (Ends-exec _ Q db (h _ refl)).after;
  }

  module _ (flag_id : Str) (state : State) (actor : Str) (now : ℕ) where
    -- The flag was there; its rows are killed or not, as the state says.
    abbrev pub Updated : Db → Db → Type 0
    Updated before after =
        ((old : Option ℕ) × (flag_killed_at (find_flag flag_id before.flags) ≡ some old))
        × Audited flag_id (codes "UPDATE_STATE") actor
            (record before {
              flags = update_flag flag_id (set_flag_killed (killed_at_of state now)) before.flags;
            })
            after

    Ends-update :
        (o : Option (Option ℕ)) (db : Db)
        → flag_killed_at (find_flag flag_id db.flags) ≡ o
        → Ends (update_found codec flag_id state actor now o) (λ _. Updated db) db
    unfolding update_found
    Ends-update none db h = record { after = (Ends-raise Error.flag_not_found).after }
    Ends-update (some old) db h = record {
      after =
          (Ends-bind {Q = λ _. Updated db} (
            Ends-exec _ _ db (
              Ends-audit codec flag_id (codes "UPDATE_STATE") _ _ actor (λ _. Updated db) _
                (λ after done. ((old, h), done))))).after;
    }

    pub update_flag_state-Updated :
        (faults : List Bool) (db : Db)
        → Atomic (λ _. Updated db) db (update_flag_state codec flag_id state actor now faults db)
    unfolding update_flag_state
    update_flag_state-Updated faults db =
        transaction-Atomic _ (λ _. Updated db) db
          (Ends-bind (Ends-query _ _ db (Ends-update _ db refl))) faults

  module _ (launch_id actor : Str) (now : ℕ) where
    abbrev pub Killed : Db → Db → Type 0
    Killed before after =
        (launch_killed_at (find_launch launch_id before.launches) ≡ some none)
        × Recorded launch_id (codes "KILL_LAUNCH") (codes "alive") (codes "killed") actor
            (record before {
              launches = update_launch launch_id (set_launch_killed (some now)) before.launches;
            })
            after

    Ends-kill :
        (o : Option (Option ℕ)) (db : Db)
        → launch_killed_at (find_launch launch_id db.launches) ≡ o
        → Ends (kill_found codec launch_id actor now o) (λ _. Killed db) db
    unfolding kill_found
    Ends-kill none db h = record { after = (Ends-raise Error.launch_not_found).after }
    Ends-kill (some (some t)) db h = record {
      after = (Ends-raise Error.launch_already_killed).after;
    }
    Ends-kill (some none) db h = record {
      after =
          (Ends-bind {Q = λ _. Killed db} (
            Ends-exec _ _ db (
              Ends-launch_audit launch_id (codes "KILL_LAUNCH") _ _ actor (λ _. Killed db) _
                (λ after done. (h, done))))).after;
    }

    pub kill_launch-Killed :
        (faults : List Bool) (db : Db)
        → Atomic (λ _. Killed db) db (kill_launch codec launch_id actor now faults db)
    unfolding kill_launch
    kill_launch-Killed faults db =
        transaction-Atomic _ (λ _. Killed db) db
          (Ends-bind (Ends-query _ _ db (Ends-kill _ db refl))) faults

  module _ (launch_id actor : Str) where
    abbrev pub Unkilled : Db → Db → Type 0
    Unkilled before after =
        ((t : ℕ) × (launch_killed_at (find_launch launch_id before.launches) ≡ some (some t)))
        × Recorded launch_id (codes "UNKILL_LAUNCH") (codes "killed") (codes "alive") actor
            (record before {
              launches = update_launch launch_id (set_launch_killed none) before.launches;
            })
            after

    Ends-unkill :
        (o : Option (Option ℕ)) (db : Db)
        → launch_killed_at (find_launch launch_id db.launches) ≡ o
        → Ends (unkill_found codec launch_id actor o) (λ _. Unkilled db) db
    unfolding unkill_found
    Ends-unkill none db h = record { after = (Ends-raise Error.launch_not_found).after }
    Ends-unkill (some none) db h = record { after = (Ends-raise Error.launch_not_killed).after }
    Ends-unkill (some (some t)) db h = record {
      after =
          (Ends-bind {Q = λ _. Unkilled db} (
            Ends-exec _ _ db (
              Ends-launch_audit launch_id (codes "UNKILL_LAUNCH") _ _ actor (λ _. Unkilled db) _
                (λ after done. ((t, h), done))))).after;
    }

    pub unkill_launch-Unkilled :
        (faults : List Bool) (db : Db)
        → Atomic (λ _. Unkilled db) db (unkill_launch codec launch_id actor faults db)
    unfolding unkill_launch
    unkill_launch-Unkilled faults db =
        transaction-Atomic _ (λ _. Unkilled db) db
          (Ends-bind (Ends-query _ _ db (Ends-unkill _ db refl))) faults

  module _ (launch_id : Str) (pct : ℤ) (source actor : Str) where
    -- The launch was there, and has the ramp and its source, both in their ranges.
    abbrev pub Ramped : Db → Str → Db → Type 0
    Ramped before prev after =
        (row : LaunchRow) × (find_launch launch_id before.launches ≡ some row)
        × (prev ≡ row.ramp_source)
        × (contains ramp_sources source ≡ true)
        × ((ltb_ℤ pct (pos 0) || ltb_ℤ (pos 100) pct) ≡ false)
        × Recorded launch_id (codes "UPDATE_LAUNCH_RAMP")
            (decimal_ℤ row.ramp_percentage ++ codes "%") (decimal_ℤ pct ++ codes "%") actor
            (record before {
              launches = update_launch launch_id (set_ramp pct source) before.launches;
            })
            after

    Ends-ramp :
        (o : Option LaunchRow) (db : Db)
        → (ltb_ℤ pct (pos 0) || ltb_ℤ (pos 100) pct) ≡ false
        → find_launch launch_id db.launches ≡ o
        → Ends (ramp_found codec launch_id pct source actor o) (Ramped db) db
    unfolding ramp_found
    Ends-ramp none db within h = record { after = (Ends-raise Error.launch_not_found).after }
    Ends-ramp (some row) db within h = record {
      after =
          (Ends-bind {Q = Ramped db} (
            Ends-checked (contains ramp_sources source) _ _ db (λ allowed. Ends-bind (
              Ends-launch_audit launch_id (codes "UPDATE_LAUNCH_RAMP") _ _ actor _ _ (λ after done.
                Ends-pure row.ramp_source (row, h, refl, allowed, within, done)))))).after;
    }

    pub update_launch_ramp-Ramped :
        (faults : List Bool) (db : Db)
        → Atomic (Ramped db) db (update_launch_ramp codec launch_id pct source actor faults db)
    unfolding update_launch_ramp
    update_launch_ramp-Ramped faults db =
        elim (Bool-cases (ltb_ℤ pct (pos 0) || ltb_ℤ (pos 100) pct)) [
          | inl bad ↦ rw bad refl
          | inr good ↦ rw good (
              transaction-Atomic _ (Ramped db) db
                (Ends-bind (Ends-query _ _ db (Ends-ramp _ db good refl))) faults)
        ]

  module _ (launch_id status actor : Str) where
    abbrev pub Moved : Db → Db → Type 0
    Moved before after =
        (row : LaunchRow) × (find_launch launch_id before.launches ≡ some row)
        × (contains launch_statuses status ≡ true)
        × Recorded launch_id (codes "UPDATE_LAUNCH_STATUS") row.status status actor
            (record before {
              launches = update_launch launch_id (set_status status) before.launches;
            })
            after

    Ends-status :
        (o : Option LaunchRow) (db : Db)
        → find_launch launch_id db.launches ≡ o
        → Ends (status_found codec launch_id status actor o) (λ _. Moved db) db
    unfolding status_found
    Ends-status none db h = record { after = (Ends-raise Error.launch_not_found).after }
    Ends-status (some row) db h = record {
      after =
          (Ends-bind {Q = λ _. Moved db} (
            Ends-checked (contains launch_statuses status) _ _ db (λ allowed.
              Ends-launch_audit launch_id (codes "UPDATE_LAUNCH_STATUS") _ _ actor (λ _. Moved db) _
                (λ after done. (row, h, allowed, done))))).after;
    }

    pub update_launch_status-Moved :
        (faults : List Bool) (db : Db)
        → Atomic (λ _. Moved db) db (update_launch_status codec launch_id status actor faults db)
    unfolding update_launch_status
    update_launch_status-Moved faults db =
        transaction-Atomic _ (λ _. Moved db) db
          (Ends-bind (Ends-query _ _ db (Ends-status _ db refl))) faults

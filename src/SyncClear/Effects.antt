-- ===== src/SyncClear/Effects.antt =====
-- What the clearing of overrides in a sync (internal/sync/lock.go) does to the tables.
use pbflags.Common.{◌≡◌, refl, ℕ, some, List, [], ◌∷◌, Str, length, contains}
use pbflags.Flag.{FlagValue}
use pbflags.Database.{Db, OverrideRow, AuditRow, Error, ValueCodec, delete, picked, pure}
use pbflags.Database.Ends.{
  Ends, Ends-bind, Ends-query, Ends-exec, Ends-lift, Ends-pure, Ends-weaken,
}
use pbflags.Database.Rows.{picked-none, delete-unpicked}
use pbflags.SyncClear.{
  clear_note, auto_clear_entry, of_flags, write_auto_clear_audit, audit_cleared, clear_rows,
  clear_overrides_for_flags_tx,
}

module _ (codec : ValueCodec) (sync_reason : Str) where
  -- The log has grown by one entry for each row, in their order: it keeps the stored bytes of the
  -- row, and the note about it.
  abbrev pub Logged : List OverrideRow → List AuditRow → List AuditRow → Type 0
  Logged [] before after = after ≡ before
  Logged (row ∷ rows) before after =
      (bytes : Str) × (codec.marshal (FlagValue.string_value (clear_note sync_reason row))
        ≡ some bytes)
      × Logged rows (auto_clear_entry row bytes ∷ before) after

  -- The tables after the audit of the rows: only the log differs.
  abbrev LoggedOnly : List OverrideRow → Db → Db → Type 0
  LoggedOnly rows before after =
      (log : List AuditRow) × Logged rows before.audit log × (after ≡ record before { audit = log })

  Ends-audit_cleared :
      (rows : List OverrideRow) (db : Db)
      → Ends (audit_cleared codec sync_reason rows) (λ _. LoggedOnly rows db) db
  unfolding audit_cleared write_auto_clear_audit
  Ends-audit_cleared [] db = record { after = (Ends-pure tt (db.audit, refl, refl)).after }
  Ends-audit_cleared (row ∷ rows) db = record {
    after =
        (Ends-bind {Q = λ _. LoggedOnly (row ∷ rows) db} (
          Ends-bind (
            Ends-lift Error.marshal_error _ (λ bytes e. Ends-exec _ _ db (
              Ends-weaken (λ _ after (log, logged, same). (log, (bytes, e, logged), same))
                (Ends-audit_cleared rows _)))))).after;
  }

  -- The flags' rows are gone and logged, their number is the answer, and nothing else has changed.
  abbrev pub AutoCleared : List Str → Db → ℕ → Db → Type 0
  AutoCleared flag_ids before n after =
      (n ≡ length (picked (of_flags flag_ids) before.overrides))
      × LoggedOnly (picked (of_flags flag_ids) before.overrides)
          (record before { overrides = delete (of_flags flag_ids) before.overrides }) after

  nothing-AutoCleared :
      (flag_ids : List Str) (db : Db)
      → picked (of_flags flag_ids) db.overrides ≡ []
      → Ends (pure 0) (AutoCleared flag_ids db) db
  nothing-AutoCleared flag_ids db h =
      Ends-pure 0
        (rw (h, delete-unpicked (of_flags flag_ids) db.overrides h) (refl, (db.audit, refl, refl)))

  Ends-clear_rows :
      (flag_ids : List Str) (rows : List OverrideRow) (db : Db)
      → picked (of_flags flag_ids) db.overrides ≡ rows
      → Ends (clear_rows codec sync_reason flag_ids rows) (AutoCleared flag_ids db) db
  unfolding clear_rows
  Ends-clear_rows flag_ids [] db h = record { after = (nothing-AutoCleared flag_ids db h).after }
  Ends-clear_rows flag_ids (row ∷ rows) db h = record {
    after =
        (Ends-bind {Q = AutoCleared flag_ids db} (
          Ends-exec (λ d. record d { overrides = delete (of_flags flag_ids) d.overrides }) _ db
            (Ends-bind (
              Ends-weaken (λ _ after logged. Ends-pure (length (row ∷ rows)) (rw h (refl, logged)))
                (Ends-audit_cleared (row ∷ rows)
                  (record db { overrides = delete (of_flags flag_ids) db.overrides })))))).after;
  }

  -- A sync's clear takes out every override row of its flags and logs each with the bytes that it
  -- stored, or fails; it answers with their number and changes nothing else.
  pub clear_overrides_for_flags_tx-AutoCleared :
      (flag_ids : List Str) (db : Db)
      → Ends (clear_overrides_for_flags_tx codec sync_reason flag_ids) (AutoCleared flag_ids db) db
  unfolding clear_overrides_for_flags_tx
  clear_overrides_for_flags_tx-AutoCleared [] db = record {
    after =
        (nothing-AutoCleared [] db
          (picked-none (of_flags []) db.overrides (λ row. unfold contains in refl))).after;
  }
  clear_overrides_for_flags_tx-AutoCleared (id ∷ ids) db = record {
    after =
        (Ends-bind {Q = AutoCleared (id ∷ ids) db} (
          Ends-query _ _ db (
            Ends-clear_rows (id ∷ ids) (picked (of_flags (id ∷ ids)) db.overrides) db refl))).after;
  }

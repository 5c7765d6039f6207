-- ===== src/SyncClear.antt =====
-- internal/sync/lock.go: the clearing of live overrides inside the transaction of a sync.
pub mod Effects
use pbflags.Common.{
  Bool, ℕ, zero, Option, none, some, List, [], ◌∷◌, ◌++◌, Str, codes, contains, length, ℤ,
}
use pbflags.Common.Decimal.{decimal_ℤ}
use pbflags.Flag.{FlagValue}
use pbflags.Database.{
  Db, OverrideRow, AuditRow, Error, Tx, ValueCodec, ◌>>=◌, ◌>>◌, pure, query, exec, lift, delete,
  picked,
}

-- reasonSuffix
unfoldable pub reason_suffix : Str → Str
reason_suffix [] = []
reason_suffix (c ∷ cs) = codes ": " ++ c ∷ cs

unfoldable pub cond_desc : Option ℤ → Str
cond_desc none = codes "default"
cond_desc (some i) = codes "condition[" ++ decimal_ℤ i ++ codes "]"

-- The note of writeAutoClearAudit.
unfoldable pub clear_note : Str → OverrideRow → Str
clear_note sync_reason row =
    codes "auto-cleared "
    ++ cond_desc row.condition_index
    ++ codes " by sync"
    ++ reason_suffix sync_reason
    ++ codes " (was "
    ++ row.source
    ++ codes "/"
    ++ row.actor
    ++ codes ")"

abbrev pub auto_clear_entry : OverrideRow → Str → AuditRow
auto_clear_entry row bytes = record {
  flag_id = row.flag_id;
  action = codes "CONDITION_OVERRIDE_AUTO_CLEARED";
  old_value = some row.override_value;
  new_value = some bytes;
  actor = codes "system:sync";
}

-- The rows that the flags' sync clears.
abbrev pub of_flags : List Str → OverrideRow → Bool
of_flags flag_ids row = contains flag_ids row.flag_id

module _ (codec : ValueCodec) (sync_reason : Str) where
  -- writeAutoClearAudit
  unfoldable pub write_auto_clear_audit : OverrideRow → Tx Unit
  write_auto_clear_audit row = do
    bytes ←
        lift Error.marshal_error
          (codec.marshal (FlagValue.string_value (clear_note sync_reason row)))
    exec (λ db. record db { audit = auto_clear_entry row bytes ∷ db.audit })

  -- The loop over the cleared rows.
  unfoldable pub audit_cleared : List OverrideRow → Tx Unit
  audit_cleared [] s = pure tt s
  audit_cleared (row ∷ rows) s = (do write_auto_clear_audit row; audit_cleared rows) s

  unfoldable pub clear_rows : List Str → List OverrideRow → Tx ℕ
  clear_rows flag_ids [] s = pure zero s
  clear_rows flag_ids (row ∷ rows) s =
      (do
        exec (λ db. record db { overrides = delete (of_flags flag_ids) db.overrides })
        audit_cleared (row ∷ rows)
        pure (length (row ∷ rows)))
        s

  -- clearOverridesForFlagsTx
  unfoldable pub clear_overrides_for_flags_tx : List Str → Tx ℕ
  clear_overrides_for_flags_tx [] s = pure zero s
  clear_overrides_for_flags_tx (id ∷ ids) s =
      (query (λ db. picked (of_flags (id ∷ ids)) db.overrides) >>= clear_rows (id ∷ ids)) s

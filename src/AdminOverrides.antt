-- ===== src/AdminOverrides.antt =====
-- internal/admin/overrides.go: live overrides of condition values, and the clearing of overrides
-- that a sync does (internal/sync/lock.go). Each call is a transaction over the tables; proto.Marshal
-- and Unmarshal are the codec's.

pub mod Effects
use pbflags.Common.{
  reason_mark, zero, suc, Bool, true, false, ◌||◌, not, ℕ, Option, none, some, List, [], ◌∷◌, ◌++◌,
  Str, codes, is_empty, if◌then◌else◌, ◌=s◌, contains, length, ℤ, is_some, map,
}
use pbflags.Common.Decimal.{decimal, decimal_ℤ}
use pbflags.Flag.{FlagValue, string_value}
use pbflags.Database.{
  Db, FlagRow, OverrideRow, Error, Result, ok, err, Tx, Session, ValueCodec, ◌>>=◌, ◌>>◌, pure,
  raise, query, exec, returning, lift, transaction, find_override, upsert, delete, picked,
  at_position,
}
use pbflags.SyncLock.{insert_audit_entry, marshal_optional}

-- validSource
unfoldable pub valid_source : Str → Bool
valid_source s = s =s codes "cli" || (s =s codes "ui" || s =s codes "automation")

-- formatCondIndex
unfoldable pub format_cond_index : Option ℤ → Str
format_cond_index none = codes "default"
format_cond_index (some i) = decimal_ℤ i

abbrev pub has_flag : Str → List FlagRow → Bool
has_flag flag_id [] = false
has_flag flag_id (row ∷ rows) = row.flag_id =s flag_id || has_flag flag_id rows

-- unmarshalFlagValue: no bytes are no value.
unfoldable pub unmarshal_flag_value : ValueCodec → Str → Tx (Option FlagValue)
unmarshal_flag_value codec [] s = pure none s
unmarshal_flag_value codec (b ∷ bs) s =
    (do v ← lift Error.marshal_error (codec.unmarshal (b ∷ bs)); pure (some v)) s

module _ (codec : ValueCodec) where
  unfoldable pub read_row : Option OverrideRow → Tx (Option FlagValue)
  read_row none s = pure none s
  read_row (some row) s = unmarshal_flag_value codec row.override_value s

  -- readOverrideValueTx
  unfoldable pub read_override_value : Str → Option ℤ → Tx (Option FlagValue)
  read_override_value flag_id idx s =
      (query (λ db. find_override flag_id idx db.overrides) >>= read_row) s

  -- The statements of SetConditionOverride after its guards.
  unfoldable pub set_override : OverrideRow → FlagValue → Bool → Tx (Option FlagValue)
  set_override row value false s = raise Error.flag_not_found s
  set_override row value true s =
      (do
        prev ← read_override_value row.flag_id row.condition_index
        exec (λ db. record db { overrides = upsert row db.overrides })
        insert_audit_entry codec row.flag_id (codes "SET_CONDITION_OVERRIDE") prev (some value)
            row.actor
        pure prev)
        s

  unfoldable pub set_marshalled :
      OverrideRow → FlagValue → Option Str → List Bool → Db → Result (Option FlagValue) × Db
  set_marshalled row value none faults db = (err Error.marshal_error, db)
  set_marshalled row value (some bytes) faults db =
      transaction
        (query (λ d. has_flag row.flag_id d.flags)
          >>= set_override (record row { override_value = bytes }) value)
        faults db

  -- SetConditionOverride
  unfoldable pub set_condition_override :
      Str
      → Option ℤ
      → Option FlagValue
      → Str
      → Str
      → Str
      → ℕ
      → List Bool
      → Db
      → Result (Option FlagValue) × Db
  set_condition_override flag_id idx none source actor reason now faults db =
      (err Error.invalid_argument, db)
  set_condition_override flag_id idx (some value) source actor reason now faults db =
      if is_empty flag_id || is_empty reason || is_empty actor || not (valid_source source)
      then (err Error.invalid_argument, db)
      else set_marshalled
          (record {
            flag_id = flag_id;
            condition_index = idx;
            override_value = [];
            source = source;
            actor = actor;
            reason = reason;
            created_at = now;
          })
          value (codec.marshal value) faults db

  unfoldable pub clear_found : Str → Option ℤ → Str → Str → Option FlagValue → Tx Unit
  clear_found flag_id idx actor reason none s = raise Error.override_not_found s
  clear_found flag_id idx actor reason (some prev) s =
      (do
        exec (λ db. record db { overrides = delete (at_position flag_id idx) db.overrides })
        insert_audit_entry codec flag_id (codes "CLEAR_CONDITION_OVERRIDE") (some prev)
            (some (
              string_value
                (codes "cleared cond " ++ format_cond_index idx ++ reason_mark ++ reason)))
            actor)
        s

  -- ClearConditionOverride
  unfoldable pub clear_condition_override :
      Str → Option ℤ → Str → Str → List Bool → Db → Result Unit × Db
  clear_condition_override flag_id idx actor reason faults db =
      if is_empty flag_id || is_empty actor || is_empty reason
      then (err Error.invalid_argument, db)
      else transaction (read_override_value flag_id idx >>= clear_found flag_id idx actor reason)
          faults db

  abbrev pub of_flag : Str → OverrideRow → Bool
  of_flag flag_id row = row.flag_id =s flag_id

  unfoldable pub clear_all_audit : Str → Str → Str → ℕ → Tx ℕ
  clear_all_audit flag_id actor reason zero s = pure zero s
  clear_all_audit flag_id actor reason (suc n) s =
      (do
        insert_audit_entry codec flag_id (codes "CLEAR_ALL_CONDITION_OVERRIDES") none
            (some (
              string_value
                (codes "cleared " ++ decimal (suc n) ++ codes " override(s) — reason: " ++ reason)))
            actor
        pure (suc n))
        s

  -- ClearAllConditionOverrides
  unfoldable pub clear_all_condition_overrides : Str → Str → Str → List Bool → Db → Result ℕ × Db
  clear_all_condition_overrides flag_id actor reason faults db =
      if is_empty flag_id || is_empty actor || is_empty reason
      then (err Error.invalid_argument, db)
      else transaction
          (returning (λ d. (
            length (picked (of_flag flag_id) d.overrides),
            record d { overrides = delete (of_flag flag_id) d.overrides },
          ))
            >>= clear_all_audit flag_id actor reason)
          faults db

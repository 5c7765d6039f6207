-- ===== src/AdminOverrides/Effects.antt =====
-- What the calls of internal/admin/overrides.go do to the tables.
use pbflags.Common.{
  ◌⊎◌, subst, Bool, true, false, ◌||◌, not, ◌≡◌, refl, ℕ, suc, zero, Option, none, some, List, [],
  ◌∷◌, Str, codes, is_empty, Bool-cases, inl, inr, ℤ, length,
}
use pbflags.Flag.{FlagValue}
use pbflags.Database.{
  Db, OverrideRow, Error, ValueCodec, find_override, upsert, delete, picked, at_position,
}
use pbflags.Database.Ends.{
  Ends-weaken, Ends, Atomic, transaction-Atomic, Ends-bind, Ends-query, Ends-exec, Ends-lift,
  Ends-pure, Ends-raise, Ends-returning,
}
use pbflags.SyncLock.Held.{Audited, Ends-audit}
use pbflags.AdminOverrides.{
  is_some, has_flag, valid_source, read_row, read_override_value, unmarshal_flag_value,
  set_override, set_marshalled, set_condition_override, clear_found, clear_condition_override,
  clear_all_audit, clear_all_condition_overrides, of_flag,
}

module _ (codec : ValueCodec) where
  -- The value that a row stores: none where there are no bytes.
  abbrev pub stored_bytes : Str → Option FlagValue
  stored_bytes [] = none
  stored_bytes (b ∷ bs) = codec.unmarshal (b ∷ bs)

  abbrev pub stored_value : Option OverrideRow → Option FlagValue
  stored_value none = none
  stored_value (some row) = stored_bytes row.override_value

  Ends-unmarshal :
      (bytes : Str) (Q : Option FlagValue → Db → Type 0) (db : Db)
      → Q (stored_bytes bytes) db
      → Ends (unmarshal_flag_value codec bytes) Q db
  unfolding unmarshal_flag_value
  Ends-unmarshal [] Q db h = record { after = (Ends-pure none h).after }
  Ends-unmarshal (b ∷ bs) Q db h = record {
    after =
        (Ends-bind {Q = Q} (
          Ends-lift Error.marshal_error (codec.unmarshal (b ∷ bs))
            (λ v e. Ends-pure (some v) (subst (λ o. Q o db) e h)))).after;
  }

  Ends-row :
      (o : Option OverrideRow) (Q : Option FlagValue → Db → Type 0) (db : Db)
      → Q (stored_value o) db
      → Ends (read_row codec o) Q db
  unfolding read_row
  Ends-row none Q db h = record { after = (Ends-pure none h).after }
  Ends-row (some row) Q db h = record { after = (Ends-unmarshal row.override_value Q db h).after }

  Ends-read :
      (f : Str) (i : Option ℤ) (Q : Option FlagValue → Db → Type 0) (db : Db)
      → Q (stored_value (find_override f i db.overrides)) db
      → Ends (read_override_value codec f i) Q db
  unfolding read_override_value
  Ends-read f i Q db h = record {
    after =
        (Ends-bind {Q = Q} (
          Ends-query (λ d. find_override f i d.overrides) _ db
            (Ends-row (find_override f i db.overrides) Q db h))).after;
  }

  -- A set on a known flag: the value that was there is returned, and the row is in its place.
  abbrev pub SetTo : OverrideRow → Db → Option FlagValue → Db → Type 0
  SetTo row before prev after =
      (has_flag row.flag_id before.flags ≡ true)
      × (prev ≡ stored_value (find_override row.flag_id row.condition_index before.overrides))
      × Audited row.flag_id (codes "SET_CONDITION_OVERRIDE") row.actor
          (record before { overrides = upsert row before.overrides }) after

  Ends-set :
      (row : OverrideRow) (value : FlagValue) (known : Bool) (db : Db)
      → has_flag row.flag_id db.flags ≡ known
      → Ends (set_override codec row value known) (SetTo row db) db
  unfolding set_override
  Ends-set row value false db h = record { after = (Ends-raise Error.flag_not_found).after }
  Ends-set row value true db h = record {
    after =
        (Ends-bind {Q = SetTo row db} (
          Ends-read row.flag_id row.condition_index _ db (
            Ends-bind (
              Ends-exec (λ d. record d { overrides = upsert row d.overrides }) _ db
                (Ends-bind (
                  Ends-audit codec row.flag_id (codes "SET_CONDITION_OVERRIDE") _ _ row.actor _ _
                    (λ after audited. Ends-pure _ (h, refl, audited)))))))).after;
  }

  module _ (flag_id : Str) (idx : Option ℤ) (source actor reason : Str) (now : ℕ) where
    -- The row that a set writes.
    abbrev pub row_of : Str → OverrideRow
    row_of bytes = record {
      flag_id = flag_id;
      condition_index = idx;
      override_value = bytes;
      source = source;
      actor = actor;
      reason = reason;
      created_at = now;
    }

    abbrev pub Set : FlagValue → Db → Option FlagValue → Db → Type 0
    Set value before prev after =
        (bytes : Str) × (codec.marshal value ≡ some bytes) × SetTo (row_of bytes) before prev after

    marshalled-Set :
        (value : FlagValue) (o : Option Str) (faults : List Bool) (db : Db)
        → codec.marshal value ≡ o
        → Atomic (Set value db) db (set_marshalled codec (row_of []) value o faults db)
    unfolding set_marshalled
    marshalled-Set value none faults db h = refl
    marshalled-Set value (some bytes) faults db h =
        transaction-Atomic _ (Set value db) db
          (Ends-bind (
            Ends-query (λ d. has_flag flag_id d.flags) _ db
              (Ends-weaken (λ prev after done. (bytes, h, done))
                (Ends-set (row_of bytes) value (has_flag flag_id db.flags) db refl))))
          faults

    -- SetConditionOverride writes its row at the position, where it replaces a row that is there,
    -- on a flag that exists; it answers with the value that was stored, adds one audit entry, and
    -- changes nothing else. Where it fails it changes nothing at all.
    pub set_condition_override-Set :
        (value : FlagValue) (faults : List Bool) (db : Db)
        → Atomic (Set value db) db (
            set_condition_override codec flag_id idx (some value) source actor reason now faults db)
    unfolding set_condition_override
    set_condition_override-Set value faults db =
        elim (Bool-cases
          (is_empty flag_id || is_empty reason || is_empty actor || not (valid_source source))) [
            | inl bad ↦ rw bad refl
            | inr good ↦ rw good (marshalled-Set value (codec.marshal value) faults db refl)
          ]

    -- A clear of an override whose stored value is there: the position is empty afterwards.
    abbrev pub Cleared : Db → Db → Type 0
    Cleared before after =
        (is_some (stored_value (find_override flag_id idx before.overrides)) ≡ true)
        × Audited flag_id (codes "CLEAR_CONDITION_OVERRIDE") actor
            (record before { overrides = delete (at_position flag_id idx) before.overrides }) after

    Ends-clear :
        (o : Option FlagValue) (db : Db)
        → stored_value (find_override flag_id idx db.overrides) ≡ o
        → Ends (clear_found codec flag_id idx actor reason o) (λ _. Cleared db) db
    unfolding clear_found
    Ends-clear none db h = record { after = (Ends-raise Error.override_not_found).after }
    Ends-clear (some prev) db h = record {
      after =
          (Ends-bind {Q = λ _. Cleared db} (
            Ends-exec (λ d. record d { overrides = delete (at_position flag_id idx) d.overrides }) _
              db
              (Ends-audit codec flag_id (codes "CLEAR_CONDITION_OVERRIDE") _ _ actor
                (λ _. Cleared db) _ (λ after audited. (rw h refl, audited))))).after;
    }

    -- ClearConditionOverride takes out the row at the position, where it stores a value, adds one
    -- audit entry and changes nothing else. Where it fails it changes nothing at all.
    pub clear_condition_override-Cleared :
        (faults : List Bool) (db : Db)
        → Atomic
            (λ _. Cleared db)
            db
            (clear_condition_override codec flag_id idx actor reason faults db)
    unfolding clear_condition_override
    clear_condition_override-Cleared faults db =
        elim (Bool-cases (is_empty flag_id || is_empty actor || is_empty reason)) [
          | inl bad ↦ rw bad refl
          | inr good ↦ rw good (
              transaction-Atomic _ (λ _. Cleared db) db
                (Ends-bind (
                  Ends-read flag_id idx _ db
                    (Ends-clear (stored_value (find_override flag_id idx db.overrides)) db refl)))
                faults)
        ]

  module _ (flag_id actor reason : Str) where
    -- The rows of the flag are gone; their number is the answer, and one audit entry tells of them
    -- if there were any.
    abbrev pub AllCleared : Db → ℕ → Db → Type 0
    AllCleared before n after =
        (n ≡ length (picked (of_flag codec flag_id) before.overrides))
        × ((n ≡ 0)
              × (after
                  ≡ record before { overrides = delete (of_flag codec flag_id) before.overrides })
            ⊎ Audited flag_id (codes "CLEAR_ALL_CONDITION_OVERRIDES") actor
                (record before { overrides = delete (of_flag codec flag_id) before.overrides })
                after)

    Ends-clear_all :
        (n : ℕ) (before : Db)
        → n ≡ length (picked (of_flag codec flag_id) before.overrides)
        → Ends
            (clear_all_audit codec flag_id actor reason n)
            (AllCleared before)
            (record before { overrides = delete (of_flag codec flag_id) before.overrides })
    unfolding clear_all_audit
    Ends-clear_all zero before h = record { after = (Ends-pure 0 (h, inl (refl, refl))).after }
    Ends-clear_all (suc n) before h = record {
      after =
          (Ends-bind {Q = AllCleared before} (
            Ends-audit codec flag_id (codes "CLEAR_ALL_CONDITION_OVERRIDES") none _ actor _ _
              (λ after audited. Ends-pure (suc n) (h, inr audited)))).after;
    }

    -- ClearAllConditionOverrides takes out all rows of the flag and answers with their number, with
    -- one audit entry if that is not zero, and changes nothing else. Where it fails it changes
    -- nothing at all.
    pub clear_all_condition_overrides-AllCleared :
        (faults : List Bool) (db : Db)
        → Atomic
            (AllCleared db)
            db
            (clear_all_condition_overrides codec flag_id actor reason faults db)
    unfolding clear_all_condition_overrides
    clear_all_condition_overrides-AllCleared faults db =
        elim (Bool-cases (is_empty flag_id || is_empty actor || is_empty reason)) [
          | inl bad ↦ rw bad refl
          | inr good ↦ rw good (
              transaction-Atomic _ (AllCleared db) db
                (Ends-bind (
                  Ends-returning _ _ db (
                    Ends-clear_all (length (picked (of_flag codec flag_id) db.overrides)) db refl)))
                faults)
        ]

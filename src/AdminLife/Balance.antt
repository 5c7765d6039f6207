-- ===== src/AdminLife/Balance.antt =====
-- What no sequence of calls on the shared tables (internal/admin/overrides.go, internal/sync/
-- lock.go) can break.
use pbflags.Common.{
  sym, subst, ℕ, suc, ◌+◌, ◌≡◌, refl, false, List, [], ◌∷◌, Option, none, some, Str, if◌then◌else◌,
  ◌=s◌, codes, arith, inl, inr,
}
use pbflags.Database.{Db, AuditRow, LockInfo, OverrideRow, Result, ok, err, ValueCodec}
use pbflags.Database.Ends.{Atomic, transaction-Atomic}
use pbflags.Database.Rows.{IsUnique, upsert-IsUnique, delete-IsUnique}
use pbflags.SyncLock.{action_acquire_sync_lock, action_release_sync_lock}
use pbflags.SyncLock.Held.{
  Audited, Acquired, Released, acquire_sync_lock-Acquired, release_sync_lock-Released,
}
use pbflags.AdminOverrides.Effects.{
  Set, Cleared, AllCleared, set_condition_override-Set, clear_condition_override-Cleared,
  clear_all_condition_overrides-AllCleared,
}
use pbflags.SyncClear.Effects.{Logged, AutoCleared, clear_overrides_for_flags_tx-AutoCleared}
use pbflags.AdminStore.Effects.{
  Updated, update_flag_state-Updated, Killed, kill_launch-Killed, Unkilled, unkill_launch-Unkilled,
  Ramped, update_launch_ramp-Ramped, Moved, update_launch_status-Moved,
}
use pbflags.AdminLife.{
  Step, acquire, release, set_override, clear_override, clear_all, sync_clear, update_state, kill,
  unkill, ramp, move_status, Reach, here, next,
}

-- How many entries of the log tell of the action.
unfoldable pub logged : Str → List AuditRow → ℕ
logged action [] = 0
logged action (row ∷ rows) = let n = logged action rows in if row.action =s action then suc n else n

abbrev held : Option LockInfo → ℕ
held none = 0
held (some info) = 1

-- The log tells of one acquisition more than of releases exactly while the lock is held, and an
-- override position has at most one row.
pub record IsBalanced (db : Db) : Type 0 where
  pub balanced :
      logged action_acquire_sync_lock db.audit
      ≡ logged action_release_sync_lock db.audit + held db.sync_lock
  pub unique : IsUnique db.overrides

-- An invariant that every successful outcome keeps is kept.
Atomic-keeps :
    {A : Type 0} (Q : A → Db → Type 0) (db : Db) (res : Result A × Db)
    → Atomic Q db res
    → ((a : A) (after : Db) → Q a after → IsBalanced after)
    → IsBalanced db
    → IsBalanced res.1
Atomic-keeps Q db (ok a, after) q keep g = keep a after q
Atomic-keeps Q db (err e, after) q keep g = subst IsBalanced (sym q) g

-- An entry about an override moves neither count.
quiet :
    (before after : Db) (flag_id action actor : Str)
    → (action =s action_acquire_sync_lock) ≡ false
    → (action =s action_release_sync_lock) ≡ false
    → IsBalanced before
    → Audited flag_id action actor before after
    → IsBalanced after
unfolding logged
quiet before after flag_id action actor p q g (old, new, e) =
    subst IsBalanced (sym e) (record { balanced = rw (p, q) g.balanced; unique = g.unique })

-- Fewer or replaced rows leave the balance as it is.
with_rows :
    (db : Db) (rows : List OverrideRow)
    → IsUnique rows
    → IsBalanced db
    → IsBalanced (record db { overrides = rows })
with_rows db rows unique g = record { balanced = g.balanced; unique = unique }

logged-cleared :
    (codec : ValueCodec) (reason action : Str) (rows : List OverrideRow)
    (before after : List AuditRow)
    → (codes "CONDITION_OVERRIDE_AUTO_CLEARED" =s action) ≡ false
    → Logged codec reason rows before after
    → logged action after ≡ logged action before
unfolding logged
logged-cleared codec reason action [] before after h e = rw e
logged-cleared codec reason action (row ∷ rows) before after h (bytes, m, rest) =
    rw (logged-cleared codec reason action rows _ after h rest, h)

module _ (codec : ValueCodec) (duration : ℕ → Str) where
  Acquired-keeps :
      (actor reason : Str) (now : ℕ) (db : Db) (info : LockInfo) (after : Db)
      → Acquired codec actor reason now db info after
      → IsBalanced db
      → IsBalanced after
  unfolding logged ◌=s◌
  Acquired-keeps actor reason now db info after (free, same, (old, new, e)) g =
      subst IsBalanced (sym e)
        (record { balanced = let b = g.balanced in ground (arith, b, free); unique = g.unique })

  Released-keeps :
      (actor : Str) (db after : Db)
      → Released codec actor db after
      → IsBalanced db
      → IsBalanced after
  unfolding logged ◌=s◌
  Released-keeps actor db after (taken, (old, new, e)) g =
      subst IsBalanced (sym e)
        (record { balanced = let b = g.balanced in ground (arith, b, taken); unique = g.unique })

  AllCleared-keeps :
      (f actor reason : Str) (db : Db) (n : ℕ) (after : Db)
      → AllCleared codec f actor reason db n after
      → IsBalanced db
      → IsBalanced after
  unfolding ◌=s◌
  AllCleared-keeps f actor reason db n after (number, inl (none_there, e)) g =
      subst IsBalanced (sym e) (with_rows db _ (delete-IsUnique _ db.overrides g.unique) g)
  AllCleared-keeps f actor reason db n after (number, inr done) g =
      quiet _ after f (codes "CLEAR_ALL_CONDITION_OVERRIDES") actor refl refl
        (with_rows db _ (delete-IsUnique _ db.overrides g.unique) g) done

  AutoCleared-keeps :
      (reason : Str) (ids : List Str) (db : Db) (n : ℕ) (after : Db)
      → AutoCleared codec reason ids db n after
      → IsBalanced db
      → IsBalanced after
  unfolding ◌=s◌
  AutoCleared-keeps reason ids db n after (number, (log, all, e)) g =
      subst IsBalanced (sym e) (record {
        balanced =
            rw
              (
                logged-cleared codec reason action_acquire_sync_lock _ db.audit log refl all,
                logged-cleared codec reason action_release_sync_lock _ db.audit log refl all,
              )
              g.balanced;
        unique = delete-IsUnique _ db.overrides g.unique;
      })

  Step-IsBalanced : {t u : Db} → Step codec duration t u → IsBalanced t → IsBalanced u
  unfolding ◌=s◌
  Step-IsBalanced (acquire actor reason now faults db) g =
      Atomic-keeps (Acquired codec actor reason now db) db _
        (acquire_sync_lock-Acquired codec actor reason now faults db)
        (λ info after done. Acquired-keeps actor reason now db info after done g) g
  Step-IsBalanced (release actor reason now faults db) g =
      Atomic-keeps (λ _. Released codec actor db) db _
        (release_sync_lock-Released codec duration actor reason now faults db)
        (λ _ after done. Released-keeps actor db after done g) g
  Step-IsBalanced (set_override f i value source actor reason now faults db) g =
      Atomic-keeps (Set codec f i source actor reason now value db) db _
        (set_condition_override-Set codec f i source actor reason now value faults db)
        (λ prev after (bytes, m, (known, p, done)).
          quiet _ after f (codes "SET_CONDITION_OVERRIDE") actor refl refl
            (with_rows db _ (upsert-IsUnique _ db.overrides g.unique) g) done)
        g
  Step-IsBalanced (clear_override f i actor reason faults db) g =
      Atomic-keeps (λ _. Cleared codec f i [] actor reason 0 db) db _
        (clear_condition_override-Cleared codec f i [] actor reason 0 faults db)
        (λ _ after (there, done).
          quiet _ after f (codes "CLEAR_CONDITION_OVERRIDE") actor refl refl
            (with_rows db _ (delete-IsUnique _ db.overrides g.unique) g) done)
        g
  Step-IsBalanced (clear_all f actor reason faults db) g =
      Atomic-keeps (AllCleared codec f actor reason db) db _
        (clear_all_condition_overrides-AllCleared codec f actor reason faults db)
        (λ n after done. AllCleared-keeps f actor reason db n after done g) g
  Step-IsBalanced (sync_clear reason ids faults db) g =
      Atomic-keeps (AutoCleared codec reason ids db) db _
        (transaction-Atomic _ (AutoCleared codec reason ids db) db
          (clear_overrides_for_flags_tx-AutoCleared codec reason ids db) faults)
        (λ n after done. AutoCleared-keeps reason ids db n after done g) g
  Step-IsBalanced (update_state f state actor now faults db) g =
      Atomic-keeps (λ _. Updated codec f state actor now db) db _
        (update_flag_state-Updated codec f state actor now faults db)
        (λ _ after (there, done).
          quiet _ after f (codes "UPDATE_STATE") actor refl refl
            (record { balanced = g.balanced; unique = g.unique }) done)
        g
  Step-IsBalanced (kill l actor now faults db) g =
      Atomic-keeps (λ _. Killed codec l actor now db) db _
        (kill_launch-Killed codec l actor now faults db)
        (λ _ after (there, done).
          quiet _ after l (codes "KILL_LAUNCH") actor refl refl
            (record { balanced = g.balanced; unique = g.unique }) (_, _, done))
        g
  Step-IsBalanced (unkill l actor faults db) g =
      Atomic-keeps (λ _. Unkilled codec l actor db) db _
        (unkill_launch-Unkilled codec l actor faults db)
        (λ _ after (there, done).
          quiet _ after l (codes "UNKILL_LAUNCH") actor refl refl
            (record { balanced = g.balanced; unique = g.unique }) (_, _, done))
        g
  Step-IsBalanced (ramp l pct source actor faults db) g =
      Atomic-keeps (Ramped codec l pct source actor db) db _
        (update_launch_ramp-Ramped codec l pct source actor faults db)
        (λ prev after (row, found, p, allowed, within, done).
          quiet _ after l (codes "UPDATE_LAUNCH_RAMP") actor refl refl
            (record { balanced = g.balanced; unique = g.unique }) (_, _, done))
        g
  Step-IsBalanced (move_status l status actor faults db) g =
      Atomic-keeps (λ _. Moved codec l status actor db) db _
        (update_launch_status-Moved codec l status actor faults db)
        (λ _ after (row, found, allowed, done).
          quiet _ after l (codes "UPDATE_LAUNCH_STATUS") actor refl refl
            (record { balanced = g.balanced; unique = g.unique }) (_, _, done))
        g

  -- In any sequence of calls, whatever statements fail, the log tells of one acquisition more than
  -- of releases exactly while the lock is held, and each override position has at most one row.
  pub Reach-IsBalanced : {s t : Db} → IsBalanced s → Reach codec duration s t → IsBalanced t
  Reach-IsBalanced g here = g
  Reach-IsBalanced g (next p step) = Step-IsBalanced step (Reach-IsBalanced g p)

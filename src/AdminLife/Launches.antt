-- ===== src/AdminLife/Launches.antt =====
-- The launches table under the admin service's calls and sync's clears
-- (internal/admin/store.go, overrides.go, internal/sync/lock.go).
use pbflags.Common.{
  ◌||◌, ◌≡◌, sym, subst, false, true, List, [], ◌∷◌, Str, All, ℕ, pos, ltb_ℤ, contains, ◌=s◌, inl,
  inr, Bool-cases,
}
use pbflags.Database.{Db, LaunchRow, Result, ok, err, ValueCodec, update_launch}
use pbflags.Database.Ends.{Atomic, transaction-Atomic}
use pbflags.SyncLock.Held.{
  Acquired, Released, acquire_sync_lock-Acquired, release_sync_lock-Released,
}
use pbflags.AdminOverrides.Effects.{
  Set, Cleared, AllCleared, set_condition_override-Set, clear_condition_override-Cleared,
  clear_all_condition_overrides-AllCleared,
}
use pbflags.SyncClear.Effects.{AutoCleared, clear_overrides_for_flags_tx-AutoCleared}
use pbflags.AdminStore.{ramp_sources, launch_statuses}
use pbflags.AdminStore.Effects.{
  Updated, update_flag_state-Updated, Killed, kill_launch-Killed, Unkilled, unkill_launch-Unkilled,
  Ramped, update_launch_ramp-Ramped, Moved, update_launch_status-Moved,
}
use pbflags.AdminLife.{
  Step, acquire, release, set_override, clear_override, clear_all, sync_clear, update_state, kill,
  unkill, ramp, move_status,
}

-- The ramp lies between 0 and 100, and its source and the status are known ones.
pub record IsLaunch (row : LaunchRow) : Type 0 where
  pub within : (ltb_ℤ row.ramp_percentage (pos 0) || ltb_ℤ (pos 100) row.ramp_percentage) ≡ false
  pub from_source : contains ramp_sources row.ramp_source ≡ true
  pub in_status : contains launch_statuses row.status ≡ true

update_launch-IsLaunch :
    (id : Str) (u : LaunchRow → LaunchRow) (rows : List LaunchRow)
    → ((row : LaunchRow) → IsLaunch row → IsLaunch (u row))
    → All IsLaunch rows
    → All IsLaunch (update_launch id u rows)
unfolding update_launch
update_launch-IsLaunch id u [] keep h = tt
update_launch-IsLaunch id u (row ∷ rows) keep (h, hs) = (
  elim (Bool-cases (row.launch_id =s id)) [
    | inl this ↦ rw this (keep row h)
    | inr other ↦ rw other h
  ],
  update_launch-IsLaunch id u rows keep hs,
)

abbrev Valid : Db → Type 0
Valid db = All IsLaunch db.launches

pub Atomic-Valid :
    {A : Type 0} (Q : A → Db → Type 0) (db : Db) (res : Result A × Db)
    → Atomic Q db res
    → ((a : A) (after : Db) → Q a after → Valid after)
    → Valid db
    → Valid res.1
Atomic-Valid Q db (ok a, after) q keep g = keep a after q
Atomic-Valid Q db (err e, after) q keep g = subst Valid (sym q) g

module _ (codec : ValueCodec) (duration : ℕ → Str) where
  -- Each call keeps the launches.
  pub Step-Valid : {t u : Db} → Step codec duration t u → Valid t → Valid u
  Step-Valid (acquire actor reason now faults db) g =
      Atomic-Valid (Acquired codec actor reason now db) db _
        (acquire_sync_lock-Acquired codec actor reason now faults db)
        (λ info after (free, same, (old, new, e)). subst Valid (sym e) g) g
  Step-Valid (release actor reason now faults db) g =
      Atomic-Valid (λ _. Released codec actor db) db _
        (release_sync_lock-Released codec duration actor reason now faults db)
        (λ _ after (taken, (old, new, e)). subst Valid (sym e) g) g
  Step-Valid (set_override f i value source actor reason now faults db) g =
      Atomic-Valid (Set codec f i source actor reason now value db) db _
        (set_condition_override-Set codec f i source actor reason now value faults db)
        (λ prev after (bytes, m, (known, p, (old, new, e))). subst Valid (sym e) g) g
  Step-Valid (clear_override f i actor reason faults db) g =
      Atomic-Valid (λ _. Cleared codec f i [] actor reason 0 db) db _
        (clear_condition_override-Cleared codec f i [] actor reason 0 faults db)
        (λ _ after (there, (old, new, e)). subst Valid (sym e) g) g
  Step-Valid (clear_all f actor reason faults db) g =
      Atomic-Valid (AllCleared codec f actor reason db) db _
        (clear_all_condition_overrides-AllCleared codec f actor reason faults db)
        (λ n after (number, done). elim done [
          | inl (nothing, e) ↦ subst Valid (sym e) g
          | inr (old, new, e) ↦ subst Valid (sym e) g
        ])
        g
  Step-Valid (sync_clear reason ids faults db) g =
      Atomic-Valid (AutoCleared codec reason ids db) db _
        (transaction-Atomic _ (AutoCleared codec reason ids db) db
          (clear_overrides_for_flags_tx-AutoCleared codec reason ids db) faults)
        (λ n after (number, (log, all, e)). subst Valid (sym e) g) g
  Step-Valid (update_state f state actor now faults db) g =
      Atomic-Valid (λ _. Updated codec f state actor now db) db _
        (update_flag_state-Updated codec f state actor now faults db)
        (λ _ after (there, (old, new, e)). subst Valid (sym e) g) g
  Step-Valid (kill l actor now faults db) g =
      Atomic-Valid (λ _. Killed codec l actor now db) db _
        (kill_launch-Killed codec l actor now faults db)
        (λ _ after (there, e). subst Valid (sym e) (
          update_launch-IsLaunch l _ db.launches
            (λ row h. record {
              within = h.within;
              from_source = h.from_source;
              in_status = h.in_status;
            })
            g))
        g
  Step-Valid (unkill l actor faults db) g =
      Atomic-Valid (λ _. Unkilled codec l actor db) db _
        (unkill_launch-Unkilled codec l actor faults db)
        (λ _ after (there, e). subst Valid (sym e) (
          update_launch-IsLaunch l _ db.launches
            (λ row h. record {
              within = h.within;
              from_source = h.from_source;
              in_status = h.in_status;
            })
            g))
        g
  Step-Valid (ramp l pct source actor faults db) g =
      Atomic-Valid (Ramped codec l pct source actor db) db _
        (update_launch_ramp-Ramped codec l pct source actor faults db)
        (λ prev after (row, found, p, allowed, within, e). subst Valid (sym e) (
          update_launch-IsLaunch l _ db.launches
            (λ row h. record { within = within; from_source = allowed; in_status = h.in_status })
            g))
        g
  Step-Valid (move_status l status actor faults db) g =
      Atomic-Valid (λ _. Moved codec l status actor db) db _
        (update_launch_status-Moved codec l status actor faults db)
        (λ _ after (row, found, allowed, e). subst Valid (sym e) (
          update_launch-IsLaunch l _ db.launches
            (λ row h. record {
              within = h.within;
              from_source = h.from_source;
              in_status = allowed;
            })
            g))
        g

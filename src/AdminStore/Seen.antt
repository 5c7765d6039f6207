-- ===== src/AdminStore/Seen.antt =====
-- What the fetcher of internal/evaluator/dbfetcher.go sees of the admin service's writes on flags
-- and launches (internal/admin/store.go).
use pbflags.Common.{
  inr, inl, Bool-cases, ap, Bool, true, false, ◌||◌, ◌&&◌, not, ◌≡◌, refl, sym, ◌∙◌, ℕ, Option,
  none, some, List, [], ◌∷◌, Str, contains, ◌=s◌, =s_iff, if◌then◌else◌, is_some, arith, is_empty,
  map, codes,
}
use pbflags.Flag.{State}
use pbflags.Resolution.{is_killed_state}
use pbflags.Launch.{CachedLaunch}
use pbflags.Conditions.{CachedCondition}
use pbflags.Database.{Db, FlagRow, LaunchRow, ok, ValueCodec, find_flag, update_flag, update_launch}
use pbflags.Database.Ends.{Atomic-weaken, Atomic, Atomic-ok}
use pbflags.DbFetcher.{
  Faults, killed_ids, launch_rows, insert_launch, is_live, cached_launch,
  fetch_launches_for_conditions, launch_ids,
}
use pbflags.AdminStore.{
  update_flag_state, kill_launch, unkill_launch, killed_at_of, flag_killed_at, set_flag_killed,
  set_launch_killed,
}
use pbflags.AdminStore.Effects.{
  Updated, update_flag_state-Updated, Killed, kill_launch-Killed, Unkilled, unkill_launch-Unkilled,
}

killed_ids-update :
    (id : Str) (t : Option ℕ) (rows : List FlagRow) (f : Str)
    → contains (killed_ids (update_flag id (set_flag_killed t) rows)) f ≡ (
        if id =s f
        then is_some t && is_some (flag_killed_at (find_flag id rows))
        else contains (killed_ids rows) f)
unfolding killed_ids update_flag contains find_flag
killed_ids-update id t [] f = ground arith
killed_ids-update id t (row ∷ rows) f =
    ground (
      arith,
      killed_ids-update id t rows f,
      =s_iff row.flag_id id,
      =s_iff row.flag_id f,
      =s_iff id f,
    )

killed_at_of_state :
    (state : State) (now : ℕ) → is_some (killed_at_of state now) ≡ is_killed_state state
unfolding killed_at_of
killed_at_of_state State.killed now = refl
killed_at_of_state State.enabled now = refl
killed_at_of_state State.default now = refl
killed_at_of_state State.unspecified now = refl

empty-nil : (xs : List Str) → is_empty xs ≡ true → xs ≡ []
empty-nil [] h = refl
empty-nil (x ∷ xs) h = absurd (ground arith)

-- The launch is among the rows and live.
unfoldable pub live_in : Str → List LaunchRow → Bool
live_in l [] = false
live_in l (row ∷ rows) = (row.launch_id =s l && is_live row) || live_in l rows

-- The ids of the launches that an evaluator is given.
unfoldable pub names : List CachedLaunch → List Str
names [] = []
names (l ∷ ls) = l.launch_id ∷ names ls

row_names : List LaunchRow → List Str
row_names [] = []
row_names (row ∷ rows) = row.launch_id ∷ row_names rows

names-map : (rows : List LaunchRow) → names (map cached_launch rows) ≡ row_names rows
unfolding names row_names cached_launch
names-map [] = refl
names-map (row ∷ rows) = ap (λ ls. row.launch_id ∷ ls) (names-map rows)

contains-insert_launch :
    (row : LaunchRow) (rows : List LaunchRow) (l : Str)
    → contains (row_names (insert_launch row rows)) l
      ≡ (row.launch_id =s l || contains (row_names rows) l)
unfolding insert_launch contains row_names
contains-insert_launch row [] l = refl
contains-insert_launch row (r ∷ rs) l = ground (arith, contains-insert_launch row rs l)

contains-launch_rows :
    (ids : List Str) (rows : List LaunchRow) (l : Str)
    → contains (row_names (launch_rows ids rows)) l ≡ (contains ids l && live_in l rows)
unfolding launch_rows live_in row_names
contains-launch_rows ids [] l = unfold contains in ground arith
contains-launch_rows ids (row ∷ rows) l = ground (
  arith,
  contains-launch_rows ids rows l,
  contains-insert_launch row (launch_rows ids rows) l,
  =s_iff row.launch_id l,
)

-- A launch reaches the evaluator exactly if a condition names it and it is live.
fetched-names :
    (faults : Faults) (db : Db) (conds : List CachedCondition) (ls : List CachedLaunch) (l : Str)
    → fetch_launches_for_conditions faults db conds ≡ some ls
    → contains (names ls) l ≡ (contains (launch_ids conds []) l && live_in l db.launches)
unfolding fetch_launches_for_conditions
fetched-names faults db conds ls l h = elim (Bool-cases (is_empty (launch_ids conds []))) [
  | inl nothing ↦
      let none_named = empty-nil (launch_ids conds []) nothing in
      let no_launches : ls ≡ [] = cc (rw nothing at h) in
      rw (none_named, no_launches) (unfold contains names in ground arith)
  | inr ids ↦ elim (Bool-cases faults.launch_query) [
    | inl fault ↦ absurd (let bad = rw (ids, fault) at h in ground (arith, bad))
    | inr works ↦
        let these : map cached_launch (launch_rows (launch_ids conds []) db.launches) ≡ ls =
          cc (rw (ids, works) at h) in
        rw (sym these, names-map) (contains-launch_rows (launch_ids conds []) db.launches l)
  ]
]

-- The launch's row has a status that lets it run.
unfoldable pub running_in : Str → List LaunchRow → Bool
running_in l [] = false
running_in l (row ∷ rows) =
    (row.launch_id =s l && (row.status =s codes "ACTIVE" || row.status =s codes "SOAKING"))
    || running_in l rows

live_in-update :
    (id : Str) (t : Option ℕ) (rows : List LaunchRow) (l : Str)
    → live_in l (update_launch id (set_launch_killed t) rows)
      ≡ (if id =s l then not (is_some t) && running_in l rows else live_in l rows)
unfolding live_in update_launch is_live running_in
live_in-update id t [] l = ground arith
live_in-update id t (row ∷ rows) l = ground (
  arith,
  live_in-update id t rows l,
  =s_iff row.launch_id id,
  =s_iff row.launch_id l,
  =s_iff id l,
)

module _ (codec : ValueCodec) where
  -- After a successful UpdateFlagState the kill set that the fetcher reads has the flag exactly if
  -- the new state is KILLED, and every other flag as before; the flag was there. Where the call
  -- fails the tables are as they were.
  pub update_flag_state-killed_ids :
      (flag_id : Str) (state : State) (actor : Str) (now : ℕ) (faults : List Bool) (db : Db)
      → Atomic
          (λ _ after.
            (is_some (find_flag flag_id db.flags) ≡ true)
            × ((f : Str)
                → contains (killed_ids after.flags) f ≡ (
                    if flag_id =s f
                    then is_killed_state state
                    else contains (killed_ids db.flags) f)))
          db
          (update_flag_state codec flag_id state actor now faults db)
  update_flag_state-killed_ids flag_id state actor now faults db =
      Atomic-weaken (λ _. Updated codec flag_id state actor now db) _ db _
        (λ _ after ((old, there), (b, n, e)). (
          ground (arith, there),
          λ f. rw e (
              killed_ids-update flag_id (killed_at_of state now) db.flags f
              ∙ ground (arith, there, killed_at_of_state state now)),
        ))
        (update_flag_state-Updated codec flag_id state actor now faults db)

  module _ (launch_id actor : Str) (now : ℕ) (reads : Faults) (conds : List CachedCondition) where
    -- After a successful KillLaunch no fetch hands the launch to the evaluator, and every other
    -- launch reaches it as before.
    pub kill_launch-names :
        (faults : List Bool) (db : Db) (old new : List CachedLaunch) (l : Str)
        → (kill_launch codec launch_id actor now faults db).0 ≡ ok tt
        → fetch_launches_for_conditions reads db conds ≡ some old
        → fetch_launches_for_conditions reads
            (kill_launch codec launch_id actor now faults db).1
            conds
          ≡ some new
        → contains (names new) l ≡ (not (launch_id =s l) && contains (names old) l)
    kill_launch-names faults db old new l done before after =
        let (alive, e) =
          Atomic-ok (λ _. Killed codec launch_id actor now db) db _ tt
            (kill_launch-Killed codec launch_id actor now faults db) done in
        let seen = fetched-names reads _ conds new l after in
        let was = fetched-names reads db conds old l before in
        let rows : (kill_launch codec launch_id actor now faults db).1.launches
            ≡ update_launch launch_id (set_launch_killed (some now)) db.launches =
          ap (λ d. d.launches) e in
        seen
        ∙ (ap (λ rs. contains (launch_ids conds []) l && live_in l rs) rows
            ∙ ground (arith, was, live_in-update launch_id (some now) db.launches l))

    -- After a successful UnkillLaunch the launch reaches the evaluator again, if its status lets it
    -- run and a condition names it, and every other launch as before.
    pub unkill_launch-names :
        (faults : List Bool) (db : Db) (old new : List CachedLaunch) (l : Str)
        → (unkill_launch codec launch_id actor faults db).0 ≡ ok tt
        → fetch_launches_for_conditions reads db conds ≡ some old
        → fetch_launches_for_conditions reads
            (unkill_launch codec launch_id actor faults db).1
            conds
          ≡ some new
        → contains (names new) l ≡ (
            if launch_id =s l
            then contains (launch_ids conds []) l && running_in l db.launches
            else contains (names old) l)
    unkill_launch-names faults db old new l done before after =
        let (dead, e) =
          Atomic-ok (λ _. Unkilled codec launch_id actor db) db _ tt
            (unkill_launch-Unkilled codec launch_id actor faults db) done in
        let seen = fetched-names reads _ conds new l after in
        let was = fetched-names reads db conds old l before in
        let rows : (unkill_launch codec launch_id actor faults db).1.launches
            ≡ update_launch launch_id (set_launch_killed none) db.launches =
          ap (λ d. d.launches) e in
        seen
        ∙ (ap (λ rs. contains (launch_ids conds []) l && live_in l rs) rows
            ∙ ground (arith, was, live_in-update launch_id none db.launches l))

-- ===== src/Sync/Conditions/Steered.antt =====
-- What SyncConditions (internal/sync/conditions.go) does to launches.
use pbflags.Common.{
  not, All, Bool-cases, Option-cases, inl, inr, pos, ltb_ℤ, ℕ, Bool, true, false, ◌||◌, ◌&&◌, ◌≡◌,
  refl, ◌∙◌, Option, none, some, List, [], ◌∷◌, ◌++◌, Str, codes, ◌=s◌, =s_iff, contains,
  if◌then◌else◌, is_some, arith, Assoc, ℤ,
}
use pbflags.ConfigFile.Entries.{LaunchEntry, ramp_in_range}
use pbflags.ConfigFile.Entries.Files.Ramped.{IsRamped, AllRamped}
use pbflags.AdminLife.Launches.{IsLaunch}
use pbflags.Database.{LaunchRow, find_launch}
use pbflags.DbFetcher.{is_live}
use pbflags.AdminStore.Seen.{live_in}
use pbflags.Sync.Tables.{new_launch, relaunched, upsert_launch, abandon_stale}

-- The launch's ramp and where it came from.
abbrev pub ramp_at : Option LaunchRow → Option (ℤ × Str)
ramp_at none = none
ramp_at (some row) = some (row.ramp_percentage, row.ramp_source)

-- An entry of the launch gives a ramp.
unfoldable pub gives_ramp : Str → Assoc LaunchEntry → Bool
gives_ramp id [] = false
gives_ramp id ((l, entry) ∷ ws) = (l =s id && is_some entry.ramp_percentage) || gives_ramp id ws

-- What upserts of launches do to each launch.
pub record Steered (ws : Assoc LaunchEntry) (before after : List LaunchRow) : Type 0 where
  pub same_live : (id : Str) → live_in id after ≡ live_in id before
  pub still_there :
      (id : Str) → is_some (find_launch id before) ≡ true → is_some (find_launch id after) ≡ true
  pub same_ramp :
      (id : Str)
      → is_some (find_launch id before) ≡ true
      → gives_ramp id ws ≡ false
      → ramp_at (find_launch id after) ≡ ramp_at (find_launch id before)
  pub valid : AllRamped ws → All IsLaunch before → All IsLaunch after

in_range :
    (o : Option ℤ) (pct : ℤ)
    → o ≡ some pct
    → ramp_in_range o ≡ true
    → (ltb_ℤ pct (pos 0) || ltb_ℤ (pos 100) pct) ≡ false
in_range none pct e h = absurd (ground (arith, e))
in_range (some x) pct e h =
    let same : x ≡ pct = cc e in
    let bad : not (ltb_ℤ pct (pos 0) || ltb_ℤ (pos 100) pct) ≡ true = rw same at h in
    elim (Bool-cases (ltb_ℤ pct (pos 0) || ltb_ℤ (pos 100) pct)) [
      | inl out ↦ let no_way = rw out at bad in absurd (ground (arith, no_way))
      | inr fine ↦ fine
    ]

module _ (now : ℕ) (l : Str) (scope : Option Str) (entry : LaunchEntry) (affected : List Str) where
  live_in-upsert :
      (rows : List LaunchRow) (id : Str)
      → live_in id (upsert_launch now l scope entry affected rows) ≡ live_in id rows
  unfolding live_in upsert_launch is_live new_launch relaunched ◌=s◌
  live_in-upsert [] id = ground arith
  live_in-upsert (row ∷ rows) id = ground (arith, live_in-upsert rows id)

  abbrev placed : Option LaunchRow → Option LaunchRow
  placed none = some (new_launch now l scope entry affected)
  placed (some row) = some (relaunched entry affected row)

  find_launch-upsert :
      (rows : List LaunchRow) (id : Str)
      → find_launch id (upsert_launch now l scope entry affected rows)
        ≡ (if l =s id then placed (find_launch id rows) else find_launch id rows)
  unfolding find_launch upsert_launch new_launch relaunched
  find_launch-upsert [] id = refl
  find_launch-upsert (row ∷ rows) id = ground (
    arith,
    find_launch-upsert rows id,
    =s_iff row.launch_id l,
    =s_iff row.launch_id id,
    =s_iff l id,
  )

  new_launch-IsLaunch : IsRamped entry → IsLaunch (new_launch now l scope entry affected)
  unfolding new_launch contains ◌=s◌
  new_launch-IsLaunch h = elim (Option-cases entry.ramp_percentage) [
    | inl bare ↦ record { within = rw bare refl; from_source = rw bare refl; in_status = refl }
    | inr (pct, is) ↦ record {
      within = ground (arith, is, h);
      from_source = rw is refl;
      in_status = refl;
    }
  ]

  relaunched-IsLaunch :
      (row : LaunchRow) → IsRamped entry → IsLaunch row → IsLaunch (relaunched entry affected row)
  unfolding relaunched contains ◌=s◌
  relaunched-IsLaunch row h k = elim (Option-cases entry.ramp_percentage) [
    | inl bare ↦
        rw bare (record { within = k.within; from_source = k.from_source; in_status = k.in_status })
    | inr (pct, is) ↦
        let fits : (ltb_ℤ pct (pos 0) || ltb_ℤ (pos 100) pct) ≡ false =
          in_range entry.ramp_percentage pct is h in
        rw is (record { within = fits; from_source = refl; in_status = k.in_status })
  ]

  upsert_launch-IsLaunch :
      (rows : List LaunchRow)
      → IsRamped entry
      → All IsLaunch rows
      → All IsLaunch (upsert_launch now l scope entry affected rows)
  unfolding upsert_launch
  upsert_launch-IsLaunch [] h _ = (new_launch-IsLaunch h, tt)
  upsert_launch-IsLaunch (row ∷ rows) h (k, ks) = elim (Bool-cases (row.launch_id =s l)) [
    | inl this ↦ rw this (relaunched-IsLaunch row h k, ks)
    | inr other ↦ rw other (k, upsert_launch-IsLaunch rows h ks)
  ]

  pub Steered-next :
      (ws : Assoc LaunchEntry) (before after : List LaunchRow)
      → Steered ws (upsert_launch now l scope entry affected before) after
      → Steered ((l, entry) ∷ ws) before after
  unfolding gives_ramp relaunched
  Steered-next ws before after u = record {
    same_live = λ id. u.same_live id ∙ live_in-upsert before id;
    still_there = λ id h. ground (arith, u.still_there id, find_launch-upsert before id, h);
    same_ramp = λ id h k. ground (arith, u.same_ramp id, find_launch-upsert before id, h, k);
    valid = λ (h, hs) ks. u.valid hs (upsert_launch-IsLaunch before h ks);
  }

pub Steered-none : (rows : List LaunchRow) → Steered [] rows rows
Steered-none rows = record {
  same_live = λ id. refl;
  still_there = λ id h. h;
  same_ramp = λ id h k. refl;
  valid = λ h k. k;
}

gives_ramp-append :
    (id : Str) (ws vs : Assoc LaunchEntry)
    → gives_ramp id (ws ++ vs) ≡ (gives_ramp id ws || gives_ramp id vs)
unfolding gives_ramp
gives_ramp-append id [] vs = refl
gives_ramp-append id ((l, entry) ∷ ws) vs = ground (arith, gives_ramp-append id ws vs)

AllRamped-split : (ws vs : Assoc LaunchEntry) → AllRamped (ws ++ vs) → AllRamped ws × AllRamped vs
AllRamped-split [] vs h = (tt, h)
AllRamped-split (w ∷ ws) vs (h, hs) = let (l, r) = AllRamped-split ws vs hs in ((h, l), r)

pub Steered-append :
    (ws vs : Assoc LaunchEntry) (before mid after : List LaunchRow)
    → Steered ws before mid
    → Steered vs mid after
    → Steered (ws ++ vs) before after
Steered-append ws vs before mid after u v = record {
  same_live = λ id. v.same_live id ∙ u.same_live id;
  still_there = λ id h. v.still_there id (u.still_there id h);
  same_ramp = λ id h k.
      let split = gives_ramp-append id ws vs in
      v.same_ramp id (u.still_there id h) (ground (arith, split, k))
      ∙ u.same_ramp id h (ground (arith, split, k));
  valid = λ h k. let (l, r) = AllRamped-split ws vs h in v.valid r (u.valid l k);
}

-- A launch that is not defined any more is live no longer, and ramps stay.
pub live_in-abandon_stale :
    (defined : List Str) (rows : List LaunchRow) (id : Str)
    → live_in id (abandon_stale defined rows) ≡ (contains defined id && live_in id rows)
unfolding live_in abandon_stale is_live ◌=s◌
live_in-abandon_stale defined [] id = ground arith
live_in-abandon_stale defined (row ∷ rows) id = ground (
  arith,
  live_in-abandon_stale defined rows id,
  =s_iff row.launch_id id,
  =s_iff row.status (codes "COMPLETED"),
  =s_iff row.status (codes "ABANDONED"),
)

pub ramp_at-abandon_stale :
    (defined : List Str) (rows : List LaunchRow) (id : Str)
    → ramp_at (find_launch id (abandon_stale defined rows)) ≡ ramp_at (find_launch id rows)
unfolding find_launch abandon_stale
ramp_at-abandon_stale defined [] id = refl
ramp_at-abandon_stale defined (row ∷ rows) id =
    ground (arith, ramp_at-abandon_stale defined rows id)

pub abandon_stale-IsLaunch :
    (defined : List Str) (rows : List LaunchRow)
    → All IsLaunch rows
    → All IsLaunch (abandon_stale defined rows)
unfolding abandon_stale contains ◌=s◌
abandon_stale-IsLaunch defined [] h = tt
abandon_stale-IsLaunch defined (row ∷ rows) (h, hs) = (
  abandoned (contains defined row.launch_id) (row.status =s codes "COMPLETED")
      (row.status =s codes "ABANDONED"),
  abandon_stale-IsLaunch defined rows hs,
)
  where
    gone : IsLaunch (record row { status = codes "ABANDONED" })
    gone = record { within = h.within; from_source = h.from_source; in_status = refl }

    abandoned :
        (a b c : Bool)
        → IsLaunch (
            if a
            then row
            else if b
            then row
            else if c
            then row
            else record row { status = codes "ABANDONED" })
    abandoned true b c = h
    abandoned false true c = h
    abandoned false false true = h
    abandoned false false false = gone

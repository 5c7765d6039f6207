-- ===== src/Sync/Definitions/Kept.antt =====
-- What a sync of definitions (internal/sync/sync.go) changes of the flags, and what it leaves.
pub mod Runs
use pbflags.Common.{
  Option-cases, ℕ, suc, ◌≤◌, Bool, true, false, ◌||◌, ◌&&◌, not, ◌≡◌, refl, sym, ◌∙◌, Option, none,
  some, List, [], ◌∷◌, Str, ◌=s◌, =s_iff, contains, if◌then◌else◌, is_some, arith, Assoc, lookup,
  ◌==◌, Bool-cases, inl, inr,
}
use pbflags.Database.{Db, FlagRow, find_flag, update_flag}
use pbflags.DbFetcher.Killed.{count_flag}
use pbflags.Sync.Definitions.{
  FlagDef, FeatureInfo, new_row, redefined, upsert_flag, archive, to_archive, flag_ids,
}

-- What the evaluator and the admin service own of a row.
abbrev pub runtime : Option FlagRow → Option ℕ × Str × Str
runtime none = (none, [], [])
runtime (some row) = (row.killed_at, row.conditions, row.dimension_metadata)

-- The flag is there and not archived.
abbrev pub is_active : Option FlagRow → Bool
is_active none = false
is_active (some row) = not (is_some row.archived_at)

-- The flag's row is one of a defined feature.
abbrev pub in_features : Assoc FeatureInfo → Option FlagRow → Bool
in_features features none = false
in_features features (some row) = is_some (lookup row.feature_id features)

-- The row of an upserted flag.
abbrev placed : FlagRow → Option FlagRow → FlagRow
placed new none = new
placed new (some row) = redefined new row

find_flag-upsert :
    (new : FlagRow) (rows : List FlagRow) (f : Str)
    → find_flag f (upsert_flag new rows)
      ≡ (if new.flag_id =s f then some (placed new (find_flag f rows)) else find_flag f rows)
unfolding find_flag upsert_flag
find_flag-upsert new [] f = refl
find_flag-upsert new (row ∷ rows) f = ground (
  arith,
  find_flag-upsert new rows f,
  =s_iff row.flag_id new.flag_id,
  =s_iff row.flag_id f,
  =s_iff new.flag_id f,
)

count_flag-upsert :
    (new : FlagRow) (rows : List FlagRow) (f : Str)
    → count_flag f (upsert_flag new rows)
      ≡ (if (new.flag_id =s f) && count_flag f rows == 0 then 1 else count_flag f rows)
unfolding count_flag upsert_flag
count_flag-upsert new [] f = ground arith
count_flag-upsert new (row ∷ rows) f = ground (
  arith,
  count_flag-upsert new rows f,
  =s_iff row.flag_id new.flag_id,
  =s_iff row.flag_id f,
  =s_iff new.flag_id f,
)

abbrev archived_row : ℕ → Option FlagRow → Option FlagRow
archived_row now none = none
archived_row now (some row) = some (archive now row)

find_flag-archive :
    (id : Str) (now : ℕ) (rows : List FlagRow) (f : Str)
    → find_flag f (update_flag id (archive now) rows)
      ≡ (if id =s f then archived_row now (find_flag f rows) else find_flag f rows)
unfolding find_flag update_flag
find_flag-archive id now [] f = ground arith
find_flag-archive id now (row ∷ rows) f = ground (
  arith,
  find_flag-archive id now rows f,
  =s_iff row.flag_id id,
  =s_iff row.flag_id f,
  =s_iff id f,
)

-- What an upsert of flags does for each flag.
pub record Upserted (defs : List FlagDef) (before after : List FlagRow) : Type 0 where
  pub same_runtime : (f : Str) → runtime (find_flag f after) ≡ runtime (find_flag f before)
  pub active :
      (f : Str)
      → is_active (find_flag f after)
        ≡ (contains (flag_ids defs) f || is_active (find_flag f before))
  pub others :
      (f : Str) → contains (flag_ids defs) f ≡ false → find_flag f after ≡ find_flag f before
  pub keys : (f : Str) → count_flag f before ≤ 1 → count_flag f after ≤ 1

pub Upserted-none : (rows : List FlagRow) → Upserted [] rows rows
unfolding flag_ids contains
Upserted-none rows = record {
  same_runtime = λ f. refl;
  active = λ f. refl;
  others = λ f h. refl;
  keys = λ f h. h;
}

pub Upserted-next :
    (d : FlagDef) (defs : List FlagDef) (a b : Option Str) (before after : List FlagRow)
    → Upserted defs (upsert_flag (new_row d a b) before) after
    → Upserted (d ∷ defs) before after
unfolding flag_ids contains
Upserted-next d defs a b before after u = record {
  same_runtime = λ f. u.same_runtime f ∙ ground (arith, find_flag-upsert (new_row d a b) before f);
  active = λ f. u.active f ∙ ground (arith, find_flag-upsert (new_row d a b) before f);
  others = λ f h. ground (arith, u.others f, find_flag-upsert (new_row d a b) before f);
  keys = λ f h. ground (arith, u.keys f, count_flag-upsert (new_row d a b) before f);
}

-- What the loop that archives does for each flag.
pub record Archived (ids : List Str) (before after : List FlagRow) : Type 0 where
  pub same_runtime : (f : Str) → runtime (find_flag f after) ≡ runtime (find_flag f before)
  pub active :
      (f : Str)
      → is_active (find_flag f after) ≡ (not (contains ids f) && is_active (find_flag f before))

pub Archived-none : (rows : List FlagRow) → Archived [] rows rows
unfolding contains
Archived-none rows = record { same_runtime = λ f. refl; active = λ f. refl }

pub Archived-next :
    (id : Str) (ids : List Str) (now : ℕ) (before after : List FlagRow)
    → Archived ids (update_flag id (archive now) before) after
    → Archived (id ∷ ids) before after
unfolding contains
Archived-next id ids now before after a = record {
  same_runtime = λ f. a.same_runtime f ∙ ground (arith, find_flag-archive id now before f);
  active = λ f. a.active f ∙ ground (arith, find_flag-archive id now before f);
}

-- The flag's row is to be archived.
abbrev is_stale : Assoc FeatureInfo → List Str → Option FlagRow → Bool
is_stale features defined none = false
is_stale features defined (some row) =
    is_some (lookup row.feature_id features)
    && not (is_some row.archived_at)
    && not (contains defined row.flag_id)

not_stale :
    (features : Assoc FeatureInfo) (defined : List Str) (rows : List FlagRow) (f : Str)
    → count_flag f rows ≤ 0
    → contains (to_archive features defined rows) f ≡ false
unfolding count_flag to_archive contains
not_stale features defined [] f h = refl
not_stale features defined (row ∷ rows) f h = ground (arith, not_stale features defined rows f)

contains-to_archive :
    (features : Assoc FeatureInfo) (defined : List Str) (rows : List FlagRow) (f : Str)
    → count_flag f rows ≤ 1
    → contains (to_archive features defined rows) f ≡ is_stale features defined (find_flag f rows)
unfolding count_flag to_archive contains find_flag
contains-to_archive features defined [] f h = refl
contains-to_archive features defined (row ∷ rows) f h = ground (
  arith,
  contains-to_archive features defined rows f,
  not_stale features defined rows f,
  =s_iff row.flag_id f,
)

find_flag-id :
    (f : Str) (rows : List FlagRow) (row : FlagRow) → find_flag f rows ≡ some row → row.flag_id ≡ f
unfolding find_flag
find_flag-id f [] row h = absurd (ground arith)
find_flag-id f (r ∷ rows) row h = ground (arith, find_flag-id f rows row, =s_iff r.flag_id f)

-- What both loops do for the flag `f`: the runtime part stays, and the flag is active afterwards
-- exactly if it is defined, or was active and is of no feature that is defined.
pub active_after :
    (features : Assoc FeatureInfo) (defs : List FlagDef) (before mid after : List FlagRow) (f : Str)
    → count_flag f before ≤ 1
    → Upserted defs before mid
    → Archived (to_archive features (flag_ids defs) mid) mid after
    → is_active (find_flag f after) ≡ (
        contains (flag_ids defs) f
        || (is_active (find_flag f before) && not (in_features features (find_flag f before))))
active_after features defs before mid after f key u a =
    let now = a.active f in
    let then_active = u.active f in
    let stale = contains-to_archive features (flag_ids defs) mid f (u.keys f key) in
    elim (Bool-cases (contains (flag_ids defs) f)) [
      | inl defined ↦ elim (Option-cases (find_flag f mid)) [
        | inl gone ↦ ground (arith, then_active, defined, gone)
        | inr (row, there) ↦
            let id : row.flag_id ≡ f = find_flag-id f mid row there in
            let kept : contains (flag_ids defs) row.flag_id ≡ true = rw id defined in
            ground (arith, now, then_active, stale, defined, there, kept)
      ]
      | inr other ↦
          let same = u.others f other in
          elim (Option-cases (find_flag f before)) [
            | inl gone ↦ ground (arith, now, then_active, other, gone)
            | inr (row, there) ↦
                let id : row.flag_id ≡ f = find_flag-id f before row there in
                let kept : contains (flag_ids defs) row.flag_id ≡ false = rw id other in
                let there' : find_flag f mid ≡ some row = same ∙ there in
                ground (arith, now, then_active, stale, other, there, there', kept)
          ]
    ]

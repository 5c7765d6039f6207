-- ===== src/Sync/Conditions/Stale.antt =====
-- The flags of features without a file, which SyncConditions (internal/sync/conditions.go) clears.
use pbflags.Common.{
  Bool, true, false, ◌&&◌, not, ◌⊎◌, ◌≡◌, refl, sym, ap, ◌∙◌, Option, none, some, List, [], ◌∷◌,
  Str, ◌=s◌, =s_iff, contains, if◌then◌else◌, is_empty, is_some, arith, Assoc, lookup, Bool-cases,
  inl, inr,
}
use pbflags.ConfigFile.Entries.{Config}
use pbflags.Database.{FlagRow, find_flag}
use pbflags.Sync.Tables.{FlagInfo, FeatureIndex, clear_columns, clear_conditions, ids}
use pbflags.Sync.Conditions.Written.{rest_of}

-- The flag is of a feature of the protos that has no file.
abbrev pub is_unfiled : FeatureIndex → Assoc Config → Option FlagRow → Bool
is_unfiled idx configs none = false
is_unfiled idx configs (some row) =
    contains (ids idx) row.feature_id && not (is_some (lookup row.feature_id configs))

abbrev pub conditions_at : Option FlagRow → Str
conditions_at none = []
conditions_at (some row) = row.conditions

-- What the loop over the features without a file does to each flag.
pub record Cleared (idx : FeatureIndex) (configs : Assoc Config) (before after : List FlagRow)
    : Type 0 where
  pub same_rest : (f : Str) → rest_of (find_flag f after) ≡ rest_of (find_flag f before)
  pub emptied :
      (f : Str)
      → is_unfiled idx configs (find_flag f before) ≡ true
      → is_empty (conditions_at (find_flag f after)) ≡ true
  pub stays_empty :
      (f : Str)
      → is_empty (conditions_at (find_flag f before)) ≡ true
      → is_empty (conditions_at (find_flag f after)) ≡ true
  pub others :
      (f : Str)
      → is_unfiled idx configs (find_flag f before) ≡ false
      → find_flag f after ≡ find_flag f before

abbrev cleared_row : Str → Option FlagRow → Option FlagRow
cleared_row feature_id none = none
cleared_row feature_id (some row) = some (
    if row.feature_id =s feature_id
    then (if is_empty row.conditions then row else clear_columns row)
    else row)

find_flag-clear_conditions :
    (feature_id : Str) (rows : List FlagRow) (f : Str)
    → find_flag f (clear_conditions feature_id rows) ≡ cleared_row feature_id (find_flag f rows)
unfolding find_flag clear_conditions
find_flag-clear_conditions feature_id [] f = refl
find_flag-clear_conditions feature_id (row ∷ rows) f =
    ground (arith, find_flag-clear_conditions feature_id rows f)

pub Cleared-none : (configs : Assoc Config) (rows : List FlagRow) → Cleared [] configs rows rows
unfolding ids contains
Cleared-none configs rows = record {
  same_rest = λ f. refl;
  emptied = λ f h. absurd (nothing (find_flag f rows) h);
  stays_empty = λ f h. h;
  others = λ f h. refl;
}
  where
    nothing : (o : Option FlagRow) → is_unfiled [] configs o ≡ true → ⊥
    nothing none h = ground (arith, h)
    nothing (some row) h = ground (arith, h)

unfiled_skip :
    (g : Str) (infos : Assoc FlagInfo) (idx : FeatureIndex) (configs : Assoc Config)
    (o : Option FlagRow)
    → is_some (lookup g configs) ≡ true
    → is_unfiled ((g, infos) ∷ idx) configs o ≡ is_unfiled idx configs o
unfolding ids contains
unfiled_skip g infos idx configs none h = refl
unfiled_skip g infos idx configs (some row) h = ground (arith, =s_iff g row.feature_id, h)

-- A feature that has a file.
pub Cleared-skip :
    (g : Str) (infos : Assoc FlagInfo) (idx : FeatureIndex) (configs : Assoc Config)
    (before after : List FlagRow)
    → is_some (lookup g configs) ≡ true
    → Cleared idx configs before after
    → Cleared ((g, infos) ∷ idx) configs before after
Cleared-skip g infos idx configs before after h u = record {
  same_rest = u.same_rest;
  emptied = λ f k. u.emptied f (sym (unfiled_skip g infos idx configs (find_flag f before) h) ∙ k);
  stays_empty = u.stays_empty;
  others = λ f k. u.others f (sym (unfiled_skip g infos idx configs (find_flag f before) h) ∙ k);
}

-- One feature without a file, for one flag.
rest_of-cleared : (g : Str) (o : Option FlagRow) → rest_of (cleared_row g o) ≡ rest_of o
rest_of-cleared g none = refl
rest_of-cleared g (some row) = ground arith

empty-cleared :
    (g : Str) (o : Option FlagRow)
    → is_empty (conditions_at o) ≡ true
    → is_empty (conditions_at (cleared_row g o)) ≡ true
empty-cleared g none h = refl
empty-cleared g (some row) h = ground (arith, h)

unfiled_cleared :
    (g : Str) (infos : Assoc FlagInfo) (idx : FeatureIndex) (configs : Assoc Config)
    (o : Option FlagRow)
    → is_some (lookup g configs) ≡ false
    → is_unfiled ((g, infos) ∷ idx) configs o ≡ true
    → (is_empty (conditions_at (cleared_row g o)) ≡ true)
      ⊎ (is_unfiled idx configs (cleared_row g o) ≡ true)
unfolding ids contains
unfiled_cleared g infos idx configs none h k = absurd (ground (arith, k))
unfiled_cleared g infos idx configs (some row) h k = elim (Bool-cases (row.feature_id =s g)) [
  | inl this ↦ inl (ground (arith, this))
  | inr other ↦ inr (ground (arith, other, k, =s_iff g row.feature_id, =s_iff row.feature_id g))
]

filed_cleared :
    (g : Str) (infos : Assoc FlagInfo) (idx : FeatureIndex) (configs : Assoc Config)
    (o : Option FlagRow)
    → is_some (lookup g configs) ≡ false
    → is_unfiled ((g, infos) ∷ idx) configs o ≡ false
    → (cleared_row g o ≡ o) × (is_unfiled idx configs o ≡ false)
unfolding ids contains
filed_cleared g infos idx configs none h k = (refl, refl)
filed_cleared g infos idx configs (some row) h k =
    ground (arith, h, k, =s_iff g row.feature_id, =s_iff row.feature_id g)

pub Cleared-next :
    (g : Str) (infos : Assoc FlagInfo) (idx : FeatureIndex) (configs : Assoc Config)
    (before after : List FlagRow)
    → is_some (lookup g configs) ≡ false
    → Cleared idx configs (clear_conditions g before) after
    → Cleared ((g, infos) ∷ idx) configs before after
Cleared-next g infos idx configs before after h u = record {
  same_rest = λ f.
      u.same_rest f
      ∙ (ap rest_of (find_flag-clear_conditions g before f)
          ∙ rest_of-cleared g (find_flag f before));
  emptied = λ f k.
      let here = find_flag-clear_conditions g before f in
      elim (unfiled_cleared g infos idx configs (find_flag f before) h k) [
        | inl empty ↦ u.stays_empty f (rw here empty)
        | inr later ↦ u.emptied f (rw here later)
      ];
  stays_empty = λ f k.
      u.stays_empty f
        (rw (find_flag-clear_conditions g before f) (empty-cleared g (find_flag f before) k));
  others = λ f k.
      let here = find_flag-clear_conditions g before f in
      let (same, later) = filed_cleared g infos idx configs (find_flag f before) h k in
      u.others f (rw (here, same) later) ∙ (here ∙ same);
}

-- ===== src/DbFetcher/Loading.antt =====
-- The live overrides that internal/evaluator/dbfetcher.go hands to the evaluator.
use pbflags.Common.{
  ap, ◌=s◌, ◌≤◌, ◌≡◌, refl, sym, ◌∙◌, Option, none, some, List, [], ◌∷◌, Str, ℤ, if◌then◌else◌,
  arith, Bool-cases, inl, inr, eqb_ℤ, is_some, Option-cases,
}
use pbflags.Flag.{FlagValue}
use pbflags.Conditions.{Overrides, override_at}
use pbflags.Database.{Db, OverrideRow, find_override, at_position, same_index}
use pbflags.Database.Rows.{find_override-none, eqb_ℤ_iff, IsUnique, count_at}
use pbflags.DbFetcher.{
  Faults, fetch_condition_overrides, put_override, load_value, load_overrides, override_rows,
  Loaded,
}

module _ (decode : Str → Option FlagValue) where
  -- The rows whose value can be decoded.
  pub decodable : List OverrideRow → List OverrideRow
  decodable [] = []
  decodable (row ∷ rows) =
      let rest = decodable rows in if is_some (decode row.override_value) then row ∷ rest else rest

  -- A malformed row is as good as absent: the other rows load as they would without it.
  pub load_overrides-decodable :
      (rows : List OverrideRow) (loaded : Loaded)
      → load_overrides decode rows loaded ≡ load_overrides decode (decodable rows) loaded
  unfolding load_overrides load_value decodable
  load_overrides-decodable [] loaded = refl
  load_overrides-decodable (row ∷ rows) loaded = elim (Option-cases (decode row.override_value)) [
    | inl bad ↦ rw bad (load_overrides-decodable rows loaded)
    | inr (v, good) ↦
        rw (good, good)
          (load_overrides-decodable rows (load_value row.condition_index (some v) loaded))
  ]

override_at-put :
    (i j : ℤ) (v : FlagValue) (m : Overrides)
    → override_at j (put_override i v m) ≡ (if eqb_ℤ i j then some v else override_at j m)
unfolding override_at put_override
override_at-put i j v [] = ground arith
override_at-put i j v ((k, w) ∷ m) =
    ground (arith, override_at-put i j v m, eqb_ℤ_iff k i, eqb_ℤ_iff i j, eqb_ℤ_iff k j)

-- What has been loaded for an index, or for the static default.
abbrev pub value_at : Option ℤ → Loaded → Option FlagValue
value_at none (per_index, static) = static
value_at (some i) (per_index, static) = override_at i per_index

-- The first of the two that is there.
abbrev or_else : Option FlagValue → Option FlagValue → Option FlagValue
or_else none o = o
or_else (some v) o = some v

value_at-load_value :
    (i j : Option ℤ) (o : Option FlagValue) (loaded : Loaded)
    → value_at j (load_value i o loaded)
      ≡ (if same_index i j then or_else o (value_at j loaded) else value_at j loaded)
unfolding load_value
value_at-load_value i j none loaded = ground arith
value_at-load_value none none (some v) (per, static) = refl
value_at-load_value none (some j) (some v) (per, static) = refl
value_at-load_value (some i) none (some v) (per, static) = refl
value_at-load_value (some i) (some j) (some v) (per, static) = override_at-put i j v per

abbrev pub decoded : (Str → Option FlagValue) → Option OverrideRow → Option FlagValue
decoded decode none = none
decoded decode (some row) = decode row.override_value

load_overrides-value_at :
    (decode : Str → Option FlagValue) (f : Str) (i : Option ℤ) (rows : List OverrideRow)
    (loaded : Loaded)
    → count_at f i rows ≤ 1
    → value_at i (load_overrides decode (override_rows f rows) loaded)
      ≡ or_else (decoded decode (find_override f i rows)) (value_at i loaded)
unfolding load_overrides override_rows find_override count_at at_position
load_overrides-value_at decode f i [] loaded h = refl
load_overrides-value_at decode f i (row ∷ rows) loaded h = elim (Bool-cases (row.flag_id =s f)) [
  | inl ours ↦ elim (Bool-cases (same_index row.condition_index i)) [
    | inl here ↦
        let unique : count_at f i rows ≤ 0 = ground arith in
        let rest =
          load_overrides-value_at decode f i rows
            (load_value row.condition_index (decode row.override_value) loaded) (omega arith) in
        let now = value_at-load_value row.condition_index i (decode row.override_value) loaded in
        let gone = find_override-none f i rows unique in rw (ours, rest, now, here, gone)
    | inr there ↦
        let rest =
          load_overrides-value_at decode f i rows
            (load_value row.condition_index (decode row.override_value) loaded) (ground arith) in
        let now = value_at-load_value row.condition_index i (decode row.override_value) loaded in
        rw (ours, rest, now, there)
  ]
  | inr other ↦ rw other (load_overrides-value_at decode f i rows loaded (ground arith))
]

value_at-nothing : (i : Option ℤ) → value_at i ([], none) ≡ none
unfolding override_at
value_at-nothing none = refl
value_at-nothing (some i) = refl

or_else-none : (o : Option FlagValue) → or_else o none ≡ o
or_else-none none = refl
or_else-none (some v) = refl

-- What the evaluator is given for an index, or as the static default, is the decoded value of the
-- row at that position: nothing where there is no row, or where its bytes cannot be decoded.
pub fetch_condition_overrides-value_at :
    (decode : Str → Option FlagValue) (faults : Faults) (db : Db) (f : Str) (i : Option ℤ)
    (loaded : Loaded)
    → IsUnique db.overrides
    → fetch_condition_overrides decode faults db f ≡ some loaded
    → value_at i loaded ≡ decoded decode (find_override f i db.overrides)
unfolding fetch_condition_overrides
fetch_condition_overrides-value_at decode faults db f i loaded unique h =
    elim (Bool-cases faults.override_query) [
      | inl failed ↦ absurd (ground arith)
      | inr fine ↦
          let all : load_overrides decode (override_rows f db.overrides) ([], none) ≡ loaded =
            ground arith in
          ap (value_at i) (sym all)
          ∙ (load_overrides-value_at decode f i db.overrides ([], none) (unique f i)
              ∙ (ap (or_else (decoded decode (find_override f i db.overrides))) (value_at-nothing i)
                  ∙ or_else-none (decoded decode (find_override f i db.overrides))))
    ]

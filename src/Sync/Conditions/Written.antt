-- ===== src/Sync/Conditions/Written.antt =====
-- What SyncConditions (internal/sync/conditions.go) writes to the rows of flags.
use pbflags.Common.{
  ◌⊎◌, Bool, true, false, ◌||◌, ◌≡◌, refl, ◌∙◌, Option, none, some, List, [], ◌∷◌, ◌++◌, Str, ◌=s◌,
  =s_iff, contains, if◌then◌else◌, is_empty, arith, Assoc, lookup, Bool-cases, inl, inr, length,
}
use pbflags.Flag.{FlagValue}
use pbflags.Conditions.{StoredCondition}
use pbflags.CondCache.{CachedDimMeta}
use pbflags.ConfigFile.Entries.{Config, FlagEntry}
use pbflags.Database.{FlagRow, ValueCodec, ok, find_flag, update_flag}
use pbflags.Sync.Compile.{CompiledFlag, compile_flag}
use pbflags.Sync.Tables.{FlagInfo, FeatureIndex, flags_of, info_id, Columns, set_columns, ids}
use pbflags.Sync.Conditions.{Descriptors}

-- A row but for the columns of its conditions, and these columns.
abbrev pub rest_of : Option FlagRow → Option FlagRow
rest_of none = none
rest_of (some row) = some (record row {
  conditions = [];
  dimension_metadata = [];
  cel_version = none;
  condition_count = 0;
})

abbrev pub columns_at : Option FlagRow → Option Columns
columns_at none = none
columns_at (some row) = some (record {
  conditions = row.conditions;
  dimension_metadata = row.dimension_metadata;
  cel_version = row.cel_version;
  condition_count = row.condition_count;
})

abbrev pub overwritten : Columns → Option FlagRow → Option Columns
overwritten cols none = none
overwritten cols (some row) = some cols

abbrev written_row : Columns → Option FlagRow → Option FlagRow
written_row cols none = none
written_row cols (some row) = some (set_columns cols row)

find_flag-set_columns :
    (id : Str) (cols : Columns) (rows : List FlagRow) (f : Str)
    → find_flag f (update_flag id (set_columns cols) rows)
      ≡ (if id =s f then written_row cols (find_flag f rows) else find_flag f rows)
unfolding find_flag update_flag
find_flag-set_columns id cols [] f = ground arith
find_flag-set_columns id cols (row ∷ rows) f = ground (
  arith,
  find_flag-set_columns id cols rows f,
  =s_iff row.flag_id id,
  =s_iff row.flag_id f,
  =s_iff id f,
)

-- The flags that the configuration of a feature writes, by their ids.
unfoldable pub writes_of : Assoc FlagInfo → Assoc FlagEntry → Assoc FlagEntry
writes_of infos [] = []
writes_of infos ((name, entry) ∷ flags) =
    (info_id (lookup name infos), entry) ∷ writes_of infos flags

-- All flags that the configurations write.
unfoldable pub all_writes : FeatureIndex → Assoc Config → Assoc FlagEntry
all_writes idx [] = []
all_writes idx ((feature_id, cfg) ∷ configs) =
    writes_of (flags_of (lookup feature_id idx)) cfg.flags ++ all_writes idx configs

-- The entry is written for the flag.
unfoldable pub Writes : Str → FlagEntry → Assoc FlagEntry → Type 0
Writes f entry [] = ⊥
Writes f entry ((id, e) ∷ ws) = ((id ≡ f) × (e ≡ entry)) ⊎ Writes f entry ws

module _ (codec : ValueCodec) (marshal_conditions : List StoredCondition → Option Str)
    (marshal_dims : CachedDimMeta → Option Str) (equal : Option FlagValue → Option FlagValue → Bool)
    (cel_version : Str) (desc : Descriptors) where
  -- The columns are those of the compiled entry: its encoded chain and metadata under the version of
  -- the compiler, or nothing where it has no conditions.
  pub record StoredAs (entry : FlagEntry) (cols : Columns) : Type 0 where
    pub out : CompiledFlag
    pub compiled : compile_flag codec.marshal desc.compile equal desc.bounded entry ≡ ok out
    pub stored :
        is_empty out.conditions ≡ false → marshal_conditions out.conditions ≡ some cols.conditions
    pub dims :
        is_empty out.conditions ≡ false
        → (if is_empty out.dim_meta then some [] else marshal_dims out.dim_meta)
          ≡ some cols.dimension_metadata
    pub version : cols.cel_version ≡ (if is_empty out.conditions then none else some cel_version)
    pub bare :
        is_empty out.conditions ≡ true → (cols.conditions ≡ []) × (cols.dimension_metadata ≡ [])
    pub counted : cols.condition_count ≡ length out.conditions

  abbrev pub FlagWritten : Assoc FlagEntry → Str → Option FlagRow → Option FlagRow → Type 0
  FlagWritten ws f before after =
      ((contains (ids ws) f ≡ false) × (columns_at after ≡ columns_at before))
      ⊎ ((entry : FlagEntry) × (cols : Columns) × Writes f entry ws
          × StoredAs entry cols
          × (columns_at after ≡ overwritten cols before))

  -- What the writes do to each flag.
  pub record Written (ws : Assoc FlagEntry) (before after : List FlagRow) : Type 0 where
    pub same_rest : (f : Str) → rest_of (find_flag f after) ≡ rest_of (find_flag f before)
    pub columns : (f : Str) → FlagWritten ws f (find_flag f before) (find_flag f after)

  pub Written-none : (rows : List FlagRow) → Written [] rows rows
  unfolding ids contains
  Written-none rows = record { same_rest = λ f. refl; columns = λ f. inl (refl, refl) }

  first_written :
      (id : Str) (entry : FlagEntry) (cols : Columns) (ws : Assoc FlagEntry) (f : Str)
      (before mid after : Option FlagRow)
      → StoredAs entry cols
      → mid ≡ (if id =s f then written_row cols before else before)
      → FlagWritten ws f mid after
      → FlagWritten ((id, entry) ∷ ws) f before after
  unfolding ids contains Writes
  first_written id entry cols ws f before mid after st here later = elim later [
    | inl (other, same) ↦ elim (Bool-cases (id =s f)) [
      | inl this ↦
          inr (entry, cols, inl ((=s_iff id f).0 this, refl), st, ground (arith, same, here, this))
      | inr differs ↦ inl (ground (arith, other, differs), ground (arith, same, here, differs))
    ]
    | inr (e, cs, there, stored, at) ↦ inr (e, cs, inr there, stored, at ∙ ground (arith, here))
  ]

  pub Written-next :
      (id : Str) (entry : FlagEntry) (cols : Columns) (ws : Assoc FlagEntry)
      (before after : List FlagRow)
      → StoredAs entry cols
      → Written ws (update_flag id (set_columns cols) before) after
      → Written ((id, entry) ∷ ws) before after
  Written-next id entry cols ws before after st u = record {
    same_rest = λ f. u.same_rest f ∙ ground (arith, find_flag-set_columns id cols before f);
    columns = λ f.
        first_written id entry cols ws f (find_flag f before)
          (find_flag f (update_flag id (set_columns cols) before)) (find_flag f after) st
          (find_flag-set_columns id cols before f) (u.columns f);
  }

  contains-append :
      (ws vs : Assoc FlagEntry) (f : Str)
      → contains (ids (ws ++ vs)) f ≡ (contains (ids ws) f || contains (ids vs) f)
  unfolding contains ids
  contains-append [] vs f = refl
  contains-append ((id, e) ∷ ws) vs f = ground (arith, contains-append ws vs f)

  Writes-left :
      (f : Str) (entry : FlagEntry) (ws vs : Assoc FlagEntry)
      → Writes f entry ws
      → Writes f entry (ws ++ vs)
  unfolding Writes
  Writes-left f entry [] vs h = absurd h
  Writes-left f entry ((id, e) ∷ ws) vs h = elim h [
    | inl here ↦ inl here
    | inr later ↦ inr (Writes-left f entry ws vs later)
  ]

  Writes-right :
      (f : Str) (entry : FlagEntry) (ws vs : Assoc FlagEntry)
      → Writes f entry vs
      → Writes f entry (ws ++ vs)
  unfolding Writes
  Writes-right f entry [] vs h = h
  Writes-right f entry ((id, e) ∷ ws) vs h = inr (Writes-right f entry ws vs h)

  both_written :
      (ws vs : Assoc FlagEntry) (f : Str) (before mid after : Option FlagRow)
      → rest_of mid ≡ rest_of before
      → FlagWritten ws f before mid
      → FlagWritten vs f mid after
      → FlagWritten (ws ++ vs) f before after
  both_written ws vs f before mid after rest first second = elim second [
    | inr (e, cs, there, stored, at) ↦
        inr (e, cs, Writes-right f e ws vs there, stored, at ∙ ground (arith, rest))
    | inl (not_second, same) ↦ elim first [
      | inl (not_first, same') ↦
          inl (contains-append ws vs f ∙ ground (arith, not_first, not_second), same ∙ same')
      | inr (e, cs, there, stored, at) ↦ inr (e, cs, Writes-left f e ws vs there, stored, same ∙ at)
    ]
  ]

  pub Written-append :
      (ws vs : Assoc FlagEntry) (before mid after : List FlagRow)
      → Written ws before mid
      → Written vs mid after
      → Written (ws ++ vs) before after
  Written-append ws vs before mid after u v = record {
    same_rest = λ f. v.same_rest f ∙ u.same_rest f;
    columns = λ f.
        both_written ws vs f (find_flag f before) (find_flag f mid) (find_flag f after)
          (u.same_rest f) (u.columns f) (v.columns f);
  }

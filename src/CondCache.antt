-- ===== src/CondCache.antt =====
-- internal/evaluator/condcache.go: the cache of condition results, its versions and its keys.
-- The sort of the dimension names is the insertion sort of the same order.
pub mod Split
pub mod Keys
pub mod Header
use pbflags.Common.{
  ℕ, suc, ◌+◌, ◌%◌, ◌^◌, Bool, true, false, ◌&&◌, ◌||◌, Option, none, some, List, [], ◌∷◌, ◌++◌,
  map, Str, codes, Assoc, lookup, put, is_empty, length, ltb, ltb_ℤ, ◌==◌, contains, ◌=s◌, ℤ, pos,
  if◌then◌else◌,
}
use pbflags.Common.Decimal.{decimal}
use pbflags.Flag.{FlagValue}
use pbflags.Message.{Message, FieldValue, format_field_value, extract_dimension_value}
use pbflags.Launch.{CachedLaunch, hash_bucket}
use pbflags.Ristretto.{Ristretto}

-- celenv.DimClassification, a string type: `other` is any text but the four constants.
pub data DimClassification : Type 0 where
  bounded finite_filter_uniform finite_filter_distinct unbounded : DimClassification
  other : Str → DimClassification

-- celenv.DimensionMeta
pub record DimensionMeta : Type 0 where
  pub classification : DimClassification
  pub literal_set : List Str

abbrev pub CachedDimMeta : Type 0
CachedDimMeta = Assoc DimensionMeta

pub record CondCacheEntry : Type 0 where
  pub value : Option FlagValue
  pub no_match : Bool

-- versions[flagID]: the zero value for a flag that is not in the map.
unfoldable pub version_at : Str → Assoc ℕ → ℕ
version_at flag_id versions = elim (lookup flag_id versions) [ none ↦ 0 | some v ↦ v ]

module _ (r : Ristretto CondCacheEntry) where
  pub record ConditionCache : Type 0 where
    pub cache : r.Cache
    pub versions : Assoc ℕ

  -- Get: `none` for "not found", else the value and the no-match mark.
  unfoldable pub get : Str → ConditionCache → Option CondCacheEntry
  get key c = r.get key c.cache

  unfoldable pub set : Str → Option FlagValue → ConditionCache → ConditionCache
  set key val c = record c { cache = r.set key (record { value = val; no_match = false }) c.cache }

  unfoldable pub set_no_match : Str → ConditionCache → ConditionCache
  set_no_match key c = record c {
    cache = r.set key (record { value = none; no_match = true }) c.cache;
  }

  -- FlagVersion
  unfoldable pub flag_version : Str → ConditionCache → ℕ
  unfolding version_at
  flag_version flag_id c = version_at flag_id c.versions

  -- InvalidateFlag: `versions[flagID]++` on a uint64.
  unfoldable pub invalidate_flag : Str → ConditionCache → ConditionCache
  unfolding flag_version
  invalidate_flag flag_id c = record c {
    versions = put flag_id ((flag_version flag_id c + 1) % 2 ^ 64) c.versions;
  }

  -- Clear
  unfoldable pub clear : ConditionCache → ConditionCache
  clear c = record c { cache = r.clear c.cache }

-- The byte order of Go's strings.
str_less : Str → Str → Bool
str_less [] [] = false
str_less [] (y ∷ ys) = true
str_less (x ∷ xs) [] = false
str_less (x ∷ xs) (y ∷ ys) = ltb x y || (x == y && str_less xs ys)

insert_name : Str → List Str → List Str
unfolding str_less
insert_name x [] = x ∷ []
insert_name x (y ∷ ys) = if str_less y x then y ∷ insert_name x ys else x ∷ y ∷ ys

-- sort.Strings
unfoldable pub sort_strings : List Str → List Str
unfolding insert_name
sort_strings [] = []
sort_strings (x ∷ xs) = insert_name x (sort_strings xs)

-- matchesLiteral, on the formatted value
unfoldable pub matches_literal : Str → List Str → Bool
matches_literal v [] = false
matches_literal v (lit ∷ lits) = v =s lit || matches_literal v lits

-- findMatchingLiteral, on the formatted value
unfoldable pub find_matching_literal : Str → List Str → Str
find_matching_literal v [] = []
find_matching_literal v (lit ∷ lits) = if v =s lit then lit else find_matching_literal v lits

-- "%d:%s" of len(v) and v
pub length_prefixed : Str → Str
length_prefixed v = decimal (length v) ++ b':' ∷ v

-- The switch on the classification.
pub key_body : DimensionMeta → Str → Str
unfolding length_prefixed
key_body dm v = elim dm.classification [
  | bounded ↦ length_prefixed v
  | unbounded ↦ length_prefixed v
  | finite_filter_uniform ↦ if matches_literal v dm.literal_set then b'1' ∷ [] else b'0' ∷ []
  | finite_filter_distinct ↦
      let lit = find_matching_literal v dm.literal_set in
      if is_empty lit then b'-' ∷ [] else length_prefixed lit
  | other _ ↦ []
]

-- The name between NULs, then the body.
pub key_component : Str → DimensionMeta → FieldValue → Str
unfolding key_body
key_component name dm fv = 0 ∷ name ++ 0 ∷ key_body dm (format_field_value fv)

-- The loop over the names. `meta[name]` of a name of the map is its entry.
module _ (meta : CachedDimMeta) (ctx : Message) where
  pub key_dims : List Str → Str
  unfolding key_component
  key_dims [] = []
  key_dims (name ∷ names) =
      let rest = key_dims names in
      elim (lookup name meta) [
        | none ↦ rest
        | some dm ↦ elim (ctx.by_name name) [
          | none ↦ rest
          | some fv ↦ key_component name dm fv ++ rest
        ]
      ]

-- Whether the launch's bucket is below its ramp, as BuildCacheKey computes it.
unfoldable pub launch_bit : Message → CachedLaunch → Bool
launch_bit ctx l =
    ltb_ℤ (pos (hash_bucket l.launch_id (extract_dimension_value ctx l.dimension))) l.ramp_pct

pub key_launches : Message → List CachedLaunch → Str
unfolding launch_bit
key_launches ctx [] = []
key_launches ctx (l ∷ ls) =
    0 ∷ codes "launch:"
    ++ l.launch_id
    ++ 0 ∷ (if launch_bit ctx l then b'1' else b'0') ∷ key_launches ctx ls

-- "%s@%d"
pub key_header : Str → ℕ → Str
key_header flag_id version = flag_id ++ b'@' ∷ decimal version

abbrev pub names : CachedDimMeta → List Str
names [] = []
names ((n, dm) ∷ m) = n ∷ names m

-- BuildCacheKey
unfoldable pub build_cache_key : Str → ℕ → CachedDimMeta → Option Message → List CachedLaunch → Str
unfolding key_header key_dims key_launches
build_cache_key flag_id version meta none launches = key_header flag_id version
build_cache_key flag_id version meta (some ctx) launches =
    if is_empty meta && is_empty launches
    then key_header flag_id version
    else key_header flag_id version
      ++ (key_dims meta ctx (sort_strings (names meta)) ++ key_launches ctx launches)

-- ===== src/AdminStore/Reads/Named.antt =====
-- What FlagsByLaunch and the other reads of internal/admin/store.go answer.
use pbflags.Common.{
  Bool, true, false, ◌&&◌, ◌||◌, not, ◌≡◌, refl, sym, ◌∙◌, ap, Option, none, some, List, [], ◌∷◌,
  ◌++◌, Str, ◌=s◌, =s_iff, contains, is_empty, arith, Assoc, lookup, lookup-put, Bool-cases, inl,
  inr,
}
use pbflags.Flag.{
  FlagType, type_unspecified, type_bool, type_string, type_int64, type_double, type_bool_list,
  type_string_list, type_int64_list, type_double_list,
}
use pbflags.CondCache.Keys.{contains-sort_strings}
use pbflags.Conditions.{StoredCondition}
use pbflags.Database.{Db, FlagRow, LaunchRow}
use pbflags.AdminStore.Reads.{
  parse_flag_type, flags_at, add_flag, add_conditions, add_chain, is_selected, add_rows,
  wanted_launches, feature_set, sort_lists, flags_by_launch,
}
use pbflags.Sync.Definitions.{flag_type_string}

-- A type that a sync of definitions stores is the one that the admin service reads.
pub parse_flag_type-string : (ft : FlagType) → parse_flag_type (flag_type_string ft) ≡ ft
unfolding parse_flag_type flag_type_string ◌=s◌
parse_flag_type-string type_unspecified = refl
parse_flag_type-string type_bool = refl
parse_flag_type-string type_string = refl
parse_flag_type-string type_int64 = refl
parse_flag_type-string type_double = refl
parse_flag_type-string type_bool_list = refl
parse_flag_type-string type_string_list = refl
parse_flag_type-string type_int64_list = refl
parse_flag_type-string type_double_list = refl

-- The flag is listed for the launch.
abbrev listed : Str → Str → Assoc (List Str) → Bool
listed l f out = contains (flags_at l out) f

-- A condition of the chain has the launch.
unfoldable pub names_launch : Str → List StoredCondition → Bool
names_launch l [] = false
names_launch l (c ∷ cs) = (not (is_empty c.launch_id) && c.launch_id =s l) || names_launch l cs

abbrev pub chain_names : Str → Option (List StoredCondition) → Bool
chain_names l none = false
chain_names l (some cs) = names_launch l cs

contains-concat :
    (xs : List Str) (x y : Str) → contains (xs ++ x ∷ []) y ≡ (contains xs y || x =s y)
unfolding contains
contains-concat [] x y = ground arith
contains-concat (z ∷ xs) x y = ground (arith, contains-concat xs x y)

listed-add_flag :
    (m g : Str) (out : Assoc (List Str)) (l f : Str)
    → listed l f (add_flag m g out) ≡ ((m =s l && g =s f) || listed l f out)
unfolding add_flag
listed-add_flag m g out l f = elim (Bool-cases (contains (flags_at m out) g)) [
  | inl old ↦ rw old (ground (arith, =s_iff m l, =s_iff g f, old))
  | inr new ↦
      rw (new, lookup-put m l (flags_at m out ++ g ∷ []) out)
        (ground (arith, =s_iff m l, contains-concat (flags_at m out) g f))
]

listed-conditions :
    (wanted : List Str) (g : Str) (cs : List StoredCondition) (out : Assoc (List Str)) (l f : Str)
    → listed l f (add_conditions wanted g cs out)
      ≡ ((contains wanted l && names_launch l cs && g =s f) || listed l f out)
unfolding add_conditions names_launch
listed-conditions wanted g [] out l f = ground arith
listed-conditions wanted g (c ∷ cs) out l f =
    listed-conditions wanted g cs _ l f
    ∙ ground (arith, listed-add_flag c.launch_id g out l f, =s_iff c.launch_id l)

listed-chain :
    (wanted : List Str) (g : Str) (chain : Option (List StoredCondition)) (out : Assoc (List Str))
    (l f : Str)
    → listed l f (add_chain wanted g chain out)
      ≡ ((contains wanted l && chain_names l chain && g =s f) || listed l f out)
unfolding add_chain
listed-chain wanted g none out l f = ground arith
listed-chain wanted g (some cs) out l f = listed-conditions wanted g cs out l f

listed-sort_lists :
    (unmarshal : Str → Option (List StoredCondition)) (out : Assoc (List Str)) (l f : Str)
    → listed l f (sort_lists unmarshal out) ≡ listed l f out
unfolding sort_lists lookup
listed-sort_lists unmarshal [] l f = refl
listed-sort_lists unmarshal ((m, fs) ∷ out) l f =
    ground (arith, listed-sort_lists unmarshal out l f, contains-sort_strings fs f)

module _ (unmarshal : Str → Option (List StoredCondition)) where
  -- A row of the flag is one of the features, and its stored chain has the launch.
  unfoldable pub named_in : List Str → Str → Str → List FlagRow → Bool
  named_in features l f [] = false
  named_in features l f (row ∷ rows) =
      (is_selected features row && chain_names l (unmarshal row.conditions) && row.flag_id =s f)
      || named_in features l f rows

  listed-rows :
      (wanted features : List Str) (rows : List FlagRow) (out : Assoc (List Str)) (l f : Str)
      → listed l f (add_rows unmarshal wanted features rows out)
        ≡ ((contains wanted l && named_in features l f rows) || listed l f out)
  unfolding add_rows named_in
  listed-rows wanted features [] out l f = ground arith
  listed-rows wanted features (row ∷ rows) out l f =
      listed-rows wanted features rows _ l f
      ∙ ground (arith, listed-chain wanted row.flag_id (unmarshal row.conditions) out l f)

  named_in-none : (l f : Str) (rows : List FlagRow) → named_in [] l f rows ≡ false
  unfolding named_in is_selected contains
  named_in-none l f [] = refl
  named_in-none l f (row ∷ rows) = named_in-none l f rows

  empty-nil : (xs : List Str) → is_empty xs ≡ true → xs ≡ []
  empty-nil [] h = refl
  empty-nil (x ∷ xs) h = absurd (ground (arith, h))

  -- FlagsByLaunch lists a flag for a launch exactly if the launch is one of those that were given,
  -- and a row of the flag is of a feature that one of them affects and stores a chain that has the
  -- launch.
  pub flags_by_launch-listed :
      (db : Db) (launches : List LaunchRow) (out : Assoc (List Str)) (l f : Str)
      → flags_by_launch unmarshal false db launches ≡ some out
      → contains (flags_at l out) f ≡ (
          contains (wanted_launches unmarshal launches) l
          && named_in (feature_set unmarshal launches) l f db.flags)
  unfolding flags_by_launch
  flags_by_launch-listed db [] out l f h =
      let nothing : [] ≡ out = cc h in
      rw (sym nothing) (unfold wanted_launches contains lookup in ground arith)
  flags_by_launch-listed db (x ∷ xs) out l f h =
      let wanted = wanted_launches unmarshal (x ∷ xs) in
      let features = feature_set unmarshal (x ∷ xs) in
      elim (Bool-cases (is_empty features)) [
        | inl no_feature ↦
            let none_there : [] ≡ out = cc (rw no_feature at h) in
            let unnamed : named_in features l f db.flags ≡ false =
              ap (λ fs. named_in fs l f db.flags) (empty-nil features no_feature)
              ∙ named_in-none l f db.flags in
            rw (sym none_there, unnamed) (unfold contains lookup in ground arith)
        | inr some_feature ↦
            let these : sort_lists unmarshal (add_rows unmarshal wanted features db.flags [])
                ≡ out =
              cc (rw some_feature at h) in
            rw (sym these) (
              listed-sort_lists unmarshal (add_rows unmarshal wanted features db.flags []) l f
              ∙ (listed-rows wanted features db.flags [] l f
                  ∙ unfold contains lookup in ground arith))
      ]

-- ===== src/Lint/Kept.antt =====
-- What a lint of flags (internal/lint/lint.go) without violations is sure of.
use pbflags.Common.{
  ◌||◌, codes, is_some, ◌⊎◌, ℕ, Bool, true, false, ◌&&◌, ◌≡◌, refl, sym, ◌∙◌, ap, some, List, [],
  ◌∷◌, ◌++◌, Str, ◌=s◌, =s_iff, if◌then◌else◌, is_empty, arith, Assoc, lookup, ◌==◌, Bool-cases,
  inl, inr,
}
use pbflags.Flag.{
  FlagType, type_unspecified, type_bool, type_string, type_int64, type_double, type_bool_list,
  type_string_list, type_int64_list, type_double_list,
}
use pbflags.Sync.Definitions.{FlagDef}
use pbflags.Lint.{
  type_number, index_by_id, is_global_layer, normalize_layer, check_layer_change, check_type,
  check_flag, check_flags, check,
}

of_number : ℕ → FlagType
of_number n =
    if n == 1
    then type_bool
    else if n == 2
    then type_string
    else if n == 3
    then type_int64
    else if n == 4
    then type_double
    else if n == 5
    then type_bool_list
    else if n == 6
    then type_string_list
    else if n == 7
    then type_int64_list
    else if n == 8
    then type_double_list
    else type_unspecified

of_number-type : (ft : FlagType) → of_number (type_number ft) ≡ ft
unfolding of_number
of_number-type type_unspecified = refl
of_number-type type_bool = refl
of_number-type type_string = refl
of_number-type type_int64 = refl
of_number-type type_double = refl
of_number-type type_bool_list = refl
of_number-type type_string_list = refl
of_number-type type_int64_list = refl
of_number-type type_double_list = refl

same_number : (a b : FlagType) → (type_number a == type_number b) ≡ true → a ≡ b
same_number a b h =
    let e : type_number a ≡ type_number b = ground (arith, h) in
    sym (of_number-type a) ∙ (ap of_number e ∙ of_number-type b)

pub empty-append :
    {A : Type 0} (xs ys : List A) → is_empty (xs ++ ys) ≡ (is_empty xs && is_empty ys)
empty-append [] ys = refl
empty-append (x ∷ xs) ys = refl

module _ (equal_fold : Str → Str → Bool) (to_lower : Str → Str) where
  -- The flag is in the global layer: it names none, or one that is "global" in any letter case.
  abbrev pub in_global : FlagDef → Bool
  in_global d = is_empty d.layer || equal_fold d.layer (codes "global")

  -- The type is kept. A flag that is in the global layer may be given any layer; one that is in
  -- another stays in it, up to letter case.
  pub record Compatible (base current : FlagDef) : Type 0 where
    pub same_type : base.flag_type ≡ current.flag_type
    pub layer :
        (in_global base ≡ true)
        ⊎ ((in_global base ≡ false)
            × (in_global current ≡ false)
            × (to_lower base.layer ≡ to_lower current.layer))

  -- Texts that are equal in lower case are equal under case folding.
  abbrev pub Folds : Type 0
  Folds = (s : Str) → to_lower s ≡ codes "global" → equal_fold s (codes "global") ≡ true

  layer-kept :
      (base current : FlagDef)
      → Folds
      → is_some (check_layer_change equal_fold to_lower base.flag_id base current) ≡ false
      → (in_global base ≡ true)
        ⊎ ((in_global base ≡ false)
            × (in_global current ≡ false)
            × (to_lower base.layer ≡ to_lower current.layer))
  unfolding check_layer_change normalize_layer is_global_layer
  layer-kept base current folds h = elim (Bool-cases (in_global base)) [
    | inl global ↦ inl global
    | inr other ↦ elim (Bool-cases (in_global current)) [
      | inl global ↦ absurd (
          ground (
            arith,
            h,
            other,
            global,
            folds base.layer,
            =s_iff (to_lower base.layer) (codes "global"),
          ))
      | inr other' ↦ inr (
        other,
        other',
        ground (arith, h, other, other', =s_iff (to_lower base.layer) (to_lower current.layer)),
      )
    ]
  ]

  flag-Compatible :
      (id : Str) (base current : FlagDef)
      → Folds
      → is_empty (check_flag equal_fold to_lower id base (some current)) ≡ true
      → Compatible base current
  unfolding check_flag check_type check_layer_change
  flag-Compatible id base current folds h = record {
    same_type = same_number base.flag_type current.flag_type (ground (arith, h));
    layer = layer-kept base current folds (ground (arith, h));
  }

  flags-Compatible :
      (flags current : Assoc FlagDef) (id : Str) (b c : FlagDef)
      → Folds
      → is_empty (check_flags equal_fold to_lower flags current) ≡ true
      → lookup id flags ≡ some b
      → lookup id current ≡ some c
      → Compatible b c
  unfolding check_flags lookup
  flags-Compatible [] current id b c folds h there now = absurd (ground (arith, there))
  flags-Compatible ((i, base) ∷ flags) current id b c folds h there now =
      let both =
        empty-append (check_flag equal_fold to_lower i base (lookup i current))
          (check_flags equal_fold to_lower flags current) in
      elim (Bool-cases (i =s id)) [
        | inl same ↦
            let name : i ≡ id = (=s_iff i id).0 same in
            let this : base ≡ b = cc (rw same at there) in
            let here : lookup i current ≡ some c = rw name now in
            flag-Compatible i b c folds (ground (arith, h, both, this, here))
        | inr differs ↦
            flags-Compatible flags current id b c folds (ground (arith, h, both))
              (rw differs at there) now
      ]

  -- Where Check finds no violation, each flag that both versions define keeps its type, and keeps its
  -- layer up to letter case unless it was global; to_lower and equal_fold agree on "global".
  pub check-Compatible :
      (base current : List FlagDef) (id : Str) (b c : FlagDef)
      → Folds
      → is_empty (check equal_fold to_lower base current) ≡ true
      → lookup id (index_by_id base []) ≡ some b
      → lookup id (index_by_id current []) ≡ some c
      → Compatible b c
  unfolding check
  check-Compatible base current id b c folds h there now =
      flags-Compatible (index_by_id base []) (index_by_id current []) id b c folds h there now

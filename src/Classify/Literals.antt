-- ===== src/Classify/Literals.antt =====
-- What the classification of internal/celenv/classify.go keeps of the uses of a dimension.
use pbflags.Common.{
  append_assoc, append-nil, ap, Bool, false, ◌||◌, ◌≡◌, refl, sym, ◌∙◌, List, [], ◌∷◌, ◌++◌, Str,
  contains, ◌=s◌, =s_iff, arith, if◌then◌else◌, Option, some, lookup, lookup-put, Assoc, Bool-cases,
  inl, inr,
}
use pbflags.Flag.{FlagValue}
use pbflags.CondCache.{DimensionMeta}
use pbflags.CondCache.Keys.{contains-sort_strings}
use pbflags.Classify.{
  CondDimRef, CondUsage, fresh_literals, all_literals, collect_literals, has_non_literal,
  classify_dim, usages_of, add_refs, collect_usages, condition_refs, Expr, classify_all,
  classify_dimensions, all_same_value,
}

contains-fresh :
    (ls seen : List Str) (x : Str)
    → (contains (fresh_literals ls seen) x || contains seen x) ≡ (contains ls x || contains seen x)
unfolding fresh_literals contains
contains-fresh [] seen x = refl
contains-fresh (l ∷ ls) seen x =
    ground (arith, contains-fresh ls (l ∷ seen) x, contains-fresh ls seen x, =s_iff l x)

-- The literals are those of the uses, each of them.
pub contains-collect_literals :
    (us : List CondUsage) (x : Str)
    → contains (collect_literals us) x ≡ contains (all_literals us) x
unfolding collect_literals
contains-collect_literals us x =
    let fresh = contains-fresh (all_literals us) [] x in
    contains-sort_strings (fresh_literals (all_literals us) []) x ∙ unfold contains in ground arith

-- The uses of a dimension in a chain, in the order of the conditions, without the map.
unfoldable pub named_uses : Str → Option FlagValue → List CondDimRef → List CondUsage
named_uses name value [] = []
named_uses name value (ref ∷ refs) =
    let rest = named_uses name value refs in
    if ref.name =s name then record { literals = ref.literals; value = value } ∷ rest else rest

unfoldable pub uses : Str → List (Option Expr × Option FlagValue) → List CondUsage
uses name [] = []
uses name ((ast, value) ∷ conditions) =
    named_uses name value (condition_refs ast) ++ uses name conditions

module _ (equal : Option FlagValue → Option FlagValue → Bool) (name : Str) where
  add_refs-named :
      (value : Option FlagValue) (refs : List CondDimRef) (m : Assoc (List CondUsage))
      → usages_of (lookup name (add_refs value refs m))
        ≡ usages_of (lookup name m) ++ named_uses name value refs
  unfolding add_refs named_uses usages_of
  add_refs-named value [] m = sym (append-nil _)
  add_refs-named value (ref ∷ refs) m = elim (Bool-cases (ref.name =s name)) [
    | inl same ↦
        let names : ref.name ≡ name = (=s_iff ref.name name).0 same in
        let this : CondUsage = record { literals = ref.literals; value = value } in
        let found = lookup-put ref.name name (usages_of (lookup ref.name m) ++ this ∷ []) m in
        rw (add_refs-named value refs _, found, same, names, usages_of)
          (append_assoc (usages_of (lookup name m)) (this ∷ []) (named_uses name value refs))
    | inr differs ↦
        let this : CondUsage = record { literals = ref.literals; value = value } in
        let found = lookup-put ref.name name (usages_of (lookup ref.name m) ++ this ∷ []) m in
        rw (add_refs-named value refs _, found, differs)
  ]

  pub collect_usages-uses :
      (conditions : List (Option Expr × Option FlagValue)) (m : Assoc (List CondUsage))
      → usages_of (lookup name (collect_usages conditions m))
        ≡ usages_of (lookup name m) ++ uses name conditions
  unfolding collect_usages uses
  collect_usages-uses [] m = sym (append-nil _)
  collect_usages-uses ((ast, value) ∷ conditions) m =
      rw (collect_usages-uses conditions _, add_refs-named value (condition_refs ast) m)
        (append_assoc (usages_of (lookup name m)) _ (uses name conditions))

  pub classify_all-lookup :
      (bounded : Str → Bool) (m : Assoc (List CondUsage)) (dm : DimensionMeta)
      → lookup name (classify_all equal bounded m) ≡ some dm
      → dm ≡ classify_dim equal (usages_of (lookup name m)) (bounded name)
  unfolding classify_all lookup usages_of
  classify_all-lookup bounded [] dm h = absurd (ground arith)
  classify_all-lookup bounded ((n, us) ∷ m) dm h = elim (Bool-cases (n =s name)) [
    | inl same ↦
        let names : n ≡ name = (=s_iff n name).0 same in
        let found : classify_dim equal us (bounded n) ≡ dm = ground arith in
        rw same (sym found ∙ ap (λ k. classify_dim equal us (bounded k)) names)
    | inr differs ↦ rw differs (classify_all-lookup bounded m dm (rw differs at h))
  ]

  -- A dimension is classified by its uses in the whole chain, taken in the order of the conditions.
  pub classify_dimensions-uses :
      (conditions : List (Option Expr × Option FlagValue)) (bounded : Str → Bool)
      (dm : DimensionMeta)
      → lookup name (classify_dimensions equal conditions bounded) ≡ some dm
      → dm ≡ classify_dim equal (uses name conditions) (bounded name)
  unfolding classify_dimensions
  classify_dimensions-uses conditions bounded dm h =
      let all = collect_usages-uses conditions [] in
      classify_all-lookup bounded (collect_usages conditions []) dm h
      ∙ ap (λ us. classify_dim equal us (bounded name)) (all ∙ unfold lookup usages_of in refl)

-- Where all uses of a dimension are comparisons with literals and it is not bounded, the literal
-- set of its classification has exactly the literals of the uses.
pub contains-classify_dim :
    (equal : Option FlagValue → Option FlagValue → Bool) (us : List CondUsage) (x : Str)
    → has_non_literal us ≡ false
    → contains (classify_dim equal us false).literal_set x ≡ contains (all_literals us) x
unfolding classify_dim
contains-classify_dim equal us x h = elim (Bool-cases (all_same_value equal us)) [
  | inl same ↦ rw (h, same) (contains-collect_literals us x)
  | inr differ ↦ rw (h, differ) (contains-collect_literals us x)
]

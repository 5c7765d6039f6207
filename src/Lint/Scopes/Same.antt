-- ===== src/Lint/Scopes/Same.antt =====
-- What a lint of scopes (internal/lint/scopes.go) without violations is sure of.
use pbflags.Common.{
  true, false, ◌&&◌, not, ◌≡◌, refl, subst, Option, none, some, List, [], ◌∷◌, Str, ◌=s◌, =s_iff,
  contains, is_empty, arith, Assoc, lookup, Bool-cases, inl, inr,
}
use pbflags.CondCache.{sort_strings}
use pbflags.CondCache.Keys.{contains-sort_strings}
use pbflags.Lint.Kept.{empty-append}
use pbflags.Lint.Scopes.{
  ScopeInfo, FeatureScopeInfo, index_scopes, index_feature_scopes, missing_from, diff_strings,
  check_scope, check_base_scopes, check_features, check_scopes,
}

none_in : (xs : List Str) (d : Str) → is_empty xs ≡ true → contains xs d ≡ false
unfolding contains
none_in [] d h = refl
none_in (x ∷ xs) d h = absurd (ground (arith, h))

contains-missing_from :
    (xs ys : List Str) (d : Str)
    → contains (missing_from xs ys) d ≡ (contains xs d && not (contains ys d))
unfolding missing_from contains
contains-missing_from [] ys d = refl
contains-missing_from (x ∷ xs) ys d = ground (arith, contains-missing_from xs ys d, =s_iff x d)

scope_same :
    (name : Str) (dims current : List Str) (d : Str)
    → is_empty (check_scope name dims (some current)) ≡ true
    → contains current d ≡ contains dims d
unfolding check_scope diff_strings
scope_same name dims current d h =
    let added : is_empty (sort_strings (missing_from current dims)) ≡ true = ground (arith, h) in
    let removed : is_empty (sort_strings (missing_from dims current)) ≡ true = ground (arith, h) in
    ground (
      arith,
      none_in (sort_strings (missing_from current dims)) d added,
      none_in (sort_strings (missing_from dims current)) d removed,
      contains-sort_strings (missing_from current dims) d,
      contains-sort_strings (missing_from dims current) d,
      contains-missing_from current dims d,
      contains-missing_from dims current d,
    )

-- The scope is still there, with the same dimensions.
abbrev pub SameScope : List Str → Option (List Str) → Type 0
SameScope dims found =
    (current : List Str) × (found ≡ some current)
    × ((d : Str) → contains current d ≡ contains dims d)

found_same :
    (name : Str) (dims : List Str) (found : Option (List Str))
    → is_empty (check_scope name dims found) ≡ true
    → SameScope dims found
found_same name dims none h = absurd (unfold check_scope in ground (arith, h))
found_same name dims (some current) h = (current, refl, λ d. scope_same name dims current d h)

base_same :
    (base current : Assoc (List Str)) (name : Str) (dims : List Str)
    → is_empty (check_base_scopes base current) ≡ true
    → lookup name base ≡ some dims
    → SameScope dims (lookup name current)
unfolding check_base_scopes lookup
base_same [] current name dims h there = absurd (ground (arith, there))
base_same ((s, ds) ∷ base) current name dims h there =
    let both =
      empty-append (check_scope s ds (lookup s current)) (check_base_scopes base current) in
    elim (Bool-cases (s =s name)) [
      | inl same ↦
          let this : ds ≡ dims = cc (rw same at there) in
          subst (λ n. SameScope dims (lookup n current)) ((=s_iff s name).0 same)
            (subst (λ x. SameScope x (lookup s current)) this
              (found_same s ds (lookup s current) (ground (arith, h, both))))
      | inr differs ↦
          base_same base current name dims (ground (arith, h, both)) (rw differs at there)
    ]

-- Where CheckScopes finds no violation, each scope of the base is still there and has the same
-- dimensions.
pub check_scopes-SameScope :
    (base current : List ScopeInfo) (base_features current_features : List FeatureScopeInfo)
    (name : Str) (dims : List Str)
    → is_empty (check_scopes base current base_features current_features) ≡ true
    → lookup name (index_scopes base []) ≡ some dims
    → SameScope dims (lookup name (index_scopes current []))
unfolding check_scopes
check_scopes-SameScope base current base_features current_features name dims h there =
    let both =
      empty-append (check_base_scopes (index_scopes base []) (index_scopes current []))
        (check_features (index_feature_scopes base_features []) current_features) in
    base_same (index_scopes base []) (index_scopes current []) name dims (ground (arith, h, both))
      there

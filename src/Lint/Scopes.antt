-- ===== src/Lint/Scopes.antt =====
-- internal/lint/scopes.go: scopes and the features that declare them. The globally required
-- dimensions, which are read off the context's descriptor, are an argument.
pub mod Same
use pbflags.Common.{
  Bool, true, false, ◌&&◌, ◌||◌, not, Option, none, some, List, [], ◌∷◌, ◌++◌, Str, codes, ◌=s◌,
  contains, if◌then◌else◌, is_empty, Assoc, lookup, put, ◌==◌,
}
use pbflags.CondCache.{sort_strings}
use pbflags.Lint.{Violation, Rule}

-- ScopeInfo
pub record ScopeInfo : Type 0 where
  pub name : Str
  pub dimensions : List Str

-- FeatureScopeInfo
pub record FeatureScopeInfo : Type 0 where
  pub feature_id : Str
  pub scopes : List Str

-- indexScopes, by the dimensions
unfoldable pub index_scopes : List ScopeInfo → Assoc (List Str) → Assoc (List Str)
index_scopes [] m = m
index_scopes (s ∷ scopes) m = index_scopes scopes (put s.name s.dimensions m)

-- indexFeatureScopes
unfoldable pub index_feature_scopes : List FeatureScopeInfo → Assoc (List Str) → Assoc (List Str)
index_feature_scopes [] m = m
index_feature_scopes (f ∷ features) m = index_feature_scopes features (put f.feature_id f.scopes m)

-- The texts of the first list that are not in the second.
unfoldable pub missing_from : List Str → List Str → List Str
missing_from [] ys = []
missing_from (x ∷ xs) ys = let rest = missing_from xs ys in if contains ys x then rest else x ∷ rest

-- diffStrings: what is added and what is removed.
unfoldable pub diff_strings : List Str → List Str → List Str × List Str
diff_strings base current =
    (sort_strings (missing_from current base), sort_strings (missing_from base current))

unfoldable pub check_scope : Str → List Str → Option (List Str) → List Violation
check_scope name dims none = record { flag_id = name; rule = Rule.scope_removed } ∷ []
check_scope name dims (some current) =
    let (added, removed) = diff_strings dims current in
    if not (is_empty added) || not (is_empty removed)
    then record { flag_id = name; rule = Rule.scope_dim_changed } ∷ []
    else []

-- The loop over the scopes of the base.
unfoldable pub check_base_scopes : Assoc (List Str) → Assoc (List Str) → List Violation
check_base_scopes [] current = []
check_base_scopes ((name, dims) ∷ base) current =
    check_scope name dims (lookup name current) ++ check_base_scopes base current

unfoldable pub check_feature : Str → List Str → List Str → List Violation
check_feature feature_id current [] = []
check_feature feature_id current (s ∷ base) =
    let rest = check_feature feature_id current base in
    if contains current s
    then rest
    else record { flag_id = feature_id; rule = Rule.feature_scope_removed } ∷ rest

abbrev pub scopes_of : Option (List Str) → List Str
scopes_of none = []
scopes_of (some scopes) = scopes

-- The loop over the features as they are now.
unfoldable pub check_features : Assoc (List Str) → List FeatureScopeInfo → List Violation
check_features base [] = []
check_features base (f ∷ features) =
    check_feature f.feature_id f.scopes (scopes_of (lookup f.feature_id base))
    ++ check_features base features

-- CheckScopes
unfoldable pub check_scopes :
    List ScopeInfo → List ScopeInfo → List FeatureScopeInfo → List FeatureScopeInfo → List Violation
check_scopes base_scopes current_scopes base_features current_features =
    check_base_scopes (index_scopes base_scopes []) (index_scopes current_scopes [])
    ++ check_features (index_feature_scopes base_features []) current_features

-- The feature of a flag id: what stands before the first slash.
unfoldable pub flag_feature_id : Str → Str
flag_feature_id [] = []
flag_feature_id (c ∷ cs) = let rest = flag_feature_id cs in if c == b'/' then [] else c ∷ rest

module _ (global_dims : List Str) (scopes : Assoc (List Str)) where
  -- The scope is known and has the dimension.
  unfoldable pub has_dim : Str → Option (List Str) → Bool
  has_dim dim none = false
  has_dim dim (some dims) = contains global_dims dim || contains dims dim

  -- The loop over the scopes of the feature.
  unfoldable pub check_dim : Str → Str → List Str → List Violation
  check_dim flag_id dim [] = []
  check_dim flag_id dim (s ∷ names) =
      let rest = check_dim flag_id dim names in
      if has_dim dim (lookup s scopes)
      then rest
      else record { flag_id = flag_id; rule = Rule.cond_scope_compat } ∷ rest

  unfoldable pub check_dims : Str → List Str → List Str → List Violation
  check_dims flag_id names [] = []
  check_dims flag_id names (d ∷ dims) = check_dim flag_id d names ++ check_dims flag_id names dims

  unfoldable pub check_conditions : Assoc (List Str) → Assoc (List Str) → List Violation
  check_conditions features [] = []
  check_conditions features ((flag_id, dims) ∷ flags) =
      check_dims flag_id (scopes_of (lookup (flag_feature_id flag_id) features)) dims
      ++ check_conditions features flags

-- CheckConditionScopeCompat; no context or no scopes is no check.
unfoldable pub check_condition_scope_compat :
    Option (List Str) → List ScopeInfo → List FeatureScopeInfo → Assoc (List Str) → List Violation
check_condition_scope_compat none scopes features flags = []
check_condition_scope_compat (some global_dims) scopes features flags =
    if is_empty scopes
    then []
    else check_conditions global_dims (index_scopes scopes []) (index_feature_scopes features [])
        flags

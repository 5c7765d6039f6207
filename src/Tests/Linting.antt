-- ===== src/Tests/Linting.antt =====
-- The lint of definitions and the reads of the admin service at work.
use pbflags.Common.{
  =s_iff, ◌≡◌, refl, ◌&&◌, none, some, List, [], ◌∷◌, Str, codes, contains, ◌=s◌, Option, pos,
  lookup, put,
}
use pbflags.Flag.{FlagType}
use pbflags.Conditions.{StoredCondition}
use pbflags.CondCache.{sort_strings}
use pbflags.Database.{LaunchRow, Db}
use pbflags.AdminStore.Reads.{
  flags_at, wanted_launches, feature_set, flags_by_launch, add_rows, is_selected, add_chain,
  add_conditions, add_flag, sort_lists,
}
use pbflags.AdminStore.Reads.Named.{named_in, flags_by_launch-listed}
use pbflags.Sync.Definitions.{FlagDef}
use pbflags.Lint.{
  check, check_flags, check_flag, check_type, check_layer_change, index_by_id, normalize_layer,
  is_global_layer,
}
use pbflags.Lint.Kept.{Compatible, check-Compatible}
use pbflags.Lint.Scopes
use pbflags.Lint.Scopes.{
  ScopeInfo, index_scopes, index_feature_scopes, check_base_scopes, check_scope, diff_strings,
  missing_from, check_features,
}
use pbflags.Lint.Scopes.Same.{SameScope, check_scopes-SameScope}
use pbflags.Tests.{plan, flag}
use pbflags.Tests.Admin.{db, flag_row}

abbrev tax : FlagDef
tax = record {
  flag_id = codes "checkout/2";
  feature_id = codes "checkout";
  field_num = 2;
  name = codes "tax";
  flag_type = FlagType.type_string;
  layer = [];
  default = none;
  supported_values = none;
  feature_display_name = [];
  feature_description = [];
  feature_owner = [];
}

abbrev layered : FlagDef
layered = record tax { layer = codes "user" }

abbrev lower : Str → Str
lower s = s

check-Compatible_example : Compatible ◌=s◌ lower tax layered
unfolding check check_flags check_flag check_type check_layer_change index_by_id normalize_layer
    is_global_layer ◌=s◌ lookup put
check-Compatible_example =
    check-Compatible ◌=s◌ lower (tax ∷ []) (layered ∷ []) (codes "checkout/2") tax layered
      (λ s h. (=s_iff s (codes "global")).1 h) refl refl refl

abbrev user : ScopeInfo
user = record { name = codes "user"; dimensions = plan ∷ codes "region" ∷ [] }

abbrev reordered : ScopeInfo
reordered = record { name = codes "user"; dimensions = codes "region" ∷ plan ∷ [] }

check_scopes-SameScope_example :
    SameScope
      (plan ∷ codes "region" ∷ [])
      (lookup (codes "user") (index_scopes (reordered ∷ []) []))
unfolding Scopes.check_scopes check_base_scopes check_scope diff_strings missing_from index_scopes
    index_feature_scopes check_features sort_strings contains ◌=s◌ lookup put
check_scopes-SameScope_example =
    check_scopes-SameScope (user ∷ []) (reordered ∷ []) [] [] (codes "user")
      (plan ∷ codes "region" ∷ []) refl refl

abbrev exp : LaunchRow
exp = record {
  launch_id = codes "exp";
  scope_feature_id = none;
  dimension = plan;
  ramp_percentage = pos 10;
  ramp_source = codes "config";
  status = codes "ACTIVE";
  killed_at = none;
  affected_features = codes "checkout" ∷ [];
  description = [];
  created_at = 1;
  ramp_steps = [];
}

abbrev one : StoredCondition
one = record {
  cel = [];
  value = 1 ∷ [];
  launch_id = codes "exp";
  comment = [];
  launch_value = 1 ∷ [];
}

abbrev decode : Str → Option (List StoredCondition)
decode bytes = some (one ∷ [])

abbrev stored : Db
stored = record db { flags = record flag_row { conditions = codes "c" } ∷ [] }

flags_by_launch-listed_example :
    contains (flags_at (codes "exp") ((codes "exp", flag ∷ []) ∷ [])) flag ≡ (
      contains (wanted_launches decode (exp ∷ [])) (codes "exp")
      && named_in decode (feature_set decode (exp ∷ [])) (codes "exp") flag stored.flags)
unfolding flags_by_launch add_rows is_selected add_chain add_conditions add_flag sort_lists
    sort_strings wanted_launches feature_set contains ◌=s◌ lookup put
flags_by_launch-listed_example =
    flags_by_launch-listed decode stored (exp ∷ []) ((codes "exp", flag ∷ []) ∷ []) (codes "exp")
      flag refl

-- ===== src/Tests/Filtering.antt =====
-- The classification of dimensions and the cache key, together.
use pbflags.Common.{
  Bool, true, false, ◌≡◌, refl, sym, ◌∙◌, [], ◌∷◌, Str, codes, contains, ◌=s◌, =s_iff, none, some,
  lookup, arith, Bool-cases, inl, inr, put,
}
use pbflags.Message.{FieldValue, format_field_value}
use pbflags.Flag.{FlagValue}
use pbflags.CondCache.{DimensionMeta, sort_strings, matches_literal}
use pbflags.CondCache.Split.{class_view}
use pbflags.CondCache.Keys.{SameFields, SameClass}
use pbflags.Classify.{
  classify_dimensions, classify_all, collect_usages, add_refs, condition_refs, walk_dim_refs,
  comparison_refs, or_bare, match_eq_literal, ctx_dim_name, extract_literal, classify_dim,
  has_non_literal, all_equal_to, all_literals, all_same_value, collect_literals, fresh_literals,
  usages_of,
}
use pbflags.Classify.Literals.{uses, named_uses}
use pbflags.Classify.Filters.{equals}
use pbflags.Classify.Views.{IsPrecise}
use pbflags.Classify.Covered.{first, classify_dimensions-covered}
use pbflags.Tests.{plan, pro, free}
use pbflags.Tests.Classifying.{is_team, chain, never_equal, team_meta, small, small_cel}

nowhere_bounded : Str → Bool
nowhere_bounded name = false

only_team : (x : Str) → contains (codes "team" ∷ []) x ≡ true → codes "team" ≡ x
unfolding contains
only_team x h = ground (arith, =s_iff (codes "team") x)

uses_elsewhere : (name : Str) → (plan =s name) ≡ false → uses name chain ≡ []
unfolding uses named_uses condition_refs walk_dim_refs contains ◌=s◌ comparison_refs or_bare
    match_eq_literal ctx_dim_name extract_literal
uses_elsewhere name h = rw h refl

IsPrecise-team : IsPrecise team_meta
unfolding contains ◌=s◌
IsPrecise-team =
    ((λ kind x y has_x has_y. sym (only_team x has_x) ∙ only_team y has_y), (λ kind. refl))

team_class : classify_dim never_equal (uses plan chain) (nowhere_bounded plan) ≡ team_meta
unfolding nowhere_bounded uses named_uses condition_refs walk_dim_refs contains ◌=s◌ comparison_refs
    or_bare match_eq_literal ctx_dim_name extract_literal classify_dim has_non_literal all_equal_to
    all_literals all_same_value collect_literals fresh_literals sort_strings
team_class = refl

IsPrecise-unused : IsPrecise (classify_dim never_equal [] false)
unfolding classify_dim has_non_literal all_same_value collect_literals fresh_literals all_literals
    sort_strings contains
IsPrecise-unused = ((λ kind x y has_x has_y. absurd (ground arith)), (λ kind. refl))

precise :
    (name : Str) → IsPrecise (classify_dim never_equal (uses name chain) (nowhere_bounded name))
precise name = elim (Bool-cases (plan =s name)) [
  | inl this ↦ rw (sym ((=s_iff plan name).0 this), team_class) IsPrecise-team
  | inr other ↦ rw (uses_elsewhere name other) (unfold nowhere_bounded in IsPrecise-unused)
]

pro-free : SameFields pro free
pro-free name = ground arith

chain_meta : classify_dimensions never_equal chain nowhere_bounded ≡ (plan, team_meta) ∷ []
unfolding nowhere_bounded lookup classify_dimensions classify_all collect_usages add_refs
    condition_refs walk_dim_refs contains ◌=s◌ comparison_refs or_bare match_eq_literal ctx_dim_name
    extract_literal put classify_dim has_non_literal all_equal_to all_literals all_same_value
    collect_literals fresh_literals usages_of sort_strings
chain_meta = refl

same_plan :
    (dm : DimensionMeta) (v w : FieldValue)
    → lookup plan ((plan, team_meta) ∷ []) ≡ some dm
    → some (FieldValue.string_kind (codes "pro")) ≡ some v
    → some (FieldValue.string_kind (codes "free")) ≡ some w
    → class_view dm (format_field_value v) ≡ class_view dm (format_field_value w)
unfolding lookup ◌=s◌
same_plan dm v w h p q =
    let is_dm : team_meta ≡ dm = cc h in
    let is_v : FieldValue.string_kind (codes "pro") ≡ v = cc p in
    let is_w : FieldValue.string_kind (codes "free") ≡ w = cc q in
    rw (sym is_dm, sym is_v, sym is_w)
      (unfold class_view matches_literal format_field_value in refl)

same :
    (name : Str) → SameClass (classify_dimensions never_equal chain nowhere_bounded) pro free name
same name dm v w found is_v is_w = elim (Bool-cases (name =s plan)) [
  | inl this ↦
      same_plan dm v w (rw (chain_meta, (=s_iff name plan).0 this) at found) (rw this at is_v)
        (rw this at is_w)
  | inr other ↦ absurd (ground (arith, is_v))
]

-- No other name has a use, so the key looks at the plan alone.
classify_dimensions-covered_example : small is_team pro ≡ small is_team free
classify_dimensions-covered_example =
    classify_dimensions-covered never_equal nowhere_bounded chain small_cel pro free is_team
      (equals b'p' (codes "lan") (codes "team"))
      (first (some (FlagValue.bool_value true)) ((none, some (FlagValue.bool_value false)) ∷ []))
      pro-free precise same

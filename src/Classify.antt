-- ===== src/Classify.antt =====
-- internal/celenv/classify.go: which dimensions of the context a condition chain looks at, and how.
-- The syntax tree is cel-go's, with the text that `%v` prints for a literal; proto.Equal on flag
-- values is a parameter.
pub mod Literals
pub mod Filters
pub mod Views
pub mod Covered
pub mod Cacheable
use pbflags.Common.{
  Bool, true, false, ◌||◌, ◌&&◌, not, Option, none, some, List, [], ◌∷◌, ◌++◌, Str, codes, contains,
  is_empty, if◌then◌else◌, ◌=s◌, Assoc, lookup, put, ℕ,
}
use pbflags.Flag.{FlagValue}
use pbflags.CondCache.{DimClassification, DimensionMeta, CachedDimMeta, sort_strings}

mutual
  -- An expression by its kind. The children of a call are its target, if any, and its arguments.
  pub data Expr : Type 0 where
    call : Str → Exprs → Expr
    select : Expr → Str → Expr
    ident : Str → Expr
    literal : Str → Expr
    list : Exprs → Expr
    other_kind : Expr

  pub data Exprs : Type 0 where
    nil : Exprs
    cons : Expr → Exprs → Exprs

-- condDimRef; no literals are the nil slice, a use that compares with no literal.
pub record CondDimRef : Type 0 where
  pub name : Str
  pub literals : List Str

-- ctxDimName: empty where the expression is no dimension of the context.
unfoldable pub ctx_dim_name : Expr → Str
ctx_dim_name (select (ident x) field) = if x =s codes "ctx" then field else []
ctx_dim_name _ = []

-- extractLiteral
unfoldable pub extract_literal : Expr → Option Str
extract_literal (literal text) = some text
extract_literal (ident name) = some name
extract_literal _ = none

-- matchEqLiteral
unfoldable pub match_eq_literal : Expr → Expr → Option CondDimRef
match_eq_literal left right =
    let dim = ctx_dim_name left in
    if is_empty dim then none else elim (extract_literal right) [
      | none ↦ none
      | some lit ↦ some (record { name = dim; literals = lit ∷ [] })
    ]

unfoldable pub extract_all : Exprs → Option (List Str)
extract_all nil = some []
extract_all (cons e es) =
    let rest = extract_all es in
    elim (extract_literal e) [
      | none ↦ none
      | some lit ↦ elim rest [ none ↦ none | some lits ↦ some (lit ∷ lits) ]
    ]

unfoldable pub list_literals : Expr → Option (List Str)
list_literals (list es) = extract_all es
list_literals _ = none

-- matchInLiterals
unfoldable pub match_in_literals : Expr → Expr → Option CondDimRef
match_in_literals left right =
    let dim = ctx_dim_name left in
    if is_empty dim then none else elim (list_literals right) [
      | none ↦ none
      | some lits ↦ some (record { name = dim; literals = lits })
    ]

-- A dimension that is used otherwise than in a comparison with literals.
unfoldable pub bare_ref : Expr → List CondDimRef
bare_ref e =
    let dim = ctx_dim_name e in
    if is_empty dim then [] else record { name = dim; literals = [] } ∷ []

-- recordNonLiteralDims
unfoldable pub record_non_literal_dims : Exprs → List CondDimRef
record_non_literal_dims nil = []
record_non_literal_dims (cons e es) = bare_ref e ++ record_non_literal_dims es

unfoldable pub or_bare : Option CondDimRef → List CondDimRef → List CondDimRef
or_bare none bare = bare
or_bare (some ref) bare = ref ∷ []

-- The two children of a comparison, in either order.
unfoldable pub comparison_refs : Exprs → List CondDimRef
comparison_refs (cons a (cons b nil)) =
    or_bare (match_eq_literal a b)
      (or_bare (match_eq_literal b a) (record_non_literal_dims (cons a (cons b nil))))
comparison_refs es = record_non_literal_dims es

unfoldable pub in_refs : Exprs → List CondDimRef
in_refs (cons a (cons b nil)) =
    or_bare (match_in_literals a b) (record_non_literal_dims (cons a (cons b nil)))
in_refs es = record_non_literal_dims es

abbrev pub connectives : List Str
connectives = codes "_&&_" ∷ codes "_||_" ∷ codes "!_" ∷ []

abbrev pub comparisons : List Str
comparisons =
    codes "_==_" ∷ codes "_!=_" ∷ codes "_<_" ∷ codes "_<=_" ∷ codes "_>_" ∷ codes "_>=_" ∷ []

unfoldable mutual
  -- walkDimRefs
  pub walk_dim_refs : Expr → List CondDimRef
  walk_dim_refs (call function children) =
      let inner = walk_children children in
      if contains connectives function
      then inner
      else if contains comparisons function
      then comparison_refs children
      else if function =s codes "@in"
      then in_refs children
      else record_non_literal_dims children
  walk_dim_refs (select e field) = bare_ref (select e field)
  walk_dim_refs (ident name) = []
  walk_dim_refs (literal text) = []
  walk_dim_refs (list es) = []
  walk_dim_refs other_kind = []

  pub walk_children : Exprs → List CondDimRef
  walk_children nil = []
  walk_children (cons e es) = walk_dim_refs e ++ walk_children es

-- condUsage
pub record CondUsage : Type 0 where
  pub literals : List Str
  pub value : Option FlagValue

-- The inner loop of collectLiterals, with the literals that were seen.
unfoldable pub fresh_literals : List Str → List Str → List Str
fresh_literals [] seen = []
fresh_literals (l ∷ ls) seen =
    let with_it = fresh_literals ls (l ∷ seen) in
    let without_it = fresh_literals ls seen in if contains seen l then without_it else l ∷ with_it

unfoldable pub all_literals : List CondUsage → List Str
all_literals [] = []
all_literals (u ∷ us) = u.literals ++ all_literals us

-- collectLiterals
unfoldable pub collect_literals : List CondUsage → List Str
collect_literals usages = sort_strings (fresh_literals (all_literals usages) [])

unfoldable pub has_non_literal : List CondUsage → Bool
has_non_literal [] = false
has_non_literal (u ∷ us) = is_empty u.literals || has_non_literal us

-- dimUsages[name], a nil slice for a name that is not there.
unfoldable pub usages_of : Option (List CondUsage) → List CondUsage
usages_of none = []
usages_of (some us) = us

unfoldable pub add_refs :
    Option FlagValue → List CondDimRef → Assoc (List CondUsage) → Assoc (List CondUsage)
add_refs value [] usages = usages
add_refs value (ref ∷ refs) usages = add_refs value refs (
    put ref.name
      (usages_of (lookup ref.name usages) ++ record { literals = ref.literals; value = value } ∷ [])
      usages)

unfoldable pub condition_refs : Option Expr → List CondDimRef
condition_refs none = []
condition_refs (some ast) = walk_dim_refs ast

-- The loop over the conditions with their values; "otherwise" has no tree.
unfoldable pub collect_usages :
    List (Option Expr × Option FlagValue) → Assoc (List CondUsage) → Assoc (List CondUsage)
collect_usages [] usages = usages
collect_usages ((ast, value) ∷ conditions) usages =
    collect_usages conditions (add_refs value (condition_refs ast) usages)

module _ (equal : Option FlagValue → Option FlagValue → Bool) where
  unfoldable pub all_equal_to : Option FlagValue → List CondUsage → Bool
  all_equal_to first [] = true
  all_equal_to first (u ∷ us) = equal first u.value && all_equal_to first us

  -- allSameValue
  unfoldable pub all_same_value : List CondUsage → Bool
  all_same_value [] = true
  all_same_value (u ∷ us) = all_equal_to u.value us

  -- classifyDim
  unfoldable pub classify_dim : List CondUsage → Bool → DimensionMeta
  classify_dim usages is_bounded =
      if is_bounded
      then record { classification = DimClassification.bounded; literal_set = [] }
      else if has_non_literal usages
      then record { classification = DimClassification.unbounded; literal_set = [] }
      else if all_same_value usages
      then record {
        classification = DimClassification.finite_filter_uniform;
        literal_set = collect_literals usages;
      }
      else record {
        classification = DimClassification.finite_filter_distinct;
        literal_set = collect_literals usages;
      }

  unfoldable pub classify_all : (Str → Bool) → Assoc (List CondUsage) → CachedDimMeta
  classify_all bounded_dims [] = []
  classify_all bounded_dims ((name, usages) ∷ rest) =
      (name, classify_dim usages (bounded_dims name)) ∷ classify_all bounded_dims rest

  -- ClassifyDimensions
  unfoldable pub classify_dimensions :
      List (Option Expr × Option FlagValue) → (Str → Bool) → CachedDimMeta
  classify_dimensions conditions bounded_dims =
      classify_all bounded_dims (collect_usages conditions [])

-- ===== src/Classify/Covered.antt =====
-- The classification of internal/celenv/classify.go against the cache key of internal/evaluator/
-- condcache.go: what the key keeps of a context is all that the filters of a chain depend on.
use pbflags.Common.{
  Bool, true, false, ◌||◌, ◌&&◌, ◌≡◌, refl, sym, ◌∙◌, List, [], ◌∷◌, ◌++◌, Str, contains, ◌=s◌,
  =s_refl, arith, Option, none, some, lookup, Assoc, All, Bool-cases, Option-cases, inl, inr, ap,
}
use pbflags.Flag.{FlagValue}
use pbflags.Message.{Message, format_field_value}
use pbflags.CondCache.Keys.{SameFields, SameClass}
use pbflags.Classify.{
  CondDimRef, CondUsage, Expr, walk_dim_refs, all_literals, classify_dim, classify_all,
  classify_dimensions, collect_usages, usages_of, condition_refs,
}
use pbflags.Classify.Literals.{classify_dimensions-uses, named_uses, uses, collect_usages-uses}
use pbflags.Classify.Views.{IsPrecise, class_view-test}
use pbflags.Classify.Filters.{Cel, IsFilter, SameTest, AgreeOn, filter-recorded}

-- Whether the references have the literal for the name.
pub recorded : Str → Str → List CondDimRef → Bool
recorded name lit [] = false
recorded name lit (ref ∷ refs) =
    (ref.name =s name && contains ref.literals lit) || recorded name lit refs

AgreeOn-recorded :
    (c d : Message) (refs : List CondDimRef)
    → ((name lit : Str) → recorded name lit refs ≡ true → SameTest c d name lit)
    → AgreeOn c d refs
unfolding recorded
AgreeOn-recorded c d [] h = tt
AgreeOn-recorded c d (ref ∷ refs) h = (
  All-tests ref.literals (λ lit has. h ref.name lit (ground (arith, has, =s_refl ref.name))),
  AgreeOn-recorded c d refs (λ name lit r. h name lit (ground (arith, r))),
)
  where
    All-tests :
        (lits : List Str)
        → ((lit : Str) → contains lits lit ≡ true → SameTest c d ref.name lit)
        → All (SameTest c d ref.name) lits
    All-tests [] k = tt
    All-tests (l ∷ ls) k = (
      k l (unfold contains in ground (arith, =s_refl l)),
      All-tests ls (λ lit has. k lit (unfold contains in ground (arith, has))),
    )

contains-append :
    (xs ys : List Str) (x : Str) → contains (xs ++ ys) x ≡ (contains xs x || contains ys x)
unfolding contains
contains-append [] ys x = refl
contains-append (y ∷ xs) ys x = ground (arith, contains-append xs ys x)

all_literals-append :
    (us vs : List CondUsage) (x : Str)
    → contains (all_literals (us ++ vs)) x
      ≡ (contains (all_literals us) x || contains (all_literals vs) x)
unfolding all_literals
all_literals-append [] vs x = unfold contains in refl
all_literals-append (u ∷ us) vs x = ground (
  arith,
  contains-append u.literals (all_literals (us ++ vs)) x,
  contains-append u.literals (all_literals us) x,
  all_literals-append us vs x,
)

named_uses-recorded :
    (name lit : Str) (value : Option FlagValue) (refs : List CondDimRef)
    → recorded name lit refs ≡ true
    → contains (all_literals (named_uses name value refs)) lit ≡ true
unfolding recorded named_uses all_literals
named_uses-recorded name lit value [] h = absurd (ground arith)
named_uses-recorded name lit value (ref ∷ refs) h = ground (
  arith,
  named_uses-recorded name lit value refs,
  contains-append ref.literals (all_literals (named_uses name value refs)) lit,
)

-- The expression is a condition of the chain.
pub data InChain (e : Expr) : List (Option Expr × Option FlagValue) → Type 0 where
  first :
      (value : Option FlagValue) (rest : List (Option Expr × Option FlagValue))
      → InChain e ((some e, value) ∷ rest)
  later :
      (o : Option Expr) (value : Option FlagValue) (rest : List (Option Expr × Option FlagValue))
      → InChain e rest
      → InChain e ((o, value) ∷ rest)

uses-recorded :
    (e : Expr) (name lit : Str) (chain : List (Option Expr × Option FlagValue))
    → InChain e chain
    → recorded name lit (walk_dim_refs e) ≡ true
    → contains (all_literals (uses name chain)) lit ≡ true
unfolding uses condition_refs
uses-recorded e name lit chain (first value rest) h =
    let here = named_uses-recorded name lit value (walk_dim_refs e) h in
    ground (
      arith,
      here,
      all_literals-append (named_uses name value (walk_dim_refs e)) (uses name rest) lit,
    )
uses-recorded e name lit chain (later o value rest p) h =
    let there = uses-recorded e name lit rest p h in
    ground (
      arith,
      there,
      all_literals-append (named_uses name value (condition_refs o)) (uses name rest) lit,
    )

module _ (equal : Option FlagValue → Option FlagValue → Bool) (bounded : Str → Bool)
    (chain : List (Option Expr × Option FlagValue)) where
  classify_all-none :
      (name : Str) (m : Assoc (List CondUsage))
      → lookup name (classify_all equal bounded m) ≡ none
      → usages_of (lookup name m) ≡ []
  unfolding classify_all lookup usages_of
  classify_all-none name [] h = refl
  classify_all-none name ((n, us) ∷ m) h = elim (Bool-cases (n =s name)) [
    | inl same ↦ absurd (ground arith)
    | inr differs ↦ rw differs (classify_all-none name m (rw differs at h))
  ]

  classified :
      (name lit : Str)
      → contains (all_literals (uses name chain)) lit ≡ true
      → lookup name (classify_dimensions equal chain bounded)
        ≡ some (classify_dim equal (uses name chain) (bounded name))
  unfolding classify_dimensions
  classified name lit has =
      let all : usages_of (lookup name (collect_usages chain [])) ≡ uses name chain =
        collect_usages-uses equal name chain [] ∙ unfold lookup usages_of in refl in
      elim (Option-cases (lookup name (classify_all equal bounded (collect_usages chain [])))) [
        | inl absent ↦
            let gone : uses name chain ≡ [] =
              sym all ∙ classify_all-none name (collect_usages chain []) absent in
            absurd (unfold all_literals contains in ground (arith, rw gone at has))
        | inr (dm, found) ↦
            found ∙ ap some (classify_dimensions-uses equal name chain bounded dm found)
      ]

  recorded-SameTest :
      (c d : Message) (name lit : Str)
      → SameFields c d
      → SameClass (classify_dimensions equal chain bounded) c d name
      → IsPrecise (classify_dim equal (uses name chain) (bounded name))
      → contains (all_literals (uses name chain)) lit ≡ true
      → SameTest c d name lit
  recorded-SameTest c d name lit fields same precise has = elim (Option-cases (c.by_name name)) [
    | inl no_c ↦
        let no_d : d.by_name name ≡ none = ground (arith, fields name) in rw (no_c, no_d) refl
    | inr (v, is_v) ↦ elim (Option-cases (d.by_name name)) [
      | inl no_d ↦ absurd (ground (arith, fields name))
      | inr (w, is_w) ↦
          rw (is_v, is_w)
            (class_view-test equal (uses name chain) (bounded name) lit (format_field_value v)
              (format_field_value w) precise has (same _ v w (classified name lit has) is_v is_w))
    ]
  ]

  -- Contexts of the same fields that the cache key does not tell apart give a filter of the chain the
  -- same outcome, where no dimension classified as distinct has the empty literal and none
  -- classified as uniform has two literals.
  pub classify_dimensions-covered :
      (cel : Cel) (c d : Message) (e : Expr)
      → IsFilter e
      → InChain e chain
      → SameFields c d
      → ((name : Str) → IsPrecise (classify_dim equal (uses name chain) (bounded name)))
      → ((name : Str) → SameClass (classify_dimensions equal chain bounded) c d name)
      → cel.eval e c ≡ cel.eval e d
  classify_dimensions-covered cel c d e filter within fields precise same =
      filter-recorded cel c d e filter (
        AgreeOn-recorded c d (walk_dim_refs e) (λ name lit r.
          recorded-SameTest c d name lit fields (same name) (precise name)
            (uses-recorded e name lit chain within r)))

-- ===== src/Classify/Views.antt =====
-- What the key of internal/evaluator/condcache.go keeps of a dimension that classifyDim
-- (internal/celenv/classify.go) classified: the outcome of each comparison with its literals.
use pbflags.Common.{
  Bool, true, false, ◌≡◌, refl, sym, ◌∙◌, List, [], ◌∷◌, Str, contains, ◌=s◌, =s_iff, arith,
  if◌then◌else◌, Option, Bool-cases, inl, inr, ap, ◌⊎◌,
}
use pbflags.Flag.{FlagValue}
use pbflags.CondCache.{DimensionMeta, DimClassification, find_matching_literal, matches_literal}
use pbflags.CondCache.Split.{class_view}
use pbflags.Classify.{
  CondUsage, all_literals, has_non_literal, classify_dim, all_same_value, collect_literals,
}
use pbflags.Classify.Literals.{contains-collect_literals}

find_lem :
    (v : Str) (lits : List Str) → find_matching_literal v lits ≡ (if contains lits v then v else [])
unfolding find_matching_literal contains
find_lem v [] = refl
find_lem v (l ∷ ls) = ground (arith, find_lem v ls, =s_iff v l, =s_iff l v)

subst-contains :
    (lits : List Str) (lit v : Str)
    → contains lits lit ≡ true
    → (v =s lit) ≡ true
    → contains lits v ≡ true
subst-contains lits lit v has same = rw ((=s_iff v lit).0 same) has

find_same_either :
    (lits : List Str) (v w : Str)
    → contains lits [] ≡ false
    → find_matching_literal v lits ≡ find_matching_literal w lits
    → (v ≡ w) ⊎ ((contains lits v ≡ false) × (contains lits w ≡ false))
find_same_either lits v w no_empty e =
    let e' = rw (find_lem v lits, find_lem w lits) at e in
    elim (Bool-cases (contains lits v)) [
      | inl has_v ↦ elim (Bool-cases (contains lits w)) [
        | inl has_w ↦ inl (ground (arith, e'))
        | inr not_w ↦
            let nil : v ≡ [] = ground (arith, e') in
            absurd (cc (sym has_v ∙ (ap (contains lits) nil ∙ no_empty)))
      ]
      | inr not_v ↦ elim (Bool-cases (contains lits w)) [
        | inl has_w ↦
            let nil : w ≡ [] = ground (arith, e') in
            absurd (cc (sym has_w ∙ (ap (contains lits) nil ∙ no_empty)))
        | inr not_w ↦ inr (not_v, not_w)
      ]
    ]

find-same :
    (lits : List Str) (lit v w : Str)
    → contains lits [] ≡ false
    → contains lits lit ≡ true
    → find_matching_literal v lits ≡ find_matching_literal w lits
    → (v =s lit) ≡ (w =s lit)
find-same lits lit v w no_empty has e = elim (find_same_either lits v w no_empty e) [
  | inl same ↦ ap (λ x. x =s lit) same
  | inr (not_v, not_w) ↦ elim (Bool-cases (v =s lit)) [
    | inl is_v ↦ absurd (cc (sym (subst-contains lits lit v has is_v) ∙ not_v))
    | inr no_v ↦ elim (Bool-cases (w =s lit)) [
      | inl is_w ↦ absurd (cc (sym (subst-contains lits lit w has is_w) ∙ not_w))
      | inr no_w ↦ no_v ∙ sym no_w
    ]
  ]
]

-- The key of the dimension tells apart whatever the literals do.
abbrev pub IsPrecise : DimensionMeta → Type 0
IsPrecise dm =
    (dm.classification ≡ DimClassification.finite_filter_uniform
      → (x y : Str) → contains dm.literal_set x ≡ true
      → contains dm.literal_set y ≡ true
      → x ≡ y)
    × (dm.classification ≡ DimClassification.finite_filter_distinct
        → contains dm.literal_set [] ≡ false)

matches_lem : (v : Str) (lits : List Str) → matches_literal v lits ≡ contains lits v
unfolding matches_literal contains
matches_lem v [] = refl
matches_lem v (l ∷ ls) = ground (arith, matches_lem v ls, =s_iff v l, =s_iff l v)

matches-single :
    (lits : List Str) (lit v : Str)
    → ((x y : Str) → contains lits x ≡ true → contains lits y ≡ true → x ≡ y)
    → contains lits lit ≡ true
    → matches_literal v lits ≡ (v =s lit)
matches-single lits lit v one has = elim (Bool-cases (contains lits v)) [
  | inl is ↦ matches_lem v lits ∙ (is ∙ sym ((=s_iff v lit).1 (one v lit is has)))
  | inr isnt ↦ elim (Bool-cases (v =s lit)) [
    | inl same ↦ absurd (cc (sym (subst-contains lits lit v has same) ∙ isnt))
    | inr differs ↦ matches_lem v lits ∙ (isnt ∙ sym differs)
  ]
]

uniform_view : Bool → Str
uniform_view matches = if matches then b'1' ∷ [] else b'0' ∷ []

bit-injective : (a b : Bool) → uniform_view a ≡ uniform_view b → a ≡ b
unfolding uniform_view
bit-injective a b e = ground arith

uniform-test :
    (lits : List Str) (lit v w : Str)
    → ((x y : Str) → contains lits x ≡ true → contains lits y ≡ true → x ≡ y)
    → contains lits lit ≡ true
    → matches_literal v lits ≡ matches_literal w lits
    → (v =s lit) ≡ (w =s lit)
uniform-test lits lit v w one has e =
    sym (matches-single lits lit v one has) ∙ (e ∙ matches-single lits lit w one has)

pub class_view-test :
    (equal : Option FlagValue → Option FlagValue → Bool) (us : List CondUsage) (b : Bool)
    (lit v w : Str)
    → IsPrecise (classify_dim equal us b)
    → contains (all_literals us) lit ≡ true
    → class_view (classify_dim equal us b) v ≡ class_view (classify_dim equal us b) w
    → (v =s lit) ≡ (w =s lit)
unfolding classify_dim class_view
class_view-test equal us true lit v w p has e = ap (λ x. x =s lit) e
class_view-test equal us false lit v w p has e = elim (Bool-cases (has_non_literal us)) [
  | inl bare ↦ ap (λ x. x =s lit) (rw bare at e)
  | inr lits ↦
      let kept : contains (collect_literals us) lit ≡ true =
        contains-collect_literals us lit ∙ has in
      elim (Bool-cases (all_same_value equal us)) [
        | inl same ↦
            let (one, _) = rw (lits, same) at p in
            uniform-test (collect_literals us) lit v w (one refl) kept
              (bit-injective _ _ (unfold uniform_view in rw (lits, same) at e))
        | inr differ ↦
            let (_, no_empty) = rw (lits, differ) at p in
            find-same (collect_literals us) lit v w (no_empty refl) kept (rw (lits, differ) at e)
      ]
]

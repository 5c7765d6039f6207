-- ===== src/Tests/Classifying.antt =====
-- The classification of dimensions at work.
use pbflags.Common.{
  ◌||◌, ◌&&◌, not, if◌then◌else◌, ap, All, Bool, true, false, ◌≡◌, refl, List, [], ◌∷◌, Str, codes,
  contains, ◌=s◌, Option, none, some,
}
use pbflags.Message.{Message, format_field_value}
use pbflags.Flag.{FlagValue}
use pbflags.Conditions.{Outcome, bool_out, eval_error}
use pbflags.CondCache.{DimClassification, DimensionMeta}
use pbflags.Classify.{
  comparison_refs, or_bare, match_eq_literal, ctx_dim_name, extract_literal, extract_all, list,
  list_literals, connectives, Expr, Exprs, call, literal, nil, cons, CondUsage, walk_dim_refs,
}
use pbflags.Classify.Filters.{Cel, dim, text_of, SameTest, AgreeOn}
use pbflags.Tests.{plan, pro, free}

abbrev pub is_team : Expr
is_team = call (codes "_==_") (cons (dim plan) (cons (literal (codes "team")) nil))

abbrev pub chain : List (Option Expr × Option FlagValue)
chain =
    (some is_team, some (FlagValue.bool_value true))
    ∷ (none, some (FlagValue.bool_value false))
    ∷ []

abbrev pub never_equal : Option FlagValue → Option FlagValue → Bool
never_equal v w = false

abbrev team_use : CondUsage
team_use = record { literals = codes "team" ∷ []; value = some (FlagValue.bool_value true) }

abbrev pub team_meta : DimensionMeta
team_meta = record {
  classification = DimClassification.finite_filter_uniform;
  literal_set = codes "team" ∷ [];
}

-- Membership in a list of texts.
unfoldable pub is_in : Str → List Str → Bool
is_in text [] = false
is_in text (l ∷ ls) = text =s l || is_in text ls

-- A small evaluator of equalities, memberships and connectives.
abbrev text_at : Expr → Message → Str
text_at e c = text_of (c.by_name (ctx_dim_name e))

abbrev flip : Outcome → Outcome
flip (bool_out b) = bool_out (not b)
flip o = o

abbrev joined : Str → Outcome → Outcome → Outcome
joined f (bool_out a) (bool_out b) = bool_out (if f =s codes "_&&_" then a && b else a || b)
joined f _ _ = eval_error

abbrev equal_to : Option Str → Str → Outcome
equal_to none text = eval_error
equal_to (some lit) text = bool_out (text =s lit)

abbrev among : Option (List Str) → Str → Outcome
among none text = eval_error
among (some lits) text = bool_out (is_in text lits)

unfoldable pub joins : Str → Expr → Expr → Outcome → Outcome → Message → Outcome
joins f a b x y c =
    if contains connectives f
    then joined f x y
    else if f =s codes "@in"
    then among (list_literals b) (text_at a c)
    else if f =s codes "_!=_"
    then flip (equal_to (extract_literal b) (text_at a c))
    else equal_to (extract_literal b) (text_at a c)

unfoldable pub small : Expr → Message → Outcome
small (call f (cons a (cons b nil))) c = joins f a b (small a c) (small b c) c
small (call f (cons a nil)) c = flip (small a c)
small _ c = eval_error

is_in-same :
    (name : Str) (lits : List Str) (c d : Message)
    → All (SameTest c d name) lits
    → is_in (text_of (c.by_name name)) lits ≡ is_in (text_of (d.by_name name)) lits
unfolding is_in
is_in-same name [] c d h = refl
is_in-same name (l ∷ ls) c d (h, hs) = rw (h, is_in-same name ls c d hs)

pub small_equality :
    (name lit : Str) (c d : Message)
    → SameTest c d name lit
    → small (call (codes "_==_") (cons (dim name) (cons (literal lit) nil))) c
      ≡ small (call (codes "_==_") (cons (dim name) (cons (literal lit) nil))) d
unfolding small joins contains ◌=s◌ ctx_dim_name extract_literal list_literals
small_equality name lit c d h = ap bool_out h

pub small_inequality :
    (name lit : Str) (c d : Message)
    → SameTest c d name lit
    → small (call (codes "_!=_") (cons (dim name) (cons (literal lit) nil))) c
      ≡ small (call (codes "_!=_") (cons (dim name) (cons (literal lit) nil))) d
unfolding small joins contains ◌=s◌ ctx_dim_name extract_literal list_literals
small_inequality name lit c d h = ap (λ b. bool_out (not b)) h

pub small_membership :
    (name : Str) (es : Exprs) (lits : List Str) (c d : Message)
    → extract_all es ≡ some lits
    → All (SameTest c d name) lits
    → small (call (codes "@in") (cons (dim name) (cons (list es) nil))) c
      ≡ small (call (codes "@in") (cons (dim name) (cons (list es) nil))) d
unfolding small joins contains ◌=s◌ ctx_dim_name extract_literal list_literals
small_membership name es lits c d h k = rw h (ap bool_out (is_in-same name lits c d k))

pub small_conjunction :
    (f : Str) (a b : Expr) (c d : Message)
    → contains connectives f ≡ true
    → small a c ≡ small a d
    → small b c ≡ small b d
    → small (call f (cons a (cons b nil))) c ≡ small (call f (cons a (cons b nil))) d
unfolding small joins
small_conjunction f a b c d h p q = rw (h, p, q)

pub small_negation :
    (a : Expr) (c d : Message)
    → small a c ≡ small a d
    → small (call (codes "!_") (cons a nil)) c ≡ small (call (codes "!_") (cons a nil)) d
unfolding small
small_negation a c d h = ap flip h

abbrev pub small_cel : Cel
small_cel = record {
  eval = small;
  equality = small_equality;
  inequality = small_inequality;
  membership = small_membership;
  conjunction = small_conjunction;
  negation = small_negation;
}

both_agree : AgreeOn pro free (walk_dim_refs (call (codes "!_") (cons is_team nil)))
unfolding walk_dim_refs contains ◌=s◌ comparison_refs match_eq_literal ctx_dim_name extract_literal
    or_bare format_field_value
both_agree = ((refl, tt), tt)

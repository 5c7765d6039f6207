-- ===== src/Classify/Filters.antt =====
-- The filters among the conditions of internal/celenv/classify.go: connectives over comparisons of
-- a dimension with literals. What the walk records of a filter is all that its outcome depends on.
-- The evaluation of CEL is a parameter: an equality, an inequality and a membership depend on the
-- dimension only through the comparisons with their literals, a connective only on its parts.
use pbflags.Common.{
  true, ◌≡◌, refl, List, [], ◌∷◌, ◌++◌, Str, codes, contains, ◌=s◌, Option, none, some, ℕ, All,
}
use pbflags.Message.{Message, FieldValue, format_field_value}
use pbflags.Conditions.{Outcome}
use pbflags.Classify.{
  Expr, Exprs, call, select, ident, literal, list, nil, cons, CondDimRef, walk_dim_refs,
  walk_children, extract_all, extract_literal, connectives, comparison_refs, in_refs,
  match_eq_literal, match_in_literals, list_literals, ctx_dim_name, or_bare,
}

-- The dimension of the context.
abbrev pub dim : Str → Expr
dim name = select (ident (codes "ctx")) name

abbrev pub text_of : Option FieldValue → Str
text_of none = []
text_of (some v) = format_field_value v

-- The two contexts compare alike with the literal.
abbrev pub SameTest : Message → Message → Str → Str → Type 0
SameTest c d name lit = (text_of (c.by_name name) =s lit) ≡ (text_of (d.by_name name) =s lit)

abbrev pub AgreeOn : Message → Message → List CondDimRef → Type 0
AgreeOn c d [] = Unit
AgreeOn c d (ref ∷ refs) = All (SameTest c d ref.name) ref.literals × AgreeOn c d refs

-- What the documentation of CEL says of these operators.
pub record Cel : Type 0 where
  pub eval : Expr → Message → Outcome
  pub equality :
      (name lit : Str) (c d : Message)
      → SameTest c d name lit
      → eval (call (codes "_==_") (cons (dim name) (cons (literal lit) nil))) c
        ≡ eval (call (codes "_==_") (cons (dim name) (cons (literal lit) nil))) d
  pub inequality :
      (name lit : Str) (c d : Message)
      → SameTest c d name lit
      → eval (call (codes "_!=_") (cons (dim name) (cons (literal lit) nil))) c
        ≡ eval (call (codes "_!=_") (cons (dim name) (cons (literal lit) nil))) d
  pub membership :
      (name : Str) (es : Exprs) (lits : List Str) (c d : Message)
      → extract_all es ≡ some lits
      → All (SameTest c d name) lits
      → eval (call (codes "@in") (cons (dim name) (cons (list es) nil))) c
        ≡ eval (call (codes "@in") (cons (dim name) (cons (list es) nil))) d
  pub conjunction :
      (f : Str) (a b : Expr) (c d : Message)
      → contains connectives f ≡ true
      → eval a c ≡ eval a d
      → eval b c ≡ eval b d
      → eval (call f (cons a (cons b nil))) c ≡ eval (call f (cons a (cons b nil))) d
  pub negation :
      (a : Expr) (c d : Message)
      → eval a c ≡ eval a d
      → eval (call (codes "!_") (cons a nil)) c ≡ eval (call (codes "!_") (cons a nil)) d

pub data IsFilter : Expr → Type 0 where
  equals :
      (x : ℕ) (xs lit : Str)
      → IsFilter (call (codes "_==_") (cons (dim (x ∷ xs)) (cons (literal lit) nil)))
  differs :
      (x : ℕ) (xs lit : Str)
      → IsFilter (call (codes "_!=_") (cons (dim (x ∷ xs)) (cons (literal lit) nil)))
  member :
      (x : ℕ) (xs : Str) (es : Exprs) (lits : List Str)
      → extract_all es ≡ some lits
      → IsFilter (call (codes "@in") (cons (dim (x ∷ xs)) (cons (list es) nil)))
  both :
      (f : Str) (a b : Expr)
      → contains connectives f ≡ true
      → IsFilter a
      → IsFilter b
      → IsFilter (call f (cons a (cons b nil)))
  negated : (a : Expr) → IsFilter a → IsFilter (call (codes "!_") (cons a nil))

AgreeOn-append :
    (c d : Message) (xs ys : List CondDimRef)
    → AgreeOn c d (xs ++ ys)
    → AgreeOn c d xs × AgreeOn c d ys
AgreeOn-append c d [] ys h = (tt, h)
AgreeOn-append c d (x ∷ xs) ys (h, hs) = let (l, r) = AgreeOn-append c d xs ys hs in ((h, l), r)

walk-connective :
    (f : Str) (es : Exprs)
    → contains connectives f ≡ true
    → walk_dim_refs (call f es) ≡ walk_children es
unfolding walk_dim_refs
walk-connective f es h = rw h

walk-equals :
    (x : ℕ) (xs lit : Str)
    → walk_dim_refs (call (codes "_==_") (cons (dim (x ∷ xs)) (cons (literal lit) nil)))
      ≡ record { name = x ∷ xs; literals = lit ∷ [] } ∷ []
unfolding walk_dim_refs contains ◌=s◌ comparison_refs match_eq_literal ctx_dim_name extract_literal
    or_bare
walk-equals x xs lit = refl

walk-differs :
    (x : ℕ) (xs lit : Str)
    → walk_dim_refs (call (codes "_!=_") (cons (dim (x ∷ xs)) (cons (literal lit) nil)))
      ≡ record { name = x ∷ xs; literals = lit ∷ [] } ∷ []
unfolding walk_dim_refs contains ◌=s◌ comparison_refs match_eq_literal ctx_dim_name extract_literal
    or_bare
walk-differs x xs lit = refl

walk-member :
    (x : ℕ) (xs : Str) (es : Exprs) (lits : List Str)
    → extract_all es ≡ some lits
    → walk_dim_refs (call (codes "@in") (cons (dim (x ∷ xs)) (cons (list es) nil)))
      ≡ record { name = x ∷ xs; literals = lits } ∷ []
unfolding walk_dim_refs contains ◌=s◌ in_refs match_in_literals ctx_dim_name list_literals or_bare
walk-member x xs es lits h = rw h refl

walk-two :
    (f : Str) (a b : Expr)
    → contains connectives f ≡ true
    → walk_dim_refs (call f (cons a (cons b nil))) ≡ walk_dim_refs a ++ (walk_dim_refs b ++ [])
unfolding walk_dim_refs
walk-two f a b h = rw h refl

walk-not : (a : Expr) → walk_dim_refs (call (codes "!_") (cons a nil)) ≡ walk_dim_refs a ++ []
unfolding walk_dim_refs contains ◌=s◌
walk-not a = refl

module _ (cel : Cel) (c d : Message) where
  -- Contexts that compare alike with every literal that the walk records of a filter give it the
  -- same outcome.
  pub filter-recorded :
      (e : Expr) → IsFilter e → AgreeOn c d (walk_dim_refs e) → cel.eval e c ≡ cel.eval e d
  filter-recorded e (equals x xs lit) agree =
      let ((same, _), _) = rw (walk-equals x xs lit) at agree in cel.equality (x ∷ xs) lit c d same
  filter-recorded e (differs x xs lit) agree =
      let ((same, _), _) = rw (walk-differs x xs lit) at agree in
      cel.inequality (x ∷ xs) lit c d same
  filter-recorded e (member x xs es lits h) agree =
      let (same, _) = rw (walk-member x xs es lits h) at agree in
      cel.membership (x ∷ xs) es lits c d h same
  filter-recorded e (both f a b h p q) agree =
      let (left, rest) =
        AgreeOn-append c d (walk_dim_refs a) (walk_dim_refs b ++ [])
          (rw (walk-two f a b h) at agree) in
      let (right, _) = AgreeOn-append c d (walk_dim_refs b) [] rest in
      cel.conjunction f a b c d h (filter-recorded a p left) (filter-recorded b q right)
  filter-recorded e (negated a p) agree =
      let (inner, _) = AgreeOn-append c d (walk_dim_refs a) [] (rw (walk-not a) at agree) in
      cel.negation a c d (filter-recorded a p inner)

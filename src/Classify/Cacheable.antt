-- ===== src/Classify/Cacheable.antt =====
-- A flag whose conditions are the filters that ClassifyDimensions (internal/celenv/classify.go)
-- classified: what the condition cache of internal/evaluator/evaluator.go asks of its state.
use pbflags.Common.{arith, Bool, ◌≡◌, sym, ◌∙◌, List, [], ◌∷◌, Str, Option, none, some, All}
use pbflags.Flag.{FlagValue}
use pbflags.Message.{Message}
use pbflags.Conditions.{CachedCondition}
use pbflags.CondCache.Keys.{SameFields}
use pbflags.CacheStore.{CachedFlagState}
use pbflags.CondCache.Header.{HasNoNul}
use pbflags.Evaluator.Fresh.{IsCovered, IsCacheable}
use pbflags.Classify.{Expr, classify_dim, classify_dimensions}
use pbflags.Classify.Literals.{uses}
use pbflags.Classify.Filters.{Cel, IsFilter}
use pbflags.Classify.Views.{IsPrecise}
use pbflags.Classify.Covered.{InChain, first, later, classify_dimensions-covered}

-- The conditions run the trees of the chain, in order; "otherwise" has no program.
pub data IsCompiled (cel : Cel)
    : List (Option Expr × Option FlagValue) → List CachedCondition → Type 0 where
  empty : IsCompiled cel [] []
  filter :
      (e : Expr) (value : Option FlagValue) (cond : CachedCondition)
      (chain : List (Option Expr × Option FlagValue)) (conds : List CachedCondition)
      → IsFilter e
      → cond.program ≡ some (cel.eval e)
      → IsCompiled cel chain conds
      → IsCompiled cel ((some e, value) ∷ chain) (cond ∷ conds)
  otherwise :
      (value : Option FlagValue) (cond : CachedCondition)
      (chain : List (Option Expr × Option FlagValue)) (conds : List CachedCondition)
      → cond.program ≡ none
      → IsCompiled cel chain conds
      → IsCompiled cel ((none, value) ∷ chain) (cond ∷ conds)

SameFields-trans : (s c d : Message) → SameFields s c → SameFields s d → SameFields c d
SameFields-trans s c d p q name = sym (p name) ∙ q name

module _ (cel : Cel) (shape : Message) (equal : Option FlagValue → Option FlagValue → Bool)
    (bounded : Str → Bool) (whole : List (Option Expr × Option FlagValue))
    (precise : (name : Str) → IsPrecise (classify_dim equal (uses name whole) (bounded name))) where
  conditions-IsCovered :
      (chain : List (Option Expr × Option FlagValue)) (conds : List CachedCondition)
      → ((e : Expr) → InChain e chain → InChain e whole)
      → IsCompiled cel chain conds
      → All (IsCovered shape (classify_dimensions equal whole bounded)) conds
  conditions-IsCovered chain conds within empty = tt
  conditions-IsCovered chain conds within
        (filter e value cond rest conds' is_filter runs compiled) =
      (
        (λ c d p q same program ran.
            let this : cel.eval e ≡ program = cc (sym runs ∙ ran) in
            rw (sym this) (
              classify_dimensions-covered equal bounded whole cel c d e is_filter
                (within e (first value rest)) (SameFields-trans shape c d p q) precise same)),
        conditions-IsCovered rest conds' (λ e' k. within e' (later (some e) value rest k)) compiled,
      )
  conditions-IsCovered chain conds within (otherwise value cond rest conds' runs compiled) = (
    (λ c d p q same program ran. absurd (ground (arith, sym runs ∙ ran))),
    conditions-IsCovered rest conds' (λ e' k. within e' (later none value rest k)) compiled,
  )

  pub chain-IsCacheable :
      (id : Str) (st : CachedFlagState)
      → HasNoNul id
      → st.dim_meta ≡ classify_dimensions equal whole bounded
      → IsCompiled cel whole st.conditions
      → IsCacheable shape id st
  chain-IsCacheable id st no_nul classified compiled = record {
    named = no_nul;
    covered = rw classified (conditions-IsCovered whole st.conditions (λ e k. k) compiled);
  }

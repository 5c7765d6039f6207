-- ===== src/Tests/Clients.antt =====
-- The client library at work.
use pbflags.Common.{◌≡◌, refl, subst, true, false, Option, none, some, List, [], ◌∷◌, Str, codes}
use pbflags.Flag.{FlagValue, EvaluationSource}
use pbflags.Client.{
  Evaluation, Service, ClientEvaluator, Dimension, Override, override_map, with_overrides,
  with_dimensions, evaluate_flag, bulk_evaluate_flags,
}
use pbflags.Client.Bulk.{Answers, Evaluates, Each, IsPointwise, bulk_evaluate_flags-Answers}
use pbflags.Client.Overridden.{under, last_override, with_overrides-under}
use pbflags.Tests.{free, plan, flag}

abbrev answer : Str → Evaluation
answer id = record { value = some (FlagValue.string_value id); source = EvaluationSource.condition }

answers : List Str → List Evaluation
answers [] = []
answers (id ∷ ids) = answer id ∷ answers ids

-- A service that answers each flag with its own id.
abbrev echo : Service
echo = record {
  encode = λ msg. some [];
  evaluate = λ ctx id. some (answer id);
  bulk_evaluate = λ ctx ids. some (answers ids);
}

Each-answer :
    (ctx : Option Str) (ids : List Str)
    → Each (λ id r. echo.evaluate ctx id ≡ some r) ids (answers ids)
unfolding answers
Each-answer ctx [] = tt
Each-answer ctx (id ∷ ids) = (refl, Each-answer ctx ids)

echo-IsPointwise : IsPointwise echo free
echo-IsPointwise = record {
  bulk = λ ctx ids rs h.
      let same : answers ids ≡ rs = cc h in
      subst (Each (λ id r. echo.evaluate ctx id ≡ some r) ids) same (Each-answer ctx ids);
}

abbrev off : Override
off = record { flag_id = flag; value = FlagValue.bool_value false }

abbrev bound : ClientEvaluator
bound = ClientEvaluator.client (Dimension.string_dimension plan (codes "pro") ∷ [])

abbrev tested : ClientEvaluator
tested = ClientEvaluator.overriding (override_map (off ∷ []) []) bound

bulk_evaluate_flags-Answers_example :
    Answers
      (Evaluates echo free tested)
      (codes "a" ∷ flag ∷ codes "b" ∷ [])
      (bulk_evaluate_flags echo free tested (codes "a" ∷ flag ∷ codes "b" ∷ []))
bulk_evaluate_flags-Answers_example =
    bulk_evaluate_flags-Answers echo free tested (codes "a" ∷ flag ∷ codes "b" ∷ [])
      echo-IsPointwise

with_overrides-under_example :
    evaluate_flag echo free
      (with_dimensions (Dimension.bool_dimension (codes "beta") true ∷ []) tested)
      flag
    ≡ under (last_override flag (off ∷ [])) (
        evaluate_flag echo free
          (with_dimensions (Dimension.bool_dimension (codes "beta") true ∷ []) bound)
          flag)
unfolding with_overrides
with_overrides-under_example =
    with_overrides-under echo free bound tested none (off ∷ [])
      (Dimension.bool_dimension (codes "beta") true ∷ []) flag refl

-- ===== src/Conditions/Precedence.antt =====
-- How launches and live overrides are layered on a matched condition
-- (internal/evaluator/conditions.go).
use pbflags.Common.{
  int32, ℕ, suc, ◌≡◌, refl, true, false, Option, none, some, List, [], ◌∷◌, Assoc, ℤ, arith,
}
use pbflags.Flag.{FlagValue}
use pbflags.Message.{Message}
use pbflags.Launch.{CachedLaunch}
use pbflags.Conditions.{
  CachedCondition, Overrides, override_at, build_result, try_condition, eval_chain,
  evaluate_conditions_with_overrides, launch_map,
}

-- Where no launch fires, a live override of the condition's index wins over the compiled value.
pub build_result-override :
    (c : CachedCondition) (i : ℤ) (o : Overrides) (ls : Assoc CachedLaunch) (ctx : Option Message)
    (n : ℕ) (v : FlagValue)
    → override_at i o ≡ some v
    → (build_result c i o ls ctx n).launch_hit ≡ false
    → build_result c i o ls ctx n ≡ record {
      value = some v;
      conditions_checked = n;
      launch_hit = false;
      launch_id = [];
      override_hit = true;
    }
unfolding build_result
build_result-override c i o ls ctx n v found quiet = ground arith

module _ (ctx : Option Message) (o o' : Overrides) (ls : Assoc CachedLaunch) where
  build_result-blind :
      (c : CachedCondition) (i : ℤ) (n : ℕ)
      → (build_result c i o ls ctx n).launch_hit ≡ true
      → build_result c i o' ls ctx n ≡ build_result c i o ls ctx n
  unfolding build_result
  build_result-blind c i n h = ground arith

  eval_chain-blind :
      (conds : List CachedCondition) (i n : ℕ)
      → (eval_chain ctx o ls conds i n).launch_hit ≡ true
      → eval_chain ctx o' ls conds i n ≡ eval_chain ctx o ls conds i n
  unfolding eval_chain
  eval_chain-blind [] i n h = refl
  eval_chain-blind (c ∷ cs) i n h = ground (
    arith,
    build_result-blind c (int32 i) (try_condition c.program ctx n).1,
    eval_chain-blind cs (suc i) (try_condition c.program ctx n).1,
  )

-- A result that comes from a launch is the same whatever the overrides are.
pub evaluate-launch_blind :
    (conds : List CachedCondition) (ctx : Option Message) (o o' : Overrides)
    (ls : List CachedLaunch)
    → (evaluate_conditions_with_overrides conds ctx o ls).launch_hit ≡ true
    → evaluate_conditions_with_overrides conds ctx o' ls
      ≡ evaluate_conditions_with_overrides conds ctx o ls
unfolding evaluate_conditions_with_overrides
evaluate-launch_blind conds ctx o o' ls h = eval_chain-blind ctx o o' (launch_map ls []) conds 0 0 h

build_result-no_context :
    (c : CachedCondition) (i : ℤ) (o : Overrides) (ls : Assoc CachedLaunch) (n : ℕ)
    → ((build_result c i o ls none n).launch_hit ≡ false)
      × ((build_result c i o ls none n).conditions_checked ≡ n)
unfolding build_result
build_result-no_context c i o ls n = ground arith

-- Without a context no launch fires and no program is run.
pub eval_chain-no_context :
    (o : Overrides) (ls : Assoc CachedLaunch) (conds : List CachedCondition) (i n : ℕ)
    → ((eval_chain none o ls conds i n).launch_hit ≡ false)
      × ((eval_chain none o ls conds i n).conditions_checked ≡ n)
unfolding eval_chain
eval_chain-no_context o ls [] i n = (refl, refl)
eval_chain-no_context o ls (c ∷ cs) i n =
    ground
      (arith, eval_chain-no_context o ls cs (suc i) n, build_result-no_context c (int32 i) o ls n)

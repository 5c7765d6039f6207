-- ===== src/Evaluator/Counters.antt =====
-- internal/evaluator/metrics.go: the counters that an evaluation moves.
use pbflags.Common.{ℕ, ◌+◌}
use pbflags.Flag.{EvaluationSource}

pub record Metrics : Type 0 where
  pub eval_default : ℕ
  pub eval_killed : ℕ
  pub eval_condition : ℕ
  pub eval_condition_override : ℕ
  pub eval_launch : ℕ
  pub eval_cached : ℕ
  pub eval_stale : ℕ
  pub cache_hit_kill_set : ℕ
  pub cache_hit_flags : ℕ
  pub cache_hit_conditions : ℕ
  pub cache_miss_flags : ℕ
  pub cache_miss_conditions : ℕ
  pub bg_refresh_ok : ℕ
  pub bg_refresh_err : ℕ

-- incEval
unfoldable pub inc_eval : EvaluationSource → Metrics → Metrics
inc_eval EvaluationSource.killed m = record m { eval_killed = m.eval_killed + 1 }
inc_eval EvaluationSource.condition m = record m { eval_condition = m.eval_condition + 1 }
inc_eval EvaluationSource.condition_override m = record m {
  eval_condition_override = m.eval_condition_override + 1;
}
inc_eval EvaluationSource.launch m = record m { eval_launch = m.eval_launch + 1 }
inc_eval EvaluationSource.cached m = record m { eval_cached = m.eval_cached + 1 }
inc_eval EvaluationSource.stale m = record m { eval_stale = m.eval_stale + 1 }
inc_eval _ m = record m { eval_default = m.eval_default + 1 }

-- All evaluations that were counted, whatever their source.
unfoldable pub evaluations : Metrics → ℕ
evaluations m =
    m.eval_default + m.eval_killed + m.eval_condition + m.eval_condition_override + m.eval_launch
    + m.eval_cached + m.eval_stale

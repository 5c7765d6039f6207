-- ===== src/Evaluator/Sources.antt =====
-- Which sources EvaluateWithContext and Evaluate (internal/evaluator/evaluator.go) answer with, and
-- that each evaluation is counted once.
use pbflags.Common.{
  ap, ◌&&◌, is_empty, not, Bool-cases, ℕ, ◌+◌, ◌≡◌, refl, ◌⊎◌, inl, inr, Bool, true, false, Option,
  none, some, Str, arith, ◌↔◌,
}
use pbflags.Flag.{EvaluationSource, FlagValue}
use pbflags.Message.{Message}
use pbflags.CondCache.{CondCacheEntry}
use pbflags.CacheStore
use pbflags.CacheStore.{CachedFlagState, is_killed}
use pbflags.Ristretto.{Ristretto}
use pbflags.Evaluator.Counters.{Metrics, inc_eval, evaluations}
use pbflags.Resolution.{
  count, FetchResult, fetch_error, fetched, World, Answer, Evaluator, eval_flag_state,
  eval_flag_state_with_source, resolve_fetch, resolve_stale, resolve_hot, resolve_global_with_state,
}
use pbflags.Evaluator.{
  chain_result, killed_answer, cache_key, undecided, answer, use_cond_cache, answer, EvalResult,
  found_verdict, Verdict, run_chain, try_cache, from_entry, evaluate_with_context, after_resolve,
  cond_phase, conditions_of, conclude,
}

-- The state of a flag yields no value and no label, archived, killed or stale as it may be.
eval_flag_state_with_source-default :
    (state : Option CachedFlagState) (label : EvaluationSource)
    → eval_flag_state_with_source state label ≡ (none, EvaluationSource.default)
unfolding eval_flag_state_with_source
eval_flag_state_with_source-default state label = ground arith

module _ (r : Ristretto CachedFlagState) (q : Ristretto CondCacheEntry) where
  resolve_fetch-default :
      (w : World) (f : FetchResult) (e : Evaluator r q)
      → (resolve_fetch r q w f e).0.1 ≡ (none, EvaluationSource.default)
  unfolding resolve_fetch eval_flag_state
  resolve_fetch-default w fetch_error e = refl
  resolve_fetch-default w (fetched s) e =
      eval_flag_state_with_source-default s EvaluationSource.global

  resolve_stale-default :
      (w : World) (id : Str) (s : Option CachedFlagState) (e : Evaluator r q)
      → (resolve_stale r q w id s e).0.1 ≡ (none, EvaluationSource.default)
  unfolding resolve_stale
  resolve_stale-default w id none e = resolve_fetch-default w (w.fetch id) e
  resolve_stale-default w id (some s) e =
      eval_flag_state_with_source-default (some s) EvaluationSource.stale

  resolve_hot-default :
      (w : World) (id : Str) (s : Option CachedFlagState) (e : Evaluator r q)
      → (resolve_hot r q w id s e).0.1 ≡ (none, EvaluationSource.default)
  unfolding resolve_hot eval_flag_state
  resolve_hot-default w id none e = resolve_stale-default w id _ _
  resolve_hot-default w id (some s) e =
      eval_flag_state_with_source-default (some s) EvaluationSource.global

  pub resolve-default :
      (w : World) (id : Str) (e : Evaluator r q)
      → (resolve_global_with_state r q w id e).0.1 ≡ (none, EvaluationSource.default)
  unfolding resolve_global_with_state
  resolve-default w id e = resolve_hot-default w id _ e

  resolve-evaluations :
      (w : World) (id : Str) (e : Evaluator r q)
      → evaluations (resolve_global_with_state r q w id e).1.metrics ≡ evaluations e.metrics
  unfolding resolve_global_with_state evaluations
  resolve-evaluations w id e = ground arith

  -- The labels of the condition phase.
  abbrev pub is_chain_source : EvaluationSource → Bool
  is_chain_source EvaluationSource.cached = true
  is_chain_source EvaluationSource.launch = true
  is_chain_source EvaluationSource.condition = true
  is_chain_source EvaluationSource.condition_override = true
  is_chain_source _ = false

  -- An answer of the condition phase is counted once, and no answer is not counted.
  abbrev Counted : Metrics → Verdict × Evaluator r q → Type 0
  Counted m (answer v src, e') =
      (is_chain_source src ≡ true) × (evaluations e'.metrics ≡ evaluations m + 1)
  Counted m (undecided, e') = evaluations e'.metrics ≡ evaluations m

  found_verdict-Counted :
      (res : EvalResult) (v : Option FlagValue) (e : Evaluator r q)
      → Counted e.metrics (found_verdict r q res v e)
  unfolding found_verdict evaluations inc_eval
  found_verdict-Counted res none e = refl
  found_verdict-Counted res (some v) e = ground arith

  run_chain-Counted :
      (on : Bool) (key : Str) (s : CachedFlagState) (ctx : Option Message) (e : Evaluator r q)
      → Counted e.metrics (run_chain r q on key s ctx e)
  unfolding run_chain
  run_chain-Counted on key s ctx e = found_verdict-Counted (chain_result s ctx) _ _

  from_entry-Counted :
      (entry : CondCacheEntry) (e : Evaluator r q) → Counted e.metrics (from_entry r q entry e)
  unfolding from_entry evaluations
  from_entry-Counted entry e = elim (Bool-cases entry.no_match) [
    | inl none_matched ↦ rw none_matched
    | inr matched ↦ rw matched (refl, omega arith)
  ]

  try_cache-Counted :
      (o : Option CondCacheEntry) (key : Str) (s : CachedFlagState) (ctx : Option Message)
      (e : Evaluator r q)
      → Counted e.metrics (try_cache r q o key s ctx e)
  unfolding try_cache evaluations
  try_cache-Counted none key s ctx e =
      run_chain-Counted true key s ctx
        (count r q (λ m. record m { cache_miss_conditions = m.cache_miss_conditions + 1 }) e)
  try_cache-Counted (some entry) key s ctx e =
      from_entry-Counted entry
        (count r q (λ m. record m { cache_hit_conditions = m.cache_hit_conditions + 1 }) e)

  cond_phase-Counted :
      (id : Str) (s : CachedFlagState) (ctx : Option Message) (e : Evaluator r q)
      → Counted e.metrics (cond_phase r q id s ctx e)
  unfolding cond_phase
  cond_phase-Counted id s ctx e = elim (Bool-cases (use_cond_cache r q s e)) [
    | inl on ↦ rw on (try_cache-Counted _ (cache_key r q id s ctx e) s ctx e)
    | inr off ↦ rw off (run_chain-Counted false (cache_key r q id s ctx e) s ctx e)
  ]

  conditions_of-Counted :
      (id : Str) (s : Option CachedFlagState) (ctx : Option Message) (e : Evaluator r q)
      → Counted e.metrics (conditions_of r q id s ctx e)
  unfolding conditions_of
  conditions_of-Counted id none ctx e = refl
  conditions_of-Counted id (some s) ctx e =
      elim (Bool-cases (not (is_empty s.conditions) && e.has_cond_eval)) [
        | inl on ↦ rw on (cond_phase-Counted id s ctx e)
        | inr off ↦ rw off
      ]

  -- The labels that EvaluateWithContext answers with where no kill applies.
  abbrev pub is_live_source : EvaluationSource → Bool
  is_live_source EvaluationSource.default = true
  is_live_source src = is_chain_source src

  abbrev Settled : ℕ → Answer × Evaluator r q → Type 0
  Settled n (ans, e') = (is_live_source ans.1 ≡ true) × (evaluations e'.metrics ≡ n + 1)

  conclude-Settled :
      (s : Option CachedFlagState) (v : Verdict × Evaluator r q) (m : Metrics)
      → Counted m v
      → Settled (evaluations m) (conclude r q s (none, EvaluationSource.default) v.0 v.1)
  unfolding conclude evaluations inc_eval
  conclude-Settled s (answer v src, e') m h = ground arith
  conclude-Settled s (undecided, e') m h = ground arith

  after_resolve-Settled :
      (id : Str) (ctx : Option Message) (s : Option CachedFlagState) (ans : Answer)
      (e : Evaluator r q)
      → ans ≡ (none, EvaluationSource.default)
      → Settled (evaluations e.metrics) (after_resolve r q id ctx (s, ans) e)
  unfolding after_resolve
  after_resolve-Settled id ctx s ans e h = rw h (
      conclude-Settled s (conditions_of r q id s ctx e) e.metrics
        (conditions_of-Counted id s ctx e))

  live-Settled :
      (w : World) (id : Str) (ctx : Option Message) (e : Evaluator r q)
      → is_killed (CacheStore.get_kill_set r e.cache) id ≡ false
      → Settled (evaluations e.metrics) (evaluate_with_context r q w id ctx e)
  unfolding evaluate_with_context
  live-Settled w id ctx e h =
      let found = resolve_global_with_state r q w id e in
      rw (h, ← resolve-evaluations w id e)
        (after_resolve-Settled id ctx found.0.0 found.0.1 found.1 (resolve-default w id e))

  dead-run :
      (w : World) (id : Str) (ctx : Option Message) (e : Evaluator r q)
      → is_killed (CacheStore.get_kill_set r e.cache) id ≡ true
      → evaluate_with_context r q w id ctx e ≡ killed_answer r q e
  unfolding evaluate_with_context
  dead-run w id ctx e h = rw h

  killed_answer-counted :
      (e : Evaluator r q)
      → ((killed_answer r q e).0 ≡ (none, EvaluationSource.killed))
        × (evaluations (killed_answer r q e).1.metrics ≡ evaluations e.metrics + 1)
  unfolding killed_answer evaluations
  killed_answer-counted e = (refl, omega arith)

  -- EvaluateWithContext answers KILLED exactly for the flags of the kill set, and then with no value.
  -- The inline kill check and the state of the flag have no part in it.
  pub evaluate_with_context-killed :
      (w : World) (id : Str) (ctx : Option Message) (e : Evaluator r q)
      → (evaluate_with_context r q w id ctx e).0 ≡ (none, EvaluationSource.killed)
        ↔ (is_killed (CacheStore.get_kill_set r e.cache) id ≡ true)
  evaluate_with_context-killed w id ctx e = (
    λ h. elim (Bool-cases (is_killed (CacheStore.get_kill_set r e.cache) id)) [
      | inl dead ↦ dead
      | inr alive ↦ absurd (ground (arith, h, (live-Settled w id ctx e alive).0))
    ],
    λ dead. rw (dead-run w id ctx e dead) (killed_answer-counted e).0,
  )

  -- Each call of EvaluateWithContext moves the evaluation counters by one, and its source is KILLED
  -- or one of DEFAULT, CACHED, LAUNCH, CONDITION and CONDITION_OVERRIDE.
  pub evaluate_with_context-counted :
      (w : World) (id : Str) (ctx : Option Message) (e : Evaluator r q)
      → (((evaluate_with_context r q w id ctx e).0.1 ≡ EvaluationSource.killed)
          ⊎ (is_live_source (evaluate_with_context r q w id ctx e).0.1 ≡ true))
        × (evaluations (evaluate_with_context r q w id ctx e).1.metrics ≡ evaluations e.metrics + 1)
  evaluate_with_context-counted w id ctx e =
      elim (Bool-cases (is_killed (CacheStore.get_kill_set r e.cache) id)) [
        | inl dead ↦
            let (ans, counted) = killed_answer-counted e in
            rw (dead-run w id ctx e dead) (inl (ap (λ (a : Answer). a.1) ans), counted)
        | inr alive ↦ let (live, counted) = live-Settled w id ctx e alive in (inr live, counted)
      ]

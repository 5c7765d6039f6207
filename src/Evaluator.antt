-- ===== src/Evaluator.antt =====
-- internal/evaluator/evaluator.go: the evaluation of a flag, from the kill set to the conditions, on
-- the state and the resolution of Resolution. The caches are those of CacheStore and CondCache. Debug
-- logs are left out.
pub mod Counters
pub mod Sources
pub mod Resolve
pub mod Frame
pub mod Origin
pub mod Steps
pub mod Coherence
pub mod Kept
pub mod Reached
pub mod Fresh
pub mod Transparent
use pbflags.Common.{
  ℕ, ◌+◌, Bool, true, false, ◌&&◌, ◌||◌, not, Option, none, some, List, [], ◌∷◌, Str, ℤ, contains,
  is_empty, if◌then◌else◌, ◌=s◌, is_some,
}
use pbflags.Flag.{FlagValue, State, EvaluationSource}
use pbflags.Message.{Message}
use pbflags.Conditions.{EvalResult, evaluate_conditions_with_overrides}
use pbflags.CondCache.{CondCacheEntry, ConditionCache, build_cache_key}
use pbflags.CondCache
use pbflags.CacheStore.{CachedFlagState, CacheStore, is_killed}
use pbflags.CacheStore
use pbflags.Ristretto.{Ristretto}
use pbflags.Evaluator.Counters.{Metrics, inc_eval}
use pbflags.Resolution.{
  Answer, Evaluator, FetchResult, World, background_refresh_flag, complete_refresh, count, dropped,
  eval_flag_state, eval_flag_state_with_source, fetch_error, fetched, invalidate, is_killed_state,
  refreshed, resolve_fetch, resolve_global, resolve_global_with_state, resolve_hot, resolve_stale,
  set_flag_state, store_fetched,
}

-- What the condition phase decides: an answer, or to go on to the static default.
pub data Verdict : Type 0 where
  answer : Option FlagValue → EvaluationSource → Verdict
  undecided : Verdict

-- The chain of a state, its overrides and launches, in a context.
unfoldable pub chain_result : CachedFlagState → Option Message → EvalResult
chain_result state eval_ctx =
    evaluate_conditions_with_overrides state.conditions eval_ctx state.condition_overrides
      state.launches

module _ (r : Ristretto CachedFlagState) (q : Ristretto CondCacheEntry) where
  -- applyStaticDefaultOverride
  unfoldable pub static_override : Option CachedFlagState → Option FlagValue
  static_override none = none
  static_override (some state) = state.static_default_override

  unfoldable pub static_answer : Option FlagValue → Answer → Evaluator r q → Answer × Evaluator r q
  static_answer (some v) (val, src) e = (
    (some v, EvaluationSource.condition_override),
    count r q (λ m. record m { eval_condition_override = m.eval_condition_override + 1 }) e,
  )
  static_answer none (val, src) e = ((val, src), count r q (inc_eval src) e)

  unfoldable pub apply_static_default_override :
      Option CachedFlagState → Answer → Evaluator r q → Answer × Evaluator r q
  unfolding static_override static_answer
  apply_static_default_override state ans e = static_answer (static_override state) ans e

  -- The condition cache is left alone where live overrides are present.
  unfoldable pub use_cond_cache : CachedFlagState → Evaluator r q → Bool
  use_cond_cache state e = is_some e.cond_cache && is_empty state.condition_overrides

  unfoldable pub version_of : Str → Option (ConditionCache q) → ℕ
  version_of flag_id none = 0
  version_of flag_id (some c) = CondCache.flag_version q flag_id c

  unfoldable pub cache_key : Str → CachedFlagState → Option Message → Evaluator r q → Str
  unfolding version_of
  cache_key flag_id state eval_ctx e =
      build_cache_key flag_id (version_of flag_id e.cond_cache) state.dim_meta eval_ctx
        state.launches

  unfoldable pub cached_entry : Str → Option (ConditionCache q) → Option CondCacheEntry
  cached_entry key none = none
  cached_entry key (some c) = CondCache.get q key c

  unfoldable pub remember :
      Str → Option FlagValue → Option (ConditionCache q) → Option (ConditionCache q)
  remember key val none = none
  remember key (some v) (some c) = some (CondCache.set q key (some v) c)
  remember key none (some c) = some (CondCache.set_no_match q key c)

  -- The source of a value that the chain yields, and its counter.
  unfoldable pub hit_source : EvalResult → EvaluationSource
  hit_source res =
      if res.launch_hit
      then EvaluationSource.launch
      else if res.override_hit
      then EvaluationSource.condition_override
      else EvaluationSource.condition

  unfoldable pub found_verdict :
      EvalResult → Option FlagValue → Evaluator r q → Verdict × Evaluator r q
  unfolding hit_source
  found_verdict res none e = (undecided, e)
  found_verdict res (some v) e =
      let src = hit_source res in (answer (some v) src, count r q (inc_eval src) e)

  -- A miss of the condition cache, or no use of it: evaluate the chain and remember the result.
  unfoldable pub run_chain :
      Bool → Str → CachedFlagState → Option Message → Evaluator r q → Verdict × Evaluator r q
  unfolding remember found_verdict
  run_chain use_cache key state eval_ctx e =
      let res = chain_result state eval_ctx in
      found_verdict res res.value (record e {
        cond_cache = if use_cache then remember key res.value e.cond_cache else e.cond_cache;
      })

  -- What a cached entry says: "no match" goes on to the static default.
  unfoldable pub from_entry : CondCacheEntry → Evaluator r q → Verdict × Evaluator r q
  from_entry entry e = if entry.no_match then (undecided, e) else (
    answer entry.value EvaluationSource.cached,
    count r q (λ m. record m { eval_cached = m.eval_cached + 1 }) e,
  )

  unfoldable pub try_cache :
      Option CondCacheEntry
      → Str
      → CachedFlagState
      → Option Message
      → Evaluator r q
      → Verdict × Evaluator r q
  unfolding from_entry run_chain
  try_cache (some entry) key state eval_ctx e =
      from_entry entry
        (count r q (λ m. record m { cache_hit_conditions = m.cache_hit_conditions + 1 }) e)
  try_cache none key state eval_ctx e =
      run_chain true key state eval_ctx
        (count r q (λ m. record m { cache_miss_conditions = m.cache_miss_conditions + 1 }) e)

  -- Step 3 of EvaluateWithContext, for a state with conditions.
  unfoldable pub cond_phase :
      Str → CachedFlagState → Option Message → Evaluator r q → Verdict × Evaluator r q
  unfolding use_cond_cache cache_key cached_entry try_cache
  cond_phase flag_id state eval_ctx e =
      let key = cache_key flag_id state eval_ctx e in
      if use_cond_cache state e
      then try_cache (cached_entry key e.cond_cache) key state eval_ctx e
      else run_chain false key state eval_ctx e

  -- The guard of step 3: `state != nil && len(state.Conditions) > 0 && e.condEval != nil`.
  unfoldable pub conditions_of :
      Str → Option CachedFlagState → Option Message → Evaluator r q → Verdict × Evaluator r q
  unfolding cond_phase
  conditions_of flag_id none eval_ctx e = (undecided, e)
  conditions_of flag_id (some state) eval_ctx e =
      if not (is_empty state.conditions) && e.has_cond_eval
      then cond_phase flag_id state eval_ctx e
      else (undecided, e)

  unfoldable pub conclude :
      Option CachedFlagState → Answer → Verdict → Evaluator r q → Answer × Evaluator r q
  unfolding apply_static_default_override
  conclude state ans (answer v src) e = ((v, src), e)
  conclude state ans undecided e = apply_static_default_override state ans e

  abbrev pub is_terminal : EvaluationSource → Bool
  is_terminal EvaluationSource.killed = true
  is_terminal EvaluationSource.archived = true
  is_terminal _ = false

  -- What follows resolveGlobalWithState in EvaluateWithContext.
  unfoldable pub after_resolve :
      Str
      → Option Message
      → (Option CachedFlagState × Answer)
      → Evaluator r q
      → Answer × Evaluator r q
  unfolding conditions_of conclude
  after_resolve flag_id eval_ctx (state, ans) e =
      if is_terminal ans.1
      then (ans, count r q (inc_eval ans.1) e)
      else let (verdict, e') = conditions_of flag_id state eval_ctx e in
        conclude state ans verdict e'

  unfoldable pub killed_answer : Evaluator r q → Answer × Evaluator r q
  killed_answer e = (
    (none, EvaluationSource.killed),
    count r q
        (λ m. record m {
          cache_hit_kill_set = m.cache_hit_kill_set + 1;
          eval_killed = m.eval_killed + 1;
        })
        e,
  )

  -- EvaluateWithContext
  unfoldable pub evaluate_with_context :
      World → Str → Option Message → Evaluator r q → Answer × Evaluator r q
  unfolding resolve_global_with_state after_resolve killed_answer
  evaluate_with_context w flag_id eval_ctx e =
      if is_killed (CacheStore.get_kill_set r e.cache) flag_id
      then killed_answer e
      else let (found, e') = resolve_global_with_state r q w flag_id e in
        after_resolve flag_id eval_ctx found e'

  -- The inline kill check of Evaluate: the state that is fetched, unless the fetch fails or finds
  -- no flag.
  unfoldable pub prefetched : World → Str → Evaluator r q → Option CachedFlagState
  prefetched w flag_id e =
      if e.inline_kill_check
      then elim (w.fetch flag_id) [ fetch_error ↦ none | fetched state ↦ state ]
      else none

  unfoldable pub evaluate_prefetched :
      World → Str → Option CachedFlagState → Evaluator r q → Answer × Evaluator r q
  unfolding set_flag_state resolve_global
  evaluate_prefetched w flag_id (some state) e =
      let e' = set_flag_state r q w state e in
      let ans = eval_flag_state (some state) in
      if is_killed_state state.state
      then ((none, EvaluationSource.killed), count r q (inc_eval EvaluationSource.killed) e')
      else (ans, count r q (inc_eval ans.1) e')
  evaluate_prefetched w flag_id none e =
      let (ans, e') = resolve_global r q w flag_id e in (ans, count r q (inc_eval ans.1) e')

  -- Evaluate
  unfoldable pub evaluate : World → Str → Evaluator r q → Answer × Evaluator r q
  unfolding killed_answer prefetched evaluate_prefetched
  evaluate w flag_id e =
      if is_killed (CacheStore.get_kill_set r e.cache) flag_id
      then killed_answer e
      else evaluate_prefetched w flag_id (prefetched w flag_id e) e

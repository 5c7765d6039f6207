-- ===== src/Resolution.antt =====
-- internal/evaluator/evaluator.go: the state of an evaluator, and the resolution of a flag's state
-- through the hot cache, the stale map and a fetch. The fetcher's answer and the random jitter of one
-- call come in as its environment; the goroutine of a background refresh is a flag id in
-- `refreshing`, which `complete_refresh` takes out when its fetch ends.
use pbflags.Common.{
  ◌+◌, Bool, true, false, Option, none, some, List, [], ◌∷◌, Str, ℤ, contains, is_empty,
  if◌then◌else◌, ◌=s◌,
}
use pbflags.Flag.{FlagValue, State, EvaluationSource}
use pbflags.CondCache.{CondCacheEntry, ConditionCache, build_cache_key}
use pbflags.CondCache
use pbflags.CacheStore.{CachedFlagState, CacheStore, is_killed}
use pbflags.CacheStore
use pbflags.Ristretto.{Ristretto}
use pbflags.Evaluator.Counters.{Metrics}

pub data FetchResult : Type 0 where
  fetch_error : FetchResult
  fetched : Option CachedFlagState → FetchResult

-- What the world answers during one call.
pub record World : Type 0 where
  pub fetch : Str → FetchResult
  pub jitter : ℤ

abbrev pub Answer : Type 0
Answer = Option FlagValue × EvaluationSource

-- `state.State == STATE_KILLED`
abbrev pub is_killed_state : State → Bool
is_killed_state State.killed = true
is_killed_state _ = false

-- evalFlagStateWithSource: the source label is ignored, and every branch returns the default.
unfoldable pub eval_flag_state_with_source : Option CachedFlagState → EvaluationSource → Answer
eval_flag_state_with_source none label = (none, EvaluationSource.default)
eval_flag_state_with_source (some state) label =
    if state.archived
    then (none, EvaluationSource.default)
    else if is_killed_state state.state
    then (none, EvaluationSource.default)
    else (none, EvaluationSource.default)

-- evalFlagState
unfoldable pub eval_flag_state : Option CachedFlagState → Answer
unfolding eval_flag_state_with_source
eval_flag_state state = eval_flag_state_with_source state EvaluationSource.global

module _ (r : Ristretto CachedFlagState) (q : Ristretto CondCacheEntry) where
  pub record Evaluator : Type 0 where
    pub cache : CacheStore r
    pub cond_cache : Option (ConditionCache q)
    -- `condEval != nil`
    pub has_cond_eval : Bool
    pub inline_kill_check : Bool
    pub metrics : Metrics
    pub refreshing : List Str

  -- setFlagState: a state with conditions also bumps the flag's version.
  unfoldable pub invalidate :
      CachedFlagState → Option (ConditionCache q) → Option (ConditionCache q)
  invalidate state none = none
  invalidate state (some c) =
      if is_empty state.conditions
      then some c
      else some (CondCache.invalidate_flag q state.flag_id c)

  unfoldable pub set_flag_state : World → CachedFlagState → Evaluator → Evaluator
  unfolding invalidate
  set_flag_state w state e = record e {
    cache = CacheStore.set_flag_state r state w.jitter e.cache;
    cond_cache = invalidate state e.cond_cache;
  }

  -- What a fetch that succeeded leaves behind.
  unfoldable pub store_fetched : World → Option CachedFlagState → Evaluator → Evaluator
  unfolding set_flag_state
  store_fetched w none e = e
  store_fetched w (some state) e = set_flag_state w state e

  abbrev pub count : (Metrics → Metrics) → Evaluator → Evaluator
  count f e = record e { metrics = f e.metrics }

  -- backgroundRefreshFlag: the flight group starts no second fetch for a flag in flight.
  unfoldable pub background_refresh_flag : Str → Evaluator → Evaluator
  background_refresh_flag flag_id e =
      if contains e.refreshing flag_id then e else record e { refreshing = flag_id ∷ e.refreshing }

  abbrev pub dropped : Str → List Str → List Str
  dropped id [] = []
  dropped id (x ∷ xs) = let rest = dropped id xs in if x =s id then rest else x ∷ rest

  -- The function that backgroundRefreshFlag hands to the flight group, at its end.
  unfoldable pub refreshed : World → FetchResult → Evaluator → Evaluator
  unfolding store_fetched
  refreshed w fetch_error e = count (λ m. record m { bg_refresh_err = m.bg_refresh_err + 1 }) e
  refreshed w (fetched state) e =
      count (λ m. record m { bg_refresh_ok = m.bg_refresh_ok + 1 }) (store_fetched w state e)

  unfoldable pub complete_refresh : World → Str → Evaluator → Evaluator
  unfolding refreshed
  complete_refresh w flag_id e =
      if contains e.refreshing flag_id
      then refreshed w (w.fetch flag_id) (record e { refreshing = dropped flag_id e.refreshing })
      else e

  -- The fetch at the end of resolveGlobalWithState.
  unfoldable pub resolve_fetch :
      World → FetchResult → Evaluator → (Option CachedFlagState × Answer) × Evaluator
  unfolding store_fetched
  resolve_fetch w fetch_error e = ((none, (none, EvaluationSource.default)), e)
  resolve_fetch w (fetched state) e = ((state, eval_flag_state state), store_fetched w state e)

  unfoldable pub resolve_stale :
      World
      → Str
      → Option CachedFlagState
      → Evaluator
      → (Option CachedFlagState × Answer) × Evaluator
  unfolding background_refresh_flag resolve_fetch
  resolve_stale w flag_id (some stale) e = (
    (some stale, eval_flag_state_with_source (some stale) EvaluationSource.stale),
    background_refresh_flag flag_id e,
  )
  resolve_stale w flag_id none e = resolve_fetch w (w.fetch flag_id) e

  unfoldable pub resolve_hot :
      World
      → Str
      → Option CachedFlagState
      → Evaluator
      → (Option CachedFlagState × Answer) × Evaluator
  unfolding resolve_stale
  resolve_hot w flag_id (some state) e = (
    (some state, eval_flag_state (some state)),
    count (λ m. record m { cache_hit_flags = m.cache_hit_flags + 1 }) e,
  )
  resolve_hot w flag_id none e =
      resolve_stale w flag_id (CacheStore.get_stale_flag_state r flag_id e.cache)
        (count (λ m. record m { cache_miss_flags = m.cache_miss_flags + 1 }) e)

  -- resolveGlobalWithState
  unfoldable pub resolve_global_with_state :
      World → Str → Evaluator → (Option CachedFlagState × Answer) × Evaluator
  unfolding resolve_hot
  resolve_global_with_state w flag_id e =
      resolve_hot w flag_id (CacheStore.get_flag_state r flag_id e.cache) e

  -- resolveGlobal
  unfoldable pub resolve_global : World → Str → Evaluator → Answer × Evaluator
  unfolding resolve_global_with_state
  resolve_global w flag_id e =
      let (found, e') = resolve_global_with_state w flag_id e in (found.1, e')

-- ===== src/Evaluator/Frame.antt =====
-- What the phases of an evaluation (internal/evaluator/evaluator.go) leave alone, and that each
-- operation keeps a trusted evaluator.
use pbflags.Common.{
  contains, ◌+◌, ◌≡◌, refl, Bool, true, false, Option, none, some, Str, Bool-cases, inl, inr, arith,
}
use pbflags.Conditions.{EvalResult}
use pbflags.Flag.{FlagValue}
use pbflags.Message.{Message}
use pbflags.CacheStore
use pbflags.CacheStore.{CachedFlagState, is_killed}
use pbflags.CondCache.{CondCacheEntry}
use pbflags.Ristretto.{Ristretto}
use pbflags.Resolution.{
  dropped, store_fetched, set_flag_state, count, FetchResult, fetch_error, fetched, World, Answer,
  Evaluator, complete_refresh, refreshed, resolve_global_with_state, resolve_global,
}
use pbflags.Evaluator.{
  cache_key, use_cond_cache, chain_result, Verdict, answer, undecided, found_verdict, run_chain,
  from_entry, try_cache, cond_phase, conditions_of, conclude, after_resolve, evaluate_with_context,
  evaluate, evaluate_prefetched, prefetched,
}
use pbflags.Evaluator.Resolve.{
  Own, IsHonest, IsTrusted, IsTrusted-same_cache, resolve-IsResolved, set_flag_state-IsTrusted,
  store_fetched-IsTrusted,
}

module _ (r : Ristretto CachedFlagState) (q : Ristretto CondCacheEntry) where
  found_verdict-cache :
      (res : EvalResult) (v : Option FlagValue) (e : Evaluator r q)
      → (found_verdict r q res v e).1.cache ≡ e.cache
  unfolding found_verdict
  found_verdict-cache res none e = refl
  found_verdict-cache res (some v) e = refl

  run_chain-cache :
      (on : Bool) (key : Str) (s : CachedFlagState) (ctx : Option Message) (e : Evaluator r q)
      → (run_chain r q on key s ctx e).1.cache ≡ e.cache
  unfolding run_chain
  run_chain-cache on key s ctx e = found_verdict-cache (chain_result s ctx) _ _

  try_cache-cache :
      (o : Option CondCacheEntry) (key : Str) (s : CachedFlagState) (ctx : Option Message)
      (e : Evaluator r q)
      → (try_cache r q o key s ctx e).1.cache ≡ e.cache
  unfolding try_cache
  try_cache-cache none key s ctx e =
      run_chain-cache true key s ctx
        (count r q (λ m. record m { cache_miss_conditions = m.cache_miss_conditions + 1 }) e)
  try_cache-cache (some entry) key s ctx e = unfold from_entry in ground arith

  cond_phase-cache :
      (id : Str) (s : CachedFlagState) (ctx : Option Message) (e : Evaluator r q)
      → (cond_phase r q id s ctx e).1.cache ≡ e.cache
  unfolding cond_phase
  cond_phase-cache id s ctx e = elim (Bool-cases (use_cond_cache r q s e)) [
    | inl on ↦ rw on (try_cache-cache _ (cache_key r q id s ctx e) s ctx e)
    | inr off ↦ rw off (run_chain-cache false (cache_key r q id s ctx e) s ctx e)
  ]

  conditions_of-cache :
      (id : Str) (s : Option CachedFlagState) (ctx : Option Message) (e : Evaluator r q)
      → (conditions_of r q id s ctx e).1.cache ≡ e.cache
  unfolding conditions_of
  conditions_of-cache id none ctx e = refl
  conditions_of-cache id (some s) ctx e = ground (arith, cond_phase-cache id s ctx e)

  conclude-cache :
      (s : Option CachedFlagState) (ans : Answer) (v : Verdict) (e : Evaluator r q)
      → (conclude r q s ans v e).1.cache ≡ e.cache
  unfolding conclude
  conclude-cache s ans (answer v src) e = refl
  conclude-cache s ans undecided e = ground arith

  pub after_resolve-cache :
      (id : Str) (ctx : Option Message) (s : Option CachedFlagState) (ans : Answer)
      (e : Evaluator r q)
      → (after_resolve r q id ctx (s, ans) e).1.cache ≡ e.cache
  unfolding after_resolve
  after_resolve-cache id ctx s ans e = ground (
    arith,
    conclude-cache s ans (conditions_of r q id s ctx e).0 (conditions_of r q id s ctx e).1,
    conditions_of-cache id s ctx e,
  )

  module _ (P : Str → CachedFlagState → Type 0) where
    resolved-IsTrusted :
        (w : World) (id : Str) (e : Evaluator r q)
        → IsHonest P w
        → IsTrusted r q P e
        → IsTrusted r q P (resolve_global_with_state r q w id e).1
    resolved-IsTrusted w id e h g = (resolve-IsResolved r q P w id e h g).after

    pub evaluate_with_context-IsTrusted :
        (w : World) (id : Str) (ctx : Option Message) (e : Evaluator r q)
        → IsHonest P w
        → IsTrusted r q P e
        → IsTrusted r q P (evaluate_with_context r q w id ctx e).1
    unfolding evaluate_with_context
    evaluate_with_context-IsTrusted w id ctx e h g =
        elim (Bool-cases (is_killed (CacheStore.get_kill_set r e.cache) id)) [
          | inl dead ↦ rw dead (IsTrusted-same_cache r q P e _ refl g)
          | inr alive ↦
              let found = resolve_global_with_state r q w id e in
              rw alive (
                IsTrusted-same_cache r q P found.1 _
                  (after_resolve-cache id ctx found.0.0 found.0.1 found.1)
                  (resolved-IsTrusted w id e h g))
        ]

    evaluate_prefetched-IsTrusted :
        (w : World) (id : Str) (o : Option CachedFlagState) (e : Evaluator r q)
        → IsHonest P w
        → ((st : CachedFlagState) → o ≡ some st → Own P id st)
        → IsTrusted r q P e
        → IsTrusted r q P (evaluate_prefetched r q w id o e).1
    unfolding evaluate_prefetched
    evaluate_prefetched-IsTrusted w id none e h k g =
        IsTrusted-same_cache r q P _ _ refl (unfold resolve_global in resolved-IsTrusted w id e h g)
    evaluate_prefetched-IsTrusted w id (some st) e h k g =
        IsTrusted-same_cache r q P (set_flag_state r q w st e) _ (ground arith)
          (set_flag_state-IsTrusted r q P w id st e (k st refl) g)

    prefetched-Own :
        (w : World) (id : Str) (e : Evaluator r q) (st : CachedFlagState)
        → IsHonest P w
        → prefetched r q w id e ≡ some st
        → Own P id st
    unfolding prefetched
    prefetched-Own w id e st h k = h.answers id st (ground arith)

    pub evaluate-IsTrusted :
        (w : World) (id : Str) (e : Evaluator r q)
        → IsHonest P w
        → IsTrusted r q P e
        → IsTrusted r q P (evaluate r q w id e).1
    unfolding evaluate
    evaluate-IsTrusted w id e h g =
        elim (Bool-cases (is_killed (CacheStore.get_kill_set r e.cache) id)) [
          | inl dead ↦ rw dead (IsTrusted-same_cache r q P e _ refl g)
          | inr alive ↦ rw alive (
              evaluate_prefetched-IsTrusted w id (prefetched r q w id e) e h
                (λ st k. prefetched-Own w id e st h k) g)
        ]

    refreshed-IsTrusted :
        (w : World) (id : Str) (f : FetchResult) (e : Evaluator r q)
        → IsHonest P w
        → w.fetch id ≡ f
        → IsTrusted r q P e
        → IsTrusted r q P (refreshed r q w f e)
    unfolding refreshed
    refreshed-IsTrusted w id fetch_error e h k g = IsTrusted-same_cache r q P e _ refl g
    refreshed-IsTrusted w id (fetched o) e h k g =
        IsTrusted-same_cache r q P (store_fetched r q w o e) _ refl
          (store_fetched-IsTrusted r q P w id o e h k g)

    pub complete_refresh-IsTrusted :
        (w : World) (id : Str) (e : Evaluator r q)
        → IsHonest P w
        → IsTrusted r q P e
        → IsTrusted r q P (complete_refresh r q w id e)
    unfolding complete_refresh
    complete_refresh-IsTrusted w id e h g = elim (Bool-cases (contains e.refreshing id)) [
      | inl on ↦ rw on (
          refreshed-IsTrusted w id (w.fetch id)
            (record e { refreshing = dropped r q id e.refreshing }) h refl
            (IsTrusted-same_cache r q P e _ refl g))
      | inr off ↦ rw off g
    ]

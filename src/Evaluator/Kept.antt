-- ===== src/Evaluator/Kept.antt =====
-- Every step of an evaluator's life (internal/evaluator/evaluator.go) keeps the origins of its
-- cached condition results.
use pbflags.Common.{
  ◌&&◌, is_empty, not, ◌+◌, ◌≡◌, refl, Bool, true, false, Option, none, some, Str, Bool-cases, inl,
  inr, contains,
}
use pbflags.Flag.{FlagValue}
use pbflags.Message.{Message}
use pbflags.Conditions.{EvalResult}
use pbflags.CacheStore
use pbflags.CacheStore.{CachedFlagState, is_killed}
use pbflags.CondCache.{CondCacheEntry, build_cache_key}
use pbflags.Ristretto.{Ristretto}
use pbflags.Resolution.{
  FetchResult, fetch_error, fetched, World, Answer, Evaluator, background_refresh_flag,
  resolve_fetch, resolve_stale, resolve_hot, resolve_global_with_state, count,
}
use pbflags.Evaluator.{
  is_terminal, killed_answer, static_override, static_answer, cached_entry, Verdict, answer,
  undecided, found_verdict, run_chain, from_entry, try_cache, cond_phase, cache_key, use_cond_cache,
  conditions_of, conclude, after_resolve, evaluate_with_context, chain_result, remember, version_of,
}
use pbflags.Evaluator.Resolve.{IsHonest, IsTrusted, IsTimely, IsCurrent, resolve-IsResolved}
use pbflags.Evaluator.Steps.{HasRoom}
use pbflags.Evaluator.Coherence.{IsCoherent, remember-HasOrigins, store_fetched-IsCoherent}

module _ (r : Ristretto CachedFlagState) (q : Ristretto CondCacheEntry)
    (P : Str → CachedFlagState → Type 0) (IsCtx : Option Message → Type 0) where
  abbrev IsCo : Evaluator r q → Type 0
  IsCo e = IsCoherent r q P IsCtx e

  resolve_fetch-IsCo :
      (w : World) (f : FetchResult) (e : Evaluator r q)
      → HasRoom r q e
      → IsCo e
      → IsCo (resolve_fetch r q w f e).1
  unfolding resolve_fetch
  resolve_fetch-IsCo w fetch_error e room h = h
  resolve_fetch-IsCo w (fetched o) e room h = store_fetched-IsCoherent r q P IsCtx w o e room h

  background-IsCo :
      (id : Str) (e : Evaluator r q) → IsCo e → IsCo (background_refresh_flag r q id e)
  unfolding background_refresh_flag
  background-IsCo id e h = elim (Bool-cases (contains e.refreshing id)) [
    | inl on ↦ rw on h
    | inr off ↦ rw off (record { origins = h.origins })
  ]

  resolve_stale-IsCo :
      (w : World) (id : Str) (o : Option CachedFlagState) (e : Evaluator r q)
      → HasRoom r q e
      → IsCo e
      → IsCo (resolve_stale r q w id o e).1
  unfolding resolve_stale
  resolve_stale-IsCo w id none e room h = resolve_fetch-IsCo w (w.fetch id) e room h
  resolve_stale-IsCo w id (some s) e room h = background-IsCo id e h

  resolve_hot-IsCo :
      (w : World) (id : Str) (o : Option CachedFlagState) (e : Evaluator r q)
      → HasRoom r q e
      → IsCo e
      → IsCo (resolve_hot r q w id o e).1
  unfolding resolve_hot
  resolve_hot-IsCo w id none e room h =
      resolve_stale-IsCo w id (CacheStore.get_stale_flag_state r id e.cache)
        (count r q (λ m. record m { cache_miss_flags = m.cache_miss_flags + 1 }) e) room
        (record { origins = h.origins })
  resolve_hot-IsCo w id (some s) e room h = record { origins = h.origins }

  pub resolve-IsCoherent :
      (w : World) (id : Str) (e : Evaluator r q)
      → HasRoom r q e
      → IsCo e
      → IsCo (resolve_global_with_state r q w id e).1
  unfolding resolve_global_with_state
  resolve-IsCoherent w id e room h =
      resolve_hot-IsCo w id (CacheStore.get_flag_state r id e.cache) e room h

  found_verdict-IsCo :
      (res : EvalResult) (v : Option FlagValue) (e : Evaluator r q)
      → IsCo e
      → IsCo (found_verdict r q res v e).1
  unfolding found_verdict
  found_verdict-IsCo res none e h = h
  found_verdict-IsCo res (some v) e h = record { origins = h.origins }

  run_chain-IsCo :
      (on : Bool) (id : Str) (s : CachedFlagState) (ctx : Option Message) (e : Evaluator r q)
      → IsCurrent r q P id s e
      → IsCtx ctx
      → IsCo e
      → IsCo (run_chain r q on (cache_key r q id s ctx e) s ctx e).1
  unfolding run_chain cache_key
  run_chain-IsCo false id s ctx e cur c h =
      found_verdict-IsCo (chain_result s ctx) (chain_result s ctx).value e h
  run_chain-IsCo true id s ctx e cur c h =
      let val = (chain_result s ctx).value in
      let key = build_cache_key id (version_of r q id e.cond_cache) s.dim_meta ctx s.launches in
      found_verdict-IsCo (chain_result s ctx) val
        (record e { cond_cache = remember r q key val e.cond_cache })
        (record {
          origins =
              remember-HasOrigins r q P IsCtx id s ctx e.cache.stale_flag_map e.cond_cache val
                cur.own c cur.last refl h.origins;
        })

  try_cache-IsCo :
      (o : Option CondCacheEntry) (id : Str) (s : CachedFlagState) (ctx : Option Message)
      (e : Evaluator r q)
      → IsCurrent r q P id s e
      → IsCtx ctx
      → IsCo e
      → IsCo (try_cache r q o (cache_key r q id s ctx e) s ctx e).1
  unfolding try_cache cache_key
  try_cache-IsCo none id s ctx e cur c h =
      run_chain-IsCo true id s ctx
        (count r q (λ m. record m { cache_miss_conditions = m.cache_miss_conditions + 1 }) e)
        (record { own = cur.own; last = cur.last }) c (record { origins = h.origins })
  try_cache-IsCo (some entry) id s ctx e cur c h = elim (Bool-cases entry.no_match) [
    | inl quiet ↦ rw (quiet, from_entry) (record { origins = h.origins })
    | inr loud ↦ rw (loud, from_entry) (record { origins = h.origins })
  ]

  cond_phase-IsCo :
      (id : Str) (s : CachedFlagState) (ctx : Option Message) (e : Evaluator r q)
      → IsCurrent r q P id s e
      → IsCtx ctx
      → IsCo e
      → IsCo (cond_phase r q id s ctx e).1
  unfolding cond_phase
  cond_phase-IsCo id s ctx e cur c h = elim (Bool-cases (use_cond_cache r q s e)) [
    | inl on ↦ rw on (
        try_cache-IsCo (cached_entry r q (cache_key r q id s ctx e) e.cond_cache) id s ctx e cur c
          h)
    | inr off ↦ rw off (run_chain-IsCo false id s ctx e cur c h)
  ]

  conditions_of-IsCo :
      (id : Str) (o : Option CachedFlagState) (ctx : Option Message) (e : Evaluator r q)
      → ((s : CachedFlagState) → o ≡ some s → IsCurrent r q P id s e)
      → IsCtx ctx
      → IsCo e
      → IsCo (conditions_of r q id o ctx e).1
  unfolding conditions_of
  conditions_of-IsCo id none ctx e cur c h = h
  conditions_of-IsCo id (some s) ctx e cur c h =
      elim (Bool-cases (not (is_empty s.conditions) && e.has_cond_eval)) [
        | inl on ↦ rw on (cond_phase-IsCo id s ctx e (cur s refl) c h)
        | inr off ↦ rw off h
      ]

  static_answer-IsCo :
      (o : Option FlagValue) (ans : Answer) (e : Evaluator r q)
      → IsCo e
      → IsCo (static_answer r q o ans e).1
  unfolding static_answer
  static_answer-IsCo none (v, src) e h = record { origins = h.origins }
  static_answer-IsCo (some x) (v, src) e h = record { origins = h.origins }

  conclude-IsCo :
      (o : Option CachedFlagState) (ans : Answer) (v : Verdict) (e : Evaluator r q)
      → IsCo e
      → IsCo (conclude r q o ans v e).1
  unfolding conclude
  conclude-IsCo o ans (answer v src) e h = h
  conclude-IsCo o ans undecided e h = static_answer-IsCo (static_override r q o) ans e h

  after_resolve-IsCo :
      (id : Str) (ctx : Option Message) (o : Option CachedFlagState) (ans : Answer)
      (e : Evaluator r q)
      → ((s : CachedFlagState) → o ≡ some s → IsCurrent r q P id s e)
      → IsCtx ctx
      → IsCo e
      → IsCo (after_resolve r q id ctx (o, ans) e).1
  unfolding after_resolve
  after_resolve-IsCo id ctx o ans e cur c h = elim (Bool-cases (is_terminal r q ans.1)) [
    | inl stop ↦ rw stop (record { origins = h.origins })
    | inr go ↦ rw go (
        conclude-IsCo o ans (conditions_of r q id o ctx e).0 (conditions_of r q id o ctx e).1
          (conditions_of-IsCo id o ctx e cur c h))
  ]

  pub evaluate_with_context-IsCoherent :
      (w : World) (id : Str) (ctx : Option Message) (e : Evaluator r q)
      → IsHonest P w
      → HasRoom r q e
      → IsCtx ctx
      → IsTimely r q P id e
      → IsTrusted r q P e
      → IsCo e
      → IsCo (evaluate_with_context r q w id ctx e).1
  unfolding evaluate_with_context
  evaluate_with_context-IsCoherent w id ctx e honest room c timely g h =
      elim (Bool-cases (is_killed (CacheStore.get_kill_set r e.cache) id)) [
        | inl dead ↦ rw dead (unfold killed_answer in record { origins = h.origins })
        | inr alive ↦
            let found = resolve_global_with_state r q w id e in
            rw alive (
              after_resolve-IsCo id ctx found.0.0 found.0.1 found.1
                ((resolve-IsResolved r q P w id e honest g).current timely) c
                (resolve-IsCoherent w id e room h))
      ]

-- ===== src/Evaluator/Transparent.antt =====
-- The condition cache of internal/evaluator/evaluator.go changes no value: an evaluation answers as
-- it would with the cache turned off.
use pbflags.Common.{
  ap, arith, ◌+◌, ◌≡◌, ◌⊎◌, inl, inr, refl, Option, none, some, Str, Bool-cases, is_empty, false,
  not, ◌&&◌, contains,
}
use pbflags.Flag.{EvaluationSource, FlagValue}
use pbflags.Message.{Message}
use pbflags.Ristretto.{Ristretto}
use pbflags.CacheStore
use pbflags.CacheStore.{set_flag_state, CachedFlagState, is_killed}
use pbflags.CondCache.{CondCacheEntry}
use pbflags.Resolution.{
  invalidate, store_fetched, background_refresh_flag, World, Answer, Evaluator,
  resolve_global_with_state, FetchResult, fetch_error, fetched, resolve_fetch, resolve_stale,
  resolve_hot, count,
}
use pbflags.Evaluator.{
  static_override, killed_answer, static_answer, apply_static_default_override, is_terminal,
  cache_key, cached_entry, EvalResult, use_cond_cache, found_verdict, Verdict, answer, undecided,
  evaluate_with_context, after_resolve, conditions_of, cond_phase, run_chain, try_cache, from_entry,
  conclude, chain_result,
}
use pbflags.Evaluator.Resolve.{IsHonest, IsTrusted, IsTimely, IsCurrent, resolve-IsResolved}
use pbflags.Evaluator.Steps.{Reach, HasRoom}
use pbflags.Evaluator.Origin.{EntryOf}
use pbflags.Evaluator.Coherence.{IsCoherent}
use pbflags.Evaluator.Kept.{resolve-IsCoherent}
use pbflags.Evaluator.Reached.{Reach-IsCoherent}
use pbflags.Evaluator.Fresh.{IsShaped, IsCacheable, cached_entry-fresh}

-- The same value, under the same source or as CACHED.
abbrev pub SameAnswer : Answer → Answer → Type 0
SameAnswer (v, src) (v', src') = (v ≡ v') × ((src ≡ src') ⊎ (src ≡ EvaluationSource.cached))

-- Both undecided, or the same answer.
abbrev SameVerdict : Verdict → Verdict → Type 0
SameVerdict (answer v src) (answer v' src') = SameAnswer (v, src) (v', src')
SameVerdict undecided undecided = Unit
SameVerdict (answer v src) undecided = ⊥
SameVerdict undecided (answer v src) = ⊥

module _ (r : Ristretto CachedFlagState) (q : Ristretto CondCacheEntry) where
  -- The evaluator with the condition cache turned off.
  abbrev pub uncached : Evaluator r q → Evaluator r q
  uncached e = record e { cond_cache = none }

  abbrev Bare :
      (Option CachedFlagState × Answer) × Evaluator r q
      → (Option CachedFlagState × Answer) × Evaluator r q
      → Type 0
  Bare (found, e) (found', e') = (found ≡ found') × (e' ≡ uncached e)

  module _ (w : World) where
    resolve_fetch-Bare :
        (f : FetchResult) (e : Evaluator r q)
        → Bare (resolve_fetch r q w f e) (resolve_fetch r q w f (uncached e))
    unfolding resolve_fetch store_fetched set_flag_state invalidate
    resolve_fetch-Bare fetch_error e = (refl, refl)
    resolve_fetch-Bare (fetched none) e = (refl, refl)
    resolve_fetch-Bare (fetched (some s)) e = (refl, refl)

    resolve_stale-Bare :
        (id : Str) (o : Option CachedFlagState) (e : Evaluator r q)
        → Bare (resolve_stale r q w id o e) (resolve_stale r q w id o (uncached e))
    unfolding resolve_stale background_refresh_flag
    resolve_stale-Bare id none e = resolve_fetch-Bare (w.fetch id) e
    resolve_stale-Bare id (some s) e = elim (Bool-cases (contains e.refreshing id)) [
      | inl on ↦ rw on (refl, refl)
      | inr off ↦ rw off (refl, refl)
    ]

    resolve_hot-Bare :
        (id : Str) (o : Option CachedFlagState) (e : Evaluator r q)
        → Bare (resolve_hot r q w id o e) (resolve_hot r q w id o (uncached e))
    unfolding resolve_hot
    resolve_hot-Bare id none e =
        resolve_stale-Bare id (CacheStore.get_stale_flag_state r id e.cache)
          (count r q (λ m. record m { cache_miss_flags = m.cache_miss_flags + 1 }) e)
    resolve_hot-Bare id (some s) e = (refl, refl)

    resolve-Bare :
        (id : Str) (e : Evaluator r q)
        → Bare
            (resolve_global_with_state r q w id e)
            (resolve_global_with_state r q w id (uncached e))
    unfolding resolve_global_with_state
    resolve-Bare id e = resolve_hot-Bare id (CacheStore.get_flag_state r id e.cache) e

  found_verdict-same :
      (res : EvalResult) (v : Option FlagValue) (e e' : Evaluator r q)
      → SameVerdict (found_verdict r q res v e).0 (found_verdict r q res v e').0
  unfolding found_verdict
  found_verdict-same res none e e' = tt
  found_verdict-same res (some v) e e' = (refl, inl refl)

  from_entry-same :
      (en : CondCacheEntry) (res : EvalResult) (v : Option FlagValue) (e e' : Evaluator r q)
      → EntryOf v en
      → SameVerdict (from_entry r q en e).0 (found_verdict r q res v e').0
  unfolding from_entry found_verdict
  from_entry-same en res none e e' h = rw h tt
  from_entry-same en res (some v) e e' (h, h') = rw h (h', inr refl)

  module _ (shape : Message) (id : Str) (s : CachedFlagState) (ctx : Option Message)
      (shaped : IsShaped shape ctx) (cond : is_empty s.conditions ≡ false) where
    try_cache-same :
        (o : Option CondCacheEntry) (key key' : Str) (e e' : Evaluator r q)
        → ((en : CondCacheEntry) → o ≡ some en → EntryOf (chain_result s ctx).value en)
        → SameVerdict (try_cache r q o key s ctx e).0 (run_chain r q false key' s ctx e').0
    unfolding try_cache run_chain
    try_cache-same none key key' e e' h =
        found_verdict-same (chain_result s ctx) (chain_result s ctx).value _ _
    try_cache-same (some en) key key' e e' h =
        from_entry-same en (chain_result s ctx) (chain_result s ctx).value _ _ (h en refl)

    cond_phase-bare :
        (e : Evaluator r q)
        → cond_phase r q id s ctx (uncached e)
          ≡ run_chain r q false (cache_key r q id s ctx (uncached e)) s ctx (uncached e)
    unfolding cond_phase use_cond_cache
    cond_phase-bare e = refl

    cond_phase-same :
        (e : Evaluator r q)
        → IsCurrent r q (IsCacheable shape) id s e
        → IsCoherent r q (IsCacheable shape) (IsShaped shape) e
        → SameVerdict (cond_phase r q id s ctx e).0 (cond_phase r q id s ctx (uncached e)).0
    unfolding cond_phase
    cond_phase-same e cur co =
        let key = cache_key r q id s ctx e in
        let key' = cache_key r q id s ctx (uncached e) in
        elim (Bool-cases (use_cond_cache r q s e)) [
          | inl on ↦
              rw (cond_phase-bare e, on)
                (try_cache-same (cached_entry r q key e.cond_cache) key key' e (uncached e)
                  (λ en got. cached_entry-fresh r q shape id s ctx e en shaped cond cur co got))
          | inr off ↦
              rw (cond_phase-bare e, off)
                (unfold run_chain in
                  found_verdict-same (chain_result s ctx) (chain_result s ctx).value _ _)
        ]

  conditions_of-same :
      (shape : Message) (id : Str) (o : Option CachedFlagState) (ctx : Option Message)
      (e : Evaluator r q)
      → IsShaped shape ctx
      → ((s : CachedFlagState) → o ≡ some s → IsCurrent r q (IsCacheable shape) id s e)
      → IsCoherent r q (IsCacheable shape) (IsShaped shape) e
      → SameVerdict (conditions_of r q id o ctx e).0 (conditions_of r q id o ctx (uncached e)).0
  unfolding conditions_of
  conditions_of-same shape id none ctx e shaped cur co = tt
  conditions_of-same shape id (some s) ctx e shaped cur co =
      elim (Bool-cases (not (is_empty s.conditions) && e.has_cond_eval)) [
        | inl on ↦
            let cond : is_empty s.conditions ≡ false = ground arith in
            rw on (cond_phase-same shape id s ctx shaped cond e (cur s refl) co)
        | inr off ↦ rw off tt
      ]

  static_answer-value :
      (o : Option FlagValue) (ans : Answer) (e e' : Evaluator r q)
      → (static_answer r q o ans e).0 ≡ (static_answer r q o ans e').0
  unfolding static_answer
  static_answer-value none (v, src) e e' = refl
  static_answer-value (some x) (v, src) e e' = refl

  conclude-same :
      (o : Option CachedFlagState) (ans : Answer) (v v' : Verdict) (e e' : Evaluator r q)
      → SameVerdict v v'
      → SameAnswer (conclude r q o ans v e).0 (conclude r q o ans v' e').0
  unfolding conclude apply_static_default_override
  conclude-same o ans (answer v src) (answer v' src') e e' h = h
  conclude-same o ans (answer v src) undecided e e' h = elim h [ ]
  conclude-same o ans undecided (answer v' src') e e' h = elim h [ ]
  conclude-same o ans undecided undecided e e' h =
      let same = static_answer-value (static_override r q o) ans e e' in
      (ap (λ (a : Answer). a.0) same, inl (ap (λ (a : Answer). a.1) same))

  after_resolve-same :
      (shape : Message) (id : Str) (ctx : Option Message) (o : Option CachedFlagState)
      (ans : Answer) (e : Evaluator r q)
      → IsShaped shape ctx
      → ((s : CachedFlagState) → o ≡ some s → IsCurrent r q (IsCacheable shape) id s e)
      → IsCoherent r q (IsCacheable shape) (IsShaped shape) e
      → SameAnswer
          (after_resolve r q id ctx (o, ans) e).0
          (after_resolve r q id ctx (o, ans) (uncached e)).0
  unfolding after_resolve
  after_resolve-same shape id ctx o ans e shaped cur co =
      elim (Bool-cases (is_terminal r q ans.1)) [
        | inl stop ↦ rw stop (refl, inl refl)
        | inr go ↦ rw go (
            conclude-same o ans (conditions_of r q id o ctx e).0
              (conditions_of r q id o ctx (uncached e)).0 (conditions_of r q id o ctx e).1
              (conditions_of r q id o ctx (uncached e)).1
              (conditions_of-same shape id o ctx e shaped cur co))
      ]

  -- At any time in an evaluator's life, an evaluation has the value that it would have with the
  -- condition cache turned off, from the same source unless it is CACHED. The contexts are of one
  -- message type, the versions have room, the fetched states are classified so that their programs
  -- see no more of a context than the key does, and at this evaluation and the ones before it the hot
  -- tier has no older state of the flag to answer with than the last one that was set.
  pub evaluate_with_context-uncached :
      (shape : Message) (w : World) (id : Str) (ctx : Option Message) (s e : Evaluator r q)
      → IsTrusted r q (IsCacheable shape) s
      → IsCoherent r q (IsCacheable shape) (IsShaped shape) s
      → Reach r q (IsCacheable shape) (IsShaped shape) (IsTimely r q (IsCacheable shape)) s e
      → IsHonest (IsCacheable shape) w
      → HasRoom r q e
      → IsShaped shape ctx
      → IsTimely r q (IsCacheable shape) id e
      → SameAnswer
          (evaluate_with_context r q w id ctx e).0
          (evaluate_with_context r q w id ctx (uncached e)).0
  unfolding evaluate_with_context
  evaluate_with_context-uncached shape w id ctx s e g h p honest room shaped timely =
      elim (Bool-cases (is_killed (CacheStore.get_kill_set r e.cache) id)) [
        | inl dead ↦ rw dead (unfold killed_answer in (refl, inl refl))
        | inr alive ↦
            let (g', h') = Reach-IsCoherent r q (IsCacheable shape) (IsShaped shape) g h p in
            let (same, bare) = resolve-Bare w id e in
            let found = resolve_global_with_state r q w id e in
            rw (alive, ← same, bare)
              (after_resolve-same shape id ctx found.0.0 found.0.1 found.1 shaped
                ((resolve-IsResolved r q (IsCacheable shape) w id e honest g').current timely)
                (resolve-IsCoherent r q (IsCacheable shape) (IsShaped shape) w id e room h'))
      ]

-- ===== src/Evaluator/Reached.antt =====
-- In whatever order an evaluator (internal/evaluator/evaluator.go) is used, its cached condition
-- results keep their origins.
use pbflags.Common.{[], ℕ, Option, none, some, Str, Bool-cases, inl, inr, contains}
use pbflags.Message.{Message}
use pbflags.CacheStore
use pbflags.CacheStore.{CachedFlagState, is_killed}
use pbflags.CondCache.{CondCacheEntry, ConditionCache}
use pbflags.Ristretto.{Ristretto}
use pbflags.Resolution.{
  is_killed_state, FetchResult, fetch_error, fetched, World, Evaluator, refreshed, complete_refresh,
  resolve_global, dropped,
}
use pbflags.Evaluator.{evaluate, evaluate_prefetched, prefetched, killed_answer}
use pbflags.Evaluator.Resolve.{IsTrusted, IsTimely}
use pbflags.Evaluator.Steps.{
  HasRoom, Step, eval, eval_plain, refresh, poll, age_flags, age_conds, flush_hot, flush_all, Reach,
  here, next, Step-IsTrusted, age_conditions,
}
use pbflags.Evaluator.Origin.{Origin-flush}
use pbflags.Evaluator.Coherence.{
  IsCoherent, HasOrigins, store_fetched-IsCoherent, set_flag_state-IsCoherent,
}
use pbflags.Evaluator.Kept.{resolve-IsCoherent, evaluate_with_context-IsCoherent}

module _ (r : Ristretto CachedFlagState) (q : Ristretto CondCacheEntry)
    (P : Str → CachedFlagState → Type 0) (IsCtx : Option Message → Type 0) where
  abbrev IsCo : Evaluator r q → Type 0
  IsCo e = IsCoherent r q P IsCtx e

  evaluate_prefetched-IsCo :
      (w : World) (id : Str) (o : Option CachedFlagState) (e : Evaluator r q)
      → HasRoom r q e
      → IsCo e
      → IsCo (evaluate_prefetched r q w id o e).1
  unfolding evaluate_prefetched
  evaluate_prefetched-IsCo w id none e room h = record {
    origins = unfold resolve_global in (resolve-IsCoherent r q P IsCtx w id e room h).origins;
  }
  evaluate_prefetched-IsCo w id (some st) e room h =
      let set = (set_flag_state-IsCoherent r q P IsCtx w st e room h).origins in
      elim (Bool-cases (is_killed_state st.state)) [
        | inl dead ↦ rw dead (record { origins = set })
        | inr alive ↦ rw alive (record { origins = set })
      ]

  evaluate-IsCo :
      (w : World) (id : Str) (e : Evaluator r q)
      → HasRoom r q e
      → IsCo e
      → IsCo (evaluate r q w id e).1
  unfolding evaluate
  evaluate-IsCo w id e room h =
      elim (Bool-cases (is_killed (CacheStore.get_kill_set r e.cache) id)) [
        | inl dead ↦ rw dead (unfold killed_answer in record { origins = h.origins })
        | inr alive ↦ rw alive (evaluate_prefetched-IsCo w id (prefetched r q w id e) e room h)
      ]

  refreshed-IsCo :
      (w : World) (f : FetchResult) (e : Evaluator r q)
      → HasRoom r q e
      → IsCo e
      → IsCo (refreshed r q w f e)
  unfolding refreshed
  refreshed-IsCo w fetch_error e room h = record { origins = h.origins }
  refreshed-IsCo w (fetched o) e room h = record {
    origins = (store_fetched-IsCoherent r q P IsCtx w o e room h).origins;
  }

  complete_refresh-IsCo :
      (w : World) (id : Str) (e : Evaluator r q)
      → HasRoom r q e
      → IsCo e
      → IsCo (complete_refresh r q w id e)
  unfolding complete_refresh
  complete_refresh-IsCo w id e room h = elim (Bool-cases (contains e.refreshing id)) [
    | inl on ↦ rw on (
        refreshed-IsCo w (w.fetch id) (record e { refreshing = dropped r q id e.refreshing }) room
          (record { origins = h.origins }))
    | inr off ↦ rw off h
  ]

  age-HasOrigins :
      (n : ℕ) (e : Evaluator r q) (o : Option (ConditionCache q))
      → HasOrigins r q P IsCtx e.cache.stale_flag_map o
      → HasOrigins r q P IsCtx e.cache.stale_flag_map (age_conditions r q n o)
  age-HasOrigins n e none h = tt
  age-HasOrigins n e (some c) h = λ key en got. h key en (q.MayAnswer-age n key c.cache en got)

  flush-HasOrigins :
      (e : Evaluator r q) (o : Option (ConditionCache q))
      → HasOrigins r q P IsCtx e.cache.stale_flag_map o
      → HasOrigins r q P IsCtx [] o
  flush-HasOrigins e none h = tt
  flush-HasOrigins e (some c) h =
      λ key en got. Origin-flush P IsCtx e.cache.stale_flag_map c.versions key en (h key en got)

  Step-IsCo :
      {t u : Evaluator r q}
      → Step r q P IsCtx (IsTimely r q P) t u
      → IsTrusted r q P t
      → IsCo t
      → IsCo u
  Step-IsCo (eval w id ctx e honest c room timely) g h =
      evaluate_with_context-IsCoherent r q P IsCtx w id ctx e honest room c timely g h
  Step-IsCo (eval_plain w id e honest room) g h = evaluate-IsCo w id e room h
  Step-IsCo (refresh w id e honest room) g h = complete_refresh-IsCo w id e room h
  Step-IsCo (poll ks e) g h = unfold CacheStore.set_kill_set in record { origins = h.origins }
  Step-IsCo (age_flags n e) g h = unfold CacheStore.age in record { origins = h.origins }
  Step-IsCo (age_conds n e) g h = record { origins = age-HasOrigins n e e.cond_cache h.origins }
  Step-IsCo (flush_hot e) g h = unfold CacheStore.flush_hot in record { origins = h.origins }
  Step-IsCo (flush_all e) g h =
      unfold CacheStore.flush_all in record { origins = flush-HasOrigins e e.cond_cache h.origins }

  -- After any steps in which flags are evaluated in contexts only while the hot tier has no older
  -- state of them to answer with, both invariants still hold: all states that a cache may answer are
  -- the fetcher's, and each condition result that a cache may answer was made by the chain of a state
  -- of the flag and version that its key names, which is still the last one if the version is.
  pub Reach-IsCoherent :
      {s t : Evaluator r q}
      → IsTrusted r q P s
      → IsCo s
      → Reach r q P IsCtx (IsTimely r q P) s t
      → IsTrusted r q P t × IsCo t
  Reach-IsCoherent g h here = (g, h)
  Reach-IsCoherent g h (next p step) =
      let (g', h') = Reach-IsCoherent g h p in (Step-IsTrusted r q step g', Step-IsCo step g' h')

-- ===== src/Evaluator/Steps.antt =====
-- The life of an evaluator (internal/evaluator/evaluator.go, poller.go, cache.go): evaluations,
-- background refreshes, kill polls, flushes and what time does to the caches, in any order. Each
-- operation is one step; what waits in the buffers of the caches stays there as `age` likes. The
-- promise of the fetcher, `P`, holds for every state that the evaluator uses at any time.
use pbflags.Common.{lookup, ℕ, ◌+◌, ◌<◌, ◌^◌, ◌≡◌, Option, none, some, Str}
use pbflags.Message.{Message}
use pbflags.CacheStore
use pbflags.CacheStore.{CachedFlagState, KillSet, is_killed}
use pbflags.CacheStore.Tiers.{
  Answers-age, Answers-flush_hot, Answers-flush_all, Answers-set_kill_set,
}
use pbflags.CondCache.{CondCacheEntry, ConditionCache}
use pbflags.Ristretto.{Ristretto}
use pbflags.Resolution.{World, Evaluator, complete_refresh, resolve_global_with_state}
use pbflags.Evaluator.{version_of, evaluate_with_context, evaluate}
use pbflags.Evaluator.Frame.{
  evaluate_with_context-IsTrusted, evaluate-IsTrusted, complete_refresh-IsTrusted,
}
use pbflags.Evaluator.Resolve.{Own, IsHonest, IsTrusted, IsTimely, resolve-IsResolved}

module _ (r : Ristretto CachedFlagState) (q : Ristretto CondCacheEntry) where
  -- What time and eviction do to the condition cache.
  abbrev pub age_conditions : ℕ → Option (ConditionCache q) → Option (ConditionCache q)
  age_conditions n none = none
  age_conditions n (some c) = some (record c { cache = q.age n c.cache })

  -- No version counter is about to wrap.
  abbrev pub HasRoom : Evaluator r q → Type 0
  HasRoom e = (id : Str) → version_of r q id e.cond_cache + 1 < 2 ^ 64

  -- `T` is what is asked of the times at which flags are evaluated in a context.
  module _ (P : Str → CachedFlagState → Type 0) (IsCtx : Option Message → Type 0)
      (T : Str → Evaluator r q → Type 0) where
    pub data Step : Evaluator r q → Evaluator r q → Type 0 where
      eval :
          (w : World) (id : Str) (ctx : Option Message) (e : Evaluator r q)
          → IsHonest P w
          → IsCtx ctx
          → HasRoom e
          → T id e
          → Step e (evaluate_with_context r q w id ctx e).1
      eval_plain :
          (w : World) (id : Str) (e : Evaluator r q)
          → IsHonest P w
          → HasRoom e
          → Step e (evaluate r q w id e).1
      refresh :
          (w : World) (id : Str) (e : Evaluator r q)
          → IsHonest P w
          → HasRoom e
          → Step e (complete_refresh r q w id e)
      poll :
          (ks : Option KillSet) (e : Evaluator r q)
          → Step e (record e { cache = CacheStore.set_kill_set r ks e.cache })
      age_flags :
          (n : ℕ) (e : Evaluator r q) → Step e (record e { cache = CacheStore.age r n e.cache })
      age_conds :
          (n : ℕ) (e : Evaluator r q)
          → Step e (record e { cond_cache = age_conditions n e.cond_cache })
      flush_hot : (e : Evaluator r q) → Step e (record e { cache = CacheStore.flush_hot r e.cache })
      flush_all : (e : Evaluator r q) → Step e (record e { cache = CacheStore.flush_all r e.cache })

    pub data Reach (e : Evaluator r q) : Evaluator r q → Type 0 where
      here : Reach e e
      next : {t u : Evaluator r q} → Reach e t → Step t u → Reach e u

  module _ {P : Str → CachedFlagState → Type 0} {IsCtx : Option Message → Type 0}
      {T : Str → Evaluator r q → Type 0} where
    pub Step-IsTrusted :
        {t u : Evaluator r q} → Step P IsCtx T t u → IsTrusted r q P t → IsTrusted r q P u
    Step-IsTrusted (eval w id ctx e h c room timely) g =
        evaluate_with_context-IsTrusted r q P w id ctx e h g
    Step-IsTrusted (eval_plain w id e h room) g = evaluate-IsTrusted r q P w id e h g
    Step-IsTrusted (refresh w id e h room) g = complete_refresh-IsTrusted r q P w id e h g
    Step-IsTrusted (poll ks e) g = record {
      trusted = Answers-set_kill_set r (Own P) ks e.cache g.trusted;
    }
    Step-IsTrusted (age_flags n e) g = record {
      trusted = Answers-age r (Own P) n e.cache g.trusted;
    }
    Step-IsTrusted (age_conds n e) g = record { trusted = g.trusted }
    Step-IsTrusted (flush_hot e) g = record {
      trusted = Answers-flush_hot r (Own P) e.cache g.trusted;
    }
    Step-IsTrusted (flush_all e) g = record {
      trusted = Answers-flush_all r (Own P) e.cache g.trusted;
    }

    pub Reach-IsTrusted :
        {s t : Evaluator r q} → IsTrusted r q P s → Reach P IsCtx T s t → IsTrusted r q P t
    Reach-IsTrusted g here = g
    Reach-IsTrusted g (next p step) = Step-IsTrusted step (Reach-IsTrusted g p)

  -- Whatever has happened before, however the caches delay or lose their writes, the state that an
  -- evaluation resolves is one that the fetcher delivered for the flag, with its promise; and it is the
  -- last one that was set for the flag, unless the hot tier has an older one to answer with.
  pub Reach-resolve :
      {P : Str → CachedFlagState → Type 0} {IsCtx : Option Message → Type 0}
      {T : Str → Evaluator r q → Type 0} {s t : Evaluator r q}
      → IsTrusted r q P s
      → Reach P IsCtx T s t
      → (w : World) (id : Str) (st : CachedFlagState) → IsHonest P w
      → (resolve_global_with_state r q w id t).0.0 ≡ some st
      → Own P id st
        × (IsTimely r q P id t
            → lookup id (resolve_global_with_state r q w id t).1.cache.stale_flag_map ≡ some st)
  Reach-resolve {P} {t} g p w id st h found =
      let res = resolve-IsResolved r q P w id t h (Reach-IsTrusted g p) in
      (res.own st found, λ timely. (res.current timely st found).last)

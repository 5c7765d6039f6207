-- ===== src/Evaluator/Resolve.antt =====
-- resolveGlobalWithState and setFlagState (internal/evaluator/evaluator.go): the state that an
-- evaluation uses is one that the fetcher delivered for this flag.
use pbflags.Common.{
  ◌+◌, ◌≡◌, refl, sym, subst, Option, none, some, Str, arith, lookup, lookup-put, =s_iff,
}
use pbflags.CacheStore
use pbflags.CacheStore.{CachedFlagState, CacheStore}
use pbflags.CacheStore.Tiers.{Answers, Answers-set}
use pbflags.CondCache.{CondCacheEntry}
use pbflags.Ristretto.{Ristretto}
use pbflags.Resolution.{
  count, FetchResult, fetch_error, fetched, World, Evaluator, set_flag_state, store_fetched,
  resolve_fetch, resolve_stale, resolve_hot, resolve_global_with_state, background_refresh_flag,
}

-- A state of the flag `id` about which the fetcher promises `P`.
abbrev pub Own : (Str → CachedFlagState → Type 0) → Str → CachedFlagState → Type 0
Own P id st = (st.flag_id ≡ id) × P id st

-- The fetcher answers with states of the flag that it is asked for, and keeps its promise.
pub record IsHonest (P : Str → CachedFlagState → Type 0) (w : World) : Type 0 where
  pub answers : (id : Str) (st : CachedFlagState) → w.fetch id ≡ fetched (some st) → Own P id st

module _ (r : Ristretto CachedFlagState) (q : Ristretto CondCacheEntry)
    (P : Str → CachedFlagState → Type 0) where
  -- Both tiers hold what the fetcher delivered.
  pub record IsTrusted (e : Evaluator r q) : Type 0 where
    pub trusted : Answers r (Own P) e.cache

  -- The hot tier is not behind: if it answers for the flag, then with the last state that was set. A
  -- write that still waits in ristretto's buffer breaks this, until it is applied or the old entry
  -- is gone; in write-through mode nothing does.
  pub record IsTimely (id : Str) (e : Evaluator r q) : Type 0 where
    pub latest :
        (st : CachedFlagState)
        → CacheStore.get_flag_state r id e.cache ≡ some st
        → lookup id e.cache.stale_flag_map ≡ some st

  -- The state is the flag's, and the last one that was set.
  pub record IsCurrent (id : Str) (st : CachedFlagState) (e : Evaluator r q) : Type 0 where
    pub own : Own P id st
    pub last : lookup id e.cache.stale_flag_map ≡ some st

  pub set_flag_state-IsTrusted :
      (w : World) (id : Str) (st : CachedFlagState) (e : Evaluator r q)
      → Own P id st
      → IsTrusted e
      → IsTrusted (set_flag_state r q w st e)
  unfolding set_flag_state
  set_flag_state-IsTrusted w id st e (same, p) g = record {
    trusted =
        Answers-set r (Own P) st w.jitter e.cache (refl, subst (λ i. P i st) (sym same) p)
          g.trusted;
  }

  set_flag_state-IsCurrent :
      (w : World) (id : Str) (st : CachedFlagState) (e : Evaluator r q)
      → Own P id st
      → IsCurrent id st (set_flag_state r q w st e)
  unfolding set_flag_state CacheStore.set_flag_state
  set_flag_state-IsCurrent w id st e (same, p) = record {
    own = (same, p);
    last = ground (arith, lookup-put st.flag_id id st e.cache.stale_flag_map, =s_iff st.flag_id id);
  }

  pub store_fetched-IsTrusted :
      (w : World) (id : Str) (o : Option CachedFlagState) (e : Evaluator r q)
      → IsHonest P w
      → w.fetch id ≡ fetched o
      → IsTrusted e
      → IsTrusted (store_fetched r q w o e)
  unfolding store_fetched
  store_fetched-IsTrusted w id none e h f g = g
  store_fetched-IsTrusted w id (some st) e h f g =
      set_flag_state-IsTrusted w id st e (h.answers id st f) g

  -- What a resolution leaves: a trusted evaluator, and the flag's own state if it found one, which is
  -- the current one where the hot tier was timely.
  pub record IsResolved (Timely : Type 0) (id : Str) (o : Option CachedFlagState)
      (e : Evaluator r q) : Type 0 where
    pub after : IsTrusted e
    pub own : (st : CachedFlagState) → o ≡ some st → Own P id st
    pub current : Timely → (st : CachedFlagState) → o ≡ some st → IsCurrent id st e

  resolve_fetch-IsResolved :
      {T : Type 0} (w : World) (id : Str) (f : FetchResult) (e : Evaluator r q)
      → IsHonest P w
      → w.fetch id ≡ f
      → IsTrusted e
      → IsResolved T id (resolve_fetch r q w f e).0.0 (resolve_fetch r q w f e).1
  unfolding resolve_fetch
  resolve_fetch-IsResolved w id fetch_error e h f g = record {
    after = g;
    own = λ st k. absurd (ground arith);
    current = λ _ st k. absurd (ground arith);
  }
  resolve_fetch-IsResolved w id (fetched none) e h f g = record {
    after = g;
    own = λ st k. absurd (ground arith);
    current = λ _ st k. absurd (ground arith);
  }
  resolve_fetch-IsResolved w id (fetched (some s)) e h f g = record {
    after = set_flag_state-IsTrusted w id s e (h.answers id s f) g;
    own = λ st k. subst (Own P id) (ground arith) (h.answers id s f);
    current = λ _ st k.
        let same : s ≡ st = ground arith in
        subst (λ x. IsCurrent id x (set_flag_state r q w s e)) same
          (set_flag_state-IsCurrent w id s e (h.answers id s f));
  }

  background_refresh_flag-cache :
      (id : Str) (e : Evaluator r q) → (background_refresh_flag r q id e).cache ≡ e.cache
  unfolding background_refresh_flag
  background_refresh_flag-cache id e = ground arith

  -- The cache alone matters.
  pub IsTrusted-same_cache :
      (e e' : Evaluator r q) → e'.cache ≡ e.cache → IsTrusted e → IsTrusted e'
  IsTrusted-same_cache e e' h g = record { trusted = rw h g.trusted }

  resolve_stale-IsResolved :
      {T : Type 0} (w : World) (id : Str) (o : Option CachedFlagState) (e : Evaluator r q)
      → IsHonest P w
      → lookup id e.cache.stale_flag_map ≡ o
      → IsTrusted e
      → IsResolved T id (resolve_stale r q w id o e).0.0 (resolve_stale r q w id o e).1
  unfolding resolve_stale
  resolve_stale-IsResolved w id none e h l g = resolve_fetch-IsResolved w id (w.fetch id) e h refl g
  resolve_stale-IsResolved w id (some s) e h l g = record {
    after = IsTrusted-same_cache e _ (background_refresh_flag-cache id e) g;
    own = λ st k. subst (Own P id) (ground arith) (g.trusted.stale id s l);
    current = λ _ st k.
        let same : s ≡ st = ground arith in
        record {
          own = subst (Own P id) same (g.trusted.stale id s l);
          last = rw (background_refresh_flag-cache id e, l) k;
        };
  }

  hot_read :
      (e : Evaluator r q) (id : Str) (s : CachedFlagState)
      → CacheStore.get_flag_state r id e.cache ≡ some s
      → r.MayAnswer id s e.cache.flag_cache
  unfolding CacheStore.get_flag_state
  hot_read e id s l = r.get-MayAnswer id s e.cache.flag_cache (ground arith)

  resolve_hot-IsResolved :
      (w : World) (id : Str) (o : Option CachedFlagState) (e : Evaluator r q)
      → IsHonest P w
      → CacheStore.get_flag_state r id e.cache ≡ o
      → IsTrusted e
      → IsResolved (IsTimely id e) id (resolve_hot r q w id o e).0.0 (resolve_hot r q w id o e).1
  unfolding resolve_hot
  resolve_hot-IsResolved w id none e h l g =
      resolve_stale-IsResolved w id (CacheStore.get_stale_flag_state r id e.cache)
        (count r q (λ m. record m { cache_miss_flags = m.cache_miss_flags + 1 }) e) h
        (unfold CacheStore.get_stale_flag_state in refl) (IsTrusted-same_cache e _ refl g)
  resolve_hot-IsResolved w id (some s) e h l g =
      let hot = hot_read e id s l in
      record {
        after = IsTrusted-same_cache e _ refl g;
        own = λ st k. subst (Own P id) (ground arith) (g.trusted.hot id s hot);
        current = λ timely st k.
            let same : s ≡ st = ground arith in
            record {
              own = subst (Own P id) same (g.trusted.hot id s hot);
              last =
                  subst (λ x. lookup id e.cache.stale_flag_map ≡ some x) same (timely.latest s l);
            };
      }

  -- Whatever its answer, a resolution leaves a trusted evaluator, and the state that it finds is the
  -- flag's own, and the last one that was set where the hot tier was timely.
  pub resolve-IsResolved :
      (w : World) (id : Str) (e : Evaluator r q)
      → IsHonest P w
      → IsTrusted e
      → IsResolved
          (IsTimely id e)
          id
          (resolve_global_with_state r q w id e).0.0
          (resolve_global_with_state r q w id e).1
  unfolding resolve_global_with_state
  resolve-IsResolved w id e h g =
      resolve_hot-IsResolved w id (CacheStore.get_flag_state r id e.cache) e h refl g

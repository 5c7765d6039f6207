-- ===== src/Evaluator/Coherence.antt =====
-- The operations of an evaluator (internal/evaluator/evaluator.go) keep the origins of its cached
-- condition results.
use pbflags.Common.{
  ◌+◌, ◌^◌, ◌<◌, ◌≡◌, refl, Option, none, some, Str, lookup, put, is_empty, Bool-cases, inl, inr,
  Assoc, ◌⊎◌,
}
use mathlib.Core.Path.{subst₂}
use pbflags.Flag.{FlagValue}
use pbflags.Message.{Message}
use pbflags.CacheStore
use pbflags.CacheStore.{CachedFlagState}
use pbflags.CondCache
use pbflags.CondCache.{build_cache_key, CondCacheEntry, ConditionCache, version_at}
use pbflags.Ristretto.{Ristretto}
use pbflags.Resolution.{World, Evaluator, set_flag_state, invalidate, store_fetched}
use pbflags.Evaluator.{remember, chain_result, version_of}
use pbflags.Evaluator.Resolve.{Own}
use pbflags.Evaluator.Steps.{HasRoom}
use pbflags.Evaluator.Origin.{Origin, Origin-set, Origin-new, bumped}

module _ (r : Ristretto CachedFlagState) (q : Ristretto CondCacheEntry)
    (P : Str → CachedFlagState → Type 0) (IsCtx : Option Message → Type 0) where
  -- Whatever the condition cache may answer has an origin.
  abbrev pub HasOrigins : Assoc CachedFlagState → Option (ConditionCache q) → Type 0
  HasOrigins stale none = Unit
  HasOrigins stale (some c) =
      (key : Str) (en : CondCacheEntry)
      → q.MayAnswer key en c.cache
      → Origin P IsCtx stale c.versions key en

  pub record IsCoherent (e : Evaluator r q) : Type 0 where
    pub origins : HasOrigins e.cache.stale_flag_map e.cond_cache

  room_of :
      (id : Str) (c : ConditionCache q)
      → version_of r q id (some c) + 1 < 2 ^ 64
      → version_at id c.versions + 1 < 2 ^ 64
  unfolding version_of version_at CondCache.flag_version
  room_of id c h = h

  invalidate-some :
      (st : CachedFlagState) (c : ConditionCache q)
      → invalidate r q st (some c) ≡ some (record c { versions = bumped st c.versions })
  unfolding invalidate CondCache.invalidate_flag
  invalidate-some st c = elim (Bool-cases (is_empty st.conditions)) [ inl e ↦ rw e | inr e ↦ rw e ]

  invalidate-HasOrigins :
      (st : CachedFlagState) (stale : Assoc CachedFlagState) (o : Option (ConditionCache q))
      → version_of r q st.flag_id o + 1 < 2 ^ 64
      → HasOrigins stale o
      → HasOrigins (put st.flag_id st stale) (invalidate r q st o)
  invalidate-HasOrigins st stale none room h = unfold invalidate in tt
  invalidate-HasOrigins st stale (some c) room h = rw (invalidate-some st c) (λ key en got.
      Origin-set P IsCtx stale c.versions st (room_of st.flag_id c room) key en (h key en got))

  pub set_flag_state-IsCoherent :
      (w : World) (st : CachedFlagState) (e : Evaluator r q)
      → HasRoom r q e
      → IsCoherent e
      → IsCoherent (set_flag_state r q w st e)
  unfolding set_flag_state CacheStore.set_flag_state
  set_flag_state-IsCoherent w st e room h = record {
    origins =
        invalidate-HasOrigins st e.cache.stale_flag_map e.cond_cache (room st.flag_id) h.origins;
  }

  pub store_fetched-IsCoherent :
      (w : World) (o : Option CachedFlagState) (e : Evaluator r q)
      → HasRoom r q e
      → IsCoherent e
      → IsCoherent (store_fetched r q w o e)
  unfolding store_fetched
  store_fetched-IsCoherent w none e room h = h
  store_fetched-IsCoherent w (some st) e room h = set_flag_state-IsCoherent w st e room h

  -- A write of one key that has an origin.
  write-HasOrigins :
      (stale : Assoc CachedFlagState) (c : ConditionCache q) (key : Str) (en : CondCacheEntry)
      → HasOrigins stale (some c)
      → Origin P IsCtx stale c.versions key en
      → HasOrigins stale (some (record c { cache = q.set key en c.cache }))
  write-HasOrigins stale c key en h o key' en' got =
      written key' en' (q.MayAnswer-set key key' en c.cache en' got)
    where
      written :
          (key' : Str) (en' : CondCacheEntry)
          → (key ≡ key') × (en ≡ en') ⊎ q.MayAnswer key' en' c.cache
          → Origin P IsCtx stale c.versions key' en'
      written key' en' (inl (same, same')) =
          subst₂ (λ k x. Origin P IsCtx stale c.versions k x) same same' o
      written key' en' (inr before) = h key' en' before

  pub remember-HasOrigins :
      (id : Str) (st : CachedFlagState) (ctx : Option Message) (stale : Assoc CachedFlagState)
      (o : Option (ConditionCache q)) (val : Option FlagValue)
      → Own P id st
      → IsCtx ctx
      → lookup id stale ≡ some st
      → val ≡ (chain_result st ctx).value
      → HasOrigins stale o
      → HasOrigins stale (
          remember r q (build_cache_key id (version_of r q id o) st.dim_meta ctx st.launches) val o)
  unfolding remember version_of CondCache.set CondCache.set_no_match version_at
      CondCache.flag_version lookup
  remember-HasOrigins id st ctx stale none val own c last v h = tt
  remember-HasOrigins id st ctx stale (some c') none own c last v h =
      write-HasOrigins stale c' _ _ h
        (Origin-new P IsCtx stale c'.versions id st ctx _ own c last (rw (← v) refl))
  remember-HasOrigins id st ctx stale (some c') (some x) own c last v h =
      write-HasOrigins stale c' _ _ h
        (Origin-new P IsCtx stale c'.versions id st ctx _ own c last (rw (← v) (refl, refl)))

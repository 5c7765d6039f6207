-- ===== src/Evaluator/Fresh.antt =====
-- What the condition cache of internal/evaluator/condcache.go may be asked for: the programs of a
-- state look at a context only through what the classification of their dimensions keeps of it.
use pbflags.Common.{
  arith, ap, ℕ, Assoc, ◌≡◌, Option, none, some, List, [], ◌∷◌, Str, lookup, All, is_empty, false,
  sym, subst, ◌∙◌, refl,
}
use pbflags.Message.{Message}
use pbflags.Launch.{in_ramp, CachedLaunch}
use pbflags.Conditions.{CachedCondition, EvalResult}
use pbflags.Conditions.Agreement.{SameOutcome, SameRamp, evaluate-agreement}
use pbflags.CacheStore.{CachedFlagState}
use pbflags.CondCache
use pbflags.CondCache.{
  version_at, CachedDimMeta, CondCacheEntry, ConditionCache, build_cache_key, launch_bit,
}
use pbflags.CondCache.Keys.{SameFields, SameClass, AllSameRamp, build_cache_key_sound}
use pbflags.CondCache.Header.{HasNoNul, build_cache_key-header}
use pbflags.Ristretto.{Ristretto}
use pbflags.Resolution.{Evaluator}
use pbflags.Evaluator.{version_of, cache_key, cached_entry, chain_result}
use pbflags.Evaluator.Resolve.{IsCurrent}
use pbflags.Evaluator.Origin.{Origin, EntryOf}
use pbflags.Evaluator.Coherence.{IsCoherent, HasOrigins}

-- The contexts of one message type: those with the fields of `shape`.
abbrev pub IsShaped : Message → Option Message → Type 0
IsShaped shape none = ⊥
IsShaped shape (some c) = SameFields shape c

-- The classification of the dimensions keeps what the condition's program looks at.
abbrev pub IsCovered : Message → CachedDimMeta → CachedCondition → Type 0
IsCovered shape meta cond =
    (c d : Message)
    → SameFields shape c
    → SameFields shape d
    → ((name : Str) → SameClass meta c d name)
    → SameOutcome c d cond

-- What a fetcher promises of a flag's state for the condition cache to be safe.
pub record IsCacheable (shape : Message) (id : Str) (st : CachedFlagState) : Type 0 where
  pub named : HasNoNul id
  pub covered : All (IsCovered shape st.dim_meta) st.conditions

covered-outcomes :
    (shape : Message) (meta : CachedDimMeta) (c d : Message) (conds : List CachedCondition)
    → SameFields shape c
    → SameFields shape d
    → ((name : Str) → SameClass meta c d name)
    → All (IsCovered shape meta) conds
    → All (SameOutcome c d) conds
covered-outcomes shape meta c d [] p q same _ = tt
covered-outcomes shape meta c d (x ∷ xs) p q same (h, hs) =
    (h c d p q same, covered-outcomes shape meta c d xs p q same hs)

same_ramps : (c d : Message) (ls : List CachedLaunch) → AllSameRamp c d ls → All (SameRamp c d) ls
unfolding in_ramp
same_ramps c d [] _ = tt
same_ramps c d (l ∷ ls) (h, hs) = (unfold launch_bit in h, same_ramps c d ls hs)

-- Two contexts under one key have one result.
one_key-one_result :
    (shape : Message) (id : Str) (n : ℕ) (st : CachedFlagState) (c d : Option Message)
    → IsCacheable shape id st
    → IsShaped shape c
    → IsShaped shape d
    → build_cache_key id n st.dim_meta c st.launches
      ≡ build_cache_key id n st.dim_meta d st.launches
    → chain_result st c ≡ chain_result st d
unfolding chain_result
one_key-one_result shape id n st (some c) (some d) k p q e =
    let (classes, ramps) =
      build_cache_key_sound id n st.dim_meta st.launches c d (λ name. sym (p name) ∙ q name) e in
    evaluate-agreement st.conditions c d st.condition_overrides st.launches
      (covered-outcomes shape st.dim_meta c d st.conditions p q classes k.covered)
      (same_ramps c d st.launches ramps)
one_key-one_result shape id n st none d k p q e = elim p [ ]
one_key-one_result shape id n st (some c) none k p q e = elim q [ ]

carry :
    (shape : Message) (id flag : Str) (v version : ℕ) (st state : CachedFlagState)
    (c d : Option Message) (en : CondCacheEntry)
    → IsCacheable shape id st
    → IsShaped shape c
    → IsShaped shape d
    → id ≡ flag
    → v ≡ version
    → st ≡ state
    → build_cache_key id v st.dim_meta c st.launches
      ≡ build_cache_key flag version state.dim_meta d state.launches
    → EntryOf (chain_result state d).value en
    → EntryOf (chain_result st c).value en
carry shape id flag v version st state c d en k p q flags versions states e made =
    let same : chain_result st c ≡ chain_result st d = one_key-one_result shape id v st c d k p q (
      e
      ∙ (ap (λ f. build_cache_key f version state.dim_meta d state.launches) (sym flags)
          ∙ (ap (λ n. build_cache_key id n state.dim_meta d state.launches) (sym versions)
              ∙ ap (λ (s : CachedFlagState). build_cache_key id v s.dim_meta d s.launches)
                  (sym states)))) in
    subst (λ (res : EvalResult). EntryOf res.value en)
      (sym (same ∙ ap (λ s. chain_result s d) states)) made

module _ (shape : Message) (stale : Assoc CachedFlagState) where
  Origin-fresh :
      (versions : Assoc ℕ) (id : Str) (st : CachedFlagState) (ctx : Option Message) (key : Str)
      (en : CondCacheEntry)
      → IsShaped shape ctx
      → is_empty st.conditions ≡ false
      → IsCacheable shape id st
      → lookup id stale ≡ some st
      → key ≡ build_cache_key id (version_at id versions) st.dim_meta ctx st.launches
      → Origin (IsCacheable shape) (IsShaped shape) stale versions key en
      → EntryOf (chain_result st ctx).value en
  Origin-fresh versions id st ctx key en shaped cond k last keyed o =
      let (flags, numbers) =
        build_cache_key-header id o.flag (version_at id versions) o.version st.dim_meta
          o.state.dim_meta ctx o.ctx st.launches o.state.launches k.named o.own.1.named
          (sym keyed ∙ o.keyed) in
      let states : st ≡ o.state =
        o.still (sym numbers ∙ ap (λ f. version_at f versions) flags) st
          (subst (λ f. lookup f stale ≡ some st) flags last) cond in
      carry shape id o.flag (version_at id versions) o.version st o.state ctx o.ctx en k shaped
        o.in_ctx flags numbers states (sym keyed ∙ o.keyed) o.made

module _ (r : Ristretto CachedFlagState) (q : Ristretto CondCacheEntry) (shape : Message) where
  entry-fresh :
      (stale : Assoc CachedFlagState) (o : Option (ConditionCache q)) (id : Str)
      (st : CachedFlagState) (ctx : Option Message) (key : Str) (en : CondCacheEntry)
      → IsShaped shape ctx
      → is_empty st.conditions ≡ false
      → IsCacheable shape id st
      → lookup id stale ≡ some st
      → HasOrigins r q (IsCacheable shape) (IsShaped shape) stale o
      → key ≡ build_cache_key id (version_of r q id o) st.dim_meta ctx st.launches
      → cached_entry r q key o ≡ some en
      → EntryOf (chain_result st ctx).value en
  unfolding cached_entry version_of CondCache.flag_version CondCache.get
  entry-fresh stale none id st ctx key en shaped cond k last h keyed got = absurd (ground arith)
  entry-fresh stale (some c) id st ctx key en shaped cond k last h keyed got =
      Origin-fresh shape stale c.versions id st ctx key en shaped cond k last keyed
        (h key en (q.get-MayAnswer key en c.cache got))

  -- An entry that is found for the current state of a flag holds the result that the chain would
  -- have now.
  pub cached_entry-fresh :
      (id : Str) (st : CachedFlagState) (ctx : Option Message) (e : Evaluator r q)
      (en : CondCacheEntry)
      → IsShaped shape ctx
      → is_empty st.conditions ≡ false
      → IsCurrent r q (IsCacheable shape) id st e
      → IsCoherent r q (IsCacheable shape) (IsShaped shape) e
      → cached_entry r q (cache_key r q id st ctx e) e.cond_cache ≡ some en
      → EntryOf (chain_result st ctx).value en
  cached_entry-fresh id st ctx e en shaped cond cur co got =
      entry-fresh e.cache.stale_flag_map e.cond_cache id st ctx (cache_key r q id st ctx e) en
        shaped cond cur.own.1 cur.last co.origins (unfold cache_key in refl) got

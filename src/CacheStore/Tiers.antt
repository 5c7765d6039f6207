-- ===== src/CacheStore/Tiers.antt =====
-- The two tiers of internal/evaluator/cache.go: what they can answer.
use pbflags.Common.{
  inl, inr, ℕ, ◌≡◌, ◌⊎◌, Bool, true, false, Option, none, some, Str, ℤ, pos, lookup, lookup-put,
  =s_iff, ltb_ℤ, leb_ℤ, arith, if◌then◌else◌, ◌=s◌,
}
use mathlib.Core.Path.{subst₂}
use pbflags.Ristretto.{Ristretto}
use pbflags.CacheStore.{
  KillSet, set_kill_set, jittered_ttl, put, CachedFlagState, CacheStore, flush_all, flush_hot,
  set_flag_state, get_flag_state, get_stale_flag_state, age,
}

module _ (r : Ristretto CachedFlagState) where
  -- The stale map always answers with the last state that was set for the flag, whatever the hot
  -- tier forgets.
  pub stale-set :
      (state : CachedFlagState) (jitter : ℤ) (s : CacheStore r) (id : Str)
      → get_stale_flag_state r id (set_flag_state r state jitter s)
        ≡ (if state.flag_id =s id then some state else get_stale_flag_state r id s)
  unfolding get_stale_flag_state set_flag_state
  stale-set state jitter s id = lookup-put state.flag_id id state s.stale_flag_map

  -- Write-through mode: with a time to live of zero or less the hot tier answers nothing, so each
  -- evaluation goes on to the stale map and the fetcher.
  pub hot-write_through :
      (s : CacheStore r) (id : Str) → leb_ℤ s.flag_ttl (pos 0) ≡ true → get_flag_state r id s ≡ none
  unfolding get_flag_state
  hot-write_through s id h = rw h

  -- Whatever either tier may answer for a flag satisfies `P` of that flag.
  pub record Answers (P : Str → CachedFlagState → Type 0) (s : CacheStore r) : Type 0 where
    pub hot : (id : Str) (w : CachedFlagState) → r.MayAnswer id w s.flag_cache → P id w
    pub stale : (id : Str) (w : CachedFlagState) → lookup id s.stale_flag_map ≡ some w → P id w

  write_one :
      (P : Str → CachedFlagState → Type 0) (state : CachedFlagState) (id : Str)
      (w : CachedFlagState) (before : Type 0)
      → P state.flag_id state
      → (before → P id w)
      → (state.flag_id ≡ id) × (state ≡ w) ⊎ before
      → P id w
  write_one P state id w before p old (inl (same, same')) = subst₂ P same same' p
  write_one P state id w before p old (inr b) = old b

  put_one :
      (state : CachedFlagState) (s : CacheStore r) (id : Str) (w : CachedFlagState)
      → lookup id (put state.flag_id state s.stale_flag_map) ≡ some w
      → (state.flag_id ≡ id) × (state ≡ w) ⊎ (lookup id s.stale_flag_map ≡ some w)
  put_one state s id w h =
      ground (arith, lookup-put state.flag_id id state s.stale_flag_map, =s_iff state.flag_id id)

  module _ (P : Str → CachedFlagState → Type 0) where
    Answers-set_hot :
        (state : CachedFlagState) (ttl : ℤ) (s : CacheStore r) (on : Bool)
        → P state.flag_id state
        → Answers P s
        → (id : Str) (w : CachedFlagState)
        → r.MayAnswer id w
            (if on then r.set_with_ttl state.flag_id state ttl s.flag_cache else s.flag_cache)
        → P id w
    Answers-set_hot state ttl s true p a id w h =
        write_one P state id w _ p (a.hot id w)
          (r.MayAnswer-set_with_ttl state.flag_id id state ttl s.flag_cache w h)
    Answers-set_hot state ttl s false p a id w h = a.hot id w h

    pub Answers-set :
        (state : CachedFlagState) (jitter : ℤ) (s : CacheStore r)
        → P state.flag_id state
        → Answers P s
        → Answers P (set_flag_state r state jitter s)
    unfolding set_flag_state
    Answers-set state jitter s p a = record {
      hot =
          Answers-set_hot state (jittered_ttl r s.flag_ttl jitter s) s (ltb_ℤ (pos 0) s.flag_ttl) p
            a;
      stale = λ id w h. write_one P state id w _ p (a.stale id w) (put_one state s id w h);
    }

    pub Answers-age : (n : ℕ) (s : CacheStore r) → Answers P s → Answers P (age r n s)
    unfolding age
    Answers-age n s a = record {
      hot = λ id w h. a.hot id w (r.MayAnswer-age n id s.flag_cache w h);
      stale = a.stale;
    }

    pub Answers-flush_hot : (s : CacheStore r) → Answers P s → Answers P (flush_hot r s)
    unfolding flush_hot
    Answers-flush_hot s a = record {
      hot = λ id w h. a.hot id w (r.MayAnswer-clear id s.flag_cache w h);
      stale = a.stale;
    }

    pub Answers-flush_all : (s : CacheStore r) → Answers P s → Answers P (flush_all r s)
    unfolding flush_all
    Answers-flush_all s a = record {
      hot = λ id w h. a.hot id w (r.MayAnswer-clear id s.flag_cache w h);
      stale = λ id w h. absurd (unfold lookup in ground arith);
    }

    pub Answers-set_kill_set :
        (ks : Option KillSet) (s : CacheStore r) → Answers P s → Answers P (set_kill_set r ks s)
    unfolding set_kill_set
    Answers-set_kill_set ks s a = record { hot = a.hot; stale = a.stale }

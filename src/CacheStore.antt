-- ===== src/CacheStore.antt =====
-- internal/evaluator/cache.go: the flag states that the evaluator holds. The hot tier is ristretto's
-- and may forget; the stale map and the kill set are plain memory. Locks are left out: each
-- operation is one step.
pub mod Tiers
use pbflags.Common.{
  ℕ, Bool, true, false, Option, none, some, List, [], Str, ℤ, pos, negsuc, Assoc, lookup, put,
  ltb_ℤ, leb_ℤ, sub_ℕ, pos_part, neg_part, ◌+◌, ◌-◌, if◌then◌else◌, contains, ◌+ℤ◌,
}
use pbflags.Flag.{FlagValue, State}
use pbflags.Launch.{CachedLaunch}
use pbflags.Conditions.{CachedCondition, Overrides}
use pbflags.CondCache.{CachedDimMeta}
use pbflags.Ristretto.{Ristretto}

pub record CachedFlagState : Type 0 where
  pub flag_id : Str
  pub state : State
  pub value : Option FlagValue
  pub archived : Bool
  pub conditions : List CachedCondition
  pub dim_meta : CachedDimMeta
  pub launches : List CachedLaunch
  pub condition_overrides : Overrides
  pub static_default_override : Option FlagValue

-- A `*KillSet`; the set is a list of its members.
pub record KillSet : Type 0 where
  pub flag_ids : List Str

-- (*KillSet).IsKilled, with its test for nil.
unfoldable pub is_killed : Option KillSet → Str → Bool
is_killed none flag_id = false
is_killed (some ks) flag_id = contains ks.flag_ids flag_id

module _ (r : Ristretto CachedFlagState) where
  pub record CacheStore : Type 0 where
    pub flag_cache : r.Cache
    pub stale_flag_map : Assoc CachedFlagState
    pub kill_set : Option KillSet
    pub flag_ttl : ℤ
    pub jitter_percent : ℤ

  -- NewCacheStore, over the cache that ristretto returns.
  unfoldable pub new_cache_store : r.Cache → ℤ → ℤ → CacheStore
  new_cache_store flag_cache flag_ttl jitter_percent = record {
    flag_cache = flag_cache;
    stale_flag_map = [];
    kill_set = some (record { flag_ids = [] });
    flag_ttl = flag_ttl;
    jitter_percent = jitter_percent;
  }

  unfoldable pub flush_all : CacheStore → CacheStore
  flush_all s = record s { flag_cache = r.clear s.flag_cache; stale_flag_map = [] }

  unfoldable pub flush_hot : CacheStore → CacheStore
  flush_hot s = record s { flag_cache = r.clear s.flag_cache }

  unfoldable pub get_kill_set : CacheStore → Option KillSet
  get_kill_set s = s.kill_set

  unfoldable pub set_kill_set : Option KillSet → CacheStore → CacheStore
  set_kill_set ks s = record s { kill_set = ks }

  -- jitteredTTL: `jitter` is the random duration, already scaled by the percentage.
  pub jittered_ttl : ℤ → ℤ → CacheStore → ℤ
  jittered_ttl base jitter s = if leb_ℤ s.jitter_percent (pos 0) then base else base +ℤ jitter

  unfoldable pub get_flag_state : Str → CacheStore → Option CachedFlagState
  get_flag_state flag_id s = if leb_ℤ s.flag_ttl (pos 0) then none else r.get flag_id s.flag_cache

  -- SetFlagState
  unfoldable pub set_flag_state : CachedFlagState → ℤ → CacheStore → CacheStore
  unfolding jittered_ttl
  set_flag_state state jitter s = record s {
    flag_cache =
        if ltb_ℤ (pos 0) s.flag_ttl
        then r.set_with_ttl state.flag_id state (jittered_ttl s.flag_ttl jitter s) s.flag_cache
        else s.flag_cache;
    stale_flag_map = put state.flag_id state s.stale_flag_map;
  }

  unfoldable pub get_stale_flag_state : Str → CacheStore → Option CachedFlagState
  get_stale_flag_state flag_id s = lookup flag_id s.stale_flag_map

  -- What time does to the hot tier: entries expire or are evicted.
  unfoldable pub age : ℕ → CacheStore → CacheStore
  age n s = record s { flag_cache = r.age n s.flag_cache }

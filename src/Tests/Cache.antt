-- ===== src/Tests/Cache.antt =====
-- Keys of the condition cache and the tiers of the flag cache at work.
use pbflags.Common.{ℕ, ◌≡◌, refl, none, some, [], ◌∷◌, pos, Str, arith}
use pbflags.CondCache.{build_cache_key}
use pbflags.CondCache.Keys.{SameClass, AllSameRamp, build_cache_key_sound}
use pbflags.CondCache.Header.{build_cache_key-header}
use pbflags.CacheStore.{get_flag_state}
use pbflags.CacheStore.Tiers.{hot-write_through}
use pbflags.Tests.{pro, plan, flag, full_launch, hot, start, plan_meta}

build_cache_key_sound_example :
    ((name : Str) → SameClass ((plan, plan_meta) ∷ []) pro pro name)
    × AllSameRamp pro pro (full_launch ∷ [])
build_cache_key_sound_example =
    build_cache_key_sound flag 1 ((plan, plan_meta) ∷ []) (full_launch ∷ []) pro pro (λ name. refl)
      refl

build_cache_key-header_example : (flag ≡ flag) × (◌≡◌ {A = ℕ} 3 3)
unfolding build_cache_key
build_cache_key-header_example =
    build_cache_key-header flag flag 3 3 [] [] (some pro) none [] []
      (λ e. absurd (ground arith), tt) (λ e. absurd (ground arith), tt) refl

hot-write_through_example : get_flag_state hot flag (record start.cache { flag_ttl = pos 0 }) ≡ none
hot-write_through_example =
    hot-write_through hot (record start.cache { flag_ttl = pos 0 }) flag refl

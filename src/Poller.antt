-- ===== src/Poller.antt =====
-- internal/evaluator/poller.go: the loop that keeps the kill set up to date. The fetcher's answer
-- and the tracker's state at each tick come in as the loop's environment; cancellation of the
-- context ends the list of ticks. Spans, gauges and logs are left out.
pub mod LastKnown
use pbflags.Common.{ℤ, int64, ℕ, ◌*◌, Option, none, some, List, [], ◌∷◌}
use pbflags.Health.{HealthTracker, backoff_multiplier}
use pbflags.CacheStore
use pbflags.CacheStore.{CachedFlagState, KillSet, CacheStore}
use pbflags.Ristretto.{Ristretto}

pub data KillAnswer : Type 0 where
  kill_error : KillAnswer
  kills : KillSet → KillAnswer

-- What one expiry of the timer finds.
pub record Tick : Type 0 where
  pub answer : KillAnswer
  pub tracker : HealthTracker

module _ (r : Ristretto CachedFlagState) where
  -- poll: a failure keeps the last known kills.
  unfoldable pub poll : KillAnswer → CacheStore r → CacheStore r
  poll kill_error cache = cache
  poll (kills ks) cache = CacheStore.set_kill_set r (some ks) cache

  -- The loop of Run; the result pairs the store with the intervals that were waited,
  -- a time.Duration of 64 bits each.
  unfoldable pub run_loop : ℕ → List Tick → CacheStore r → CacheStore r × List ℤ
  run_loop base_ttl [] cache = (cache, [])
  run_loop base_ttl (t ∷ ts) cache =
      let (cache', waits) = run_loop base_ttl ts (poll t.answer cache) in
      (cache', int64 (base_ttl * backoff_multiplier t.tracker) ∷ waits)

  -- Run: one poll at once, then one after each interval.
  unfoldable pub run : ℕ → KillAnswer → List Tick → CacheStore r → CacheStore r × List ℤ
  run base_ttl first ticks cache = run_loop base_ttl ticks (poll first cache)

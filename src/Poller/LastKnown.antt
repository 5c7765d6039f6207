-- ===== src/Poller/LastKnown.antt =====
-- What the poller of internal/evaluator/poller.go leaves in the cache.
use pbflags.Common.{ℕ, ◌≡◌, refl, Option, some, List, [], ◌∷◌}
use pbflags.CacheStore
use pbflags.CacheStore.{CachedFlagState, KillSet, CacheStore, is_killed}
use pbflags.Ristretto.{Ristretto}
use pbflags.Poller.{KillAnswer, kill_error, kills, Tick, poll, run_loop, run}

abbrev pub answered : KillAnswer → Option KillSet → Option KillSet
answered kill_error known = known
answered (kills ks) known = some ks

-- The last answer that was no error, or what was known before.
abbrev pub last_known : Option KillSet → List Tick → Option KillSet
last_known known [] = known
last_known known (t ∷ ts) = last_known (answered t.answer known) ts

module _ (r : Ristretto CachedFlagState) where
  poll-kill_set :
      (a : KillAnswer) (c : CacheStore r)
      → (poll r a c ≡ record c { kill_set = answered a c.kill_set })
  unfolding poll CacheStore.set_kill_set
  poll-kill_set kill_error c = refl
  poll-kill_set (kills ks) c = refl

  run_loop-kill_set :
      (base : ℕ) (ts : List Tick) (c : CacheStore r)
      → (run_loop r base ts c).0 ≡ record c { kill_set = last_known c.kill_set ts }
  unfolding run_loop
  run_loop-kill_set base [] c = refl
  run_loop-kill_set base (t ∷ ts) c =
      rw (poll-kill_set t.answer c)
        (run_loop-kill_set base ts (record c { kill_set = answered t.answer c.kill_set }))

  -- Whatever the polls answered, only the kill set has changed, and it is the one of the last poll
  -- that succeeded, or the one that was known before if none did.
  pub run-last_known :
      (base : ℕ) (first : KillAnswer) (ts : List Tick) (c : CacheStore r)
      → (run r base first ts c).0
        ≡ record c { kill_set = last_known (answered first c.kill_set) ts }
  unfolding run
  run-last_known base first ts c = rw (poll-kill_set first c) (run_loop-kill_set base ts _)

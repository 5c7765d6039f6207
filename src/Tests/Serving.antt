-- ===== src/Tests/Serving.antt =====
-- The service, the health tracker and the poller at work.
use pbflags.Common.{◌≡◌, some, [], ◌∷◌, codes, Str, List, Option, arith}
use pbflags.Message.{Message}
use pbflags.Health.{new_health_tracker, EvaluatorStatus}
use pbflags.Health.Runs.{Contact, success, failure, tracked, tracked-counts}
use pbflags.CacheStore.{KillSet}
use pbflags.Poller.{kill_error, kills, Tick, run}
use pbflags.Poller.LastKnown.{answered, last_known, run-last_known}
use pbflags.Resolution.{World}
use pbflags.Service.{bulk_evaluate}
use pbflags.Service.Bulk.{Answered, bulk_evaluate-Answered}
use pbflags.Tests.{flag, hot, results, start, world, pro}

abbrev three_failures : List Contact
three_failures = failure ∷ failure ∷ failure ∷ success 4 ∷ []

tracked-counts_example :
    tracked three_failures
    ≡ record { status = EvaluatorStatus.degraded; failure_bits = 3; last_success_time = some 4 }
tracked-counts_example = tracked-counts three_failures (omega arith)

abbrev some_kills : KillSet
some_kills = record { flag_ids = flag ∷ [] }

abbrev ticks : List Tick
ticks =
    record { answer = kills some_kills; tracker = new_health_tracker }
    ∷ record { answer = kill_error; tracker = tracked three_failures }
    ∷ []

run-last_known_example :
    (run hot 30 kill_error ticks start.cache).0
    ≡ record start.cache { kill_set = last_known (answered kill_error start.cache.kill_set) ticks }
run-last_known_example = run-last_known hot 30 kill_error ticks start.cache

abbrev unmarshal : Str → Option Message
unmarshal bytes = some pro

abbrev calls : List (World × Str)
calls = (world, flag) ∷ (world, codes "dead") ∷ []

bulk_evaluate-Answered_example :
    Answered unmarshal hot results calls
      (some (codes "ctx"))
      start
      (bulk_evaluate unmarshal hot results calls (some (codes "ctx")) start)
bulk_evaluate-Answered_example =
    bulk_evaluate-Answered unmarshal hot results calls (some (codes "ctx")) start

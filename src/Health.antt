-- ===== src/Health.antt =====
-- internal/evaluator/health.go: the tracker of contact with the database, and the backoff.
-- `time.Now()` is an argument, in nanoseconds. The failure counter is an int32: its 32 bits are
-- kept, and read by `int32`. The lock makes each method one step; the gauge is left out.
pub mod Runs
use pbflags.Common.{
  int32, ℕ, zero, ◌+◌, ◌-◌, ◌/◌, ◌%◌, ◌^◌, Option, none, some, ℤ, pos, leb_ℤ, eqb_ℤ, if◌then◌else◌,
}

pub data EvaluatorStatus : Type 0 where
  unspecified connecting serving degraded : EvaluatorStatus

pub record HealthTracker : Type 0 where
  pub status : EvaluatorStatus
  pub failure_bits : ℕ
  pub last_success_time : Option ℕ

-- NewHealthTracker
abbrev pub new_health_tracker : HealthTracker
new_health_tracker = record {
  status = EvaluatorStatus.connecting;
  failure_bits = 0;
  last_success_time = none;
}

-- ConsecutiveFailures
unfoldable pub consecutive_failures : HealthTracker → ℤ
consecutive_failures t = int32 t.failure_bits

-- RecordSuccess
unfoldable pub record_success : ℕ → HealthTracker → HealthTracker
record_success now t = record {
  status = EvaluatorStatus.serving;
  failure_bits = 0;
  last_success_time = some now;
}

-- RecordFailure
unfoldable pub record_failure : HealthTracker → HealthTracker
record_failure t =
    let bits = (t.failure_bits + 1) % 2 ^ 32 in
    record t {
      failure_bits = bits;
      status = if leb_ℤ (pos 3) (int32 bits) then EvaluatorStatus.degraded else t.status;
    }

-- SecondsSinceContact, for a clock that does not run backwards.
unfoldable pub seconds_since_contact : ℕ → HealthTracker → ℕ
seconds_since_contact now t = elim t.last_success_time [
  | none ↦ 0
  | some last ↦ (now - last) / 10 ^ 9
]

-- The switch of BackoffMultiplier.
unfoldable pub backoff_of : ℤ → ℕ
backoff_of f =
    if eqb_ℤ f (pos 0) then 1 else if leb_ℤ f (pos 2) then 2 else if leb_ℤ f (pos 5) then 4 else 8

-- BackoffMultiplier
unfoldable pub backoff_multiplier : HealthTracker → ℕ
backoff_multiplier t = backoff_of (consecutive_failures t)

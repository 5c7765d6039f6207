-- ===== src/Health/Runs.antt =====
-- The tracker of internal/evaluator/health.go after any run of successes and failures.
use pbflags.Common.{
  int32, int32-small, ℕ, zero, suc, ◌+◌, ◌<◌, ◌≤◌, ◌%◌, ◌^◌, ◌≡◌, refl, Option, none, some, List,
  [], ◌∷◌, arith, if◌then◌else◌, leb, length, pos,
}
use pbflags.Health.{
  EvaluatorStatus, HealthTracker, new_health_tracker, consecutive_failures, record_success,
  record_failure, backoff_of, backoff_multiplier,
}

pub data Contact : Type 0 where
  success : ℕ → Contact
  failure : Contact

abbrev pub contact : Contact → HealthTracker → HealthTracker
contact (success now) t = record_success now t
contact failure t = record_failure t

-- The tracker after the contacts, the latest first.
pub tracked : List Contact → HealthTracker
tracked [] = new_health_tracker
tracked (c ∷ cs) = contact c (tracked cs)

-- The failures since the last success, counted without the tracker.
abbrev pub trailing : List Contact → ℕ
trailing [] = 0
trailing (success now ∷ cs) = 0
trailing (failure ∷ cs) = suc (trailing cs)

abbrev pub last_success : List Contact → Option ℕ
last_success [] = none
last_success (success now ∷ cs) = some now
last_success (failure ∷ cs) = last_success cs

-- DEGRADED from the third failure in a row on; otherwise SERVING after a success, and CONNECTING
-- before the first one.
abbrev pub expected_status : ℕ → Option ℕ → EvaluatorStatus
expected_status failures last =
    if leb 3 failures
    then EvaluatorStatus.degraded
    else elim last [ none ↦ EvaluatorStatus.connecting | some _ ↦ EvaluatorStatus.serving ]

trailing-bound : (cs : List Contact) → trailing cs ≤ length cs
trailing-bound [] = omega arith
trailing-bound (success now ∷ cs) = omega arith
trailing-bound (failure ∷ cs) = let h = trailing-bound cs in omega arith

record_failure_lem :
    (t : HealthTracker)
    → t.failure_bits + 1 < 2 ^ 31
    → record_failure t ≡ record t {
      failure_bits = suc t.failure_bits;
      status = if leb 3 (suc t.failure_bits) then EvaluatorStatus.degraded else t.status;
    }
unfolding record_failure
record_failure_lem t h =
    let small : (t.failure_bits + 1) % 2 ^ 32 ≡ suc t.failure_bits = omega arith in
    rw (small, int32-small (suc t.failure_bits) (omega arith)) (ground arith)

-- After any run shorter than 2^31 the tracker counts the failures since the last success, is
-- DEGRADED from the third of them on, and otherwise SERVING after a success and CONNECTING before.
pub tracked-counts :
    (cs : List Contact)
    → length cs < 2 ^ 31
    → tracked cs ≡ record {
      status = expected_status (trailing cs) (last_success cs);
      failure_bits = trailing cs;
      last_success_time = last_success cs;
    }
unfolding tracked
tracked-counts [] h = refl
tracked-counts (success now ∷ cs) h = unfold record_success in refl
tracked-counts (failure ∷ cs) h =
    let bound = trailing-bound cs in
    rw (tracked-counts cs (omega arith)) (
      rw
        (record_failure_lem
          (record {
            status = expected_status (trailing cs) (last_success cs);
            failure_bits = trailing cs;
            last_success_time = last_success cs;
          })
          (omega arith))
        (ground arith))

-- 1 without failures, 2 up to two of them, 4 up to five, and 8 from then on.
abbrev pub expected_backoff : ℕ → ℕ
expected_backoff zero = 1
expected_backoff (suc n) = if leb n 1 then 2 else if leb n 4 then 4 else 8

backoff_of-expected : (n : ℕ) → backoff_of (pos n) ≡ expected_backoff n
unfolding backoff_of
backoff_of-expected zero = refl
backoff_of-expected (suc n) = ground arith

-- The backoff after any run shorter than 2^31 follows the failures since the last success, and a
-- success takes it back to 1.
pub backoff_multiplier-tracked :
    (cs : List Contact)
    → length cs < 2 ^ 31
    → (backoff_multiplier (tracked cs) ≡ expected_backoff (trailing cs))
      × ((now : ℕ) → backoff_multiplier (tracked (success now ∷ cs)) ≡ 1)
unfolding backoff_multiplier consecutive_failures backoff_of int32
backoff_multiplier-tracked cs h =
    let bound = trailing-bound cs in
    (
      rw (tracked-counts cs h, int32-small (trailing cs) (omega arith), backoff_of-expected),
      λ now. unfold tracked record_success in refl,
    )

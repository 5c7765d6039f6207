-- ===== src/Service.antt =====
-- internal/evaluator/service.go: the RPC handlers of the evaluator. What the fetcher and the
-- random jitter answer during the i-th evaluation of a call is the i-th world; the state server's
-- answers are arguments. Debug logs are left out.
pub mod Bulk
use pbflags.Common.{
  ℕ, zero, suc, Bool, true, false, Option, none, some, List, [], ◌∷◌, Str, ℤ, is_empty,
  if◌then◌else◌,
}
use pbflags.Flag.{FlagValue, EvaluationSource}
use pbflags.Message.{Message}
use pbflags.Health.{HealthTracker, EvaluatorStatus, consecutive_failures, seconds_since_contact}
use pbflags.CacheStore.{CachedFlagState}
use pbflags.CondCache.{CondCacheEntry}
use pbflags.Ristretto.{Ristretto}
use pbflags.Resolution.{World, Answer, Evaluator}
use pbflags.Evaluator.{evaluate_with_context}

pub data Code : Type 0 where
  invalid_argument internal not_found : Code

pub data Response (A : Type 0) : Type 0 where
  response : A → Response A
  failure : Code → Response A

pub record EvaluateResponse : Type 0 where
  pub flag_id : Str
  pub value : Option FlagValue
  pub source : EvaluationSource

pub record HealthResponse : Type 0 where
  pub status : EvaluatorStatus
  pub seconds_since_server_contact : ℕ
  pub cached_flag_count : ℤ
  pub consecutive_failures : ℤ

-- A decoding that failed, or the context if there is one.
pub data Decoded : Type 0 where
  undecodable : Decoded
  context : Option Message → Decoded

module _ (unmarshal : Str → Option Message) where
  -- UnmarshalContext: no bytes are no context.
  unfoldable pub unmarshal_context : Option Str → Decoded
  unmarshal_context none = context none
  unmarshal_context (some bytes) =
      if is_empty bytes
      then context none
      else elim (unmarshal bytes) [ none ↦ undecodable | some msg ↦ context (some msg) ]

  module _ (r : Ristretto CachedFlagState) (q : Ristretto CondCacheEntry) where
    -- unmarshalEvalContext
    unfoldable pub unmarshal_eval_context : Option Str → Evaluator r q → Decoded
    unmarshal_eval_context any_ctx e =
        if e.has_cond_eval then unmarshal_context any_ctx else context none

    unfoldable pub respond : Str → Answer × Evaluator r q → EvaluateResponse × Evaluator r q
    respond flag_id ((value, source), e) =
        (record { flag_id = flag_id; value = value; source = source }, e)

    unfoldable pub evaluate_decoded :
        World → Str → Decoded → Evaluator r q → Response EvaluateResponse × Evaluator r q
    evaluate_decoded w flag_id undecodable e = (failure Code.invalid_argument, e)
    evaluate_decoded w flag_id (context ctx) e =
        let (res, e') = respond flag_id (evaluate_with_context r q w flag_id ctx e) in
        (response res, e')

    -- Evaluate
    unfoldable pub evaluate :
        World → Str → Option Str → Evaluator r q → Response EvaluateResponse × Evaluator r q
    evaluate w flag_id any_ctx e = evaluate_decoded w flag_id (unmarshal_eval_context any_ctx e) e

    -- The loop of BulkEvaluate.
    unfoldable pub evaluate_all :
        List (World × Str) → Option Message → Evaluator r q → List EvaluateResponse × Evaluator r q
    evaluate_all [] ctx e = ([], e)
    evaluate_all ((w, flag_id) ∷ calls) ctx e =
        let (res, e') = respond flag_id (evaluate_with_context r q w flag_id ctx e) in
        let (rest, e'') = evaluate_all calls ctx e' in (res ∷ rest, e'')

    unfoldable pub bulk_decoded :
        List (World × Str)
        → Decoded
        → Evaluator r q
        → Response (List EvaluateResponse) × Evaluator r q
    bulk_decoded calls undecodable e = (failure Code.invalid_argument, e)
    bulk_decoded calls (context ctx) e =
        let (all, e') = evaluate_all calls ctx e in (response all, e')

    -- BulkEvaluate: an empty request is answered before its context is looked at.
    unfoldable pub bulk_evaluate :
        List (World × Str)
        → Option Str
        → Evaluator r q
        → Response (List EvaluateResponse) × Evaluator r q
    bulk_evaluate calls any_ctx e =
        if is_empty calls
        then (response [], e)
        else bulk_decoded calls (unmarshal_eval_context any_ctx e) e

-- Health
unfoldable pub health : ℕ → HealthTracker → ℤ → HealthResponse
health now tracker cached_flag_count = record {
  status = tracker.status;
  seconds_since_server_contact = seconds_since_contact now tracker;
  cached_flag_count = cached_flag_count;
  consecutive_failures = consecutive_failures tracker;
}

-- GetFlagState, over the state server's answer: an error, nothing, or the state.
unfoldable pub get_flag_state : {S : Type 0} → Str → Option (Option S) → Response S
get_flag_state flag_id answer =
    if is_empty flag_id then failure Code.invalid_argument else elim answer [
      | none ↦ failure Code.internal
      | some found ↦ elim found [ none ↦ failure Code.not_found | some resp ↦ response resp ]
    ]

-- GetKilledFlags
unfoldable pub get_killed_flags : {S : Type 0} → Option S → Response S
get_killed_flags none = failure Code.internal
get_killed_flags (some resp) = response resp

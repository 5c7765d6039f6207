-- ===== src/Service/Bulk.antt =====
-- BulkEvaluate of internal/evaluator/service.go against single evaluations.
use pbflags.Common.{
  Bool, if◌then◌else◌, true, false, none, some, is_empty, ◌⊎◌, inl, inr, ◌++◌, ◌+◌, ◌≡◌, refl,
  Option, List, [], ◌∷◌, Str, length, arith,
}
use pbflags.Message.{Message}
use pbflags.CacheStore.{CachedFlagState}
use pbflags.CondCache.{CondCacheEntry}
use pbflags.Ristretto.{Ristretto}
use pbflags.Resolution.{World, Evaluator}
use pbflags.Evaluator.{evaluate_with_context}
use pbflags.Evaluator.Counters.{evaluations}
use pbflags.Evaluator.Sources.{evaluate_with_context-counted}
use pbflags.Service.{
  EvaluateResponse, Response, response, failure, Decoded, undecodable, context, respond,
  evaluate_all, bulk_evaluate, bulk_decoded, unmarshal_eval_context, unmarshal_context, Code,
}

module _ (unmarshal : Str → Option Message) (r : Ristretto CachedFlagState)
    (q : Ristretto CondCacheEntry) where
  -- One response for each flag, in order: the answer of an evaluation in this context, in the
  -- evaluator that the ones before have left.
  abbrev pub Evaluated :
      List (World × Str)
      → Option Message
      → Evaluator r q
      → List EvaluateResponse
      → Evaluator r q
      → Type 0
  Evaluated [] ctx e [] e' = e' ≡ e
  Evaluated [] ctx e (x ∷ xs) e' = ⊥
  Evaluated (c ∷ calls) ctx e [] e' = ⊥
  Evaluated ((w, id) ∷ calls) ctx e (x ∷ xs) e' =
      let one = evaluate_with_context r q w id ctx e in
      (x.flag_id ≡ id)
      × (x.value ≡ one.0.0)
      × (x.source ≡ one.0.1)
      × Evaluated calls ctx one.1 xs e'

  -- The context that the bytes of a request stand for.
  pub data Reads (e : Evaluator r q) : Option Str → Option Message → Type 0 where
    unused : {any_ctx : Option Str} → e.has_cond_eval ≡ false → Reads e any_ctx none
    absent : Reads e none none
    blank : Reads e (some []) none
    decoded :
        {b : Str} {msg : Message}
        → e.has_cond_eval ≡ true
        → is_empty b ≡ false
        → unmarshal b ≡ some msg
        → Reads e (some b) (some msg)

  -- The request has bytes that are needed and cannot be decoded.
  abbrev pub IsRefused : Evaluator r q → Option Str → Type 0
  IsRefused e any_ctx =
      (b : Str) × (any_ctx ≡ some b)
      × (e.has_cond_eval ≡ true)
      × (is_empty b ≡ false)
      × (unmarshal b ≡ none)

  evaluate_all-Evaluated :
      (calls : List (World × Str)) (ctx : Option Message) (e : Evaluator r q)
      → Evaluated calls ctx e
          (evaluate_all unmarshal r q calls ctx e).0
          (evaluate_all unmarshal r q calls ctx e).1
  unfolding evaluate_all respond
  evaluate_all-Evaluated [] ctx e = refl
  evaluate_all-Evaluated ((w, id) ∷ calls) ctx e =
      (refl, refl, refl, evaluate_all-Evaluated calls ctx (evaluate_with_context r q w id ctx e).1)

  evaluate_all-counted :
      (calls : List (World × Str)) (ctx : Option Message) (e : Evaluator r q)
      → evaluations (evaluate_all unmarshal r q calls ctx e).1.metrics
        ≡ evaluations e.metrics + length calls
  unfolding evaluate_all respond
  evaluate_all-counted [] ctx e = omega arith
  evaluate_all-counted ((w, id) ∷ calls) ctx e =
      let rest = evaluate_all-counted calls ctx (evaluate_with_context r q w id ctx e).1 in
      let one = (evaluate_with_context-counted r q w id ctx e).1 in omega arith

  -- What a request is answered with: evaluations in the context that it has, each counted; or a
  -- refusal with nothing done, if it has flags and a context that cannot be decoded.
  abbrev pub Answered :
      List (World × Str)
      → Option Str
      → Evaluator r q
      → Response (List EvaluateResponse) × Evaluator r q
      → Type 0
  Answered calls any_ctx e (response all, e') =
      ((ctx : Option Message) × ((is_empty calls ≡ true) ⊎ Reads e any_ctx ctx)
        × Evaluated calls ctx e all e')
      × (evaluations e'.metrics ≡ evaluations e.metrics + length calls)
  Answered calls any_ctx e (failure code, e') =
      (is_empty calls ≡ false) × IsRefused e any_ctx × (code ≡ Code.invalid_argument) × (e' ≡ e)

  -- What the decoding says of the request.
  abbrev Decodes : Evaluator r q → Option Str → Decoded → Type 0
  Decodes e any_ctx undecodable = IsRefused e any_ctx
  Decodes e any_ctx (context ctx) = Reads e any_ctx ctx

  bytes-Decodes :
      (b : Str) (e : Evaluator r q) (o : Option Message)
      → e.has_cond_eval ≡ true
      → is_empty b ≡ false
      → unmarshal b ≡ o
      → Decodes e (some b) (elim o [ none ↦ undecodable | some msg ↦ context (some msg) ])
  bytes-Decodes b e none on full h = (b, refl, on, full, h)
  bytes-Decodes b e (some msg) on full h = decoded on full h

  used-Decodes :
      (any_ctx : Option Str) (e : Evaluator r q)
      → e.has_cond_eval ≡ true
      → Decodes e any_ctx (unmarshal_context unmarshal any_ctx)
  unfolding unmarshal_context
  used-Decodes none e on = absent
  used-Decodes (some []) e on = blank
  used-Decodes (some (b ∷ bs)) e on = bytes-Decodes (b ∷ bs) e (unmarshal (b ∷ bs)) on refl refl

  where_used-Decodes :
      (any_ctx : Option Str) (e : Evaluator r q) (on : Bool)
      → e.has_cond_eval ≡ on
      → Decodes e any_ctx (if on then unmarshal_context unmarshal any_ctx else context none)
  where_used-Decodes any_ctx e true h = used-Decodes any_ctx e h
  where_used-Decodes any_ctx e false h = unused h

  unmarshal_eval_context-Decodes :
      (any_ctx : Option Str) (e : Evaluator r q)
      → Decodes e any_ctx (unmarshal_eval_context unmarshal r q any_ctx e)
  unfolding unmarshal_eval_context
  unmarshal_eval_context-Decodes any_ctx e = where_used-Decodes any_ctx e e.has_cond_eval refl

  bulk_decoded-Answered :
      (calls : List (World × Str)) (any_ctx : Option Str) (d : Decoded) (e : Evaluator r q)
      → is_empty calls ≡ false
      → Decodes e any_ctx d
      → Answered calls any_ctx e (bulk_decoded unmarshal r q calls d e)
  unfolding bulk_decoded
  bulk_decoded-Answered calls any_ctx undecodable e some_calls h = (some_calls, h, refl, refl)
  bulk_decoded-Answered calls any_ctx (context ctx) e some_calls h =
      ((ctx, inr h, evaluate_all-Evaluated calls ctx e), evaluate_all-counted calls ctx e)

  -- BulkEvaluate answers each requested flag once and in order with an evaluation in the decoded
  -- context, and counts it; it refuses a request exactly where it has flags and bytes of a context
  -- that are needed and cannot be decoded, and then leaves the evaluator as it was.
  pub bulk_evaluate-Answered :
      (calls : List (World × Str)) (any_ctx : Option Str) (e : Evaluator r q)
      → Answered calls any_ctx e (bulk_evaluate unmarshal r q calls any_ctx e)
  unfolding bulk_evaluate
  bulk_evaluate-Answered [] any_ctx e = ((none, inl refl, refl), omega arith)
  bulk_evaluate-Answered (c ∷ cs) any_ctx e =
      bulk_decoded-Answered (c ∷ cs) any_ctx (unmarshal_eval_context unmarshal r q any_ctx e) e refl
        (unmarshal_eval_context-Decodes any_ctx e)

  -- A request for more flags is the request for the first, then one for the others in the
  -- evaluator that it leaves.
  pub evaluate_all-append :
      (calls more : List (World × Str)) (ctx : Option Message) (e : Evaluator r q)
      → evaluate_all unmarshal r q (calls ++ more) ctx e ≡ (
        (evaluate_all unmarshal r q calls ctx e).0
            ++ (evaluate_all unmarshal r q more ctx (evaluate_all unmarshal r q calls ctx e).1).0,
        (evaluate_all unmarshal r q more ctx (evaluate_all unmarshal r q calls ctx e).1).1,
      )
  unfolding evaluate_all respond
  evaluate_all-append [] more ctx e = refl
  evaluate_all-append ((w, id) ∷ calls) more ctx e =
      rw (evaluate_all-append calls more ctx (evaluate_with_context r q w id ctx e).1)

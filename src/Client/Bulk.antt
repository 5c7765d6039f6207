-- ===== src/Client/Bulk.antt =====
-- BulkEvaluate of the client library (pbflags/override.go, client.go, evaluator.go) and Evaluate of
-- each flag.
use pbflags.Common.{
  true, ◌≡◌, refl, sym, subst, ◌∙◌, Option, none, some, List, [], ◌∷◌, Str, arith, is_empty, Assoc,
  lookup, Bool-cases, Option-cases, inl, inr,
}
use pbflags.Flag.{FlagValue}
use pbflags.Message.{Message}
use pbflags.Client.{
  Evaluation, Call, returned, failed, panicked, Service, ClientEvaluator, Dimension, prepend, noop,
  client, overriding, overridden, delegated, fill, call_of, build_context, evaluate_flag,
  none_evaluated, filled, bulk_evaluate_flags,
}

-- Each flag with its result, one for one.
abbrev pub Each : (Str → Evaluation → Type 0) → List Str → List Evaluation → Type 0
Each P [] [] = Unit
Each P (id ∷ ids) (r ∷ rs) = P id r × Each P ids rs
Each P [] (r ∷ rs) = ⊥
Each P (id ∷ ids) [] = ⊥

-- The results of a call that returns, where the call does not panic.
abbrev pub Answers : (Str → Evaluation → Type 0) → List Str → Call (List Evaluation) → Type 0
Answers P ids (returned rs) = Each P ids rs
Answers P ids failed = Unit
Answers P ids panicked = ⊥

Answers-prepend :
    (P : Str → Evaluation → Type 0) (id : Str) (r : Evaluation) (ids : List Str)
    (c : Call (List Evaluation))
    → P id r
    → Answers P ids c
    → Answers P (id ∷ ids) (prepend r c)
Answers-prepend P id r ids (returned rs) h hs = (h, hs)
Answers-prepend P id r ids failed h hs = tt
Answers-prepend P id r ids panicked h hs = hs

module _ (service : Service) (fresh : Message) where
  -- The flag alone evaluates to the result.
  abbrev pub Evaluates : ClientEvaluator → Str → Evaluation → Type 0
  Evaluates e id r = evaluate_flag service fresh e id ≡ returned r

  -- The service answers a request for many flags as it does for each of them.
  pub record IsPointwise : Type 0 where
    pub bulk :
        (ctx : Option Str) (ids : List Str) (rs : List Evaluation)
        → service.bulk_evaluate ctx ids ≡ some rs
        → Each (λ id r. service.evaluate ctx id ≡ some r) ids rs

  noop-Each : (ids : List Str) → Each (Evaluates noop) ids (none_evaluated service fresh ids)
  unfolding none_evaluated evaluate_flag
  noop-Each [] = tt
  noop-Each (id ∷ ids) = (refl, noop-Each ids)

  client_evaluates :
      (dims : List Dimension) (ctx : Option Str) (id : Str) (r : Evaluation)
      → build_context service fresh dims ≡ some ctx
      → service.evaluate ctx id ≡ some r
      → evaluate_flag service fresh (client dims) id ≡ returned r
  unfolding evaluate_flag
  client_evaluates dims ctx id r made h = rw (made, h, evaluate_flag) refl

  override_evaluates :
      (overrides : Assoc FlagValue) (inner : ClientEvaluator) (id : Str) (v : FlagValue)
      → lookup id overrides ≡ some v
      → evaluate_flag service fresh (overriding overrides inner) id ≡ returned (overridden v)
  unfolding evaluate_flag
  override_evaluates overrides inner id v h = rw (h, evaluate_flag) refl

  inner_evaluates :
      (overrides : Assoc FlagValue) (inner : ClientEvaluator) (id : Str)
      → lookup id overrides ≡ none
      → evaluate_flag service fresh (overriding overrides inner) id
        ≡ evaluate_flag service fresh inner id
  unfolding evaluate_flag
  inner_evaluates overrides inner id h = rw (h, evaluate_flag) refl

  Each-client :
      (dims : List Dimension) (ctx : Option Str) (ids : List Str) (rs : List Evaluation)
      → build_context service fresh dims ≡ some ctx
      → Each (λ id r. service.evaluate ctx id ≡ some r) ids rs
      → Each (Evaluates (client dims)) ids rs
  unfolding evaluate_flag
  Each-client dims ctx [] [] made h = tt
  Each-client dims ctx [] (r ∷ rs) made h = h
  Each-client dims ctx (id ∷ ids) [] made h = h
  Each-client dims ctx (id ∷ ids) (r ∷ rs) made (h, hs) =
      (client_evaluates dims ctx id r made h, Each-client dims ctx ids rs made hs)

  delegated_overridden :
      (overrides : Assoc FlagValue) (id : Str) (ids : List Str) (v : FlagValue)
      → lookup id overrides ≡ some v
      → delegated overrides (id ∷ ids) ≡ delegated overrides ids
  unfolding delegated
  delegated_overridden overrides id ids v h = rw (h, delegated) refl

  delegated_next :
      (overrides : Assoc FlagValue) (id : Str) (ids : List Str)
      → lookup id overrides ≡ none
      → delegated overrides (id ∷ ids) ≡ id ∷ delegated overrides ids
  unfolding delegated
  delegated_next overrides id ids h = rw (h, delegated) refl

  fill-overridden :
      (overrides : Assoc FlagValue) (id : Str) (ids : List Str) (rs : List Evaluation)
      (v : FlagValue)
      → lookup id overrides ≡ some v
      → fill overrides (id ∷ ids) rs ≡ prepend (overridden v) (fill overrides ids rs)
  unfolding fill
  fill-overridden overrides id ids rs v h = rw (h, fill) refl

  fill_next :
      (overrides : Assoc FlagValue) (id : Str) (ids : List Str) (r : Evaluation)
      (rs : List Evaluation)
      → lookup id overrides ≡ none
      → fill overrides (id ∷ ids) (r ∷ rs) ≡ prepend r (fill overrides ids rs)
  unfolding fill
  fill_next overrides id ids r rs h = rw (h, fill) refl

  -- The inner results in the places of the flags that are not overridden.
  fill-Answers :
      (overrides : Assoc FlagValue) (inner : ClientEvaluator) (ids : List Str)
      (rs : List Evaluation)
      → Each (Evaluates inner) (delegated overrides ids) rs
      → Answers (Evaluates (overriding overrides inner)) ids (fill overrides ids rs)
  fill-Answers overrides inner [] rs h = unfold fill in tt
  fill-Answers overrides inner (id ∷ ids) rs h = elim (Option-cases (lookup id overrides)) [
    | inr (v, there) ↦
        subst (Answers (Evaluates (overriding overrides inner)) (id ∷ ids))
          (sym (fill-overridden overrides id ids rs v there))
          (Answers-prepend (Evaluates (overriding overrides inner)) id (overridden v) ids
            (fill overrides ids rs) (override_evaluates overrides inner id v there)
            (fill-Answers overrides inner ids rs (
              subst (λ xs. Each (Evaluates inner) xs rs)
                (delegated_overridden overrides id ids v there) h)))
    | inl gone ↦
        delegates rs gone (λ later hs. fill-Answers overrides inner ids later hs)
          (subst (λ xs. Each (Evaluates inner) xs rs) (delegated_next overrides id ids gone) h)
  ]
    where
      delegates :
          (rs : List Evaluation)
          → lookup id overrides ≡ none
          → ((later : List Evaluation)
              → Each (Evaluates inner) (delegated overrides ids) later
              → Answers (Evaluates (overriding overrides inner)) ids (fill overrides ids later))
          → Each (Evaluates inner) (id ∷ delegated overrides ids) rs
          → Answers
              (Evaluates (overriding overrides inner))
              (id ∷ ids)
              (fill overrides (id ∷ ids) rs)
      delegates [] gone next h = absurd h
      delegates (r ∷ later) gone next (h, hs) =
          subst (Answers (Evaluates (overriding overrides inner)) (id ∷ ids))
            (sym (fill_next overrides id ids r later gone))
            (Answers-prepend (Evaluates (overriding overrides inner)) id r ids
              (fill overrides ids later) (inner_evaluates overrides inner id gone ∙ h)
              (next later hs))

  Answers-filled :
      (overrides : Assoc FlagValue) (inner : ClientEvaluator) (ids : List Str)
      (c : Call (List Evaluation))
      → Answers (Evaluates inner) (delegated overrides ids) c
      → Answers (Evaluates (overriding overrides inner)) ids (filled service fresh overrides ids c)
  unfolding filled
  Answers-filled overrides inner ids (returned rs) h = fill-Answers overrides inner ids rs h
  Answers-filled overrides inner ids failed h = tt
  Answers-filled overrides inner ids panicked h = h

  service_answers :
      (dims : List Dimension) (ctx : Option Str) (ids : List Str) (o : Option (List Evaluation))
      → IsPointwise
      → build_context service fresh dims ≡ some ctx
      → service.bulk_evaluate ctx ids ≡ o
      → Answers (Evaluates (client dims)) ids (call_of o)
  service_answers dims ctx ids none pointwise made is = tt
  service_answers dims ctx ids (some rs) pointwise made is =
      Each-client dims ctx ids rs made (pointwise.bulk ctx ids rs is)

  client_answers :
      (dims : List Dimension) (ids : List Str)
      → IsPointwise
      → (o : Option (Option Str)) → build_context service fresh dims ≡ o
      → Answers
          (Evaluates (client dims))
          ids
          (elim o [ none ↦ failed | some ctx ↦ call_of (service.bulk_evaluate ctx ids) ])
  client_answers dims ids pointwise none made = tt
  client_answers dims ids pointwise (some ctx) made =
      service_answers dims ctx ids (service.bulk_evaluate ctx ids) pointwise made refl

  -- Where the service answers a request for many flags as it does for each of them, BulkEvaluate of
  -- an evaluator, however it is bound and overridden, does not panic, and where it returns, it has
  -- for each flag in its order the result that Evaluate returns for the flag.
  pub bulk_evaluate_flags-Answers :
      (e : ClientEvaluator) (ids : List Str)
      → IsPointwise
      → Answers (Evaluates e) ids (bulk_evaluate_flags service fresh e ids)
  unfolding bulk_evaluate_flags
  bulk_evaluate_flags-Answers noop ids pointwise = noop-Each ids
  bulk_evaluate_flags-Answers (client dims) ids pointwise =
      client_answers dims ids pointwise (build_context service fresh dims) refl
  bulk_evaluate_flags-Answers (overriding overrides inner) ids pointwise =
      elim (Bool-cases (is_empty (delegated overrides ids))) [
        | inl all_overridden ↦ rw all_overridden (
            fill-Answers overrides inner ids []
              (none_delegated (delegated overrides ids) all_overridden))
        | inr some_delegated ↦ rw some_delegated (
            Answers-filled overrides inner ids
              (bulk_evaluate_flags service fresh inner (delegated overrides ids))
              (bulk_evaluate_flags-Answers inner (delegated overrides ids) pointwise))
      ]
    where
      none_delegated : (rest : List Str) → is_empty rest ≡ true → Each (Evaluates inner) rest []
      none_delegated [] h = tt
      none_delegated (id ∷ rest) h = absurd (ground (arith, h))

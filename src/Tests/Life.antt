-- ===== src/Tests/Life.antt =====
-- An evaluator at work: kills, sources, and the condition cache.
use pbflags.Conditions.{launch_map, evaluate_conditions_with_overrides, override_at}
use pbflags.Common.{
  ◌+ℤ◌, put, contains, ◌≡◌, ◌↔◌, ◌⊎◌, refl, sym, ap, true, none, some, codes, lookup, is_some, Str,
  Option, arith, if◌then◌else◌, ◌=s◌, subst, Bool-cases, inl, inr, =s_iff, ◌+◌,
}
use pbflags.Message.{FieldValue, format_field_value}
use pbflags.Flag.{EvaluationSource}
use pbflags.CondCache.Split.{class_view}
use pbflags.CacheStore
use pbflags.CondCache
use pbflags.CondCache.{version_at}
use pbflags.CacheStore.{CachedFlagState, is_killed}
use pbflags.Resolution.{
  background_refresh_flag, eval_flag_state, eval_flag_state_with_source, invalidate, resolve_fetch,
  resolve_hot, resolve_stale, set_flag_state, store_fetched, fetched, resolve_global_with_state,
  Evaluator,
}
use pbflags.Evaluator.{
  after_resolve, apply_static_default_override, cache_key, cached_entry, conclude, cond_phase,
  conditions_of, found_verdict, from_entry, hit_source, killed_answer, remember, run_chain,
  static_answer, static_override, try_cache, use_cond_cache, chain_result, version_of,
  evaluate_with_context,
}
use pbflags.Evaluator.Counters.{inc_eval, evaluations}
use pbflags.Evaluator.Resolve.{IsHonest, IsTrusted, IsTimely, Own}
use pbflags.Evaluator.Sources.{
  evaluate_with_context-killed, evaluate_with_context-counted, is_live_source,
}
use pbflags.Evaluator.Steps.{HasRoom, Reach, here, next, eval, Reach-resolve}
use pbflags.Evaluator.Coherence.{IsCoherent}
use pbflags.Evaluator.Reached.{Reach-IsCoherent}
use pbflags.Evaluator.Fresh.{IsCovered, IsShaped, IsCacheable}
use pbflags.Evaluator.Transparent.{SameAnswer, uncached, evaluate_with_context-uncached}
use pbflags.Tests.{
  Program, Outcome, pro, free, plan, flag, state, fetch_state, world, hot, results, start,
  plan_meta, for_pro, otherwise, is_pro, text_is_pro,
}

evaluate_with_context-killed_example :
    (evaluate_with_context hot results world (codes "dead") none start).0
      ≡ (none, EvaluationSource.killed)
    ↔ (is_killed (CacheStore.get_kill_set hot start.cache) (codes "dead") ≡ true)
evaluate_with_context-killed_example =
    evaluate_with_context-killed hot results world (codes "dead") none start

evaluate_with_context-counted_example :
    (((evaluate_with_context hot results world flag (some pro) start).0.1 ≡ EvaluationSource.killed)
      ⊎ (is_live_source hot results
            (evaluate_with_context hot results world flag (some pro) start).0.1
          ≡ true))
    × (evaluations (evaluate_with_context hot results world flag (some pro) start).1.metrics
        ≡ evaluations start.metrics + 1)
evaluate_with_context-counted_example =
    evaluate_with_context-counted hot results world flag (some pro) start

same_text :
    (o p : Option FieldValue)
    → is_some o ≡ true
    → is_some p ≡ true
    → ((v w : FieldValue) → o ≡ some v → p ≡ some w → format_field_value v ≡ format_field_value w)
    → text_is_pro o ≡ text_is_pro p
same_text none p h k e = absurd (ground arith)
same_text (some v) none h k e = absurd (ground arith)
same_text (some v) (some w) h k e = ap (λ t. Outcome.bool_out (t =s codes "pro")) (e v w refl refl)

for_pro-IsCovered : IsCovered pro state.dim_meta for_pro
unfolding ◌=s◌ format_field_value class_view lookup
for_pro-IsCovered c d p q same program is =
    let one : is_pro ≡ program = ground arith in
    subst (λ (f : Program). f c ≡ f d) one
      (same_text (c.by_name plan) (d.by_name plan) (sym (p plan)) (sym (q plan))
        (λ v w cv dw. same plan plan_meta v w refl cv dw))

otherwise-IsCovered : IsCovered pro state.dim_meta otherwise
otherwise-IsCovered c d p q same program is = absurd (ground arith)

state-IsCacheable : IsCacheable pro flag state
state-IsCacheable = record {
  named = (λ e. absurd (ground arith), tt);
  covered = (for_pro-IsCovered, (otherwise-IsCovered, tt));
}

fetch_state-flag :
    (id : Str) (st : CachedFlagState)
    → fetch_state id ≡ fetched (some st)
    → (id ≡ flag) × (st ≡ state)
fetch_state-flag id st h = ground (arith, =s_iff id flag)

world-IsHonest : IsHonest (IsCacheable pro) world
world-IsHonest = record {
  answers = λ id st h.
      let (ids, states) = fetch_state-flag id st h in
      subst (λ i. (st.flag_id ≡ i) × IsCacheable pro i st) (sym ids)
        (subst (λ (s : CachedFlagState). (s.flag_id ≡ flag) × IsCacheable pro flag s) (sym states)
          (refl, state-IsCacheable));
}

start-IsTrusted : IsTrusted hot results (IsCacheable pro) start
start-IsTrusted = record {
  trusted = record {
    hot = λ id w h. absurd (unfold lookup in ground arith);
    stale = λ id w h. absurd (unfold lookup in ground arith);
  };
}

start-IsCoherent : IsCoherent hot results (IsCacheable pro) (IsShaped pro) start
start-IsCoherent = record { origins = λ key en h. absurd (unfold lookup in ground arith) }

start-HasRoom : HasRoom hot results start
start-HasRoom id = unfold version_of CondCache.flag_version version_at lookup in omega arith

-- After one evaluation for a free plan.
abbrev used : Evaluator hot results
used = (evaluate_with_context hot results world flag (some free) start).1

same_shape : IsShaped pro (some free)
same_shape name = elim (Bool-cases (name =s plan)) [ inl e ↦ rw e | inr e ↦ rw e ]

start-misses : {st : CachedFlagState} → CacheStore.get_flag_state hot flag start.cache ≡ some st → ⊥
unfolding lookup CacheStore.get_flag_state
start-misses h = ground (arith, h)

start-IsTimely : IsTimely hot results (IsCacheable pro) flag start
start-IsTimely = record { latest = λ st h. absurd (start-misses h) }

one_step :
    Reach hot results
      (IsCacheable pro)
      (IsShaped pro)
      (IsTimely hot results (IsCacheable pro))
      start
      used
one_step =
    next here
      (eval world flag (some free) start world-IsHonest same_shape start-HasRoom start-IsTimely)

Reach-IsCoherent_example :
    IsTrusted hot results (IsCacheable pro) used
    × IsCoherent hot results (IsCacheable pro) (IsShaped pro) used
Reach-IsCoherent_example =
    Reach-IsCoherent hot results (IsCacheable pro) (IsShaped pro) start-IsTrusted start-IsCoherent
      one_step

used-resolves : (resolve_global_with_state hot results world flag used).0.0 ≡ some state
unfolding evaluate_with_context resolve_global_with_state after_resolve
    apply_static_default_override background_refresh_flag cache_key cached_entry conclude cond_phase
    conditions_of eval_flag_state eval_flag_state_with_source found_verdict from_entry hit_source
    invalidate killed_answer remember resolve_fetch resolve_hot resolve_stale run_chain
    set_flag_state static_answer static_override store_fetched try_cache use_cond_cache version_of
    chain_result is_killed contains ◌=s◌ lookup put version_at inc_eval format_field_value
    launch_map evaluate_conditions_with_overrides override_at CacheStore.get_kill_set
    CacheStore.get_flag_state CacheStore.get_stale_flag_state CacheStore.set_flag_state
    CondCache.get CondCache.set CondCache.set_no_match CondCache.invalidate_flag
    CondCache.flag_version ◌+ℤ◌
used-resolves = refl

Reach-resolve_example :
    Own (IsCacheable pro) flag state
    × (IsTimely hot results (IsCacheable pro) flag used
        → lookup flag (resolve_global_with_state hot results world flag used).1.cache.stale_flag_map
          ≡ some state)
Reach-resolve_example =
    Reach-resolve hot results start-IsTrusted one_step world flag state world-IsHonest used-resolves

used-version :
    (id : Str) → version_of hot results id used.cond_cache ≡ (if flag =s id then 1 else 0)
unfolding evaluate_with_context resolve_global_with_state after_resolve
    apply_static_default_override background_refresh_flag cache_key cached_entry conclude cond_phase
    conditions_of eval_flag_state eval_flag_state_with_source found_verdict from_entry hit_source
    invalidate killed_answer remember resolve_fetch resolve_hot resolve_stale run_chain
    set_flag_state static_answer static_override store_fetched try_cache use_cond_cache version_of
    chain_result is_killed contains ◌=s◌ lookup put version_at inc_eval format_field_value
    launch_map evaluate_conditions_with_overrides override_at CacheStore.get_kill_set
    CacheStore.get_flag_state CacheStore.get_stale_flag_state CacheStore.set_flag_state
    CondCache.get CondCache.set CondCache.set_no_match CondCache.invalidate_flag
    CondCache.flag_version ◌+ℤ◌
used-version id = elim (Bool-cases (flag =s id)) [
  | inl same ↦ rw same refl
  | inr differs ↦ rw differs refl
]

used-HasRoom : HasRoom hot results used
used-HasRoom id = let v = used-version id in ground (arith, v)

used-answers :
    (CacheStore.get_flag_state hot flag used.cache ≡ some state)
    × (lookup flag used.cache.stale_flag_map ≡ some state)
unfolding evaluate_with_context resolve_global_with_state after_resolve
    apply_static_default_override background_refresh_flag cache_key cached_entry conclude cond_phase
    conditions_of eval_flag_state eval_flag_state_with_source found_verdict from_entry hit_source
    invalidate killed_answer remember resolve_fetch resolve_hot resolve_stale run_chain
    set_flag_state static_answer static_override store_fetched try_cache use_cond_cache version_of
    chain_result is_killed contains ◌=s◌ lookup put version_at inc_eval format_field_value
    launch_map evaluate_conditions_with_overrides override_at CacheStore.get_kill_set
    CacheStore.get_flag_state CacheStore.get_stale_flag_state CacheStore.set_flag_state
    CondCache.get CondCache.set CondCache.set_no_match CondCache.invalidate_flag
    CondCache.flag_version ◌+ℤ◌
used-answers = (refl, refl)

used-IsTimely : IsTimely hot results (IsCacheable pro) flag used
used-IsTimely = record {
  latest = λ st h. let (hot_is, stale_is) = used-answers in cc (hot_is, stale_is, h);
}

evaluate_with_context-uncached_example :
    SameAnswer
      (evaluate_with_context hot results world flag (some pro) used).0
      (evaluate_with_context hot results world flag (some pro) (uncached hot results used)).0
evaluate_with_context-uncached_example =
    evaluate_with_context-uncached hot results pro world flag (some pro) start used start-IsTrusted
      start-IsCoherent one_step world-IsHonest used-HasRoom (λ name. refl) used-IsTimely

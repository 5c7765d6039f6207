-- ===== src/Conditions/Agreement.antt =====
-- When the chain of internal/evaluator/conditions.go cannot tell two contexts apart.
use pbflags.Common.{
  int32, Option-cases, inr, inl, is_empty, Bool-cases, ℤ, suc, ℕ, ◌≡◌, refl, Option, none, some,
  List, [], ◌∷◌, Str, Assoc, arith, lookup, put, lookup-put, All,
}
use pbflags.Message.{Message}
use pbflags.Launch.{CachedLaunch, in_ramp}
use pbflags.Conditions.{
  override_at, FlagValue, apply_launch_override_value, launch_override, base_value, CachedCondition,
  Program, Overrides, build_result, try_condition, eval_chain, launch_map,
  evaluate_conditions_with_overrides,
}

-- The condition's program yields the same in both contexts.
abbrev pub SameOutcome : Message → Message → CachedCondition → Type 0
SameOutcome c d cond = (p : Program) → cond.program ≡ some p → p c ≡ p d

-- The two contexts are on one side of the ramp.
abbrev pub SameRamp : Message → Message → CachedLaunch → Type 0
SameRamp c d l = in_ramp l c ≡ in_ramp l d

module _ (c d : Message) where
  abbrev SameRamps : Assoc CachedLaunch → Type 0
  SameRamps m = (k : Str) (l : CachedLaunch) → lookup k m ≡ some l → SameRamp c d l

  SameRamps-put :
      (k : Str) (l : CachedLaunch) (m : Assoc CachedLaunch)
      → SameRamp c d l
      → SameRamps m
      → SameRamps (put k l m)
  SameRamps-put k l m same h j l' found = ground (arith, lookup-put k j l m, h j l')

  SameRamps-launch_map :
      (ls : List CachedLaunch) (m : Assoc CachedLaunch)
      → All (SameRamp c d) ls
      → SameRamps m
      → SameRamps (launch_map ls m)
  unfolding launch_map
  SameRamps-launch_map [] m _ h = h
  SameRamps-launch_map (l ∷ ls) m (same, rest) h =
      SameRamps-launch_map ls (put l.launch_id l m) rest (SameRamps-put l.launch_id l m same h)

  launch_override-same :
      (cond : CachedCondition) (v : FlagValue) (base : Option FlagValue)
      (found : Option CachedLaunch)
      → ((l : CachedLaunch) → found ≡ some l → SameRamp c d l)
      → launch_override cond v base found c ≡ launch_override cond v base found d
  unfolding launch_override
  launch_override-same cond v base none h = refl
  launch_override-same cond v base (some l) h = rw (h l refl)

  module _ (o : Overrides) (m : Assoc CachedLaunch) (same : SameRamps m) where
    apply-same :
        (cond : CachedCondition) (base : Option FlagValue)
        → apply_launch_override_value cond base m (some c)
          ≡ apply_launch_override_value cond base m (some d)
    unfolding apply_launch_override_value
    apply-same cond base = elim (Bool-cases (is_empty cond.launch_id)) [
      | inl unnamed ↦ rw unnamed
      | inr named ↦ elim (Option-cases cond.launch_value) [
        | inl none_given ↦ rw none_given
        | inr (v, given) ↦
            rw (named, given)
              (launch_override-same cond v base (lookup cond.launch_id m)
                (λ l found. same cond.launch_id l found))
      ]
    ]

    build_result-same :
        (cond : CachedCondition) (i : ℤ) (n : ℕ)
        → build_result cond i o m (some c) n ≡ build_result cond i o m (some d) n
    unfolding build_result
    build_result-same cond i n = rw (apply-same cond (base_value cond (override_at i o)).0)

    try_condition-same :
        (p : Option Program) (n : ℕ)
        → ((f : Program) → p ≡ some f → f c ≡ f d)
        → try_condition p (some c) n ≡ try_condition p (some d) n
    unfolding try_condition
    try_condition-same none n h = refl
    try_condition-same (some f) n h = rw (h f refl)

    eval_chain-same :
        (conds : List CachedCondition) (i n : ℕ)
        → All (SameOutcome c d) conds
        → eval_chain (some c) o m conds i n ≡ eval_chain (some d) o m conds i n
    unfolding eval_chain
    eval_chain-same [] i n _ = refl
    eval_chain-same (cond ∷ cs) i n (h, hs) =
        let e = try_condition-same cond.program n h in
        rw (
          e,
          eval_chain-same cs (suc i) (try_condition cond.program (some d) n).1 hs,
          build_result-same cond (int32 i) (try_condition cond.program (some d) n).1,
        )

-- Contexts in which every program yields the same, on the same side of every ramp, have the same
-- result of the chain.
pub evaluate-agreement :
    (conds : List CachedCondition) (c d : Message) (o : Overrides) (ls : List CachedLaunch)
    → All (SameOutcome c d) conds
    → All (SameRamp c d) ls
    → evaluate_conditions_with_overrides conds (some c) o ls
      ≡ evaluate_conditions_with_overrides conds (some d) o ls
unfolding evaluate_conditions_with_overrides
evaluate-agreement conds c d o ls outcomes ramps =
    eval_chain-same c d o (launch_map ls [])
      (SameRamps-launch_map c d ls [] ramps (λ k l found. absurd (unfold lookup in ground arith)))
      conds 0 0 outcomes

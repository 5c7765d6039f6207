-- ===== src/Conditions/Chain.antt =====
-- The loop of internal/evaluator/conditions.go against its specification: the first condition that
-- matches decides.
use pbflags.Common.{
  int32, length, ◌++◌, All, ℕ, suc, ◌+◌, ◌≡◌, refl, Bool, true, false, Option, none, some, List, [],
  ◌∷◌, Assoc, arith, if◌then◌else◌,
}
use pbflags.Message.{Message}
use pbflags.Launch.{CachedLaunch}
use pbflags.Conditions.{
  launch_map, evaluate_conditions_with_overrides, CachedCondition, EvalResult, Overrides, is_true,
  no_result, build_result, eval_chain,
}

-- When a condition matches, without the loop: an "otherwise" always, a program only in a context
-- in which it yields true. An evaluation error is no match.
abbrev pub matches : Option Message → CachedCondition → Bool
matches ctx c = elim c.program [
  | none ↦ true
  | some p ↦ elim ctx [ none ↦ false | some m ↦ is_true (p m) ]
]

-- Whether the loop runs a program for the condition.
abbrev pub runs : Option Message → CachedCondition → ℕ
runs ctx c = elim c.program [ none ↦ 0 | some p ↦ elim ctx [ none ↦ 0 | some _ ↦ 1 ] ]

-- The first match with its index, and how many programs were run to find it.
pub record Found : Type 0 where
  pub cond : CachedCondition
  pub index : ℕ
  pub checked : ℕ

pub first_match : Option Message → List CachedCondition → ℕ → ℕ → Option Found
first_match ctx [] i checked = none
first_match ctx (c ∷ cs) i checked =
    let rest = first_match ctx cs (suc i) (checked + runs ctx c) in
    if matches ctx c
    then some (record { cond = c; index = i; checked = checked + runs ctx c })
    else rest

unfoldable pub programs_run : Option Message → List CachedCondition → ℕ → ℕ
programs_run ctx [] checked = checked
programs_run ctx (c ∷ cs) checked = programs_run ctx cs (checked + runs ctx c)

module _ (ctx : Option Message) (overrides : Overrides) (launches : Assoc CachedLaunch) where
  abbrev pub decided : Option Found → ℕ → EvalResult
  decided none ran = no_result ran
  decided (some f) ran = build_result f.cond (int32 f.index) overrides launches ctx f.checked

  eval_chain-first_match :
      (conds : List CachedCondition) (i checked : ℕ)
      → eval_chain ctx overrides launches conds i checked
        ≡ decided (first_match ctx conds i checked) (programs_run ctx conds checked)
  unfolding eval_chain first_match programs_run
  eval_chain-first_match [] i checked = refl
  eval_chain-first_match (c ∷ cs) i checked =
      ground (arith, eval_chain-first_match cs (suc i) (checked + runs ctx c))

-- None of the conditions matches.
abbrev pub NoneMatches : Option Message → List CachedCondition → Type 0
NoneMatches ctx = All (λ c. matches ctx c ≡ false)

first_match-append :
    (ctx : Option Message) (before : List CachedCondition) (c : CachedCondition)
    (after : List CachedCondition) (i n : ℕ)
    → NoneMatches ctx before
    → matches ctx c ≡ true
    → first_match ctx (before ++ c ∷ after) i n
      ≡ some (record {
        cond = c;
        index = length before + i;
        checked = programs_run ctx before n + runs ctx c;
      })
unfolding first_match programs_run
first_match-append ctx [] c after i n _ h = rw h (let e : 0 + i ≡ i = omega arith in rw e)
first_match-append ctx (b ∷ bs) c after i n (q, qs) h =
    rw (q, first_match-append ctx bs c after (suc i) (n + runs ctx b) qs h)
      (let e : length bs + suc i ≡ suc (length bs) + i = omega arith in rw e)

first_match-none :
    (ctx : Option Message) (conds : List CachedCondition) (i n : ℕ)
    → NoneMatches ctx conds
    → first_match ctx conds i n ≡ none
unfolding first_match
first_match-none ctx [] i n _ = refl
first_match-none ctx (c ∷ cs) i n (q, qs) =
    rw q (first_match-none ctx cs (suc i) (n + runs ctx c) qs)

module _ (ctx : Option Message) (overrides : Overrides) (launches : List CachedLaunch) where
  pub evaluate-eval_chain :
      (conds : List CachedCondition)
      → evaluate_conditions_with_overrides conds ctx overrides launches
        ≡ eval_chain ctx overrides (launch_map launches []) conds 0 0
  unfolding evaluate_conditions_with_overrides
  evaluate-eval_chain conds = refl

  -- The first condition that matches decides: its place in the chain picks the override, and the
  -- programs that are counted are those up to it.
  pub evaluate-first :
      (before : List CachedCondition) (c : CachedCondition) (after : List CachedCondition)
      → NoneMatches ctx before
      → matches ctx c ≡ true
      → evaluate_conditions_with_overrides (before ++ c ∷ after) ctx overrides launches
        ≡ build_result c
            (int32 (length before))
            overrides
            (launch_map launches [])
            ctx
            (programs_run ctx before 0 + runs ctx c)
  evaluate-first before c after h m =
      rw
        (evaluate-eval_chain, eval_chain-first_match, first_match-append ctx before c after 0 0 h m)
        (let e : length before + 0 ≡ length before = omega arith in rw e)

  -- Where no condition matches the result is empty, and counts the programs that were run.
  pub evaluate-none :
      (conds : List CachedCondition)
      → NoneMatches ctx conds
      → evaluate_conditions_with_overrides conds ctx overrides launches
        ≡ no_result (programs_run ctx conds 0)
  evaluate-none conds h =
      rw (evaluate-eval_chain, eval_chain-first_match, first_match-none ctx conds 0 0 h)

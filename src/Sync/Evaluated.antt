-- ===== src/Sync/Evaluated.antt =====
-- What a flag's configuration means, and that this is what the evaluator answers after
-- internal/sync/conditions.go has compiled and stored it and internal/evaluator/conditions.go has
-- read it back.
use pbflags.Common.{
  ℤ, ℕ, suc, Bool, true, false, ◌≡◌, refl, sym, ◌∙◌, ap, Option, none, some, List, [], ◌∷◌, Str,
  if◌then◌else◌, is_empty, Bool-cases, Option-cases, inl, inr, arith, Assoc, lookup, int32,
}
use pbflags.Flag.{FlagValue, FlagType}
use pbflags.Message.{Message}
use pbflags.Launch.{CachedLaunch, in_ramp}
use pbflags.Conditions.{
  evaluate_conditions_with_overrides, try_condition, override_at, StoredCondition, CachedCondition,
  Codec, Program, is_true, launch_map, eval_chain, compile_all, compile_conditions,
  evaluate_conditions, build_result,
}
use pbflags.Classify.{Expr}
use pbflags.ConfigFile.Entries.{FlagEntry, Condition, LaunchOverride}
use pbflags.ConfigFile.Entries.Chains.{IsEntry, all_typed, launch_typed}
use pbflags.Database.{Error, ok}
use pbflags.Sync.Compile.{
  or_error, CompiledFlag, Classified, with_launch, bare_condition, stored_condition, stored_chain,
  compile_static, compile_chain, compile_value, compile_flag,
}
use pbflags.Sync.Stored
use pbflags.Sync.Stored.{ap_conditions, or_error_ok, step_ok, IsWire}

-- The meaning of a configuration, by its source: an expression matches only in a context in which
-- it is true, no expression always, and a launch changes the value of those in its ramp.
module _ (holds : Str → Message → Bool) (launches : Assoc CachedLaunch) (ctx : Option Message) where
  unfoldable pub in_launch : Str → Bool
  in_launch id = elim ctx [
    | none ↦ false
    | some c ↦ elim (lookup id launches) [ none ↦ false | some l ↦ in_ramp l c ]
  ]

  unfoldable pub launched : FlagValue → Option LaunchOverride → FlagValue
  launched v none = v
  launched v (some launch) = if in_launch launch.id then launch.value else v

  unfoldable pub when_matches : Str → Bool
  when_matches [] = true
  when_matches (x ∷ xs) = elim ctx [ none ↦ false | some c ↦ holds (x ∷ xs) c ]

  unfoldable pub chain_value : List Condition → Option FlagValue
  chain_value [] = none
  chain_value (cond ∷ conds) =
      let rest = chain_value conds in
      if when_matches cond.when_text then some (launched cond.value cond.launch) else rest

  unfoldable pub configured_by : Option FlagValue → FlagEntry → Option FlagValue
  configured_by (some v) entry = some (launched v entry.launch)
  configured_by none entry = chain_value entry.conditions

  unfoldable pub configured : FlagEntry → Option FlagValue
  configured entry = configured_by entry.value entry

-- When the evaluator's loop takes a condition with the program.
abbrev program_matches : Option Message → Option Program → Bool
program_matches ctx none = true
program_matches none (some p) = false
program_matches (some c) (some p) = is_true (p c)

module _ (marshal : FlagValue → Option Str) (marshal_conditions : List StoredCondition → Option Str)
    (compile : Str → Option Expr) (run : Expr → Program) (codec : Codec)
    (wire : IsWire marshal marshal_conditions compile run codec) where
  abbrev SameProgram : Str → Option Program → Type 0
  SameProgram = Stored.SameProgram marshal marshal_conditions compile run codec wire

  abbrev Means : Str → FlagValue → Option LaunchOverride → CachedCondition → Type 0
  Means = Stored.Means marshal marshal_conditions compile run codec wire

  abbrev AllMean : List Condition → List CachedCondition → Type 0
  AllMean = Stored.AllMean marshal marshal_conditions compile run codec wire

  module _ (holds : Str → Message → Bool) (launches : List CachedLaunch) (ctx : Option Message)
      (truth : (s : Str) (e : Expr) (c : Message)
        → compile s ≡ some e
        → is_true (run e c) ≡ holds s c) where
    when_same :
        (when_text : Str) (program : Option Program)
        → SameProgram when_text program
        → program_matches ctx program ≡ when_matches holds (launch_map launches []) ctx when_text
    unfolding when_matches
    when_same [] program same = elim same [
      | inl (empty, nothing) ↦ rw nothing refl
      | inr (e, compiled, there, program_is) ↦ absurd (ground (arith, there))
    ]
    when_same (x ∷ xs) program same = elim same [
      | inl (empty, nothing) ↦ absurd (ground (arith, empty))
      | inr (e, compiled, there, program_is) ↦ elim (Option-cases ctx) [
        | inl nowhere ↦ rw (program_is, nowhere) refl
        | inr (c, here) ↦ rw (program_is, here) (truth (x ∷ xs) e c compiled)
      ]
    ]

    result_value :
        (when_text : Str) (v : FlagValue) (launch : Option LaunchOverride) (c : CachedCondition)
        (i : ℤ) (n : ℕ)
        → Means when_text v launch c
        → (build_result c i [] (launch_map launches []) ctx n).value
          ≡ some (launched holds (launch_map launches []) ctx v launch)
    unfolding build_result launched in_launch override_at
    result_value when_text v launch c i n m = elim m.override [
      | inl (no_launch, no_id) ↦ ground (arith, m.value, no_launch, no_id)
      | inr (l, launch_is, id_is, there, value_is) ↦
          ground (arith, m.value, launch_is, id_is, there, value_is)
    ]

    tried :
        (program : Option Program) (n : ℕ)
        → (try_condition program ctx n).0 ≡ program_matches ctx program
    unfolding try_condition
    tried none n = refl
    tried (some p) n = elim (Option-cases ctx) [
      | inl nowhere ↦ rw nowhere refl
      | inr (c, here) ↦ rw here refl
    ]

    eval_chain-AllMean :
        (conds : List Condition) (cs : List CachedCondition) (i n : ℕ)
        → AllMean conds cs
        → (eval_chain ctx [] (launch_map launches []) cs i n).value
          ≡ chain_value holds (launch_map launches []) ctx conds
    unfolding eval_chain chain_value
    eval_chain-AllMean [] [] i n m = refl
    eval_chain-AllMean [] (c ∷ cs) i n m = absurd m
    eval_chain-AllMean (cond ∷ conds) [] i n m = absurd m
    eval_chain-AllMean (cond ∷ conds) (c ∷ cs) i n (m, ms) =
        let hit = tried c.program n ∙ when_same cond.when_text c.program m.program in
        elim (Bool-cases (when_matches holds (launch_map launches []) ctx cond.when_text)) [
          | inl takes ↦
              rw (hit, takes)
                (result_value cond.when_text cond.value cond.launch c (int32 i)
                  (try_condition c.program ctx n).1 m)
          | inr passes ↦
              rw (hit, passes)
                (eval_chain-AllMean conds cs (suc i) (try_condition c.program ctx n).1 ms)
        ]

    -- A stored chain whose entries compile is evaluated as the conditions that it means.
    evaluated :
        (conds : List Condition) (scs : List StoredCondition) (cs : List CachedCondition)
        (bytes : Str)
        → is_empty scs ≡ false
        → marshal_conditions scs ≡ some bytes
        → compile_all codec scs ≡ some cs
        → AllMean conds cs
        → (evaluate_conditions (compile_conditions codec bytes) ctx launches).value
          ≡ chain_value holds (launch_map launches []) ctx conds
    unfolding compile_conditions evaluate_conditions evaluate_conditions_with_overrides
    evaluated conds [] cs bytes some_there stored compiled mean =
        absurd (ground (arith, some_there))
    evaluated conds (sc ∷ scs) cs bytes some_there stored compiled mean =
        rw (wire.chain_set sc scs bytes stored, wire.chain (sc ∷ scs) bytes stored, compiled)
          (eval_chain-AllMean conds cs 0 0 mean)

    module _ (equal : Option FlagValue → Option FlagValue → Bool) (bounded : Str → Bool) where
      static_evaluated :
          (ft : FlagType) (v : FlagValue) (launch : Option LaunchOverride) (out : CompiledFlag)
          (bytes : Str)
          → launch_typed ft launch ≡ true
          → compile_static marshal compile equal bounded v launch ≡ ok out
          → marshal_conditions out.conditions ≡ some bytes
          → (evaluate_conditions (compile_conditions codec bytes) ctx launches).value
            ≡ some (launched holds (launch_map launches []) ctx v launch)
      unfolding compile_static
      static_evaluated ft v launch out bytes fit h stored =
          let (value_bytes, encoded, h1) =
            step_ok (or_error Error.marshal_error (marshal v)) _ out h in
          let (sc, made, h2) =
            step_ok
              (with_launch marshal compile launch
                (bare_condition marshal compile [] value_bytes []))
              _ out h1 in
          let this : record { conditions = sc ∷ []; dim_meta = []; warnings = [] } ≡ out = cc h2 in
          let (c, compiled, means) =
            Stored.launched_condition marshal marshal_conditions compile run codec wire ft launch []
              value_bytes [] v sc none fit
              (or_error_ok Error.marshal_error (marshal v) value_bytes encoded) made
              (inl (refl, refl)) in
          evaluated (record { when_text = []; value = v; comment = []; launch = launch } ∷ [])
            (sc ∷ []) (c ∷ []) bytes refl (ap (λ o. marshal_conditions o.conditions) this ∙ stored)
            (Stored.compile_all_next marshal marshal_conditions compile run codec wire sc [] c []
              compiled (unfold compile_all in refl))
            (means, tt)
          ∙ unfold chain_value when_matches in refl

      stored_size :
          (i : ℕ) (conds : List Condition) (chain : List StoredCondition × List Classified)
          → stored_chain marshal compile i conds ≡ ok chain
          → is_empty conds ≡ false
          → is_empty chain.0 ≡ false
      unfolding stored_chain
      stored_size i [] chain h there = absurd (ground (arith, there))
      stored_size i (cond ∷ conds) chain h there =
          let (one, made, h1) = step_ok (stored_condition marshal compile i cond) _ chain h in
          let (rest, later, h2) = step_ok (stored_chain marshal compile (suc i) conds) _ chain h1 in
          let this : (one.0 ∷ rest.0, one.1 ∷ rest.1) ≡ chain = cc h2 in
          ap (λ x. is_empty x.0) (sym this)

      chain_evaluated :
          (ft : FlagType) (conds : List Condition) (out : CompiledFlag) (bytes : Str)
          → all_typed ft conds ≡ true
          → is_empty conds ≡ false
          → compile_chain marshal compile equal bounded conds ≡ ok out
          → marshal_conditions out.conditions ≡ some bytes
          → (evaluate_conditions (compile_conditions codec bytes) ctx launches).value
            ≡ chain_value holds (launch_map launches []) ctx conds
      unfolding compile_chain
      chain_evaluated ft conds out bytes fit there h stored =
          let (chain, made, h1) = step_ok (stored_chain marshal compile 0 conds) _ out h in
          let (cs, compiled, means) =
            Stored.stored_chain-AllMean marshal marshal_conditions compile run codec wire ft 0 conds
              chain fit made in
          let same : chain.0 ≡ out.conditions = cc (ap_conditions _ out h1) in
          evaluated conds chain.0 cs bytes (stored_size 0 conds chain made there)
            (ap marshal_conditions same ∙ stored) compiled means

      -- A configuration that Parse accepts for a flag is what the evaluator answers once sync has
      -- compiled and stored it: the launched or plain value of the first condition whose expression
      -- is true in the context, or of the static value. No live override is set.
      pub compile_flag-configured :
          (ft : FlagType) (entry : FlagEntry) (out : CompiledFlag) (bytes : Str)
          → IsEntry ft entry
          → compile_flag marshal compile equal bounded entry ≡ ok out
          → marshal_conditions out.conditions ≡ some bytes
          → (evaluate_conditions (compile_conditions codec bytes) ctx launches).value
            ≡ configured holds (launch_map launches []) ctx entry
      unfolding compile_flag compile_value configured configured_by
      compile_flag-configured ft entry out bytes shape h stored = elim shape [
        | inl (v, is_v, fit, no_conds, launch_fit) ↦
            rw is_v (static_evaluated ft v entry.launch out bytes launch_fit (rw is_v at h) stored)
        | inr (no_value, fit, order, some_conds) ↦
            rw no_value (
              chain_evaluated ft entry.conditions out bytes fit some_conds (rw no_value at h)
                stored)
      ]

      static_size :
          (v : FlagValue) (launch : Option LaunchOverride) (out : CompiledFlag)
          → compile_static marshal compile equal bounded v launch ≡ ok out
          → is_empty out.conditions ≡ false
      unfolding compile_static
      static_size v launch out h =
          let (value_bytes, encoded, h1) =
            step_ok (or_error Error.marshal_error (marshal v)) _ out h in
          let (sc, made, h2) =
            step_ok
              (with_launch marshal compile launch
                (bare_condition marshal compile [] value_bytes []))
              _ out h1 in
          let this : record { conditions = sc ∷ []; dim_meta = []; warnings = [] } ≡ out = cc h2 in
          ap (λ o. is_empty o.conditions) (sym this)

      chain_size :
          (conds : List Condition) (out : CompiledFlag)
          → is_empty conds ≡ false
          → compile_chain marshal compile equal bounded conds ≡ ok out
          → is_empty out.conditions ≡ false
      unfolding compile_chain
      chain_size conds out there h =
          let (chain, made, h1) = step_ok (stored_chain marshal compile 0 conds) _ out h in
          let same : chain.0 ≡ out.conditions = cc (ap_conditions _ out h1) in
          ap is_empty (sym same) ∙ stored_size 0 conds chain made there

      -- An accepted entry is stored as a chain that is not empty.
      pub compile_flag-some :
          (ft : FlagType) (entry : FlagEntry) (out : CompiledFlag)
          → IsEntry ft entry
          → compile_flag marshal compile equal bounded entry ≡ ok out
          → is_empty out.conditions ≡ false
      unfolding compile_flag compile_value
      compile_flag-some ft entry out shape h = elim shape [
        | inl (v, is_v, fit, no_conds, launch_fit) ↦ static_size v entry.launch out (rw is_v at h)
        | inr (no_value, fit, order, there) ↦
            chain_size entry.conditions out there (rw no_value at h)
      ]

-- ===== src/Conditions/Compile.antt =====
-- What CompileConditions (internal/evaluator/conditions.go) makes of a stored chain.
use pbflags.Common.{
  All, ◌≢◌, ◌≡◌, refl, true, false, none, some, List, [], ◌∷◌, arith, is_empty, Option-cases, inl,
  inr, ◌⊎◌, Str,
}
use pbflags.Conditions.{
  CachedCondition, StoredCondition, Codec, Program, compile_condition, compile_all,
  compile_conditions,
}

module _ (codec : Codec) where
  -- The launch override is either both of an id and a decoded value, or absent.
  abbrev pub LaunchFrom : StoredCondition → CachedCondition → Type 0
  LaunchFrom sc c =
      ((c.launch_id ≡ []) × (c.launch_value ≡ none))
      ⊎ ((c.launch_id ≡ sc.launch_id)
          × (c.launch_value ≡ codec.unmarshal_value sc.launch_value)
          × (is_empty sc.launch_id ≡ false))

  -- A compiled entry is its stored entry's: the decoded value, and the program that its expression
  -- compiles to, or no program exactly if it has no expression.
  pub record IsCompiled (sc : StoredCondition) (c : CachedCondition) : Type 0 where
    pub value : c.value ≡ codec.unmarshal_value sc.value
    pub decoded : c.value ≢ none
    pub source : c.source ≡ sc.cel
    pub program :
        ((is_empty sc.cel ≡ true) × (c.program ≡ none))
        ⊎ ((is_empty sc.cel ≡ false)
            × (p : Program) × (codec.compile sc.cel ≡ some p)
            × (c.program ≡ some p))
    pub launch : LaunchFrom sc c

  abbrev pub AllCompiled : List StoredCondition → List CachedCondition → Type 0
  AllCompiled [] [] = Unit
  AllCompiled [] (c ∷ cs) = ⊥
  AllCompiled (s ∷ ss) [] = ⊥
  AllCompiled (s ∷ ss) (c ∷ cs) = IsCompiled s c × AllCompiled ss cs

  compile_condition-IsCompiled :
      (sc : StoredCondition) (c : CachedCondition)
      → compile_condition codec sc ≡ some c
      → IsCompiled sc c
  unfolding compile_condition
  compile_condition-IsCompiled sc c h = record {
    value = ground arith;
    decoded = ground arith;
    source = ground arith;
    program = ground arith;
    launch = ground arith;
  }

  compile_all-AllCompiled :
      (scs : List StoredCondition) (ccs : List CachedCondition)
      → compile_all codec scs ≡ some ccs
      → AllCompiled scs ccs
  unfolding compile_all
  compile_all-AllCompiled [] [] h = tt
  compile_all-AllCompiled [] (c ∷ cs) h = absurd (ground arith)
  compile_all-AllCompiled (s ∷ ss) ccs h = elim (Option-cases (compile_condition codec s)) [
    | inl bad ↦ absurd (ground arith)
    | inr (c, good) ↦ elim (Option-cases (compile_all codec ss)) [
      | inl bad ↦ absurd (ground arith)
      | inr (cs, rest) ↦
          let e : ccs ≡ c ∷ cs = ground arith in
          rw e (compile_condition-IsCompiled s c good, compile_all-AllCompiled ss cs rest)
    ]
  ]

  -- Compilation is all or nothing: the chain is the stored one, entry for entry and in its order,
  -- or it is empty.
  pub compile_conditions-AllCompiled :
      (bytes : Str) (stored : List StoredCondition)
      → codec.unmarshal_conditions bytes ≡ some stored
      → (compile_conditions codec bytes ≡ []) ⊎ AllCompiled stored (compile_conditions codec bytes)
  unfolding compile_conditions
  compile_conditions-AllCompiled [] stored h = inl refl
  compile_conditions-AllCompiled (b ∷ bs) stored h =
      elim (Option-cases (compile_all codec stored)) [
        | inl bad ↦ rw (h, bad) (inl refl)
        | inr (cs, good) ↦ rw (h, good) (inr (compile_all-AllCompiled stored cs good))
      ]

  -- The decoders and the compiler accept an entry.
  pub record IsAccepted (sc : StoredCondition) : Type 0 where
    pub value : codec.unmarshal_value sc.value ≢ none
    pub program : (is_empty sc.cel ≡ true) ⊎ (codec.compile sc.cel ≢ none)

  compile_condition-accepted :
      (sc : StoredCondition) → IsAccepted sc → compile_condition codec sc ≢ none
  unfolding compile_condition
  compile_condition-accepted sc a h = ground (arith, a.value, a.program)

  compile_all-accepted :
      (scs : List StoredCondition) → All IsAccepted scs → compile_all codec scs ≢ none
  unfolding compile_all
  compile_all-accepted [] _ h = absurd (ground arith)
  compile_all-accepted (s ∷ ss) (a, as') h =
      ground (arith, compile_condition-accepted s a, compile_all-accepted ss as')

  -- Where every entry is accepted, none is lost.
  pub compile_conditions-accepted :
      (bytes : Str) (stored : List StoredCondition)
      → is_empty bytes ≡ false
      → codec.unmarshal_conditions bytes ≡ some stored
      → All IsAccepted stored
      → AllCompiled stored (compile_conditions codec bytes)
  unfolding compile_conditions
  compile_conditions-accepted bytes stored ne h a = elim (Option-cases (compile_all codec stored)) [
    | inl bad ↦ absurd (compile_all-accepted stored a bad)
    | inr (cs, good) ↦ rw (ne, h, good) (compile_all-AllCompiled stored cs good)
  ]

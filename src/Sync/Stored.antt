-- ===== src/Sync/Stored.antt =====
-- A flag's configuration in the tables: the chain that internal/sync/conditions.go stores is the one
-- that internal/evaluator/conditions.go compiles from it.
use pbflags.Common.{
  ◌≢◌, ◌⊎◌, ℕ, suc, true, false, ◌≡◌, refl, sym, ◌∙◌, ap, Option, none, some, List, [], ◌∷◌, Str,
  is_empty, Bool-cases, inl, inr, arith,
}
use pbflags.Flag.{FlagValue, FlagType}
use pbflags.Conditions.{
  StoredCondition, CachedCondition, Codec, Program, compile_condition, compile_all,
}
use pbflags.Classify.{Expr}
use pbflags.ConfigFile.Entries.{Condition, LaunchOverride}
use pbflags.ConfigFile.Typed.{typed}
use pbflags.ConfigFile.Entries.Chains.{all_typed, condition_typed, launch_typed}
use pbflags.Database.{Error, Result, ok, err}
use pbflags.Sync.Compile.{
  ◌>>=◌, or_error, CompiledFlag, Classified, with_launch, bare_condition, condition_ast,
  stored_condition, stored_chain,
}

-- What protobuf and CEL promise: what is encoded can be decoded, an encoded value or chain is empty
-- only if nothing is set in it, and the evaluator compiles what sync compiles, to the same program.
pub record IsWire (marshal : FlagValue → Option Str)
    (marshal_conditions : List StoredCondition → Option Str) (compile : Str → Option Expr)
    (run : Expr → Program) (codec : Codec) : Type 0 where
  pub value : (v : FlagValue) (b : Str) → marshal v ≡ some b → codec.unmarshal_value b ≡ some v
  pub value_set :
      (v : FlagValue) (b : Str) → marshal v ≡ some b → is_empty b ≡ true → v ≡ FlagValue.unset
  pub chain :
      (cs : List StoredCondition) (b : Str)
      → marshal_conditions cs ≡ some b
      → codec.unmarshal_conditions b ≡ some cs
  pub chain_set :
      (c : StoredCondition) (cs : List StoredCondition) (b : Str)
      → marshal_conditions (c ∷ cs) ≡ some b
      → is_empty b ≡ false
  pub program : (s : Str) (e : Expr) → compile s ≡ some e → codec.compile s ≡ some (run e)

-- Inversion of a step that succeeded.
pub step_ok :
    {A B : Type 0} (m : Result A) (f : A → Result B) (b : B)
    → (m >>= f) ≡ ok b
    → (a : A) × (m ≡ ok a) × (f a ≡ ok b)
step_ok (ok a) f b h = (a, refl, h)
step_ok (err e) f b h = absurd (ground (arith, h))

pub ap_conditions :
    (out out' : CompiledFlag)
    → ◌≡◌ {A = Result CompiledFlag} (ok out) (ok out')
    → out.conditions ≡ out'.conditions
ap_conditions out out' h = let same : out ≡ out' = cc h in ap (λ o. o.conditions) same

pub or_error_ok : {A : Type 0} (e : Error) (o : Option A) (a : A) → or_error e o ≡ ok a → o ≡ some a
or_error_ok e none a h = absurd (ground (arith, h))
or_error_ok e (some b) a h = cc h

module _ (marshal : FlagValue → Option Str) (marshal_conditions : List StoredCondition → Option Str)
    (compile : Str → Option Expr) (run : Expr → Program) (codec : Codec)
    (wire : IsWire marshal marshal_conditions compile run codec) where
  -- A compiled condition is the configured one.
  abbrev pub SameProgram : Str → Option Program → Type 0
  SameProgram when_text program =
      ((when_text ≡ []) × (program ≡ none))
      ⊎ ((e : Expr) × (compile when_text ≡ some e)
          × (is_empty when_text ≡ false)
          × (program ≡ some (run e)))

  abbrev pub SameLaunch : Option LaunchOverride → CachedCondition → Type 0
  SameLaunch launch c =
      ((launch ≡ none) × (c.launch_id ≡ []))
      ⊎ ((l : LaunchOverride) × (launch ≡ some l)
          × (c.launch_id ≡ l.id)
          × (is_empty l.id ≡ false)
          × (c.launch_value ≡ some l.value))

  pub record Means (when_text : Str) (v : FlagValue) (launch : Option LaunchOverride)
      (c : CachedCondition) : Type 0 where
    pub value : c.value ≡ some v
    pub program : SameProgram when_text c.program
    pub override : SameLaunch launch c

  typed_set : (ft : FlagType) (v : FlagValue) → typed ft v ≡ true → v ≢ FlagValue.unset
  unfolding typed
  typed_set ft v h e = ground (arith, h, e)

  -- What the evaluator compiles an entry to.
  compiled_plain :
      (cel bytes comment : Str) (v : FlagValue) (program : Option Program)
      → codec.unmarshal_value bytes ≡ some v
      → SameProgram cel program
      → compile_condition codec (bare_condition marshal compile cel bytes comment)
        ≡ some (record {
          program = program;
          value = some v;
          source = cel;
          launch_id = [];
          launch_value = none;
        })
  unfolding compile_condition bare_condition
  compiled_plain cel bytes comment v program decoded same = elim same [
    | inl (no_cel, no_program) ↦ ground (arith, decoded, no_cel, no_program)
    | inr (e, compiled, cel_there, program_there) ↦
        ground (arith, decoded, cel_there, program_there, wire.program cel e compiled)
  ]

  compiled_launch :
      (cel bytes comment : Str) (v : FlagValue) (program : Option Program) (l : LaunchOverride)
      (launch_bytes : Str)
      → codec.unmarshal_value bytes ≡ some v
      → SameProgram cel program
      → is_empty l.id ≡ false
      → is_empty launch_bytes ≡ false
      → codec.unmarshal_value launch_bytes ≡ some l.value
      → compile_condition codec (record (bare_condition marshal compile cel bytes comment) {
        launch_id = l.id;
        launch_value = launch_bytes;
      })
        ≡ some (record {
          program = program;
          value = some v;
          source = cel;
          launch_id = l.id;
          launch_value = some l.value;
        })
  unfolding compile_condition bare_condition
  compiled_launch cel bytes comment v program l launch_bytes decoded same id_there there lv =
      elim same [
        | inl (no_cel, no_program) ↦
            ground (arith, decoded, no_cel, no_program, id_there, there, lv)
        | inr (e, compiled, cel_there, program_there) ↦ ground (
          arith,
          decoded,
          cel_there,
          program_there,
          wire.program cel e compiled,
          id_there,
          there,
          lv,
        )
      ]

  -- What the evaluator makes of an entry with a launch or none.
  pub launched_condition :
      (ft : FlagType) (launch : Option LaunchOverride) (cel bytes comment : Str) (v : FlagValue)
      (sc : StoredCondition) (program : Option Program)
      → launch_typed ft launch ≡ true
      → marshal v ≡ some bytes
      → with_launch marshal compile launch (bare_condition marshal compile cel bytes comment)
        ≡ ok sc
      → SameProgram cel program
      → (c : CachedCondition) × (compile_condition codec sc ≡ some c) × Means cel v launch c
  unfolding with_launch
  launched_condition ft none cel bytes comment v sc program fit stored made same =
      let this : bare_condition marshal compile cel bytes comment ≡ sc = cc made in
      (
        record {
          program = program;
          value = some v;
          source = cel;
          launch_id = [];
          launch_value = none;
        },
        rw (sym this) (compiled_plain cel bytes comment v program (wire.value v bytes stored) same),
        record { value = refl; program = same; override = inl (refl, refl) },
      )
  launched_condition ft (some l) cel bytes comment v sc program fit stored made same =
      let (launch_bytes, encoded, built) =
        step_ok (or_error Error.marshal_error (marshal l.value)) _ sc made in
      let code : marshal l.value ≡ some launch_bytes =
        or_error_ok Error.marshal_error (marshal l.value) launch_bytes encoded in
      let there : is_empty l.id ≡ false = ground (arith, fit) in
      let fits : typed ft l.value ≡ true = ground (arith, fit) in
      let nonempty : is_empty launch_bytes ≡ false = elim (Bool-cases (is_empty launch_bytes)) [
        | inl none_there ↦
            absurd (typed_set ft l.value fits (wire.value_set l.value launch_bytes code none_there))
        | inr some_there ↦ some_there
      ] in
      let this : record (bare_condition marshal compile cel bytes comment) {
        launch_id = l.id;
        launch_value = launch_bytes;
      }
          ≡ sc =
        cc built in
      (
        record {
          program = program;
          value = some v;
          source = cel;
          launch_id = l.id;
          launch_value = some l.value;
        },
        rw (sym this) (
            compiled_launch cel bytes comment v program l launch_bytes (wire.value v bytes stored)
              same there nonempty (wire.value l.value launch_bytes code)),
        record { value = refl; program = same; override = inr (l, refl, refl, there, refl) },
      )

  -- The program that the evaluator will have for a condition's tree.
  ast_program :
      (i : ℕ) (when_text : Str) (ast : Option Expr)
      → condition_ast marshal compile i when_text ≡ ok ast
      → (program : Option Program) × SameProgram when_text program
  unfolding condition_ast
  ast_program i [] ast h = (none, inl (refl, refl))
  ast_program i (x ∷ xs) ast h =
      let (e, compiled, built) =
        step_ok (or_error (Error.compile_error i) (compile (x ∷ xs))) _ ast h in
      (
        some (run e),
        inr (e, or_error_ok (Error.compile_error i) (compile (x ∷ xs)) e compiled, refl, refl),
      )

  stored_condition-Means :
      (ft : FlagType) (i : ℕ) (cond : Condition) (one : StoredCondition × Classified)
      → condition_typed ft cond ≡ true
      → stored_condition marshal compile i cond ≡ ok one
      → (c : CachedCondition) × (compile_condition codec one.0 ≡ some c)
        × Means cond.when_text cond.value cond.launch c
  unfolding stored_condition
  stored_condition-Means ft i cond one fit h =
      let (bytes, encoded, h1) =
        step_ok (or_error Error.marshal_error (marshal cond.value)) _ one h in
      let (ast, parsed, h2) = step_ok (condition_ast marshal compile i cond.when_text) _ one h1 in
      let (sc, made, h3) =
        step_ok
          (with_launch marshal compile cond.launch
            (bare_condition marshal compile cond.when_text bytes cond.comment))
          _ one h2 in
      let (program, same) = ast_program i cond.when_text ast parsed in
      let (c, compiled, means) =
        launched_condition ft cond.launch cond.when_text bytes cond.comment cond.value sc program
          (ground (arith, fit)) (or_error_ok Error.marshal_error (marshal cond.value) bytes encoded)
          made same in
      let this : (sc, (ast, some cond.value)) ≡ one = cc h3 in
      (c, ap (λ x. compile_condition codec x.0) (sym this) ∙ compiled, means)

  -- The compiled chain is the configured one, condition for condition.
  abbrev pub AllMean : List Condition → List CachedCondition → Type 0
  AllMean [] [] = Unit
  AllMean [] (c ∷ cs) = ⊥
  AllMean (cond ∷ conds) [] = ⊥
  AllMean (cond ∷ conds) (c ∷ cs) = Means cond.when_text cond.value cond.launch c × AllMean conds cs

  pub compile_all_next :
      (sc : StoredCondition) (scs : List StoredCondition) (c : CachedCondition)
      (cs : List CachedCondition)
      → compile_condition codec sc ≡ some c
      → compile_all codec scs ≡ some cs
      → compile_all codec (sc ∷ scs) ≡ some (c ∷ cs)
  unfolding compile_all
  compile_all_next sc scs c cs h k = ground (arith, h, k)

  pub stored_chain-AllMean :
      (ft : FlagType) (i : ℕ) (conds : List Condition)
      (out : List StoredCondition × List Classified)
      → all_typed ft conds ≡ true
      → stored_chain marshal compile i conds ≡ ok out
      → (cs : List CachedCondition) × (compile_all codec out.0 ≡ some cs) × AllMean conds cs
  unfolding stored_chain all_typed
  stored_chain-AllMean ft i [] out fit h =
      let this : ([], []) ≡ out = cc h in
      ([], ap (λ x. compile_all codec x.0) (sym this) ∙ unfold compile_all in refl, tt)
  stored_chain-AllMean ft i (cond ∷ conds) out fit h =
      let (one, made, h1) = step_ok (stored_condition marshal compile i cond) _ out h in
      let (rest, later, h2) = step_ok (stored_chain marshal compile (suc i) conds) _ out h1 in
      let (c, compiled, means) = stored_condition-Means ft i cond one (ground (arith, fit)) made in
      let (cs, all_compiled, all_mean) =
        stored_chain-AllMean ft (suc i) conds rest (ground (arith, fit)) later in
      let this : (one.0 ∷ rest.0, one.1 ∷ rest.1) ≡ out = cc h2 in
      (
        c ∷ cs,
        ap (λ x. compile_all codec x.0) (sym this)
            ∙ compile_all_next one.0 rest.0 c cs compiled all_compiled,
        (means, all_mean),
      )

-- ===== src/Sync/Compile.antt =====
-- compileFlag of internal/sync/conditions.go: the stored form of a flag's configuration. The CEL
-- compiler and proto.Marshal are parameters.
use pbflags.Common.{ℕ, suc, Bool, Option, none, some, List, [], ◌∷◌, Str}
use pbflags.Flag.{FlagValue}
use pbflags.Conditions.{StoredCondition}
use pbflags.CondCache.{CachedDimMeta, DimClassification}
use pbflags.Classify.{Expr, classify_dimensions}
use pbflags.ConfigFile.Entries.{FlagEntry, Condition, LaunchOverride}
use pbflags.Database.{Error, Result, ok, err}

infixl 5 ◌>>=◌
abbrev pub ◌>>=◌ : {A B : Type 0} → Result A → (A → Result B) → Result B
ok a >>= f = f a
err e >>= f = err e

abbrev pub or_error : {A : Type 0} → Error → Option A → Result A
or_error e none = err e
or_error e (some a) = ok a

-- compileFlagResult; its warnings are names of unbounded dimensions.
pub record CompiledFlag : Type 0 where
  pub conditions : List StoredCondition
  pub dim_meta : CachedDimMeta
  pub warnings : List Str

-- A condition's tree and value, as ClassifyDimensions takes them.
abbrev pub Classified : Type 0
Classified = Option Expr × Option FlagValue

module _ (marshal : FlagValue → Option Str) (compile : Str → Option Expr) where
  -- A stored entry with a launch override, if there is one.
  unfoldable pub with_launch : Option LaunchOverride → StoredCondition → Result StoredCondition
  with_launch none sc = ok sc
  with_launch (some launch) sc = do
    bytes ← or_error Error.marshal_error (marshal launch.value)
    ok (record sc { launch_id = launch.id; launch_value = bytes })

  unfoldable pub bare_condition : Str → Str → Str → StoredCondition
  bare_condition cel value comment = record {
    cel = cel;
    value = value;
    comment = comment;
    launch_id = [];
    launch_value = [];
  }

  -- The tree of a condition; "otherwise" has none.
  unfoldable pub condition_ast : ℕ → Str → Result (Option Expr)
  condition_ast i [] = ok none
  condition_ast i (c ∷ cs) = do
    ast ← or_error (Error.compile_error i) (compile (c ∷ cs))
    ok (some ast)

  unfoldable pub stored_condition : ℕ → Condition → Result (StoredCondition × Classified)
  stored_condition i cond = do
    bytes ← or_error Error.marshal_error (marshal cond.value)
    ast ← condition_ast i cond.when_text
    sc ← with_launch cond.launch (bare_condition cond.when_text bytes cond.comment)
    ok (sc, (ast, some cond.value))

  -- The loop over the conditions.
  unfoldable pub stored_chain : ℕ → List Condition → Result (List StoredCondition × List Classified)
  stored_chain i [] = ok ([], [])
  stored_chain i (cond ∷ conds) =
      let later = stored_chain (suc i) conds in
      do one ← stored_condition i cond; rest ← later; ok (one.0 ∷ rest.0, one.1 ∷ rest.1)

  -- The names of the dimensions that are classified as unbounded.
  unfoldable pub unbounded_names : CachedDimMeta → List Str
  unbounded_names [] = []
  unbounded_names ((name, meta) ∷ dims) =
      let rest = unbounded_names dims in
      elim meta.classification [ DimClassification.unbounded ↦ name ∷ rest | _ ↦ rest ]

  module _ (equal : Option FlagValue → Option FlagValue → Bool) (bounded : Str → Bool) where
    unfoldable pub compile_static : FlagValue → Option LaunchOverride → Result CompiledFlag
    compile_static value launch = do
      bytes ← or_error Error.marshal_error (marshal value)
      sc ← with_launch launch (bare_condition [] bytes [])
      ok (record { conditions = sc ∷ []; dim_meta = []; warnings = [] })

    unfoldable pub compile_chain : List Condition → Result CompiledFlag
    compile_chain conds = do
      chain ← stored_chain 0 conds
      let dims = classify_dimensions equal chain.1 bounded
      ok (record { conditions = chain.0; dim_meta = dims; warnings = unbounded_names dims })

    unfoldable pub compile_value : Option FlagValue → FlagEntry → Result CompiledFlag
    compile_value (some value) entry = compile_static value entry.launch
    compile_value none entry = compile_chain entry.conditions

    -- compileFlag
    unfoldable pub compile_flag : FlagEntry → Result CompiledFlag
    compile_flag entry = compile_value entry.value entry

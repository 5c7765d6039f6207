-- ===== src/Tests/Configs/Synced.antt =====
-- A flag from its entry through its stored columns to the evaluator's answer, and the launches that
-- a configuration names.
use pbflags.Common.{
  ◌≡◌, refl, sym, ap, Bool, true, false, ◌&&◌, Option, none, some, List, [], ◌∷◌, codes, Str, ◌=s◌,
  =s_iff, is_empty, if◌then◌else◌, lookup, inr, Assoc, arith, put, contains,
}
use pbflags.Flag.{FlagValue, FlagType}
use pbflags.Message.{Message}
use pbflags.Classify.{Expr, classify_dimensions}
use pbflags.Conditions.{
  StoredCondition, Codec, Program, is_true, launch_map, compile_conditions, evaluate_conditions,
}
use pbflags.ConfigFile.Typed.{typed}
use pbflags.ConfigFile.Entries.Chains.{all_typed, when_first}
use pbflags.Sync.Compile.{
  CompiledFlag, compile_flag, compile_value, compile_chain, stored_chain, stored_condition,
  condition_ast, bare_condition, with_launch, unbounded_names,
}
use pbflags.Sync.Stored.{IsWire}
use pbflags.Tests.Configs.{text_is_pro, a, launch, entry, config}
use pbflags.Sync.Evaluated.{configured, compile_flag-configured}
use pbflags.Sync.Launches.{
  LaunchDef, LaunchCollection, collect_launches, collect_configs, define_scoped, define, flag_refs,
  condition_refs, add_launch_ref, add_ref, collect_files, check_refs, check_ref, in_scope,
  check_uniform, check_scopes, affected_features, feature_has, scope_has,
}
use pbflags.Sync.Launches.Sound.{refers, in_flags, in_conditions, is_launch, collect_launches_sound}
use pbflags.CondCache.{sort_strings, CachedDimMeta}
use pbflags.Tests.{pro, plan, is_pro, full_launch}

-- Only texts can be encoded.
abbrev pub marshal : FlagValue → Option Str
marshal (FlagValue.string_value s) = some (1 ∷ s)
marshal _ = none

abbrev pub unmarshal : Str → Option FlagValue
unmarshal [] = none
unmarshal (b ∷ s) = some (FlagValue.string_value s)

abbrev first : StoredCondition
first = record {
  cel = text_is_pro;
  value = 1 ∷ a;
  launch_id = codes "exp";
  comment = [];
  launch_value = 1 ∷ codes "b";
}

abbrev second : StoredCondition
second = record { cel = []; value = 1 ∷ codes "z"; launch_id = []; comment = []; launch_value = [] }

abbrev same : StoredCondition → StoredCondition → Bool
same x y =
    x.cel =s y.cel
    && x.value =s y.value
    && x.launch_id =s y.launch_id
    && x.comment =s y.comment
    && x.launch_value =s y.launch_value

same-eq : (x y : StoredCondition) → same x y ≡ true → x ≡ y
same-eq x y h = ground (
  arith,
  =s_iff x.cel y.cel,
  =s_iff x.value y.value,
  =s_iff x.launch_id y.launch_id,
  =s_iff x.comment y.comment,
  =s_iff x.launch_value y.launch_value,
)

-- The only chain that can be encoded.
abbrev pub marshal_conditions : List StoredCondition → Option Str
marshal_conditions (x ∷ y ∷ []) = if same x first && same y second then some (codes "c") else none
marshal_conditions _ = none

abbrev pub compile : Str → Option Expr
compile s = if s =s text_is_pro then some Expr.other_kind else none

abbrev pub run : Expr → Program
run e = is_pro

abbrev pub codec : Codec
codec = record {
  unmarshal_conditions = λ bytes. some (first ∷ second ∷ []);
  unmarshal_value = unmarshal;
  compile = λ s. if s =s text_is_pro then some is_pro else none;
}

encoded :
    (xs : List StoredCondition) (b : Str)
    → marshal_conditions xs ≡ some b
    → (xs ≡ first ∷ second ∷ []) × (codes "c" ≡ b)
encoded [] b h = absurd (ground (arith, h))
encoded (x ∷ []) b h = absurd (ground (arith, h))
encoded (x ∷ y ∷ []) b h = ground (arith, h, same-eq x first, same-eq y second)
encoded (x ∷ y ∷ z ∷ xs) b h = absurd (ground (arith, h))

pub decoded : (v : FlagValue) (b : Str) → marshal v ≡ some b → unmarshal b ≡ some v
decoded (FlagValue.string_value s) b h = let e : 1 ∷ s ≡ b = cc h in rw (sym e) refl
decoded _ b h = absurd (ground (arith, h))

tagged : (v : FlagValue) (b : Str) → marshal v ≡ some b → is_empty b ≡ false
tagged (FlagValue.string_value s) b h = let e : 1 ∷ s ≡ b = cc h in rw (sym e) refl
tagged _ b h = absurd (ground (arith, h))

pub wire : IsWire marshal marshal_conditions compile run codec
wire = record {
  value = decoded;
  value_set = λ v b h empty. absurd (ground (arith, tagged v b h));
  chain = λ cs b h. ap some (sym (encoded cs b h).0);
  chain_set = λ c cs b h. ap is_empty (sym (encoded (c ∷ cs) b h).1);
  program = λ s e h. ground (arith, h);
}

abbrev pub holds : Str → Message → Bool
holds s c = is_true (is_pro c)

abbrev pub equal : Option FlagValue → Option FlagValue → Bool
equal v w = false

abbrev pub bounded : Str → Bool
bounded name = false

abbrev dims : CachedDimMeta
dims =
    classify_dimensions equal
      ((some Expr.other_kind, some (FlagValue.string_value a))
        ∷ (none, some (FlagValue.string_value (codes "z")))
        ∷ [])
      bounded

abbrev stored : CompiledFlag
stored = record {
  conditions = first ∷ second ∷ [];
  dim_meta = dims;
  warnings = unbounded_names marshal compile dims;
}

compile_flag-configured_example :
    (evaluate_conditions (compile_conditions codec (codes "c")) (some pro) (full_launch ∷ [])).value
    ≡ configured holds (launch_map (full_launch ∷ []) []) (some pro) entry
unfolding compile_flag compile_value compile_chain stored_chain stored_condition condition_ast
    bare_condition with_launch ◌=s◌ all_typed when_first typed
compile_flag-configured_example =
    compile_flag-configured marshal marshal_conditions compile run codec wire holds
      (full_launch ∷ []) (some pro) (λ s e c made. refl) equal bounded FlagType.type_string entry
      stored (codes "c") (inr (refl, refl, refl, refl)) refl refl

abbrev collected : LaunchCollection
collected = record {
  defined =
      (codes "exp", record { entry = launch; scope_feature_id = some (codes "checkout") }) ∷ [];
  refs = (codes "exp", codes "checkout" ∷ []) ∷ [];
}

abbrev pub scope_dims : Assoc (List Str)
scope_dims = (codes "user", plan ∷ []) ∷ []

abbrev pub feature_scopes : Assoc (List Str)
feature_scopes = (codes "checkout", codes "user" ∷ []) ∷ []

collect_launches_sound_example :
    (def : LaunchDef) × (lookup (codes "exp") collected.defined ≡ some def)
    × (in_scope def.scope_feature_id (codes "checkout" ∷ []) ≡ true)
    × (true ≡ true)
    × (feature_has scope_dims feature_scopes def.entry.dimension (codes "checkout") ≡ true)
unfolding collect_launches collect_configs define_scoped define flag_refs condition_refs
    add_launch_ref add_ref collect_files check_refs check_ref in_scope check_uniform check_scopes
    affected_features feature_has scope_has sort_strings lookup put contains ◌=s◌ refers in_flags
    in_conditions is_launch
collect_launches_sound_example =
    collect_launches_sound scope_dims feature_scopes ((codes "checkout", config) ∷ []) []
      (λ dim. true) collected (codes "checkout") (codes "exp") refl refl

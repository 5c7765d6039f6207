-- ===== src/Conditions.antt =====
-- internal/evaluator/conditions.go: compiling a stored condition chain, and evaluating it.
-- CEL is cel-go's: a program is a function from the context to an outcome, and the compiler is a
-- parameter, as is the decoding of protobuf bytes. Logging is left out.
pub mod Chain
pub mod Compile
pub mod Precedence
pub mod Agreement
use pbflags.Common.{
  int32, ℕ, suc, ◌+◌, ◌-◌, ◌%◌, ◌^◌, Bool, true, false, ◌&&◌, Option, none, some, List, [], ◌∷◌,
  Str, ℤ, pos, negsuc, Assoc, lookup, put, is_empty, ltb, eqb_ℤ, not, if◌then◌else◌,
}
use pbflags.Flag.{FlagValue}
use pbflags.Message.{Message}
use pbflags.Launch.{CachedLaunch, in_ramp}

-- What `Program.Eval` returns: an error, a Boolean, or a value of another type.
pub data Outcome : Type 0 where
  eval_error : Outcome
  bool_out : Bool → Outcome
  other_out : Outcome

abbrev pub Program : Type 0
Program = Message → Outcome

pub record CachedCondition : Type 0 where
  pub program : Option Program
  pub value : Option FlagValue
  pub source : Str
  pub launch_id : Str
  pub launch_value : Option FlagValue

pub record EvalResult : Type 0 where
  pub value : Option FlagValue
  pub conditions_checked : ℕ
  pub launch_hit : Bool
  pub launch_id : Str
  pub override_hit : Bool

abbrev pub no_result : ℕ → EvalResult
no_result checked = record {
  value = none;
  conditions_checked = checked;
  launch_hit = false;
  launch_id = [];
  override_hit = false;
}

-- `map[int32]*FlagValue`
abbrev pub Overrides : Type 0
Overrides = List (ℤ × Option FlagValue)

unfoldable pub override_at : ℤ → Overrides → Option FlagValue
override_at i [] = none
override_at i ((j, v) ∷ m) = if eqb_ℤ j i then v else override_at i m

-- The launch lookup: of two launches with one id the later is kept.
unfoldable pub launch_map : List CachedLaunch → Assoc CachedLaunch → Assoc CachedLaunch
launch_map [] m = m
launch_map (l ∷ ls) m = launch_map ls (put l.launch_id l m)

-- The part of applyLaunchOverrideValue behind its guard.
launch_override :
    CachedCondition
    → FlagValue
    → Option FlagValue
    → Option CachedLaunch
    → Message
    → Option FlagValue × Str
launch_override cond launch_value base none ctx = (base, [])
launch_override cond launch_value base (some launch) ctx =
    if in_ramp launch ctx then (some launch_value, cond.launch_id) else (base, [])

-- applyLaunchOverrideValue
apply_launch_override_value :
    CachedCondition
    → Option FlagValue
    → Assoc CachedLaunch
    → Option Message
    → Option FlagValue × Str
unfolding launch_override
apply_launch_override_value cond base launches eval_ctx =
    if is_empty cond.launch_id then (base, []) else elim cond.launch_value [
      | none ↦ (base, [])
      | some launch_value ↦ elim eval_ctx [
        | none ↦ (base, [])
        | some ctx ↦ launch_override cond launch_value base (lookup cond.launch_id launches) ctx
      ]
    ]

-- `if ov, ok := overrides[condIdx]; ok && ov != nil { base = ov; overrideHit = true }`
base_value : CachedCondition → Option FlagValue → Option FlagValue × Bool
base_value cond none = (cond.value, false)
base_value cond (some ov) = (some ov, true)

-- buildResult
unfoldable pub build_result :
    CachedCondition → ℤ → Overrides → Assoc CachedLaunch → Option Message → ℕ → EvalResult
unfolding apply_launch_override_value base_value
build_result cond cond_idx overrides launches eval_ctx checked =
    let (base, override_hit) = base_value cond (override_at cond_idx overrides) in
    let (val, launch_id) = apply_launch_override_value cond base launches eval_ctx in
    if not (is_empty launch_id)
    then record {
      value = val;
      conditions_checked = checked;
      launch_hit = true;
      launch_id = launch_id;
      override_hit = false;
    }
    else record {
      value = base;
      conditions_checked = checked;
      launch_hit = false;
      launch_id = [];
      override_hit = override_hit;
    }

-- `b, ok := out.Value().(bool); ok && b`, and false on an evaluation error.
abbrev pub is_true : Outcome → Bool
is_true eval_error = false
is_true (bool_out b) = b
is_true other_out = false

-- Whether a condition matches, and how many programs have been run then.
unfoldable pub try_condition : Option Program → Option Message → ℕ → Bool × ℕ
try_condition none eval_ctx checked = (true, checked)
try_condition (some program) none checked = (false, checked)
try_condition (some program) (some ctx) checked = (is_true (program ctx), suc checked)

module _ (eval_ctx : Option Message) (overrides : Overrides) (launches : Assoc CachedLaunch) where
  -- The loop, at index `i` with `checked` programs run.
  unfoldable pub eval_chain : List CachedCondition → ℕ → ℕ → EvalResult
  unfolding try_condition
  eval_chain [] i checked = no_result checked
  eval_chain (cond ∷ conds) i checked =
      let (hit, ran) = try_condition cond.program eval_ctx checked in
      let rest = eval_chain conds (suc i) ran in
      if hit then build_result cond (int32 i) overrides launches eval_ctx ran else rest

-- EvaluateConditionsWithOverrides. On an empty chain the loop returns the empty result at once.
unfoldable pub evaluate_conditions_with_overrides :
    List CachedCondition → Option Message → Overrides → List CachedLaunch → EvalResult
unfolding eval_chain build_result
evaluate_conditions_with_overrides conds eval_ctx overrides launches =
    eval_chain eval_ctx overrides (launch_map launches []) conds 0 0

-- EvaluateConditions
unfoldable pub evaluate_conditions :
    List CachedCondition → Option Message → List CachedLaunch → EvalResult
unfolding evaluate_conditions_with_overrides
evaluate_conditions conds eval_ctx launches =
    evaluate_conditions_with_overrides conds eval_ctx [] launches

-- One entry of the stored proto `StoredConditions`.
pub record StoredCondition : Type 0 where
  pub cel : Str
  pub value : Str
  pub comment : Str
  pub launch_id : Str
  pub launch_value : Str

-- What the compiler and the protobuf decoders answer.
pub record Codec : Type 0 where
  pub unmarshal_conditions : Str → Option (List StoredCondition)
  pub unmarshal_value : Str → Option FlagValue
  pub compile : Str → Option Program

module _ (codec : Codec) where
  -- The launch override of one entry; a value that cannot be decoded is ignored.
  parse_launch : StoredCondition → Option FlagValue → CachedCondition
  parse_launch sc fv =
      let plain : CachedCondition = record {
        program = none;
        value = fv;
        source = [];
        launch_id = [];
        launch_value = none;
      } in
      if not (is_empty sc.launch_id) && not (is_empty sc.launch_value)
      then elim (codec.unmarshal_value sc.launch_value) [
        | none ↦ plain
        | some lv ↦ record plain { launch_id = sc.launch_id; launch_value = some lv }
      ]
      else plain

  -- One round of the loop; `none` makes CompileConditions return nil.
  unfoldable pub compile_condition : StoredCondition → Option CachedCondition
  unfolding parse_launch
  compile_condition sc = elim (codec.unmarshal_value sc.value) [
    | none ↦ none
    | some fv ↦
        let cc = parse_launch sc (some fv) in
        if is_empty sc.cel then some cc else elim (codec.compile sc.cel) [
          | none ↦ none
          | some program ↦ some (record cc { program = some program; source = sc.cel })
        ]
  ]

  unfoldable pub compile_all : List StoredCondition → Option (List CachedCondition)
  unfolding compile_condition
  compile_all [] = some []
  compile_all (sc ∷ scs) =
      let rest = compile_all scs in
      elim (compile_condition sc) [
        | none ↦ none
        | some cc ↦ elim rest [ none ↦ none | some ccs ↦ some (cc ∷ ccs) ]
      ]

  -- CompileConditions: the empty chain on any failure.
  unfoldable pub compile_conditions : Str → List CachedCondition
  unfolding compile_all
  compile_conditions conditions_data =
      if is_empty conditions_data then [] else elim (codec.unmarshal_conditions conditions_data) [
        | none ↦ []
        | some stored ↦ elim (compile_all stored) [ none ↦ [] | some ccs ↦ ccs ]
      ]

-- ===== src/Tests/Chain.antt =====
-- Condition chains and launches at work.
use pbflags.Common.{int32, ◌=s◌, ◌≡◌, refl, true, some, [], ◌∷◌, pos, codes, inr, arith}
use pbflags.Flag.{FlagValue}
use pbflags.Launch.{hash_bucket, in_ramp}
use pbflags.Conditions.{
  evaluate_conditions_with_overrides, build_result, launch_map, Codec, StoredCondition,
}
use pbflags.Conditions.Chain.{evaluate-first, programs_run}
use pbflags.Conditions.Compile.{IsAccepted}
use pbflags.Message.{extract_dimension_value, format_field_value}
use pbflags.Tests.{pro, free, for_pro, otherwise, full_launch, is_pro}

evaluate-first_example :
    evaluate_conditions_with_overrides (for_pro ∷ otherwise ∷ []) (some free) [] []
    ≡ build_result otherwise (pos 1) [] [] (some free) 1
unfolding int32 launch_map programs_run ◌=s◌ format_field_value
evaluate-first_example =
    evaluate-first (some free) [] [] (for_pro ∷ []) otherwise [] (refl, tt) refl

in_full_ramp : in_ramp full_launch pro ≡ true
unfolding in_ramp hash_bucket extract_dimension_value ◌=s◌
in_full_ramp = refl

-- A codec whose bytes are the message: one condition that compiles to the test for the plan.
abbrev one_condition : StoredCondition
one_condition = record {
  cel = codes "is_pro";
  value = codes "v";
  launch_id = [];
  comment = [];
  launch_value = [];
}

abbrev codec : Codec
codec = record {
  unmarshal_conditions = λ bytes. some (one_condition ∷ []);
  unmarshal_value = λ bytes. some (FlagValue.string_value bytes);
  compile = λ text. some is_pro;
}

one_condition-IsAccepted : IsAccepted codec one_condition
one_condition-IsAccepted = record {
  value = λ e. absurd (ground arith);
  program = inr (λ e. absurd (ground arith));
}

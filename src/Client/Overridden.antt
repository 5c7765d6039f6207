-- ===== src/Client/Overridden.antt =====
-- Overrides of the client library (pbflags/override.go) under With.
use pbflags.Common.{
  ◌≡◌, refl, subst, Option, none, some, List, [], ◌∷◌, Str, arith, lookup, lookup-put, put, ◌=s◌,
  if◌then◌else◌, Bool-cases, inl, inr, Assoc,
}
use pbflags.Flag.{FlagValue}
use pbflags.Message.{Message}
use pbflags.Client.{
  Evaluation, Call, returned, Service, ClientEvaluator, overriding, Dimension, FlagDescriptor,
  Override, overridden, override_map, validate_overrides, with_overrides, with_dimensions,
  evaluate_flag,
}

-- The value of the last override of a flag.
unfoldable pub last_override : Str → List Override → Option FlagValue
last_override f [] = none
last_override f (o ∷ overrides) = elim (last_override f overrides) [
  | some v ↦ some v
  | none ↦ if o.flag_id =s f then some o.value else none
]

abbrev pub or_else : {A : Type 0} → Option A → Option A → Option A
or_else none b = b
or_else (some a) b = some a

-- What an evaluator answers a flag that may be overridden.
abbrev pub under : Option FlagValue → Call Evaluation → Call Evaluation
under none inner = inner
under (some v) inner = returned (overridden v)

lookup-override_map :
    (f : Str) (overrides : List Override) (m : Assoc FlagValue)
    → lookup f (override_map overrides m) ≡ or_else (last_override f overrides) (lookup f m)
unfolding override_map last_override
lookup-override_map f [] m = refl
lookup-override_map f (o ∷ overrides) m = ground (
  arith,
  lookup-override_map f overrides (put o.flag_id o.value m),
  lookup-put o.flag_id f o.value m,
)

module _ (service : Service) (fresh : Message) where
  map_under :
      (overrides : List Override) (eval e : ClientEvaluator) (dims : List Dimension) (f : Str)
      → overriding (override_map overrides []) eval ≡ e
      → evaluate_flag service fresh (with_dimensions dims e) f
        ≡ under
            (last_override f overrides)
            (evaluate_flag service fresh (with_dimensions dims eval) f)
  unfolding evaluate_flag with_dimensions lookup
  map_under overrides eval e dims f h =
      subst
        (λ x.
          evaluate_flag service fresh (with_dimensions dims x) f
          ≡ under (last_override f overrides)
              (evaluate_flag service fresh (with_dimensions dims eval) f))
        h (ground (arith, lookup-override_map f overrides []))

  -- However dimensions are bound afterwards, an evaluator that WithOverrides returns answers a flag
  -- with its last override in the list, as the source OVERRIDE, and a flag without one as the
  -- evaluator beneath it does with the same dimensions.
  pub with_overrides-under :
      (eval e : ClientEvaluator) (descriptors : Option (List FlagDescriptor))
      (overrides : List Override) (dims : List Dimension) (f : Str)
      → with_overrides eval descriptors overrides ≡ returned e
      → evaluate_flag service fresh (with_dimensions dims e) f
        ≡ under
            (last_override f overrides)
            (evaluate_flag service fresh (with_dimensions dims eval) f)
  unfolding with_overrides last_override
  with_overrides-under eval e descriptors [] dims f h =
      let same : eval ≡ e = cc h in
      subst
        (λ x.
          evaluate_flag service fresh (with_dimensions dims x) f
          ≡ evaluate_flag service fresh (with_dimensions dims eval) f)
        same refl
  with_overrides-under eval e none (o ∷ overrides) dims f h =
      map_under (o ∷ overrides) eval e dims f (cc h)
  with_overrides-under eval e (some ds) (o ∷ overrides) dims f h =
      elim (Bool-cases (validate_overrides (o ∷ overrides) ds)) [
        | inl valid ↦ map_under (o ∷ overrides) eval e dims f (cc (rw valid at h))
        | inr bad ↦ let no_answer = rw bad at h in absurd (ground (arith, no_answer))
      ]

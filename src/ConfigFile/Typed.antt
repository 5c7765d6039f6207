-- ===== src/ConfigFile/Typed.antt =====
-- Which YAML values convertValue (internal/configfile/configfile.go) takes for a flag's type, and
-- what it makes of them.
use pbflags.Common.{
  ◌⊎◌, ℕ, suc, Bool, true, false, not, ◌&&◌, ◌≡◌, refl, sym, ◌∙◌, ap, List, ◌∷◌, arith, inl, inr,
}
use pbflags.Flag.{
  FlagValue, bool_value, string_value, int64_value, double_value, FlagType, type_bool, type_string,
  type_int64, type_double, type_bool_list, type_string_list, type_int64_list, type_double_list,
  type_unspecified, bool_list, string_list, int64_list, double_list,
}
use pbflags.ConfigFile.{
  Raw, null, bool, text, int, int64, uint64, float, sequence, other, Raws, nil, cons, Floats,
  Checked, ok, err, ◌>>=◌, within, element, to_int64, to_float64, to_bool, to_text,
  convert_elements, convert_list, convert_typed, convert_value,
}

-- The member of the oneof that a type's flags store.
unfoldable pub typed : FlagType → FlagValue → Bool
typed type_bool (bool_value b) = true
typed type_string (string_value s) = true
typed type_int64 (int64_value n) = true
typed type_double (double_value x) = true
typed type_bool_list (bool_list bs) = true
typed type_string_list (string_list ss) = true
typed type_int64_list (int64_list ns) = true
typed type_double_list (double_list xs) = true
typed _ _ = false

unfoldable pub is_ok : {A : Type 0} → Checked A → Bool
is_ok (ok a) = true
is_ok (err e) = false

abbrev all_raw : (Raw → Bool) → Raws → Bool
all_raw p nil = true
all_raw p (cons r rs) = p r && all_raw p rs

abbrev is_bool : Raw → Bool
is_bool (bool b) = true
is_bool _ = false

abbrev is_text : Raw → Bool
is_text (text s) = true
is_text _ = false

abbrev is_list_of : (Raw → Bool) → Raw → Bool
is_list_of p (sequence rs) = all_raw p rs
is_list_of p _ = false

module _ (floats : Floats) where
  abbrev is_int : Raw → Bool
  is_int (int n) = true
  is_int (int64 n) = true
  is_int (uint64 n) = true
  is_int (float x) = not (floats.differ x (floats.of_int (floats.to_int64 x)))
  is_int _ = false

  abbrev is_number : Raw → Bool
  is_number (int n) = true
  is_number (int64 n) = true
  is_number (uint64 n) = true
  is_number (float x) = true
  is_number _ = false

  -- The YAML values that a flag of the type may have.
  unfoldable pub fits : FlagType → Raw → Bool
  fits type_unspecified raw = false
  fits type_bool raw = is_bool raw
  fits type_string raw = is_text raw
  fits type_int64 raw = is_int raw
  fits type_double raw = is_number raw
  fits type_bool_list raw = is_list_of is_bool raw
  fits type_string_list raw = is_list_of is_text raw
  fits type_int64_list raw = is_list_of is_int raw
  fits type_double_list raw = is_list_of is_number raw

is_ok-bind : {A B : Type 0} (m : Checked A) (f : A → B) → is_ok (m >>= λ a. ok (f a)) ≡ is_ok m
unfolding is_ok
is_ok-bind (ok a) f = refl
is_ok-bind (err e) f = refl

module _ {A : Type 0} (elem : Raw → Checked A) (p : Raw → Bool)
    (same : (r : Raw) → is_ok (elem r) ≡ p r) where
  is_ok-step :
      (m : Checked A) (rest : Checked (List A)) (i : ℕ)
      → is_ok (within (element i) m >>= λ v. rest >>= λ vs. ok (v ∷ vs)) ≡ (is_ok m && is_ok rest)
  unfolding is_ok within
  is_ok-step (ok a) (ok ws) i = refl
  is_ok-step (ok a) (err e) i = refl
  is_ok-step (err e) rest i = refl

  is_ok-elements : (i : ℕ) (rs : Raws) → is_ok (convert_elements elem i rs) ≡ all_raw p rs
  unfolding convert_elements
  is_ok-elements i nil = unfold is_ok in refl
  is_ok-elements i (cons r rs) =
      is_ok-step (elem r) (convert_elements elem (suc i) rs) i
      ∙ rw (same r, is_ok-elements (suc i) rs)

  is_ok-list :
      (build : List A → FlagValue) (raw : Raw)
      → is_ok (convert_list elem build raw) ≡ is_list_of p raw
  unfolding convert_list
  is_ok-list build (sequence rs) =
      is_ok-bind (convert_elements elem 0 rs) build ∙ is_ok-elements 0 rs
  is_ok-list build null = unfold is_ok in refl
  is_ok-list build (bool b) = unfold is_ok in refl
  is_ok-list build (text s) = unfold is_ok in refl
  is_ok-list build (int n) = unfold is_ok in refl
  is_ok-list build (int64 n) = unfold is_ok in refl
  is_ok-list build (uint64 n) = unfold is_ok in refl
  is_ok-list build (float x) = unfold is_ok in refl
  is_ok-list build other = unfold is_ok in refl

module _ (floats : Floats) where
  is_ok-bool : (r : Raw) → is_ok (to_bool r) ≡ is_bool r
  unfolding is_ok to_bool
  is_ok-bool r = ground arith

  is_ok-text : (r : Raw) → is_ok (to_text r) ≡ is_text r
  unfolding is_ok to_text
  is_ok-text r = ground arith

  is_ok-int : (r : Raw) → is_ok (to_int64 floats r) ≡ is_int floats r
  unfolding is_ok to_int64
  is_ok-int r = ground arith

  is_ok-number : (r : Raw) → is_ok (to_float64 floats r) ≡ is_number floats r
  unfolding is_ok to_float64
  is_ok-number r = ground arith

  is_ok-typed :
      (ft : FlagType) (raw : Raw) → is_ok (convert_typed floats raw ft) ≡ fits floats ft raw
  unfolding convert_typed fits
  is_ok-typed type_unspecified raw = unfold is_ok in refl
  is_ok-typed type_bool raw = is_ok-bind (to_bool raw) bool_value ∙ is_ok-bool raw
  is_ok-typed type_string raw = is_ok-bind (to_text raw) string_value ∙ is_ok-text raw
  is_ok-typed type_int64 raw = is_ok-bind (to_int64 floats raw) int64_value ∙ is_ok-int raw
  is_ok-typed type_double raw = is_ok-bind (to_float64 floats raw) double_value ∙ is_ok-number raw
  is_ok-typed type_bool_list raw = is_ok-list to_bool is_bool is_ok-bool bool_list raw
  is_ok-typed type_string_list raw = is_ok-list to_text is_text is_ok-text string_list raw
  is_ok-typed type_int64_list raw =
      is_ok-list (to_int64 floats) (is_int floats) is_ok-int int64_list raw
  is_ok-typed type_double_list raw =
      is_ok-list (to_float64 floats) (is_number floats) is_ok-number double_list raw

  fits_null : (ft : FlagType) → fits floats ft null ≡ false
  unfolding fits
  fits_null ft = ground arith

  mapped-typed :
      {A : Type 0} (ft : FlagType) (m : Checked A) (f : A → FlagValue) (v : FlagValue)
      → ((a : A) → typed ft (f a) ≡ true)
      → (m >>= λ a. ok (f a)) ≡ ok v
      → typed ft v ≡ true
  mapped-typed ft (ok a) f v h e = let same : f a ≡ v = cc e in rw (sym same) (h a)
  mapped-typed ft (err x) f v h e = absurd (ground (arith, e))

  list-typed :
      {A : Type 0} (ft : FlagType) (elem : Raw → Checked A) (build : List A → FlagValue) (raw : Raw)
      (v : FlagValue)
      → ((xs : List A) → typed ft (build xs) ≡ true)
      → convert_list elem build raw ≡ ok v
      → typed ft v ≡ true
  unfolding convert_list
  list-typed ft elem build (sequence rs) v h e =
      mapped-typed ft (convert_elements elem 0 rs) build v h e
  list-typed ft elem build null v h e = absurd (ground (arith, e))
  list-typed ft elem build (bool b) v h e = absurd (ground (arith, e))
  list-typed ft elem build (text s) v h e = absurd (ground (arith, e))
  list-typed ft elem build (int n) v h e = absurd (ground (arith, e))
  list-typed ft elem build (int64 n) v h e = absurd (ground (arith, e))
  list-typed ft elem build (uint64 n) v h e = absurd (ground (arith, e))
  list-typed ft elem build (float x) v h e = absurd (ground (arith, e))
  list-typed ft elem build other v h e = absurd (ground (arith, e))

  converted-typed :
      (ft : FlagType) (raw : Raw) (v : FlagValue)
      → convert_typed floats raw ft ≡ ok v
      → typed ft v ≡ true
  unfolding convert_typed
  converted-typed type_unspecified raw v e = absurd (ground (arith, e))
  converted-typed type_bool raw v e =
      mapped-typed type_bool (to_bool raw) bool_value v (λ b. unfold typed in refl) e
  converted-typed type_string raw v e =
      mapped-typed type_string (to_text raw) string_value v (λ b. unfold typed in refl) e
  converted-typed type_int64 raw v e =
      mapped-typed type_int64 (to_int64 floats raw) int64_value v (λ b. unfold typed in refl) e
  converted-typed type_double raw v e =
      mapped-typed type_double (to_float64 floats raw) double_value v (λ b. unfold typed in refl) e
  converted-typed type_bool_list raw v e =
      list-typed type_bool_list to_bool bool_list raw v (λ b. unfold typed in refl) e
  converted-typed type_string_list raw v e =
      list-typed type_string_list to_text string_list raw v (λ b. unfold typed in refl) e
  converted-typed type_int64_list raw v e =
      list-typed type_int64_list (to_int64 floats) int64_list raw v (λ b. unfold typed in refl) e
  converted-typed type_double_list raw v e =
      list-typed type_double_list (to_float64 floats) double_list raw v (λ b. unfold typed in refl)
        e

  not_null :
      (raw : Raw) (ft : FlagType)
      → (convert_value floats raw ft ≡ convert_typed floats raw ft) ⊎ (raw ≡ null)
  unfolding convert_value
  not_null null ft = inr refl
  not_null (bool b) ft = inl refl
  not_null (text s) ft = inl refl
  not_null (int n) ft = inl refl
  not_null (int64 n) ft = inl refl
  not_null (uint64 n) ft = inl refl
  not_null (float x) ft = inl refl
  not_null (sequence rs) ft = inl refl
  not_null other ft = inl refl

  -- convertValue takes a value exactly if it fits the flag's type.
  pub convert_value-fits :
      (raw : Raw) (ft : FlagType) → is_ok (convert_value floats raw ft) ≡ fits floats ft raw
  convert_value-fits raw ft = elim (not_null raw ft) [
    | inl same ↦ ap is_ok same ∙ is_ok-typed ft raw
    | inr nothing ↦ rw nothing (unfold convert_value is_ok in sym (fits_null ft))
  ]

  -- What it makes of a value is of the flag's type.
  pub convert_value-typed :
      (raw : Raw) (ft : FlagType) (v : FlagValue)
      → convert_value floats raw ft ≡ ok v
      → typed ft v ≡ true
  convert_value-typed raw ft v e = elim (not_null raw ft) [
    | inl same ↦ converted-typed ft raw v (sym same ∙ e)
    | inr nothing ↦
        let bad = rw nothing at e in absurd (unfold convert_value in ground (arith, bad))
  ]

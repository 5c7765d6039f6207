-- ===== src/CondCache/Split.antt =====
-- How the parts of a key of BuildCacheKey (internal/evaluator/condcache.go) are read back.
use pbflags.Common.{
  ℕ, ◌≡◌, ◌≢◌, refl, sym, ◌∙◌, List, [], ◌∷◌, ◌++◌, append_assoc, arith, Str, length, is_empty,
  if◌then◌else◌,
}
use pbflags.Common.Decimal.{decimal, decimal-injective, decimal-digits, digits_split}
use pbflags.CondCache.{
  DimClassification, bounded, finite_filter_uniform, finite_filter_distinct, unbounded, other,
  DimensionMeta, matches_literal, find_matching_literal, length_prefixed, key_body,
}

pub append_cancel : (p r s : Str) → p ++ r ≡ p ++ s → r ≡ s
append_cancel [] r s e = e
append_cancel (x ∷ p) r s e = append_cancel p r s (cc)

-- Texts of one length before the rests of one text.
append_split : (v w r s : Str) → length v ≡ length w → v ++ r ≡ w ++ s → (v ≡ w) × (r ≡ s)
append_split [] [] r s h e = (refl, e)
append_split [] (y ∷ w) r s h e = absurd (omega arith)
append_split (x ∷ v) [] r s h e = absurd (omega arith)
append_split (x ∷ v) (y ∷ w) r s h e =
    let same : x ≡ y = cc in
    let rest : v ++ r ≡ w ++ s = cc in
    let (p, q) = append_split v w r s (omega arith) rest in (cc, q)

-- The length before a text tells where the text ends.
length_prefixed_split :
    (v w r s : Str) → length_prefixed v ++ r ≡ length_prefixed w ++ s → (v ≡ w) × (r ≡ s)
unfolding length_prefixed
length_prefixed_split v w r s e =
    let split =
      digits_split (decimal (length v)) (decimal (length w)) (v ++ r) (w ++ s) b':' b':'
        (decimal-digits (length v)) (decimal-digits (length w)) refl refl
        (sym (append_assoc (decimal (length v)) (b':' ∷ v) r)
          ∙ (e ∙ append_assoc (decimal (length w)) (b':' ∷ w) s)) in
    let rest : v ++ r ≡ w ++ s = cc split.1 in
    append_split v w r s (decimal-injective _ _ split.0) rest

-- What the classification of a dimension says that matters of its value: all of it, whether it is
-- among the literals, or which literal it is (the empty text if none).
unfoldable pub class_view : DimensionMeta → Str → Str
class_view dm v = elim dm.classification [
  | bounded ↦ v
  | unbounded ↦ v
  | finite_filter_uniform ↦ if matches_literal v dm.literal_set then b'1' ∷ [] else b'0' ∷ []
  | finite_filter_distinct ↦ find_matching_literal v dm.literal_set
  | other _ ↦ []
]

decimal-ne-nil : (n : ℕ) (r s : Str) → b'-' ∷ r ≢ decimal n ++ b':' ∷ s
decimal-ne-nil n r s e =
    let split = digits_split [] (decimal n) r s b'-' b':' tt (decimal-digits n) refl refl e in
    absurd (ground (arith, split.1))

dash-ne-length_prefixed : (w r s : Str) → b'-' ∷ r ≢ length_prefixed w ++ s
unfolding length_prefixed
dash-ne-length_prefixed w r s e =
    decimal-ne-nil (length w) r (w ++ s) (e ∙ append_assoc (decimal (length w)) (b':' ∷ w) s)

-- A literal, or the dash for none.
distinct_body : Str → Str
distinct_body lit = if is_empty lit then b'-' ∷ [] else length_prefixed lit

distinct_body_split :
    (v w r s : Str) → distinct_body v ++ r ≡ distinct_body w ++ s → (v ≡ w) × (r ≡ s)
unfolding distinct_body
distinct_body_split [] [] r s e = (refl, cc)
distinct_body_split [] (y ∷ w) r s e = absurd (dash-ne-length_prefixed (y ∷ w) r s e)
distinct_body_split (x ∷ v) [] r s e = absurd (dash-ne-length_prefixed (x ∷ v) s r (sym e))
distinct_body_split (x ∷ v) (y ∷ w) r s e = length_prefixed_split (x ∷ v) (y ∷ w) r s e

pub key_body_split :
    (k : DimClassification) (lits : List Str) (v w r s : Str)
    → (let dm : DimensionMeta = record { classification = k; literal_set = lits } in
        key_body dm v ++ r ≡ key_body dm w ++ s → (class_view dm v ≡ class_view dm w) × (r ≡ s))
unfolding key_body class_view distinct_body
key_body_split bounded lits v w r s e = length_prefixed_split v w r s e
key_body_split unbounded lits v w r s e = length_prefixed_split v w r s e
key_body_split finite_filter_uniform lits v w r s e = ground arith
key_body_split finite_filter_distinct lits v w r s e =
    distinct_body_split (find_matching_literal v lits) (find_matching_literal w lits) r s e
key_body_split (other t) lits v w r s e = (refl, e)

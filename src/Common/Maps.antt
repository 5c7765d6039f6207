-- ===== src/Common/Maps.antt =====
-- Go maps with string keys, as association lists. A key stands once in a map that is built by
-- `put`; the order of the entries is the order of the first insertions.
use mathlib.Core.Path.{◌≡◌, refl}
use mathlib.Core.List.{List, [], ◌∷◌}
use mathlib.Core.Option.{Option, none, some}
use native.Mathlib.Omega.{arith}
use pbflags.Common.Tests.{if◌then◌else◌}
use pbflags.Common.Text.{Str, ◌=s◌, =s_iff}

abbrev pub Assoc {ℓ} : Type ℓ → Type ℓ
Assoc V = List (Str × V)

module _ {ℓ} {V : Type ℓ} where
  -- m[k], with its `ok`
  unfoldable pub lookup : Str → Assoc V → Option V
  lookup k [] = none
  lookup k ((j, v) ∷ m) = if j =s k then some v else lookup k m

  -- m[k] = v
  unfoldable pub put : Str → V → Assoc V → Assoc V
  put k v [] = (k, v) ∷ []
  put k v ((j, w) ∷ m) = if j =s k then (j, v) ∷ m else (j, w) ∷ put k v m

  -- delete(m, k)
  unfoldable pub without : Str → Assoc V → Assoc V
  without k [] = []
  without k ((j, v) ∷ m) = let rest = without k m in if j =s k then rest else (j, v) ∷ rest

  pub lookup-put :
      (k j : Str) (v : V) (m : Assoc V)
      → lookup j (put k v m) ≡ (if k =s j then some v else lookup j m)
  unfolding lookup put
  lookup-put k j v [] = refl
  lookup-put k j v ((i, w) ∷ m) =
      ground (arith, =s_iff k j, =s_iff i k, =s_iff i j, lookup-put k j v m)

  pub lookup-without :
      (k j : Str) (m : Assoc V) → lookup j (without k m) ≡ (if k =s j then none else lookup j m)
  unfolding lookup without
  lookup-without k j [] = ground arith
  lookup-without k j ((i, v) ∷ m) =
      ground (arith, lookup-without k j m, =s_iff i k, =s_iff i j, =s_iff k j)

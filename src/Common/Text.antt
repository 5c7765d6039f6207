-- ===== src/Common/Text.antt =====
-- Go strings are sequences of bytes: lists of numbers, with their equality test.
use Prim.Native.Nat.{ℕ}
use Prim.Native.Char.{code}
use Prim.Native.String.{String}
use mathlib.Core.Path.{◌≡◌, refl}
use mathlib.Core.Logic.{◌↔◌}
use mathlib.Core.Bool.{Bool, true, false, ◌&&◌, ◌||◌}
use mathlib.Core.List.{List, [], ◌∷◌}
use native.Mathlib.Omega.{arith}
use pbflags.Common.Tests.{◌==◌, and_true, ==_iff}

abbrev pub Str : Type 0
Str = List ℕ

-- The code points of a literal: its bytes, if it is ASCII.
abbrev pub codes : String → Str
codes String.[] = []
codes (String.◌∷◌ c s) = code c ∷ codes s

infix 50 ◌=s◌
unfoldable pub ◌=s◌ : Str → Str → Bool
[] =s [] = true
[] =s (y ∷ ys) = false
(x ∷ xs) =s [] = false
(x ∷ xs) =s (y ∷ ys) = x == y && xs =s ys

=s_eq : (s t : Str) → (s =s t) ≡ true → s ≡ t
unfolding ◌=s◌
=s_eq [] [] h = refl
=s_eq [] (y ∷ ys) h = ground arith
=s_eq (x ∷ xs) [] h = ground arith
=s_eq (x ∷ xs) (y ∷ ys) h =
    let (p, q) = and_true (x == y) (xs =s ys) h in
    let same = (==_iff x y).0 p in cc (same, =s_eq xs ys q)

pub =s_refl : (s : Str) → (s =s s) ≡ true
unfolding ◌=s◌
=s_refl [] = refl
=s_refl (x ∷ xs) = ground (arith, =s_refl xs)

pub =s_iff : (s t : Str) → ((s =s t) ≡ true) ↔ (s ≡ t)
=s_iff s t = (=s_eq s t, λ e. rw e (=s_refl t))

-- `slices.Contains`, or a loop that looks for an equal string
unfoldable pub contains : List Str → Str → Bool
contains [] s = false
contains (x ∷ xs) s = x =s s || contains xs s

-- The bytes of " — reason: ", whose dash is the character U+2014 in UTF-8.
abbrev pub reason_mark : Str
reason_mark = 32 ∷ 226 ∷ 128 ∷ 148 ∷ codes " reason: "

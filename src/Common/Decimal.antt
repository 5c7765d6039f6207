-- ===== src/Common/Decimal.antt =====
-- Decimal text, as the verb `%d` of Go's fmt writes it, and what makes it readable again.
use pbflags.Common.{
  sym, ℕ, zero, suc, ◌+◌, ◌-◌, ◌*◌, ◌/◌, ◌%◌, ◌<◌, ◌≡◌, refl, ap, ◌∙◌, Bool, true, false, ◌&&◌, [],
  ◌∷◌, ◌++◌, arith, Str, ltb, leb, if◌then◌else◌, Bool-cases, inl, inr, ℤ, pos, negsuc, All,
}

-- The digits of `n`, given more fuel than it has digits.
decimal_fuel : ℕ → ℕ → Str
decimal_fuel zero n = []
decimal_fuel (suc f) n =
    let more = decimal_fuel f (n / 10) ++ (48 + n % 10) ∷ [] in
    if ltb n 10 then (48 + n) ∷ [] else more

unfoldable pub decimal : ℕ → Str
unfolding decimal_fuel
decimal n = decimal_fuel (suc n) n

unfoldable pub decimal_ℤ : ℤ → Str
unfolding decimal
decimal_ℤ (pos n) = decimal n
decimal_ℤ (negsuc n) = b'-' ∷ decimal (suc n)

abbrev pub is_digit : ℕ → Bool
is_digit c = leb 48 c && leb c 57

-- The number that a run of digits writes, after `acc`.
pub read : ℕ → Str → ℕ
read acc [] = acc
read acc (c ∷ cs) = read (acc * 10 + (c - 48)) cs

read-append : (acc : ℕ) (xs : Str) (c : ℕ) → read acc (xs ++ c ∷ []) ≡ read acc xs * 10 + (c - 48)
unfolding read
read-append acc [] c = refl
read-append acc (x ∷ xs) c = read-append (acc * 10 + (x - 48)) xs c

-- With enough fuel the digits are those of the number.
read-decimal_fuel : (f n : ℕ) → n < f → read 0 (decimal_fuel f n) ≡ n
unfolding decimal_fuel
read-decimal_fuel zero n h = elim h [ ]
read-decimal_fuel (suc f) n h = elim (Bool-cases (ltb n 10)) [
  | inl small ↦ rw small (unfold read in omega arith)
  | inr big ↦ rw (big, read-append) (omega (arith, read-decimal_fuel f (n / 10) (ground arith)))
]

pub read-decimal : (n : ℕ) → read 0 (decimal n) ≡ n
unfolding decimal
read-decimal n = read-decimal_fuel (suc n) n (omega arith)

pub decimal-injective : (n m : ℕ) → decimal n ≡ decimal m → n ≡ m
decimal-injective n m e = sym (read-decimal n) ∙ (ap (read 0) e ∙ read-decimal m)

All-concat :
    (xs : Str) (c : ℕ)
    → All (λ x. is_digit x ≡ true) xs
    → is_digit c ≡ true
    → All (λ x. is_digit x ≡ true) (xs ++ c ∷ [])
All-concat [] c h d = (d, tt)
All-concat (x ∷ xs) c (p, h) d = (p, All-concat xs c h d)

digit_of_rem : (n : ℕ) → is_digit (48 + n % 10) ≡ true
digit_of_rem n = let h : n % 10 < 10 = omega arith in ground arith

decimal_fuel-digits : (f n : ℕ) → All (λ x. is_digit x ≡ true) (decimal_fuel f n)
unfolding decimal_fuel
decimal_fuel-digits zero n = tt
decimal_fuel-digits (suc f) n = elim (Bool-cases (ltb n 10)) [
  | inl small ↦ rw small (ground arith, tt)
  | inr big ↦ rw big (All-concat _ _ (decimal_fuel-digits f (n / 10)) (digit_of_rem n))
]

pub decimal-digits : (n : ℕ) → All (λ x. is_digit x ≡ true) (decimal n)
unfolding decimal
decimal-digits n = decimal_fuel-digits (suc n) n

-- Two runs of digits, each followed by a byte that is no digit, are told apart.
pub digits_split :
    (xs ys r s : Str) (c d : ℕ)
    → All (λ x. is_digit x ≡ true) xs
    → All (λ x. is_digit x ≡ true) ys
    → is_digit c ≡ false
    → is_digit d ≡ false
    → xs ++ c ∷ r ≡ ys ++ d ∷ s
    → (xs ≡ ys) × (c ∷ r ≡ d ∷ s)
digits_split [] [] r s c d _ _ _ _ e = (refl, e)
digits_split [] (y ∷ ys) r s c d _ (q, _) nc _ e = let same : c ≡ y = cc in absurd (ground arith)
digits_split (x ∷ xs) [] r s c d (p, _) _ _ nd e = let same : x ≡ d = cc in absurd (ground arith)
digits_split (x ∷ xs) (y ∷ ys) r s c d (p, ps) (q, qs) nc nd e =
    let same : x ≡ y = cc in
    let rest : xs ++ c ∷ r ≡ ys ++ d ∷ s = cc in
    let (a, b) = digits_split xs ys r s c d ps qs nc nd rest in (cc, b)

-- ===== src/Ristretto/Plain.antt =====
-- An association list that keeps all it is given until it ages, save a write with a negative time to
-- live, which does nothing: the assumptions on the cache can be met.
use pbflags.Common.{
  ℕ, zero, suc, ◌≡◌, ◌⊎◌, inr, none, some, [], Str, Assoc, lookup, put, lookup-put, =s_iff, arith,
  ℤ, pos, ltb_ℤ, if◌then◌else◌, Bool-cases, inl,
}
use pbflags.Ristretto.{Ristretto}

module _ {V : Type 0} where
  abbrev plain_age : ℕ → Assoc V → Assoc V
  plain_age zero c = c
  plain_age (suc n) c = []

  abbrev plain_set_with_ttl : Str → V → ℤ → Assoc V → Assoc V
  plain_set_with_ttl k v ttl c = if ltb_ℤ ttl (pos 0) then c else put k v c

  pub get-put :
      (k j : Str) (v : V) (c : Assoc V) (w : V)
      → lookup j (put k v c) ≡ some w
      → (k ≡ j) × (v ≡ w) ⊎ (lookup j c ≡ some w)
  get-put k j v c w h = ground (arith, lookup-put k j v c, =s_iff k j)

  pub get-put_with_ttl :
      (k j : Str) (v : V) (ttl : ℤ) (c : Assoc V) (w : V)
      → lookup j (plain_set_with_ttl k v ttl c) ≡ some w
      → (k ≡ j) × (v ≡ w) ⊎ (lookup j c ≡ some w)
  get-put_with_ttl k j v ttl c w h = elim (Bool-cases (ltb_ℤ ttl (pos 0))) [
    | inl past ↦ inr (rw past at h)
    | inr now ↦ get-put k j v c w (rw now at h)
  ]

  pub lookup-nil : (j : Str) → lookup {V = V} j [] ≡ none
  unfolding lookup
  lookup-nil j = ground arith

  pub lookup-clear : (j : Str) (c : Assoc V) (w : V) → lookup j [] ≡ some w → lookup j c ≡ some w
  lookup-clear j c w h = absurd (ground (arith, lookup-nil j))

  pub lookup-age :
      (n : ℕ) (j : Str) (c : Assoc V) (w : V)
      → lookup j (plain_age n c) ≡ some w
      → lookup j c ≡ some w
  lookup-age zero j c w h = h
  lookup-age (suc n) j c w h = lookup-clear j c w h

abbrev pub plain : (V : Type 0) → Ristretto V
plain V = record {
  Cache = Assoc V;
  get = lookup;
  set = put;
  set_with_ttl = plain_set_with_ttl;
  clear = λ c. [];
  age = plain_age;
  MayAnswer = λ k v c. lookup k c ≡ some v;
  get-MayAnswer = λ k v c h. h;
  MayAnswer-set = get-put;
  MayAnswer-set_with_ttl = get-put_with_ttl;
  MayAnswer-clear = lookup-clear;
  MayAnswer-age = lookup-age;
}

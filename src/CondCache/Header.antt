-- ===== src/CondCache/Header.antt =====
-- The header of a key of BuildCacheKey (internal/evaluator/condcache.go): it tells the flag and the
-- version, for flag ids without NUL bytes.
use pbflags.Common.{
  lookup, Option-cases, append-nil, ℕ, ◌≡◌, ◌≢◌, refl, sym, ◌∙◌, true, List, [], ◌∷◌, ◌++◌, arith,
  Str, All, Option, none, some, inl, inr,
}
use pbflags.Common.Decimal.{decimal, decimal-injective, decimal-digits, is_digit}
use pbflags.Message.{Message}
use pbflags.Launch.{CachedLaunch}
use pbflags.CondCache.Keys.{key_dims-unlisted, key_dims-absent, key_dims-found}
use pbflags.CondCache.{
  CachedDimMeta, key_header, key_component, key_dims, key_launches, build_cache_key, sort_strings,
  names,
}

-- No byte of the text is NUL.
abbrev pub HasNoNul : Str → Type 0
HasNoNul = All (λ x. x ≢ 0)

-- Nothing, or a text that begins with NUL.
abbrev IsTail : Str → Type 0
IsTail [] = Unit
IsTail (x ∷ xs) = x ≡ 0

-- Texts without NUL, each before such a tail.
nul_split :
    (xs ys r s : Str)
    → HasNoNul xs
    → HasNoNul ys
    → IsTail r
    → IsTail s
    → xs ++ r ≡ ys ++ s
    → (xs ≡ ys) × (r ≡ s)
nul_split [] [] r s _ _ _ _ e = (refl, e)
nul_split [] (y ∷ ys) [] s _ _ _ _ e = absurd (ground arith)
nul_split [] (y ∷ ys) (z ∷ r) s _ (q, _) t _ e = let same : z ≡ y = cc in absurd (q (sym same ∙ t))
nul_split (x ∷ xs) [] r [] _ _ _ _ e = absurd (ground arith)
nul_split (x ∷ xs) [] r (z ∷ s) (p, _) _ _ t e = let same : x ≡ z = cc in absurd (p (same ∙ t))
nul_split (x ∷ xs) (y ∷ ys) r s (p, ps) (q, qs) t u e =
    let same : x ≡ y = cc in
    let rest : xs ++ r ≡ ys ++ s = cc in let (a, b) = nul_split xs ys r s ps qs t u rest in (cc, b)

-- An at sign inside digits is refuted.
no_at : (ys ds es : Str) → All (λ x. is_digit x ≡ true) ds → ds ≢ ys ++ b'@' ∷ es
no_at [] [] es h e = absurd (ground arith)
no_at [] (d ∷ ds) es (h, _) e = let same : d ≡ b'@' = cc in absurd (ground arith)
no_at (y ∷ ys) [] es h e = absurd (ground arith)
no_at (y ∷ ys) (d ∷ ds) es (_, h) e = no_at ys ds es h (cc)

-- The last at sign is the one before the digits.
at_split :
    (xs ys ds es : Str)
    → All (λ x. is_digit x ≡ true) ds
    → All (λ x. is_digit x ≡ true) es
    → xs ++ b'@' ∷ ds ≡ ys ++ b'@' ∷ es
    → (xs ≡ ys) × (ds ≡ es)
at_split [] [] ds es _ _ e = (refl, cc)
at_split [] (y ∷ ys) ds es h _ e = absurd (no_at ys ds es h (cc))
at_split (x ∷ xs) [] ds es _ k e = absurd (no_at xs es ds k (cc))
at_split (x ∷ xs) (y ∷ ys) ds es h k e =
    let same : x ≡ y = cc in
    let rest : xs ++ b'@' ∷ ds ≡ ys ++ b'@' ∷ es = cc in
    let (a, b) = at_split xs ys ds es h k rest in (cc, b)

HasNoNul-append : (xs ys : Str) → HasNoNul xs → HasNoNul ys → HasNoNul (xs ++ ys)
HasNoNul-append [] ys _ k = k
HasNoNul-append (x ∷ xs) ys (p, h) k = (p, HasNoNul-append xs ys h k)

HasNoNul-digits : (ds : Str) → All (λ x. is_digit x ≡ true) ds → HasNoNul ds
HasNoNul-digits [] _ = tt
HasNoNul-digits (d ∷ ds) (h, k) = (λ e. absurd (ground arith), HasNoNul-digits ds k)

HasNoNul-header : (flag_id : Str) (v : ℕ) → HasNoNul flag_id → HasNoNul (key_header flag_id v)
unfolding key_header
HasNoNul-header flag_id v h =
    HasNoNul-append flag_id (b'@' ∷ decimal v) h
      (λ e. absurd (omega arith), HasNoNul-digits (decimal v) (decimal-digits v))

IsTail-launches : (c : Message) (ls : List CachedLaunch) → IsTail (key_launches c ls)
unfolding key_launches
IsTail-launches c [] = tt
IsTail-launches c (l ∷ ls) = refl

IsTail-append : (xs ys : Str) → IsTail xs → IsTail ys → IsTail (xs ++ ys)
IsTail-append [] ys _ k = k
IsTail-append (x ∷ xs) ys h _ = h

IsTail-dims : (meta : CachedDimMeta) (c : Message) (ns : List Str) → IsTail (key_dims meta c ns)
IsTail-dims meta c [] = unfold key_dims in tt
IsTail-dims meta c (n ∷ ns) = elim (Option-cases (lookup n meta)) [
  | inl unlisted ↦ rw (key_dims-unlisted meta c n ns unlisted) (IsTail-dims meta c ns)
  | inr (dm, p) ↦ elim (Option-cases (c.by_name n)) [
    | inl absent ↦ rw (key_dims-absent meta c n ns absent) (IsTail-dims meta c ns)
    | inr (v, k) ↦ rw (key_dims-found meta c n ns dm v p k) (unfold key_component in refl)
  ]
]

-- A key is the header and a tail.
key-IsTail :
    (flag_id : Str) (v : ℕ) (meta : CachedDimMeta) (c : Option Message) (ls : List CachedLaunch)
    → (t : Str) × IsTail t × (build_cache_key flag_id v meta c ls ≡ key_header flag_id v ++ t)
unfolding build_cache_key
key-IsTail flag_id v meta none ls = ([], tt, sym (append-nil _))
key-IsTail flag_id v [] (some c) [] = ([], tt, sym (append-nil _))
key-IsTail flag_id v [] (some c) (l ∷ ls) = (
  _,
  IsTail-append _ _ (IsTail-dims [] c (sort_strings (names []))) (IsTail-launches c (l ∷ ls)),
  refl,
)
key-IsTail flag_id v (m ∷ ms) (some c) ls = (
  _,
  IsTail-append _ _ (IsTail-dims (m ∷ ms) c (sort_strings (names (m ∷ ms)))) (IsTail-launches c ls),
  refl,
)

-- Two keys that are equal are of one flag and one version, whatever the rest of the keys is about.
pub build_cache_key-header :
    (f g : Str) (v u : ℕ) (meta meta' : CachedDimMeta) (c d : Option Message)
    (ls ls' : List CachedLaunch)
    → HasNoNul f
    → HasNoNul g
    → build_cache_key f v meta c ls ≡ build_cache_key g u meta' d ls'
    → (f ≡ g) × (v ≡ u)
build_cache_key-header f g v u meta meta' c d ls ls' nf ng e =
    let (t, tail, split) = key-IsTail f v meta c ls in
    let (t', tail', split') = key-IsTail g u meta' d ls' in
    let (headers, _) =
      nul_split (key_header f v) (key_header g u) t t' (HasNoNul-header f v nf)
        (HasNoNul-header g u ng) tail tail' (sym split ∙ (e ∙ split')) in
    let (flags, versions) =
      at_split f g (decimal v) (decimal u) (decimal-digits v) (decimal-digits u)
        (unfold key_header in headers) in
    (flags, decimal-injective v u versions)

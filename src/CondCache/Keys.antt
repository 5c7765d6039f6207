-- ===== src/CondCache/Keys.antt =====
-- What a key of BuildCacheKey (internal/evaluator/condcache.go) tells of the context.
use pbflags.Common.{
  ◌||◌, =s_iff, subst, ◌=s◌, codes, ℕ, ◌≡◌, refl, sym, ◌∙◌, Bool, true, false, none, some, List, [],
  ◌∷◌, ◌++◌, append_assoc, arith, Str, lookup, contains, inl, inr, Bool-cases, Option-cases,
  if◌then◌else◌, is_some,
}
use pbflags.Message.{Message, FieldValue, format_field_value}
use pbflags.Launch.{CachedLaunch}
use pbflags.CondCache.Split.{class_view, append_cancel, key_body_split}
use pbflags.CondCache.{
  sort_strings, insert_name, names, DimensionMeta, CachedDimMeta, key_body, key_component, key_dims,
  launch_bit, key_launches, key_header, build_cache_key,
}

-- Two contexts of one message type: the same fields.
abbrev pub SameFields : Message → Message → Type 0
SameFields c d = (name : Str) → is_some (c.by_name name) ≡ is_some (d.by_name name)

-- The two contexts agree on what the classification of the dimension looks at.
abbrev pub SameClass : CachedDimMeta → Message → Message → Str → Type 0
SameClass meta c d name =
    (dm : DimensionMeta) (v w : FieldValue)
    → lookup name meta ≡ some dm
    → c.by_name name ≡ some v
    → d.by_name name ≡ some w
    → class_view dm (format_field_value v) ≡ class_view dm (format_field_value w)

abbrev pub AllSameClass : CachedDimMeta → Message → Message → List Str → Type 0
AllSameClass meta c d [] = Unit
AllSameClass meta c d (n ∷ ns) = SameClass meta c d n × AllSameClass meta c d ns

component_split :
    (name : Str) (dm : DimensionMeta) (v w : FieldValue) (r s : Str)
    → key_component name dm v ++ r ≡ key_component name dm w ++ s
    → (class_view dm (format_field_value v) ≡ class_view dm (format_field_value w)) × (r ≡ s)
component_split name dm v w r s e =
    let body =
      append_cancel (0 ∷ name) (0 ∷ key_body dm (format_field_value v) ++ r)
        (0 ∷ key_body dm (format_field_value w) ++ s)
        (unfold key_component in
          sym (append_assoc (0 ∷ name) (0 ∷ key_body dm (format_field_value v)) r)
          ∙ (e ∙ append_assoc (0 ∷ name) (0 ∷ key_body dm (format_field_value w)) s)) in
    key_body_split dm.classification dm.literal_set (format_field_value v) (format_field_value w) r
      s (cc body)

module _ (meta : CachedDimMeta) (c : Message) (n : Str) (ns : List Str) where
  pub key_dims-unlisted : lookup n meta ≡ none → key_dims meta c (n ∷ ns) ≡ key_dims meta c ns
  unfolding key_dims
  key_dims-unlisted h = ground arith

  pub key_dims-absent : c.by_name n ≡ none → key_dims meta c (n ∷ ns) ≡ key_dims meta c ns
  unfolding key_dims
  key_dims-absent h = ground arith

  pub key_dims-found :
      (dm : DimensionMeta) (v : FieldValue)
      → lookup n meta ≡ some dm
      → c.by_name n ≡ some v
      → key_dims meta c (n ∷ ns) ≡ key_component n dm v ++ key_dims meta c ns
  unfolding key_dims
  key_dims-found dm v h q = rw (h, q, key_dims)

module _ (meta : CachedDimMeta) (c d : Message) where
  SameClass-unlisted : (n : Str) → lookup n meta ≡ none → SameClass meta c d n
  SameClass-unlisted n h dm v w p q r = absurd (ground arith)

  SameClass-absent : (n : Str) → c.by_name n ≡ none → SameClass meta c d n
  SameClass-absent n h dm v w p q r = absurd (ground arith)

  SameClass-found :
      (n : Str) (dm : DimensionMeta) (v w : FieldValue)
      → lookup n meta ≡ some dm
      → c.by_name n ≡ some v
      → d.by_name n ≡ some w
      → class_view dm (format_field_value v) ≡ class_view dm (format_field_value w)
      → SameClass meta c d n
  SameClass-found n dm v w p q r e dm' v' w' p' q' r' =
      let same_dm : dm' ≡ dm = ground arith in
      let same_v : v' ≡ v = ground arith in
      let same_w : w' ≡ w = ground arith in rw (same_dm, same_v, same_w) e

  key_dims_split :
      SameFields c d
      → (names : List Str) (r s : Str) → key_dims meta c names ++ r ≡ key_dims meta d names ++ s
      → AllSameClass meta c d names × (r ≡ s)
  key_dims_split same [] r s e = (tt, unfold key_dims in e)
  key_dims_split same (n ∷ ns) r s e = elim (Option-cases (lookup n meta)) [
    | inl unlisted ↦
        let (later, rest) = key_dims_split same ns r s (
          rw (key_dims-unlisted meta c n ns unlisted, key_dims-unlisted meta d n ns unlisted) at
            e) in
        ((SameClass-unlisted n unlisted, later), rest)
    | inr (dm, p) ↦ elim (Option-cases (c.by_name n)) [
      | inl absent ↦
          let absent' : d.by_name n ≡ none = ground (arith, same n) in
          let (later, rest) =
            key_dims_split same ns r s
              (rw (key_dims-absent meta c n ns absent, key_dims-absent meta d n ns absent') at e) in
          ((SameClass-absent n absent, later), rest)
      | inr (v, q) ↦ elim (Option-cases (d.by_name n)) [
        | inl absent ↦ absurd (ground (arith, same n))
        | inr (w, q') ↦
            let (here, e') =
              component_split n dm v w (key_dims meta c ns ++ r) (key_dims meta d ns ++ s) (
                sym (append_assoc (key_component n dm v) (key_dims meta c ns) r)
                ∙ (rw (key_dims-found meta c n ns dm v p q, key_dims-found meta d n ns dm w p q') at
                      e
                    ∙ append_assoc (key_component n dm w) (key_dims meta d ns) s)) in
            let (later, rest) = key_dims_split same ns r s e' in
            ((SameClass-found n dm v w p q q' here, later), rest)
      ]
    ]
  ]

-- The two contexts lie on the same side of every launch's ramp.
abbrev pub AllSameRamp : Message → Message → List CachedLaunch → Type 0
AllSameRamp c d [] = Unit
AllSameRamp c d (l ∷ ls) = (launch_bit c l ≡ launch_bit d l) × AllSameRamp c d ls

launch_byte : Bool → ℕ
launch_byte b = if b then b'1' else b'0'

launch_byte-injective : (a b : Bool) → launch_byte a ≡ launch_byte b → a ≡ b
unfolding launch_byte
launch_byte-injective a b e = ground arith

key_launches_split :
    (c d : Message) (ls : List CachedLaunch)
    → key_launches c ls ≡ key_launches d ls
    → AllSameRamp c d ls
unfolding key_launches
key_launches_split c d [] e = tt
key_launches_split c d (l ∷ ls) e =
    let tails =
      append_cancel (0 ∷ codes "launch:" ++ l.launch_id)
        (0 ∷ launch_byte (launch_bit c l) ∷ key_launches c ls)
        (0 ∷ launch_byte (launch_bit d l) ∷ key_launches d ls) (unfold launch_byte in e) in
    (launch_byte-injective _ _ (cc tails), key_launches_split c d ls (cc tails))

contains-insert_name :
    (x n : Str) (ys : List Str) → contains (insert_name x ys) n ≡ (x =s n || contains ys n)
unfolding insert_name contains
contains-insert_name x n [] = refl
contains-insert_name x n (y ∷ ys) = ground (arith, contains-insert_name x n ys)

pub contains-sort_strings : (xs : List Str) (n : Str) → contains (sort_strings xs) n ≡ contains xs n
unfolding sort_strings contains
contains-sort_strings [] n = refl
contains-sort_strings (x ∷ xs) n =
    ground (arith, contains-insert_name x n (sort_strings xs), contains-sort_strings xs n)

contains-names :
    (meta : CachedDimMeta) (n : Str) (dm : DimensionMeta)
    → lookup n meta ≡ some dm
    → contains (names meta) n ≡ true
unfolding lookup contains
contains-names [] n dm h = absurd (ground arith)
contains-names ((j, w) ∷ m) n dm h = ground (arith, contains-names m n dm)

contains_later :
    (x n : Str) (xs : List Str)
    → (x =s n) ≡ false
    → contains (x ∷ xs) n ≡ true
    → contains xs n ≡ true
unfolding contains
contains_later x n xs p h = ground arith

SameClass-member :
    (meta : CachedDimMeta) (c d : Message) (ns : List Str) (n : Str)
    → AllSameClass meta c d ns
    → contains ns n ≡ true
    → SameClass meta c d n
unfolding contains
SameClass-member meta c d [] n _ h = absurd (ground arith)
SameClass-member meta c d (x ∷ xs) n (here, later) h = elim (Bool-cases (x =s n)) [
  | inl same ↦ subst (SameClass meta c d) ((=s_iff x n).0 same) here
  | inr differs ↦ SameClass-member meta c d xs n later (contains_later x n xs differs h)
]

parts_split :
    (header : Str) (meta : CachedDimMeta) (launches : List CachedLaunch) (c d : Message)
    → SameFields c d
    → header ++ (key_dims meta c (sort_strings (names meta)) ++ key_launches c launches)
      ≡ header ++ (key_dims meta d (sort_strings (names meta)) ++ key_launches d launches)
    → ((name : Str) → SameClass meta c d name) × AllSameRamp c d launches
parts_split header meta launches c d same e =
    let (dims, rest) =
      key_dims_split meta c d same (sort_strings (names meta)) (key_launches c launches)
        (key_launches d launches) (append_cancel header _ _ e) in
    (
      λ name dm v w p.
          SameClass-member meta c d (sort_strings (names meta)) name dims
            (contains-sort_strings (names meta) name ∙ contains-names meta name dm p) dm v w p,
      key_launches_split c d launches rest,
    )

-- A key determines, for contexts of one message type, what the classification of every dimension
-- looks at and the side of every launch's ramp: two contexts that share a key differ in nothing
-- else that the classification tells apart.
pub build_cache_key_sound :
    (flag_id : Str) (version : ℕ) (meta : CachedDimMeta) (launches : List CachedLaunch)
    (c d : Message)
    → SameFields c d
    → build_cache_key flag_id version meta (some c) launches
      ≡ build_cache_key flag_id version meta (some d) launches
    → ((name : Str) → SameClass meta c d name) × AllSameRamp c d launches
unfolding build_cache_key
build_cache_key_sound flag_id version [] [] c d same e =
    (λ name dm v w p q r. absurd (unfold lookup in ground arith), tt)
build_cache_key_sound flag_id version meta launches c d same e =
    parts_split (key_header flag_id version) meta launches c d same e

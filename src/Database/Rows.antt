-- ===== src/Database/Rows.antt =====
-- The statements on feature_flags.condition_overrides that internal/admin/overrides.go issues: what
-- they leave at each position.
use pbflags.Common.{
  ◌∙◌, ◌==◌, Bool, true, false, ◌≡◌, refl, Option, none, some, List, [], ◌∷◌, Str, ℤ, pos, negsuc,
  arith, =s_iff, if◌then◌else◌, ◌&&◌, eqb_ℤ, ℕ, suc, ◌≤◌, ◌↔◌, Bool-cases, inl, inr, ==_iff, sym,
}
use pbflags.Database.{OverrideRow, at_position, same_index, find_override, upsert, delete, picked}

pub eqb_ℤ_iff : (i j : ℤ) → (eqb_ℤ i j ≡ true) ↔ (i ≡ j)
eqb_ℤ_iff (pos a) (pos b) = ground (arith, ==_iff a b)
eqb_ℤ_iff (pos a) (negsuc b) = ground arith
eqb_ℤ_iff (negsuc a) (pos b) = ground arith
eqb_ℤ_iff (negsuc a) (negsuc b) = ground (arith, ==_iff a b)

same_index_iff : (i j : Option ℤ) → (same_index i j ≡ true) ↔ (i ≡ j)
same_index_iff none none = ground arith
same_index_iff none (some j) = ground arith
same_index_iff (some i) none = ground arith
same_index_iff (some i) (some j) = ground (arith, eqb_ℤ_iff i j)

pub at_position_iff :
    (f : Str) (i : Option ℤ) (row : OverrideRow)
    → (at_position f i row ≡ true) ↔ (row.flag_id ≡ f) × (row.condition_index ≡ i)
unfolding at_position
at_position_iff f i row = ground (arith, =s_iff row.flag_id f, same_index_iff row.condition_index i)

at_position-replaced :
    (f : Str) (i : Option ℤ) (new row : OverrideRow)
    → at_position new.flag_id new.condition_index row ≡ true
    → at_position f i row ≡ at_position f i new
unfolding at_position
at_position-replaced f i new row h =
    let (flags, indices) = (at_position_iff new.flag_id new.condition_index row).0 h in
    rw (flags, indices)

at_position-shared :
    (f : Str) (i : Option ℤ) (new row : OverrideRow)
    → at_position f i new ≡ true
    → at_position f i row ≡ true
    → at_position new.flag_id new.condition_index row ≡ true
at_position-shared f i new row h k =
    let (flags, indices) = (at_position_iff f i new).0 h in
    let (flags', indices') = (at_position_iff f i row).0 k in
    (at_position_iff new.flag_id new.condition_index row).1
      (flags' ∙ sym flags, indices' ∙ sym indices)

-- After an upsert its position has the new row, and every other position what it had.
pub find_override-upsert :
    (new : OverrideRow) (rows : List OverrideRow) (f : Str) (i : Option ℤ)
    → find_override f i (upsert new rows)
      ≡ (if at_position f i new then some new else find_override f i rows)
unfolding find_override upsert
find_override-upsert new [] f i = refl
find_override-upsert new (row ∷ rows) f i =
    elim (Bool-cases (at_position new.flag_id new.condition_index row)) [
      | inl here ↦ rw (here, at_position-replaced f i new row here) (ground arith)
      | inr there ↦
          rw (there, find_override-upsert new rows f i)
            (ground (arith, at_position-shared f i new row))
    ]

-- After a delete the positions whose rows it picks have none, where it picks by position or flag.
pub find_override-delete :
    (p : OverrideRow → Bool) (f : Str) (i : Option ℤ)
    → ((row : OverrideRow) → at_position f i row ≡ true → p row ≡ true)
    → (rows : List OverrideRow) → find_override f i (delete p rows) ≡ none
unfolding find_override delete
find_override-delete p f i h [] = refl
find_override-delete p f i h (row ∷ rows) = ground (arith, h row, find_override-delete p f i h rows)

pub find_override-kept :
    (p : OverrideRow → Bool) (f : Str) (i : Option ℤ)
    → ((row : OverrideRow) → at_position f i row ≡ true → p row ≡ false)
    → (rows : List OverrideRow) → find_override f i (delete p rows) ≡ find_override f i rows
unfolding find_override delete
find_override-kept p f i h [] = refl
find_override-kept p f i h (row ∷ rows) = ground (arith, h row, find_override-kept p f i h rows)

-- How many rows stand at a position.
unfoldable pub count_at : Str → Option ℤ → List OverrideRow → ℕ
count_at f i [] = 0
count_at f i (row ∷ rows) = let n = count_at f i rows in if at_position f i row then suc n else n

-- The two partial unique indexes: a position has at most one row.
abbrev pub IsUnique : List OverrideRow → Type 0
IsUnique rows = (f : Str) (i : Option ℤ) → count_at f i rows ≤ 1

module _ (new : OverrideRow) (f : Str) (i : Option ℤ) where
  count_at-upsert :
      (rows : List OverrideRow)
      → count_at f i (upsert new rows)
        ≡ (if at_position f i new && count_at f i rows == 0 then 1 else count_at f i rows)
  unfolding count_at upsert
  count_at-upsert [] = ground arith
  count_at-upsert (row ∷ rows) =
      elim (Bool-cases (at_position new.flag_id new.condition_index row)) [
        | inl here ↦ rw (here, at_position-replaced f i new row here) (ground arith)
        | inr there ↦
            rw (there, count_at-upsert rows) (ground (arith, at_position-shared f i new row))
      ]

pub upsert-IsUnique :
    (new : OverrideRow) (rows : List OverrideRow) → IsUnique rows → IsUnique (upsert new rows)
upsert-IsUnique new rows h f i =
    let bound = h f i in rw (count_at-upsert new f i rows) (ground arith)

count_at-delete :
    (p : OverrideRow → Bool) (f : Str) (i : Option ℤ) (rows : List OverrideRow)
    → count_at f i (delete p rows) ≤ count_at f i rows
unfolding count_at delete
count_at-delete p f i [] = omega arith
count_at-delete p f i (row ∷ rows) = ground (arith, count_at-delete p f i rows)

pub delete-IsUnique :
    (p : OverrideRow → Bool) (rows : List OverrideRow) → IsUnique rows → IsUnique (delete p rows)
delete-IsUnique p rows h f i =
    let less = count_at-delete p f i rows in let bound = h f i in omega arith

pub delete-unpicked :
    (p : OverrideRow → Bool) (rows : List OverrideRow) → picked p rows ≡ [] → delete p rows ≡ rows
unfolding picked delete
delete-unpicked p [] h = refl
delete-unpicked p (row ∷ rows) h = ground (arith, delete-unpicked p rows)

pub picked-none :
    (p : OverrideRow → Bool) (rows : List OverrideRow)
    → ((row : OverrideRow) → p row ≡ false)
    → picked p rows ≡ []
unfolding picked
picked-none p [] h = refl
picked-none p (row ∷ rows) h = rw (h row, picked-none p rows h)

pub find_override-none :
    (f : Str) (i : Option ℤ) (rows : List OverrideRow)
    → count_at f i rows ≤ 0
    → find_override f i rows ≡ none
unfolding count_at find_override
find_override-none f i [] h = refl
find_override-none f i (row ∷ rows) h = ground (arith, find_override-none f i rows)

-- ===== src/DbFetcher/RoundTrip.antt =====
-- From a live override that is set (internal/admin/overrides.go) to the evaluator
-- (internal/evaluator/dbfetcher.go).
use pbflags.Common.{◌∙◌, subst, Bool, ◌≡◌, refl, Option, some, List, Str, ℤ, ℕ, ap}
use pbflags.Flag.{FlagValue}
use pbflags.Database.{Db, ok, ValueCodec, upsert}
use pbflags.Database.Ends.{Atomic}
use pbflags.Database.Rows.{IsUnique, upsert-IsUnique, find_override-upsert, at_position_iff}
use pbflags.AdminOverrides.{set_condition_override}
use pbflags.AdminOverrides.Effects.{Set, row_of, set_condition_override-Set}
use pbflags.DbFetcher.{Faults, Loaded, fetch_condition_overrides}
use pbflags.DbFetcher.Loading.{value_at, fetch_condition_overrides-value_at}

module _ (codec : ValueCodec) (flag_id : Str) (idx : Option ℤ) (value : FlagValue)
    (source actor reason : Str) (now : ℕ) where
  Set-value_at :
      (before after : Db) (prev : Option FlagValue) (faults : Faults) (loaded : Loaded)
      → ((bytes : Str) → codec.marshal value ≡ some bytes → codec.unmarshal bytes ≡ some value)
      → IsUnique before.overrides
      → Set codec flag_id idx source actor reason now value before prev after
      → fetch_condition_overrides codec.unmarshal faults after flag_id ≡ some loaded
      → value_at idx loaded ≡ some value
  Set-value_at before after prev faults loaded codes unique (bytes, m, (known, p, (old, new, e)))
        h =
      let row = row_of codec flag_id idx source actor reason now bytes in
      let rows : after.overrides ≡ upsert row before.overrides = ap (λ (d : Db). d.overrides) e in
      let kept = upsert-IsUnique row before.overrides unique in
      let here = (at_position_iff flag_id idx row).1 (refl, refl) in
      fetch_condition_overrides-value_at codec.unmarshal faults after flag_id idx loaded
        (rw rows kept) h
      ∙ rw (rows, find_override-upsert row before.overrides flag_id idx, here) (codes bytes m)

  -- An override that is set is what the next fetch hands to the evaluator: the codec decodes what
  -- it encodes, a position has at most one row, and the fetch does not fail.
  pub set_condition_override-fetched :
      (before after : Db) (prev : Option FlagValue) (statements : List Bool) (faults : Faults)
      (loaded : Loaded)
      → ((bytes : Str) → codec.marshal value ≡ some bytes → codec.unmarshal bytes ≡ some value)
      → IsUnique before.overrides
      → set_condition_override codec flag_id idx
          (some value)
          source
          actor
          reason
          now
          statements
          before
        ≡ (ok prev, after)
      → fetch_condition_overrides codec.unmarshal faults after flag_id ≡ some loaded
      → value_at idx loaded ≡ some value
  set_condition_override-fetched before after prev statements faults loaded codes unique run h =
      Set-value_at before after prev faults loaded codes unique
        (subst (Atomic (Set codec flag_id idx source actor reason now value before) before) run (
          set_condition_override-Set codec flag_id idx source actor reason now value statements
            before))
        h

-- ===== src/Sync/Conditions/Runs.antt =====
-- The statements of SyncConditions (internal/sync/conditions.go), wherever they fail.
pub mod Synced
pub mod Values
use pbflags.Common.{
  ℕ, suc, ◌⊎◌, Bool, true, false, ◌&&◌, not, ◌≡◌, refl, sym, ◌∙◌, ap, Option, none, some, List, [],
  ◌∷◌, ◌++◌, Str, if◌then◌else◌, is_empty, is_some, arith, Assoc, lookup, Bool-cases, Option-cases,
  inl, inr, length,
}
use pbflags.Flag.{FlagValue}
use pbflags.Conditions.{StoredCondition}
use pbflags.CondCache.{CachedDimMeta}
use pbflags.ConfigFile.{Floats}
use pbflags.ConfigFile.Entries.{Config, FlagEntry, LaunchEntry, Parsed, parsed, failed, parse}
use pbflags.Database.{
  Db, FlagRow, FeatureRow, LaunchRow, Error, Result, ok, err, Session, Tx, ValueCodec, ◌>>=◌, pure,
  raise, exec, lift, continue,
}
use pbflags.Database.Ends.{After, Ends, Ends-bind, Ends-exec, Ends-lift, Ends-pure}
use pbflags.Sync.Compile.{CompiledFlag, compile_flag}
use pbflags.Sync.Launches.{LaunchDef, affected_features}
use pbflags.Sync.Tables.{
  FlagInfo, FeatureIndex, flags_of, info_id, Columns, write_launches, write_cross_launches,
  clear_stale, update_shas,
}
use pbflags.Sync.Conditions.{
  types_of, Descriptors, Source, Configs, ConditionResult, SyncWarning, peek_feature,
  parsed_or_error, from_result, read_configs, columns_of, write_flags, write_configs,
}
use pbflags.Sync.Conditions.Written.{
  StoredAs, Written, Written-none, Written-next, Written-append, writes_of, all_writes,
}
use pbflags.Sync.Conditions.Stale.{Cleared, Cleared-none, Cleared-skip, Cleared-next}
use pbflags.Sync.Conditions.Steered.{Steered, Steered-none, Steered-next, Steered-append}

-- A step that neither reads nor changes the tables: it has one answer, or one error.
abbrev pub Answers : {A : Type 0} → Tx A → A → Type 0
Answers m a = (s : Session) → m s ≡ ok (a, s)

abbrev pub IsReading : {A : Type 0} → Tx A → Type 0
IsReading {A} m = ((a : A) × Answers m a) ⊎ ((e : Error) × ((s : Session) → m s ≡ err e))

module _ {A B : Type 0} where
  IsReading-bind :
      (m : Tx A) (f : A → Tx B) → IsReading m → ((a : A) → IsReading (f a)) → IsReading (m >>= f)
  unfolding ◌>>=◌
  IsReading-bind m f (inr (e, is)) g = inr (e, λ s. rw (is s) refl)
  IsReading-bind m f (inl (a, is)) g = elim (g a) [
    | inl (b, then_is) ↦ inl (b, λ s. rw (is s) (then_is s))
    | inr (e, fails) ↦ inr (e, λ s. rw (is s) (fails s))
  ]

module _ {A : Type 0} where
  IsReading-lift : (e : Error) (o : Option A) → IsReading (lift e o)
  unfolding lift
  IsReading-lift e none = inr (e, λ s. refl)
  IsReading-lift e (some a) = inl (a, λ s. refl)

  Ends-reading :
      (m : Tx A) (Q : A → Db → Type 0) (db : Db)
      → IsReading m
      → ((a : A) → Answers m a → Q a db)
      → Ends m Q db
  Ends-reading m Q db (inl (a, is)) h = record {
    after = λ faults. rw (is (record { db = db; faults = faults })) (h a is);
  }
  Ends-reading m Q db (inr (e, is)) h = record {
    after = λ faults. rw (is (record { db = db; faults = faults })) tt;
  }

  Ends-if :
      (b : Bool) (m n : Tx A) (Q : A → Db → Type 0) (db : Db)
      → (b ≡ true → Ends m Q db)
      → (b ≡ false → Ends n Q db)
      → Ends (if b then m else n) Q db
  Ends-if true m n Q db h k = h refl
  Ends-if false m n Q db h k = k refl

  Ends-from_result :
      (r : Result A) (Q : A → Db → Type 0) (db : Db)
      → ((a : A) → r ≡ ok a → Q a db)
      → Ends (from_result r) Q db
  unfolding from_result pure raise
  Ends-from_result (ok a) Q db h = record { after = λ faults. h a refl }
  Ends-from_result (err e) Q db h = record { after = λ faults. tt }

peek_feature-IsReading : (o : Option Str) → IsReading (peek_feature o)
unfolding peek_feature pure raise
peek_feature-IsReading none = inr (Error.config_error, λ s. refl)
peek_feature-IsReading (some f) = elim (Bool-cases (is_empty f)) [
  | inl empty ↦ inr (Error.config_error, λ s. rw empty refl)
  | inr there ↦ inl (f, λ s. rw there refl)
]

parsed_or_error-IsReading : (p : Parsed) → IsReading (parsed_or_error p)
unfolding parsed_or_error pure raise
parsed_or_error-IsReading (failed errs) = inr (Error.config_error, λ s. refl)
parsed_or_error-IsReading (parsed cfg warns) = inl ((cfg, warns), λ s. refl)

pub read_configs-IsReading :
    (floats : Floats) (idx : FeatureIndex) (sources : List Source) (read : Configs)
    → IsReading (read_configs floats idx sources read)
unfolding read_configs
read_configs-IsReading floats idx [] read = inl (read, λ s. unfold pure in refl)
read_configs-IsReading floats idx (source ∷ sources) read =
    IsReading-bind _ _ (peek_feature-IsReading source.peeked) (λ feature_id.
      IsReading-bind _ _ (IsReading-lift Error.feature_not_in_proto (lookup feature_id idx))
        (λ infos. IsReading-bind _ _ (IsReading-lift Error.config_error source.decoded) (λ raw.
          IsReading-bind _ _ (parsed_or_error-IsReading (parse floats (types_of infos) raw))
            (λ found. read_configs-IsReading floats idx sources _))))

length-empty : {A : Type 0} (xs : List A) → is_empty xs ≡ true → 0 ≡ length xs
length-empty [] h = refl
length-empty (x ∷ xs) h = absurd (ground (arith, h))

-- The launches across features, as the sync writes them.
unfoldable pub cross_of : Assoc LaunchDef → Assoc LaunchEntry
cross_of [] = []
cross_of ((id, def) ∷ defined) =
    let rest = cross_of defined in
    if is_some def.scope_feature_id then rest else (id, def.entry) ∷ rest

-- The launches of all features.
unfoldable pub launches_of : Assoc Config → Assoc LaunchEntry
launches_of [] = []
launches_of ((feature_id, cfg) ∷ configs) = cfg.launches ++ launches_of configs

module _ (now : ℕ) (refs : Assoc (List Str)) where
  Ends-write_launches :
      (feature_id : Str) (launches : Assoc LaunchEntry) (Q : Unit → Db → Type 0) (db : Db)
      → ((rows : List LaunchRow)
          → Steered launches db.launches rows
          → Q tt (record db { launches = rows }))
      → Ends (write_launches now feature_id refs launches) Q db
  unfolding write_launches
  Ends-write_launches feature_id [] Q db h = record {
    after = (Ends-pure tt {Q = Q} {db = db} (h db.launches (Steered-none db.launches))).after;
  }
  Ends-write_launches feature_id ((id, entry) ∷ launches) Q db h = record {
    after =
        (Ends-bind {Q = Q} (
          Ends-exec _ _ db (
            Ends-write_launches feature_id launches Q _ (λ rows u. h rows (
              Steered-next now id (some feature_id) entry (affected_features id refs) launches
                db.launches rows u))))).after;
  }

  pub Ends-write_cross :
      (defined : Assoc LaunchDef) (Q : Unit → Db → Type 0) (db : Db)
      → ((rows : List LaunchRow)
          → Steered (cross_of defined) db.launches rows
          → Q tt (record db { launches = rows }))
      → Ends (write_cross_launches now refs defined) Q db
  unfolding write_cross_launches cross_of
  Ends-write_cross [] Q db h = record {
    after = (Ends-pure tt {Q = Q} {db = db} (h db.launches (Steered-none db.launches))).after;
  }
  Ends-write_cross ((id, def) ∷ defined) Q db h = record {
    after =
        (Ends-if (is_some def.scope_feature_id) _ _ Q db
          (λ scoped. Ends-write_cross defined Q db (λ rows u. h rows (rw scoped u)))
          (λ cross. Ends-bind {Q = Q} (
            Ends-exec _ _ db (
              Ends-write_cross defined Q _ (λ rows u. h rows (
                rw cross (
                  Steered-next now id none def.entry (affected_features id refs) (cross_of defined)
                    db.launches rows u))))))).after;
  }

pub Ends-clear_stale :
    (idx : FeatureIndex) (configs : Assoc Config) (Q : Unit → Db → Type 0) (db : Db)
    → ((rows : List FlagRow)
        → Cleared idx configs db.flags rows
        → Q tt (record db { flags = rows }))
    → Ends (clear_stale idx configs) Q db
unfolding clear_stale
Ends-clear_stale [] configs Q db h = record {
  after = (Ends-pure tt {Q = Q} {db = db} (h db.flags (Cleared-none configs db.flags))).after;
}
Ends-clear_stale ((g, infos) ∷ idx) configs Q db h = record {
  after =
      (Ends-if (is_some (lookup g configs)) _ _ Q db
        (λ filed.
          Ends-clear_stale idx configs Q db
            (λ rows u. h rows (Cleared-skip g infos idx configs db.flags rows filed u)))
        (λ unfiled. Ends-bind {Q = Q} (
          Ends-exec _ _ db (
            Ends-clear_stale idx configs Q _ (λ rows u.
              h rows (Cleared-next g infos idx configs db.flags rows unfiled u)))))).after;
}

pub Ends-update_shas :
    (sha : Str) (configs : Assoc Config) (Q : Unit → Db → Type 0) (db : Db)
    → ((rows : List FeatureRow) → Q tt (record db { features = rows }))
    → Ends (update_shas sha configs) Q db
unfolding update_shas
Ends-update_shas sha [] Q db h = record {
  after = (Ends-pure tt {Q = Q} {db = db} (h db.features)).after;
}
Ends-update_shas sha ((id, cfg) ∷ configs) Q db h = record {
  after = (Ends-bind {Q = Q} (Ends-exec _ _ db (Ends-update_shas sha configs Q _ h))).after;
}

module _ (codec : ValueCodec) (marshal_conditions : List StoredCondition → Option Str)
    (marshal_dims : CachedDimMeta → Option Str) (equal : Option FlagValue → Option FlagValue → Bool)
    (cel_version : Str) (desc : Descriptors) where
  Ends-columns :
      (entry : FlagEntry) (out : CompiledFlag) (Q : Columns → Db → Type 0) (db : Db)
      → compile_flag codec.marshal desc.compile equal desc.bounded entry ≡ ok out
      → ((cols : Columns)
          → StoredAs codec marshal_conditions marshal_dims equal cel_version desc entry cols
          → Q cols db)
      → Ends (columns_of codec marshal_conditions marshal_dims equal cel_version desc out) Q db
  unfolding columns_of
  Ends-columns entry out Q db made h = record {
    after =
        (Ends-if (is_empty out.conditions) _ _ Q db
          (λ empty. Ends-pure _ (
            h _ (record {
              out = out;
              compiled = made;
              stored = λ there. absurd (ground (arith, empty, there));
              dims = λ there. absurd (ground (arith, empty, there));
              version = rw empty refl;
              bare = λ _. (refl, refl);
              counted = length-empty out.conditions empty;
            })))
          (λ there. Ends-bind (
            Ends-lift Error.marshal_error (marshal_conditions out.conditions) (λ bytes encoded.
              Ends-bind (
                Ends-if (is_empty out.dim_meta) _ _ _ db
                  (λ none_there. Ends-pure [] (
                    Ends-pure _ (
                      h _ (record {
                        out = out;
                        compiled = made;
                        stored = λ _. encoded;
                        dims = λ _. rw none_there refl;
                        version = rw there refl;
                        bare = λ empty. absurd (ground (arith, empty, there));
                        counted = refl;
                      }))))
                  (λ some_there.
                    Ends-lift Error.marshal_error (marshal_dims out.dim_meta) (λ dims encoded_dims.
                      Ends-pure _ (
                        h _ (record {
                          out = out;
                          compiled = made;
                          stored = λ _. encoded;
                          dims = λ _. rw some_there encoded_dims;
                          version = rw there refl;
                          bare = λ empty. absurd (ground (arith, empty, there));
                          counted = refl;
                        }))))))))).after;
  }

  Ends-write_flags :
      (infos : Assoc FlagInfo) (flags : Assoc FlagEntry) (result : ConditionResult)
      (Q : ConditionResult → Db → Type 0) (db : Db)
      → ((res : ConditionResult) (rows : List FlagRow)
          → Written codec marshal_conditions marshal_dims equal cel_version desc
              (writes_of infos flags)
              db.flags
              rows
          → Q res (record db { flags = rows }))
      → Ends
          (write_flags codec marshal_conditions marshal_dims equal cel_version desc infos flags
            result)
          Q
          db
  unfolding write_flags writes_of
  Ends-write_flags infos [] result Q db h = record {
    after =
        (Ends-pure result {Q = Q} {db = db} (
          h result db.flags (
            Written-none codec marshal_conditions marshal_dims equal cel_version desc
              db.flags))).after;
  }
  Ends-write_flags infos ((name, entry) ∷ flags) result Q db h = record {
    after =
        (Ends-bind {Q = Q} (
          Ends-from_result _ _ db (λ out made. Ends-bind (
            Ends-columns entry out _ db made (λ cols st. Ends-bind (
              Ends-exec _ _ db (
                Ends-write_flags infos flags _ Q _ (λ res rows u. h res rows (
                  Written-next codec marshal_conditions marshal_dims equal cel_version desc
                    (info_id (lookup name infos)) entry cols (writes_of infos flags) db.flags rows
                    st u))))))))).after;
  }

  pub Ends-write_configs :
      (now : ℕ) (idx : FeatureIndex) (refs : Assoc (List Str)) (configs : Assoc Config)
      (result : ConditionResult) (Q : ConditionResult → Db → Type 0) (db : Db)
      → ((res : ConditionResult) (rows : List FlagRow) (ls : List LaunchRow)
          → Written codec marshal_conditions marshal_dims equal cel_version desc
              (all_writes idx configs)
              db.flags
              rows
          → Steered (launches_of configs) db.launches ls
          → Q res (record db { flags = rows; launches = ls }))
      → Ends
          (write_configs codec marshal_conditions marshal_dims equal cel_version desc now idx refs
            configs result)
          Q
          db
  unfolding write_configs all_writes launches_of
  Ends-write_configs now idx refs [] result Q db h = record {
    after =
        (Ends-pure result {Q = Q} {db = db} (
          h result db.flags db.launches
            (Written-none codec marshal_conditions marshal_dims equal cel_version desc db.flags)
            (Steered-none db.launches))).after;
  }
  Ends-write_configs now idx refs ((feature_id, cfg) ∷ configs) result Q db h = record {
    after =
        (Ends-bind {Q = Q} (
          Ends-write_flags (flags_of (lookup feature_id idx)) cfg.flags result _ db (λ res mid u.
            Ends-bind (
              Ends-write_launches now refs feature_id cfg.launches _ _ (λ ls v.
                Ends-write_configs now idx refs configs res Q _ (λ res' rows ls' u' v'.
                  h res' rows ls'
                    (Written-append codec marshal_conditions marshal_dims equal cel_version desc
                      (writes_of (flags_of (lookup feature_id idx)) cfg.flags)
                      (all_writes idx configs) db.flags mid rows u u')
                    (Steered-append cfg.launches (launches_of configs) db.launches ls ls' v
                      v'))))))).after;
  }

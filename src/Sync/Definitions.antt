-- ===== src/Sync/Definitions.antt =====
-- internal/sync/sync.go: the definitions of flags, from the descriptors into the tables.
pub mod Kept
use pbflags.Common.{
  ℕ, Bool, true, false, not, Option, none, some, List, [], ◌∷◌, Str, codes, ◌=s◌, contains, length,
  if◌then◌else◌, is_some, Assoc, lookup, put,
}
use pbflags.Flag.{
  FlagValue, FlagType, type_unspecified, type_bool, type_string, type_int64, type_double,
  type_bool_list, type_string_list, type_int64_list, type_double_list,
}
use pbflags.Database.{
  Db, FlagRow, FeatureRow, LockInfo, Error, Result, ok, err, Tx, Session, ValueCodec, ◌>>=◌, ◌>>◌,
  pure, raise, query, exec, lift, transaction, update_flag,
}
use pbflags.SyncLock.{check_lock, marshal_optional}
use pbflags.SyncClear.{clear_overrides_for_flags_tx}

-- FlagDef of internal/evaluator/descriptor.go. The message of supported values is given by what
-- proto.Marshal answers for it.
pub record FlagDef : Type 0 where
  pub flag_id : Str
  pub feature_id : Str
  pub field_num : ℕ
  pub name : Str
  pub flag_type : FlagType
  pub layer : Str
  pub default : Option FlagValue
  pub supported_values : Option (Option Str)
  pub feature_display_name : Str
  pub feature_description : Str
  pub feature_owner : Str

-- FlagTypeString
unfoldable pub flag_type_string : FlagType → Str
flag_type_string type_unspecified = codes "UNSPECIFIED"
flag_type_string type_bool = codes "BOOL"
flag_type_string type_string = codes "STRING"
flag_type_string type_int64 = codes "INT64"
flag_type_string type_double = codes "DOUBLE"
flag_type_string type_bool_list = codes "BOOL_LIST"
flag_type_string type_string_list = codes "STRING_LIST"
flag_type_string type_int64_list = codes "INT64_LIST"
flag_type_string type_double_list = codes "DOUBLE_LIST"

-- featureInfo
pub record FeatureInfo : Type 0 where
  pub display_name : Str
  pub description : Str
  pub owner : Str

abbrev pub info_of : FlagDef → FeatureInfo
info_of d = record {
  display_name = d.feature_display_name;
  description = d.feature_description;
  owner = d.feature_owner;
}

-- The features of the definitions, each with the texts of its first one.
unfoldable pub features_of : List FlagDef → Assoc FeatureInfo → Assoc FeatureInfo
features_of [] features = features
features_of (d ∷ defs) features = features_of defs (
    if is_some (lookup d.feature_id features)
    then features
    else put d.feature_id (info_of d) features)

-- INSERT of a feature with ON CONFLICT DO UPDATE.
unfoldable pub upsert_feature : Str → FeatureInfo → List FeatureRow → List FeatureRow
upsert_feature id fi [] =
    record {
      feature_id = id;
      display_name = fi.display_name;
      description = fi.description;
      owner = fi.owner;
      sync_sha = none;
    }
    ∷ []
upsert_feature id fi (row ∷ rows) =
    let rest = upsert_feature id fi rows in
    if row.feature_id =s id
    then record row {
      display_name = fi.display_name;
      description = fi.description;
      owner = fi.owner;
    }
      ∷ rows
    else row ∷ rest

unfoldable pub upsert_features : Assoc FeatureInfo → Tx Unit
upsert_features [] s = pure tt s
upsert_features ((id, fi) ∷ features) s =
    (do
      exec (λ db. record db { features = upsert_feature id fi db.features })
      upsert_features features)
      s

abbrev pub bytes_or_null : Option Str → Str
bytes_or_null none = []
bytes_or_null (some bytes) = bytes

-- The row that a definition inserts.
abbrev pub new_row : FlagDef → Option Str → Option Str → FlagRow
new_row d default_bytes supported_bytes = record {
  flag_id = d.flag_id;
  feature_id = d.feature_id;
  field_number = d.field_num;
  display_name = d.name;
  flag_type = flag_type_string d.flag_type;
  description = [];
  default_value = bytes_or_null default_bytes;
  supported_values = bytes_or_null supported_bytes;
  killed_at = none;
  archived_at = none;
  conditions = [];
  dimension_metadata = [];
  cel_version = none;
  condition_count = 0;
}

-- What ON CONFLICT DO UPDATE leaves of a row that is there.
abbrev pub redefined : FlagRow → FlagRow → FlagRow
redefined new row = record row {
  display_name = new.display_name;
  flag_type = new.flag_type;
  description = new.description;
  default_value = new.default_value;
  supported_values = new.supported_values;
  archived_at = none;
}

unfoldable pub upsert_flag : FlagRow → List FlagRow → List FlagRow
upsert_flag new [] = new ∷ []
upsert_flag new (row ∷ rows) =
    let rest = upsert_flag new rows in
    if row.flag_id =s new.flag_id then redefined new row ∷ rows else row ∷ rest

unfoldable pub marshal_supported : Option (Option Str) → Tx (Option Str)
marshal_supported none s = pure none s
marshal_supported (some o) s = (do bytes ← lift Error.marshal_error o; pure (some bytes)) s

-- The active flags of the features that are not defined any more.
unfoldable pub to_archive : Assoc FeatureInfo → List Str → List FlagRow → List Str
to_archive features defined [] = []
to_archive features defined (row ∷ rows) =
    let rest = to_archive features defined rows in
    if is_some (lookup row.feature_id features)
    then if is_some row.archived_at
      then rest
      else if contains defined row.flag_id
      then rest
      else row.flag_id ∷ rest
    else rest

abbrev pub archive : ℕ → FlagRow → FlagRow
archive now row = record row { archived_at = some now }

-- The loop that archives flags.
unfoldable pub archive_flags : ℕ → List Str → Tx Unit
archive_flags now [] s = pure tt s
archive_flags now (id ∷ ids) s =
    (do
      exec (λ db. record db { flags = update_flag id (archive now) db.flags })
      archive_flags now ids)
      s

unfoldable pub flag_ids : List FlagDef → List Str
flag_ids [] = []
flag_ids (d ∷ defs) = d.flag_id ∷ flag_ids defs

-- Result
pub record SyncResult : Type 0 where
  pub features : ℕ
  pub flags_upserted : ℕ
  pub flags_archived : ℕ

abbrev pub answer_of : {A : Type 0} → Result (A × Session) → Result A
answer_of (ok (a, s)) = ok a
answer_of (err e) = err e

module _ (codec : ValueCodec) where
  -- The loop that upserts flags.
  unfoldable pub upsert_flags : List FlagDef → Tx Unit
  upsert_flags [] s = pure tt s
  upsert_flags (d ∷ defs) s =
      (do
        default_bytes ← marshal_optional codec d.default
        supported_bytes ← marshal_supported d.supported_values
        exec (λ db. record db {
          flags = upsert_flag (new_row d default_bytes supported_bytes) db.flags;
        })
        upsert_flags defs)
        s

  unfoldable pub sync_in_tx : ℕ → List FlagDef → Tx SyncResult
  sync_in_tx now defs = do
    upsert_features (features_of defs [])
    upsert_flags defs
    stale ← query (λ db. to_archive (features_of defs []) (flag_ids defs) db.flags)
    archive_flags now stale
    pure (record {
      features = length (features_of defs []);
      flags_upserted = length defs;
      flags_archived = length stale;
    })

  unfoldable pub sync_unlocked : ℕ → List FlagDef → Tx SyncResult
  sync_unlocked now defs = do
    result ← sync_in_tx now defs
    _ ← clear_overrides_for_flags_tx codec (codes "definitions") (flag_ids defs)
    pure result

  unfoldable pub sync_gated :
      ℕ → List FlagDef → List Bool → Db → Result (Option LockInfo) → Result SyncResult × Db
  sync_gated now defs faults db (err e) = (err e, db)
  sync_gated now defs faults db (ok (some held)) = (err (Error.lock_held held), db)
  sync_gated now defs faults db (ok none) = transaction (sync_unlocked now defs) faults db

  -- SyncDefinitions: the lock is read before the transaction begins.
  unfoldable pub sync_definitions :
      ℕ → List FlagDef → List Bool → List Bool → Db → Result SyncResult × Db
  sync_definitions now defs lock_faults faults db =
      sync_gated now defs faults db
        (answer_of (check_lock (record { db = db; faults = lock_faults })))

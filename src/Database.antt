-- ===== src/Database.antt =====
-- The tables of db/migrations that the evaluator, the admin service and sync share, as far as they
-- use them, and transactions over them (pgx, as internal/admin/overrides.go and internal/sync/
-- lock.go use it). A transaction that ends in an error leaves the tables as they were. Each
-- statement may fail: `faults` says which ones do, in their order.
pub mod Ends
pub mod Rows
use pbflags.Flag.{FlagValue}
use pbflags.Common.{
  ℕ, Bool, true, false, Option, none, some, List, [], ◌∷◌, Str, ℤ, eqb_ℤ, ◌=s◌, ◌&&◌, if◌then◌else◌,
}

-- A row of feature_flags.features; no sync_sha is the null column.
pub record FeatureRow : Type 0 where
  pub feature_id : Str
  pub display_name : Str
  pub description : Str
  pub owner : Str
  pub sync_sha : Option Str

-- A row of feature_flags.flags. A null column of bytes is empty.
pub record FlagRow : Type 0 where
  pub flag_id : Str
  pub feature_id : Str
  pub field_number : ℕ
  pub display_name : Str
  pub flag_type : Str
  pub description : Str
  pub default_value : Str
  pub supported_values : Str
  pub killed_at : Option ℕ
  pub archived_at : Option ℕ
  pub conditions : Str
  pub dimension_metadata : Str
  pub cel_version : Option Str
  pub condition_count : ℕ

-- A row of feature_flags.condition_overrides; no index is the static default.
pub record OverrideRow : Type 0 where
  pub flag_id : Str
  pub condition_index : Option ℤ
  pub override_value : Str
  pub source : Str
  pub actor : Str
  pub reason : Str
  pub created_at : ℕ

-- A row of feature_flags.launches; no scope is a launch across features.
pub record LaunchRow : Type 0 where
  pub launch_id : Str
  pub scope_feature_id : Option Str
  pub dimension : Str
  pub ramp_percentage : ℤ
  pub ramp_source : Str
  pub status : Str
  pub killed_at : Option ℕ
  pub affected_features : List Str
  pub description : Str
  pub created_at : ℕ
  pub ramp_steps : List ℤ

-- The row of feature_flags.sync_lock: LockInfo and SyncLockInfo.
pub record LockInfo : Type 0 where
  pub actor : Str
  pub reason : Str
  pub created_at : ℕ

pub record AuditRow : Type 0 where
  pub flag_id : Str
  pub action : Str
  pub old_value : Option Str
  pub new_value : Option Str
  pub actor : Str

pub record Db : Type 0 where
  pub features : List FeatureRow
  pub flags : List FlagRow
  pub overrides : List OverrideRow
  pub launches : List LaunchRow
  pub sync_lock : Option LockInfo
  pub context_descriptor : Option Str
  -- The latest entry first.
  pub audit : List AuditRow

pub data Error : Type 0 where
  invalid_argument flag_not_found override_not_found sync_not_locked : Error
  launch_not_found launch_already_killed launch_not_killed ramp_out_of_range : Error
  lock_held : LockInfo → Error
  contention marshal_error db_error : Error
  compile_error : ℕ → Error
  launch_defined_twice launch_undefined launch_out_of_scope launch_file_error : Error
  dimension_not_uniform dimension_not_in_scope : Error
  descriptor_error config_error feature_not_in_proto : Error

pub data Result (A : Type 0) : Type 0 where
  ok : A → Result A
  err : Error → Result A

pub record Session : Type 0 where
  pub db : Db
  pub faults : List Bool

abbrev pub Tx : Type 0 → Type 0
Tx A = Session → Result (A × Session)

module _ {A B : Type 0} where
  abbrev pub continue : (A → Tx B) → Result (A × Session) → Result (B × Session)
  continue f (ok (a, s)) = f a s
  continue f (err e) = err e

  infixl 10 ◌>>=◌
  unfoldable pub ◌>>=◌ : Tx A → (A → Tx B) → Tx B
  (m >>= f) s = continue f (m s)

  infixl 10 ◌>>◌
  abbrev pub ◌>>◌ : Tx A → Tx B → Tx B
  m >> n = m >>= λ _. n

unfoldable pub pure : {A : Type 0} → A → Tx A
pure a s = ok (a, s)

unfoldable pub raise : {A : Type 0} → Error → Tx A
raise e s = err e

-- One statement: it fails where the faults say so.
runs : {A : Type 0} → List Bool → (List Bool → A × Session) → Result (A × Session)
runs [] f = ok (f [])
runs (fault ∷ faults) f = if fault then err db_error else ok (f faults)

-- A query, and a statement that changes the tables.
unfoldable pub query : {A : Type 0} → (Db → A) → Tx A
unfolding runs
query g s = runs s.faults (λ faults. (g s.db, record s { faults = faults }))

unfoldable pub exec : (Db → Db) → Tx Unit
unfolding runs
exec u s = runs s.faults (λ faults. (tt, record { db = u s.db; faults = faults }))

-- A statement that changes the tables and returns rows.
unfoldable pub returning : {A : Type 0} → (Db → A × Db) → Tx A
unfolding runs
returning f s = runs s.faults (λ faults. ((f s.db).0, record { db = (f s.db).1; faults = faults }))

unfoldable pub lift : {A : Type 0} → Error → Option A → Tx A
lift e none s = err e
lift e (some a) s = ok (a, s)

-- Begin and Commit.
unfoldable pub statement : Tx Unit
statement s = query (λ db. tt) s

finished : {A : Type 0} → Db → Result (A × Session) → Result A × Db
finished db (ok (a, s)) = (ok a, s.db)
finished db (err e) = (err e, db)

unfoldable pub committed : {A : Type 0} → Tx A → Tx A
committed m = do statement; a ← m; statement; pure a

-- Begin, the statements, Commit, and Rollback on any error.
unfoldable pub transaction : {A : Type 0} → Tx A → List Bool → Db → Result A × Db
unfolding finished
transaction m faults db = finished db (committed m (record { db = db; faults = faults }))

-- A statement that a CHECK constraint of the table refuses.
unfoldable pub exec_checked : Bool → (Db → Db) → Tx Unit
exec_checked true u s = exec u s
exec_checked false u s = raise Error.db_error s

-- SELECT and UPDATE of the row of a flag or a launch.
unfoldable pub find_flag : Str → List FlagRow → Option FlagRow
find_flag flag_id [] = none
find_flag flag_id (row ∷ rows) = if row.flag_id =s flag_id then some row else find_flag flag_id rows

unfoldable pub find_launch : Str → List LaunchRow → Option LaunchRow
find_launch launch_id [] = none
find_launch launch_id (row ∷ rows) =
    if row.launch_id =s launch_id then some row else find_launch launch_id rows

unfoldable pub update_flag : Str → (FlagRow → FlagRow) → List FlagRow → List FlagRow
update_flag flag_id u [] = []
update_flag flag_id u (row ∷ rows) =
    (if row.flag_id =s flag_id then u row else row) ∷ update_flag flag_id u rows

unfoldable pub update_launch : Str → (LaunchRow → LaunchRow) → List LaunchRow → List LaunchRow
update_launch launch_id u [] = []
update_launch launch_id u (row ∷ rows) =
    (if row.launch_id =s launch_id then u row else row) ∷ update_launch launch_id u rows

-- The position of an override: the flag, and the index or the static default.
abbrev pub same_index : Option ℤ → Option ℤ → Bool
same_index none none = true
same_index (some i) (some j) = eqb_ℤ i j
same_index none (some j) = false
same_index (some i) none = false

unfoldable pub at_position : Str → Option ℤ → OverrideRow → Bool
at_position flag_id idx row = row.flag_id =s flag_id && same_index row.condition_index idx

unfoldable pub find_override : Str → Option ℤ → List OverrideRow → Option OverrideRow
unfolding at_position
find_override flag_id idx [] = none
find_override flag_id idx (row ∷ rows) =
    if at_position flag_id idx row then some row else find_override flag_id idx rows

-- INSERT with ON CONFLICT on the position DO UPDATE.
unfoldable pub upsert : OverrideRow → List OverrideRow → List OverrideRow
unfolding at_position
upsert new [] = new ∷ []
upsert new (row ∷ rows) =
    let rest = upsert new rows in
    if at_position new.flag_id new.condition_index row then new ∷ rows else row ∷ rest

-- DELETE of the rows that `p` picks.
unfoldable pub delete : (OverrideRow → Bool) → List OverrideRow → List OverrideRow
delete p [] = []
delete p (row ∷ rows) = let rest = delete p rows in if p row then rest else row ∷ rest

unfoldable pub picked : (OverrideRow → Bool) → List OverrideRow → List OverrideRow
picked p [] = []
picked p (row ∷ rows) = let rest = picked p rows in if p row then row ∷ rest else rest

-- The stored bytes of values: proto.Marshal, and unmarshalFlagValue for bytes that are not empty.
pub record ValueCodec : Type 0 where
  pub marshal : FlagValue → Option Str
  pub unmarshal : Str → Option FlagValue

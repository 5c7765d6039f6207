-- ===== src/Tests/Admin.antt =====
-- The sync lock and live overrides at work.
use pbflags.Common.{
  ◌=s◌, ◌≡◌, refl, true, false, none, some, [], ◌∷◌, pos, codes, Str, Option, arith,
}
use pbflags.Common.Decimal.{decimal}
use pbflags.Flag.{FlagValue}
use pbflags.Health.{new_health_tracker}
use pbflags.Conditions.{Codec}
use pbflags.CacheStore.{is_killed}
use pbflags.Resolution.{is_killed_state}
use pbflags.Database.{
  transaction, committed, ◌>>=◌, query, exec, lift, pure, raise, statement, upsert, at_position, Db,
  FlagRow, OverrideRow, ValueCodec, find_override, find_flag,
}
use pbflags.Database.Ends.{Ends, Atomic}
use pbflags.Database.Rows.{count_at, IsUnique}
use pbflags.SyncLock.{insert_audit_entry, marshal_optional, acquire_sync_lock, release_sync_lock}
use pbflags.SyncLock.Held.{
  Acquired, Released, acquire_sync_lock-Acquired, release_sync_lock-Released,
}
use pbflags.AdminOverrides.{
  set_marshalled, set_override, read_override_value, read_row, unmarshal_flag_value, valid_source,
  set_condition_override, clear_condition_override,
}
use pbflags.AdminOverrides.Effects.{
  Set, Cleared, set_condition_override-Set, clear_condition_override-Cleared, row_of,
}
use pbflags.SyncClear.{clear_overrides_for_flags_tx}
use pbflags.SyncClear.Effects.{AutoCleared, clear_overrides_for_flags_tx-AutoCleared}
use pbflags.DbFetcher.{
  killed_ids, put_override, load_value, override_rows, Faults, fetch_condition_overrides,
  load_overrides, fetch_flag_state, get_killed_flags, flag_state,
}
use pbflags.DbFetcher.Loading.{
  value_at, decoded, decodable, load_overrides-decodable, fetch_condition_overrides-value_at,
}
use pbflags.DbFetcher.RoundTrip.{set_condition_override-fetched}
use pbflags.DbFetcher.Killed.{count_flag, HasKeys, fetch_flag_state-killed}
use pbflags.AdminLife.{Reach, here, next, acquire, set_override as set_step}
use pbflags.AdminLife.Balance.{IsBalanced, logged, Reach-IsBalanced}
use pbflags.Tests.{flag}

-- A value codec for texts: the bytes are a tag and the text.
abbrev encode : FlagValue → Option Str
encode (FlagValue.string_value s) = some (1 ∷ s)
encode _ = some []

abbrev decode : Str → Option FlagValue
decode [] = none
decode (b ∷ s) = some (FlagValue.string_value s)

abbrev pub texts : ValueCodec
texts = record { marshal = encode; unmarshal = decode }

abbrev pub flag_row : FlagRow
flag_row = record {
  flag_id = flag;
  feature_id = codes "checkout";
  field_number = 1;
  display_name = flag;
  flag_type = codes "BOOL";
  description = [];
  default_value = [];
  supported_values = [];
  killed_at = some 5;
  archived_at = none;
  conditions = [];
  dimension_metadata = [];
  cel_version = none;
  condition_count = 0;
}

abbrev pub db : Db
db = record {
  features = [];
  flags = flag_row ∷ [];
  overrides = [];
  launches = [];
  sync_lock = none;
  context_descriptor = none;
  audit = [];
}

abbrev on : FlagValue
on = FlagValue.string_value (codes "on")

abbrev row : OverrideRow
row = row_of texts flag (some (pos 0)) (codes "cli") (codes "ann") (codes "test") 7 (1 ∷ codes "on")

abbrev overridden : Db
overridden = record db { overrides = row ∷ [] }

acquire_sync_lock-Acquired_example :
    Atomic
      (Acquired texts (codes "ann") (codes "incident") 3 db)
      db
      (acquire_sync_lock texts (codes "ann") (codes "incident") 3 [] db)
acquire_sync_lock-Acquired_example =
    acquire_sync_lock-Acquired texts (codes "ann") (codes "incident") 3 [] db

abbrev held : Db
held = record db {
  sync_lock = some (record { actor = codes "ann"; reason = codes "incident"; created_at = 3 });
}

release_sync_lock-Released_example :
    Atomic
      (λ _. Released texts (codes "bob") held)
      held
      (release_sync_lock texts decimal (codes "bob") (codes "over") 9 [] held)
release_sync_lock-Released_example =
    release_sync_lock-Released texts decimal (codes "bob") (codes "over") 9 [] held

set_condition_override-Set_example :
    Atomic (Set texts flag (some (pos 0)) (codes "cli") (codes "ann") (codes "test") 7 on db) db (
      set_condition_override texts flag
        (some (pos 0))
        (some on)
        (codes "cli")
        (codes "ann")
        (codes "test")
        7
        []
        db)
set_condition_override-Set_example =
    set_condition_override-Set texts flag (some (pos 0)) (codes "cli") (codes "ann") (codes "test")
      7 on [] db

clear_condition_override-Cleared_example :
    Atomic
      (λ _.
        Cleared texts flag (some (pos 0)) (codes "cli") (codes "ann") (codes "test") 7 overridden)
      overridden
      (clear_condition_override texts flag
        (some (pos 0))
        (codes "ann")
        (codes "test")
        []
        overridden)
clear_condition_override-Cleared_example =
    clear_condition_override-Cleared texts flag (some (pos 0)) (codes "cli") (codes "ann")
      (codes "test") 7 [] overridden

clear_overrides_for_flags_tx-AutoCleared_example :
    Ends
      (clear_overrides_for_flags_tx texts (codes "checkout") (flag ∷ []))
      (AutoCleared texts (codes "checkout") (flag ∷ []) overridden)
      overridden
clear_overrides_for_flags_tx-AutoCleared_example =
    clear_overrides_for_flags_tx-AutoCleared texts (codes "checkout") (flag ∷ []) overridden

abbrev pub fine : Faults
fine = record {
  flag_query = false;
  launch_query = false;
  override_query = false;
  killed_query = false;
}

overridden-IsUnique : IsUnique overridden.overrides
overridden-IsUnique f i = unfold count_at in ground arith

fetch_condition_overrides-value_at_example :
    value_at (some (pos 0)) ((pos 0, some on) ∷ [], none)
    ≡ decoded decode (find_override flag (some (pos 0)) overridden.overrides)
unfolding fetch_condition_overrides load_overrides override_rows ◌=s◌ load_value put_override
fetch_condition_overrides-value_at_example =
    fetch_condition_overrides-value_at decode fine overridden flag (some (pos 0))
      ((pos 0, some on) ∷ [], none) overridden-IsUnique refl

load_overrides-decodable_example :
    load_overrides decode (record row { override_value = [] } ∷ row ∷ []) ([], none)
    ≡ load_overrides decode
        (decodable decode (record row { override_value = [] } ∷ row ∷ []))
        ([], none)
load_overrides-decodable_example =
    load_overrides-decodable decode (record row { override_value = [] } ∷ row ∷ []) ([], none)

texts-round_trip : (bytes : Str) → encode on ≡ some bytes → decode bytes ≡ some on
texts-round_trip bytes h = let e : bytes ≡ 1 ∷ codes "on" = ground arith in rw e refl

db-IsUnique : IsUnique db.overrides
db-IsUnique f i = unfold count_at in omega arith

abbrev set_db : Db
set_db =
    (set_condition_override texts flag (some (pos 0)) (some on) (codes "cli") (codes "ann")
      (codes "test") 7 [] db).1

set_condition_override-fetched_example :
    value_at (some (pos 0)) ((pos 0, some on) ∷ [], none) ≡ some on
unfolding set_condition_override set_marshalled set_override read_override_value read_row
    unmarshal_flag_value valid_source transaction committed ◌>>=◌ query exec lift pure raise
    statement find_override upsert at_position insert_audit_entry marshal_optional
    fetch_condition_overrides load_overrides load_value put_override override_rows ◌=s◌
set_condition_override-fetched_example =
    set_condition_override-fetched texts flag (some (pos 0)) on (codes "cli") (codes "ann")
      (codes "test") 7 db set_db none [] fine ((pos 0, some on) ∷ [], none) texts-round_trip
      db-IsUnique refl refl

abbrev no_conditions : Codec
no_conditions = record {
  unmarshal_conditions = λ bytes. none;
  unmarshal_value = decode;
  compile = λ text. none;
}

pub db-HasKeys : HasKeys db
db-HasKeys id = unfold count_flag in ground arith

fetch_flag_state-killed_example :
    ((flag_state no_conditions (λ bytes. []) true fine db flag flag_row).flag_id ≡ flag)
    × (is_killed_state (flag_state no_conditions (λ bytes. []) true fine db flag flag_row).state
        ≡ is_killed (some (record { flag_ids = flag ∷ [] })) flag)
unfolding fetch_flag_state find_flag ◌=s◌ get_killed_flags killed_ids
fetch_flag_state-killed_example =
    fetch_flag_state-killed no_conditions (λ bytes. []) true fine 8 db flag new_health_tracker
      (flag_state no_conditions (λ bytes. []) true fine db flag flag_row)
      (record { flag_ids = flag ∷ [] }) db-HasKeys refl refl

db-IsBalanced : IsBalanced db
db-IsBalanced = record { balanced = unfold logged in refl; unique = db-IsUnique }

abbrev locked : Db
locked = (acquire_sync_lock texts (codes "ann") (codes "incident") 3 [] db).1

lock_then_set :
    Reach texts decimal db
      (set_condition_override texts flag
        (some (pos 0))
        (some on)
        (codes "cli")
        (codes "ann")
        (codes "test")
        7
        []
        locked).1
lock_then_set =
    next (next here (acquire (codes "ann") (codes "incident") 3 [] db))
      (set_step flag (some (pos 0)) on (codes "cli") (codes "ann") (codes "test") 7 [] locked)

Reach-IsBalanced_example :
    IsBalanced
      (set_condition_override texts flag
        (some (pos 0))
        (some on)
        (codes "cli")
        (codes "ann")
        (codes "test")
        7
        []
        locked).1
Reach-IsBalanced_example = Reach-IsBalanced texts decimal db-IsBalanced lock_then_set

-- ===== src/DbFetcher.antt =====
-- internal/evaluator/dbfetcher.go: reading flag states, overrides, launches and kills from the
-- tables. Which queries fail is an argument, and so is the time; spans, timers and logs are left
-- out.
pub mod Loading
pub mod Killed
pub mod RoundTrip
use pbflags.Common.{
  Bool, true, false, ◌&&◌, ◌||◌, not, ℕ, Option, none, some, List, [], ◌∷◌, Str, codes, contains,
  is_empty, is_some, if◌then◌else◌, ◌=s◌, ℤ, eqb_ℤ, leb, map,
}
use pbflags.Flag.{FlagValue, State}
use pbflags.Launch.{CachedLaunch}
use pbflags.Conditions.{CachedCondition, Codec, Overrides, compile_conditions}
use pbflags.CondCache.{CachedDimMeta}
use pbflags.CacheStore.{CachedFlagState, KillSet}
use pbflags.Health.{HealthTracker, record_success, record_failure}
use pbflags.Resolution.{FetchResult, fetch_error, fetched}
use pbflags.Poller.{KillAnswer, kill_error, kills}
use pbflags.Database.{find_flag, Db, FlagRow, OverrideRow, LaunchRow}

-- Which of the queries fail.
pub record Faults : Type 0 where
  pub flag_query : Bool
  pub launch_query : Bool
  pub override_query : Bool
  pub killed_query : Bool

-- `perIndex[*condIdx] = fv`
unfoldable pub put_override : ℤ → FlagValue → Overrides → Overrides
put_override i v [] = (i, some v) ∷ []
put_override i v ((j, w) ∷ m) =
    let rest = put_override i v m in if eqb_ℤ j i then (i, some v) ∷ m else (j, w) ∷ rest

-- What the loop of fetchConditionOverrides has collected.
abbrev pub Loaded : Type 0
Loaded = Overrides × Option FlagValue

unfoldable pub load_value : Option ℤ → Option FlagValue → Loaded → Loaded
load_value idx none loaded = loaded
load_value none (some fv) (per_index, static) = (per_index, some fv)
load_value (some i) (some fv) (per_index, static) = (put_override i fv per_index, static)

-- The loop over the rows; a value that cannot be decoded is skipped.
unfoldable pub load_overrides : (Str → Option FlagValue) → List OverrideRow → Loaded → Loaded
load_overrides decode [] loaded = loaded
load_overrides decode (row ∷ rows) loaded =
    load_overrides decode rows (load_value row.condition_index (decode row.override_value) loaded)

-- The rows that the query of fetchConditionOverrides returns.
unfoldable pub override_rows : Str → List OverrideRow → List OverrideRow
override_rows flag_id [] = []
override_rows flag_id (row ∷ rows) =
    let rest = override_rows flag_id rows in if row.flag_id =s flag_id then row ∷ rest else rest

-- fetchConditionOverrides
unfoldable pub fetch_condition_overrides :
    (Str → Option FlagValue) → Faults → Db → Str → Option Loaded
fetch_condition_overrides decode faults db flag_id =
    if faults.override_query
    then none
    else some (load_overrides decode (override_rows flag_id db.overrides) ([], none))

-- The distinct launch ids of the conditions, with those that were seen.
unfoldable pub launch_ids : List CachedCondition → List Str → List Str
launch_ids [] seen = []
launch_ids (cond ∷ conds) seen =
    let fresh = launch_ids conds (cond.launch_id ∷ seen) in
    let rest = launch_ids conds seen in
    if not (is_empty cond.launch_id) && not (contains seen cond.launch_id)
    then cond.launch_id ∷ fresh
    else rest

-- `status IN ('ACTIVE', 'SOAKING') AND killed_at IS NULL`
unfoldable pub is_live : LaunchRow → Bool
is_live row =
    (row.status =s codes "ACTIVE" || row.status =s codes "SOAKING") && not (is_some row.killed_at)

unfoldable pub insert_launch : LaunchRow → List LaunchRow → List LaunchRow
insert_launch row [] = row ∷ []
insert_launch row (r ∷ rs) =
    let rest = insert_launch row rs in
    if leb row.created_at r.created_at then row ∷ r ∷ rs else r ∷ rest

-- The rows of the query in the order of `created_at`.
unfoldable pub launch_rows : List Str → List LaunchRow → List LaunchRow
launch_rows ids [] = []
launch_rows ids (row ∷ rows) =
    let rest = launch_rows ids rows in
    if contains ids row.launch_id && is_live row then insert_launch row rest else rest

unfoldable pub cached_launch : LaunchRow → CachedLaunch
cached_launch row = record {
  launch_id = row.launch_id;
  dimension = row.dimension;
  ramp_pct = row.ramp_percentage;
}

-- fetchLaunchesForConditions
unfoldable pub fetch_launches_for_conditions :
    Faults → Db → List CachedCondition → Option (List CachedLaunch)
fetch_launches_for_conditions faults db conditions =
    let ids = launch_ids conditions [] in
    if is_empty ids
    then some []
    else if faults.launch_query
    then none
    else some (map cached_launch (launch_rows ids db.launches))

-- `if killedAt != nil`
unfoldable pub state_of : Option ℕ → State
state_of none = State.default
state_of (some _) = State.killed

module _ (codec : Codec) (parse_dim_meta : Str → CachedDimMeta) (has_cond_eval : Bool) where
  -- The conditions of a row, compiled where the fetcher has an evaluator.
  unfoldable pub compiled : FlagRow → List CachedCondition
  compiled row =
      if has_cond_eval && not (is_empty row.conditions)
      then compile_conditions codec row.conditions
      else []

  unfoldable pub dims_of : FlagRow → CachedDimMeta
  dims_of row =
      if has_cond_eval && not (is_empty row.conditions)
      then parse_dim_meta row.dimension_metadata
      else []

  -- A failure to load launches leaves none.
  unfoldable pub launches_of : Faults → Db → List CachedCondition → List CachedLaunch
  launches_of faults db conditions = elim (fetch_launches_for_conditions faults db conditions) [
    | none ↦ []
    | some launches ↦ launches
  ]

  -- A failure to load overrides leaves none.
  unfoldable pub loaded_of : Faults → Db → Str → Loaded
  loaded_of faults db flag_id =
      elim (fetch_condition_overrides codec.unmarshal_value faults db flag_id) [
        | none ↦ ([], none)
        | some loaded ↦ loaded
      ]

  unfoldable pub flag_state : Faults → Db → Str → FlagRow → CachedFlagState
  flag_state faults db flag_id row = record {
    flag_id = flag_id;
    state = state_of row.killed_at;
    value = none;
    archived = is_some row.archived_at;
    conditions = compiled row;
    dim_meta = dims_of row;
    launches = launches_of faults db (compiled row);
    condition_overrides = (loaded_of faults db flag_id).0;
    static_default_override = (loaded_of faults db flag_id).1;
  }

  -- FetchFlagState
  unfoldable pub fetch_flag_state :
      Faults → ℕ → Db → Str → HealthTracker → FetchResult × HealthTracker
  fetch_flag_state faults now db flag_id tracker =
      if faults.flag_query then (fetch_error, record_failure tracker) else (
        elim (find_flag flag_id db.flags) [
          | none ↦ fetched none
          | some row ↦ fetched (some (flag_state faults db flag_id row))
        ],
        record_success now tracker,
      )

unfoldable pub killed_ids : List FlagRow → List Str
killed_ids [] = []
killed_ids (row ∷ rows) =
    let rest = killed_ids rows in if is_some row.killed_at then row.flag_id ∷ rest else rest

-- GetKilledFlags
unfoldable pub get_killed_flags : Faults → Db → KillAnswer
get_killed_flags faults db =
    if faults.killed_query then kill_error else kills (record { flag_ids = killed_ids db.flags })

-- GetKilledFlagsProto
unfoldable pub get_killed_flags_proto : Faults → Db → Option (List Str)
get_killed_flags_proto faults db = if faults.killed_query then none else some (killed_ids db.flags)

-- GetFlagStateProto: an error, or the state and whether the flag is archived, if it is there.
unfoldable pub get_flag_state_proto : Faults → Db → Str → Option (Option (State × Bool))
get_flag_state_proto faults db flag_id =
    if faults.flag_query
    then none
    else some (elim (find_flag flag_id db.flags) [
      | none ↦ none
      | some row ↦ some (state_of row.killed_at, is_some row.archived_at)
    ])

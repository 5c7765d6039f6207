-- ===== src/Tests/Stores.antt =====
-- The admin service's writes and the sync of definitions at work.
use pbflags.Common.{
  ◌≡◌, refl, true, ◌&&◌, not, none, some, [], ◌∷◌, pos, codes, contains, ◌=s◌, is_some,
  if◌then◌else◌, Str,
}
use pbflags.Flag.{State, FlagType, FlagValue}
use pbflags.Resolution.{is_killed_state}
use pbflags.Database.{
  transaction, committed, ◌>>=◌, query, exec, lift, pure, raise, statement, Db, LaunchRow,
  find_flag, find_launch, update_launch,
}
use pbflags.Database.Ends.{Atomic}
use pbflags.DbFetcher.{
  killed_ids, fetch_launches_for_conditions, launch_ids, launch_rows, insert_launch, is_live,
  cached_launch,
}
use pbflags.AdminStore.{update_flag_state, kill_launch, kill_found, audit_launch}
use pbflags.AdminStore.Seen.{update_flag_state-killed_ids, kill_launch-names, names}
use pbflags.AdminLife.Launches.{IsLaunch}
use pbflags.Sync.Definitions.{FlagDef, sync_definitions}
use pbflags.Sync.Definitions.Kept.Runs.{Synced, sync_definitions-Synced}
use pbflags.Tests.{flag, plan, for_pro, otherwise, full_launch}
use pbflags.Tests.Admin.{texts, db, fine, db-HasKeys}

update_flag_state-killed_ids_example :
    Atomic
      (λ _ after.
        (is_some (find_flag flag db.flags) ≡ true)
        × ((f : Str)
            → contains (killed_ids after.flags) f ≡ (
                if flag =s f
                then is_killed_state State.default
                else contains (killed_ids db.flags) f)))
      db
      (update_flag_state texts flag State.default (codes "ann") 9 [] db)
update_flag_state-killed_ids_example =
    update_flag_state-killed_ids texts flag State.default (codes "ann") 9 [] db

abbrev pub exp_row : LaunchRow
exp_row = record {
  launch_id = codes "exp";
  scope_feature_id = none;
  dimension = plan;
  ramp_percentage = pos 100;
  ramp_source = codes "config";
  status = codes "ACTIVE";
  killed_at = none;
  affected_features = codes "checkout" ∷ [];
  description = [];
  created_at = 1;
  ramp_steps = [];
}

abbrev pub launched : Db
launched = record db { launches = exp_row ∷ [] }

kill_launch-names_example :
    contains (names []) (codes "exp")
    ≡ (not (codes "exp" =s codes "exp") && contains (names (full_launch ∷ [])) (codes "exp"))
unfolding kill_launch kill_found transaction committed ◌>>=◌ query exec lift pure raise statement
    find_launch update_launch fetch_launches_for_conditions launch_ids launch_rows insert_launch
    is_live cached_launch ◌=s◌ contains audit_launch
kill_launch-names_example =
    kill_launch-names texts (codes "exp") (codes "ann") 9 fine (for_pro ∷ otherwise ∷ []) []
      launched (full_launch ∷ []) [] (codes "exp") refl refl refl

abbrev killed : Db
killed = record db { launches = record exp_row { killed_at = some 4 } ∷ [] }

pub exp_row-IsLaunch : IsLaunch exp_row
unfolding contains ◌=s◌
exp_row-IsLaunch = record { within = refl; from_source = refl; in_status = refl }

-- A new flag of the feature that the flag in the table is of.
abbrev new_flag : FlagDef
new_flag = record {
  flag_id = codes "checkout/2";
  feature_id = codes "checkout";
  field_num = 2;
  name = codes "tax";
  flag_type = FlagType.type_string;
  layer = [];
  default = some (FlagValue.string_value (codes "off"));
  supported_values = none;
  feature_display_name = codes "Checkout";
  feature_description = [];
  feature_owner = [];
}

sync_definitions-Synced_example :
    Atomic
      (λ _ after. Synced texts (new_flag ∷ []) db after)
      db
      (sync_definitions texts 20 (new_flag ∷ []) [] [] db)
sync_definitions-Synced_example =
    sync_definitions-Synced texts 20 (new_flag ∷ []) [] [] db db-HasKeys

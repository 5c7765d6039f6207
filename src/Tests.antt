-- ===== src/Tests.antt =====
-- Concrete flags, contexts and caches, on which the statements about internal/evaluator,
-- internal/admin and internal/sync are tried.
pub mod Chain
pub mod Cache
pub mod Life
pub mod Admin
pub mod Serving
pub mod Classifying
pub mod Filtering
pub mod Configs
pub mod Stores
pub mod Clients
pub mod Linting
use pbflags.Common.{
  String, ℕ, Bool, true, false, Option, none, some, List, [], ◌∷◌, Str, codes, if◌then◌else◌, ◌=s◌,
  ℤ, pos,
}
use pbflags.Flag.{FlagValue, State}
use pbflags.Message.{Message, FieldValue, format_field_value}
use pbflags.Launch.{CachedLaunch}
use pbflags.Conditions.{CachedCondition, Program, Outcome, eval_error, bool_out}
use pbflags.CondCache.{
  DimClassification, DimensionMeta, CachedDimMeta, CondCacheEntry, ConditionCache,
}
use pbflags.CacheStore.{CachedFlagState, KillSet, CacheStore, new_cache_store}
use pbflags.Ristretto.{Ristretto}
use pbflags.Ristretto.Plain.{plain}
use pbflags.Resolution.{Evaluator, World, FetchResult, fetched}
use pbflags.Evaluator.Counters.{Metrics}

abbrev pub plan : Str
plan = codes "plan"

abbrev pub flag : Str
flag = codes "f"

-- A context whose only field is the plan.
abbrev pub ctx_of : String → Message
ctx_of s = record {
  by_name = λ name. if name =s plan then some (FieldValue.string_kind (codes s)) else none;
}

abbrev pub pro : Message
pro = ctx_of "pro"

abbrev pub free : Message
free = ctx_of "free"

abbrev pub text_is_pro : Option FieldValue → Outcome
text_is_pro none = eval_error
text_is_pro (some v) = bool_out (format_field_value v =s codes "pro")

-- `ctx.plan == "pro"`
abbrev pub is_pro : Program
is_pro c = text_is_pro (c.by_name plan)

abbrev pub for_pro : CachedCondition
for_pro = record {
  program = some is_pro;
  value = some (FlagValue.bool_value true);
  source = codes "ctx.plan == \"pro\"";
  launch_id = codes "exp";
  launch_value = some (FlagValue.string_value (codes "launched"));
}

abbrev pub otherwise : CachedCondition
otherwise = record {
  program = none;
  value = some (FlagValue.bool_value false);
  source = [];
  launch_id = [];
  launch_value = none;
}

abbrev pub full_launch : CachedLaunch
full_launch = record { launch_id = codes "exp"; dimension = plan; ramp_pct = pos 100 }

abbrev pub plan_meta : DimensionMeta
plan_meta = record { classification = DimClassification.unbounded; literal_set = [] }

abbrev pub state : CachedFlagState
state = record {
  flag_id = flag;
  state = State.default;
  value = none;
  archived = false;
  conditions = for_pro ∷ otherwise ∷ [];
  dim_meta = (plan, plan_meta) ∷ [];
  launches = full_launch ∷ [];
  condition_overrides = [];
  static_default_override = none;
}

abbrev pub fetch_state : Str → FetchResult
fetch_state id = if id =s flag then fetched (some state) else fetched none

abbrev pub world : World
world = record { fetch = fetch_state; jitter = pos 0 }

abbrev pub hot : Ristretto CachedFlagState
hot = plain CachedFlagState

abbrev pub results : Ristretto CondCacheEntry
results = plain CondCacheEntry

abbrev pub no_metrics : Metrics
no_metrics = record {
  eval_default = 0;
  eval_killed = 0;
  eval_condition = 0;
  eval_condition_override = 0;
  eval_launch = 0;
  eval_cached = 0;
  eval_stale = 0;
  cache_hit_kill_set = 0;
  cache_hit_flags = 0;
  cache_hit_conditions = 0;
  cache_miss_flags = 0;
  cache_miss_conditions = 0;
  bg_refresh_ok = 0;
  bg_refresh_err = 0;
}

abbrev pub start : Evaluator hot results
start = record {
  cache = record {
    flag_cache = [];
    stale_flag_map = [];
    kill_set = some (record { flag_ids = codes "dead" ∷ [] });
    flag_ttl = pos 600;
    jitter_percent = pos 20;
  };
  cond_cache = some (record { cache = []; versions = [] });
  has_cond_eval = true;
  inline_kill_check = false;
  metrics = no_metrics;
  refreshing = [];
}

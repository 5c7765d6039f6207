-- ===== src/Lib.antt =====
-- The evaluation core of pbflags, a feature flag system: a service that evaluates flags for
-- contexts, over tables that an admin service and a config sync write.
--
-- A flag's row in feature_flags.flags carries a compiled chain of CEL conditions. The fetcher reads
-- a row, the live overrides of its conditions and the launches that its conditions name into a
-- cached flag state; the evaluator resolves a state through a hot cache, a stale map and a fetch,
-- runs the chain in the caller's context, and remembers results under a key that keeps of the
-- context what the classification of the flag's dimensions looks at. A poller keeps the set of
-- killed flags. The admin service sets and clears overrides and the lock on sync, kills flags and
-- steers launches. A sync writes the definitions of flags that the protos have, parses the
-- configuration file of each feature, compiles its flags into stored chains, collects the launches,
-- and clears the overrides of the flags that it writes.
--
--   Flag, Message   gen/pbflags/v1/types.pb.go, evaluator.pb.go: values, states, sources, contexts
--   Launch          internal/evaluator/launch.go: HashBucket, InRamp, extractDimensionValue
--   Conditions      internal/evaluator/conditions.go: CompileConditions,
--                   EvaluateConditionsWithOverrides, buildResult, applyLaunchOverrideValue
--   Ristretto       the interface of github.com/dgraph-io/ristretto, with a plain instance
--   CondCache       internal/evaluator/condcache.go: ConditionCache, BuildCacheKey
--   CacheStore      internal/evaluator/cache.go: CacheStore, KillSet
--   Resolution      internal/evaluator/evaluator.go: the Evaluator's state, resolveGlobalWithState,
--                   setFlagState, backgroundRefreshFlag
--   Evaluator       the same file: Evaluate and EvaluateWithContext, and metrics.go
--   Health, Poller  internal/evaluator/health.go and poller.go
--   Service         internal/evaluator/service.go: the RPC handlers
--   Database        the tables of db/migrations and transactions over them
--   DbFetcher       internal/evaluator/dbfetcher.go
--   SyncLock, AdminOverrides
--                   internal/admin/overrides.go, with checkLock of internal/sync/lock.go
--   SyncClear       internal/sync/lock.go: clearOverridesForFlagsTx
--   AdminStore      internal/admin/store.go: UpdateFlagState, KillLaunch, UnkillLaunch,
--                   UpdateLaunchRamp, UpdateLaunchStatus; Reads: GetFlagState, GetKilledFlags,
--                   GetLaunch, FlagsByLaunch
--   AdminLife       sequences of the admin service's calls and sync's clears on the shared tables;
--                   Sync.Life adds whole syncs
--   ConfigFile      internal/configfile/configfile.go: Parse, convertFlagEntry, convertValue,
--                   ParseCrossFeatureLaunch, after the decoding of YAML
--   Sync.Compile    internal/sync/conditions.go: compileFlag; Sync.Stored and Sync.Evaluated follow
--                   its output through the tables into the evaluator
--   Sync.Definitions
--                   internal/sync/sync.go: SyncDefinitions
--   Sync.Launches   internal/sync/launchcollect.go: CollectLaunches
--   Sync.Conditions, Sync.Tables
--                   internal/sync/conditions.go: SyncConditions, and what it writes
--   Lint            internal/lint: Check, CheckScopes, CheckConditionScopeCompat
--   Client          pbflags/: dimensions, evaluators and overrides of the client library
--   Classify        internal/celenv/classify.go: ClassifyDimensions, walkDimRefs, classifyDim
--   Common          numbers, texts as lists of bytes, maps as association lists
--   Tests           concrete flags and tables on which the statements are tried
--
-- Loops are structural recursion over the lists that the code ranges over, so no fuel is needed.
-- A lock makes a method one step, and the life of an evaluator is a relation of steps: every
-- operation runs to its end before the next one begins, a background refresh being two steps.
-- Integers that wrap are written with their width: 32 bits for hashes, failure counts and condition
-- indices, 64 for flag versions. A transaction is a function on the tables with a list that says
-- which statements fail; a query of the fetcher has a flag of its own.
--
-- Not modelled: the CEL compiler and programs, protobuf encoding, the YAML decoder, the conversions
-- between integers and doubles, and the text of durations are parameters; logging, spans, gauges,
-- the columns updated_at, and the texts and order of errors and warnings are left out; so are
-- bundles, code generation, the command line and the web pages.
pub mod Common
pub mod Flag
pub mod Message
pub mod Launch
pub mod Conditions
pub mod Ristretto
pub mod CondCache
pub mod CacheStore
pub mod Resolution
pub mod Evaluator
pub mod Health
pub mod Poller
pub mod Database
pub mod SyncLock
pub mod ConfigFile
pub mod Sync
pub mod Client
pub mod Lint
pub mod AdminStore
pub mod AdminOverrides
pub mod SyncClear
pub mod AdminLife
pub mod DbFetcher
pub mod Service
pub mod Classify
pub mod Tests

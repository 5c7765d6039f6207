-- ===== src/DbFetcher/Killed.antt =====
-- The kill set and the state of a flag, as internal/evaluator/dbfetcher.go reads them.
use pbflags.Common.{
  Bool, false, ◌≡◌, refl, Option, none, some, List, [], ◌∷◌, Str, ℕ, suc, ◌≤◌, if◌then◌else◌, arith,
  contains, is_some, ◌=s◌,
}
use pbflags.Health.{HealthTracker}
use pbflags.Conditions.{Codec}
use pbflags.CondCache.{CachedDimMeta}
use pbflags.CacheStore.{CachedFlagState, KillSet, is_killed}
use pbflags.Resolution.{fetched, is_killed_state}
use pbflags.Poller.{kills}
use pbflags.Database.{find_flag, Db, FlagRow}
use pbflags.DbFetcher.{Faults, flag_state, fetch_flag_state, killed_ids, get_killed_flags, state_of}

-- flag_id is the primary key of feature_flags.flags.
unfoldable pub count_flag : Str → List FlagRow → ℕ
count_flag id [] = 0
count_flag id (row ∷ rows) = let n = count_flag id rows in if row.flag_id =s id then suc n else n

abbrev pub HasKeys : Db → Type 0
HasKeys db = (id : Str) → count_flag id db.flags ≤ 1

killed_row : Option FlagRow → Bool
killed_row none = false
killed_row (some row) = is_some row.killed_at

contains-unkilled :
    (id : Str) (rows : List FlagRow)
    → count_flag id rows ≤ 0
    → contains (killed_ids rows) id ≡ false
unfolding count_flag killed_ids contains
contains-unkilled id [] h = refl
contains-unkilled id (row ∷ rows) h = ground (arith, contains-unkilled id rows)

contains-killed_ids :
    (id : Str) (rows : List FlagRow)
    → count_flag id rows ≤ 1
    → contains (killed_ids rows) id ≡ killed_row (find_flag id rows)
unfolding count_flag killed_ids contains find_flag killed_row
contains-killed_ids id [] h = refl
contains-killed_ids id (row ∷ rows) h =
    ground (arith, contains-killed_ids id rows, contains-unkilled id rows)

module _ (codec : Codec) (parse_dim_meta : Str → CachedDimMeta) (has_cond_eval : Bool) where
  -- A fetched state is of the flag that was asked for, and its state is KILLED exactly if the kill
  -- set that is read from the same tables has the flag.
  pub fetch_flag_state-killed :
      (faults : Faults) (now : ℕ) (db : Db) (id : Str) (t : HealthTracker) (st : CachedFlagState)
      (ks : KillSet)
      → HasKeys db
      → (fetch_flag_state codec parse_dim_meta has_cond_eval faults now db id t).0
        ≡ fetched (some st)
      → get_killed_flags faults db ≡ kills ks
      → (st.flag_id ≡ id) × (is_killed_state st.state ≡ is_killed (some ks) id)
  unfolding fetch_flag_state get_killed_flags is_killed flag_state state_of killed_row
  fetch_flag_state-killed faults now db id t st ks keys h k =
      ground (arith, contains-killed_ids id db.flags (keys id))

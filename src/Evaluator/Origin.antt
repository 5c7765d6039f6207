-- ===== src/Evaluator/Origin.antt =====
-- Where the entries of the condition cache come from (internal/evaluator/evaluator.go and
-- condcache.go): each is the result of a chain in a context, under a key of a version that is past,
-- or whose state is still the last one.
use pbflags.Common.{
  ◌∙◌, ◌=s◌, ℕ, ◌+◌, ◌%◌, ◌^◌, ◌≤◌, ◌<◌, ◌≡◌, ◌≢◌, refl, true, false, Option, none, some, [], Str,
  arith, Assoc, lookup, put, lookup-put, =s_iff, is_empty, Bool-cases, inl, inr, if◌then◌else◌,
}
use native.Mathlib.Nat.{le_trans}
use pbflags.Flag.{FlagValue}
use pbflags.Message.{Message}
use pbflags.CacheStore.{CachedFlagState}
use pbflags.CondCache.{CondCacheEntry, version_at, build_cache_key}
use pbflags.Evaluator.{chain_result}
use pbflags.Evaluator.Resolve.{Own}

-- The entry holds the result.
abbrev pub EntryOf : Option FlagValue → CondCacheEntry → Type 0
EntryOf none en = en.no_match ≡ true
EntryOf (some v) en = (en.no_match ≡ false) × (en.value ≡ some v)

-- What setFlagState does to the versions.
abbrev pub bumped : CachedFlagState → Assoc ℕ → Assoc ℕ
bumped st versions =
    if is_empty st.conditions
    then versions
    else put st.flag_id ((version_at st.flag_id versions + 1) % 2 ^ 64) versions

module _ (P : Str → CachedFlagState → Type 0) (IsCtx : Option Message → Type 0) where
  pub record Origin (stale : Assoc CachedFlagState) (versions : Assoc ℕ) (key : Str)
      (en : CondCacheEntry) : Type 0 where
    pub flag : Str
    pub version : ℕ
    pub state : CachedFlagState
    pub ctx : Option Message
    pub own : Own P flag state
    pub in_ctx : IsCtx ctx
    pub keyed : key ≡ build_cache_key flag version state.dim_meta ctx state.launches
    pub made : EntryOf (chain_result state ctx).value en
    pub past : version ≤ version_at flag versions
    pub still :
        version ≡ version_at flag versions
        → (w : CachedFlagState) → lookup flag stale ≡ some w
        → is_empty w.conditions ≡ false
        → w ≡ state

  module _ (stale : Assoc CachedFlagState) (versions : Assoc ℕ) (st : CachedFlagState)
      (room : version_at st.flag_id versions + 1 < 2 ^ 64) where
    bumped-le : (id : Str) → version_at id versions ≤ version_at id (bumped st versions)
    unfolding version_at
    bumped-le id = ground (
      arith,
      lookup-put st.flag_id id ((version_at st.flag_id versions + 1) % 2 ^ 64) versions,
      =s_iff st.flag_id id,
    )

    bumped_self :
        is_empty st.conditions ≡ false
        → version_at st.flag_id (bumped st versions) ≡ version_at st.flag_id versions + 1
    unfolding version_at
    bumped_self h = ground (
      arith,
      room,
      lookup-put st.flag_id st.flag_id ((version_at st.flag_id versions + 1) % 2 ^ 64) versions,
      =s_iff st.flag_id st.flag_id,
    )

    bumped-other :
        (id : Str) → st.flag_id ≢ id → version_at id (bumped st versions) ≡ version_at id versions
    unfolding version_at
    bumped-other id h = ground (
      arith,
      lookup-put st.flag_id id ((version_at st.flag_id versions + 1) % 2 ^ 64) versions,
      =s_iff st.flag_id id,
    )

    still-set :
        (flag : Str) (version : ℕ) (state w : CachedFlagState)
        → version ≤ version_at flag versions
        → (version ≡ version_at flag versions
            → lookup flag stale ≡ some w
            → is_empty w.conditions ≡ false
            → w ≡ state)
        → version ≡ version_at flag (bumped st versions)
        → lookup flag (put st.flag_id st stale) ≡ some w
        → is_empty w.conditions ≡ false
        → w ≡ state
    still-set flag version state w past still now last cond =
        elim (Bool-cases (st.flag_id =s flag)) [
          | inl same ↦
              let flags : st.flag_id ≡ flag = (=s_iff st.flag_id flag).0 same in
              let is : st ≡ w = ground (arith, lookup-put st.flag_id flag st stale) in
              let c : is_empty st.conditions ≡ false = rw is cond in
              let v : version_at st.flag_id versions ≡ version_at flag versions = rw flags in
              let v' : version_at flag (bumped st versions) ≡ version_at st.flag_id versions + 1 =
                rw (← flags) (bumped_self c) in
              absurd (omega arith)
          | inr differs ↦
              let ne : st.flag_id ≢ flag = λ e. absurd (ground (arith, =s_iff st.flag_id flag)) in
              still (now ∙ bumped-other flag ne)
                (ground (arith, lookup-put st.flag_id flag st stale)) cond
        ]

    -- Setting a state keeps the origins: its version is new, or it has no conditions.
    pub Origin-set :
        (key : Str) (en : CondCacheEntry)
        → Origin stale versions key en
        → Origin (put st.flag_id st stale) (bumped st versions) key en
    Origin-set key en o = record {
      flag = o.flag;
      version = o.version;
      state = o.state;
      ctx = o.ctx;
      own = o.own;
      in_ctx = o.in_ctx;
      keyed = o.keyed;
      made = o.made;
      past = le_trans o.past (bumped-le o.flag);
      still = λ now w last cond.
          still-set o.flag o.version o.state w o.past (λ n l c. o.still n w l c) now last cond;
    }

  -- A flushed stale map holds no state that an old entry could be wrong about.
  pub Origin-flush :
      (stale : Assoc CachedFlagState) (versions : Assoc ℕ) (key : Str) (en : CondCacheEntry)
      → Origin stale versions key en
      → Origin [] versions key en
  Origin-flush stale versions key en o = record {
    flag = o.flag;
    version = o.version;
    state = o.state;
    ctx = o.ctx;
    own = o.own;
    in_ctx = o.in_ctx;
    keyed = o.keyed;
    made = o.made;
    past = o.past;
    still = λ now w last cond. absurd (unfold lookup in ground arith);
  }

  -- The result that an evaluation remembers, at the version and in the state that it found.
  pub Origin-new :
      (stale : Assoc CachedFlagState) (versions : Assoc ℕ) (id : Str) (st : CachedFlagState)
      (ctx : Option Message) (en : CondCacheEntry)
      → Own P id st
      → IsCtx ctx
      → lookup id stale ≡ some st
      → EntryOf (chain_result st ctx).value en
      → Origin stale versions
          (build_cache_key id (version_at id versions) st.dim_meta ctx st.launches)
          en
  Origin-new stale versions id st ctx en own in_ctx last made = record {
    flag = id;
    version = version_at id versions;
    state = st;
    ctx = ctx;
    own = own;
    in_ctx = in_ctx;
    keyed = refl;
    made = made;
    past = omega arith;
    still = λ now w found cond. ground arith;
  }

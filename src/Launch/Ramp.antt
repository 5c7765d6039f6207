-- ===== src/Launch/Ramp.antt =====
-- What a ramp percentage means for the entities of a launch.
use pbflags.Common.{◌<◌, ◌≡◌, true, false, arith, pos, leb_ℤ, Str}
use pbflags.Message.{Message, extract_dimension_value}
use pbflags.Launch.{CachedLaunch, hash_bucket, in_ramp}

pub hash_bucket-lt : (launch_id dim_value : Str) → hash_bucket launch_id dim_value < 100
unfolding hash_bucket
hash_bucket-lt launch_id dim_value = omega arith

pub in_ramp-none :
    (l : CachedLaunch) (ctx : Message) → leb_ℤ l.ramp_pct (pos 0) ≡ true → in_ramp l ctx ≡ false
unfolding in_ramp
in_ramp-none l ctx h = ground arith

pub in_ramp-all :
    (l : CachedLaunch) (ctx : Message) → leb_ℤ (pos 100) l.ramp_pct ≡ true → in_ramp l ctx ≡ true
unfolding in_ramp
in_ramp-all l ctx h =
    ground (arith, hash_bucket-lt l.launch_id (extract_dimension_value ctx l.dimension))

-- ===== src/Launch.antt =====
-- internal/evaluator/launch.go: the ramp of a launch, by a hash of the launch and a dimension.
pub mod Ramp
use Prim.Native.Nat.{bit_xor}
use pbflags.Common.{ℕ, ◌*◌, ◌%◌, ◌^◌, Bool, [], ◌∷◌, ◌++◌, Str, ℤ, pos, ltb_ℤ}
use pbflags.Message.{Message, extract_dimension_value}

pub record CachedLaunch : Type 0 where
  pub launch_id : Str
  pub dimension : Str
  pub ramp_pct : ℤ

-- The 32-bit FNV-1a hash of hash/fnv: for each byte an exclusive or, then a product modulo 2^32.
fnv_step : ℕ → ℕ → ℕ
fnv_step h byte = bit_xor h byte * 16777619 % 2 ^ 32

fnv_from : ℕ → Str → ℕ
fnv_from h [] = h
fnv_from h (b ∷ bs) = fnv_from (fnv_step h b) bs

-- `fnv.New32a`, the writes, and `Sum32`.
pub fnv32a : Str → ℕ
unfolding fnv_from fnv_step
fnv32a bytes = fnv_from 2166136261 bytes

-- HashBucket
unfoldable pub hash_bucket : Str → Str → ℕ
unfolding fnv32a
hash_bucket launch_id dim_value = fnv32a (launch_id ++ 0 ∷ dim_value) % 100

-- (*CachedLaunch).InRamp
unfoldable pub in_ramp : CachedLaunch → Message → Bool
in_ramp l ctx =
    let dim_value = extract_dimension_value ctx l.dimension in
    ltb_ℤ (pos (hash_bucket l.launch_id dim_value)) l.ramp_pct

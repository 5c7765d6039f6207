-- ===== src/Ristretto.antt =====
-- The interface of the third-party cache github.com/dgraph-io/ristretto, as internal/evaluator/
-- cache.go and condcache.go use it. A write may wait in a buffer, be lost, or be refused, and then
-- what was there before may stay; an entry may go at any time; but what is read was once written
-- under its key. `age` is what time, eviction and the buffers do between two calls.
pub mod Plain
use pbflags.Common.{ℕ, ◌≡◌, ◌⊎◌, Option, some, Str, ℤ}

pub record Ristretto (V : Type 0) : Type 1 where
  pub Cache : Type 0
  pub get : Str → Cache → Option V
  pub set : Str → V → Cache → Cache
  pub set_with_ttl : Str → V → ℤ → Cache → Cache
  pub clear : Cache → Cache
  pub age : ℕ → Cache → Cache
  -- The value is stored under the key, or waits in a buffer to be.
  pub MayAnswer : Str → V → Cache → Type 0
  pub get-MayAnswer : (k : Str) (v : V) (c : Cache) → get k c ≡ some v → MayAnswer k v c
  -- No operation makes up a value. None but a write of the key adds one.
  pub MayAnswer-set :
      (k j : Str) (v : V) (c : Cache) (w : V)
      → MayAnswer j w (set k v c)
      → (k ≡ j) × (v ≡ w) ⊎ MayAnswer j w c
  pub MayAnswer-set_with_ttl :
      (k j : Str) (v : V) (ttl : ℤ) (c : Cache) (w : V)
      → MayAnswer j w (set_with_ttl k v ttl c)
      → (k ≡ j) × (v ≡ w) ⊎ MayAnswer j w c
  pub MayAnswer-clear : (j : Str) (c : Cache) (w : V) → MayAnswer j w (clear c) → MayAnswer j w c
  pub MayAnswer-age :
      (n : ℕ) (j : Str) (c : Cache) (w : V) → MayAnswer j w (age n c) → MayAnswer j w c

-- ===== src/Hash.antt =====
-- pkg/util/util.go: `HashKey`. The 64-bit murmur3 sum with the source's seed is third-party code and
-- enters as the function `murmur`; an `int` has 64 bits.
use tinyredis.Prelude.{ℕ, ◌-◌, ◌^◌, Bytes, bit_and}

unfoldable pub hash_key : (Bytes → ℕ) → Bytes → ℕ
hash_key murmur key = bit_and (murmur key) (2 ^ 63 - 1)

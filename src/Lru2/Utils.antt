-- ===== src/Lru2/Utils.antt =====
-- store/lru2/utils.go: the hash of a key and the mask of the bucket index.
pub mod Bounds
use Prim.Native.Nat.{bit_and, bit_or}
use my_cache_go.Common.{
  ℕ, ◌+◌, ◌-◌, ◌*◌, ◌/◌, ◌%◌, ◌^◌, List, [], ◌∷◌, if◌then◌else◌, ◌==◌, ltb, ◌&&◌, Key,
}

-- `hash = hash*131 + int32(s[i])` on int32, as 32-bit patterns; `int32(s[i])` is a byte.
unfoldable pub hash_from : ℕ → Key → ℕ
hash_from hash [] = hash
hash_from hash (c ∷ s) = hash_from ((hash * 131 + c) % 2 ^ 32) s

unfoldable pub hash_bkrd : Key → ℕ
unfolding hash_from
hash_bkrd s = hash_from 0 s

-- The shifts and the bitwise or of uint16 values stay below 2 ^ 16.
unfoldable pub mask_of_next_pow2 : ℕ → ℕ
mask_of_next_pow2 cap =
    if ltb 0 cap && (bit_and cap (cap - 1) == 0)
    then cap - 1
    else let c1 = bit_or cap (cap / 2) in
      let c2 = bit_or c1 (c1 / 4) in let c4 = bit_or c2 (c2 / 16) in bit_or c4 (c4 / 256)

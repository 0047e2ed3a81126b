-- ===== src/Lru2/Store.antt =====
-- `LRU2Cache` of store/lru2/cache.go and `New` of store/lru2/constructor.go. Every operation works
-- on one shard at a time, under that shard's lock.
pub mod Clearing
pub mod Inv
pub mod Runs
use Prim.Native.Nat.{bit_and}
use my_cache_go.Common.{
  ℕ, suc, ◌+◌, ◌%◌, ◌^◌, List, [], ◌∷◌, ◌++◌, Option, none, some, Bool, if◌then◌else◌, ◌==◌, length,
  get_or, replicate, Key,
}
use my_cache_go.Common as Common
use my_cache_go.Common.Int64.{Int64, lt64}
use my_cache_go.Lru2.Bucket.{Calls, create_cache}
use my_cache_go.Lru2.Utils.{hash_bkrd, mask_of_next_pow2}
use my_cache_go.Lru2.Shard
use my_cache_go.Lru2.Shard.{Shard, Found}

pub record Store {ℓ} (V : Type ℓ) : Type ℓ where
  pub shards : List (Shard V)
  pub notify : Bool  -- `onEvicted` is not nil
  pub mask : ℕ

abbrev pub or_default : ℕ → ℕ → ℕ
or_default n d = if n == 0 then d else n

abbrev pub empty_shard {ℓ} : {V : Type ℓ} → ℕ → ℕ → Shard V
empty_shard cap level2 = record { hot = create_cache cap; warm = create_cache level2 }

-- `New`; the number of buckets, `mask+1`, is computed on uint16. The cleanup interval only sets
-- the ticker.
unfoldable pub new {ℓ} : {V : Type ℓ} → ℕ → ℕ → ℕ → Bool → Store V
new bucket_count cap_per_bucket level2_cap notify =
    let mask = mask_of_next_pow2 (or_default bucket_count 16) in
    record {
      shards =
          replicate ((mask + 1) % 2 ^ 16)
            (empty_shard (or_default cap_per_bucket 1024) (or_default level2_cap 1024));
      notify = notify;
      mask = mask;
    }

module _ {ℓ} {V : Type ℓ} where
  unfoldable pub key_to_bucket_index : Store V → Key → ℕ
  key_to_bucket_index c key = bit_and (hash_bkrd key) c.mask

  -- Stands for the panic of an index out of range.
  abbrev pub no_shard : Shard V
  no_shard = empty_shard 0 0

  abbrev pub shard_of : Store V → Key → Shard V
  shard_of c key = get_or c.shards (key_to_bucket_index c key) no_shard

  abbrev pub with_shard : Store V → Key → Shard V → Store V
  with_shard c key s = record c { shards = Common.set c.shards (key_to_bucket_index c key) s }

  -- `Get`, with its two readings of the clock.
  unfoldable pub get : Store V → Key → Int64 → Int64 → Store V × Calls V × Found V
  get c key now later =
      let (s, calls, found) = Shard.get (shard_of c key) key now later c.notify in
      (with_shard c key s, calls, found)

  unfoldable pub set_with_expiration : Store V → Key → Option V → Int64 → Int64 → Store V × Calls V
  set_with_expiration c key value now expiration =
      let (s, calls) = Shard.set (shard_of c key) key value now expiration c.notify in
      (with_shard c key s, calls)

  unfoldable pub set : Store V → Key → Option V → Int64 → Store V × Calls V
  unfolding set_with_expiration
  set c key value now = set_with_expiration c key value now 0

  unfoldable pub delete : Store V → Key → Store V × Calls V × Bool
  delete c key =
      let (s, calls, deleted) = Shard.delete (shard_of c key) key c.notify in
      (with_shard c key s, calls, deleted)

  -- The first loop of `Clear`.
  unfoldable pub keys_of : List (Shard V) → List Key → List Key
  keys_of [] keys = keys
  keys_of (s ∷ ss) keys = keys_of ss (Shard.keys_of s keys)

  -- The second loop of `Clear`.
  unfoldable pub delete_keys : Store V → List Key → Store V × Calls V
  delete_keys c [] = (c, [])
  delete_keys c (k ∷ ks) =
      let (c', calls, _) = delete c k in let (c'', more) = delete_keys c' ks in (c'', calls ++ more)

  unfoldable pub clear : Store V → Store V × Calls V
  unfolding keys_of delete_keys
  clear c = delete_keys c (keys_of c.shards [])

  unfoldable pub len_from : List (Shard V) → ℕ → ℕ
  len_from [] n = n
  len_from (s ∷ ss) n = len_from ss (Shard.len s n)

  unfoldable pub len : Store V → ℕ
  unfolding len_from
  len c = len_from c.shards 0

  unfoldable pub cleanup_from : List (Shard V) → Int64 → Bool → List (Shard V) × Calls V
  cleanup_from [] now notify = ([], [])
  cleanup_from (s ∷ ss) now notify =
      let (s', calls) = Shard.cleanup s now notify in
      let (ss', more) = cleanup_from ss now notify in (s' ∷ ss', calls ++ more)

  -- One tick of `cleanupLoop`.
  unfoldable pub cleanup : Store V → Int64 → Store V × Calls V
  unfolding cleanup_from
  cleanup c now =
      let (ss, calls) = cleanup_from c.shards now c.notify in (record c { shards = ss }, calls)

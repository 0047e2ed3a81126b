-- ===== src/Lru2/Store/Inv.antt =====
-- The invariant of a store of store/lru2: the shards, their number and their capacities.
use my_cache_go.Common.{
  ℕ, zero, suc, ◌+◌, ◌%◌, ◌^◌, ◌≤◌, ◌<◌, ◌≡◌, ◌≢◌, ◌∙◌, List, [], ◌∷◌, Option, Bool, length,
  length-set, length-replicate, get_or, set, get_or-set_self, replicate, All, Key, arith, true,
  false, none,
}
use my_cache_go.Common.Int64.{Int64}
use my_cache_go.Lru2.Bucket.Theorems.{create_cache-Holds}
use my_cache_go.Lru2.Utils.{hash_bkrd, mask_of_next_pow2}
use my_cache_go.Lru2.Utils.Bounds.{bit_and-le, mask_of_next_pow2_lem}
use my_cache_go.Lru2.Shard
use my_cache_go.Lru2.Shard.{Shard, expired, deadline_of}
use my_cache_go.Lru2.Shard.Inv.{IsShard, delete-IsShard, set-IsShard, get-IsShard}
use my_cache_go.Lru2.Shard.Effects.{get-set, get-delete}
use my_cache_go.Lru2.Store
use my_cache_go.Lru2.Store.{Store, no_shard, or_default, empty_shard, key_to_bucket_index, shard_of}

pub record IsStore {ℓ} {V : Type ℓ} (c0 c1 : ℕ) (c : Store V) : Type ℓ where
  pub masked : length c.shards ≡ suc c.mask
  pub shards_ok : All (IsShard c0 c1) c.shards

module _ {ℓ} {V : Type ℓ} {c0 c1 : ℕ} {c : Store V} (valid : IsStore c0 c1 c) (k : Key) where
  -- The index of a key is in range.
  pub index-lt : key_to_bucket_index c k < length c.shards
  unfolding key_to_bucket_index
  index-lt = omega (arith, bit_and-le (hash_bkrd k) c.mask, valid.masked)

  All-get_or :
      (ss : List (Shard V)) (i : ℕ)
      → i < length ss
      → All (IsShard c0 c1) ss
      → IsShard c0 c1 (get_or ss i no_shard)
  All-get_or [] i h a = absurd (omega arith)
  All-get_or (s ∷ ss) zero h a = a.0
  All-get_or (s ∷ ss) (suc i) h a = All-get_or ss i (omega arith) a.1

  All-set :
      (ss : List (Shard V)) (i : ℕ) (s : Shard V)
      → IsShard c0 c1 s
      → All (IsShard c0 c1) ss
      → All (IsShard c0 c1) (set ss i s)
  All-set [] i s v a = tt
  All-set (x ∷ ss) zero s v a = (v, a.1)
  All-set (x ∷ ss) (suc i) s v a = (a.0, All-set ss i s v a.1)

  pub shard_of-IsShard : IsShard c0 c1 (shard_of c k)
  shard_of-IsShard = All-get_or c.shards (key_to_bucket_index c k) index-lt valid.shards_ok

  with-IsStore : (s : Shard V) → IsShard c0 c1 s → IsStore c0 c1 (Store.with_shard c k s)
  with-IsStore s v = record {
    masked = length-set c.shards (key_to_bucket_index c k) s ∙ valid.masked;
    shards_ok = All-set c.shards (key_to_bucket_index c k) s v valid.shards_ok;
  }

  -- `Get` keeps a valid store valid.
  pub get-IsStore : (now later : Int64) → IsStore c0 c1 (Store.get c k now later).0
  unfolding Store.get
  get-IsStore now later =
      with-IsStore _ (get-IsShard c0 c1 (shard_of c k) k now later c.notify shard_of-IsShard)

  -- `SetWithExpiration` keeps a valid store valid.
  pub set_with_expiration-IsStore :
      (x : Option V) (now exp : Int64) → IsStore c0 c1 (Store.set_with_expiration c k x now exp).0
  unfolding Store.set_with_expiration
  set_with_expiration-IsStore x now exp =
      with-IsStore _ (set-IsShard c0 c1 (shard_of c k) k x now exp c.notify shard_of-IsShard)

  -- `Delete` keeps a valid store valid.
  pub delete-IsStore : IsStore c0 c1 (Store.delete c k).0
  unfolding Store.delete
  delete-IsStore = with-IsStore _ (delete-IsShard c0 c1 (shard_of c k) k c.notify shard_of-IsShard)

  -- The shard that was written is the one that is read.
  pub shard_of-with : (s : Shard V) → shard_of (Store.with_shard c k s) k ≡ s
  unfolding key_to_bucket_index
  shard_of-with s = get_or-set_self c.shards _ s no_shard index-lt

  -- In a valid store a value that was set is read back if its deadline is not 0 and has not passed.
  pub get-set_with_expiration :
      (x : Option V) (now exp t later : Int64)
      → deadline_of now exp ≢ 0
      → expired t (deadline_of now exp) ≡ false
      → (Store.get (Store.set_with_expiration c k x now exp).0 k t later).2 ≡ (x, true)
  unfolding Store.get Store.set_with_expiration
  get-set_with_expiration x now exp t later live fresh =
      rw (shard_of-with (Shard.set (shard_of c k) k x now exp c.notify).0)
        (get-set shard_of-IsShard k x now exp t later c.notify live fresh)

  -- In a valid store a key is not found after `Delete`.
  pub get-delete_key :
      (t later : Int64) → (Store.get (Store.delete c k).0 k t later).2 ≡ (none, false)
  unfolding Store.get Store.delete
  get-delete_key t later =
      rw (shard_of-with (Shard.delete (shard_of c k) k c.notify).0)
        (get-delete shard_of-IsShard k t later c.notify)

-- `New` makes a valid store.
pub new-IsStore {ℓ} :
    (V : Type ℓ) (bucket_count cap level2 : ℕ) (notify : Bool)
    → bucket_count ≤ 32768
    → cap < 65535
    → level2 < 65535
    → IsStore {V = V}
        (or_default cap 1024)
        (or_default level2 1024)
        (Store.new bucket_count cap level2 notify)
unfolding Store.new
new-IsStore V n cap level2 notify p q r = record {
  masked = length-replicate _ _ ∙ size;
  shards_ok = All-replicate ((mask_of_next_pow2 (or_default n 16) + 1) % 2 ^ 16);
}
  where
    size :
        (mask_of_next_pow2 (or_default n 16) + 1) % 2 ^ 16
        ≡ suc (mask_of_next_pow2 (or_default n 16))
    size =
        let count_le = let t : or_default n 16 ≤ 32768 = ground arith in t in
        let bound = mask_of_next_pow2_lem (or_default n 16) (ground arith) count_le in
        omega (arith, bound.3, count_le)

    shard_ok :
        IsShard {V = V}
          (or_default cap 1024)
          (or_default level2 1024)
          (empty_shard (or_default cap 1024) (or_default level2 1024))
    shard_ok = record {
      hot_list = [];
      warm_list = [];
      hot_holds = create_cache-Holds V (or_default cap 1024) (ground arith) (ground arith);
      warm_holds = create_cache-Holds V (or_default level2 1024) (ground arith) (ground arith);
    }

    All-replicate :
        (m : ℕ)
        → All
            (IsShard {V = V} (or_default cap 1024) (or_default level2 1024))
            (replicate m (empty_shard (or_default cap 1024) (or_default level2 1024)))
    All-replicate zero = tt
    All-replicate (suc m) = (shard_ok, All-replicate m)

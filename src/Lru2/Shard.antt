-- ===== src/Lru2/Shard.antt =====
-- One element of `LRU2Cache.buckets`, store/lru2/cache.go: the hot level and the warm level that
-- share a lock, with what `Get`, `SetWithExpiration`, `delete` and a round of `cleanupLoop` do
-- to them while they hold it. The readings of the clock are arguments.
pub mod Effects
pub mod Inv
pub mod Reads
use my_cache_go.Common.{
  ℕ, suc, ◌+◌, List, [], ◌∷◌, ◌++◌, Option, none, some, Bool, true, false, not, ◌&&◌, ◌||◌,
  if◌then◌else◌, ◌==◌, ite, Key, key_dec,
}
use my_cache_go.Common.Int64.{Int64, lt64, add64, minus_one}
use my_cache_go.Lru2.Bucket
use my_cache_go.Lru2.Bucket.{Bucket, Entry, Calls}

pub record Shard {ℓ} (V : Type ℓ) : Type ℓ where
  pub hot : Bucket V
  pub warm : Bucket V

-- `deadline > 0 && currentTime >= deadline`.
abbrev pub expired : Int64 → Int64 → Bool
expired now deadline = lt64 0 deadline && not (lt64 now deadline)

-- The deadline that `SetWithExpiration` computes.
abbrev pub deadline_of : Int64 → Int64 → Int64
deadline_of now expiration = if lt64 0 expiration then add64 now expiration else minus_one

-- The value and `true`, or nil and `false`.
abbrev pub Found {ℓ} : Type ℓ → Type ℓ
Found V = Option V × Bool

-- The loop of `Clear` and `cleanupLoop` over the keys that they have.
abbrev pub has_key : Key → List Key → Bool
has_key key [] = false
has_key key (k ∷ ks) = ite (key_dec key k) true (has_key key ks)

module _ {ℓ} {V : Type ℓ} where
  -- `n.value != nil` of a found entry.
  abbrev pub some_value : Option (Entry V × Int64) → Option V
  some_value none = none
  some_value (some (e, d)) = e.value

  abbrev pub is_found : Option (Entry V × Int64) → Bool
  is_found none = false
  is_found (some x) = true

  -- The callback of `delete`: with the hot value, or else with the warm one, if there is one.
  abbrev pub delete_calls : Bool → Key → Option V → Option V → Calls V
  delete_calls false key v1 v2 = []
  delete_calls true key (some v) v2 = (key, some v) ∷ []
  delete_calls true key none (some v) = (key, some v) ∷ []
  delete_calls true key none none = []

  -- `delete`: the shard, the calls of `onEvicted`, and whether the key was there.
  unfoldable pub delete : Shard V → Key → Bool → Shard V × Calls V × Bool
  delete s key notify =
      let (hot, n1) = Bucket.del s.hot key in
      let (warm, n2) = Bucket.del s.warm key in
      (
        record { hot = hot; warm = warm },
        delete_calls notify key (some_value n1) (some_value n2),
        is_found n1 || is_found n2,
      )

  -- `SetWithExpiration`, at the time `now`.
  unfoldable pub set : Shard V → Key → Option V → Int64 → Int64 → Bool → Shard V × Calls V
  set s key value now expiration notify =
      let (hot, calls, _) = Bucket.put s.hot key value (deadline_of now expiration) notify in
      (record s { hot = hot }, calls)

  -- `getFromLevel` on the warm level, at the time `now`.
  unfoldable pub get_from_level : Bucket V → Key → Int64 → Bucket V × Option (Entry V)
  get_from_level b key now =
      let (b', n) = Bucket.get b key in
      elim n [
        | none ↦ (b', none)
        | some e ↦ (b', if (e.deadline == 0) || expired now e.deadline then none else some e)
      ]

  -- Step 1 of `Get`: the key was live in the hot level, which has given it up.
  unfoldable pub get_hot :
      Shard V → Key → Entry V → Int64 → Int64 → Bool → Shard V × Calls V × Found V
  get_hot s key e deadline now notify =
      if expired now deadline
      then (let (s', calls, _) = delete s key notify in (s', calls, (none, false)))
      else let (warm, calls, _) = Bucket.put s.warm key e.value deadline notify in
        (record s { warm = warm }, calls, (e.value, true))

  -- Step 2 of `Get`: the warm level, which reads the clock again.
  unfoldable pub get_warm : Shard V → Key → Int64 → Int64 → Bool → Shard V × Calls V × Found V
  get_warm s key now later notify =
      let (warm, n) = get_from_level s.warm key later in
      let s' = let t : Shard V = record s { warm = warm } in t in
      elim n [
        | none ↦ (s', [], (none, false))
        | some e ↦
            if expired now e.deadline
            then (let (s'', calls, _) = delete s' key notify in (s'', calls, (none, false)))
            else (s', [], (e.value, true))
      ]

  -- `Get`, with the reading `now` of the clock at the start and `later` in `getFromLevel`.
  unfoldable pub get : Shard V → Key → Int64 → Int64 → Bool → Shard V × Calls V × Found V
  get s key now later notify =
      let (hot, n) = Bucket.del s.hot key in
      elim n [
        | some (e, deadline) ↦ get_hot (record s { hot = hot }) key e deadline now notify
        | none ↦ get_warm (record s { hot = hot }) key now later notify
      ]

  -- The walkers of `Clear`.
  abbrev pub collect : List Key → Entry V → List Key × Bool
  collect keys e = (keys ++ e.key ∷ [], true)

  abbrev pub collect_new : List Key → Entry V → List Key × Bool
  collect_new keys e = (if has_key e.key keys then keys else keys ++ e.key ∷ [], true)

  unfoldable pub keys_of : Shard V → List Key → List Key
  keys_of s keys = Bucket.walk collect_new s.warm (Bucket.walk collect s.hot keys)

  -- The walker of `Len`.
  abbrev pub count : ℕ → Entry V → ℕ × Bool
  count n e = (n + 1, true)

  unfoldable pub len : Shard V → ℕ → ℕ
  len s n = Bucket.walk count s.warm (Bucket.walk count s.hot n)

  -- The walkers of `cleanupLoop`.
  abbrev pub collect_expired : Int64 → List Key → Entry V → List Key × Bool
  collect_expired now keys e = (if expired now e.deadline then keys ++ e.key ∷ [] else keys, true)

  abbrev pub collect_expired_new : Int64 → List Key → Entry V → List Key × Bool
  collect_expired_new now keys e = (
    if expired now e.deadline
        then (if has_key e.key keys then keys else keys ++ e.key ∷ [])
        else keys,
    true,
  )

  unfoldable pub delete_all : Shard V → List Key → Bool → Shard V × Calls V
  delete_all s [] notify = (s, [])
  delete_all s (k ∷ ks) notify =
      let (s', calls, _) = delete s k notify in
      let (s'', more) = delete_all s' ks notify in (s'', calls ++ more)

  -- One round of `cleanupLoop` on this shard.
  unfoldable pub cleanup : Shard V → Int64 → Bool → Shard V × Calls V
  cleanup s now notify =
      delete_all s
        (Bucket.walk (collect_expired_new now) s.warm (Bucket.walk (collect_expired now) s.hot []))
        notify

-- ===== src/Lru/Runs.antt =====
-- Runs of the cache of store/lru, with the two parts of `Get` apart.
use my_cache_go.Common.{ℕ, ◌≤◌, List, Option, none, some, Bool, Key}
use my_cache_go.Common.Int64.{Int64}
use my_cache_go.Lru.{Lru, new, get_touch, get, set_with_expiration, delete, clear, evict}
use my_cache_go.Lru.Inv.{IsLru}
use my_cache_go.Lru.Evicts.{evict-IsLru}
use my_cache_go.Lru.Keeps.{
  store-IsLru, delete-IsLru, get-IsLru, get_touch-IsLru, clear-IsLru, new-IsLru,
}

module _ {ℓ} {V : Type ℓ} (len : V → ℕ) where
  set_with_expiration-IsLru :
      (l : Lru V) (k : Key) (x : Option V) (exp : Int64) (now later : ℕ)
      (order : List (Key × ℕ) → List (Key × ℕ))
      → IsLru len l
      → IsLru len (set_with_expiration len l k x exp now later order).0
  unfolding set_with_expiration
  set_with_expiration-IsLru l k none exp now later order v = delete-IsLru len l v k
  set_with_expiration-IsLru l k (some x) exp now later order v =
      store-IsLru len l v k x exp now later order

  -- The caches that calls reach from `New`, with the number of the first element that was made since
  -- the last `Clear`. `touched` is the second part of a `Get` that other calls have come before, a
  -- `Clear` not among them: `Clear` leaves the old elements as they are, and container/list takes one
  -- that it is handed then for an element of the new list. `ticked` is a round of the cleanup loop.
  pub data Reached : Lru V → ℕ → Type ℓ where
    made : (max : Int64) (notify : Bool) → Reached (new max notify) 0
    got :
        {l : Lru V} {first : ℕ} (k : Key) (now : ℕ)
        → Reached l first
        → Reached (get l k now).0 first
    touched :
        {l : Lru V} {first : ℕ} (k : Key) (i : ℕ)
        → first ≤ i
        → Reached l first
        → Reached (get_touch l k i) first
    stored :
        {l : Lru V} {first : ℕ} (k : Key) (x : Option V) (exp : Int64) (now later : ℕ)
        (order : List (Key × ℕ) → List (Key × ℕ))
        → Reached l first
        → Reached (set_with_expiration len l k x exp now later order).0 first
    deleted : {l : Lru V} {first : ℕ} (k : Key) → Reached l first → Reached (delete len l k).0 first
    cleared :
        {l : Lru V} {first : ℕ} (order : List (Key × ℕ))
        → Reached l first
        → Reached (clear l order).0 l.next_id
    ticked :
        {l : Lru V} {first : ℕ} (now : ℕ) (order : List (Key × ℕ))
        → Reached l first
        → Reached (evict len l now order).0 first

  -- In every cache that calls and rounds of the cleanup loop reach from `New`, the list, the two maps
  -- and the count of the bytes agree, also where other calls but `Clear` come between the two locks of a
  -- `Get`.
  pub Reached-IsLru : {l : Lru V} {first : ℕ} → Reached l first → IsLru len l
  Reached-IsLru (made max notify) = new-IsLru V len max notify
  Reached-IsLru (got k now r) = get-IsLru len _ (Reached-IsLru r) k now
  Reached-IsLru (touched k i h r) = get_touch-IsLru len _ (Reached-IsLru r) k i
  Reached-IsLru (stored k x exp now later order r) =
      set_with_expiration-IsLru _ k x exp now later order (Reached-IsLru r)
  Reached-IsLru (deleted k r) = delete-IsLru len _ (Reached-IsLru r) k
  Reached-IsLru (cleared {l} order r) = clear-IsLru len l order
  Reached-IsLru (ticked now order r) = evict-IsLru len _ now order (Reached-IsLru r)

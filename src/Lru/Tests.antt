-- ===== src/Lru/Tests.antt =====
-- Runs of the cache of store/lru on small inputs.
use my_cache_go.Common.{ℕ, List, [], ◌∷◌, some, true, length, Key, arith}
use my_cache_go.Lru.{Lru, new, get_touch, delete, set_with_expiration}
use my_cache_go.Lru.Inv.{IsLru}
use my_cache_go.Lru.Runs.{Reached, made, touched, stored, deleted, Reached-IsLru}

abbrev key_a : Key
key_a = b'a' ∷ []

abbrev key_b : Key
key_b = b'b' ∷ []

abbrev same_order : List (Key × ℕ) → List (Key × ℕ)
same_order m = m

-- A `Delete` and a `SetWithExpiration` come between the two locks of a `Get`.
abbrev between : Lru Key
between =
    get_touch
      (set_with_expiration length
        (delete length
          (set_with_expiration length (new 3 true) key_a (some key_b) 0 5 6 same_order).0 key_a).0
        key_a (some key_a) 100 7 8 same_order).0
      key_a 0

between-Reached : Reached length between 0
between-Reached = touched key_a 0 (omega arith) (
    stored key_a (some key_a) 100 7 8 same_order
      (deleted key_a (stored key_a (some key_b) 0 5 6 same_order (made 3 true))))

Reached-IsLru_example : IsLru length between
Reached-IsLru_example = Reached-IsLru length between-Reached

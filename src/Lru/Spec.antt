-- ===== src/Lru/Spec.antt =====
-- What the cache of store/lru promises: a list of items, the most recently used first, cut to the
-- longest prefix within the limit where a new key comes in and on every tick.
use my_cache_go.Common.{
  ℕ, ◌+◌, ◌-◌, List, [], ◌∷◌, Option, none, some, Bool, true, false, not, if◌then◌else◌, leb, ite,
  length, Key, key_dec,
}
use my_cache_go.Common.Int64.{Int64, lt64}
use my_cache_go.Lru.{has_expired}

pub record Item {ℓ} (V : Type ℓ) : Type ℓ where
  pub key : Key
  pub value : V
  pub deadline : Option ℕ

-- A call, or a tick of the cleanup loop, with the readings of the clock.
pub data Op {ℓ} (V : Type ℓ) : Type ℓ where
  do_get : Key → ℕ → Op V
  do_set : Key → Option V → Int64 → ℕ → ℕ → Op V
  do_delete : Key → Op V
  do_clear do_len : Op V
  do_tick : ℕ → Op V

-- What its caller sees. A miss tells whether a goroutine was started that deletes the key.
pub data Reply {ℓ} (V : Type ℓ) : Type ℓ where
  found : Option V → Bool → Reply V
  done : Reply V
  deleted : Bool → Reply V
  counted : ℕ → Reply V

abbrev pub differs : Key → Key → Bool
differs k j = ite (key_dec k j) false true

module _ {ℓ} {V : Type ℓ} where
  abbrev pub find_item : Key → List (Item V) → Option (Item V)
  find_item k [] = none
  find_item k (x ∷ xs) = ite (key_dec k x.key) (some x) (find_item k xs)

  -- The items of the other keys.
  abbrev pub others : Key → List (Item V) → List (Item V)
  others k [] = []
  others k (x ∷ xs) = let rest = others k xs in if differs k x.key then x ∷ rest else rest

  -- The items that have not expired.
  abbrev pub fresh : ℕ → List (Item V) → List (Item V)
  fresh now [] = []
  fresh now (x ∷ xs) =
      let rest = fresh now xs in if not (has_expired x.deadline now) then x ∷ rest else rest

  abbrev pub get : List (Item V) → Key → ℕ → List (Item V) × Option V × Bool
  get xs k now = elim (find_item k xs) [
    | none ↦ (xs, none, false)
    | some x ↦
        if has_expired x.deadline now
        then (xs, none, true)
        else (x ∷ others k xs, some x.value, false)
  ]

  abbrev pub delete : List (Item V) → Key → List (Item V) × Bool
  delete xs k = (others k xs, elim (find_item k xs) [ none ↦ false | some _ ↦ true ])

  -- The item that a call of `SetWithExpiration` makes.
  abbrev pub item_of : Key → V → Int64 → ℕ → Item V
  item_of k v exp now = record {
    key = k;
    value = v;
    deadline = if lt64 0 exp then some (now + exp) else none;
  }

module _ {ℓ} {V : Type ℓ} (len : V → ℕ) where
  abbrev pub size : Item V → ℕ
  size x = length x.key + len x.value

  abbrev pub weight : List (Item V) → ℕ
  weight [] = 0
  weight (x ∷ xs) = size x + weight xs

  -- The longest prefix with at most this size.
  abbrev pub fit : ℕ → List (Item V) → List (Item V)
  fit max [] = []
  fit max (x ∷ xs) = let rest = fit (max - size x) xs in if leb (size x) max then x ∷ rest else []

  abbrev pub set : ℕ → List (Item V) → Key → Option V → Int64 → ℕ → ℕ → List (Item V)
  set max xs k none exp now later = others k xs
  set max xs k (some v) exp now later = elim (find_item k xs) [
    | some _ ↦ item_of k v exp now ∷ others k xs
    | none ↦ fit max (fresh later (item_of k v exp now ∷ xs))
  ]

  unfoldable pub run : ℕ → List (Item V) → List (Op V) → List (Reply V)
  run max xs [] = []
  run max xs (do_get k now ∷ ops) =
      let (xs', value, started) = get xs k now in found value started ∷ run max xs' ops
  run max xs (do_set k v exp now later ∷ ops) = done ∷ run max (set max xs k v exp now later) ops
  run max xs (do_delete k ∷ ops) =
      let (xs', was_there) = delete xs k in deleted was_there ∷ run max xs' ops
  run max xs (do_clear ∷ ops) = done ∷ run max [] ops
  run max xs (do_len ∷ ops) = counted (length xs) ∷ run max xs ops
  run max xs (do_tick now ∷ ops) = done ∷ run max (fit max (fresh now xs)) ops

-- ===== src/Lru.antt =====
-- `LRUCache` of store/lru/cache.go and `New` of store/lru/constructor.go: a list of entries, the
-- most recently used first, with two maps beside it. A `*list.Element` is a number that no other
-- element has had; times are nanoseconds, and the readings of the clock are arguments. `Len` of a
-- value is the parameter `len`.
pub mod Bound
pub mod Elements
pub mod Evicts
pub mod Fits
pub mod Leads
pub mod Fitting
pub mod Inv
pub mod Keeps
pub mod Reads
pub mod Refine
pub mod Runs
pub mod Spec
pub mod Survives
mod Tests
use my_cache_go.Common.{
  ℕ, zero, suc, ◌+◌, ◌*◌, ◌%◌, ◌^◌, List, [], ◌∷◌, ◌++◌, Option, none, some, Bool, true, false,
  ◌&&◌, if◌then◌else◌, ltb, length, Key, key_dec,
}
use my_cache_go.Common.Int64.{Int64, lt64, add64, sub64}
use my_cache_go.Common.Dict
use Elements.{Element, elem_of, remove, replace, to_front, back}

pub record Lru {ℓ} (V : Type ℓ) : Type ℓ where
  pub lru_list : List (Element V)
  pub element_map : List (Key × ℕ)
  pub max_bytes : Int64
  pub used_bytes : Int64
  pub expiration_map : List (Key × ℕ)
  pub notify : Bool  -- `onEvicted` is not nil
  pub next_id : ℕ

-- `New`, with 8 MB where no positive limit is given. The cleanup interval only sets the ticker.
unfoldable pub new {ℓ} : {V : Type ℓ} → Int64 → Bool → Lru V
new max_bytes notify = record {
  lru_list = [];
  element_map = [];
  max_bytes = if lt64 0 max_bytes then max_bytes else 8 * 1024 * 1024;
  used_bytes = 0;
  expiration_map = [];
  notify = notify;
  next_id = 0;
}

abbrev pub Calls {ℓ} : Type ℓ → Type ℓ
Calls V = List (Key × V)

-- What `Get` finds under the read lock: nothing, an expired entry, which it leaves to a goroutine
-- that deletes the key later, or an element with its value.
pub data Read {ℓ} (V : Type ℓ) : Type ℓ where
  absent : Read V
  stale : Read V
  hit : ℕ → V → Read V

abbrev pub has_expired : Option ℕ → ℕ → Bool
has_expired none now = false
has_expired (some t) now = ltb t now

module _ {ℓ} {V : Type ℓ} where
  -- `Get` up to the release of the read lock.
  unfoldable pub get_read : Lru V → Key → ℕ → Read V
  get_read l key now = elim (Dict.find key_dec key l.element_map) [
    | none ↦ absent
    | some i ↦
        if has_expired (Dict.find key_dec key l.expiration_map) now
        then stale
        else elim (elem_of i l.lru_list) [ none ↦ absent | some e ↦ hit i e.value ]
  ]

  -- `Get` under the write lock, where no `Clear` has come since the read lock: `MoveToFront` leaves the
  -- list alone if the element has left it by `Remove`. `Clear` does not mark the elements that it
  -- drops, and `MoveToFront` links such an element into the list again, which is not modelled.
  unfoldable pub get_touch : Lru V → Key → ℕ → Lru V
  get_touch l key i = elim (Dict.find key_dec key l.element_map) [
    | none ↦ l
    | some _ ↦ record l { lru_list = to_front i l.lru_list }
  ]

  -- `Get` with no other call between its two locks: the cache, the value, and whether a goroutine
  -- that deletes the key was started.
  unfoldable pub get : Lru V → Key → ℕ → Lru V × Option V × Bool
  get l key now = elim (get_read l key now) [
    | absent ↦ (l, none, false)
    | stale ↦ (l, none, true)
    | hit i v ↦ (get_touch l key i, some v, false)
  ]

module _ {ℓ} {V : Type ℓ} (len : V → ℕ) where
  -- `int64(len(entry.key) + entry.value.Len())`.
  abbrev pub size_of : Element V → ℕ
  size_of e = length e.key + len e.value

  unfoldable pub remove_element : Lru V → ℕ → Lru V × Calls V
  remove_element l i = elim (elem_of i l.lru_list) [
    | none ↦ (l, [])
    | some e ↦ (
      record l {
        lru_list = remove i l.lru_list;
        element_map = Dict.delete key_dec e.key l.element_map;
        expiration_map = Dict.delete key_dec e.key l.expiration_map;
        used_bytes = sub64 l.used_bytes (size_of e % 2 ^ 64);
      },
      if l.notify then (e.key, e.value) ∷ [] else [],
    )
  ]

  -- `removeElement` of the element of a key, if there is one.
  unfoldable pub remove_key : Lru V → Key → Lru V × Calls V
  remove_key l key = elim (Dict.find key_dec key l.element_map) [
    | none ↦ (l, [])
    | some i ↦ remove_element l i
  ]

  -- The first loop of `evict`, over the pairs of the expiration map in the order of the iteration.
  unfoldable pub evict_expired : Lru V → ℕ → List (Key × ℕ) → Lru V × Calls V
  evict_expired l now [] = (l, [])
  evict_expired l now ((key, t) ∷ rest) =
      let (l', calls) = if ltb t now then remove_key l key else (l, []) in
      let (l'', more) = evict_expired l' now rest in (l'', calls ++ more)

  -- The second loop of `evict`. Each round removes an element, so that the length of the list is
  -- fuel enough.
  unfoldable pub evict_oldest : ℕ → Lru V → Lru V × Calls V
  evict_oldest zero l = (l, [])
  evict_oldest (suc fuel) l =
      let next = remove_element l (back l.lru_list) in
      let rest = evict_oldest fuel next.0 in
      if lt64 0 l.max_bytes && (lt64 l.max_bytes l.used_bytes && ltb 0 (length l.lru_list))
      then (rest.0, next.1 ++ rest.1)
      else (l, [])

  -- `evict`; `order` is the expiration map in the order of the iteration.
  unfoldable pub evict : Lru V → ℕ → List (Key × ℕ) → Lru V × Calls V
  evict l now order =
      let (l', calls) = evict_expired l now order in
      let (l'', more) = evict_oldest (length l'.lru_list) l' in (l'', calls ++ more)

  unfoldable pub delete : Lru V → Key → Lru V × Calls V × Bool
  delete l key = elim (Dict.find key_dec key l.element_map) [
    | none ↦ (l, [], false)
    | some i ↦ let (l', calls) = remove_element l i in (l', calls, true)
  ]

  -- The expiration map after `SetWithExpiration` has written it.
  abbrev pub with_expiration : Lru V → Key → Int64 → ℕ → Lru V
  with_expiration l key expiration now = record l {
    expiration_map =
        if lt64 0 expiration
        then Dict.insert key_dec key (now + expiration) l.expiration_map
        else Dict.delete key_dec key l.expiration_map;
  }

  -- The value of a key that is there is replaced.
  unfoldable pub update : Lru V → ℕ → Element V → V → Lru V
  update l i e value = record l {
    used_bytes = add64 l.used_bytes (sub64 (len value % 2 ^ 64) (len e.value % 2 ^ 64));
    lru_list = to_front i (replace i value l.lru_list);
  }

  -- A new key goes to the front, before `evict`.
  unfoldable pub push : Lru V → Key → V → Lru V
  push l key value = record l {
    lru_list = record { id = l.next_id; key = key; value = value } ∷ l.lru_list;
    element_map = Dict.insert key_dec key l.next_id l.element_map;
    used_bytes = add64 l.used_bytes ((length key + len value) % 2 ^ 64);
    next_id = suc l.next_id;
  }

  -- `SetWithExpiration` with a value that is not nil. The clock is read for the expiry and by
  -- `evict`; `order` is the iteration order of the expiration map that `evict` meets.
  unfoldable pub store :
      Lru V → Key → V → Int64 → ℕ → ℕ → (List (Key × ℕ) → List (Key × ℕ)) → Lru V × Calls V
  store l key value expiration now later order =
      let l1 = with_expiration l key expiration now in
      elim (Dict.find key_dec key l1.element_map) [
        | some i ↦ elim (elem_of i l1.lru_list) [
          | none ↦ (l1, [])
          | some e ↦ (update l1 i e value, [])
        ]
        | none ↦ let l2 = push l1 key value in evict l2 later (order l2.expiration_map)
      ]

  -- `SetWithExpiration`; nil deletes the key.
  unfoldable pub set_with_expiration :
      Lru V → Key → Option V → Int64 → ℕ → ℕ → (List (Key × ℕ) → List (Key × ℕ)) → Lru V × Calls V
  set_with_expiration l key none expiration now later order =
      let (l', calls, _) = delete l key in (l', calls)
  set_with_expiration l key (some value) expiration now later order =
      store l key value expiration now later order

module _ {ℓ} {V : Type ℓ} where
  -- The calls of `Clear`, in the order of its iteration over the element map.
  unfoldable pub clear_calls : Lru V → List (Key × ℕ) → Calls V
  clear_calls l [] = []
  clear_calls l ((k, i) ∷ m) = elim (elem_of i l.lru_list) [
    | none ↦ clear_calls l m
    | some e ↦ (e.key, e.value) ∷ clear_calls l m
  ]

  unfoldable pub clear : Lru V → List (Key × ℕ) → Lru V × Calls V
  clear l order = (
    record l { lru_list = []; element_map = []; expiration_map = []; used_bytes = 0 },
    if l.notify then clear_calls l order else [],
  )

  unfoldable pub len_of : Lru V → ℕ
  len_of l = length l.lru_list

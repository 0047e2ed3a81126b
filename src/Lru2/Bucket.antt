-- ===== src/Lru2/Bucket.antt =====
-- `cacheBucket` of store/lru2/bucket.go: preallocated entries, a doubly linked list threaded
-- through an array of links with a sentinel at 0, and an index from keys to entries.
-- A read out of bounds gives a zero value and a write out of bounds changes nothing, where Go
-- panics; `Bucket.Inv` shows that neither happens in a bucket that `create_cache` made.
pub mod Adjust
pub mod Chain
pub mod Index
pub mod Inv
pub mod Lookup
pub mod Move
pub mod Peek
pub mod Push
pub mod Refine
pub mod Ring
pub mod Spec
pub mod Theorems
pub mod Walk
use my_cache_go.Common.{
  ℕ, zero, suc, ◌+◌, ◌-◌, ◌%◌, ◌^◌, ◌≡◌, Bool, true, false, not, ◌&&◌, List, [], ◌∷◌, ◌++◌, Option,
  none, some, ite, if◌then◌else◌, ◌==◌, length, get_or, set, replicate, Key, key_dec, arith,
}
use my_cache_go.Common.Int64.{Int64, lt64}
use my_cache_go.Common.Dict
use Ring.{Side, prev, next, Link, read, write, adjust}

-- The value is an interface, which may be nil.
pub record Entry {ℓ} (V : Type ℓ) : Type ℓ where
  pub key : Key
  pub value : Option V
  pub deadline : Int64

pub record Bucket {ℓ} (V : Type ℓ) : Type ℓ where
  pub links : List Link
  pub entries : List (Entry V)
  pub key_to_index : List (Key × ℕ)
  pub size : ℕ

abbrev pub zero_entry {ℓ} : {V : Type ℓ} → Entry V
zero_entry = record { key = []; value = none; deadline = 0 }

-- `idx - 1` on uint16.
abbrev pub slot : ℕ → ℕ
slot idx = (idx + 65535) % 2 ^ 16

-- The length of `make([][2]uint16, cap+1)` is computed on uint16.
unfoldable pub create_cache {ℓ} : {V : Type ℓ} → ℕ → Bucket V
create_cache cap = record {
  links = replicate ((cap + 1) % 2 ^ 16) (record { at_prev = 0; at_next = 0 });
  entries = replicate cap zero_entry;
  key_to_index = [];
  size = 0;
}

-- The calls of `onEvicted`, in order.
abbrev pub Calls {ℓ} : Type ℓ → Type ℓ
Calls V = List (Key × Option V)

-- The links after a new node `n` goes to the head; `empty` is the test of `len(b.keyToIndex)`.
unfoldable pub push_links : List Link → Bool → ℕ → List Link
push_links l empty n =
    let l' = if empty then write l 0 prev n else write l (read l 0 next) prev n in
    write (set l' n (record { at_prev = 0; at_next = read l' 0 next })) 0 next n

module _ {ℓ} {V : Type ℓ} where
  abbrev pub entry_at : Bucket V → ℕ → Entry V
  entry_at b idx = get_or b.entries (slot idx) zero_entry

  -- The branch of `put` for a key that the index has.
  unfoldable pub update : Bucket V → ℕ → Option V → Int64 → Bucket V
  update b idx val deadline = record b {
    links = adjust b.links idx next;
    entries =
        set b.entries (slot idx) (record (entry_at b idx) { value = val; deadline = deadline });
  }

  -- The branch of `put` at a full bucket: the entry at the tail is overwritten.
  unfoldable pub recycle : Bucket V → Key → Option V → Int64 → Bucket V
  recycle b key val deadline =
      let idx = read b.links 0 prev in
      record b {
        links = adjust b.links idx next;
        entries = set b.entries (slot idx) (record { key = key; value = val; deadline = deadline });
        key_to_index =
            Dict.insert key_dec key idx (Dict.delete key_dec (entry_at b idx).key b.key_to_index);
      }

  -- The branch of `put` that takes a fresh entry.
  unfoldable pub append : Bucket V → Key → Option V → Int64 → Bucket V
  append b key val deadline =
      let n = (b.size + 1) % 2 ^ 16 in
      record b {
        links = push_links b.links (length b.key_to_index == 0) n;
        entries = set b.entries (slot n) (record { key = key; value = val; deadline = deadline });
        key_to_index = Dict.insert key_dec key n b.key_to_index;
        size = n;
      }

  -- The call of `onEvicted` for the tail entry; `notify` says that the callback is not nil.
  unfoldable pub evict_call : Bool → Entry V → Calls V
  evict_call notify e = if notify && lt64 0 e.deadline then (e.key, e.value) ∷ [] else []

  -- The new bucket, the calls of `onEvicted`, and the result.
  unfoldable pub put : Bucket V → Key → Option V → Int64 → Bool → Bucket V × Calls V × ℕ
  put b key val deadline notify = elim (Dict.find key_dec key b.key_to_index) [
    | some idx ↦ (update b idx val deadline, [], 0)
    | none ↦
        if b.size == length b.entries % 2 ^ 16
        then (recycle b key val deadline, evict_call notify (entry_at b (read b.links 0 prev)), 1)
        else (append b key val deadline, [], 1)
  ]

  unfoldable pub get : Bucket V → Key → Bucket V × Option (Entry V)
  get b key = elim (Dict.find key_dec key b.key_to_index) [
    | some idx ↦ (record b { links = adjust b.links idx next }, some (entry_at b idx))
    | none ↦ (b, none)
  ]

  -- The body of `del` for an index whose entry is live.
  unfoldable pub bury : Bucket V → ℕ → Bucket V
  bury b idx = record b {
    links = adjust b.links idx prev;
    entries = set b.entries (slot idx) (record (entry_at b idx) { deadline = 0 });
  }

  -- The entry as `del` leaves it, and the deadline that it had; `none` is "not found".
  unfoldable pub del : Bucket V → Key → Bucket V × Option (Entry V × Int64)
  del b key = elim (Dict.find key_dec key b.key_to_index) [
    | some idx ↦
        let e = entry_at b idx in
        if e.deadline == 0
        then (b, none)
        else (bury b idx, some (record e { deadline = 0 }, e.deadline))
    | none ↦ (b, none)
  ]

module _ {ℓ κ} {V : Type ℓ} {S : Type κ} (walker : S → Entry V → S × Bool) where
  -- The loop of `walk` from `idx` on; the walker's captured variables are the state `s`.
  unfoldable pub walk_from : ℕ → Bucket V → ℕ → S → S
  walk_from zero b idx s = s
  walk_from (suc fuel) b idx s =
      let rest = λ (s' : S). walk_from fuel b (read b.links idx next) s' in
      if idx == 0
      then s
      else if (entry_at b idx).deadline == 0
      then rest s
      else let (s', more) = walker s (entry_at b idx) in (if more then rest s' else s')

  -- The fuel covers every node and the sentinel.
  unfoldable pub walk : Bucket V → S → S
  unfolding walk_from
  walk b s = walk_from (suc b.size) b (read b.links 0 next) s

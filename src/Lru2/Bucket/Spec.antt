-- ===== src/Lru2/Bucket/Spec.antt =====
-- What a bucket promises: a list of entries, the most recently used first, with one entry to a key
-- and at most `cap` of them. An entry with deadline 0 is deleted and waits to be reused.
use my_cache_go.Common.{
  ℕ, Bool, List, [], ◌∷◌, ◌++◌, Option, none, some, ite, if◌then◌else◌, ◌==◌, length, Key, key_dec,
}
use my_cache_go.Common.Int64.{Int64}
use my_cache_go.Lru2.Bucket.{Entry, zero_entry, Calls, evict_call}

module _ {ℓ} {V : Type ℓ} where
  unfoldable pub find_entry : Key → List (Entry V) → Option (Entry V)
  find_entry k [] = none
  find_entry k (e ∷ l) = ite (key_dec e.key k) (some e) (find_entry k l)

  unfoldable pub take_out : Key → List (Entry V) → List (Entry V)
  take_out k [] = []
  take_out k (e ∷ l) = ite (key_dec e.key k) l (e ∷ take_out k l)

  unfoldable pub drop_last : List (Entry V) → List (Entry V)
  drop_last [] = []
  drop_last (e ∷ []) = []
  drop_last (e ∷ f ∷ l) = e ∷ drop_last (f ∷ l)

  unfoldable pub last : List (Entry V) → Entry V
  last [] = zero_entry
  last (e ∷ []) = e
  last (e ∷ f ∷ l) = last (f ∷ l)

  -- The entry becomes the most recent; a full list loses its least recent entry.
  unfoldable pub put :
      ℕ → List (Entry V) → Key → Option V → Int64 → Bool → List (Entry V) × Calls V × ℕ
  put cap l k v d notify = elim (find_entry k l) [
    | some e ↦ (record { key = k; value = v; deadline = d } ∷ take_out k l, [], 0)
    | none ↦
        if length l == cap
        then (
          record { key = k; value = v; deadline = d } ∷ drop_last l,
          evict_call notify (last l),
          1,
        )
        else (record { key = k; value = v; deadline = d } ∷ l, [], 1)
  ]

  -- A hit becomes the most recent, deleted or not.
  unfoldable pub get : List (Entry V) → Key → List (Entry V) × Option (Entry V)
  get l k = elim (find_entry k l) [ some e ↦ (e ∷ take_out k l, some e) | none ↦ (l, none) ]

  -- A live entry is marked and becomes the least recent.
  unfoldable pub del : List (Entry V) → Key → List (Entry V) × Option (Entry V × Int64)
  del l k = elim (find_entry k l) [
    | some e ↦ if e.deadline == 0 then (l, none) else (
      take_out k l ++ record e { deadline = 0 } ∷ [],
      some (record e { deadline = 0 }, e.deadline),
    )
    | none ↦ (l, none)
  ]

module _ {ℓ κ} {V : Type ℓ} {S : Type κ} (walker : S → Entry V → S × Bool) where
  -- The live entries in order, until the walker returns false.
  unfoldable pub walk : List (Entry V) → S → S
  walk [] s = s
  walk (e ∷ l) s =
      let rest = λ (s' : S). walk l s' in
      if e.deadline == 0
      then rest s
      else let (s', more) = walker s e in (if more then rest s' else s')

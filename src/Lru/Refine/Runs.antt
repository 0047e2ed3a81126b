-- ===== src/Lru/Refine/Runs.antt =====
-- Runs of the cache of store/lru beside runs of the list of items.
use my_cache_go.Common.{
  ℕ, ◌+◌, ◌*◌, ◌^◌, ◌<◌, ◌≡◌, refl, sym, ◌∙◌, ap, List, [], ◌∷◌, none, some, Bool, if◌then◌else◌,
  length, Key, arith,
}
use my_cache_go.Common.Int64.{Int64, lt64}
use my_cache_go.Lru.{Lru, new, get, set_with_expiration, store, delete, clear, evict, len_of}
use my_cache_go.Lru.Inv.{IsLru}
use my_cache_go.Lru.Bound as Bound
use my_cache_go.Lru.Evicts.{evict-IsLru}
use my_cache_go.Lru.Keeps.{store-IsLru, delete-IsLru, get-IsLru, clear-IsLru, new-IsLru}
use my_cache_go.Lru.Fitting.Expired.{Enumerates}
use my_cache_go.Lru.Spec as Spec
use my_cache_go.Lru.Spec.{
  Item, Op, do_get, do_set, do_delete, do_clear, do_len, do_tick, Reply, found, done, deleted,
  counted, weight,
}
use my_cache_go.Lru.Refine.{items, weight-items_of, length-items_of}
use my_cache_go.Lru.Refine.Moves.{view, items-get, items-evict, evict-max_bytes}
use my_cache_go.Lru.Refine.Writes.{items-delete, items-store}
use my_cache_go.Lru.Refine.Weights.{weight-get, weight-delete, weight-set, weight-evict}
use my_cache_go.Lru.Refine.Limits.{get-max_bytes, delete-max_bytes, store-max_bytes}

module _ {ℓ} {V : Type ℓ} (len : V → ℕ) where
  -- How much the calls store.
  abbrev pub volume : List (Op V) → ℕ
  volume [] = 0
  volume (do_set k (some v) exp now later ∷ ops) = length k + len v + volume ops
  volume (do_set k none exp now later ∷ ops) = volume ops
  volume (do_get k now ∷ ops) = volume ops
  volume (do_delete k ∷ ops) = volume ops
  volume (do_clear ∷ ops) = volume ops
  volume (do_len ∷ ops) = volume ops
  volume (do_tick now ∷ ops) = volume ops

  module _ (order : List (Key × ℕ) → List (Key × ℕ)) where
    -- The replies of the calls, where each iteration over a map is in this order.
    unfoldable pub run : Lru V → List (Op V) → List (Reply V)
    run l [] = []
    run l (do_get k now ∷ ops) =
        let (l', value, started) = get l k now in found value started ∷ run l' ops
    run l (do_set k v exp now later ∷ ops) =
        done ∷ run (set_with_expiration len l k v exp now later order).0 ops
    run l (do_delete k ∷ ops) =
        let (l', calls, was_there) = delete len l k in deleted was_there ∷ run l' ops
    run l (do_clear ∷ ops) = done ∷ run (clear l (order l.element_map)).0 ops
    run l (do_len ∷ ops) = counted (len_of l) ∷ run l ops
    run l (do_tick now ∷ ops) = done ∷ run (evict len l now (order l.expiration_map)).0 ops

    -- What the cache keeps: its invariant and its limit, with the list that it stands for.
    record Stands (max : ℕ) (l : Lru V) (xs : List (Item V)) : Type ℓ where
      valid : IsLru len l
      limit : l.max_bytes ≡ max
      same : items l ≡ xs

    module _ (max : ℕ) (p : 0 < max) (b : max < 2 ^ 63)
        (listed : (m : List (Key × ℕ)) → Enumerates m (order m)) where
      set_deleted :
          (l : Lru V) (xs : List (Item V)) (k : Key)
          → Stands max l xs
          → Stands max (delete len l k).0 (Spec.delete xs k).0
      set_deleted l xs k s = record {
        valid = delete-IsLru len l s.valid k;
        limit = delete-max_bytes len l k ∙ s.limit;
        same = (items-delete len l s.valid k).0 ∙ ap (λ ys. (Spec.delete ys k).0) s.same;
      }

      got :
          (l : Lru V) (xs : List (Item V)) (k : Key) (now : ℕ)
          → Stands max l xs
          → Stands max (get l k now).0 (Spec.get xs k now).0
      got l xs k now s = record {
        valid = get-IsLru len l s.valid k now;
        limit = get-max_bytes l k now ∙ s.limit;
        same =
            ap (λ r. r.0) (items-get len l s.valid k now) ∙ ap (λ ys. (Spec.get ys k now).0) s.same;
      }

      cleared :
          (l : Lru V) (xs : List (Item V))
          → Stands max l xs
          → Stands max (clear l (order l.element_map)).0 []
      unfolding clear
      cleared l xs s = record {
        valid = clear-IsLru len l (order l.element_map);
        limit = s.limit;
        same = refl;
      }

      answers :
          (l : Lru V) (xs : List (Item V)) (k : Key) (now : ℕ)
          → Stands max l xs
          → view (get l k now) ≡ Spec.get xs k now
      answers l xs k now s = items-get len l s.valid k now ∙ ap (λ ys. Spec.get ys k now) s.same

      -- The bytes of the elements are the bytes of the items.
      weight-same :
          (l : Lru V) (xs : List (Item V)) → Stands max l xs → Bound.weight len l ≡ weight len xs
      weight-same l xs s =
          sym (weight-items_of len l.expiration_map l.lru_list) ∙ ap (weight len) s.same

      ticked :
          (l : Lru V) (xs : List (Item V)) (now : ℕ)
          → weight len xs < 2 ^ 63
          → Stands max l xs
          → Stands max
              (evict len l now (order l.expiration_map)).0
              (Spec.fit len max (Spec.fresh now xs))
      ticked l xs now w s = record {
        valid = evict-IsLru len l now (order l.expiration_map) s.valid;
        limit = evict-max_bytes len l now (order l.expiration_map) ∙ s.limit;
        same =
            items-evict len l now (order l.expiration_map) s.valid (listed l.expiration_map)
              (omega (arith, p, s.limit)) (omega (arith, b, s.limit))
              (omega (arith, w, weight-same l xs s))
            ∙ (ap (λ m. Spec.fit len m (Spec.fresh now (items l))) s.limit
                ∙ ap (λ ys. Spec.fit len max (Spec.fresh now ys)) s.same);
      }

      stored :
          (l : Lru V) (xs : List (Item V)) (k : Key) (v : V) (exp : Int64) (now later : ℕ)
          → length k + len v + weight len xs < 2 ^ 63
          → Stands max l xs
          → Stands max
              (store len l k v exp now later order).0
              (Spec.set len max xs k (some v) exp now later)
      stored l xs k v exp now later w s = record {
        valid = store-IsLru len l s.valid k v exp now later order;
        limit = store-max_bytes len l k v exp now later order ∙ s.limit;
        same =
            items-store len l s.valid k v exp now later order (listed _) (omega (arith, p, s.limit))
              (omega (arith, b, s.limit)) (omega (arith, w, weight-same l xs s))
            ∙ (ap (λ m. Spec.set len m (items l) k (some v) exp now later) s.limit
                ∙ ap (λ ys. Spec.set len max ys k (some v) exp now later) s.same);
      }

      run-Stands :
          (ops : List (Op V)) (l : Lru V) (xs : List (Item V))
          → Stands max l xs
          → weight len xs + volume ops < 2 ^ 63
          → run l ops ≡ Spec.run len max xs ops
      unfolding run Spec.run set_with_expiration len_of
      run-Stands [] l xs s w = refl
      run-Stands (do_get k now ∷ ops) l xs s w = λ i.
          found (ap (λ r. r.1) (answers l xs k now s) i) (ap (λ r. r.2) (answers l xs k now s) i)
          ∷ run-Stands ops (get l k now).0 (Spec.get xs k now).0 (got l xs k now s)
              (omega (arith, w, weight-get len xs k now)) i
      run-Stands (do_set k none exp now later ∷ ops) l xs s w =
          ap (λ rs. done ∷ rs)
            (run-Stands ops (delete len l k).0 (Spec.delete xs k).0 (set_deleted l xs k s)
              (omega (arith, w, weight-delete len xs k)))
      run-Stands (do_set k (some v) exp now later ∷ ops) l xs s w =
          ap (λ rs. done ∷ rs)
            (run-Stands ops (store len l k v exp now later order).0
              (Spec.set len max xs k (some v) exp now later)
              (stored l xs k v exp now later (omega (arith, w)) s)
              (omega (arith, w, weight-set len max xs k v exp now later)))
      run-Stands (do_delete k ∷ ops) l xs s w = λ i.
          deleted (((items-delete len l s.valid k).1 ∙ ap (λ ys. (Spec.delete ys k).1) s.same) i)
          ∷ run-Stands ops (delete len l k).0 (Spec.delete xs k).0 (set_deleted l xs k s)
              (omega (arith, w, weight-delete len xs k)) i
      run-Stands (do_clear ∷ ops) l xs s w =
          ap (λ rs. done ∷ rs)
            (run-Stands ops (clear l (order l.element_map)).0 [] (cleared l xs s)
              (omega (arith, w)))
      run-Stands (do_len ∷ ops) l xs s w = λ i.
          counted ((sym (length-items_of len l.expiration_map l.lru_list) ∙ ap length s.same) i)
          ∷ run-Stands ops l xs s w i
      run-Stands (do_tick now ∷ ops) l xs s w =
          ap (λ rs. done ∷ rs)
            (run-Stands ops (evict len l now (order l.expiration_map)).0
              (Spec.fit len max (Spec.fresh now xs)) (ticked l xs now (omega (arith, w)) s)
              (omega (arith, w, weight-evict len max now xs)))

-- The limit of `New`, with its 8 MB where no positive limit is given.
abbrev pub limit_of : Int64 → ℕ
limit_of max = if lt64 0 max then max else 8 * 1024 * 1024

limit_of-bounds : (max : Int64) → max < 2 ^ 64 → (0 < limit_of max) × (limit_of max < 2 ^ 63)
limit_of-bounds max b = ground (arith, b)

-- A cache that `New` made answers each run of calls and ticks of the cleanup loop as a list of items
-- does, the most recently used first: a miss, an expired hit and a hit of `Get` with its value, the
-- result of `Delete` and the number of `Len` are those of the list, where a new key and a tick drop
-- the items that have expired and cut the list to its longest prefix within the limit. The limit is
-- that of `New`, all that is stored has less than 2 ^ 63 bytes, and the order of an iteration over a
-- map, which may be any, does not show.
pub run-new_refines {ℓ} :
    (V : Type ℓ) (len : V → ℕ) (order : List (Key × ℕ) → List (Key × ℕ)) (max : Int64)
    (notify : Bool) (ops : List (Op V))
    → ((m : List (Key × ℕ)) → Enumerates m (order m))
    → max < 2 ^ 64
    → volume len ops < 2 ^ 63
    → run len order (new max notify) ops ≡ Spec.run len (limit_of max) [] ops
unfolding new
run-new_refines V len order max notify ops listed b w =
    run-Stands len order (limit_of max) (limit_of-bounds max b).0 (limit_of-bounds max b).1 listed
      ops (new max notify) []
      (record { valid = new-IsLru V len max notify; limit = refl; same = refl }) (omega (arith, w))

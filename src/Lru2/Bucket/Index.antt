-- ===== src/Lru2/Bucket/Index.antt =====
-- The nodes in use and the map from keys to nodes.
use my_cache_go.Common.{
  ℕ, suc, ◌≤◌, ◌<◌, ◌≡◌, ◌≢◌, sym, ◌∙◌, List, ◌∷◌, ◌++◌, none, some, length, length-middle, All,
  All-middle, All-unmiddle, All-In, All-of_In, All-map, Distinct, Distinct-middle,
  Distinct-unmiddle, In, In-middle, In-unmiddle, Key, key_dec, arith,
}
use my_cache_go.Common.Dict.{find, delete, insert, find-delete, find-insert}

-- The nodes of `order` are numbers from 1 to `size`, each once, and `m` maps exactly their keys.
pub record IsIndex (key_at : ℕ → Key) (m : List (Key × ℕ)) (size : ℕ) (order : List ℕ)
    : Type 0 where
  pub nodes : All (λ i. (0 < i) × (i ≤ size)) order
  pub distinct : Distinct order
  pub sized : length order ≡ size
  pub found : (k : Key) (i : ℕ) → find key_dec k m ≡ some i → In i order × (key_at i ≡ k)
  pub indexed : All (λ i. find key_dec (key_at i) m ≡ some i) order

module _ (key_at : ℕ → Key) (m : List (Key × ℕ)) (size : ℕ) where
  pub IsIndex-middle :
      (xs ys : List ℕ) (a : ℕ)
      → IsIndex key_at m size (xs ++ a ∷ ys)
      → IsIndex key_at m size (a ∷ xs ++ ys)
  IsIndex-middle xs ys a v = record {
    nodes = All-middle _ xs ys a v.nodes;
    distinct = Distinct-middle xs ys a v.distinct;
    sized = sym (length-middle xs ys a) ∙ v.sized;
    found = λ k i e. let r = v.found k i e in (In-middle i a xs ys r.0, r.1);
    indexed = All-middle _ xs ys a v.indexed;
  }

  pub IsIndex-unmiddle :
      (xs ys : List ℕ) (a : ℕ)
      → IsIndex key_at m size (a ∷ xs ++ ys)
      → IsIndex key_at m size (xs ++ a ∷ ys)
  IsIndex-unmiddle xs ys a v = record {
    nodes = All-unmiddle _ xs ys a v.nodes;
    distinct = Distinct-unmiddle xs ys a v.distinct;
    sized = length-middle xs ys a ∙ v.sized;
    found = λ k i e. let r = v.found k i e in (In-unmiddle i a xs ys r.0, r.1);
    indexed = All-unmiddle _ xs ys a v.indexed;
  }

  -- A key that the map lacks is the key of no node.
  pub absent-ne :
      (order : List ℕ) (k : Key)
      → IsIndex key_at m size order
      → find key_dec k m ≡ none
      → All (λ i. key_at i ≢ k) order
  absent-ne order k v e =
      All-map _ _ order (λ i (h : find key_dec (key_at i) m ≡ some i) (q : key_at i ≡ k). cc)
        v.indexed

  -- Two nodes have two keys.
  pub other-ne :
      (xs : List ℕ) (a : ℕ) → IsIndex key_at m size (a ∷ xs) → All (λ i. key_at i ≢ key_at a) xs
  other-ne xs a v = All-of_In _ xs λ i h (q : key_at i ≡ key_at a).
      let e = All-In _ i xs h v.indexed.1 in
      All-In (λ x. a ≢ x) i xs h v.distinct.0 (cc (v.indexed.0))

-- `key_at'` gives the key `k` to node `a`, and keeps the others' keys.
module _ (key_at key_at' : ℕ → Key) (m : List (Key × ℕ)) (size a : ℕ) (k : Key)
    (here : key_at' a ≡ k) (xs : List ℕ) (there : (j : ℕ) → In j xs → key_at' j ≡ key_at j)
    (e : find key_dec k m ≡ none) where
  module _ (v : IsIndex key_at m size (a ∷ xs)) where
    recycle_found :
        (j : Key) (i : ℕ)
        → find key_dec j (insert key_dec k a (delete key_dec (key_at a) m)) ≡ some i
        → In i (a ∷ xs) × (key_at' i ≡ j)
    recycle_found j i h = ground (
      arith,
      find-insert key_dec k j a (delete key_dec (key_at a) m),
      find-delete key_dec (key_at a) j m,
      v.found j i,
      here,
      there i,
    )

    recycle_indexed :
        (i : ℕ)
        → In i xs
        → find key_dec (key_at' i) (insert key_dec k a (delete key_dec (key_at a) m)) ≡ some i
    recycle_indexed i h = ground (
      arith,
      find-insert key_dec k (key_at' i) a (delete key_dec (key_at a) m),
      find-delete key_dec (key_at a) (key_at' i) m,
      All-In (λ x. a ≢ x) i xs h v.distinct.0,
      All-In _ i xs h v.indexed.1,
      v.indexed.0,
      there i h,
    )

    -- A node gives up its key for a new one.
    pub IsIndex-recycle :
        IsIndex key_at' (insert key_dec k a (delete key_dec (key_at a) m)) size (a ∷ xs)
    IsIndex-recycle = record {
      nodes = v.nodes;
      distinct = v.distinct;
      sized = v.sized;
      found = recycle_found;
      indexed = (
        ground (arith, here, find-insert key_dec k k a (delete key_dec (key_at a) m)),
        All-of_In _ xs recycle_indexed,
      );
    }

  module _ (v : IsIndex key_at m size xs) (fresh : a ≡ suc size) where
    append_fresh : (i : ℕ) → In i xs → a ≢ i
    append_fresh i h = omega (arith, All-In _ i xs h v.nodes)

    append_found :
        (j : Key) (i : ℕ)
        → find key_dec j (insert key_dec k a m) ≡ some i
        → In i (a ∷ xs) × (key_at' i ≡ j)
    append_found j i h =
        ground (arith, find-insert key_dec k j a m, v.found j i, here, there i, append_fresh i)

    append_indexed : (i : ℕ) → In i xs → find key_dec (key_at' i) (insert key_dec k a m) ≡ some i
    append_indexed i h = ground (
      arith,
      find-insert key_dec k (key_at' i) a m,
      append_fresh i h,
      All-In _ i xs h v.indexed,
      there i h,
    )

    -- A fresh node takes a new key.
    pub IsIndex-append : IsIndex key_at' (insert key_dec k a m) a (a ∷ xs)
    IsIndex-append = record {
      nodes = (
        omega arith,
        All-map _ _ xs (λ i (h : (0 < i) × (i ≤ size)). (h.0, omega arith)) v.nodes,
      );
      distinct = (All-of_In _ xs append_fresh, v.distinct);
      sized = omega (arith, v.sized);
      found = append_found;
      indexed = (ground (arith, here, find-insert key_dec k k a m), All-of_In _ xs append_indexed);
    }

-- ===== src/Lru/Refine/Tests.antt =====
-- A run of the cache of store/lru beside the list of items.
use my_cache_go.Common.{
  ℕ, ◌≡◌, ◌≢◌, refl, sym, List, [], ◌∷◌, none, some, true, false, length, All, Key, key_dec, arith,
}
use my_cache_go.Common.Dict
use my_cache_go.Common.Dict.{find, find-insert}
use my_cache_go.Lru.{new}
use my_cache_go.Lru.Fitting.Expired.{Enumerates}
use my_cache_go.Lru.Spec as Spec
use my_cache_go.Lru.Spec.{
  Op, do_get, do_set, do_delete, do_clear, do_len, do_tick, Reply, found, done, deleted, counted,
}
use my_cache_go.Lru.Refine.Runs.{run, run-new_refines}

-- An order of the iteration: the first pair of each key.
unfoldable distinct : List (Key × ℕ) → List (Key × ℕ)
distinct [] = []
distinct ((k, t) ∷ m) = Dict.insert key_dec k t (distinct m)

find-distinct : (m : List (Key × ℕ)) (k : Key) → find key_dec k (distinct m) ≡ find key_dec k m
unfolding distinct find
find-distinct [] k = refl
find-distinct ((j, t) ∷ m) k =
    ground (arith, find-insert key_dec j k t (distinct m), find-distinct m k)

delete-All :
    (P Q : Key × ℕ → Type 0) (k : Key) (m : List (Key × ℕ))
    → ((p : Key × ℕ) → k ≢ p.0 → P p → Q p)
    → All P m
    → All Q (Dict.delete key_dec k m)
unfolding Dict.delete
delete-All P Q k [] h a = tt
delete-All P Q k ((j, t) ∷ m) h a = choose (key_dec j k) (delete-All P Q k m h a.1)
  where
    choose :
        (d : Dec (j ≡ k))
        → All Q (Dict.delete key_dec k m)
        → All Q (elim d as (λ d. List (Key × ℕ)) [
          | yes _ ↦ Dict.delete key_dec k m
          | no _ ↦ (j, t) ∷ Dict.delete key_dec k m
        ])
    choose (yes p) rest = rest
    choose (no p) rest = (h (j, t) (λ q. p (sym q)) a.0, rest)

distinct-pairs : (m : List (Key × ℕ)) → All (λ p. find key_dec p.0 m ≡ some p.1) (distinct m)
unfolding distinct find Dict.insert
distinct-pairs [] = tt
distinct-pairs ((k, t) ∷ m) = (
  ground arith,
  delete-All (λ p. find key_dec p.0 m ≡ some p.1) (λ p. find key_dec p.0 ((k, t) ∷ m) ≡ some p.1) k
      (distinct m) (λ p n h. ground (arith, n, h)) (distinct-pairs m),
)

distinct-Enumerates : (m : List (Key × ℕ)) → Enumerates m (distinct m)
distinct-Enumerates m = (distinct-pairs m, find-distinct m)

abbrev key_a : Key
key_a = b'a' ∷ []

abbrev key_b : Key
key_b = b'b' ∷ []

-- In 3 bytes the second key evicts the first one and expires before the tick.
abbrev calls : List (Op Key)
calls =
    do_set key_a (some key_b) 0 5 6
    ∷ do_get key_a 7
    ∷ do_set key_b (some key_a) 100 10 11
    ∷ do_get key_a 12
    ∷ do_get key_b 13
    ∷ do_len
    ∷ do_get key_b 111
    ∷ do_tick 112
    ∷ do_len
    ∷ do_delete key_b
    ∷ do_clear
    ∷ []

run-new_refines_example : run length distinct (new 3 true) calls ≡ Spec.run length 3 [] calls
run-new_refines_example =
    run-new_refines Key length distinct 3 true calls distinct-Enumerates (omega arith) (omega arith)

-- The list drops the first key, answers the second one and then finds it expired.
listed_replies :
    Spec.run length 3 [] calls
    ≡ done
      ∷ found (some key_b) false
      ∷ done
      ∷ found none false
      ∷ found (some key_a) false
      ∷ counted 1
      ∷ found none true
      ∷ done
      ∷ counted 0
      ∷ deleted false
      ∷ done
      ∷ []
unfolding Spec.run key_dec
listed_replies = refl

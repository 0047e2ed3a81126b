-- ===== src/Lru2/Bucket/Theorems.antt =====
-- A bucket of store/lru2/bucket.go and the list of its entries.
use my_cache_go.Common.{
  ℕ, ap, ◌+◌, ◌%◌, ◌^◌, ◌≤◌, ◌<◌, ◌≡◌, refl, subst, ◌∙◌, List, [], ◌∷◌, Option, Bool, length,
  length-replicate, get_or-replicate, Key, arith,
}
use my_cache_go.Common.Int64.{Int64}
use my_cache_go.Common.Dict.{find}
use my_cache_go.Lru2.Bucket.{Entry, Bucket, Calls, zero_entry, create_cache, put, get, del, walk}
use my_cache_go.Lru2.Bucket.Ring.{read, zero_link}
use my_cache_go.Lru2.Bucket.Inv.{Holds}
use my_cache_go.Lru2.Bucket.Refine.{PutAgrees, put_order, length-contents}
use my_cache_go.Lru2.Bucket.Walk.{GetAgrees, DelAgrees, get_order, del_order, walk_order}
use my_cache_go.Lru2.Bucket.Spec

module _ {ℓ} (V : Type ℓ) where
  -- A new bucket holds no entry, for every capacity that leaves room for the sentinel in a uint16.
  pub create_cache-Holds :
      (cap : ℕ) → 0 < cap → cap < 65535 → Holds {V = V} cap (create_cache cap) []
  unfolding create_cache read find
  create_cache-Holds cap p q = (
    [],
    record {
      cap_pos = p;
      cap_small = q;
      links_len = length-replicate ((cap + 1) % 2 ^ 16) zero_link ∙ omega arith;
      entries_len = length-replicate cap zero_entry;
      size_le = omega arith;
      circle = (
        ap (λ k. k.at_next) (get_or-replicate ((cap + 1) % 2 ^ 16) 0 zero_link),
        ap (λ k. k.at_prev) (get_or-replicate ((cap + 1) % 2 ^ 16) 0 zero_link),
      );
      index = record { nodes = tt; distinct = tt; sized = refl; found = λ k i h. cc; indexed = tt };
    },
    refl,
  )

module _ {ℓ} {V : Type ℓ} {cap : ℕ} {b : Bucket V} {l : List (Entry V)}
    (holds : Holds cap b l) where
  -- `put` implements the list's `put`: the new contents, the calls of `onEvicted` and the result.
  pub put_refines :
      (k : Key) (val : Option V) (d : Int64) (notify : Bool)
      → PutAgrees cap b (put b k val d notify) (Spec.put cap l k val d notify)
  put_refines k val d notify =
      subst (λ l'. PutAgrees cap b (put b k val d notify) (Spec.put cap l' k val d notify)) holds.2
        (put_order cap b holds.0 k val d notify holds.1)

  -- `get` implements the list's `get`.
  pub get_refines : (k : Key) → GetAgrees cap b (get b k) (Spec.get l k)
  get_refines k =
      subst (λ l'. GetAgrees cap b (get b k) (Spec.get l' k)) holds.2
        (get_order cap b holds.0 k holds.1)

  -- `del` implements the list's `del`.
  pub del_refines : (k : Key) → DelAgrees cap b (del b k) (Spec.del l k)
  del_refines k =
      subst (λ l'. DelAgrees cap b (del b k) (Spec.del l' k)) holds.2
        (del_order cap b holds.0 k holds.1)

  -- `walk` ends, and visits the live entries of the list in order, until the walker stops it.
  pub walk_refines {κ} :
      {S : Type κ} (walker : S → Entry V → S × Bool) (s : S)
      → walk walker b s ≡ Spec.walk walker l s
  walk_refines walker s =
      subst (λ l'. walk walker b s ≡ Spec.walk walker l' s) holds.2
        (walk_order walker b cap holds.0 s holds.1)

  -- A bucket never holds more entries than its capacity.
  pub length-contents-le : length l ≤ cap
  length-contents-le =
      subst (λ l'. length l' ≤ cap) holds.2
        (omega (arith, length-contents cap b holds.0 holds.1, holds.1.size_le))

-- One call of an operation.
pub data Op {ℓ} (V : Type ℓ) : Type ℓ where
  do_put : Key → Option V → Int64 → Bool → Op V
  do_get : Key → Op V
  do_del : Key → Op V

-- What its caller sees.
pub data Reply {ℓ} (V : Type ℓ) : Type ℓ where
  stored : Calls V → ℕ → Reply V
  looked_up : Option (Entry V) → Reply V
  deleted : Option (Entry V × Int64) → Reply V

module _ {ℓ} {V : Type ℓ} where
  unfoldable pub run : Bucket V → List (Op V) → List (Reply V)
  run b [] = []
  run b (do_put k v d notify ∷ ops) =
      let (b', calls, n) = put b k v d notify in stored calls n ∷ run b' ops
  run b (do_get k ∷ ops) = let (b', e) = get b k in looked_up e ∷ run b' ops
  run b (do_del k ∷ ops) = let (b', e) = del b k in deleted e ∷ run b' ops

  unfoldable pub run_spec : ℕ → List (Entry V) → List (Op V) → List (Reply V)
  run_spec cap l [] = []
  run_spec cap l (do_put k v d notify ∷ ops) =
      let (l', calls, n) = Spec.put cap l k v d notify in stored calls n ∷ run_spec cap l' ops
  run_spec cap l (do_get k ∷ ops) = let (l', e) = Spec.get l k in looked_up e ∷ run_spec cap l' ops
  run_spec cap l (do_del k ∷ ops) = let (l', e) = Spec.del l k in deleted e ∷ run_spec cap l' ops

  -- No sequence of calls tells a bucket from the list that it holds.
  pub run_refines :
      (ops : List (Op V)) {cap : ℕ} {b : Bucket V} {l : List (Entry V)}
      → Holds cap b l
      → run b ops ≡ run_spec cap l ops
  unfolding run run_spec
  run_refines [] h = refl
  run_refines (do_put k v d notify ∷ ops) h =
      let r = put_refines h k v d notify in λ i. stored (r.1 i) (r.2 i) ∷ run_refines ops r.0 i
  run_refines (do_get k ∷ ops) h =
      let r = get_refines h k in λ i. looked_up (r.1 i) ∷ run_refines ops r.0 i
  run_refines (do_del k ∷ ops) h =
      let r = del_refines h k in λ i. deleted (r.1 i) ∷ run_refines ops r.0 i

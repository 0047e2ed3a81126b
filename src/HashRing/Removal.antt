-- ===== src/HashRing/Removal.antt =====
-- The owners of the keys before and after a node is removed, consistenthash/ring.go.
use my_cache_go.Common.{
  ℕ, zero, suc, ◌+◌, ◌≤◌, ◌<◌, ◌≡◌, ◌≢◌, refl, ap, sym, subst, ◌∙◌, List, [], ◌∷◌, none, some,
  Option-cases, inl, inr, Key, key_dec, ℕ_discrete, arith, if_neg,
}
use my_cache_go.Common.Dict
use my_cache_go.Common.Dict.{find, find-delete}
use my_cache_go.HashRing
use my_cache_go.HashRing.{
  HashRing, or_empty, or_zero, remove_key, hash_virtual_node, remove_replicas, remove_node_unlocked,
  remove,
}
use my_cache_go.HashRing.Sorted.{Sorted, remove_key-Sorted}
use my_cache_go.HashRing.Owner.{first_from, owner_key, owner, get-owner}

first_from-remove_key :
    (h k : ℕ) (xs : List ℕ)
    → first_from h xs ≢ some k
    → first_from h (remove_key k xs) ≡ first_from h xs
unfolding first_from remove_key
first_from-remove_key h k [] ne = refl
first_from-remove_key h k (x ∷ xs) ne = ground (arith, first_from-remove_key h k xs)

owner_key-hit : (h x : ℕ) (l : List ℕ) → first_from h l ≡ some x → owner_key l h ≡ some x
unfolding owner_key
owner_key-hit h x [] e = unfold first_from in ground (arith, e)
owner_key-hit h x (y ∷ ys) e = ground (arith, e)

owner_key-miss :
    (h x : ℕ) (ys : List ℕ) → first_from h (x ∷ ys) ≡ none → owner_key (x ∷ ys) h ≡ some x
unfolding owner_key
owner_key-miss h x ys e = ground (arith, e)

miss :
    (h k x y : ℕ) (ys : List ℕ)
    → y ≡ x
    → x ≢ k
    → first_from h (y ∷ ys) ≡ none
    → owner_key (remove_key k (y ∷ ys)) h ≡ some x
miss h k x y ys same ne f =
    ap (λ l. owner_key l h) stays
    ∙ (owner_key-miss h y (remove_key k ys) (
          ap (first_from h) (sym stays)
          ∙ (first_from-remove_key h k (y ∷ ys) (λ q. ground (arith, f, q)) ∙ f))
        ∙ ap some same)
  where
    stays : remove_key k (y ∷ ys) ≡ y ∷ remove_key k ys
    stays = unfold remove_key in if_neg {C = List ℕ} (ℕ_discrete y k) (λ q. ne (sym same ∙ q)) _ _

owner_key-remove_key :
    (h k x : ℕ) (xs : List ℕ)
    → owner_key xs h ≡ some x
    → x ≢ k
    → owner_key (remove_key k xs) h ≡ some x
unfolding owner_key
owner_key-remove_key h k x [] e ne = absurd (ground arith)
owner_key-remove_key h k x (y ∷ ys) e ne = elim (Option-cases (first_from h (y ∷ ys))) [
  | inr (z, f) ↦
      let same = let t : z ≡ x = ground (arith, e, f) in t in
      owner_key-hit h x (remove_key k (y ∷ ys))
        (first_from-remove_key h k (y ∷ ys) (λ q. ground (arith, f, q)) ∙ (f ∙ ap some same))
  | inl f ↦ let same = let t : y ≡ x = ground (arith, e, f) in t in miss h k x y ys same ne f
]

module _ (hash : Key → ℕ) (node : Key) where
  -- No virtual node of the node, from the one numbered `i` on, was taken over by another node.
  abbrev pub Clean : ℕ → ℕ → HashRing → Type 0
  Clean n i r =
      (j : ℕ) (m : Key)
      → i ≤ j
      → j < i + n
      → find ℕ_discrete (hash_virtual_node hash node j) r.hash_map ≡ some m
      → m ≡ node

  -- The node is at its virtual nodes alone.
  abbrev pub Placed : ℕ → ℕ → HashRing → Type 0
  Placed n i r =
      (x : ℕ)
      → find ℕ_discrete x r.hash_map ≡ some node
      → (j : ℕ) × (i ≤ j) × (j < i + n) × (x ≡ hash_virtual_node hash node j)

-- The node `m` serves the position `h`.
pub record Owned (r : HashRing) (h : ℕ) (m : Key) : Type 0 where
  pub at : ℕ
  pub first : owner_key r.keys h ≡ some at
  pub named : find ℕ_discrete at r.hash_map ≡ some m

pub owner-Owned : (r : HashRing) (h : ℕ) (m : Key) → Owned r h m → owner r h ≡ m
unfolding owner
owner-Owned r h m o = ground (arith, o.first, o.named)

module _ (hash : Key → ℕ) where
  remove_replicas-Owned :
      (n i : ℕ) (node : Key) (r : HashRing) (h : ℕ) (m : Key)
      → Clean hash node n i r
      → m ≢ node
      → Owned r h m
      → Owned (remove_replicas hash n i node r) h m
  unfolding remove_replicas
  remove_replicas-Owned zero i node r h m c ne o = o
  remove_replicas-Owned (suc n) i node r h m c ne o =
      remove_replicas-Owned n (suc i) node _ h m
        (λ j m' p q e. c j m' (omega arith) (omega arith) (
          ground (
            arith,
            find-delete ℕ_discrete (hash_virtual_node hash node i) (hash_virtual_node hash node j)
                r.hash_map,
          )))
        ne
        (record {
          at = o.at;
          first = owner_key-remove_key h (hash_virtual_node hash node i) o.at r.keys o.first apart;
          named =
              find-delete ℕ_discrete (hash_virtual_node hash node i) o.at r.hash_map
              ∙ (if_neg (ℕ_discrete (hash_virtual_node hash node i) o.at) (λ p. apart (sym p)) _ _
                  ∙ o.named);
        })
    where
      apart : o.at ≢ hash_virtual_node hash node i
      apart p = ne (
          c i m (omega arith) (omega arith)
            (ap (λ x. find ℕ_discrete x r.hash_map) (sym p) ∙ o.named))

  pub remove_replicas-Placed :
      (n i : ℕ) (node : Key) (r : HashRing)
      → Placed hash node n i r
      → (x : ℕ) → find ℕ_discrete x (remove_replicas hash n i node r).hash_map ≢ some node
  unfolding remove_replicas
  remove_replicas-Placed zero i node r p x e = let q = p x e in omega (arith, q.1, q.2)
  remove_replicas-Placed (suc n) i node r p x e = remove_replicas-Placed n (suc i) node _ next x e
    where
      next : Placed hash node n (suc i) (record r {
        hash_map = Dict.delete ℕ_discrete (hash_virtual_node hash node i) r.hash_map;
        keys = remove_key (hash_virtual_node hash node i) r.keys;
      })
      next y f =
          let g = sym (find-delete ℕ_discrete (hash_virtual_node hash node i) y r.hash_map) ∙ f in
          elim (ℕ_discrete (hash_virtual_node hash node i) y) [
            | yes q ↦ absurd (ground (arith, g, q))
            | no q ↦
                let (j, lo, hi, at) = p y (ground (arith, g, q)) in
                (
                  j,
                  elim (ℕ_discrete i j) [
                    | yes same ↦ absurd (q (ap (λ t. hash_virtual_node hash node t) same ∙ sym at))
                    | no other ↦ omega arith
                  ],
                  omega arith,
                  at,
                )
          ]

  pub remove_replicas-Sorted :
      (n i : ℕ) (node : Key) (r : HashRing)
      → Sorted r.keys
      → Sorted (remove_replicas hash n i node r).keys
  unfolding remove_replicas
  remove_replicas-Sorted zero i node r s = s
  remove_replicas-Sorted (suc n) i node r s =
      remove_replicas-Sorted n (suc i) node _ (remove_key-Sorted _ r.keys s)

  abbrev replicas_of : HashRing → Key → ℕ
  replicas_of r node = or_zero (find key_dec node r.node_replicas)

  -- `Remove` leaves the keys and the map that the loop leaves.
  removed :
      (r r' : HashRing) (b : ℕ) (node : Key)
      → remove hash r (b ∷ node) ≡ some r'
      → (r'.keys ≡ (remove_replicas hash (replicas_of r (b ∷ node)) 0 (b ∷ node) r).keys)
        × (r'.hash_map ≡ (remove_replicas hash (replicas_of r (b ∷ node)) 0 (b ∷ node) r).hash_map)
  unfolding remove remove_node_unlocked
  removed r r' b node e = (ground (arith, e), ground (arith, e))

  pub remove-Sorted :
      (r r' : HashRing) (node : Key) → remove hash r node ≡ some r' → Sorted r.keys → Sorted r'.keys
  remove-Sorted r r' [] e s = absurd (unfold remove in ground (arith, e))
  remove-Sorted r r' (b ∷ node) e s =
      subst Sorted (sym (removed r r' b node e).0)
        (remove_replicas-Sorted (replicas_of r (b ∷ node)) 0 (b ∷ node) r s)

  -- When a node is removed, a key that another node serves stays with that node, if no virtual node
  -- of the removed node shares its hash with another node's.
  pub get-remove_ne :
      (r r' : HashRing) (b : ℕ) (node : Key) (a : ℕ) (key m : Key)
      → Sorted r.keys
      → remove hash r (b ∷ node) ≡ some r'
      → Clean hash (b ∷ node) (or_zero (find key_dec (b ∷ node) r.node_replicas)) 0 r
      → Owned r (hash (a ∷ key)) m
      → m ≢ b ∷ node
      → (HashRing.get hash r' (a ∷ key)).1 ≡ (HashRing.get hash r (a ∷ key)).1
  get-remove_ne r r' b node a key m s e c o ne =
      get-owner hash r' a key (remove-Sorted r r' (b ∷ node) e s)
      ∙ (owner-Owned r' (hash (a ∷ key)) m kept
          ∙ (sym (owner-Owned r (hash (a ∷ key)) m o) ∙ sym (get-owner hash r a key s)))
    where
      kept : Owned r' (hash (a ∷ key)) m
      kept =
          let q =
            remove_replicas-Owned (replicas_of r (b ∷ node)) 0 (b ∷ node) r (hash (a ∷ key)) m c ne
              o in
          let (keys, names) = removed r r' b node e in
          record {
            at = q.at;
            first = ap (λ l. owner_key l (hash (a ∷ key))) keys ∙ q.first;
            named = ap (λ l. find ℕ_discrete q.at l) names ∙ q.named;
          }

  -- After a node is removed no key is served by it, if it was at its virtual nodes alone.
  pub get-remove_self :
      (r r' : HashRing) (b : ℕ) (node : Key) (a : ℕ) (key : Key)
      → Sorted r.keys
      → remove hash r (b ∷ node) ≡ some r'
      → Placed hash (b ∷ node) (or_zero (find key_dec (b ∷ node) r.node_replicas)) 0 r
      → (HashRing.get hash r' (a ∷ key)).1 ≢ b ∷ node
  get-remove_self r r' b node a key s e p q =
      gone (hash (a ∷ key)) (sym (get-owner hash r' a key (remove-Sorted r r' (b ∷ node) e s)) ∙ q)
    where
      absent : (x : ℕ) → find ℕ_discrete x r'.hash_map ≢ some (b ∷ node)
      absent x f =
          remove_replicas-Placed (replicas_of r (b ∷ node)) 0 (b ∷ node) r p x
            (ap (λ l. find ℕ_discrete x l) (sym (removed r r' b node e).1) ∙ f)

      named : (x : ℕ) → or_empty (find ℕ_discrete x r'.hash_map) ≢ b ∷ node
      named x t = elim (Option-cases (find ℕ_discrete x r'.hash_map)) [
        | inl u ↦ absurd (ground (arith, u, t))
        | inr (z, u) ↦ absent x (u ∙ ap some (ap or_empty (sym u) ∙ t))
      ]

      gone : (h : ℕ) → owner r' h ≢ b ∷ node
      gone h t = elim (Option-cases (owner_key r'.keys h)) [
        | inl u ↦ absurd (unfold owner in ground (arith, u, t))
        | inr (x, u) ↦ named x (unfold owner in ground (arith, u, t))
      ]

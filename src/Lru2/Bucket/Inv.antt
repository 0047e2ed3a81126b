-- ===== src/Lru2/Bucket/Inv.antt =====
-- The representation invariant of a bucket, and the moves on it.
pub mod Append
use mathlib.Core.List.{append-nil, map-append}
use mathlib.Core.Path.{fun_ext}
use my_cache_go.Common.{
  ℕ, suc, ◌^◌, ◌≤◌, ◌<◌, ◌≡◌, ◌≢◌, refl, sym, subst, ◌∙◌, List, [], ◌∷◌, ◌++◌, none, some, length,
  length-set, get_or, set, get_or-set_self, get_or-set_ne, get_or-set_keep, All, All-left,
  All-right, All-In, All-of_In, In, Key, ap, ap₂, true, ◌==◌, key_dec, map, map-cong, arith,
}
use my_cache_go.Lru2.Bucket.{Entry, Bucket, zero_entry, slot, entry_at, push_links}
use my_cache_go.Lru2.Bucket.Ring.{prev, next, adjust, read}
use my_cache_go.Lru2.Bucket.Push.{Circle-push, length-push_links}
use my_cache_go.Lru2.Bucket.Adjust.{length-adjust}
use my_cache_go.Lru2.Bucket.Move.{Circle, Apart, Circle-adjust, Circle-adjust_tail}
use my_cache_go.Lru2.Bucket.Index.{
  IsIndex, IsIndex-middle, IsIndex-unmiddle, IsIndex-recycle, IsIndex-append,
}
use my_cache_go.Common.Dict.{find, delete, insert}

-- The keys that the entries give to the nodes.
abbrev pub key_of {ℓ} : {V : Type ℓ} → List (Entry V) → ℕ → Key
key_of es j = (get_or es (slot j) zero_entry).key

-- The nodes of `order`, from the head to the tail, are linked in a ring with the sentinel, and the
-- index maps their keys. With 65535 entries `make` would get no links at all.
pub record Inv {ℓ} {V : Type ℓ} (cap : ℕ) (b : Bucket V) (order : List ℕ) : Type ℓ where
  pub cap_pos : 0 < cap
  pub cap_small : cap < 65535
  pub links_len : length b.links ≡ suc cap
  pub entries_len : length b.entries ≡ cap
  pub size_le : b.size ≤ cap
  pub circle : Circle b.links next order
  pub index : IsIndex (key_of b.entries) b.key_to_index b.size order

-- The bucket holds the entries `l`, the most recently used first.
abbrev pub Holds {ℓ} : {V : Type ℓ} → ℕ → Bucket V → List (Entry V) → Type ℓ
Holds cap b l = (order : List ℕ) × Inv cap b order × (map (entry_at b) order ≡ l)

module _ {ℓ} {V : Type ℓ} (es : List (Entry V)) (i : ℕ) (e : Entry V) where
  abbrev at : List (Entry V) → ℕ → Entry V
  at l j = get_or l (slot j) zero_entry

  pub at-set_self : 0 < i → i ≤ length es → i < 2 ^ 16 → at (set es (slot i) e) i ≡ e
  at-set_self p q r = get_or-set_self es (slot i) e zero_entry (omega arith)

  pub at-set_ne :
      (j : ℕ) → 0 < i → i < 2 ^ 16 → 0 < j → j < 2 ^ 16 → i ≢ j → at (set es (slot i) e) j ≡ at es j
  at-set_ne j p q r s h = get_or-set_ne es (slot i) (slot j) e zero_entry (omega arith)

  pub key-at-set : e.key ≡ (at es i).key → key_of (set es (slot i) e) ≡ key_of es
  key-at-set h = fun_ext λ j. get_or-set_keep (λ x. x.key) es (slot i) (slot j) e zero_entry h

module _ {ℓ} {V : Type ℓ} {cap : ℕ} {b : Bucket V} (xs ys : List ℕ) (i : ℕ)
    (v : Inv cap b (xs ++ i ∷ ys)) where
  pub front-IsIndex : IsIndex (key_of b.entries) b.key_to_index b.size (i ∷ xs ++ ys)
  front-IsIndex = IsIndex-middle (key_of b.entries) b.key_to_index b.size xs ys i v.index

  pub node_here : (0 < i) × (i ≤ b.size)
  node_here = front-IsIndex.nodes.0

  -- The other nodes are not the node.
  pub node_there : (j : ℕ) → In j (xs ++ ys) → (0 < j) × (j ≤ b.size) × (i ≢ j)
  node_there j h =
      let n = All-In _ j (xs ++ ys) h front-IsIndex.nodes.1 in
      (n.0, n.1, All-In (λ x. i ≢ x) j (xs ++ ys) h front-IsIndex.distinct.0)

  apart : All (Apart b.links i) (xs ++ ys)
  apart = All-of_In _ (xs ++ ys) λ j h. omega (arith, node_there j h, v.links_len, v.size_le)

  -- What is read after a write at the node.
  entry_here : (e : Entry V) → get_or (set b.entries (slot i) e) (slot i) zero_entry ≡ e
  entry_here e =
      at-set_self b.entries i e node_here.0 (omega (arith, node_here, v.size_le, v.entries_len))
        (omega (arith, node_here, v.size_le, v.cap_small))

  entry_there :
      (e : Entry V) (j : ℕ)
      → In j (xs ++ ys)
      → get_or (set b.entries (slot i) e) (slot j) zero_entry ≡ entry_at b j
  entry_there e j h =
      at-set_ne b.entries i e j node_here.0 (omega (arith, node_here, v.size_le, v.cap_small))
        (node_there j h).0 (omega (arith, node_there j h, v.size_le, v.cap_small))
        (node_there j h).2

  pub entries_front :
      (e : Entry V)
      → map (λ j. get_or (set b.entries (slot i) e) (slot j) zero_entry) (i ∷ xs ++ ys)
        ≡ e ∷ map (entry_at b) (xs ++ ys)
  entries_front e =
      ap₂ ◌∷◌ (entry_here e) (map-cong _ _ (xs ++ ys) (All-of_In _ (xs ++ ys) (entry_there e)))

  pub entries_back :
      (e : Entry V)
      → map (λ j. get_or (set b.entries (slot i) e) (slot j) zero_entry) ((xs ++ ys) ++ i ∷ [])
        ≡ map (entry_at b) (xs ++ ys) ++ e ∷ []
  entries_back e =
      map-append _ (xs ++ ys) (i ∷ [])
      ∙ ap₂ (λ l x. l ++ x ∷ []) (map-cong _ _ (xs ++ ys) (All-of_In _ (xs ++ ys) (entry_there e)))
          (entry_here e)

  Circle-front : Circle (adjust b.links i next) next (i ∷ xs ++ ys)
  Circle-front =
      Circle-adjust b.links i next xs ys (omega (arith, node_here, v.links_len, v.size_le))
        (omega (arith, node_here)) (All-left _ xs ys apart) (All-right _ xs ys apart) v.circle

  Circle-back : Circle (adjust b.links i prev) next ((xs ++ ys) ++ i ∷ [])
  Circle-back =
      Circle-adjust_tail b.links i xs ys (omega (arith, node_here, v.links_len, v.size_le))
        (omega (arith, node_here)) (All-left _ xs ys apart) (All-right _ xs ys apart) v.circle

  back-IsIndex : IsIndex (key_of b.entries) b.key_to_index b.size ((xs ++ ys) ++ i ∷ [])
  back-IsIndex = IsIndex-unmiddle (key_of b.entries) b.key_to_index b.size (xs ++ ys) [] i (
      subst (λ r. IsIndex (key_of b.entries) b.key_to_index b.size (i ∷ r))
        (sym (append-nil (xs ++ ys))) front-IsIndex)

  module _ (e : Entry V) (same : e.key ≡ (entry_at b i).key) where
    rekey :
        (order : List ℕ)
        → IsIndex (key_of b.entries) b.key_to_index b.size order
        → IsIndex (key_of (set b.entries (slot i) e)) b.key_to_index b.size order
    rekey order w =
        subst (λ k. IsIndex k b.key_to_index b.size order) (sym (key-at-set b.entries i e same)) w

    -- The node goes to the head with an entry of the same key.
    pub Inv-front :
        Inv cap
          (record b { links = adjust b.links i next; entries = set b.entries (slot i) e })
          (i ∷ xs ++ ys)
    Inv-front = record {
      cap_pos = v.cap_pos;
      cap_small = v.cap_small;
      links_len = length-adjust b.links i next ∙ v.links_len;
      entries_len = length-set b.entries (slot i) e ∙ v.entries_len;
      size_le = v.size_le;
      circle = Circle-front;
      index = rekey (i ∷ xs ++ ys) front-IsIndex;
    }

    -- The node goes to the tail with an entry of the same key.
    pub Inv-back :
        Inv cap
          (record b { links = adjust b.links i prev; entries = set b.entries (slot i) e })
          ((xs ++ ys) ++ i ∷ [])
    Inv-back = record {
      cap_pos = v.cap_pos;
      cap_small = v.cap_small;
      links_len = length-adjust b.links i prev ∙ v.links_len;
      entries_len = length-set b.entries (slot i) e ∙ v.entries_len;
      size_le = v.size_le;
      circle = Circle-back;
      index = rekey ((xs ++ ys) ++ i ∷ []) back-IsIndex;
    }

  -- The node goes to the head, and nothing else changes.
  pub Inv-touch : Inv cap (record b { links = adjust b.links i next }) (i ∷ xs ++ ys)
  Inv-touch = record {
    cap_pos = v.cap_pos;
    cap_small = v.cap_small;
    links_len = length-adjust b.links i next ∙ v.links_len;
    entries_len = v.entries_len;
    size_le = v.size_le;
    circle = Circle-front;
    index = front-IsIndex;
  }

  -- The node goes to the head with an entry for a key that the bucket did not have.
  pub Inv-recycle :
      (e : Entry V)
      → find key_dec e.key b.key_to_index ≡ none
      → Inv cap
          (record b {
            links = adjust b.links i next;
            entries = set b.entries (slot i) e;
            key_to_index =
                insert key_dec e.key i (delete key_dec (entry_at b i).key b.key_to_index);
          })
          (i ∷ xs ++ ys)
  Inv-recycle e absent = record {
    cap_pos = v.cap_pos;
    cap_small = v.cap_small;
    links_len = length-adjust b.links i next ∙ v.links_len;
    entries_len = length-set b.entries (slot i) e ∙ v.entries_len;
    size_le = v.size_le;
    circle = Circle-front;
    index =
        IsIndex-recycle (key_of b.entries) (key_of (set b.entries (slot i) e)) b.key_to_index b.size
          i e.key (ap (λ x. x.key) (entry_here e)) (xs ++ ys)
          (λ j h. ap (λ x. x.key) (entry_there e j h)) absent front-IsIndex;
  }

-- ===== src/HashRing/Order.antt =====
-- The owner of a position as the nearest of a set of keys, without the order of a list.
use my_cache_go.Common.{
  ℕ, ◌≤◌, ◌<◌, ◌≡◌, refl, sym, ap, subst, ◌∙◌, List, [], ◌∷◌, ◌++◌, none, some, Option-cases, Bool,
  true, false, ◌||◌, ◌==◌, leb, Bool-cases, inl, inr, ℕ_discrete, All, arith,
}
use my_cache_go.Common.Dict.{find}
use my_cache_go.HashRing.{HashRing, insert_sorted, sort_ints}
use my_cache_go.HashRing.Sorted.{Sorted}
use my_cache_go.HashRing.Owner.{first_from, owner_key, owner}

unfoldable pub has : ℕ → List ℕ → Bool
has x [] = false
has x (y ∷ ys) = (x == y) || has x ys

pub has-append : (x : ℕ) (xs ys : List ℕ) → has x (xs ++ ys) ≡ (has x xs || has x ys)
unfolding has
has-append x [] ys = refl
has-append x (y ∷ xs) ys = ground (arith, has-append x xs ys)

pub has-insert_sorted :
    (x y : ℕ) (ys : List ℕ) → has x (insert_sorted y ys) ≡ ((x == y) || has x ys)
unfolding has
has-insert_sorted x y [] = refl
has-insert_sorted x y (z ∷ zs) = ground (arith, has-insert_sorted x y zs)

pub has-sort_ints : (x : ℕ) (xs : List ℕ) → has x (sort_ints xs) ≡ has x xs
unfolding has sort_ints
has-sort_ints x [] = refl
has-sort_ints x (y ∷ ys) = ground (arith, has-insert_sorted x y (sort_ints ys), has-sort_ints x ys)

-- On the way round from `h`, the key `x` does not come after `y`.
abbrev pub Before : ℕ → ℕ → ℕ → Type 0
Before h x y = (h ≤ x → h ≤ y → x ≤ y) × (x < h → (y < h) × (x ≤ y))

-- The first of the keys on the way round.
pub record IsOwner (h : ℕ) (keys : List ℕ) (x : ℕ) : Type 0 where
  pub member : has x keys ≡ true
  pub first : (y : ℕ) → has y keys ≡ true → Before h x y

has-All : (P : ℕ → Type 0) (y : ℕ) (xs : List ℕ) → All P xs → has y xs ≡ true → P y
unfolding has
has-All P y [] a m = absurd (cc)
has-All P y (x ∷ xs) a m = elim (Bool-cases (y == x)) [
  | inl e ↦ subst P (let t : x ≡ y = ground (arith, e) in t) a.0
  | inr e ↦ has-All P y xs a.1 (ground (arith, e, m))
]

first_from-least :
    (h x : ℕ) (xs : List ℕ)
    → Sorted xs
    → first_from h xs ≡ some x
    → (h ≤ x) × (has x xs ≡ true) × ((y : ℕ) → has y xs ≡ true → h ≤ y → x ≤ y)
unfolding first_from has
first_from-least h x [] s e = absurd (cc)
first_from-least h x (z ∷ zs) s e = elim (Bool-cases (leb h z)) [
  | inl l ↦ (
    ground (arith, e, l),
    ground (arith, e, l),
    λ y m p. ground (arith, e, l, m, has-All (λ t. z ≤ t) y zs s.0),
  )
  | inr l ↦
      let r = first_from-least h x zs s.1 (ground (arith, e, l)) in
      (r.0, ground (arith, r.1), λ y m p. ground (arith, l, m, r.2 y))
]

first_from-none : (h y : ℕ) (xs : List ℕ) → first_from h xs ≡ none → has y xs ≡ true → y < h
unfolding first_from has
first_from-none h y [] e m = absurd (cc)
first_from-none h y (z ∷ zs) e m = ground (arith, e, m, first_from-none h y zs)

pub owner_key-IsOwner :
    (h x : ℕ) (keys : List ℕ) → Sorted keys → owner_key keys h ≡ some x → IsOwner h keys x
unfolding owner_key
owner_key-IsOwner h x [] s e = absurd (cc)
owner_key-IsOwner h x (z ∷ zs) s e = elim (Option-cases (first_from h (z ∷ zs))) [
  | inl n ↦
      let same = let t : x ≡ z = ground (arith, e, n) in t in
      record {
        member = unfold has in ground (arith, same);
        first = λ y m. ground (
          arith,
          same,
          first_from-none h y (z ∷ zs) n m,
          has-All (λ t. z ≤ t) y (z ∷ zs) ((omega arith), s.0) m,
        );
      }
  | inr (w, f) ↦
      let same = let t : x ≡ w = ground (arith, e, f) in t in
      let (above, member, least) = first_from-least h w (z ∷ zs) s f in
      record {
        member = ap (λ t. has t (z ∷ zs)) same ∙ member;
        first = λ y m. ground (arith, same, above, least y m);
      }
]

IsOwner-unique : (h x y : ℕ) (keys : List ℕ) → IsOwner h keys x → IsOwner h keys y → x ≡ y
IsOwner-unique h x y keys p q = ground (arith, p.first y q.member, q.first x p.member)

pub owner_key-of_IsOwner :
    (h x : ℕ) (keys : List ℕ) → Sorted keys → IsOwner h keys x → owner_key keys h ≡ some x
owner_key-of_IsOwner h x [] s o = absurd (unfold has in ground (arith, o.member))
owner_key-of_IsOwner h x (z ∷ zs) s o = elim (Option-cases (owner_key (z ∷ zs) h)) [
  | inl n ↦ absurd (unfold owner_key in ground (arith, n))
  | inr (w, e) ↦ e ∙ ap some (IsOwner-unique h w x (z ∷ zs) (owner_key-IsOwner h w (z ∷ zs) s e) o)
]

-- Keys that the owner is not among do not count.
pub IsOwner-part :
    (h x : ℕ) (keys more all : List ℕ)
    → ((y : ℕ) → has y all ≡ (has y keys || has y more))
    → IsOwner h all x
    → has x keys ≡ true
    → IsOwner h keys x
IsOwner-part h x keys more all split o m = record {
  member = m;
  first = λ y p. o.first y (ground (arith, split y, p));
}

pub owner_key-none : (h y : ℕ) (keys : List ℕ) → owner_key keys h ≡ none → has y keys ≡ false
owner_key-none h y [] e = unfold has in refl
owner_key-none h y (z ∷ zs) e = absurd (unfold owner_key in ground (arith, e))

-- The same keys, under the same names, have the same owner.
pub owner-same :
    (r r' : HashRing) (h : ℕ)
    → Sorted r.keys
    → Sorted r'.keys
    → ((y : ℕ) → has y r.keys ≡ has y r'.keys)
    → ((y : ℕ) → has y r.keys ≡ true → find ℕ_discrete y r.hash_map ≡ find ℕ_discrete y r'.hash_map)
    → owner r h ≡ owner r' h
unfolding owner
owner-same r r' h s s' k m = elim (Option-cases (owner_key r.keys h)) [
  | inl n ↦ elim (Option-cases (owner_key r'.keys h)) [
    | inl n' ↦ ground (arith, n, n')
    | inr (x, e) ↦ absurd (
        ground
          (arith, k x, owner_key-none h x r.keys n, (owner_key-IsOwner h x r'.keys s' e).member))
  ]
  | inr (x, e) ↦
      let o = owner_key-IsOwner h x r.keys s e in
      let o' =
        let t : IsOwner h r'.keys x = record {
          member = sym (k x) ∙ o.member;
          first = λ y p. o.first y (k y ∙ p);
        } in
        t in
      ground (arith, e, owner_key-of_IsOwner h x r'.keys s' o', m x o.member)
]

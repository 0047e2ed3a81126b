-- ===== src/Lru/Elements.antt =====
-- What store/lru uses of container/list: elements with an identity, in a list.
pub mod Laws
use my_cache_go.Common.{ℕ, List, [], ◌∷◌, Option, none, some, ite, ℕ_discrete, Key}

pub record Element {ℓ} (V : Type ℓ) : Type ℓ where
  pub id : ℕ
  pub key : Key
  pub value : V

module _ {ℓ} {V : Type ℓ} where
  unfoldable pub elem_of : ℕ → List (Element V) → Option (Element V)
  elem_of i [] = none
  elem_of i (e ∷ l) = ite (ℕ_discrete e.id i) (some e) (elem_of i l)

  -- `Remove`.
  unfoldable pub remove : ℕ → List (Element V) → List (Element V)
  remove i [] = []
  remove i (e ∷ l) = ite (ℕ_discrete e.id i) l (e ∷ remove i l)

  -- A write of `elem.Value`.
  unfoldable pub replace : ℕ → V → List (Element V) → List (Element V)
  replace i v [] = []
  replace i v (e ∷ l) = ite (ℕ_discrete e.id i) (record e { value = v } ∷ l) (e ∷ replace i v l)

  -- `MoveToFront`: an element that `Remove` has taken out of the list is left where it is.
  unfoldable pub to_front : ℕ → List (Element V) → List (Element V)
  to_front i l = elim (elem_of i l) [ none ↦ l | some e ↦ e ∷ remove i l ]

  -- The identity of `Back()`; the callers test that the list is not empty.
  unfoldable pub back : List (Element V) → ℕ
  back [] = 0
  back (e ∷ []) = e.id
  back (e ∷ f ∷ l) = back (f ∷ l)

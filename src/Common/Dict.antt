-- ===== src/Common/Dict.antt =====
-- Go's maps as association lists. Writing a key first drops the pairs that it had.
use mathlib.Core.Path.{◌≡◌}
use mathlib.Core.Logic.{ite}
use mathlib.Core.List.{List, [], ◌∷◌}
use mathlib.Core.Option.{Option, none, some}
use native.Mathlib.Omega.{arith}

module _ {ℓ κ} {K : Type ℓ} {V : Type κ} (dec : Discrete K) where
  unfoldable pub find : K → List (K × V) → Option V
  find k [] = none
  find k ((j, v) ∷ m) = ite (dec j k) (some v) (find k m)

  unfoldable pub delete : K → List (K × V) → List (K × V)
  delete k [] = []
  delete k ((j, v) ∷ m) = elim (dec j k) [ yes _ ↦ delete k m | no _ ↦ (j, v) ∷ delete k m ]

  unfoldable pub insert : K → V → List (K × V) → List (K × V)
  unfolding delete
  insert k v m = (k, v) ∷ delete k m

  pub find-delete :
      (k j : K) (m : List (K × V)) → find j (delete k m) ≡ ite (dec k j) none (find j m)
  unfolding find delete
  find-delete k j [] = ground arith
  find-delete k j ((i, v) ∷ m) = ground (arith, find-delete k j m)

  pub find-insert :
      (k j : K) (v : V) (m : List (K × V))
      → find j (insert k v m) ≡ ite (dec k j) (some v) (find j m)
  unfolding find insert
  find-insert k j v m = ground (arith, find-delete k j m)

-- ===== src/Common/Bytes.antt =====
-- Go strings as the list of their bytes: the cache keys.
use Prim.Native.Nat.{ℕ}
use mathlib.Core.List.{List}
use native.Mathlib.Decide.{ℕ_discrete}

abbrev pub Key : Type 0
Key = List ℕ

unfoldable pub key_dec : Discrete Key
unfolding ℕ_discrete
key_dec = hlevel ℕ_discrete

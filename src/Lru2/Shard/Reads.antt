-- ===== src/Lru2/Shard/Reads.antt =====
-- What a shard answers, in terms of the live entries of its two levels.
use my_cache_go.Common.{
  ℕ, ◌≡◌, List, Option, none, some, Bool, true, false, ◌||◌, if◌then◌else◌, Key, arith,
}
use my_cache_go.Common.Int64.{Int64}
use my_cache_go.Lru2.Bucket.{Entry}
use my_cache_go.Lru2.Bucket.Inv.{Holds}
use my_cache_go.Lru2.Bucket.Theorems.{get_refines, del_refines}
use my_cache_go.Lru2.Bucket.Peek.{peek, del-peek, get_peek}
use my_cache_go.Lru2.Shard.{Shard, Found, delete, get, get_hot, get_warm, get_from_level, expired}

-- The answer of `Get` to a live entry, at both readings of the clock.
abbrev pub answer {ℓ} : {V : Type ℓ} → Option (Entry V) → Int64 → Int64 → Found V
answer none now later = (none, false)
answer (some e) now later =
    if expired now e.deadline || expired later e.deadline then (none, false) else (e.value, true)

module _ {ℓ} {V : Type ℓ} {c0 c1 : ℕ} {s : Shard V} {h w : List (Entry V)} (hot : Holds c0 s.hot h)
    (warm : Holds c1 s.warm w) (k : Key) where
  -- `Get` answers with the live entry of the hot level, if it has not expired at the first reading of
  -- the clock; if there is none, with that of the warm level, if it has expired at neither reading.
  pub get_lem :
      (now later : Int64) (notify : Bool)
      → (get s k now later notify).2
        ≡ elim (peek h k) [ some e ↦ answer (some e) now now | none ↦ answer (peek w k) now later ]
  unfolding get get_hot get_warm get_from_level
  get_lem now later notify =
      ground (arith, (del_refines hot k).1, del-peek h k, (get_refines warm k).1, get_peek w k)

  -- `delete` finds the key if a level has it live.
  pub delete_lem :
      (notify : Bool)
      → (delete s k notify).2 ≡ elim (peek h k) [
        | some _ ↦ true
        | none ↦ elim (peek w k) [ some _ ↦ true | none ↦ false ]
      ]
  unfolding delete
  delete_lem notify =
      ground (arith, (del_refines hot k).1, del-peek h k, (del_refines warm k).1, del-peek w k)

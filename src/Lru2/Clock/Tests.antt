-- ===== src/Lru2/Clock/Tests.antt =====
-- A clock that has been set forward twice, and an entry of a store.
use my_cache_go.Common.{ℕ, ◌+◌, ◌≤◌, ◌≡◌, [], ◌∷◌, none, some, true, false, arith}
use my_cache_go.Lru2.Clock.{Clock, calibrate, wake, Runs, started, woken}
use my_cache_go.Lru2.Clock.Lag.{lag, clock-bounds}
use my_cache_go.Lru2.Clock.Lifetime.{ReadAt, get-set_late}
use my_cache_go.Lru2.Store
use my_cache_go.Lru2.Store.{Store}
use my_cache_go.Lru2.Store.Inv.{IsStore, new-IsStore}

-- Each sleep takes 3 nanoseconds longer.
abbrev first : Clock
first = calibrate 1000

abbrev second : Clock
second = wake 200001006 (wake 100001003 first)

runs : Runs 3 200001006 second
runs =
    woken 200001006 (woken 100001003 (started 1000) (omega arith) (omega arith)) (omega arith)
      (omega arith)

clock-bounds_example :
    (second.clock ≤ 200001010)
    × (200001010 ≤ second.clock + lag 3)
    × (second.clock ≤ (wake 200001010 second).clock)
clock-bounds_example = clock-bounds runs 200001010 (omega arith) (omega arith) (omega arith)

abbrev fresh : Store ℕ
fresh = Store.new 4 2 2 true

fresh_valid : IsStore 2 2 fresh
fresh_valid = new-IsStore ℕ 4 2 2 true (omega arith) (omega arith) (omega arith)

abbrev written : ReadAt 3 1500 first
written = record { last = 1000; runs = started 1000; since = omega arith; until = omega arith }

abbrev read : ReadAt 3 200001010 second
read = record { last = 200001006; runs = runs; since = omega arith; until = omega arith }

get-set_late_example :
    (Store.get
      (Store.set_with_expiration fresh (b'k' ∷ []) (some 1) first.clock 5).0
      (b'k' ∷ [])
      second.clock
      200001011).2
    ≡ (none, false)
get-set_late_example =
    get-set_late written read 5 (omega arith) (omega arith) (omega arith) fresh_valid (b'k' ∷ [])
      (some 1) 200001011 (omega arith)

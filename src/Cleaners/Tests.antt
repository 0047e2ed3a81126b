-- ===== src/Cleaners/Tests.antt =====
-- A cache of store/lru2 that is closed while a tick waits.
use my_cache_go.Common.{ℕ, ◌≤◌, ◌≡◌, refl, true, false}
use my_cache_go.Lru2.Store
use my_cache_go.Lru2.Store.{Store}
use my_cache_go.Cleaners.{Loop, close_lru2, rest, round, Lru2Turns}
use my_cache_go.Cleaners.Ends.{Lru2Turns-close_lru2}

abbrev fresh : Store ℕ
fresh = Store.new 4 2 2 true

abbrev loop : Loop (Store ℕ)
loop = record { store = fresh; ticking = true; waiting = true; done = false; running = true }

abbrev swept : Loop (Store ℕ)
swept = record {
  store = (Store.cleanup fresh 9).0;
  ticking = false;
  waiting = false;
  done = false;
  running = true;
}

turns : Lru2Turns 1 (close_lru2 loop) swept
unfolding close_lru2
turns = round 9 rest refl refl

Lru2Turns-close_lru2_example : (1 ≤ 1) × (swept.running ≡ true)
Lru2Turns-close_lru2_example = Lru2Turns-close_lru2 loop swept refl turns

-- ===== src/Lru2/Clock.antt =====
-- The clock of store/lru2/utils.go and the goroutine that moves it. Times are nanoseconds; the readings
-- of `time.Now().UnixNano()` are arguments, and how long a `Sleep` lasts is a step of a relation.
pub mod Lag
pub mod Lifetime
mod Tests
use my_cache_go.Common.{ℕ, suc, ◌+◌, ◌*◌, ◌≤◌, if◌then◌else◌, ◌==◌}
use my_cache_go.Common.Int64.{Int64, add64}

-- `clock`, and the variable `i` of the inner loop: the additions since the last calibration.
pub record Clock : Type 0 where
  pub clock : Int64
  pub i : ℕ

-- `100 * time.Millisecond`.
abbrev pub pause : ℕ
pause = 100 * 1000000

-- The start of a round of the outer loop.
unfoldable pub calibrate : ℕ → Clock
calibrate real = record { clock = real; i = 0 }

-- What the goroutine does at the end of a `Sleep`: an addition after each of the nine in the inner
-- loop, and the next round after the tenth.
unfoldable pub wake : ℕ → Clock → Clock
wake real c =
    if c.i == 9 then calibrate real else record { clock = add64 c.clock pause; i = suc c.i }

-- The clocks that the goroutine leaves at a time: it sleeps for at least the pause, and at most `slack`
-- longer.
pub data Runs (slack : ℕ) : ℕ → Clock → Type 0 where
  started : (real : ℕ) → Runs slack real (calibrate real)
  woken :
      {last : ℕ} {c : Clock} (real : ℕ)
      → Runs slack last c
      → last + pause ≤ real
      → real ≤ last + pause + slack
      → Runs slack real (wake real c)

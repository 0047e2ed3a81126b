-- ===== src/Lru2/Clock/Lag.antt =====
-- How far the clock of store/lru2 is behind the real time.
use my_cache_go.Common.{ℕ, ◌+◌, ◌*◌, ◌^◌, ◌<◌, ◌≤◌, ◌≡◌, Bool-cases, inl, inr, ◌==◌, arith}
use native.Mathlib.Nat.{mul-le-mul_right}
use my_cache_go.Common.Int64.{add64}
use my_cache_go.Lru2.Clock.{Clock, pause, calibrate, wake, Runs, started, woken}

-- Where the goroutine slept last.
pub record Behind (slack last : ℕ) (c : Clock) : Type 0 where
  pub index : c.i ≤ 9
  pub ahead : c.clock ≤ last
  pub behind : last ≤ c.clock + c.i * slack

wake-Behind :
    (slack last real : ℕ) (c : Clock)
    → Behind slack last c
    → last + pause ≤ real
    → real ≤ last + pause + slack
    → real < 2 ^ 63
    → Behind slack real (wake real c)
unfolding wake calibrate
wake-Behind slack last real c b least most small = elim (Bool-cases (c.i == 9)) [
  | inl h ↦ rw h (record { index = omega arith; ahead = omega arith; behind = omega arith })
  | inr h ↦
      let sum =
        let t : add64 c.clock pause ≡ c.clock + pause = omega (arith, b.ahead, least, small) in t in
      rw h (
        rw sum (record {
          index = ground (arith, b.index, h);
          ahead = omega (arith, b.ahead, least);
          behind = omega (arith, b.behind, most);
        }))
]

Runs-Behind : {slack last : ℕ} {c : Clock} → Runs slack last c → last < 2 ^ 63 → Behind slack last c
Runs-Behind (started real) small =
    unfold calibrate in record { index = omega arith; ahead = omega arith; behind = omega arith }
Runs-Behind {slack} (woken {last} {c} real r least most) small =
    wake-Behind slack last real c (Runs-Behind r (omega (arith, least, small))) least most small

-- The most that the clock is behind at any time.
abbrev pub lag : ℕ → ℕ
lag slack = pause + 10 * slack

-- At any time below 2 ^ 63 and until the goroutine wakes again, where a sleep lasts for at least the
-- pause, the clock is not ahead of the real time, and behind it by at most the pause and ten times what
-- a sleep may last longer; and if the goroutine wakes then, it does not set the clock back.
pub clock-bounds :
    {slack last : ℕ} {c : Clock}
    → Runs slack last c
    → (real : ℕ) → last ≤ real
    → real ≤ last + pause + slack
    → real < 2 ^ 63
    → (c.clock ≤ real) × (real ≤ c.clock + lag slack) × (c.clock ≤ (wake real c).clock)
unfolding wake calibrate
clock-bounds {slack} {last} {c} r real p q small =
    let b = Runs-Behind r (omega (arith, p, small)) in
    let many = let t : c.i * slack ≤ 9 * slack = mul-le-mul_right slack b.index in t in
    (omega (arith, b.ahead, p), omega (arith, b.behind, q, many), ground (arith, b.ahead, p, small))

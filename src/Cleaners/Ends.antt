-- ===== src/Cleaners/Ends.antt =====
-- What `Close` of a store does to its cleanup goroutine.
use my_cache_go.Common.{
  ℕ, ◌+◌, ◌≤◌, ◌≡◌, refl, ◌⊎◌, inl, inr, some, true, false, Bool-cases, if◌then◌else◌, arith,
}
use my_cache_go.Lru.{Lru}
use my_cache_go.Lru2.Store.{Store}
use my_cache_go.Cleaners.{
  Loop, close_lru, close_lru2, LruTurns, rest, fire, round, finish, Lru2Turns,
}

-- The ticker has stopped, and with the tick that may wait there is at most one more round.
record Stopped {ℓ} {S : Type ℓ} (n : ℕ) (p : Loop S) : Type ℓ where
  stopped : p.ticking ≡ false
  few : n + (if p.waiting then 1 else 0) ≤ 1

module _ {ℓ} {V : Type ℓ} (len : V → ℕ) where
  LruTurns-Stopped :
      {n : ℕ} {p q : Loop (Lru V)}
      → LruTurns len n p q
      → p.ticking ≡ false
      → p.done ≡ true
      → Stopped n q × (q.done ≡ true)
  LruTurns-Stopped {p} rest t d = (record { stopped = t; few = ground arith }, d)
  LruTurns-Stopped (fire turns ticks) t d =
      absurd (ground (arith, ticks, (LruTurns-Stopped turns t d).0.stopped))
  LruTurns-Stopped (round now order turns runs waits) t d =
      let (s, e) = LruTurns-Stopped turns t d in
      (record { stopped = s.stopped; few = ground (arith, s.few, waits) }, e)
  LruTurns-Stopped (finish turns runs over) t d =
      let (s, e) = LruTurns-Stopped turns t d in (record { stopped = s.stopped; few = s.few }, e)

  -- After `Close` of a cache of store/lru its goroutine evicts at most once more, and has returned or
  -- can return.
  pub LruTurns-close_lru :
      {n : ℕ} (p q r : Loop (Lru V))
      → close_lru p ≡ some q
      → LruTurns len n q r
      → (n ≤ 1) × ((r.running ≡ false) ⊎ LruTurns len n q (record r { running = false }))
  LruTurns-close_lru p q r e turns =
      let (s, d) =
        LruTurns-Stopped turns (unfold close_lru in ground (arith, e))
          (unfold close_lru in ground (arith, e)) in
      (
        ground (arith, s.few),
        elim (Bool-cases r.running) [ inl h ↦ inr (finish turns h d) | inr h ↦ inl h ],
      )

module _ {ℓ} {V : Type ℓ} where
  Lru2Turns-Stopped :
      {n : ℕ} {p q : Loop (Store V)}
      → Lru2Turns n p q
      → p.ticking ≡ false
      → p.running ≡ true
      → Stopped n q × (q.running ≡ true)
  Lru2Turns-Stopped rest t d = (record { stopped = t; few = ground arith }, d)
  Lru2Turns-Stopped (fire turns ticks) t d =
      absurd (ground (arith, ticks, (Lru2Turns-Stopped turns t d).0.stopped))
  Lru2Turns-Stopped (round now turns runs waits) t d =
      let (s, e) = Lru2Turns-Stopped turns t d in
      (record { stopped = s.stopped; few = ground (arith, s.few, waits) }, e)

  -- After `Close` of a cache of store/lru2 whose goroutine runs, the goroutine cleans up at most once
  -- more, and never returns.
  pub Lru2Turns-close_lru2 :
      {n : ℕ} (p r : Loop (Store V))
      → p.running ≡ true
      → Lru2Turns n (close_lru2 p) r
      → (n ≤ 1) × (r.running ≡ true)
  unfolding close_lru2
  Lru2Turns-close_lru2 p r runs turns =
      let (s, d) = Lru2Turns-Stopped turns refl runs in (ground (arith, s.few), d)

-- ===== src/Cleaners.antt =====
-- The cleanup goroutines of store/lru/cache.go and store/lru2/cache.go with their tickers, and `Close`
-- of the two stores. The channel of a ticker has room for one tick.
pub mod Ends
mod Tests
use my_cache_go.Common.{
  ℕ, suc, ◌≡◌, List, Option, none, some, Bool, true, false, if◌then◌else◌, Key,
}
use my_cache_go.Common.Int64.{Int64}
use my_cache_go.Lru
use my_cache_go.Lru.{Lru}
use my_cache_go.Lru2.Store
use my_cache_go.Lru2.Store.{Store}

-- A store with its goroutine: whether the ticker runs, a tick waits, `doneCh` is closed, and the
-- goroutine has not returned. store/lru2 has no `doneCh`.
pub record Loop {ℓ} (S : Type ℓ) : Type ℓ where
  pub store : S
  pub ticking : Bool
  pub waiting : Bool
  pub done : Bool
  pub running : Bool

-- What `New` starts.
unfoldable pub start {ℓ} : {S : Type ℓ} → S → Loop S
start s = record { store = s; ticking = true; waiting = false; done = false; running = true }

-- `Close` of store/lru; `none` is the panic for a channel that is closed.
unfoldable pub close_lru {ℓ} : {S : Type ℓ} → Loop S → Option (Loop S)
close_lru p = if p.done then none else some (record p { ticking = false; done = true })

-- `Close` of store/lru2.
unfoldable pub close_lru2 {ℓ} : {S : Type ℓ} → Loop S → Loop S
close_lru2 p = record p { ticking = false }

module _ {ℓ} {V : Type ℓ} (len : V → ℕ) where
  -- A step of the ticker, or of the `select` of store/lru, which takes any case that is ready; the
  -- number counts the rounds of `evict`.
  pub data LruTurns : ℕ → Loop (Lru V) → Loop (Lru V) → Type ℓ where
    rest : {p : Loop (Lru V)} → LruTurns 0 p p
    fire :
        {n : ℕ} {p q : Loop (Lru V)}
        → LruTurns n p q
        → q.ticking ≡ true
        → LruTurns n p (record q { waiting = true })
    round :
        {n : ℕ} {p q : Loop (Lru V)} (now : ℕ) (order : List (Key × ℕ))
        → LruTurns n p q
        → q.running ≡ true
        → q.waiting ≡ true
        → LruTurns
            (suc n)
            p
            (record q { store = (Lru.evict len q.store now order).0; waiting = false })
    finish :
        {n : ℕ} {p q : Loop (Lru V)}
        → LruTurns n p q
        → q.running ≡ true
        → q.done ≡ true
        → LruTurns n p (record q { running = false })

module _ {ℓ} {V : Type ℓ} where
  -- A step of the ticker, or of the loop of store/lru2 over its channel, which nothing closes.
  pub data Lru2Turns : ℕ → Loop (Store V) → Loop (Store V) → Type ℓ where
    rest : {p : Loop (Store V)} → Lru2Turns 0 p p
    fire :
        {n : ℕ} {p q : Loop (Store V)}
        → Lru2Turns n p q
        → q.ticking ≡ true
        → Lru2Turns n p (record q { waiting = true })
    round :
        {n : ℕ} {p q : Loop (Store V)} (now : Int64)
        → Lru2Turns n p q
        → q.running ≡ true
        → q.waiting ≡ true
        → Lru2Turns (suc n) p (record q { store = (Store.cleanup q.store now).0; waiting = false })

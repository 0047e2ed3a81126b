-- ===== src/Cache.antt =====
-- `Cache` of cache.go, over the `Store` interface of store/types.go.
pub mod Inv
pub mod Options
pub mod Laws
pub mod Backed
mod Tests
use my_cache_go.Common.{
  ℕ, ◌+◌, ◌-◌, List, Option, none, some, Bool, true, false, not, ◌||◌, if◌then◌else◌, ltb, leb, Key,
}
use my_cache_go.Common.Int64.{Int64, add64}
use my_cache_go.ByteView.{ByteView, no_view}

-- The answer of `Store.Get`: the value may be nil.
abbrev pub Found : Type 0
Found = Option ByteView × Bool

-- The answer of `Cache.Get`.
abbrev pub Answer : Type 0
Answer = ByteView × Bool

-- The interface `Store`, with `new_store` for `NewStore` at the options of the cache. The operations
-- take the readings of the clock. An error of `Set` is only logged, so that the state is its result.
pub record StoreOps : Type 1 where
  pub State : Type 0
  pub new_store : State
  pub get : State → Key → ℕ → ℕ → State × Found
  pub set : State → Key → ByteView → ℕ → State
  pub set_with_expiration : State → Key → ByteView → ℕ → ℕ → State
  pub delete : State → Key → State × Bool
  pub clear : State → State
  pub len : State → ℕ

pub record Cache (ops : StoreOps) : Type 0 where
  pub store : Option ops.State  -- `none` is nil
  pub hits : Int64
  pub misses : Int64
  pub initialized : Bool
  pub closed : Bool

module _ {ops : StoreOps} where
  open ops use {State}

  -- `NewCache`.
  abbrev pub new_cache : Cache ops
  new_cache = record { store = none; hits = 0; misses = 0; initialized = false; closed = false }

  unfoldable pub ensure_initialized : Cache ops → Cache ops
  ensure_initialized c =
      if c.initialized then c else record c { store = some ops.new_store; initialized = true }

  -- A call on the store that returns nothing. On a nil store Go panics.
  abbrev pub on_store : Cache ops → (State → State) → Cache ops
  on_store c f = elim c.store [ none ↦ c | some s ↦ record c { store = some (f s) } ]

  unfoldable pub add : Cache ops → Key → ByteView → ℕ → Cache ops
  add c key value now =
      if c.closed then c else on_store (ensure_initialized c) (λ s. ops.set s key value now)

  -- `AddWithExpiration`, with the time that it has read; `later` is read by the store.
  unfoldable pub add_with_expiration : Cache ops → Key → ByteView → ℕ → ℕ → ℕ → Cache ops
  add_with_expiration c key value expiration_time now later =
      if c.closed
      then c
      else if leb expiration_time now
      then ensure_initialized c
      else on_store (ensure_initialized c)
          (λ s. ops.set_with_expiration s key value (expiration_time - now) later)

  -- What `Get` makes of the answer of the store.
  unfoldable pub count_read : Cache ops → Found → Cache ops × Answer
  count_read c (val, false) = (record c { misses = add64 c.misses 1 }, (no_view, false))
  count_read c (some v, true) = (record c { hits = add64 c.hits 1 }, (v, true))
  count_read c (none, true) =
      (record c { hits = add64 c.hits 1; misses = add64 c.misses 1 }, (no_view, false))

  unfoldable pub get : Cache ops → Key → ℕ → ℕ → Cache ops × Answer
  get c key now later =
      let missed = let t : Cache ops = record c { misses = add64 c.misses 1 } in t in
      if c.closed
      then (c, (no_view, false))
      else if not c.initialized
      then (missed, (no_view, false))
      else elim c.store [
        | none ↦ (c, (no_view, false))
        | some s ↦
            let (s', found) = ops.get s key now later in
            count_read (record c { store = some s' }) found
      ]

  unfoldable pub delete : Cache ops → Key → Cache ops × Bool
  delete c key = if c.closed || not c.initialized then (c, false) else elim c.store [
    | none ↦ (c, false)
    | some s ↦ let (s', deleted) = ops.delete s key in (record c { store = some s' }, deleted)
  ]

  unfoldable pub clear : Cache ops → Cache ops
  clear c =
      if c.closed || not c.initialized
      then c
      else record (on_store c ops.clear) { hits = 0; misses = 0 }

  unfoldable pub len : Cache ops → ℕ
  len c =
      if c.closed || not c.initialized then 0 else elim c.store [ none ↦ 0 | some s ↦ ops.len s ]

  unfoldable pub close : Cache ops → Cache ops
  close c = if c.closed then c else record c { store = none; initialized = false; closed = true }

-- ===== src/Cache/Laws.antt =====
-- What `Cache` of cache.go relies on in a `Store` that forgets nothing but what has expired.
use my_cache_go.Common.{ℕ, ◌+◌, ◌^◌, ◌<◌, ◌≡◌, none, some, true, false, Key}
use my_cache_go.ByteView.{ByteView}
use my_cache_go.Cache.{StoreOps}

pub record StoreLaws (ops : StoreOps) : Type 1 where
  pub Valid : ops.State → Type 0
  pub new_store-Valid : Valid ops.new_store
  pub get-Valid : (s : ops.State) (k : Key) (t later : ℕ) → Valid s → Valid (ops.get s k t later).0
  pub set-Valid :
      (s : ops.State) (k : Key) (v : ByteView) (now : ℕ) → Valid s → Valid (ops.set s k v now)
  pub set_with_expiration-Valid :
      (s : ops.State) (k : Key) (v : ByteView) (exp now : ℕ)
      → Valid s
      → Valid (ops.set_with_expiration s k v exp now)
  pub delete-Valid : (s : ops.State) (k : Key) → Valid s → Valid (ops.delete s k).0
  pub clear-Valid : (s : ops.State) → Valid s → Valid (ops.clear s)
  pub get-set :
      (s : ops.State) (k : Key) (v : ByteView) (now t later : ℕ)
      → Valid s
      → (ops.get (ops.set s k v now) k t later).1 ≡ (some v, true)
  pub get-set_with_expiration :
      (s : ops.State) (k : Key) (v : ByteView) (exp now t later : ℕ)
      → Valid s
      → 0 < exp
      → now + exp < 2 ^ 63
      → t < now + exp
      → (ops.get (ops.set_with_expiration s k v exp now) k t later).1 ≡ (some v, true)
  pub get-delete :
      (s : ops.State) (k : Key) (t later : ℕ)
      → Valid s
      → (ops.get (ops.delete s k).0 k t later).1 ≡ (none, false)

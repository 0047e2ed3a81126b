-- ===== src/Cache/Inv.antt =====
-- The life of a `Cache`: unopened, ready, closed.
use my_cache_go.Common.{
  ℕ, ◌-◌, ◌^◌, ◌<◌, ◌≡◌, refl, List, [], ◌∷◌, none, some, true, false, Bool-cases, inl, inr, leb,
  Key, arith,
}
use my_cache_go.Common.Int64.{Int64}
use my_cache_go.ByteView.{ByteView, no_view}
use my_cache_go.Cache.{
  StoreOps, Found, Cache, ensure_initialized, add, add_with_expiration, count_read, get, delete,
  clear, close,
}
use my_cache_go.Cache.Laws.{StoreLaws}

-- A call of an operation.
pub data Op : Type 0 where
  do_add : Key → ByteView → ℕ → Op
  do_add_with_expiration : Key → ByteView → ℕ → ℕ → ℕ → Op
  do_get : Key → ℕ → ℕ → Op
  do_delete : Key → Op
  do_clear : Op
  do_close : Op

not_yet : (time now : ℕ) → now < time → leb time now ≡ false
not_yet time now p = ground arith

module _ {ops : StoreOps} where
  unfoldable pub step : Cache ops → Op → Cache ops
  step c (do_add k v now) = add c k v now
  step c (do_add_with_expiration k v time now later) = add_with_expiration c k v time now later
  step c (do_get k now later) = (get c k now later).0
  step c (do_delete k) = (delete c k).0
  step c do_clear = clear c
  step c do_close = close c

  unfoldable pub run : Cache ops → List Op → Cache ops
  run c [] = c
  run c (op ∷ calls) = run (step c op) calls

  closed-step : (c : Cache ops) (op : Op) → c.closed ≡ true → step c op ≡ c
  unfolding step add add_with_expiration get delete clear close
  closed-step c (do_add k v now) h = ground (arith, h)
  closed-step c (do_add_with_expiration k v time now later) h = ground (arith, h)
  closed-step c (do_get k now later) h = ground (arith, h)
  closed-step c (do_delete k) h = ground (arith, h)
  closed-step c do_clear h = ground (arith, h)
  closed-step c do_close h = ground (arith, h)

  -- A closed cache stays as it is, whatever is called on it.
  pub closed-run : (calls : List Op) (c : Cache ops) → c.closed ≡ true → run c calls ≡ c
  unfolding run
  closed-run [] c h = refl
  closed-run (op ∷ calls) c h = rw (closed-step c op h) (closed-run calls c h)

  module _ (laws : StoreLaws ops) where
    -- A cache is unopened, or it is ready, with a valid store, or it is closed, without one.
    pub data IsCache : Cache ops → Type 0 where
      unopened :
          (h m : Int64)
          → IsCache
              (record { store = none; hits = h; misses = m; initialized = false; closed = false })
      ready :
          (s : ops.State) (h m : Int64)
          → laws.Valid s
          → IsCache
              (record { store = some s; hits = h; misses = m; initialized = true; closed = false })
      shut :
          (h m : Int64)
          → IsCache
              (record { store = none; hits = h; misses = m; initialized = false; closed = true })

    count_read-IsCache :
        (s : ops.State) (h m : Int64) (f : Found)
        → laws.Valid s
        → IsCache
            (count_read
              (record { store = some s; hits = h; misses = m; initialized = true; closed = false })
              f).0
    unfolding count_read
    count_read-IsCache s h m (x, false) v = ready s _ _ v
    count_read-IsCache s h m (some x, true) v = ready s _ _ v
    count_read-IsCache s h m (none, true) v = ready s _ _ v

    -- Every call keeps a cache valid: unopened and without a store, ready with a valid store, or closed
    -- without one.
    pub step-IsCache : {c : Cache ops} (op : Op) → IsCache c → IsCache (step c op)
    unfolding step add add_with_expiration get delete clear close ensure_initialized
    step-IsCache (do_add k x now) (unopened h m) =
        ready _ _ _ (laws.set-Valid _ k x now laws.new_store-Valid)
    step-IsCache (do_add k x now) (ready s h m v) = ready _ _ _ (laws.set-Valid s k x now v)
    step-IsCache (do_add k x now) (shut h m) = shut h m
    step-IsCache (do_add_with_expiration k x time now later) (unopened h m) =
        elim (Bool-cases (leb time now)) [
          | inl e ↦ rw e (ready _ _ _ laws.new_store-Valid)
          | inr e ↦ rw e (
              ready _ _ _
                (laws.set_with_expiration-Valid _ k x (time - now) later laws.new_store-Valid))
        ]
    step-IsCache (do_add_with_expiration k x time now later) (ready s h m v) =
        elim (Bool-cases (leb time now)) [
          | inl e ↦ rw e (ready _ _ _ v)
          | inr e ↦ rw e (ready _ _ _ (laws.set_with_expiration-Valid s k x (time - now) later v))
        ]
    step-IsCache (do_add_with_expiration k x time now later) (shut h m) = shut h m
    step-IsCache (do_get k now later) (unopened h m) = unopened _ _
    step-IsCache (do_get k now later) (ready s h m v) =
        count_read-IsCache _ h m _ (laws.get-Valid s k now later v)
    step-IsCache (do_get k now later) (shut h m) = shut h m
    step-IsCache (do_delete k) (unopened h m) = unopened h m
    step-IsCache (do_delete k) (ready s h m v) = ready _ _ _ (laws.delete-Valid s k v)
    step-IsCache (do_delete k) (shut h m) = shut h m
    step-IsCache do_clear (unopened h m) = unopened h m
    step-IsCache do_clear (ready s h m v) = ready _ _ _ (laws.clear-Valid s v)
    step-IsCache do_clear (shut h m) = shut h m
    step-IsCache do_close (unopened h m) = shut h m
    step-IsCache do_close (ready s h m v) = shut h m
    step-IsCache do_close (shut h m) = shut h m

    count_read-answer :
        (c : Cache ops) (x : ByteView) (f : Found)
        → f ≡ (some x, true)
        → (count_read c f).1 ≡ (x, true)
    unfolding count_read
    count_read-answer c x f h = rw h refl

    count_read-none :
        (c : Cache ops) (f : Found) → f ≡ (none, false) → (count_read c f).1 ≡ (no_view, false)
    unfolding count_read
    count_read-none c f h = rw h refl

    -- A value that was added to a cache that is not closed is read back.
    pub get-add :
        {c : Cache ops} (k : Key) (x : ByteView) (now t later : ℕ)
        → IsCache c
        → c.closed ≡ false
        → (get (add c k x now) k t later).1 ≡ (x, true)
    unfolding get add ensure_initialized
    get-add k x now t later (unopened h m) o =
        count_read-answer _ x _ (laws.get-set ops.new_store k x now t later laws.new_store-Valid)
    get-add k x now t later (ready s h m v) o =
        count_read-answer _ x _ (laws.get-set s k x now t later v)
    get-add k x now t later (shut h m) o = absurd (ground (arith, o))

    -- A value that was added until a time below 2 ^ 63 is read back before that time, if the cache is
    -- not closed and it and its store read the same time when the value is added.
    pub get-add_with_expiration :
        {c : Cache ops} (k : Key) (x : ByteView) (time now t later : ℕ)
        → IsCache c
        → c.closed ≡ false
        → time < 2 ^ 63
        → now < time
        → t < time
        → (get (add_with_expiration c k x time now now) k t later).1 ≡ (x, true)
    unfolding get add_with_expiration ensure_initialized
    get-add_with_expiration k x time now t later (unopened h m) o b p q = rw (not_yet time now p) (
        count_read-answer _ x _ (
          laws.get-set_with_expiration ops.new_store k x (time - now) now t later
            laws.new_store-Valid (omega arith) (omega arith) (omega arith)))
    get-add_with_expiration k x time now t later (ready s h m v) o b p q = rw (not_yet time now p) (
        count_read-answer _ x _ (
          laws.get-set_with_expiration s k x (time - now) now t later v (omega arith) (omega arith)
            (omega arith)))
    get-add_with_expiration k x time now t later (shut h m) o b p q = absurd (ground (arith, o))

    -- After `Delete` a key is not found.
    pub get-delete_miss :
        {c : Cache ops} (k : Key) (t later : ℕ)
        → IsCache c
        → (get (delete c k).0 k t later).1 ≡ (no_view, false)
    unfolding get delete
    get-delete_miss k t later (unopened h m) = refl
    get-delete_miss k t later (ready s h m v) = count_read-none _ _ (laws.get-delete s k t later v)
    get-delete_miss k t later (shut h m) = refl

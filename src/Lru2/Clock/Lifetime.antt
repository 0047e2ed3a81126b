-- ===== src/Lru2/Clock/Lifetime.antt =====
-- What the lag of the clock means for the lifetime of an entry of store/lru2.
use my_cache_go.Common.{
  ℕ, ◌+◌, ◌^◌, ◌<◌, ◌≤◌, ◌≡◌, ◌≢◌, sym, ◌∙◌, Option, none, true, false, Key, arith,
}
use my_cache_go.Common.Int64.{Int64}
use my_cache_go.Lru2.Bucket.Peek.{peek-put_self}
use my_cache_go.Lru2.Bucket.Theorems.{put_refines}
use my_cache_go.Lru2.Clock.{Clock, pause, Runs}
use my_cache_go.Lru2.Clock.Lag.{lag, clock-bounds}
use my_cache_go.Lru2.Shard
use my_cache_go.Lru2.Shard.{Shard, expired, deadline_of}
use my_cache_go.Lru2.Shard.Inv.{IsShard}
use my_cache_go.Lru2.Shard.Reads.{get_lem}
use my_cache_go.Lru2.Store
use my_cache_go.Lru2.Store.{Store, shard_of}
use my_cache_go.Lru2.Store.Inv.{IsStore, shard_of-IsShard, shard_of-with, get-set_with_expiration}

-- The clock that the goroutine has left, read at a time before it wakes again.
pub record ReadAt (slack real : ℕ) (c : Clock) : Type 0 where
  pub last : ℕ
  pub runs : Runs slack last c
  pub since : last ≤ real
  pub until : real ≤ last + pause + slack

module _ {slack start real : ℕ} {before after : Clock} (written : ReadAt slack start before)
    (read : ReadAt slack real after) (exp : Int64) (positive : 0 < exp)
    (small : start + exp < 2 ^ 63) (bound : real < 2 ^ 63) where
  deadline : deadline_of before.clock exp ≡ before.clock + exp
  deadline =
      let w = clock-bounds written.runs start written.since written.until (omega (arith, small)) in
      ground (arith, w.0, small, positive)

  unexpired :
      real + lag slack < start + exp → expired after.clock (deadline_of before.clock exp) ≡ false
  unexpired early =
      let w = clock-bounds written.runs start written.since written.until (omega (arith, small)) in
      let r = clock-bounds read.runs real read.since read.until bound in
      rw deadline (ground (arith, w.0, w.1, r.0, r.1, early, small, bound))

  past : start + exp + lag slack ≤ real → expired after.clock (deadline_of before.clock exp) ≡ true
  past late =
      let w = clock-bounds written.runs start written.since written.until (omega (arith, small)) in
      let r = clock-bounds read.runs real read.since read.until bound in
      rw deadline (ground (arith, w.0, w.1, r.0, r.1, late, small, bound, positive))

  module _ {ℓ} {V : Type ℓ} {c0 c1 : ℕ} {c : Store V} (valid : IsStore c0 c1 c) (k : Key)
      (x : Option V) (later : Int64) where
    nonzero : deadline_of before.clock exp ≢ 0
    nonzero h = omega (arith, sym deadline ∙ h, positive)

    gone :
        (s : Shard V)
        → IsShard c0 c1 s
        → start + exp + lag slack ≤ real
        → (Shard.get (Shard.set s k x before.clock exp c.notify).0 k after.clock later c.notify).2
          ≡ (none, false)
    unfolding Shard.set
    gone s v late =
        let d = deadline_of before.clock exp in
        get_lem (put_refines v.hot_holds k x d c.notify).0 v.warm_holds k after.clock later c.notify
        ∙ ground (arith, past late, peek-put_self v.hot_list k c0 x d c.notify nonzero)

    -- In a valid store, a value that is set with a positive lifetime at one real time is what `Get`
    -- returns at another, if the lifetime then lasts for longer than the lag of the clock.
    pub get-set_early :
        real + lag slack < start + exp
        → (Store.get (Store.set_with_expiration c k x before.clock exp).0 k after.clock later).2
          ≡ (x, true)
    get-set_early early =
        get-set_with_expiration valid k x before.clock exp after.clock later nonzero
          (unexpired early)

    -- In a valid store, a value that is set with a positive lifetime at one real time is not found at
    -- another, once the lifetime and the lag of the clock have passed, where the clock is read at both
    -- times before its goroutine wakes again, and the second time and the end of the lifetime are below
    -- 2 ^ 63.
    pub get-set_late :
        start + exp + lag slack ≤ real
        → (Store.get (Store.set_with_expiration c k x before.clock exp).0 k after.clock later).2
          ≡ (none, false)
    unfolding Store.get Store.set_with_expiration
    get-set_late late =
        rw (shard_of-with valid k (Shard.set (shard_of c k) k x before.clock exp c.notify).0)
          (gone (shard_of c k) (shard_of-IsShard valid k) late)

-- ===== src/Lru2/Shard/Effects.antt =====
-- Calls of a shard one after the other.
use my_cache_go.Common.{
  ℕ, ◌≡◌, ◌≢◌, sym, subst, ◌∙◌, List, Option, none, some, Bool, true, false, Key, arith,
}
use my_cache_go.Common.Int64.{Int64}
use my_cache_go.Lru2.Bucket
use my_cache_go.Lru2.Bucket.{Entry}
use my_cache_go.Lru2.Bucket.Inv.{Holds}
use my_cache_go.Lru2.Bucket.Theorems.{put_refines, del_refines}
use my_cache_go.Lru2.Bucket.Peek.{
  peek, del-peek, peek-del_self, peek-del_ne, peek-put_self, peek-ne_zero, Holds-DistinctKeys,
}
use my_cache_go.Lru2.Shard.{Shard, delete, set, get, get_hot, expired, deadline_of}
use my_cache_go.Lru2.Shard.Inv.{IsShard}
use my_cache_go.Lru2.Shard.Reads.{get_lem}

module _ {ℓ} {V : Type ℓ} {c0 c1 : ℕ} {s : Shard V} (valid : IsShard c0 c1 s) (k : Key) where
  -- A value that was set is read back until its deadline.
  pub get-set :
      (x : Option V) (now exp t later : Int64) (notify : Bool)
      → deadline_of now exp ≢ 0
      → expired t (deadline_of now exp) ≡ false
      → (get (set s k x now exp notify).0 k t later notify).2 ≡ (x, true)
  unfolding set
  get-set x now exp t later notify live fresh =
      let d = deadline_of now exp in
      get_lem (put_refines valid.hot_holds k x d notify).0 valid.warm_holds k t later notify
      ∙ ground (arith, peek-put_self valid.hot_list k c0 x d notify live)

  -- After `delete` the key is gone from both levels.
  pub get-delete :
      (t later : Int64) (notify : Bool)
      → (get (delete s k notify).0 k t later notify).2 ≡ (none, false)
  unfolding delete
  get-delete t later notify =
      get_lem (del_refines valid.hot_holds k).0 (del_refines valid.warm_holds k).0 k t later notify
      ∙ ground (
        arith,
        peek-del_self valid.hot_list k (Holds-DistinctKeys valid.hot_holds),
        peek-del_self valid.warm_list k (Holds-DistinctKeys valid.warm_holds),
      )

  -- `delete` leaves every other key's answer as it was.
  pub get-delete_ne :
      (j : Key) (t later : Int64) (notify : Bool)
      → j ≢ k
      → (get (delete s k notify).0 j t later notify).2 ≡ (get s j t later notify).2
  unfolding delete
  get-delete_ne j t later notify h =
      get_lem (del_refines valid.hot_holds k).0 (del_refines valid.warm_holds k).0 j t later notify
      ∙ (ground (arith, peek-del_ne valid.hot_list k j h, peek-del_ne valid.warm_list k j h)
          ∙ sym (get_lem valid.hot_holds valid.warm_holds j t later notify))

  -- The live entry of `k` is in the warm level alone, with this value and deadline.
  abbrev pub OnlyWarm : Shard V → Option V → Int64 → Type ℓ
  OnlyWarm s' x d =
      (h' : List (Entry V)) × (w' : List (Entry V)) × Holds c0 s'.hot h'
      × Holds c1 s'.warm w'
      × (peek h' k ≡ none)
      × (peek w' k ≡ some (record { key = k; value = x; deadline = d }))

  promoted :
      (e : Entry V) (t later : Int64) (notify : Bool)
      → peek valid.hot_list k ≡ some e
      → expired t e.deadline ≡ false
      → (get s k t later notify).0 ≡ record {
        hot = (Bucket.del s.hot k).0;
        warm = (Bucket.put s.warm k e.value e.deadline notify).0;
      }
  unfolding get get_hot
  promoted e t later notify hit live =
      ground (arith, (del_refines valid.hot_holds k).1, del-peek valid.hot_list k)

  -- A hit in the hot level that has not expired moves the entry, value and deadline, from the hot
  -- level to the warm level.
  pub get-OnlyWarm :
      (e : Entry V) (t later : Int64) (notify : Bool)
      → peek valid.hot_list k ≡ some e
      → expired t e.deadline ≡ false
      → OnlyWarm (get s k t later notify).0 e.value e.deadline
  get-OnlyWarm e t later notify hit live =
      subst (λ s'. OnlyWarm s' e.value e.deadline) (sym (promoted e t later notify hit live))
        (
          _,
          _,
          (del_refines valid.hot_holds k).0,
          (put_refines valid.warm_holds k e.value e.deadline notify).0,
          peek-del_self valid.hot_list k (Holds-DistinctKeys valid.hot_holds),
          peek-put_self valid.warm_list k c1 e.value e.deadline notify
              (peek-ne_zero valid.hot_list k e hit),
        )

-- ===== src/Group/Reads.antt =====
-- What `Get` of a group returns after `Set`, after a load and after `Close`.
use my_cache_go.Common.{
  ℕ, ◌+◌, ◌^◌, ◌<◌, ◌≡◌, refl, ap, sym, ◌∙◌, List, [], ◌∷◌, Option, none, some, Bool, true, false,
  Bool-cases, inl, inr, Key, arith,
}
use my_cache_go.Common.Int64.{lt64, add64}
use my_cache_go.ByteView.{ByteView, clone_bytes}
use my_cache_go.Cache as Cache
use my_cache_go.Cache.{StoreOps, Cache, Answer, count_read}
use my_cache_go.Cache.Laws.{StoreLaws}
use my_cache_go.Cache.Inv.{IsCache, step, step-IsCache, do_get, get-add, get-add_with_expiration}
use my_cache_go.Group.{
  Group, Env, Stats, ok, save_to_local, finish_get, finish_load, load_once, fetch_data, get, set,
}

pub clone_bytes_lem : (xs : List ℕ) → clone_bytes xs ≡ xs
unfolding clone_bytes
clone_bytes_lem [] = refl
clone_bytes_lem (x ∷ xs) = ap (λ l. x ∷ l) (clone_bytes_lem xs)

module _ {ops : StoreOps} (laws : StoreLaws ops) where
  finish_get-hit :
      (g : Group ops) (env : Env) (key : Key) (a : Cache ops × Answer) (x : ByteView)
      → a.1 ≡ (x, true)
      → (finish_get g env key a).1 ≡ ok x
  unfolding finish_get
  finish_get-hit g env key (c, a) x h = rw h refl

  -- The entry of a group that is open lives until `now + expiration`, or for ever.
  abbrev pub Fresh : Group ops → Env → ℕ → Type 0
  Fresh g env t =
      lt64 0 g.expiration ≡ true
      → (env.now + g.expiration < 2 ^ 63)
        × (env.until_now < env.now + g.expiration)
        × (t < env.now + g.expiration)
        × (env.later ≡ env.until_now)

  get-save :
      (g : Group ops) (env env' : Env) (b : ℕ) (key : Key) (x : ByteView)
      → IsCache laws g.local_cache
      → g.local_cache.closed ≡ false
      → g.closed ≡ false
      → Fresh g env env'.read
      → (get (save_to_local g env (b ∷ key) x) env' (b ∷ key)).1 ≡ ok x
  get-save g env env' b key x v o p f =
      get-open (save_to_local g env (b ∷ key) x) env' b key x (unfold save_to_local in p) read
    where
      get-open :
          (g' : Group ops) (e : Env) (b' : ℕ) (k : Key) (y : ByteView)
          → g'.closed ≡ false
          → (Cache.get g'.local_cache (b' ∷ k) e.read e.reread).1 ≡ (y, true)
          → (get g' e (b' ∷ k)).1 ≡ ok y
      get-open g' e b' k y q r =
          unfold get in
          ground (
            arith,
            q,
            finish_get-hit g' e (b' ∷ k) (Cache.get g'.local_cache (b' ∷ k) e.read e.reread) y r,
          )

      read :
          (Cache.get
            (save_to_local g env (b ∷ key) x).local_cache
            (b ∷ key)
            env'.read
            env'.reread).1
          ≡ (x, true)
      read =
          unfold save_to_local in
          elim (Bool-cases (lt64 0 g.expiration)) [
            | inl h ↦ rw h (
                let (small, early, live, same) = f h in
                rw same (
                  get-add_with_expiration laws (b ∷ key) x (env.now + g.expiration) env.until_now
                    env'.read env'.reread v o small early live))
            | inr h ↦ rw h (get-add laws (b ∷ key) x env.later env'.read env'.reread v o)
          ]

  -- What `Set` stored is what `Get` returns, from the cache and whatever the peers and the source
  -- would say, in an open group over a valid cache that is not closed, before the entry expires,
  -- if the cache and the store read the same time when they store it.
  pub get-set_value :
      (g : Group ops) (env env' : Env) (from_peer : Bool) (b : ℕ) (key : Key) (v : ℕ)
      (value : List ℕ)
      → IsCache laws g.local_cache
      → g.local_cache.closed ≡ false
      → g.closed ≡ false
      → Fresh g env env'.read
      → (get (set g env from_peer (b ∷ key) (v ∷ value)).0 env' (b ∷ key)).1
        ≡ ok (record { b = v ∷ value })
  get-set_value g env env' from_peer b key v value c o p f =
      ap (λ r. (get r env' (b ∷ key)).1) stored
      ∙ (get-save g env env' b key (record { b = clone_bytes (v ∷ value) }) c o p f
          ∙ ap (λ l. ok (record { b = l })) (clone_bytes_lem (v ∷ value)))
    where
      stored :
          (set g env from_peer (b ∷ key) (v ∷ value)).0
          ≡ save_to_local g env (b ∷ key) (record { b = clone_bytes (v ∷ value) })
      stored = unfold set in rw p refl

  pub get-closed :
      (c : Cache ops) (k : Key) (t later : ℕ) → (Cache.get c k t later).0.closed ≡ c.closed
  unfolding Cache.get count_read
  get-closed c k t later = ground arith

  finish_load-read :
      (g : Group ops) (env env' : Env) (b : ℕ) (key : Key) (r : Stats × Option ByteView)
      (x : ByteView)
      → IsCache laws g.local_cache
      → g.local_cache.closed ≡ false
      → g.closed ≡ false
      → Fresh g env env'.read
      → (finish_load g env (b ∷ key) r).1 ≡ ok x
      → (get (finish_load g env (b ∷ key) r).0 env' (b ∷ key)).1 ≡ ok x
  unfolding finish_load
  finish_load-read g env env' b key (s, none) x c o p f e = absurd (ground (arith, e))
  finish_load-read g env env' b key (s, some y) x c o p f e =
      get-save (record g { stats = record s { loads = add64 s.loads 1 } }) env env' b key y c o p f
      ∙ e

  -- A value that `Get` had to load, since the cache had no answer, is what the next `Get` returns from
  -- the cache, in an open group over a valid cache that is not closed, before the entry expires, if
  -- the cache and the store read the same time when they store it.
  pub get-load :
      (g : Group ops) (env env' : Env) (b : ℕ) (key : Key) (x : ByteView)
      → IsCache laws g.local_cache
      → g.local_cache.closed ≡ false
      → g.closed ≡ false
      → (Cache.get g.local_cache (b ∷ key) env.read env.reread).1.1 ≡ false
      → Fresh g env env'.read
      → (get g env (b ∷ key)).1 ≡ ok x
      → (get (get g env (b ∷ key)).0 env' (b ∷ key)).1 ≡ ok x
  get-load g env env' b key x c o p miss f e =
      ap (λ r. (get r.0 env' (b ∷ key)).1) loaded
      ∙ finish_load-read missed env env' b key (fetch_data env (b ∷ key) missed.stats) x
          (unfold step in step-IsCache laws (do_get (b ∷ key) env.read env.reread) c)
          (get-closed g.local_cache (b ∷ key) env.read env.reread ∙ o) p f
          (ap (λ r. r.1) (sym loaded) ∙ e)
    where
      missed : Group ops
      missed = record g {
        local_cache = (Cache.get g.local_cache (b ∷ key) env.read env.reread).0;
        stats = record g.stats { local_misses = add64 g.stats.local_misses 1 };
      }

      loaded :
          get g env (b ∷ key)
          ≡ finish_load missed env (b ∷ key) (fetch_data env (b ∷ key) missed.stats)
      loaded = unfold get finish_get load_once in ground (arith, p, miss)

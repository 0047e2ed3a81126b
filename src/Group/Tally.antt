-- ===== src/Group/Tally.antt =====
-- The counters of a group of group.go.
use my_cache_go.Common.{
  ℕ, suc, ◌+◌, ◌%◌, ◌^◌, ◌≡◌, refl, sym, subst, List, [], ◌∷◌, Option, none, some, Bool, true,
  false, if◌then◌else◌, Key, arith,
}
use my_cache_go.Common.Int64.{Int64, add64}
use my_cache_go.ByteView.{ByteView, clone_bytes}
use my_cache_go.Cache as Cache
use my_cache_go.Cache.{StoreOps, Cache, Answer}
use my_cache_go.Group as Group
use my_cache_go.Group.{
  Group, Env, Result, err, err_group_closed, Pick, no_peer, is_self, peer_get, ask, Stats, no_stats,
  fetch_local, fetch_data, save_to_local, finish_load, load_once, load_waiting, finish_get,
  finish_waiting,
}
use my_cache_go.Group.Calls.{Op, do_get, do_wait, do_set, do_delete, do_clear, do_close, step, run}
use my_cache_go.Group.Report.{group_stats}

-- Whether there is a value, as a number.
abbrev hit : Option ByteView → ℕ
hit none = 0
hit (some view) = 1

-- `n` calls of `Get` were looked up: each was a hit or a miss, each miss is a load, and each load ended
-- with a value of a peer, with one of the data source, with one of another load that it waited for, as
-- `m` of them did, or with an error. The counters wrap around.
pub record IsTally (n m : ℕ) (s : Stats) : Type 0 where
  pub looked_up : (s.local_hits + s.local_misses) % 2 ^ 64 ≡ n % 2 ^ 64
  pub loaded : s.loads ≡ s.local_misses
  pub ended : (s.peer_hits + s.loader_hits + m + s.loader_errors) % 2 ^ 64 ≡ s.loads % 2 ^ 64

-- What a load has counted by the time that it has its result.
record Fetched (s : Stats) (r : Stats × Option ByteView) : Type 0 where
  loads : r.0.loads ≡ s.loads
  errors : r.0.loader_errors ≡ s.loader_errors
  hits : r.0.local_hits ≡ s.local_hits
  misses : r.0.local_misses ≡ s.local_misses
  one :
      (r.0.peer_hits + r.0.loader_hits) % 2 ^ 64 ≡ (s.peer_hits + s.loader_hits + hit r.1) % 2 ^ 64

fetch_local-Fetched : (env : Env) (key : Key) (s : Stats) → Fetched s (fetch_local env key s)
unfolding fetch_local
fetch_local-Fetched env key s = choose (env.data_source key)
  where
    choose :
        (o : Option (List ℕ))
        → Fetched s (elim o [
          | none ↦ (s, none)
          | some bytes ↦ (
            record s { loader_hits = add64 s.loader_hits 1 },
            some (record { b = clone_bytes bytes }),
          )
        ])
    choose none = record {
      loads = refl;
      errors = refl;
      hits = refl;
      misses = refl;
      one = omega arith;
    }
    choose (some bytes) = record {
      loads = refl;
      errors = refl;
      hits = refl;
      misses = refl;
      one = omega arith;
    }

missed-Fetched :
    (s : Stats) (r : Stats × Option ByteView) (n : Int64)
    → Fetched (record s { peer_misses = n }) r
    → Fetched s r
missed-Fetched s r n f = record {
  loads = f.loads;
  errors = f.errors;
  hits = f.hits;
  misses = f.misses;
  one = f.one;
}

fetch_data-Fetched : (env : Env) (key : Key) (s : Stats) → Fetched s (fetch_data env key s)
unfolding fetch_data
fetch_data-Fetched env key s = choose (ask env.pick_peer key)
  where
    choose :
        (p : Pick)
        → Fetched s (elim p [
          | no_peer ↦ fetch_local env key s
          | is_self ↦ fetch_local env key s
          | peer_get (some bytes) ↦
              (record s { peer_hits = add64 s.peer_hits 1 }, some (record { b = bytes }))
          | peer_get none ↦ fetch_local env key (record s { peer_misses = add64 s.peer_misses 1 })
        ])
    choose no_peer = fetch_local-Fetched env key s
    choose is_self = fetch_local-Fetched env key s
    choose (peer_get none) =
        missed-Fetched s _ (add64 s.peer_misses 1) (fetch_local-Fetched env key _)
    choose (peer_get (some bytes)) = record {
      loads = refl;
      errors = refl;
      hits = refl;
      misses = refl;
      one = omega arith;
    }

same-IsTally :
    (n n' m m' : ℕ) (s t : Stats) → t ≡ s → n ≡ n' → m ≡ m' → IsTally n m s → IsTally n' m' t
same-IsTally n n' m m' s t e q u v =
    subst (λ k. IsTally k m' t) q
      (subst (λ k. IsTally n k t) u (subst (λ x. IsTally n m x) (sym e) v))

-- A call that is no `Get` of an open group counts nothing.
uncounted : (n m : ℕ) (s t : Stats) → t ≡ s → IsTally n m s → IsTally (0 + n) (m + 0) t
uncounted n m s t e v = same-IsTally n (0 + n) m (m + 0) s t e (omega arith) (omega arith) v

module _ {ops : StoreOps} where
  -- A load that took its value from `k` peers, sources or loads of others.
  finish_load-IsTally :
      (n m k : ℕ) (g : Group ops) (env : Env) (key : Key) (s : Stats) (r : Stats × Option ByteView)
      → IsTally n m s
      → r.0.loads ≡ s.loads
      → r.0.loader_errors ≡ s.loader_errors
      → r.0.local_hits ≡ s.local_hits
      → r.0.local_misses ≡ add64 s.local_misses 1
      → (r.0.peer_hits + r.0.loader_hits + k) % 2 ^ 64
        ≡ (s.peer_hits + s.loader_hits + hit r.1) % 2 ^ 64
      → IsTally (suc n) (m + k) (finish_load g env key r).0.stats
  unfolding finish_load save_to_local
  finish_load-IsTally n m k g env key s (t, none) v loads errors hits misses one = record {
    looked_up = omega (arith, hits, misses, v.looked_up);
    loaded = omega (arith, loads, misses, v.loaded);
    ended = omega (arith, one, errors, loads, v.ended);
  }
  finish_load-IsTally n m k g env key s (t, some x) v loads errors hits misses one = record {
    looked_up = omega (arith, hits, misses, v.looked_up);
    loaded = omega (arith, loads, misses, v.loaded);
    ended = omega (arith, one, errors, loads, v.ended);
  }

  finish_get-IsTally :
      (n m : ℕ) (g : Group ops) (env : Env) (key : Key) (a : Cache ops × Answer)
      → IsTally n m g.stats
      → IsTally (suc n) m (finish_get g env key a).0.stats
  unfolding finish_get load_once
  finish_get-IsTally n m g env key (c, (view, true)) v = record {
    looked_up = omega (arith, v.looked_up);
    loaded = v.loaded;
    ended = v.ended;
  }
  finish_get-IsTally n m g env key (c, (view, false)) v =
      let missed =
        let t : Stats = record g.stats { local_misses = add64 g.stats.local_misses 1 } in t in
      let f = fetch_data-Fetched env key missed in
      same-IsTally (suc n) (suc n) (m + 0) m _ _ refl refl (omega arith) (
        finish_load-IsTally n m 0 _ env key g.stats (fetch_data env key missed) v f.loads f.errors
          f.hits f.misses (omega (arith, f.one)))

  -- The value that a waiting `Get` takes from the load of another one, as a number.
  abbrev pub taken : Option ByteView → Cache ops × Answer → ℕ
  taken shared (c, (view, true)) = 0
  taken shared (c, (view, false)) = hit shared

  finish_waiting-IsTally :
      (n m : ℕ) (g : Group ops) (env : Env) (key : Key) (shared : Option ByteView)
      (a : Cache ops × Answer)
      → IsTally n m g.stats
      → IsTally (suc n) (m + taken shared a) (finish_waiting g env key shared a).0.stats
  unfolding finish_waiting load_waiting
  finish_waiting-IsTally n m g env key shared (c, (view, true)) v =
      same-IsTally (suc n) (suc n) m (m + 0) _ _ refl refl (omega arith)
        (finish_get-IsTally n m g env key (c, (view, true)) v)
  finish_waiting-IsTally n m g env key shared (c, (view, false)) v =
      finish_load-IsTally n m (hit shared) _ env key g.stats (_, shared) v refl refl refl refl refl

  -- How many calls of `Get` are looked up: those of an open group with a key that is not empty.
  abbrev pub lookup : Group ops → Op → ℕ
  lookup g (do_get env []) = 0
  lookup g (do_get env (b ∷ key)) = if g.closed then 0 else 1
  lookup g (do_wait env [] shared) = 0
  lookup g (do_wait env (b ∷ key) shared) = if g.closed then 0 else 1
  lookup g _ = 0

  -- How many of them take the value of another load.
  abbrev pub share : Group ops → Op → ℕ
  share g (do_wait env [] shared) = 0
  share g (do_wait env (b ∷ key) shared) =
      if g.closed then 0 else taken shared (Cache.get g.local_cache (b ∷ key) env.read env.reread)
  share g _ = 0

  unfoldable pub lookups : Group ops → List Op → ℕ
  lookups g [] = 0
  lookups g (op ∷ calls) = lookup g op + lookups (step g op) calls

  unfoldable pub shares : Group ops → List Op → ℕ
  shares g [] = 0
  shares g (op ∷ calls) = share g op + shares (step g op) calls

  if-IsTally :
      (n m k : ℕ) (g : Group ops) (d : Bool) (r : Group ops × Result)
      → IsTally n m g.stats
      → IsTally (suc n) (m + k) r.0.stats
      → IsTally
          ((if d then 0 else 1) + n)
          (m + (if d then 0 else k))
          (if d then (g, err err_group_closed) else r).0.stats
  if-IsTally n m k g true r v w =
      same-IsTally n (0 + n) m (m + 0) g.stats g.stats refl (omega arith) (omega arith) v
  if-IsTally n m k g false r v w =
      same-IsTally (suc n) (1 + n) (m + k) (m + k) r.0.stats r.0.stats refl (omega arith) refl w

  set-stats :
      (g : Group ops) (env : Env) (from_peer : Bool) (k : Key) (x : List ℕ)
      → (Group.set g env from_peer k x).0.stats ≡ g.stats
  unfolding Group.set save_to_local
  set-stats g env from_peer [] x = refl
  set-stats g env from_peer (b ∷ k) [] = refl
  set-stats g env from_peer (b ∷ k) (y ∷ x) = ground arith

  delete-stats :
      (g : Group ops) (env : Env) (from_peer : Bool) (k : Key)
      → (Group.delete g env from_peer k).0.stats ≡ g.stats
  unfolding Group.delete
  delete-stats g env from_peer [] = refl
  delete-stats g env from_peer (b ∷ k) = ground arith

  step-IsTally :
      (n m : ℕ) (g : Group ops) (op : Op)
      → IsTally n m g.stats
      → IsTally (lookup g op + n) (m + share g op) (step g op).stats
  unfolding step Group.get Group.get_waiting
  step-IsTally n m g (do_get env []) v = uncounted n m g.stats g.stats refl v
  step-IsTally n m g (do_get env (b ∷ key)) v =
      let a = Cache.get g.local_cache (b ∷ key) env.read env.reread in
      let w = finish_get-IsTally n m g env (b ∷ key) a v in
      same-IsTally _ _ (m + (if g.closed then 0 else 0)) (m + 0) _ _ refl refl (ground arith) (
        if-IsTally n m 0 g g.closed (finish_get g env (b ∷ key) a) v
          (same-IsTally (suc n) (suc n) m (m + 0) _ _ refl refl (omega arith) w))
  step-IsTally n m g (do_wait env [] shared) v = uncounted n m g.stats g.stats refl v
  step-IsTally n m g (do_wait env (b ∷ key) shared) v =
      let a = Cache.get g.local_cache (b ∷ key) env.read env.reread in
      if-IsTally n m (taken shared a) g g.closed (finish_waiting g env (b ∷ key) shared a) v
        (finish_waiting-IsTally n m g env (b ∷ key) shared a v)
  step-IsTally n m g (do_set env from_peer key value) v =
      uncounted n m g.stats _ (set-stats g env from_peer key value) v
  step-IsTally n m g (do_delete env from_peer key) v =
      uncounted n m g.stats _ (delete-stats g env from_peer key) v
  step-IsTally n m g do_clear v = uncounted n m g.stats _ (unfold Group.clear in ground arith) v
  step-IsTally n m g do_close v = uncounted n m g.stats _ (unfold Group.close in ground arith) v

  run-IsTally :
      (calls : List Op) (n m : ℕ) (g : Group ops)
      → IsTally n m g.stats
      → IsTally (n + lookups g calls) (m + shares g calls) (run g calls).stats
  unfolding run lookups shares
  run-IsTally [] n m g v =
      same-IsTally n (n + 0) m (m + 0) g.stats g.stats refl (omega arith) (omega arith) v
  run-IsTally (op ∷ calls) n m g v =
      same-IsTally _ _ _ _ _ _ refl (omega arith) (omega arith)
        (run-IsTally calls (lookup g op + n) (m + share g op) (step g op) (step-IsTally n m g op v))

  module _ {R : Type 0} (ratio : Int64 → Int64 → R) (zero_rate : R) (average : Int64 → R) where
    -- What `Stats` reports of a group that starts with all counters at 0: the hits and misses are the
    -- calls of `Get` with a key on the open group, the loads are the misses, and each load is counted
    -- as a value of a peer, as one of the data source or as an error, or it is one of those that took
    -- the value of another load that they waited for, all modulo 2^64.
    pub group_stats-IsTally :
        (g : Group ops) (calls : List Op)
        → g.stats ≡ no_stats
        → IsTally
            (lookups g calls)
            (shares g calls)
            (group_stats ratio zero_rate average (run g calls)).counts
    unfolding group_stats
    group_stats-IsTally g calls none_yet =
        same-IsTally (0 + lookups g calls) (lookups g calls) (0 + shares g calls) (shares g calls) _
          _ refl (omega arith) (omega arith)
          (run-IsTally calls 0 0 g (
            subst (IsTally 0 0) (sym none_yet)
              (record { looked_up = refl; loaded = refl; ended = refl })))

-- ===== src/Singleflight/Progress.antt =====
-- The invocations of `Do` that can move, and those that wait.
use my_cache_go.Common.{
  ℕ, ◌<◌, ◌≡◌, refl, subst, ◌⊎◌, Option, none, some, inl, inr, [], Key, key_dec, arith,
}
use my_cache_go.Common.Dict.{find}
use my_cache_go.Singleflight.{
  Pc, idle, started, missed, running, written, deleting, waiting, returned, Group, Move, begin,
  load_found, load_none, store, run, finish, forget, wake, Reach,
}
use my_cache_go.Singleflight.Inv.{Inv, Pending, Past, Over, Sound, Reach-Inv}

module _ {R : Type 0} (Result : Key → R → Type 0) where
  -- The invocation has a move.
  abbrev pub CanMove : Group R → ℕ → Pc R → Type 0
  CanMove g i p = (g' : Group R) × (q : Pc R) × Move Result g i p g' q

  -- A move brings an invocation closer to its return.
  abbrev pub rank : Pc R → ℕ
  rank idle = 7
  rank (started k) = 6
  rank (missed k) = 5
  rank (running k) = 4
  rank (written k) = 3
  rank (deleting k r) = 2
  rank (waiting k j) = 1
  rank (returned k r) = 0

  -- An invocation makes at most seven moves.
  pub Move-rank :
      {g : Group R} {i : ℕ} {p : Pc R} {g' : Group R} {q : Pc R}
      → Move Result g i p g' q
      → rank q < rank p
  Move-rank (begin key) = omega arith
  Move-rank (load_found j h) = omega arith
  Move-rank (load_none h) = omega arith
  Move-rank store = omega arith
  Move-rank (run r q) = omega arith
  Move-rank (finish r q) = omega arith
  Move-rank forget = omega arith
  Move-rank (wake r d v) = omega arith

  module _ (answers : (k : Key) → (r : R) × Result k r) (g : Group R) where
    Pending-CanMove :
        (j : ℕ) (k : Key) (p : Pc R) → Pending k p → Sound Result p (g.calls j) → CanMove g j p
    Pending-CanMove j k (running key) w s = let (r, q) = answers key in (_, _, run r q)
    Pending-CanMove j k (written key) w s = (_, _, finish s.1 s.2)
    Pending-CanMove j k idle w s = absurd w
    Pending-CanMove j k (started key) w s = absurd w
    Pending-CanMove j k (missed key) w s = absurd w
    Pending-CanMove j k (deleting key r) w s = absurd w
    Pending-CanMove j k (waiting key m) w s = absurd w
    Pending-CanMove j k (returned key r) w s = absurd w

    -- The invocation waits for the call of another one, of the same key, that has not reported its
    -- result and can move.
    abbrev pub Waits : Pc R → Type 0
    Waits p = (j : ℕ) × (k : Key) × (p ≡ waiting k j) × Pending k (g.pc j) × CanMove g j (g.pc j)

    load-CanMove :
        (i : ℕ) (key : Key) (o : Option ℕ)
        → find key_dec key g.calls_map ≡ o
        → CanMove g i (started key)
    load-CanMove i key none h = (_, _, load_none h)
    load-CanMove i key (some j) h = (_, _, load_found j h)

    module _ (inv : Inv Result g) (i : ℕ) where
      moves : (p : Pc R) → g.pc i ≡ p → 0 < rank p → CanMove g i p ⊎ Waits p
      moves idle e l = inl (_, _, begin [])
      moves (started key) e l = inl (load-CanMove i key (find key_dec key g.calls_map) refl)
      moves (missed key) e l = inl (_, _, store)
      moves (running key) e l = let (r, q) = answers key in inl (_, _, run r q)
      moves (written key) e l =
          let (d, r, v, q) = subst (λ t. Sound Result t (g.calls i)) e (inv.own i) in
          inl (_, _, finish r v)
      moves (deleting key r) e l = inl (_, _, forget)
      moves (waiting key j) e l = wait (inv.waits i key j e)
        where
          wait :
              Pending key (g.pc j) ⊎ (Past (g.pc j) × Over Result key (g.calls j))
              → CanMove g i (waiting key j) ⊎ Waits (waiting key j)
          wait (inl w) = inr (j, key, refl, w, Pending-CanMove j key (g.pc j) w (inv.own j))
          wait (inr (w, (d, r, v, q))) = inl (_, _, wake r d v)
      moves (returned key r) e l = absurd (omega arith)

    -- In every reachable state an invocation that has not returned can move, or it waits for the call
    -- of an invocation of the same key that runs its function or is about to report the result, and that
    -- one can move; if every function returns.
    pub Reach-CanMove :
        (i : ℕ) → Reach Result g → 0 < rank (g.pc i) → CanMove g i (g.pc i) ⊎ Waits (g.pc i)
    Reach-CanMove i reach l = moves (Reach-Inv Result reach) i (g.pc i) refl l

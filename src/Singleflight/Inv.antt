-- ===== src/Singleflight/Inv.antt =====
-- What holds in every reachable state of a group: who owns the calls, and what they hold.
use my_cache_go.Common.{
  ℕ, ◌≡◌, refl, subst, some, true, false, inl, inr, ◌⊎◌, ite, ℕ_discrete, Key, key_dec, arith,
}
use my_cache_go.Common.Dict.{find, find-insert, find-delete}
use my_cache_go.Singleflight.{
  Pc, running, written, deleting, waiting, returned, Call, Group, put_at, init, Move, begin,
  load_found, load_none, store, run, finish, forget, wake, Step, pick, Reach, start, later,
}

module _ {R : Type 0} where
  -- The invocation made the call for the key and has not taken it out of the map.
  abbrev pub Active : Key → Pc R → Type 0
  Active k (running key) = key ≡ k
  Active k (written key) = key ≡ k
  Active k (deleting key r) = key ≡ k
  Active k _ = ⊥

  -- `Done` is still to come.
  abbrev pub Pending : Key → Pc R → Type 0
  Pending k (running key) = key ≡ k
  Pending k (written key) = key ≡ k
  Pending k _ = ⊥

  -- `Done` was called by the invocation, if it made a call.
  abbrev pub Past : Pc R → Type 0
  Past (deleting key r) = Unit
  Past (returned key r) = Unit
  Past _ = ⊥

module _ {R : Type 0} (Result : Key → R → Type 0) where
  -- `Done` was called, and the call has a result for the key.
  abbrev pub Over : Key → Call R → Type 0
  Over k c = (c.done ≡ true) × (r : R) × (c.value ≡ some r) × Result k r

  -- What an invocation's place says of its own call.
  abbrev pub Sound : Pc R → Call R → Type 0
  Sound (running k) c = c.done ≡ false
  Sound (written k) c = (c.done ≡ false) × (r : R) × (c.value ≡ some r) × Result k r
  Sound (deleting k r) c = (c.done ≡ true) × (c.value ≡ some r) × Result k r
  Sound (returned k r) c = Result k r
  Sound _ c = Unit

  pub record Inv (g : Group R) : Type 0 where
    pub own : (i : ℕ) → Sound (g.pc i) (g.calls i)
    pub stored : (k : Key) (j : ℕ) → find key_dec k g.calls_map ≡ some j → Active k (g.pc j)
    pub waits :
        (i : ℕ) (k : Key) (j : ℕ)
        → g.pc i ≡ waiting k j
        → Pending k (g.pc j) ⊎ (Past (g.pc j) × Over k (g.calls j))

  woken :
      (p : Pc R) (c : Call R) (k : Key) (r : R)
      → Pending k p ⊎ (Past p × Over k c)
      → c.value ≡ some r
      → c.done ≡ true
      → Sound p c
      → Result k r
  woken p c k r (inl w) v d o = absurd (ground arith)
  woken p c k r (inr (w, (e, x, q, u))) v d o =
      subst (Result k) (let t : x ≡ r = ground (arith, q, v) in t) u

  module _ {g : Group R} (inv : Inv g) (i : ℕ) where
    Move-own :
        {p q : Pc R} {g' : Group R}
        → Move Result g i p g' q
        → g.pc i ≡ p
        → (j : ℕ) → Sound (put_at g.pc i q j) (g'.calls j)
    Move-own (begin key) e j = ground (arith, inv.own j)
    Move-own (load_found m f) e j = ground (arith, inv.own j)
    Move-own (load_none f) e j = ground (arith, inv.own j)
    Move-own (store {key}) e j = ground (arith, inv.own j)
    Move-own (run {key} r q) e j =
        elim (ℕ_discrete i j)
          as (λ d.
            Sound (ite d (written key) (g.pc j))
              (ite d (record { value = some r; done = false }) (g.calls j))) [
                | yes same ↦ (refl, r, refl, q)
                | no other ↦ inv.own j
              ]
    Move-own (finish r q) e j = ground (arith, inv.own j)
    Move-own forget e j = ground (arith, inv.own j)
    Move-own (wake {key} {j = m} r d v) e j =
        elim (ℕ_discrete i j) as (λ t. Sound (ite t (returned key r) (g.pc j)) (g.calls j)) [
          | yes same ↦ woken (g.pc m) (g.calls m) key r (inv.waits i key m e) v d (inv.own m)
          | no other ↦ inv.own j
        ]

    Move-stored :
        {p q : Pc R} {g' : Group R}
        → Move Result g i p g' q
        → g.pc i ≡ p
        → (k : Key) (j : ℕ) → find key_dec k g'.calls_map ≡ some j
        → Active k (put_at g.pc i q j)
    Move-stored (begin key) e k j h = ground (arith, inv.stored k j)
    Move-stored (load_found m f) e k j h = ground (arith, inv.stored k j)
    Move-stored (load_none f) e k j h = ground (arith, inv.stored k j)
    Move-stored (store {key}) e k j h =
        ground (arith, inv.stored k j, find-insert key_dec key k i g.calls_map)
    Move-stored (run r q) e k j h = ground (arith, inv.stored k j)
    Move-stored (finish r q) e k j h = ground (arith, inv.stored k j)
    Move-stored (forget {key}) e k j h =
        ground (arith, inv.stored k j, find-delete key_dec key k g.calls_map)
    Move-stored (wake r d v) e k j h = ground (arith, inv.stored k j)

    Move-waits :
        {p q : Pc R} {g' : Group R}
        → Move Result g i p g' q
        → g.pc i ≡ p
        → (m : ℕ) (k : Key) (j : ℕ) → put_at g.pc i q m ≡ waiting k j
        → Pending k (put_at g.pc i q j) ⊎ (Past (put_at g.pc i q j) × Over k (g'.calls j))
    Move-waits (begin key) e m k j h = ground (arith, inv.waits m k j)
    Move-waits (load_found n f) e m k j h =
        ground (arith, inv.waits m k j, inv.stored k j, inv.own j)
    Move-waits (load_none f) e m k j h = ground (arith, inv.waits m k j)
    Move-waits (store {key}) e m k j h = ground (arith, inv.waits m k j)
    Move-waits (run r q) e m k j h = ground (arith, inv.waits m k j)
    Move-waits (finish r q) e m k j h = ground (arith, inv.waits m k j, inv.own i)
    Move-waits forget e m k j h = ground (arith, inv.waits m k j)
    Move-waits (wake r d v) e m k j h = ground (arith, inv.waits m k j)

  Step-Inv : {g g' : Group R} → Step Result g g' → Inv g → Inv g'
  Step-Inv (pick i mv) inv = record {
    own = Move-own inv i mv refl;
    stored = Move-stored inv i mv refl;
    waits = Move-waits inv i mv refl;
  }

  init-Inv : Inv init
  unfolding find
  init-Inv = record { own = λ i. tt; stored = λ k j h. absurd (cc); waits = λ i k j h. absurd (cc) }

  pub Reach-Inv : {g : Group R} → Reach Result g → Inv g
  Reach-Inv start = init-Inv
  Reach-Inv (later r st) = Step-Inv st (Reach-Inv r)

  -- Whatever `Do` returns for a key, to the invocation that ran its function or to one that waited, is
  -- what a function may return for that same key.
  pub Reach-Result :
      {g : Group R} (i : ℕ) (k : Key) (r : R) → Reach Result g → g.pc i ≡ returned k r → Result k r
  Reach-Result i k r reach e = ground (arith, (Reach-Inv reach).own i)

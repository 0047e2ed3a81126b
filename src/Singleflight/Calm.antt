-- ===== src/Singleflight/Calm.antt =====
-- Invocations of `Do` that move between its test of the map and its write.
use my_cache_go.Common.{ℕ, ◌≡◌, ◌≢◌, refl, sym, subst, none, some, Key, key_dec, arith}
use my_cache_go.Common.Dict.{find, find-insert, find-delete}
use my_cache_go.Singleflight.{
  Pc, idle, started, missed, running, Group, put_at, init, Move, begin, load_found, load_none,
  store, run, finish, forget, wake, pick, Reach, start, later,
}
use my_cache_go.Singleflight.Inv.{Active}

module _ {R : Type 0} where
  -- The invocation stands between its `Load` and its `Store`.
  abbrev pub Between : Pc R → Type 0
  Between (missed k) = Unit
  Between _ = ⊥

  -- It does so for this key.
  abbrev pub Missed : Key → Pc R → Type 0
  Missed k (missed key) = key ≡ k
  Missed k _ = ⊥

  -- No invocation but `i` does.
  abbrev pub Alone : Group R → ℕ → Type 0
  Alone g i = (j : ℕ) → Between (g.pc j) → i ≡ j

module _ {R : Type 0} (Result : Key → R → Type 0) where
  pub data Calm : Group R → Type 0 where
    rest : Calm init
    move :
        {g : Group R} (i : ℕ) {g' : Group R} {p : Pc R}
        → Calm g
        → Alone g i
        → Move Result g i (g.pc i) g' p
        → Calm (record g' { pc = put_at g.pc i p })

  -- An active invocation is the one in the map, and one that missed has nothing there.
  record Exclusive (g : Group R) : Type 0 where
    mapped : (i : ℕ) (k : Key) → Active k (g.pc i) → find key_dec k g.calls_map ≡ some i
    empty : (i : ℕ) (k : Key) → Missed k (g.pc i) → find key_dec k g.calls_map ≡ none

  module _ {g : Group R} (ex : Exclusive g) (i : ℕ) (alone : Alone g i) where
    Move-mapped :
        {p q : Pc R} {g' : Group R}
        → Move Result g i p g' q
        → g.pc i ≡ p
        → (j : ℕ) (k : Key) → Active k (put_at g.pc i q j)
        → find key_dec k g'.calls_map ≡ some j
    Move-mapped (begin key) e j k a = ground (arith, ex.mapped j k)
    Move-mapped (load_found m f) e j k a = ground (arith, ex.mapped j k)
    Move-mapped (load_none f) e j k a = ground (arith, ex.mapped j k)
    Move-mapped (store {key}) e j k a =
        ground (arith, ex.mapped j k, ex.empty i key, find-insert key_dec key k i g.calls_map)
    Move-mapped (run r q) e j k a = ground (arith, ex.mapped j k)
    Move-mapped (finish r q) e j k a = ground (arith, ex.mapped j k)
    Move-mapped (forget {key}) e j k a =
        ground (arith, ex.mapped j k, ex.mapped i k, find-delete key_dec key k g.calls_map)
    Move-mapped (wake r d v) e j k a = ground (arith, ex.mapped j k)

    Move-empty :
        {p q : Pc R} {g' : Group R}
        → Move Result g i p g' q
        → g.pc i ≡ p
        → (j : ℕ) (k : Key) → Missed k (put_at g.pc i q j)
        → find key_dec k g'.calls_map ≡ none
    Move-empty (begin key) e j k a = ground (arith, ex.empty j k)
    Move-empty (load_found m f) e j k a = ground (arith, ex.empty j k)
    Move-empty (load_none {key} f) e j k a = ground (arith, ex.empty j k)
    Move-empty (store {key}) e j k a = ground (arith, ex.empty j k, alone j)
    Move-empty (run r q) e j k a = ground (arith, ex.empty j k)
    Move-empty (finish r q) e j k a = ground (arith, ex.empty j k)
    Move-empty (forget {key}) e j k a = ground (arith, ex.empty j k, alone j)
    Move-empty (wake r d v) e j k a = ground (arith, ex.empty j k)

  Calm-Exclusive : {g : Group R} → Calm g → Exclusive g
  Calm-Exclusive rest = record { mapped = λ i k a. absurd a; empty = λ i k a. absurd a }
  Calm-Exclusive (move i calm alone mv) = record {
    mapped = Move-mapped (Calm-Exclusive calm) i alone mv refl;
    empty = Move-empty (Calm-Exclusive calm) i alone mv refl;
  }

  -- If no invocation moves while another stands between its `Load` and its `Store`, then while the
  -- function of one runs for a key, no other's does.
  pub running_unique :
      {g : Group R} (i j : ℕ) (k : Key) → Calm g → g.pc i ≡ running k → i ≢ j → g.pc j ≢ running k
  running_unique i j k calm p ne q =
      absurd (ground (arith, (Calm-Exclusive calm).mapped i k, (Calm-Exclusive calm).mapped j k))

  then_pick :
      {g : Group R} (i : ℕ) (p : Pc R) {g' : Group R} {q : Pc R}
      → Reach Result g
      → g.pc i ≡ p
      → Move Result g i p g' q
      → Reach Result (record g' { pc = put_at g.pc i q })
  then_pick {g} i p {g'} {q} r e mv =
      later r (pick i (subst (λ t. Move Result g i t g' q) (sym e) mv))

  -- Any two invocations of `Do` can reach a state in which both run their functions for one key.
  pub running_twice :
      (i j : ℕ) (k : Key)
      → i ≢ j
      → (g : Group R) × Reach Result g × (g.pc i ≡ running k) × (g.pc j ≡ running k)
  unfolding find
  running_twice i j k ne =
      let r1 = then_pick i idle start refl (begin k) in
      let r2 = then_pick i (started k) r1 (ground arith) (load_none refl) in
      let r3 = then_pick j idle r2 (ground (arith, ne)) (begin k) in
      let r4 = then_pick j (started k) r3 (ground (arith, ne)) (load_none refl) in
      let r5 = then_pick i (missed k) r4 (ground (arith, ne)) store in
      let r6 = then_pick j (missed k) r5 (ground (arith, ne)) store in
      (_, r6, ground (arith, ne), ground (arith, ne))

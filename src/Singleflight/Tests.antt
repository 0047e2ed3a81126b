-- ===== src/Singleflight/Tests.antt =====
-- Two invocations of `Do` for one key, whose functions may return the length of the key.
use my_cache_go.Common.{ℕ, ◌≡◌, ◌⊎◌, refl, [], ◌∷◌, length, Key, key_dec, ℕ_discrete, arith}
use my_cache_go.Common.Dict.{find, insert}
use my_cache_go.Singleflight.{
  running, Group, begin, load_found, load_none, store, run, finish, wake, pick, Reach, start, later,
}
use my_cache_go.Singleflight.Inv.{Reach-Result}
use my_cache_go.Singleflight.Progress.{CanMove, Waits, Reach-CanMove}
use my_cache_go.Singleflight.Calm.{running_twice}

abbrev Length : Key → ℕ → Type 0
Length k r = length k ≡ r

abbrev key_a : Key
key_a = b'a' ∷ []

-- Invocation 0 runs its function, and 1 waits for it.
one_waits : (g : Group ℕ) × Reach Length g
unfolding ℕ_discrete find insert key_dec
one_waits =
    let r1 = later start (pick 0 (begin key_a)) in
    let r2 = later r1 (pick 0 (load_none refl)) in
    let r3 = later r2 (pick 0 store) in
    let r4 = later r3 (pick 1 (begin key_a)) in (_, later r4 (pick 1 (load_found 0 refl)))

-- Invocation 0 has called `Done`, and 1 has its result.
one_returns : (g : Group ℕ) × Reach Length g
unfolding ℕ_discrete find insert key_dec one_waits
one_returns =
    let r1 = later one_waits.1 (pick 0 (run 1 refl)) in
    let r2 = later r1 (pick 0 (finish 1 refl)) in (_, later r2 (pick 1 (wake 1 refl refl)))

Reach-Result_example : Length key_a 1
unfolding ℕ_discrete find insert key_dec one_waits one_returns
Reach-Result_example = Reach-Result Length 1 key_a 1 one_returns.1 refl

Reach-CanMove_example :
    CanMove Length one_waits.0 1 (one_waits.0.pc 1)
    ⊎ Waits Length (λ k. (length k, refl)) one_waits.0 (one_waits.0.pc 1)
unfolding ℕ_discrete find insert key_dec one_waits
Reach-CanMove_example =
    Reach-CanMove Length (λ k. (length k, refl)) one_waits.0 1 one_waits.1 (omega arith)

running_twice_example :
    (g : Group ℕ) × Reach Length g × (g.pc 3 ≡ running key_a) × (g.pc 4 ≡ running key_a)
running_twice_example = running_twice Length 3 4 key_a (omega arith)

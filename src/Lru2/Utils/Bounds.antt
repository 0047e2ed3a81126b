-- ===== src/Lru2/Utils/Bounds.antt =====
-- The mask of the bucket index and the index of a key, store/lru2/utils.go.
use Prim.Native.Nat.{bit_and, bit_and-bitwise, digits, min}
use my_cache_go.Common.{
  ℕ, zero, suc, ◌+◌, ◌*◌, ◌/◌, ◌^◌, ◌≤◌, ◌<◌, ◌≡◌, refl, ap, ◌∙◌, ℕ_discrete, subst, Bool-cases,
  inl, inr, Bool, true, false, ◌&&◌, if◌then◌else◌, ◌==◌, ltb, leb, arith,
}
use my_cache_go.Lru2.Utils.{mask_of_next_pow2}

and_digits-le : (n a b : ℕ) → digits (λ b. zero) min n a b ≤ b
and_digits-le zero a b = omega arith
and_digits-le (suc n) zero b = omega arith
and_digits-le (suc n) (suc a) b = omega (arith, and_digits-le n (suc a / 2) (b / 2))

pub bit_and-le : (a b : ℕ) → bit_and a b ≤ b
bit_and-le a b = omega (arith, bit_and-bitwise a b, and_digits-le a a b)

-- The exponent of a power of two up to 2 ^ k.
log_of : ℕ → ℕ → ℕ
log_of zero n = 0
log_of (suc k) n = if n == 2 ^ suc k then suc k else log_of k n

-- What is checked of the mask for the bucket count `suc c`.
abbrev mask_test : ℕ → Bool
mask_test c =
    let m = mask_of_next_pow2 (suc c) in
    leb (suc c) (m + 1) && (ltb (m + 1) (2 * suc c) && (m + 1 == 2 ^ log_of 15 (m + 1)))

-- The test of every bucket count up to a limit.
masks_pass : ℕ → Bool
masks_pass zero = true
masks_pass (suc limit) = if mask_test limit then masks_pass limit else false

mask_table : masks_pass 32768 ≡ true
unfolding masks_pass mask_of_next_pow2 log_of
mask_table = refl

mask_test-holds : (c limit : ℕ) → c < limit → masks_pass limit ≡ true → mask_test c ≡ true
unfolding masks_pass
mask_test-holds c zero below pass = absurd (omega arith)
mask_test-holds c (suc limit) below pass = elim (Bool-cases (mask_test limit)) [
  | inr e ↦ absurd (ground (arith, e, pass))
  | inl e ↦ elim (ℕ_discrete c limit) [
    | yes last ↦ ap mask_test last ∙ e
    | no other ↦
        mask_test-holds c limit (omega arith)
          (subst (λ b. (if b then masks_pass limit else false) ≡ true) e pass)
  ]
]

-- For a bucket count from 1 to 32768, the number of buckets is the least power of two that is
-- no less.
pub mask_of_next_pow2_lem :
    (c : ℕ)
    → 0 < c
    → c ≤ 32768
    → (k : ℕ) × (mask_of_next_pow2 c + 1 ≡ 2 ^ k)
      × (c ≤ mask_of_next_pow2 c + 1)
      × (mask_of_next_pow2 c + 1 < 2 * c)
mask_of_next_pow2_lem zero p q = absurd (omega arith)
mask_of_next_pow2_lem (suc c) p q =
    parts (mask_of_next_pow2 (suc c)) (mask_test-holds c 32768 (omega arith) mask_table)
  where
    parts :
        (m : ℕ)
        → (leb (suc c) (m + 1) && (ltb (m + 1) (2 * suc c) && (m + 1 == 2 ^ log_of 15 (m + 1))))
          ≡ true
        → (k : ℕ) × (m + 1 ≡ 2 ^ k) × (suc c ≤ m + 1) × (m + 1 < 2 * suc c)
    parts m h = (log_of 15 (m + 1), ground arith, ground arith, ground arith)

-- ===== src/Adapters/Marginfi/Value.antt =====
-- How close the price of MarginFi shares comes to the product of two fixed-point numbers.
use solana_yield_adapter_sta.Base.{
  ℕ, ℤ, negsuc, ◌+◌, ◌-◌, ◌*◌, ◌/◌, ◌^◌, ◌≤◌, ◌<◌, ◌≡◌, pos, ok, arith, checked_mul,
}
use native.Mathlib.Nat.{mul-le-mul_left, mul-le-mul_right, le_trans}
use solana_yield_adapter_sta.Adapters.Marginfi.Bank.{shares_to_usdc}

-- A product is monotone in both factors.
mul_mono : (a b c d : ℕ) → a ≤ b → c ≤ d → a * c ≤ b * d
mul_mono a b c d h k = le_trans (mul-le-mul_right c h) (mul-le-mul_left b k)

scaled_le : (n k : ℕ) → (n / 65536) * (k / 65536) * 2 ^ 32 ≤ n * k
scaled_le n k =
    let m = mul_mono (n / 65536 * 65536) n (k / 65536 * 65536) k (omega arith) (omega arith) in
    grind (arith, m)

lt_scaled : (n k : ℕ) → n * k < (n / 65536 + 1) * (k / 65536 + 1) * 2 ^ 32
lt_scaled n k =
    let m =
      mul_mono (n + 1) ((n / 65536 + 1) * 65536) (k + 1) ((k / 65536 + 1) * 65536) (omega arith)
        (omega arith) in
    grind (arith, m)

square_bound : (s v : ℕ) → s + v < 2 ^ 64 → s * v < 2 ^ 128
square_bound s v h =
    let m = mul_mono s (2 ^ 64 - 1) v (2 ^ 64 - 1) (omega arith) (omega arith) in omega (arith, m)

-- The value that the code computes for positive operands.
usdc : ℕ → ℕ → ℕ
usdc n k = (n / 65536) * (k / 65536) / 2 ^ 64

usdc_le : (n k : ℕ) → usdc n k * 2 ^ 96 ≤ n * k
unfolding usdc
usdc_le n k =
    let p = (n / 65536) * (k / 65536) in
    let d : p / 2 ^ 64 * 2 ^ 64 ≤ p = omega arith in
    let e : p * 2 ^ 32 ≤ n * k = scaled_le n k in omega (arith, d, e)

lt_usdc : (n k : ℕ) → n / 65536 + k / 65536 < 2 ^ 64 → n * k < (usdc n k + 2) * 2 ^ 96
unfolding usdc
lt_usdc n k h =
    let s = n / 65536 in
    let v = k / 65536 in
    let p = s * v in
    let e : n * k < (s + 1) * (v + 1) * 2 ^ 32 = lt_scaled n k in
    let r : (s + 1) * (v + 1) ≡ p + s + v + 1 = grind arith in
    let d : p < (p / 2 ^ 64 + 1) * 2 ^ 64 = omega arith in omega (arith, e, r, d)

-- Shares and a share value, both nonnegative numbers with 48 binary places, whose upper parts sum to
-- less than 2^64 always have a value: it is never more than their product, and less than two units
-- below it.
pub shares_to_usdc-le :
    (n k : ℕ)
    → n / 2 ^ 16 + k / 2 ^ 16 < 2 ^ 64
    → (v : ℕ) × (shares_to_usdc (pos n) (pos k) ≡ ok v)
      × (v * 2 ^ 96 ≤ n * k)
      × (n * k < (v + 2) * 2 ^ 96)
unfolding shares_to_usdc checked_mul usdc
shares_to_usdc-le n k h =
    (usdc n k, ground (arith, square_bound (n / 65536) (k / 65536) h), usdc_le n k, lt_usdc n k h)

-- A value is a u64.
pub shares_to_usdc-lt : (s k : ℤ) (v : ℕ) → shares_to_usdc s k ≡ ok v → v < 2 ^ 64
unfolding shares_to_usdc
shares_to_usdc-lt (negsuc n) k v h = ground arith
shares_to_usdc-lt (pos n) (negsuc k) v h = ground arith
shares_to_usdc-lt (pos n) (pos k) v h = ground arith

-- ===== src/Adapters/Maple/Value.antt =====
-- How close the price of syrupUSDC comes to the balance times the square of the pool's root price.
use solana_yield_adapter_sta.Base.{
  ℕ, ◌+◌, ◌*◌, ◌/◌, ◌^◌, ◌≤◌, ◌<◌, ◌≡◌, List, ok, Result-cases, inl, inr, sym, checked_mul, try_u64,
  arith,
}
use native.Mathlib.Nat.{mul-le-mul_right}
use solana_yield_adapter_sta.Adapters.{read_u128}
use solana_yield_adapter_sta.Adapters.Maple.Orca.{whirlpool_value_usdc}

staged_le : (b p : ℕ) → b * p / 2 ^ 64 * p / 2 ^ 64 * 2 ^ 128 ≤ b * p * p
staged_le b p =
    let q = b * p / 2 ^ 64 in
    let m : q * 2 ^ 64 * p ≤ b * p * p = mul-le-mul_right p (omega arith) in
    let e : q * 2 ^ 64 * p ≡ q * p * 2 ^ 64 = grind arith in
    let d : q * p / 2 ^ 64 * 2 ^ 64 ≤ q * p = omega arith in omega (arith, m, e, d)

lt_staged : (b p : ℕ) → b * p * p ≤ (b * p / 2 ^ 64 * p / 2 ^ 64 + 1) * 2 ^ 128 + p * 2 ^ 64
lt_staged b p =
    let q = b * p / 2 ^ 64 in
    let m : b * p * p ≤ (q + 1) * 2 ^ 64 * p = mul-le-mul_right p (omega arith) in
    let e : (q + 1) * 2 ^ 64 * p ≡ q * p * 2 ^ 64 + p * 2 ^ 64 = grind arith in
    let d : q * p ≤ (q * p / 2 ^ 64 + 1) * 2 ^ 64 = omega arith in omega (arith, m, e, d)

-- A positive balance that has a value is read with a word p, and p / 2^64 is the root price: the value
-- is a u64, is never more than the balance times the square of the root price, and is below that by at
-- most one unit plus the root price.
pub whirlpool_value_usdc-le :
    (wp_data : List ℕ) (balance v : ℕ)
    → 0 < balance
    → whirlpool_value_usdc wp_data balance ≡ ok v
    → (p : ℕ) × (read_u128 wp_data 65 ≡ ok p)
      × (v < 2 ^ 64)
      × (v * 2 ^ 128 ≤ balance * p * p)
      × (balance * p * p ≤ (v + 1) * 2 ^ 128 + p * 2 ^ 64)
unfolding whirlpool_value_usdc checked_mul try_u64
whirlpool_value_usdc-le wp_data b v positive h = elim (Result-cases (read_u128 wp_data 65)) [
  | inr (x, e) ↦ absurd (ground arith)
  | inl (p, e) ↦
      let w : b * p / 2 ^ 64 * p / 2 ^ 64 ≡ v = ground arith in
      (p, e, ground arith, rw (sym w) (staged_le b p), rw (sym w) (lt_staged b p))
]

-- A value is a u64.
pub whirlpool_value_usdc-lt :
    (wp_data : List ℕ) (balance v : ℕ) → whirlpool_value_usdc wp_data balance ≡ ok v → v < 2 ^ 64
unfolding whirlpool_value_usdc try_u64
whirlpool_value_usdc-lt wp_data balance v h = ground arith

-- ===== src/Adapters/Scaling.antt =====
-- The pricing that three adapters share: a product in 128 bits, divided, and taken as a u64.
use solana_yield_adapter_sta.Base.{
  Bool-cases, inl, inr, ◌==◌, if◌then◌else◌, err, ℕ, ◌+◌, ◌*◌, ◌/◌, ◌^◌, ◌≤◌, ◌<◌, ◌≡◌, checked_mul,
  checked_div, try_u64, Result, ok, ◌>>=◌, ok_or, arith, u128_mod,
}
use native.Mathlib.Nat.{
  div-add-mod', mod-lt, div-eq_of_lt-le, mul-le-mul_right, add-mul, mul-add, mul_comm,
  le_of_mul-le-mul_left,
}
use solana_yield_adapter_sta.Adapters.{math_overflow}

-- `v` is `n / d`, rounded down.
abbrev pub IsFloor : ℕ → ℕ → ℕ → Type 0
IsFloor v n d = (v * d ≤ n) × (n < v * d + d)

div-IsFloor : (n d : ℕ) → 0 < d → IsFloor (n / d) n d
div-IsFloor n d h = let e = div-add-mod' n d in let r = mod-lt n h in (omega arith, omega arith)

IsFloor-div : (v n d : ℕ) → IsFloor v n d → n / d ≡ v
IsFloor-div v n d (lo, hi) = div-eq_of_lt-le d lo (grind arith)

-- `n.checked_mul(l)?.checked_div(d)?`, as a u64.
unfoldable pub scaled : ℕ → ℕ → ℕ → Result ℕ
scaled n l d = do
  product ← ok_or (checked_mul u128_mod n l) math_overflow
  value ← ok_or (checked_div product d) math_overflow
  ok_or (try_u64 value) math_overflow

pub scaled_sound :
    (n l d v : ℕ)
    → scaled n l d ≡ ok v
    → (n * l < 2 ^ 128) × (0 < d) × (v < 2 ^ 64) × IsFloor v (n * l) d
unfolding scaled checked_mul checked_div try_u64
scaled_sound n l d v h =
    let p : 0 < d = ground arith in
    let e : v ≡ n * l / d = ground arith in
    let f = div-IsFloor (n * l) d p in (ground arith, p, ground arith, rw e f)

pub scaled_complete :
    (n l d v : ℕ) → n * l < 2 ^ 128 → 0 < d → v < 2 ^ 64 → IsFloor v (n * l) d → scaled n l d ≡ ok v
unfolding scaled checked_mul checked_div try_u64
scaled_complete n l d v fits pos small floor = ground (arith, IsFloor-div v (n * l) d floor)

-- Two floors of shares that the total covers are together at most what is shared.
pub floors-le : (v w a b l d : ℕ) → v * d ≤ a * l → w * d ≤ b * l → a + b ≤ d → 0 < d → v + w ≤ l
floors-le v w a b l d first second covered positive =
    let whole : a * l + b * l ≤ d * l =
      (let scale = mul-le-mul_right l covered in rw (add-mul a b l) at scale) in
    let parts = mul-add d v w in
    let left = mul_comm d v in
    let right = mul_comm d w in
    let total : d * (v + w) ≤ d * l = omega arith in le_of_mul-le-mul_left total positive

-- Shares that the total covers have a value, where the total and what is shared are u64s.
pub scaled_total :
    (n l d : ℕ)
    → n ≤ d
    → 0 < d
    → d < 2 ^ 64
    → l < 2 ^ 64
    → (v : ℕ) × (scaled n l d ≡ ok v) × (v * d ≤ n * l)
scaled_total n l d covered positive small bounded =
    let floor = div-IsFloor (n * l) d positive in
    let within : n * l / d + 0 ≤ l =
      floors-le (n * l / d) 0 n 0 l d floor.0 (omega arith) (omega arith) positive in
    let large : n * l ≤ 2 ^ 64 * l = mul-le-mul_right l (omega arith) in
    let fits : n * l < 2 ^ 128 = omega arith in
    (n * l / d, scaled_complete n l d (n * l / d) fits positive (omega arith) floor, floor.0)

-- The value of shares out of a total, where no shares have none.
abbrev pub share_price : ℕ → ℕ → ℕ → Result ℕ
share_price n l d = if n == 0 then ok 0 else if d == 0 then err math_overflow else scaled n l d

pub share_price_total :
    (n l d : ℕ)
    → n ≤ d
    → 0 < d
    → d < 2 ^ 64
    → l < 2 ^ 64
    → (v : ℕ) × (share_price n l d ≡ ok v) × (v * d ≤ n * l)
share_price_total n l d covered positive small bounded =
    let (v, e, floor) = scaled_total n l d covered positive small bounded in
    elim (Bool-cases (n == 0)) [
      | inl none_held ↦ (0, ground arith, omega arith)
      | inr held ↦ (v, ground arith, floor)
    ]

-- ===== src/Adapters/Kamino/Value.antt =====
-- The value of a Kamino position: its share of the reserve's liquidity, rounded down.
use solana_yield_adapter_sta.Base.{
  try_u64, Bool-cases, ◌≤◌, ℕ, ◌+◌, ◌*◌, ◌/◌, ◌^◌, ◌<◌, ◌≡◌, ◌↔◌, ◌⊎◌, inl, inr, ◌==◌, List, Result,
  ok, err, Result-cases, ◌>>=◌, ok_or, checked_add, u128_mod, if◌then◌else◌, arith, refl, sym, ◌∙◌,
}
use solana_yield_adapter_sta.Adapters.{math_overflow, read_u64, read_u128}
use solana_yield_adapter_sta.Adapters.Scaling.{
  IsFloor, scaled, scaled_sound, scaled_complete, scaled_total, floors-le,
}
use solana_yield_adapter_sta.Adapters.Kamino.Klend.{collateral_value_usdc}

-- The value of some shares in a reserve with this liquidity and this supply of shares.
abbrev pub IsPrice : ℕ → ℕ → ℕ → ℕ → Type 0
IsPrice shares v liquidity supply =
    ((shares ≡ 0) × (v ≡ 0))
    ⊎ ((0 < shares)
        × (0 < supply)
        × (liquidity < 2 ^ 128)
        × (shares * liquidity < 2 ^ 128)
        × (v < 2 ^ 64)
        × IsFloor v (shares * liquidity) supply)

price : ℕ → ℕ → ℕ → ℕ → Result ℕ
price available borrowed supply shares =
    if shares == 0 then ok 0 else if supply == 0 then err math_overflow else (do
      total_liquidity ← ok_or (checked_add u128_mod available borrowed) math_overflow
      scaled shares total_liquidity supply)

price_sound :
    (available borrowed supply shares v : ℕ)
    → price available borrowed supply shares ≡ ok v
    → IsPrice shares v (available + borrowed) supply
unfolding price checked_add
price_sound available borrowed supply shares v h =
    ground (arith, scaled_sound shares (available + borrowed) supply v)

price_complete :
    (available borrowed supply shares v : ℕ)
    → IsPrice shares v (available + borrowed) supply
    → price available borrowed supply shares ≡ ok v
unfolding price checked_add
price_complete available borrowed supply shares v (inl (z, e)) = ground arith
price_complete available borrowed supply shares v (inr (p, q, fits, fits', small, floor)) =
    ground (arith, scaled_complete shares (available + borrowed) supply v fits' q small floor)

-- Each of the three reads has succeeded.
reads_ok :
    (reserve_data : List ℕ) (shares v : ℕ)
    → collateral_value_usdc reserve_data shares ≡ ok v
    → ((available : ℕ) × (read_u64 reserve_data 224 ≡ ok available))
      × ((borrowed_sf : ℕ) × (read_u128 reserve_data 232 ≡ ok borrowed_sf))
      × ((supply : ℕ) × (read_u64 reserve_data 2592 ≡ ok supply))
unfolding collateral_value_usdc
reads_ok reserve_data shares v h = (
  elim (Result-cases (read_u64 reserve_data 224)) [
    | inl found ↦ found
    | inr (x, e) ↦ absurd (ground arith)
  ],
  elim (Result-cases (read_u128 reserve_data 232)) [
    | inl found ↦ found
    | inr (x, e) ↦ absurd (ground arith)
  ],
  elim (Result-cases (read_u64 reserve_data 2592)) [
    | inl found ↦ found
    | inr (x, e) ↦ absurd (ground arith)
  ],
)

value-price :
    (reserve_data : List ℕ) (shares available borrowed_sf supply : ℕ)
    → read_u64 reserve_data 224 ≡ ok available
    → read_u128 reserve_data 232 ≡ ok borrowed_sf
    → read_u64 reserve_data 2592 ≡ ok supply
    → collateral_value_usdc reserve_data shares
      ≡ price available (borrowed_sf / 2 ^ 60) supply shares
unfolding collateral_value_usdc price scaled
value-price reserve_data shares available borrowed_sf supply ra rb rs = rw (ra, rb, rs) refl

-- A position is valued at `v` exactly when the liquidity, the borrowed amount and the share supply of
-- the reserve can be read at their offsets, and either there are no shares and `v` is zero, or the
-- share supply is positive, nothing overflows 128 bits, `v` is a u64, and `v` is the shares times
-- (available + borrowed / 2^60), divided by the supply and rounded down.
pub collateral_value_usdc-eq-ok :
    (reserve_data : List ℕ) (shares v : ℕ)
    → (collateral_value_usdc reserve_data shares ≡ ok v) ↔ (
        (available : ℕ) × (borrowed_sf : ℕ) × (supply : ℕ) × (read_u64 reserve_data 224
          ≡ ok available)
        × (read_u128 reserve_data 232 ≡ ok borrowed_sf)
        × (read_u64 reserve_data 2592 ≡ ok supply)
        × IsPrice shares v (available + borrowed_sf / 2 ^ 60) supply)
collateral_value_usdc-eq-ok reserve_data shares v = (
  λ h.
      let ((available, ra), (borrowed_sf, rb), (supply, rs)) = reads_ok reserve_data shares v h in
      let e = value-price reserve_data shares available borrowed_sf supply ra rb rs in
      (
        available,
        borrowed_sf,
        supply,
        ra,
        rb,
        rs,
        price_sound available (borrowed_sf / 2 ^ 60) supply shares v (sym e ∙ h),
      ),
  λ (available, borrowed_sf, supply, ra, rb, rs, p).
      value-price reserve_data shares available borrowed_sf supply ra rb rs
      ∙ price_complete available (borrowed_sf / 2 ^ 60) supply shares v p,
)

-- A value is a u64.
pub collateral_value_usdc-lt :
    (reserve_data : List ℕ) (shares v : ℕ)
    → collateral_value_usdc reserve_data shares ≡ ok v
    → v < 2 ^ 64
unfolding collateral_value_usdc try_u64
collateral_value_usdc-lt reserve_data shares v h = ground arith

price_total :
    (available borrowed supply shares : ℕ)
    → shares ≤ supply
    → 0 < supply
    → supply < 2 ^ 64
    → available + borrowed < 2 ^ 64
    → (v : ℕ) × (price available borrowed supply shares ≡ ok v)
      × (v * supply ≤ shares * (available + borrowed))
unfolding price checked_add
price_total available borrowed supply shares covered positive small bounded =
    let (v, e, floor) =
      scaled_total shares (available + borrowed) supply covered positive small bounded in
    elim (Bool-cases (shares == 0)) [
      | inl none_held ↦ (0, ground arith, omega arith)
      | inr held ↦ (v, ground arith, floor)
    ]

-- Where a reserve is read with a liquidity, available + borrowed / 2^60, and a positive share supply
-- that fit into a u64: two positions whose shares are together at most the supply both have a value,
-- and the two values are together at most the liquidity.
pub collateral_value_usdc-solvent :
    (reserve_data : List ℕ) (available borrowed_sf supply first second : ℕ)
    → read_u64 reserve_data 224 ≡ ok available
    → read_u128 reserve_data 232 ≡ ok borrowed_sf
    → read_u64 reserve_data 2592 ≡ ok supply
    → available + borrowed_sf / 2 ^ 60 < 2 ^ 64
    → 0 < supply
    → supply < 2 ^ 64
    → first + second ≤ supply
    → (v : ℕ) × (w : ℕ) × (collateral_value_usdc reserve_data first ≡ ok v)
      × (collateral_value_usdc reserve_data second ≡ ok w)
      × (v + w ≤ available + borrowed_sf / 2 ^ 60)
collateral_value_usdc-solvent reserve_data available borrowed_sf supply first second ra rb rs
      bounded positive small covered =
    let (v, e, one) =
      price_total available (borrowed_sf / 2 ^ 60) supply first (omega arith) positive small
        bounded in
    let (w, f, other) =
      price_total available (borrowed_sf / 2 ^ 60) supply second (omega arith) positive small
        bounded in
    (
      v,
      w,
      value-price reserve_data first available borrowed_sf supply ra rb rs ∙ e,
      value-price reserve_data second available borrowed_sf supply ra rb rs ∙ f,
      floors-le v w first second (available + borrowed_sf / 2 ^ 60) supply one other covered
          positive,
    )

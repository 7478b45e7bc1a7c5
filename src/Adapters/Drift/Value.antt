-- ===== src/Adapters/Drift/Value.antt =====
-- The value of a stake in the insurance fund: its share of the fund's vault, rounded down.
use solana_yield_adapter_sta.Base.{◌∙◌, refl, ◌+◌, ◌≤◌, ℕ, ◌^◌, ◌<◌, ◌≡◌, List, ok, try_u64, arith}
use solana_yield_adapter_sta.Adapters.{read_u64, read_u128}
use solana_yield_adapter_sta.Adapters.Scaling.{scaled, share_price, share_price_total, floors-le}
use solana_yield_adapter_sta.Adapters.Drift.Stake.{stake_value_usdc}

-- A value is a u64.
pub stake_value_usdc-lt :
    (stake market vault : List ℕ) (v : ℕ) → stake_value_usdc stake market vault ≡ ok v → v < 2 ^ 64
unfolding stake_value_usdc try_u64
stake_value_usdc-lt stake market vault v h = ground arith

value-share_price :
    (stake market vault : List ℕ) (shares total held : ℕ)
    → read_u128 stake 40 ≡ ok shares
    → read_u128 market 336 ≡ ok total
    → read_u64 vault 64 ≡ ok held
    → stake_value_usdc stake market vault ≡ share_price shares held total
unfolding stake_value_usdc scaled
value-share_price stake market vault shares total held rs rt rv = rw (rs, rt, rv) refl

-- Where the vault of the insurance fund and its positive total of shares are read as u64s: two stakes
-- whose shares are together at most the total both have a value, and the two values are together at
-- most what the vault holds.
pub stake_value_usdc-solvent :
    (first second market vault : List ℕ) (a b total held : ℕ)
    → read_u128 first 40 ≡ ok a
    → read_u128 second 40 ≡ ok b
    → read_u128 market 336 ≡ ok total
    → read_u64 vault 64 ≡ ok held
    → held < 2 ^ 64
    → 0 < total
    → total < 2 ^ 64
    → a + b ≤ total
    → (v : ℕ) × (w : ℕ) × (stake_value_usdc first market vault ≡ ok v)
      × (stake_value_usdc second market vault ≡ ok w)
      × (v + w ≤ held)
stake_value_usdc-solvent first second market vault a b total held ra rb rt rv bounded positive small
      covered =
    let (v, e, one) = share_price_total a held total (omega arith) positive small bounded in
    let (w, f, other) = share_price_total b held total (omega arith) positive small bounded in
    (
      v,
      w,
      value-share_price first market vault a total held ra rt rv ∙ e,
      value-share_price second market vault b total held rb rt rv ∙ f,
      floors-le v w a b held total one other covered positive,
    )

-- ===== src/Adapters/Jupiter/Value.antt =====
-- The value of liquidity tokens: their share of the pool's assets, rounded down.
use solana_yield_adapter_sta.Base.{◌∙◌, refl, ◌+◌, ◌≤◌, ℕ, ◌^◌, ◌<◌, ◌≡◌, List, ok, try_u64, arith}
use solana_yield_adapter_sta.Adapters.{read_u64, read_u128}
use solana_yield_adapter_sta.Adapters.Scaling.{scaled, share_price, share_price_total, floors-le}
use solana_yield_adapter_sta.Adapters.Jupiter.Perps.{lp_value_usdc}

-- A value is a u64.
pub lp_value_usdc-lt :
    (pool mint : List ℕ) (balance v : ℕ) → lp_value_usdc pool mint balance ≡ ok v → v < 2 ^ 64
unfolding lp_value_usdc try_u64
lp_value_usdc-lt pool mint balance v h = ground arith

value-share_price :
    (pool mint : List ℕ) (balance aum supply : ℕ)
    → read_u128 pool 180 ≡ ok aum
    → read_u64 mint 36 ≡ ok supply
    → lp_value_usdc pool mint balance ≡ share_price balance aum supply
unfolding lp_value_usdc scaled
value-share_price pool mint balance aum supply ra rs = rw (ra, rs) refl

-- Where the pool's assets and the positive supply of its liquidity token are read as u64s: two balances
-- that are together at most the supply both have a value, and the two values are together at most the
-- assets.
pub lp_value_usdc-solvent :
    (pool mint : List ℕ) (a b aum supply : ℕ)
    → read_u128 pool 180 ≡ ok aum
    → read_u64 mint 36 ≡ ok supply
    → aum < 2 ^ 64
    → 0 < supply
    → supply < 2 ^ 64
    → a + b ≤ supply
    → (v : ℕ) × (w : ℕ) × (lp_value_usdc pool mint a ≡ ok v)
      × (lp_value_usdc pool mint b ≡ ok w)
      × (v + w ≤ aum)
lp_value_usdc-solvent pool mint a b aum supply ra rs bounded positive small covered =
    let (v, e, one) = share_price_total a aum supply (omega arith) positive small bounded in
    let (w, f, other) = share_price_total b aum supply (omega arith) positive small bounded in
    (
      v,
      w,
      value-share_price pool mint a aum supply ra rs ∙ e,
      value-share_price pool mint b aum supply ra rs ∙ f,
      floors-le v w a b aum supply one other covered positive,
    )

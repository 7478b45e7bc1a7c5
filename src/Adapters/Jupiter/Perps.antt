-- ===== src/Adapters/Jupiter/Perps.antt =====
-- The CPIs to Jupiter's perpetuals and the layout of its accounts (jup_cpi.rs).
use solana_yield_adapter_sta.Base.{
  ℕ, ◌==◌, true, false, List, [], ◌∷◌, ◌++◌, to_le_bytes, checked_mul, checked_div, try_u64,
  u128_mod, Result, ok, err, ◌>>=◌, ok_or, if◌then◌else◌,
}
use solana_yield_adapter_sta.Runtime.{
  Runtime, Chain, AccountMeta, AccountInfo, meta_new, meta_new_readonly,
}
use solana_yield_adapter_sta.Adapters.{math_overflow, cpi_failed, read_u64, read_u128}
use solana_yield_adapter_sta.Adapters.Jupiter.{id}

abbrev pub jup_add_liquidity2 : List ℕ
jup_add_liquidity2 = 228 ∷ 162 ∷ 78 ∷ 28 ∷ 70 ∷ 219 ∷ 116 ∷ 115 ∷ []

abbrev pub jup_remove_liquidity2 : List ℕ
jup_remove_liquidity2 = 230 ∷ 215 ∷ 82 ∷ 127 ∷ 241 ∷ 101 ∷ 227 ∷ 146 ∷ []

abbrev pub pool_aum_usd : ℕ
pool_aum_usd = 180

abbrev pub mint_supply : ℕ
mint_supply = 36

abbrev pub token_amount_off : ℕ
token_amount_off = 64

unfoldable pub token_amount : List ℕ → Result ℕ
token_amount token_account_data = read_u64 token_account_data token_amount_off

unfoldable pub lp_value_usdc : List ℕ → List ℕ → ℕ → Result ℕ
lp_value_usdc pool_data lp_mint_data lp_balance = if lp_balance == 0 then ok 0 else (do
  aum ← read_u128 pool_data pool_aum_usd
  supply ← read_u64 lp_mint_data mint_supply
  if supply == 0 then err math_overflow else (do
    product ← ok_or (checked_mul u128_mod lp_balance aum) math_overflow
    value ← ok_or (checked_div product supply) math_overflow
    ok_or (try_u64 value) math_overflow))

pub record LiquidityAccounts : Type 0 where
  pub program : AccountInfo
  pub owner : AccountInfo
  pub token_account : AccountInfo
  pub lp_token_account : AccountInfo
  pub transfer_authority : AccountInfo
  pub perpetuals : AccountInfo
  pub pool : AccountInfo
  pub custody : AccountInfo
  pub doves_price : AccountInfo
  pub pythnet_price : AccountInfo
  pub custody_token_account : AccountInfo
  pub lp_token_mint : AccountInfo
  pub token_program : AccountInfo
  pub event_authority : AccountInfo

unfoldable pub metas_and_infos : LiquidityAccounts → List AccountMeta × List AccountInfo
unfolding meta_new meta_new_readonly
metas_and_infos a = (
  meta_new_readonly a.owner.key true
      ∷ meta_new a.token_account.key false
      ∷ meta_new a.lp_token_account.key false
      ∷ meta_new_readonly a.transfer_authority.key false
      ∷ meta_new_readonly a.perpetuals.key false
      ∷ meta_new a.pool.key false
      ∷ meta_new a.custody.key false
      ∷ meta_new_readonly a.doves_price.key false
      ∷ meta_new_readonly a.pythnet_price.key false
      ∷ meta_new a.custody_token_account.key false
      ∷ meta_new a.lp_token_mint.key false
      ∷ meta_new_readonly a.token_program.key false
      ∷ meta_new_readonly a.event_authority.key false
      ∷ meta_new_readonly a.program.key false
      ∷ [],
  a.owner ∷ a.token_account ∷ a.lp_token_account ∷ a.transfer_authority ∷ a.perpetuals ∷ a.pool
      ∷ a.custody ∷ a.doves_price ∷ a.pythnet_price ∷ a.custody_token_account ∷ a.lp_token_mint
      ∷ a.token_program ∷ a.event_authority ∷ a.program ∷ [],
)

-- Each of the extra accounts goes to the end of both lists, read-only.
unfoldable pub append_extra :
    List AccountMeta → List AccountInfo → List AccountInfo → List AccountMeta × List AccountInfo
unfolding meta_new_readonly
append_extra metas infos [] = (metas, infos)
append_extra metas infos (acc ∷ extra) =
    append_extra (metas ++ meta_new_readonly acc.key false ∷ []) (infos ++ acc ∷ []) extra

module _ (rt : Runtime) where
  -- The call with the given data on the accounts and the extra ones.
  unfoldable pub call_perps : LiquidityAccounts → List ℕ → List AccountInfo → Chain → Result Chain
  unfolding metas_and_infos append_extra
  call_perps a input aum_accounts c =
      let base = metas_and_infos a in
      let all = append_extra base.0 base.1 aum_accounts in
      ok_or
        (rt.invoke_signed id
          (record { program_id = a.program.key; accounts = all.0; input = input }) all.1 [] c)
        cpi_failed

  unfoldable pub add_liquidity : LiquidityAccounts → ℕ → List AccountInfo → Chain → Result Chain
  unfolding call_perps
  add_liquidity a token_amount_in aum_accounts c =
      call_perps a
        (jup_add_liquidity2 ++ (to_le_bytes 8 token_amount_in ++ (to_le_bytes 8 0 ++ (0 ∷ []))))
        aum_accounts c

  unfoldable pub remove_liquidity : LiquidityAccounts → ℕ → List AccountInfo → Chain → Result Chain
  unfolding call_perps
  remove_liquidity a lp_amount_in aum_accounts c =
      call_perps a (jup_remove_liquidity2 ++ (to_le_bytes 8 lp_amount_in ++ to_le_bytes 8 0))
        aum_accounts c

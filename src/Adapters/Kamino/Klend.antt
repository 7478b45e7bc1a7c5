-- ===== src/Adapters/Kamino/Klend.antt =====
-- The CPIs to klend and the layout of its reserve (klend_cpi.rs).
use solana_yield_adapter_sta.Base.{
  ℕ, ◌/◌, ◌^◌, ◌==◌, true, false, List, [], ◌∷◌, ◌++◌, to_le_bytes, checked_add, checked_mul,
  checked_div, try_u64, Result, ok, err, ◌>>=◌, ok_or, if◌then◌else◌, u128_mod,
}
use solana_yield_adapter_sta.Runtime.{
  Runtime, Chain, AccountInfo, Instruction, meta_new, meta_new_readonly,
}
use solana_yield_adapter_sta.Adapters.{math_overflow, cpi_failed, read_u64, read_u128}
use solana_yield_adapter_sta.Adapters.Kamino.{id}

abbrev pub klend_refresh_reserve : List ℕ
klend_refresh_reserve = 2 ∷ 218 ∷ 138 ∷ 235 ∷ 79 ∷ 201 ∷ 25 ∷ 102 ∷ []

abbrev pub klend_deposit_reserve_liquidity : List ℕ
klend_deposit_reserve_liquidity = 169 ∷ 201 ∷ 30 ∷ 126 ∷ 6 ∷ 205 ∷ 102 ∷ 68 ∷ []

abbrev pub klend_redeem_reserve_collateral : List ℕ
klend_redeem_reserve_collateral = 234 ∷ 117 ∷ 181 ∷ 125 ∷ 185 ∷ 142 ∷ 220 ∷ 29 ∷ []

abbrev pub off_last_update_slot : ℕ
off_last_update_slot = 16

abbrev pub off_total_available : ℕ
off_total_available = 224

abbrev pub off_borrowed_sf : ℕ
off_borrowed_sf = 232

abbrev pub off_collateral_supply : ℕ
off_collateral_supply = 2592

abbrev pub sf_shift : ℕ
sf_shift = 60

unfoldable pub reserve_last_update_slot : List ℕ → Result ℕ
unfolding read_u64
reserve_last_update_slot reserve_data = read_u64 reserve_data off_last_update_slot

unfoldable pub collateral_value_usdc : List ℕ → ℕ → Result ℕ
collateral_value_usdc reserve_data shares = do
  available ← read_u64 reserve_data off_total_available
  borrowed_sf ← read_u128 reserve_data off_borrowed_sf
  let borrowed = borrowed_sf / 2 ^ sf_shift
  collateral_supply ← read_u64 reserve_data off_collateral_supply
  if shares == 0 then ok 0 else if collateral_supply == 0 then err math_overflow else (do
    total_liquidity ← ok_or (checked_add u128_mod available borrowed) math_overflow
    product ← ok_or (checked_mul u128_mod shares total_liquidity) math_overflow
    value ← ok_or (checked_div product collateral_supply) math_overflow
    ok_or (try_u64 value) math_overflow)

unfoldable pub u64_data : List ℕ → ℕ → List ℕ
u64_data disc amount = disc ++ to_le_bytes 8 amount

pub record KlendAccounts : Type 0 where
  pub klend_program : AccountInfo
  pub owner : AccountInfo
  pub reserve : AccountInfo
  pub lending_market : AccountInfo
  pub lending_market_authority : AccountInfo
  pub reserve_liquidity_mint : AccountInfo
  pub reserve_liquidity_supply : AccountInfo
  pub reserve_collateral_mint : AccountInfo
  pub user_liquidity : AccountInfo
  pub user_collateral : AccountInfo
  pub collateral_token_program : AccountInfo
  pub liquidity_token_program : AccountInfo
  pub instruction_sysvar : AccountInfo
  pub scope_prices : AccountInfo

module _ (rt : Runtime) where
  unfoldable pub refresh_reserve :
      (klend_program reserve lending_market scope_prices : AccountInfo) → Chain → Result Chain
  unfolding meta_new meta_new_readonly
  refresh_reserve klend_program reserve lending_market scope_prices c =
      let ix : Instruction = record {
        program_id = klend_program.key;
        accounts =
            meta_new reserve.key false
            ∷ meta_new_readonly lending_market.key false
            ∷ meta_new_readonly klend_program.key false
            ∷ meta_new_readonly klend_program.key false
            ∷ meta_new_readonly klend_program.key false
            ∷ meta_new_readonly scope_prices.key false
            ∷ [];
        input = klend_refresh_reserve;
      } in
      let infos : List AccountInfo = reserve ∷ lending_market ∷ klend_program ∷ scope_prices ∷ [] in
      ok_or (rt.invoke_signed id ix infos [] c) cpi_failed

  unfoldable pub deposit_reserve_liquidity : KlendAccounts → ℕ → Chain → Result Chain
  unfolding meta_new meta_new_readonly u64_data
  deposit_reserve_liquidity a liquidity_amount c =
      let ix : Instruction = record {
        program_id = a.klend_program.key;
        accounts =
            meta_new_readonly a.owner.key true
            ∷ meta_new a.reserve.key false
            ∷ meta_new_readonly a.lending_market.key false
            ∷ meta_new_readonly a.lending_market_authority.key false
            ∷ meta_new_readonly a.reserve_liquidity_mint.key false
            ∷ meta_new a.reserve_liquidity_supply.key false
            ∷ meta_new a.reserve_collateral_mint.key false
            ∷ meta_new a.user_liquidity.key false
            ∷ meta_new a.user_collateral.key false
            ∷ meta_new_readonly a.collateral_token_program.key false
            ∷ meta_new_readonly a.liquidity_token_program.key false
            ∷ meta_new_readonly a.instruction_sysvar.key false
            ∷ [];
        input = u64_data klend_deposit_reserve_liquidity liquidity_amount;
      } in
      let infos : List AccountInfo =
        a.owner ∷ a.reserve ∷ a.lending_market ∷ a.lending_market_authority
        ∷ a.reserve_liquidity_mint ∷ a.reserve_liquidity_supply ∷ a.reserve_collateral_mint
        ∷ a.user_liquidity ∷ a.user_collateral ∷ a.collateral_token_program
        ∷ a.liquidity_token_program ∷ a.instruction_sysvar ∷ [] in
      ok_or (rt.invoke_signed id ix infos [] c) cpi_failed

  unfoldable pub redeem_reserve_collateral : KlendAccounts → ℕ → Chain → Result Chain
  unfolding meta_new meta_new_readonly u64_data
  redeem_reserve_collateral a collateral_amount c =
      let ix : Instruction = record {
        program_id = a.klend_program.key;
        accounts =
            meta_new_readonly a.owner.key true
            ∷ meta_new_readonly a.lending_market.key false
            ∷ meta_new a.reserve.key false
            ∷ meta_new_readonly a.lending_market_authority.key false
            ∷ meta_new_readonly a.reserve_liquidity_mint.key false
            ∷ meta_new a.reserve_collateral_mint.key false
            ∷ meta_new a.reserve_liquidity_supply.key false
            ∷ meta_new a.user_collateral.key false
            ∷ meta_new a.user_liquidity.key false
            ∷ meta_new_readonly a.collateral_token_program.key false
            ∷ meta_new_readonly a.liquidity_token_program.key false
            ∷ meta_new_readonly a.instruction_sysvar.key false
            ∷ [];
        input = u64_data klend_redeem_reserve_collateral collateral_amount;
      } in
      let infos : List AccountInfo =
        a.owner ∷ a.lending_market ∷ a.reserve ∷ a.lending_market_authority
        ∷ a.reserve_liquidity_mint ∷ a.reserve_collateral_mint ∷ a.reserve_liquidity_supply
        ∷ a.user_collateral ∷ a.user_liquidity ∷ a.collateral_token_program
        ∷ a.liquidity_token_program ∷ a.instruction_sysvar ∷ [] in
      ok_or (rt.invoke_signed id ix infos [] c) cpi_failed

-- ===== src/Adapters/Drift/Stake.antt =====
-- The CPIs to Drift and the layout of its accounts (drift_cpi.rs).
use solana_yield_adapter_sta.Base.{
  ℕ, ◌==◌, true, false, List, [], ◌∷◌, ◌++◌, Pubkey, to_le_bytes, checked_mul, checked_div, try_u64,
  u128_mod, Result, ok, err, ◌>>=◌, ok_or, if◌then◌else◌,
}
use solana_yield_adapter_sta.Runtime.{
  Runtime, Chain, AccountMeta, AccountInfo, meta_new, meta_new_readonly,
}
use solana_yield_adapter_sta.Adapters.{math_overflow, cpi_failed, read_u64, read_u128}
use solana_yield_adapter_sta.Adapters.Drift.{id}

abbrev pub init_user_stats_disc : List ℕ
init_user_stats_disc = 254 ∷ 243 ∷ 72 ∷ 98 ∷ 251 ∷ 130 ∷ 168 ∷ 213 ∷ []

abbrev pub init_if_stake_disc : List ℕ
init_if_stake_disc = 187 ∷ 179 ∷ 243 ∷ 70 ∷ 248 ∷ 90 ∷ 92 ∷ 147 ∷ []

abbrev pub add_if_stake_disc : List ℕ
add_if_stake_disc = 251 ∷ 144 ∷ 115 ∷ 11 ∷ 222 ∷ 47 ∷ 62 ∷ 236 ∷ []

abbrev pub request_remove_if_stake_disc : List ℕ
request_remove_if_stake_disc = 142 ∷ 70 ∷ 204 ∷ 92 ∷ 73 ∷ 106 ∷ 180 ∷ 52 ∷ []

abbrev pub remove_if_stake_disc : List ℕ
remove_if_stake_disc = 128 ∷ 166 ∷ 142 ∷ 9 ∷ 254 ∷ 187 ∷ 143 ∷ 174 ∷ []

abbrev pub market_index : ℕ
market_index = 0

abbrev pub if_stake_shares : ℕ
if_stake_shares = 40

abbrev pub sm_if_total_shares : ℕ
sm_if_total_shares = 336

abbrev pub token_amount : ℕ
token_amount = 64

unfoldable pub stake_shares : List ℕ → Result ℕ
stake_shares if_stake_data = read_u128 if_stake_data if_stake_shares

unfoldable pub stake_value_usdc : List ℕ → List ℕ → List ℕ → Result ℕ
stake_value_usdc if_stake_data spot_market_data if_vault_data = do
  shares ← read_u128 if_stake_data if_stake_shares
  if shares == 0 then ok 0 else (do
    total ← read_u128 spot_market_data sm_if_total_shares
    if total == 0 then err math_overflow else (do
      vault ← read_u64 if_vault_data token_amount
      product ← ok_or (checked_mul u128_mod shares vault) math_overflow
      value ← ok_or (checked_div product total) math_overflow
      ok_or (try_u64 value) math_overflow))

module _ (rt : Runtime) where
  unfoldable pub cpi : Pubkey → List AccountMeta → List AccountInfo → List ℕ → Chain → Result Chain
  cpi program metas infos input c =
      ok_or
        (rt.invoke_signed id (record { program_id = program; accounts = metas; input = input })
          infos [] c)
        cpi_failed

  unfoldable pub init_user_stats :
      (program user_stats state authority payer rent system_program : AccountInfo)
      → Chain
      → Result Chain
  unfolding meta_new meta_new_readonly cpi
  init_user_stats program user_stats state authority payer rent system_program c =
      let metas : List AccountMeta =
        meta_new user_stats.key false
        ∷ meta_new state.key false
        ∷ meta_new_readonly authority.key false
        ∷ meta_new payer.key true
        ∷ meta_new_readonly rent.key false
        ∷ meta_new_readonly system_program.key false
        ∷ [] in
      let infos : List AccountInfo =
        program ∷ user_stats ∷ state ∷ authority ∷ payer ∷ rent ∷ system_program ∷ [] in
      cpi program.key metas infos init_user_stats_disc c

  unfoldable pub init_if_stake :
      (program spot_market if_stake user_stats state authority payer rent
        system_program : AccountInfo)
      → Chain
      → Result Chain
  unfolding meta_new meta_new_readonly cpi
  init_if_stake program spot_market if_stake user_stats state authority payer rent system_program
        c =
      let metas : List AccountMeta =
        meta_new_readonly spot_market.key false
        ∷ meta_new if_stake.key false
        ∷ meta_new user_stats.key false
        ∷ meta_new_readonly state.key false
        ∷ meta_new_readonly authority.key true
        ∷ meta_new payer.key true
        ∷ meta_new_readonly rent.key false
        ∷ meta_new_readonly system_program.key false
        ∷ [] in
      let infos : List AccountInfo =
        program ∷ spot_market ∷ if_stake ∷ user_stats ∷ state ∷ authority ∷ payer ∷ rent
        ∷ system_program ∷ [] in
      cpi program.key metas infos (init_if_stake_disc ++ to_le_bytes 2 market_index) c

  unfoldable pub add_stake :
      (program state spot_market if_stake user_stats authority spot_market_vault if_vault
        drift_signer user_token_account token_program : AccountInfo)
      → ℕ
      → Chain
      → Result Chain
  unfolding meta_new meta_new_readonly cpi
  add_stake program state spot_market if_stake user_stats authority spot_market_vault if_vault
        drift_signer user_token_account token_program amount c =
      let metas : List AccountMeta =
        meta_new_readonly state.key false
        ∷ meta_new spot_market.key false
        ∷ meta_new if_stake.key false
        ∷ meta_new user_stats.key false
        ∷ meta_new_readonly authority.key true
        ∷ meta_new spot_market_vault.key false
        ∷ meta_new if_vault.key false
        ∷ meta_new_readonly drift_signer.key false
        ∷ meta_new user_token_account.key false
        ∷ meta_new_readonly token_program.key false
        ∷ [] in
      let infos : List AccountInfo =
        program ∷ state ∷ spot_market ∷ if_stake ∷ user_stats ∷ authority ∷ spot_market_vault
        ∷ if_vault ∷ drift_signer ∷ user_token_account ∷ token_program ∷ [] in
      cpi program.key metas infos
        (add_if_stake_disc ++ (to_le_bytes 2 market_index ++ to_le_bytes 8 amount)) c

  unfoldable pub request_remove :
      (program spot_market if_stake user_stats authority if_vault : AccountInfo)
      → ℕ
      → Chain
      → Result Chain
  unfolding meta_new meta_new_readonly cpi
  request_remove program spot_market if_stake user_stats authority if_vault shares c =
      let metas : List AccountMeta =
        meta_new spot_market.key false
        ∷ meta_new if_stake.key false
        ∷ meta_new user_stats.key false
        ∷ meta_new_readonly authority.key true
        ∷ meta_new if_vault.key false
        ∷ [] in
      let infos : List AccountInfo =
        program ∷ spot_market ∷ if_stake ∷ user_stats ∷ authority ∷ if_vault ∷ [] in
      cpi program.key metas infos
        (request_remove_if_stake_disc ++ (to_le_bytes 2 market_index ++ to_le_bytes 8 shares)) c

  unfoldable pub remove_stake :
      (program state spot_market if_stake user_stats authority if_vault drift_signer
        user_token_account token_program : AccountInfo)
      → Chain
      → Result Chain
  unfolding meta_new meta_new_readonly cpi
  remove_stake program state spot_market if_stake user_stats authority if_vault drift_signer
        user_token_account token_program c =
      let metas : List AccountMeta =
        meta_new_readonly state.key false
        ∷ meta_new spot_market.key false
        ∷ meta_new if_stake.key false
        ∷ meta_new user_stats.key false
        ∷ meta_new_readonly authority.key true
        ∷ meta_new if_vault.key false
        ∷ meta_new_readonly drift_signer.key false
        ∷ meta_new user_token_account.key false
        ∷ meta_new_readonly token_program.key false
        ∷ [] in
      let infos : List AccountInfo =
        program ∷ state ∷ spot_market ∷ if_stake ∷ user_stats ∷ authority ∷ if_vault ∷ drift_signer
        ∷ user_token_account ∷ token_program ∷ [] in
      cpi program.key metas infos (remove_if_stake_disc ++ to_le_bytes 2 market_index) c
